-- ===== src/Server/Validate/Entries.antt =====
-- The checks of one window, one provider and one task accept exactly what the description says.
use codex_claude_monitor.Prelude.{
  ℕ, ◌≡◌, refl, ◌↔◌, false, Option, none, some, String, arith, eq_iff,
}
use codex_claude_monitor.Prelude.Result.{ok, reject-then_iff}
use codex_claude_monitor.Clock.{Instant}
use codex_claude_monitor.Float.{Float64, nan, neg_inf, pos_inf, fin, pos, negsuc, Round}
use codex_claude_monitor.Model.{
  LimitWindow, ProviderReport, ActiveTask, AgentReport, provider_codex, provider_claude, task_main,
  task_sub,
}
use codex_claude_monitor.Server.Validate.{
  out_of_range, validate_reset, validate_present_window, validate_window, validate_observed_at,
  validate_provider, validate_task, valid_session_id,
}
use codex_claude_monitor.Server.Validate.Spec.{
  IsPercent, HasReset, IsValidWindow, OptionAll, ObservedInTime, IsValidProvider, IsValidTask,
}

IsPercent-of_range : (x : Float64) → out_of_range x ≡ false → IsPercent x
IsPercent-of_range nan h = cc
IsPercent-of_range neg_inf h = cc
IsPercent-of_range pos_inf h = cc
IsPercent-of_range (fin (pos n)) h = (n, refl, ground arith)
IsPercent-of_range (fin (negsuc n)) h = ground arith

range_of_IsPercent : (x : Float64) → IsPercent x → out_of_range x ≡ false
range_of_IsPercent x (n, e, h) = rw e (ground arith)

module _ (w : LimitWindow) where
  HasReset-of_ok :
      (r : Option Instant)
      → IsPercent w.used_percent
      → IsPercent w.remaining_percent
      → validate_reset w r ≡ ok tt
      → HasReset w r
  unfolding validate_reset
  HasReset-of_ok none u v h = ground arith
  HasReset-of_ok (some t) u v h = ground arith

  ok_of_HasReset : (r : Option Instant) → HasReset w r → validate_reset w r ≡ ok tt
  unfolding validate_reset
  ok_of_HasReset none h = ground arith
  ok_of_HasReset (some t) h = ground arith

module _ (round : Round) where
  pub validate_present_window_iff :
      (w : LimitWindow) → (validate_present_window round w ≡ ok tt) ↔ IsValidWindow round w
  unfolding validate_present_window
  validate_present_window_iff w = (
    λ h.
        let (used, h1) = (reject-then_iff (out_of_range w.used_percent) _ _).0 h in
        let (remaining, h2) = (reject-then_iff (out_of_range w.remaining_percent) _ _).0 h1 in
        let (sum, reset) = (reject-then_iff _ _ _).0 h2 in
        let u = IsPercent-of_range w.used_percent used in
        let r = IsPercent-of_range w.remaining_percent remaining in
        record {
          used = u;
          remaining = r;
          sum = sum;
          reset = HasReset-of_ok w w.resets_at u r reset;
        },
    λ v. (reject-then_iff _ _ _).1 (
      range_of_IsPercent w.used_percent v.used,
      (reject-then_iff _ _ _).1 (
        range_of_IsPercent w.remaining_percent v.remaining,
        (reject-then_iff _ _ _).1 (v.sum, ok_of_HasReset w w.resets_at v.reset),
      ),
    ),
  )

  pub validate_window_iff :
      (provider name : String) (w : Option LimitWindow)
      → (validate_window round provider name w ≡ ok tt) ↔ OptionAll (IsValidWindow round) w
  unfolding validate_window
  validate_window_iff provider name none = (λ _. tt, λ _. refl)
  validate_window_iff provider name (some w) = (
    λ h. (validate_present_window_iff w).0 (ground arith),
    λ h. rw ((validate_present_window_iff w).1 h, validate_window) refl,
  )

validate_observed_at_iff :
    (report : AgentReport) (now : Instant) (provider : String) (r : ProviderReport)
    → (validate_observed_at report now provider r ≡ ok tt) ↔ ObservedInTime report now r
unfolding validate_observed_at
validate_observed_at_iff report now provider r = (λ h. ground arith, λ h. ground arith)

pub validate_task_iff :
    (report : AgentReport) (now : Instant) (i : ℕ) (task : ActiveTask)
    → (validate_task report now i task ≡ ok tt) ↔ IsValidTask report now task
unfolding validate_task valid_session_id
validate_task_iff report now i task = (
  λ h. ground (
    arith,
    eq_iff task.provider provider_codex,
    eq_iff task.provider provider_claude,
    eq_iff task.kind task_main,
    eq_iff task.kind task_sub,
  ),
  λ h. ground (
    arith,
    eq_iff task.provider provider_codex,
    eq_iff task.provider provider_claude,
    eq_iff task.kind task_main,
    eq_iff task.kind task_sub,
  ),
)

pub validate_provider_iff :
    (round : Round) (report : AgentReport) (now : Instant) (provider : String) (r : ProviderReport)
    → (validate_provider round report now provider r ≡ ok tt)
      ↔ IsValidProvider round report now (provider, r)
unfolding validate_provider
validate_provider_iff round report now provider r = (
  λ h. ground (
    arith,
    eq_iff provider provider_codex,
    eq_iff provider provider_claude,
    validate_observed_at_iff report now provider r,
    validate_window_iff round provider "fiveHour" r.windows.five_hour,
    validate_window_iff round provider "sevenDay" r.windows.seven_day,
  ),
  λ v. ground (
    arith,
    eq_iff provider provider_codex,
    eq_iff provider provider_claude,
    validate_observed_at_iff report now provider r,
    validate_window_iff round provider "fiveHour" r.windows.five_hour,
    validate_window_iff round provider "sevenDay" r.windows.seven_day,
  ),
)

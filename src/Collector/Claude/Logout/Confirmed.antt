-- ===== src/Collector/Claude/Logout/Confirmed.antt =====
-- When a collection reports a logout (internal/collector/claude.go).
use codex_claude_monitor.Prelude.{
  ℕ, suc, ◌<◌, ◌^◌, Bool, true, false, ◌&&◌, Option, none, some, List, [], ◌∷◌, length, leb,
  is_none, ◌==◌, if◌then◌else◌, ◌≡◌, arith, refl, ap, ◌∙◌, inl, inr, Bool-cases, subst,
}
use codex_claude_monitor.Prelude.Result.{Result, ok, err}
use codex_claude_monitor.Clock.{Instant}
use codex_claude_monitor.Model.{ProviderReport}
use codex_claude_monitor.Collector.Claude.{ClaudeError, parse_claude_auth_status}
use codex_claude_monitor.Collector.Claude.Logout.{
  Answers, Collector, new_claude, Outcome, confirm_logged_out, reset_logout_confirmation,
  finish_usage, unparsed, logged_out, logged_in, collect_with, collect,
}

-- The collector after a history of collections, the latest first.
unfoldable pub collector_after : List (Instant × Answers) → Collector
unfolding collect
collector_after [] = new_claude
collector_after ((now, answers) ∷ earlier) = (collect now answers (collector_after earlier)).1

-- The answer of `claude auth status` is a valid one that says that nobody is logged in.
abbrev says_logged_out_as : Result ClaudeError ProviderReport → Bool
says_logged_out_as (err e) = false
says_logged_out_as (ok auth) = if auth.auth_state == "authenticated" then false else true

abbrev pub says_logged_out : Instant × Answers → Bool
says_logged_out (now, answers) =
    says_logged_out_as (parse_claude_auth_status now answers.auth_output)

abbrev pub latest_says_logged_out : List (Instant × Answers) → Bool
latest_says_logged_out [] = false
latest_says_logged_out (p ∷ earlier) = says_logged_out p

-- How many of the latest answers say so in a row.
abbrev streak : List (Instant × Answers) → ℕ
streak [] = 0
streak (p ∷ earlier) = let n = streak earlier in if says_logged_out p then suc n else 0

-- A collection reports a logout: it has no error, and the state is not "authenticated".
abbrev pub reports_logout : Outcome → Bool
reports_logout (report, error) =
    is_none error && (if report.auth_state == "authenticated" then false else true)

streak-lt : (history : List (Instant × Answers)) → streak history < suc (length history)
streak-lt [] = omega arith
streak-lt (p ∷ earlier) = ground (arith, streak-lt earlier)

collect_with-count :
    (now : Instant) (answers : Answers) (c : Collector) (r : Result ClaudeError ProviderReport)
    → suc c.consecutive_logged_out < 2 ^ 63
    → (collect_with now answers c r).1.consecutive_logged_out
      ≡ (if says_logged_out_as r then suc c.consecutive_logged_out else 0)
unfolding collect_with confirm_logged_out reset_logout_confirmation
collect_with-count now answers c (err e) small = refl
collect_with-count now answers c (ok auth) small = ground arith

small_count :
    (history : List (Instant × Answers)) {n : ℕ}
    → n ≡ streak history
    → length history < 2 ^ 62
    → suc n < 2 ^ 63
small_count history e small = omega (arith, e, streak-lt history, small)

collector_after-count :
    (history : List (Instant × Answers))
    → length history < 2 ^ 62
    → (collector_after history).consecutive_logged_out ≡ streak history
unfolding collector_after collect
collector_after-count [] small = refl
collector_after-count ((now, answers) ∷ earlier) small =
    let ih = collector_after-count earlier (omega (arith, small)) in
    subst
      (λ n.
        (collector_after ((now, answers) ∷ earlier)).consecutive_logged_out
        ≡ (if says_logged_out (now, answers) then suc n else 0))
      ih
      (collect_with-count now answers (collector_after earlier)
        (parse_claude_auth_status now answers.auth_output)
        (small_count earlier ih (omega (arith, small))))

finish_usage-state :
    (auth : ProviderReport) (usage : Option (Result ClaudeError ProviderReport))
    → auth.auth_state == "authenticated" ≡ true
    → reports_logout (finish_usage auth usage) ≡ false
unfolding finish_usage
finish_usage-state auth none h = refl
finish_usage-state auth (some (err e)) h = refl
finish_usage-state auth (some (ok usage)) h = rw h refl

unparsed-reports_logout :
    (now : Instant) (failed : Bool) (e : ClaudeError)
    → reports_logout (unparsed now failed e) ≡ false
unparsed-reports_logout now true e = refl
unparsed-reports_logout now false e = refl

logged_in-reports_logout :
    (now : Instant) (auth : ProviderReport) (answers : Answers)
    → auth.auth_state == "authenticated" ≡ true
    → reports_logout (logged_in now auth answers) ≡ false
unfolding logged_in
logged_in-reports_logout now auth answers h = elim (Bool-cases answers.auth_failed) [
  | inl failed ↦ rw failed refl
  | inr ran ↦ rw ran (finish_usage-state auth answers.usage h)
]

logged_out-reports_logout :
    (now : Instant) (auth : ProviderReport) (confirmed : Bool)
    → auth.auth_state == "authenticated" ≡ false
    → reports_logout (logged_out now auth confirmed) ≡ confirmed
logged_out-reports_logout now auth true h = rw h refl
logged_out-reports_logout now auth false h = refl

confirm_logged_out-leb :
    (c : Collector)
    → suc c.consecutive_logged_out < 2 ^ 63
    → (confirm_logged_out c).0 ≡ leb 1 c.consecutive_logged_out
unfolding confirm_logged_out
confirm_logged_out-leb c small = ground arith

collect_with-reports_logout :
    (now : Instant) (answers : Answers) (c : Collector) (r : Result ClaudeError ProviderReport)
    → suc c.consecutive_logged_out < 2 ^ 63
    → reports_logout (collect_with now answers c r).0
      ≡ (says_logged_out_as r && leb 1 c.consecutive_logged_out)
unfolding collect_with
collect_with-reports_logout now answers c (err e) small =
    unparsed-reports_logout now answers.auth_failed e
collect_with-reports_logout now answers c (ok auth) small =
    elim (Bool-cases (auth.auth_state == "authenticated")) [
      | inl here ↦ rw here (logged_in-reports_logout now auth answers here)
      | inr away ↦ rw away (
          logged_out-reports_logout now auth (confirm_logged_out c).0 away
          ∙ confirm_logged_out-leb c small)
    ]

leb-streak :
    (history : List (Instant × Answers)) → leb 1 (streak history) ≡ latest_says_logged_out history
leb-streak [] = refl
leb-streak (p ∷ earlier) = ground arith

-- After fewer than 2^62 collections, the next one reports a logout exactly if its answer and the
-- answer before it both say that nobody is logged in: one such answer alone is never believed, and
-- an answer that cannot be read in between starts the count again.
pub collect-reports_logout :
    (history : List (Instant × Answers)) (now : Instant) (answers : Answers)
    → length history < 2 ^ 62
    → reports_logout (collect now answers (collector_after history)).0
      ≡ (says_logged_out (now, answers) && latest_says_logged_out history)
unfolding collect
collect-reports_logout history now answers small =
    let count = collector_after-count history small in
    collect_with-reports_logout now answers (collector_after history)
      (parse_claude_auth_status now answers.auth_output) (small_count history count small)
    ∙ ap (λ n. says_logged_out (now, answers) && leb 1 n) count
    ∙ ap (λ b. says_logged_out (now, answers) && b) (leb-streak history)

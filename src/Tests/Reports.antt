-- ===== src/Tests/Reports.antt =====
-- The theorems on internal/server/server.go and internal/model/normalize.go at concrete inputs.
use codex_claude_monitor.Prelude.{
  ℕ, ◌+◌, ◌-◌, ◌*◌, ◌^◌, ◌≤◌, ◌<◌, ◌≡◌, ◌≢◌, refl, ◌↔◌, true, false, some, none, List, [], ◌∷◌,
  arith,
}
use codex_claude_monitor.Prelude.GoMap.{lookup}
use codex_claude_monitor.Prelude.Result.{ok}
use codex_claude_monitor.Clock.{Instant, unix_epoch, second, minute, nanos, add, bias, zero_time}
use codex_claude_monitor.Float.{fin, pos, pos_inf, hundred, one, exact}
use codex_claude_monitor.Model.{
  LimitWindow, ProviderReport, ActiveTask, AgentReport, clamp_percent, new_limit_window,
  provider_codex, task_main,
}
use codex_claude_monitor.Float
use codex_claude_monitor.Server.Validate.{
  validate_agent_report, valid_agent_id, validate_entries, validate_providers, validate_provider,
  validate_observed_at, validate_window, validate_present_window, validate_tasks, validate_task,
  valid_session_id,
}
use codex_claude_monitor.Server.Validate.Spec.{IsValidReport, IsValidWindow}
use codex_claude_monitor.Server.Validate.Reports.{validate_agent_report_iff}
use codex_claude_monitor.Server.Validate.Produced.{
  clamp_percent_bounds, new_limit_window-IsValidWindow,
}
use codex_claude_monitor.Server.Limiter.{FixedWindowEntry, FixedWindowLimiter, allow}
use codex_claude_monitor.Server.Limiter.Window.{
  Request, admitted, IsWindow, Within, admitted_le_limit, retry_after_suffices,
}

abbrev pub now : Instant
now = unix_epoch + 1700000000 * second

abbrev pub half_used : LimitWindow
half_used = record {
  used_percent = fin (pos (50 * one));
  remaining_percent = fin (pos (50 * one));
  resets_at = some (now + 3600 * second);
}

abbrev pub codex_report : ProviderReport
codex_report = record {
  observed_at = now;
  auth_state = "authenticated";
  plan = "pro";
  source = "app-server";
  windows = record { five_hour = some half_used; seven_day = none };
  error_code = "";
}

abbrev pub main_task : ActiveTask
main_task = record {
  provider = provider_codex;
  kind = task_main;
  session_id = "s1";
  started_at = now;
  last_seen_at = now + 5 * second;
}

abbrev pub report_with : Instant → ProviderReport → AgentReport
report_with sent_at codex = record {
  schema_version = 1;
  agent_id = "laptop";
  sent_at = sent_at;
  providers = some ((provider_codex, codex) ∷ []);
  active_tasks = some (main_task ∷ []);
}

abbrev pub report_1 : AgentReport
report_1 = report_with now codex_report

-- The same report, sent a second later.
abbrev pub report_2 : AgentReport
report_2 = report_with (now + second) codex_report

-- A sample with a time of 2^64 nanoseconds ago.
abbrev pub ancient_sample : ProviderReport
ancient_sample = record codex_report { observed_at = now - 2 ^ 64 }

abbrev pub report_3 : AgentReport
report_3 = report_with now ancient_sample

pub report_1_accepted : validate_agent_report fin report_1 now ≡ ok tt
unfolding validate_agent_report valid_agent_id validate_entries validate_providers validate_provider
    validate_observed_at validate_window validate_present_window Float.abs Float.sub validate_tasks
    validate_task valid_session_id lookup
report_1_accepted = refl

pub report_2_accepted : validate_agent_report fin report_2 now ≡ ok tt
unfolding validate_agent_report valid_agent_id validate_entries validate_providers validate_provider
    validate_observed_at validate_window validate_present_window Float.abs Float.sub validate_tasks
    validate_task valid_session_id lookup
report_2_accepted = refl

pub report_3_accepted : validate_agent_report fin report_3 now ≡ ok tt
unfolding validate_agent_report valid_agent_id validate_entries validate_providers validate_provider
    validate_observed_at validate_window validate_present_window Float.abs Float.sub validate_tasks
    validate_task valid_session_id lookup
report_3_accepted = refl

validate_agent_report_iff_example :
    (validate_agent_report fin report_1 now ≡ ok tt) ↔ IsValidReport fin report_1 now
validate_agent_report_iff_example = validate_agent_report_iff fin report_1 now

clamp_percent_bounds_example : (n : ℕ) × (clamp_percent pos_inf ≡ fin (pos n)) × (n ≤ hundred)
clamp_percent_bounds_example = clamp_percent_bounds pos_inf

later : now ≢ zero_time
later = λ e. omega arith

new_limit_window-IsValidWindow_example :
    IsValidWindow fin (new_limit_window fin (fin (pos (130 * one))) now)
new_limit_window-IsValidWindow_example =
    new_limit_window-IsValidWindow fin exact (fin (pos (130 * one))) now later

abbrev limiter : FixedWindowLimiter
limiter = record {
  window = nanos minute;
  entries = ("10.0.0.1", record { start = now; hits = 1 }) ∷ [];
}

abbrev requests : List Request
requests =
    record { key = "10.0.0.1"; at = now + second }
    ∷ record { key = "10.0.0.2"; at = now + 2 * second }
    ∷ record { key = "10.0.0.1"; at = now + 3 * second }
    ∷ []

limiter_IsWindow : IsWindow limiter.window
limiter_IsWindow = record { positive = omega arith; short = omega arith }

abbrev entry_1 : FixedWindowEntry
entry_1 = record { start = now; hits = 1 }

found : lookup "10.0.0.1" limiter.entries ≡ some entry_1
unfolding lookup
found = refl

inside : Within limiter.window entry_1 requests
inside = (
  record { started = omega arith; running = omega arith },
  (
    record { started = omega arith; running = omega arith },
    (record { started = omega arith; running = omega arith }, tt),
  ),
)

admitted_le_limit_example : admitted (λ _. 2) limiter "10.0.0.1" requests + 1 ≤ 2
admitted_le_limit_example =
    admitted_le_limit (λ _. 2) "10.0.0.1" requests limiter entry_1 limiter_IsWindow found inside
      (omega arith)

refused : (allow limiter "10.0.0.1" (now + second) 1).allowed ≡ false
unfolding allow lookup
refused = refl

retry_after_suffices_example :
    (bias < (allow limiter "10.0.0.1" (now + second) 1).retry_after)
    × ((allow limiter "10.0.0.1" (now + second) 1).retry_after ≤ limiter.window)
    × ((allow limiter "10.0.0.1" (now + second) 1).limiter ≡ limiter)
    × ((allow limiter "10.0.0.1"
          (add (now + second) (allow limiter "10.0.0.1" (now + second) 1).retry_after)
          1).allowed
        ≡ true)
retry_after_suffices_example =
    retry_after_suffices limiter "10.0.0.1" (now + second) 1 limiter_IsWindow refused

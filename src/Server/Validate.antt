-- ===== src/Server/Validate.antt =====
-- `ValidateAgentReport` of internal/server/server.go and the checks that it calls.
--
-- An error carries what its message names; the texts of the messages are left out.
pub mod Spec
mod Entries
mod Keys
pub mod Reports
pub mod Produced
use Prim.Native.String.{len}
use Prim.Native.String
use codex_claude_monitor.Prelude.{
  ℕ, ◌+◌, ◌*◌, String, Bool, true, false, not, ◌||◌, ◌&&◌, Option, none, some, List, [], ◌∷◌, ltb,
  leb, nat_eq, length, is_none, ◌==◌, if◌then◌else◌,
}
use codex_claude_monitor.Prelude.GoMap.{GoMap, lookup, insert}
use codex_claude_monitor.Prelude.Text.{every, is_lower, is_upper, is_digit, is_control}
use codex_claude_monitor.Prelude.Result.{Result, ok, err, ◌>>=◌, ◌>>◌, Check, pass, reject}
use codex_claude_monitor.Clock.{Instant, Duration, nanos, neg, minute, is_zero, before, after}
use codex_claude_monitor.Clock
use codex_claude_monitor.Float.{Float64, Round, is_nan, is_inf, f0, f100, f001}
use codex_claude_monitor.Float
use codex_claude_monitor.Model.{
  schema_version, provider_codex, provider_claude, task_main, task_sub, LimitWindow, ProviderReport,
  ActiveTask, AgentReport,
}

abbrev pub max_future_skew : Duration
max_future_skew = nanos (5 * minute)

abbrev pub max_report_age : Duration
max_report_age = nanos (15 * minute)

pub data WindowError : Type 0 where
  used_range remaining_range sum_range reset_missing reset_zero : WindowError

pub data ReportError : Type 0 where
  unsupported_schema : ℕ → ReportError
  bad_agent_id sent_at_missing sent_at_future sent_at_old : ReportError
  providers_missing tasks_missing too_many_tasks : ReportError
  unsupported_provider metadata_too_long observed_at_missing observed_at_future :
      String → ReportError
  bad_window : String → String → WindowError → ReportError
  task_provider task_kind task_session task_times_missing : ℕ → ReportError
  task_times_order task_future task_duplicate : ℕ → ReportError

abbrev pub agent_id_char : ℕ → Bool
agent_id_char r =
    is_lower r || is_upper r || is_digit r || nat_eq r b'.' || nat_eq r b'_' || nat_eq r b'-'

unfoldable pub valid_agent_id : String → Bool
unfolding every
valid_agent_id value =
    if nat_eq (len value) 0 || ltb 64 (len value) then false else every agent_id_char value

unfoldable pub valid_session_id : String → Bool
unfolding every
valid_session_id value =
    if nat_eq (len value) 0 || ltb 256 (len value)
    then false
    else every (λ r. not (is_control r)) value

abbrev out_of_range : Float64 → Bool
out_of_range x = is_nan x || is_inf x || Float.lt x f0 || Float.lt f100 x

-- `window.ResetsAt == nil` allows only the unused window.
unfoldable pub validate_reset : LimitWindow → Option Instant → Check WindowError
validate_reset window none =
    reject (not (Float.eq window.used_percent f0) || not (Float.eq window.remaining_percent f100))
      reset_missing
validate_reset window (some resets_at) = reject (is_zero resets_at) reset_zero

-- The checks of a window that is there; `validateWindow` accepts a nil window.
unfoldable pub validate_present_window : Round → LimitWindow → Check WindowError
unfolding validate_reset
validate_present_window round window = do
  reject (out_of_range window.used_percent) used_range
  reject (out_of_range window.remaining_percent) remaining_range
  reject
      (Float.lt f001 (
        Float.abs
          (Float.sub round (Float.add round window.used_percent window.remaining_percent) f100)))
      sum_range
  validate_reset window window.resets_at

unfoldable pub validate_window : Round → String → String → Option LimitWindow → Check ReportError
validate_window round provider name none = pass
validate_window round provider name (some window) = elim (validate_present_window round window) [
  | ok _ ↦ pass
  | err e ↦ err (bad_window provider name e)
]

unfoldable pub validate_observed_at :
    AgentReport → Instant → String → ProviderReport → Check ReportError
validate_observed_at report now provider r =
    if is_zero r.observed_at
    then reject (not (is_none r.windows.five_hour) || not (is_none r.windows.seven_day))
        (observed_at_missing provider)
    else reject
        (after r.observed_at (Clock.add report.sent_at max_future_skew)
          || after r.observed_at (Clock.add now max_future_skew))
        (observed_at_future provider)

-- The body of the loop over `report.Providers`.
unfoldable pub validate_provider :
    Round → AgentReport → Instant → String → ProviderReport → Check ReportError
validate_provider round report now provider r = do
  reject (not (provider == provider_codex) && not (provider == provider_claude))
      (unsupported_provider provider)
  reject
      (ltb 64 (len r.auth_state)
        || ltb 128 (len r.plan)
        || ltb 128 (len r.source)
        || ltb 128 (len r.error_code))
      (metadata_too_long provider)
  validate_observed_at report now provider r
  validate_window round provider "fiveHour" r.windows.five_hour
  validate_window round provider "sevenDay" r.windows.seven_day

unfoldable pub validate_providers :
    Round → AgentReport → Instant → GoMap ProviderReport → Check ReportError
validate_providers round report now [] = pass
validate_providers round report now ((provider, r) ∷ rest) = do
  validate_provider round report now provider r
  validate_providers round report now rest

-- string(task.Provider) + "\x00" + task.SessionID
abbrev pub task_key : ActiveTask → String
task_key task = String.◌++◌ task.provider (String.◌++◌ "\0" task.session_id)

-- The checks of the task at index `i`, up to the one for duplicates.
unfoldable pub validate_task : AgentReport → Instant → ℕ → ActiveTask → Check ReportError
validate_task report now i task = do
  reject (not (task.provider == provider_codex) && not (task.provider == provider_claude))
      (task_provider i)
  reject (not (task.kind == task_main) && not (task.kind == task_sub)) (task_kind i)
  reject (not (valid_session_id task.session_id)) (task_session i)
  reject (is_zero task.started_at || is_zero task.last_seen_at) (task_times_missing i)
  reject (before task.last_seen_at task.started_at) (task_times_order i)
  reject
      (after task.started_at (Clock.add now max_future_skew)
        || after task.last_seen_at (Clock.add now max_future_skew)
        || after task.started_at (Clock.add report.sent_at max_future_skew)
        || after task.last_seen_at (Clock.add report.sent_at max_future_skew))
      (task_future i)

-- The loop over `report.ActiveTasks`, from index `i` on, with the keys seen so far.
unfoldable pub validate_tasks :
    AgentReport → Instant → ℕ → GoMap (Unit {0}) → List ActiveTask → Check ReportError
validate_tasks report now i seen [] = pass
validate_tasks report now i seen (task ∷ rest) = do
  validate_task report now i task
  reject (not (is_none (lookup (task_key task) seen))) (task_duplicate i)
  validate_tasks report now (i + 1) (insert (task_key task) tt seen) rest

-- The loops, after the guards on the report as a whole.
unfoldable pub validate_entries :
    Round
    → AgentReport
    → Instant
    → Option (GoMap ProviderReport)
    → Option (List ActiveTask)
    → Check ReportError
validate_entries round report now none tasks = err providers_missing
validate_entries round report now (some providers) none = err tasks_missing
validate_entries round report now (some providers) (some tasks) = do
  reject (ltb 256 (length tasks)) too_many_tasks
  validate_providers round report now providers
  validate_tasks report now 0 [] tasks

unfoldable pub validate_agent_report : Round → AgentReport → Instant → Check ReportError
validate_agent_report round report now = do
  reject (not (nat_eq report.schema_version schema_version))
      (unsupported_schema report.schema_version)
  reject (not (valid_agent_id report.agent_id)) bad_agent_id
  reject (is_zero report.sent_at) sent_at_missing
  reject (after report.sent_at (Clock.add now max_future_skew)) sent_at_future
  reject (before report.sent_at (Clock.add now (neg max_report_age))) sent_at_old
  validate_entries round report now report.providers report.active_tasks

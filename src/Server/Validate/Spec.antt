-- ===== src/Server/Validate/Spec.antt =====
-- The reports that the server accepts, described without the order of the checks of
-- `ValidateAgentReport` (internal/server/server.go).
use Prim.Native.String.{len}
use codex_claude_monitor.Prelude.{
  ℕ, ◌+◌, ◌*◌, ◌≤◌, ◌<◌, String, ◌≡◌, ◌≢◌, ◌⊎◌, true, false, not, Option, none, some, List, [], ◌∷◌,
  All, length,
}
use codex_claude_monitor.Prelude.GoMap.{GoMap}
use codex_claude_monitor.Prelude.Text.{every, is_control}
use codex_claude_monitor.Clock.{Instant, zero_time, minute}
use codex_claude_monitor.Float.{Float64, fin, pos, Round, f001, f100, hundred}
use codex_claude_monitor.Float
use codex_claude_monitor.Model.{
  provider_codex, provider_claude, task_main, task_sub, LimitWindow, ProviderReport, ActiveTask,
  AgentReport,
}
use codex_claude_monitor.Server.Validate.{agent_id_char}

abbrev pub IsProvider : String → Type 0
IsProvider p = (p ≡ provider_codex) ⊎ (p ≡ provider_claude)

-- A finite value from 0 to 100.
abbrev pub IsPercent : Float64 → Type 0
IsPercent x = (n : ℕ) × (x ≡ fin (pos n)) × (n ≤ hundred)

-- Both percentages are in range and add up to 100, up to 0.01 in float64 arithmetic; a window
-- without a reset time is unused.
abbrev pub HasReset : LimitWindow → Option Instant → Type 0
HasReset w none = (w.used_percent ≡ fin (pos 0)) × (w.remaining_percent ≡ fin (pos hundred))
HasReset w (some t) = t ≢ zero_time

pub record IsValidWindow (round : Round) (w : LimitWindow) : Type 0 where
  pub used : IsPercent w.used_percent
  pub remaining : IsPercent w.remaining_percent
  pub sum :
      Float.lt f001
        (Float.abs (Float.sub round (Float.add round w.used_percent w.remaining_percent) f100))
      ≡ false
  pub reset : HasReset w w.resets_at

abbrev pub OptionAll : (LimitWindow → Type 0) → Option LimitWindow → Type 0
OptionAll P none = Unit
OptionAll P (some w) = P w

-- A report with no observation time has no windows; any other was observed at most five minutes
-- after it was sent, and at most five minutes from now.
abbrev pub ObservedInTime : AgentReport → Instant → ProviderReport → Type 0
ObservedInTime report now r =
    ((r.observed_at ≡ zero_time) × (r.windows.five_hour ≡ none) × (r.windows.seven_day ≡ none))
    ⊎ ((r.observed_at ≢ zero_time)
        × (r.observed_at ≤ report.sent_at + 5 * minute)
        × (r.observed_at ≤ now + 5 * minute))

pub record IsValidProvider (round : Round) (report : AgentReport) (now : Instant)
    (entry : String × ProviderReport) : Type 0 where
  pub known : IsProvider entry.0
  pub auth_state : len entry.1.auth_state ≤ 64
  pub plan : len entry.1.plan ≤ 128
  pub source : len entry.1.source ≤ 128
  pub error_code : len entry.1.error_code ≤ 128
  pub observed : ObservedInTime report now entry.1
  pub five_hour : OptionAll (IsValidWindow round) entry.1.windows.five_hour
  pub seven_day : OptionAll (IsValidWindow round) entry.1.windows.seven_day

pub record IsValidTask (report : AgentReport) (now : Instant) (task : ActiveTask) : Type 0 where
  pub provider : IsProvider task.provider
  pub kind : (task.kind ≡ task_main) ⊎ (task.kind ≡ task_sub)
  pub session_present : 0 < len task.session_id
  pub session_short : len task.session_id ≤ 256
  pub session_printable : every (λ r. not (is_control r)) task.session_id ≡ true
  pub started : task.started_at ≢ zero_time
  pub seen : task.last_seen_at ≢ zero_time
  pub ordered : task.started_at ≤ task.last_seen_at
  pub not_after_now : task.last_seen_at ≤ now + 5 * minute
  pub not_after_sent : task.last_seen_at ≤ report.sent_at + 5 * minute

-- Two tasks of one session of one provider.
abbrev pub SameSession : ActiveTask → ActiveTask → Type 0
SameSession t u = (t.provider ≡ u.provider) × (t.session_id ≡ u.session_id)

abbrev pub DistinctSessions : List ActiveTask → Type 0
DistinctSessions [] = Unit
DistinctSessions (t ∷ ts) = All (λ u. ¬ SameSession t u) ts × DistinctSessions ts

pub record IsValidReport (round : Round) (report : AgentReport) (now : Instant) : Type 0 where
  pub schema : report.schema_version ≡ 1
  pub agent_present : 0 < len report.agent_id
  pub agent_short : len report.agent_id ≤ 64
  pub agent_chars : every agent_id_char report.agent_id ≡ true
  pub sent : report.sent_at ≢ zero_time
  pub not_future : report.sent_at ≤ now + 5 * minute
  pub not_old : now ≤ report.sent_at + 15 * minute
  pub providers : GoMap ProviderReport
  pub providers_present : report.providers ≡ some providers
  pub providers_valid : All (IsValidProvider round report now) providers
  pub tasks : List ActiveTask
  pub tasks_present : report.active_tasks ≡ some tasks
  pub tasks_few : length tasks ≤ 256
  pub tasks_valid : All (IsValidTask report now) tasks
  pub sessions : DistinctSessions tasks

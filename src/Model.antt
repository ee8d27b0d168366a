-- ===== src/Model.antt =====
-- internal/model/types.go and internal/model/normalize.go: the data that agents, the server and
-- the display exchange. A Go string is a text, a nil pointer or a nil slice is `none`, and a Go
-- map is a `GoMap`.
use codex_claude_monitor.Prelude.{
  ℕ, String, Bool, ◌||◌, Option, none, some, List, ◌==◌, if◌then◌else◌,
}
use codex_claude_monitor.Prelude.GoMap.{GoMap}
use codex_claude_monitor.Clock.{Instant}
use codex_claude_monitor.Float
use codex_claude_monitor.Float.{Float64, Round, is_nan, is_inf, f0, f100}

abbrev pub schema_version : ℕ
schema_version = 1

abbrev pub provider_codex : String
provider_codex = "codex"

abbrev pub provider_claude : String
provider_claude = "claude"

abbrev pub task_main : String
task_main = "main"

abbrev pub task_sub : String
task_sub = "sub"

pub data Freshness : Type 0 where
  fresh stale unavailable : Freshness

pub record LimitWindow : Type 0 where
  pub used_percent : Float64
  pub remaining_percent : Float64
  pub resets_at : Option Instant

pub record ProviderWindows : Type 0 where
  pub five_hour : Option LimitWindow
  pub seven_day : Option LimitWindow

abbrev pub no_windows : ProviderWindows
no_windows = record { five_hour = none; seven_day = none }

pub record ProviderReport : Type 0 where
  pub observed_at : Instant
  pub auth_state : String
  pub plan : String
  pub source : String
  pub windows : ProviderWindows
  pub error_code : String

pub record ActiveTask : Type 0 where
  pub provider : String
  pub kind : String
  pub session_id : String
  pub started_at : Instant
  pub last_seen_at : Instant

-- The schema version is a Go int; one below 0 is, like any but 1, refused by the server.
pub record AgentReport : Type 0 where
  pub schema_version : ℕ
  pub agent_id : String
  pub sent_at : Instant
  pub providers : Option (GoMap ProviderReport)
  pub active_tasks : Option (List ActiveTask)

pub record ProviderSnapshot : Type 0 where
  pub observed_at : Option Instant
  pub freshness : Freshness
  pub login_required : Bool
  pub plan : String
  pub source : String
  pub windows : ProviderWindows

pub record TaskCount : Type 0 where
  pub main : ℕ
  pub sub : ℕ

pub record TaskSummary : Type 0 where
  pub codex : TaskCount
  pub claude : TaskCount
  pub total : TaskCount

pub record AgentSummary : Type 0 where
  pub online : ℕ
  pub total : ℕ

pub record DisplaySnapshot : Type 0 where
  pub schema_version : ℕ
  pub generated_at : Instant
  pub providers : GoMap ProviderSnapshot
  pub tasks : TaskSummary
  pub agents : AgentSummary
  pub warnings : List String

unfoldable pub clamp_percent : Float64 → Float64
clamp_percent value =
    if is_nan value || is_inf value || Float.lt value f0
    then f0
    else if Float.lt f100 value
    then f100
    else value

-- Times are kept in UTC throughout, so `resetsAt.UTC()` is `resets_at`.
unfoldable pub new_limit_window : Round → Float64 → Instant → LimitWindow
unfolding clamp_percent Float.sub
new_limit_window round used resets_at =
    let clamped = clamp_percent used in
    record {
      used_percent = clamped;
      remaining_percent = Float.sub round f100 clamped;
      resets_at = some resets_at;
    }

unfoldable pub valid_provider : String → Bool
valid_provider provider = provider == provider_codex || provider == provider_claude

unfoldable pub valid_task_kind : String → Bool
valid_task_kind kind = kind == task_main || kind == task_sub

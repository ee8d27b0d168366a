-- ===== src/Hooks.antt =====
-- internal/hooks/event.go: the event that a provider hook sends to the agent.
pub mod Files
pub mod Settings
pub mod Install
pub mod Parse
use codex_claude_monitor.Prelude.{String, Bool}
use codex_claude_monitor.Clock.{Instant}

pub record Event : Type 0 where
  pub provider : String
  pub name : String
  pub session_id : String
  pub task_id : String
  pub at : Instant
  pub probe : Bool

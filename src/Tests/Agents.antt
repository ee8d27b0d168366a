-- ===== src/Tests/Agents.antt =====
-- The theorems on internal/agent/ledger.go at concrete inputs.
use codex_claude_monitor.Prelude.{
  ◌+◌, ◌≤◌, ◌^◌, ◌*◌, ◌≡◌, ◌≢◌, refl, ◌↔◌, String, false, some, none, [], ◌∷◌, arith,
}
use codex_claude_monitor.Prelude.GoMap.{lookup, insert}
use codex_claude_monitor.Prelude.Text.{trim_space}
use codex_claude_monitor.Prelude.GoMap.Unique.{UniqueKeys, only_if}
use codex_claude_monitor.Prelude.Result.{ok}
use codex_claude_monitor.Clock.{Instant, unix_epoch, second, minute, nanos}
use codex_claude_monitor.Float.{fin}
use codex_claude_monitor.Hooks.{Event}
use codex_claude_monitor.Model.{AgentReport, provider_codex, task_main}
use codex_claude_monitor.Agent.Ledger.{
  TaskRecord, Ledger, new_ledger, live, main_key, event_time, apply, snapshot, dispatch,
  on_subagent_start, start_key, prune, on_prompt, ledger_key, sub_task_id,
}
use codex_claude_monitor.Agent.Ledger.Life.{life, lookup-apply}
use codex_claude_monitor.Agent.Ledger.Snapshot.{
  Has, InOrderBySession, Has-snapshot_iff, snapshot-InOrderBySession,
}
use codex_claude_monitor.Agent.Ledger.Traces.{
  History, replay, replay-UniqueKeys, Any, StartedAt, provenance,
}
use codex_claude_monitor.Agent.LateEvents.{late_event_refuses_reports}
use codex_claude_monitor.Server.Validate.{validate_agent_report}

abbrev noon : Instant
noon = unix_epoch + 1700000000 * second

abbrev prompt : Event
prompt = record {
  provider = provider_codex;
  name = "UserPromptSubmit";
  session_id = "s1";
  task_id = "";
  at = noon;
  probe = false;
}

abbrev subagent : Event
subagent = record {
  provider = provider_codex;
  name = "SubagentStart";
  session_id = "s1";
  task_id = " a ";
  at = noon + second;
  probe = false;
}

-- A tool use that happened before the prompt and arrives after it.
abbrev late_tool : Event
late_tool = record {
  provider = provider_codex;
  name = "PostToolUse";
  session_id = "s1";
  task_id = "";
  at = unix_epoch + 1699999999 * second;
  probe = false;
}

abbrev history : History
history = (noon + second, subagent) ∷ (noon, prompt) ∷ []

abbrev ledger_1 : Ledger
ledger_1 = replay (nanos (15 * minute)) history

abbrev main_record : TaskRecord
main_record = record {
  task = record {
    provider = provider_codex;
    kind = task_main;
    session_id = "s1";
    started_at = noon;
    last_seen_at = noon;
  };
  parent = "s1";
}

ledger_1-UniqueKeys : UniqueKeys ledger_1.tasks
ledger_1-UniqueKeys = replay-UniqueKeys (nanos (15 * minute)) history

main_there : lookup (main_key prompt) ledger_1.tasks ≡ some main_record
unfolding lookup replay apply event_time new_ledger dispatch on_subagent_start start_key prune
    on_prompt insert ledger_key sub_task_id trim_space
main_there = refl

provenance_example :
    Any (StartedAt (new_ledger (nanos (15 * minute))).ttl (main_key prompt) noon) history
provenance_example =
    provenance (nanos (15 * minute)) history (main_key prompt) main_record main_there

lookup-apply_example :
    lookup (main_key prompt) (apply ledger_1 noon late_tool).tasks
    ≡ elim (event_time ledger_1.ttl noon late_tool) [
      | none ↦ lookup (main_key prompt) ledger_1.tasks
      | some at ↦
          life late_tool at
            (main_key prompt)
            (only_if (live ledger_1.ttl at) (lookup (main_key prompt) ledger_1.tasks))
    ]
lookup-apply_example = lookup-apply ledger_1 noon late_tool (main_key prompt) ledger_1-UniqueKeys

Has-snapshot_iff_example : Has main_record.task (snapshot ledger_1 noon).0 ↔ (
    (k : String) × (r : TaskRecord) × (lookup k ledger_1.tasks ≡ some r)
    × (noon + 2 ^ 63 ≤ r.task.last_seen_at + ledger_1.ttl)
    × (r.task ≡ main_record.task))
unfolding replay apply event_time new_ledger
Has-snapshot_iff_example =
    Has-snapshot_iff ledger_1 noon main_record.task ledger_1-UniqueKeys (omega arith)

snapshot-InOrderBySession_example : InOrderBySession (snapshot ledger_1 noon).0
snapshot-InOrderBySession_example = snapshot-InOrderBySession ledger_1 noon

abbrev ledger_2 : Ledger
ledger_2 = record { ttl = nanos (15 * minute); tasks = (main_key prompt, main_record) ∷ [] }

ledger_2-UniqueKeys : UniqueKeys ledger_2.tasks
unfolding lookup
ledger_2-UniqueKeys = (refl, tt)

main_in_2 : lookup (main_key late_tool) ledger_2.tasks ≡ some main_record
unfolding lookup ledger_key
main_in_2 = refl

tool_counts : event_time ledger_2.ttl noon late_tool ≡ some late_tool.at
unfolding event_time
tool_counts = refl

abbrev late_report : AgentReport
late_report = record {
  schema_version = 1;
  agent_id = "laptop";
  sent_at = noon;
  providers = some [];
  active_tasks = some (snapshot (apply ledger_2 noon late_tool) noon).0;
}

late_event_refuses_reports_example : validate_agent_report fin late_report noon ≢ ok tt
late_event_refuses_reports_example =
    late_event_refuses_reports ledger_2 noon noon late_tool main_record fin late_report noon
      ledger_2-UniqueKeys refl tool_counts main_in_2 refl (omega arith) refl refl

-- ===== src/Agent/LateEvents.antt =====
-- The agent's ledger (internal/agent/ledger.go) and the server's validation
-- (internal/server/server.go) together: a hook event that arrives late.
use codex_claude_monitor.Prelude.{
  ◌<◌, ◌≡◌, ◌≢◌, refl, sym, subst, inl, inr, true, some, List, [], ◌∷◌, All, arith,
}
use codex_claude_monitor.Prelude.GoMap.{lookup}
use codex_claude_monitor.Prelude.GoMap.Unique.{UniqueKeys}
use codex_claude_monitor.Prelude.Result.{ok}
use codex_claude_monitor.Clock.{Instant}
use codex_claude_monitor.Float.{Round}
use codex_claude_monitor.Hooks.{Event}
use codex_claude_monitor.Model.{ActiveTask, AgentReport}
use codex_claude_monitor.Agent.Ledger.{
  TaskRecord, Ledger, live, touch, main_key, event_time, apply, snapshot,
}
use codex_claude_monitor.Agent.Ledger.Life.{apply-UniqueKeys}
use codex_claude_monitor.Agent.Ledger.Snapshot.{Has, shown}
use codex_claude_monitor.Agent.Ledger.Traces.{late_event, ttl-apply}
use codex_claude_monitor.Server.Validate.{validate_agent_report}
use codex_claude_monitor.Server.Validate.Spec.{IsValidTask, IsValidReport}
use codex_claude_monitor.Server.Validate.Reports.{validate_agent_report_iff}

All-Has :
    (P : ActiveTask → Type 0) (t : ActiveTask) (ts : List ActiveTask) → All P ts → Has t ts → P t
All-Has P t [] a h = absurd h
All-Has P t (u ∷ us) a (inl e) = subst P (sym e) a.0
All-Has P t (u ∷ us) a (inr h) = All-Has P t us a.1 h

valid_tasks_in_order :
    (round : Round) (report : AgentReport) (now : Instant) (ts : List ActiveTask) (t : ActiveTask)
    → IsValidReport round report now
    → report.active_tasks ≡ some ts
    → Has t ts
    → t.last_seen_at < t.started_at
    → ⊥
valid_tasks_in_order round report now ts t v e h late =
    let same : v.tasks ≡ ts = ground (arith, v.tasks_present) in
    let ok_t : IsValidTask report now t =
      All-Has (IsValidTask report now) t v.tasks v.tasks_valid
        (subst (λ x. Has t x) (sym same) h) in
    omega (arith, ok_t.ordered)

-- A tool use that counts at a time before the start of its session's task, as when two hooks
-- overtake one another, makes the server refuse every report with the snapshots that follow, as
-- long as the ledger has not seen another event and the task has not expired.
pub late_event_refuses_reports :
    (l : Ledger) (clock later : Instant) (event : Event) (r : TaskRecord) (round : Round)
    (report : AgentReport) (now : Instant)
    → UniqueKeys l.tasks
    → event.name ≡ "PostToolUse"
    → event_time l.ttl clock event ≡ some event.at
    → lookup (main_key event) l.tasks ≡ some r
    → live l.ttl event.at r ≡ true
    → event.at < r.task.started_at
    → live l.ttl later (touch event.at r) ≡ true
    → report.active_tasks ≡ some (snapshot (apply l clock event) later).0
    → validate_agent_report round report now ≢ ok tt
late_event_refuses_reports l clock later event r round report now u tool counts there alive late
      still sent accepted =
    valid_tasks_in_order round report now (snapshot (apply l clock event) later).0
      (touch event.at r).task ((validate_agent_report_iff round report now).0 accepted) sent
      (shown (apply l clock event) later (touch event.at r).task (apply-UniqueKeys l clock event u)
        (
          main_key event,
          touch event.at r,
          late_event l clock event r u tool counts there alive,
          subst (λ d. live d later (touch event.at r) ≡ true) (sym (ttl-apply l clock event)) still,
          refl,
        ))
      late

-- ===== src/Agent/Ledger/Traces.antt =====
-- The ledger after a history of events: where its tasks come from, and what a late event does
-- (internal/agent/ledger.go).
use codex_claude_monitor.Prelude.{
  String, ◌≡◌, refl, sym, ap, subst, ◌∙◌, ◌⊎◌, inl, inr, Bool, true, Option, none, some, List, [],
  ◌∷◌, arith, ◌==◌, eq_iff, Option-cases,
}
use codex_claude_monitor.Prelude.GoMap.{lookup}
use codex_claude_monitor.Prelude.GoMap.Unique.{UniqueKeys, only_if}
use codex_claude_monitor.Clock.{Instant, Duration}
use codex_claude_monitor.Hooks.{Event}
use codex_claude_monitor.Agent.Ledger.{
  TaskRecord, Ledger, live, touch, main_key, sub_key, event_time, new_ledger, apply,
}
use codex_claude_monitor.Agent.Ledger.Life.{
  Effect, leave, see, stop, start, stop_if, effect, outcome, lookup-apply, apply-UniqueKeys,
}

-- The events in the order of their arrival, newest first, each with the time of its arrival.
abbrev pub History : Type 0
History = List (Instant × Event)

unfoldable pub replay : Duration → History → Ledger
replay ttl [] = new_ledger ttl
replay ttl ((clock, event) ∷ earlier) = apply (replay ttl earlier) clock event

abbrev pub Any : (Instant × Event → Type 0) → History → Type 0
Any P [] = ⊥
Any P (x ∷ earlier) = P x ⊎ Any P earlier

pub replay-UniqueKeys : (ttl : Duration) (h : History) → UniqueKeys (replay ttl h).tasks
unfolding replay new_ledger
replay-UniqueKeys ttl [] = tt
replay-UniqueKeys ttl ((clock, event) ∷ earlier) =
    apply-UniqueKeys (replay ttl earlier) clock event (replay-UniqueKeys ttl earlier)

-- The event starts the task of key `k`.
abbrev pub Starts : String → Event → Type 0
Starts k event =
    ((event.name ≡ "UserPromptSubmit") × (main_key event ≡ k))
    ⊎ ((event.name ≡ "SubagentStart") × (sub_key event ≡ k))

effect_start :
    (event : Event) (now : Instant) (k : String) (fresh : TaskRecord)
    → effect event now k ≡ start fresh
    → (fresh.task.started_at ≡ now) × Starts k event
effect_start event now k fresh h = ground (
  arith,
  eq_iff event.name "UserPromptSubmit",
  eq_iff event.name "SubagentStart",
  eq_iff (main_key event) k,
  eq_iff (sub_key event) k,
)

-- A record comes from an earlier one with the same start, or the effect starts it.
outcome_origin :
    (e : Effect) (now : Instant) (o : Option TaskRecord) (r : TaskRecord)
    → outcome e now o ≡ some r
    → ((q : TaskRecord) × (o ≡ some q) × (r.task.started_at ≡ q.task.started_at)) ⊎ (e ≡ start r)
outcome_origin leave now o r h = inl (r, h, refl)
outcome_origin see now none r h = cc
outcome_origin see now (some q) r h = inl (q, refl, ground arith)
outcome_origin stop now o r h = cc
outcome_origin (start fresh) now none r h = inr (ground arith)
outcome_origin (start fresh) now (some q) r h = inl (q, refl, ground arith)
outcome_origin (stop_if p) now none r h = cc
outcome_origin (stop_if p) now (some q) r h = inl (q, refl, ground arith)

only_if-some :
    (p : TaskRecord → Bool) (o : Option TaskRecord) (q : TaskRecord)
    → only_if p o ≡ some q
    → (o ≡ some q) × (p q ≡ true)
only_if-some p o q h = ground arith

-- An event of the history that started the task of `k` and counted at the time `t`.
abbrev pub StartedAt : Duration → String → Instant → Instant × Event → Type 0
StartedAt ttl k t (clock, event) = (event_time ttl clock event ≡ some t) × Starts k event

pub ttl-apply : (l : Ledger) (clock : Instant) (event : Event) → (apply l clock event).ttl ≡ l.ttl
unfolding apply
ttl-apply l clock event = ground arith

ttl-replay : (ttl : Duration) (h : History) → (replay ttl h).ttl ≡ (new_ledger ttl).ttl
unfolding replay
ttl-replay ttl [] = refl
ttl-replay ttl ((clock, event) ∷ earlier) =
    ttl-apply (replay ttl earlier) clock event ∙ ttl-replay ttl earlier

-- The record of a key after one more event, and where it comes from.
apply_origin :
    (l : Ledger) (clock : Instant) (event : Event) (k : String) (r : TaskRecord)
    → UniqueKeys l.tasks
    → lookup k (apply l clock event).tasks ≡ some r
    → ((q : TaskRecord) × (lookup k l.tasks ≡ some q) × (r.task.started_at ≡ q.task.started_at))
      ⊎ StartedAt l.ttl k r.task.started_at (clock, event)
apply_origin l clock event k r u h = elim (Option-cases (event_time l.ttl clock event)) [
  | inl dropped ↦ inl (r, rw (lookup-apply l clock event k u, dropped) at h, refl)
  | inr (now, counts) ↦
      elim (outcome_origin (effect event now k) now _ r
        (rw (lookup-apply l clock event k u, counts) at h)) [
          | inl (q, old, same) ↦ inl (q, (only_if-some (live l.ttl now) _ q old).0, same)
          | inr fresh ↦
              let (at_now, starts) = effect_start event now k r fresh in
              inr (counts ∙ ap some (sym at_now), starts)
        ]
]

-- No phantom tasks: whatever the history, every task of the ledger was started by a prompt or by
-- the start of a subagent in it, and its start time is the time at which that event counted.
pub provenance :
    (ttl : Duration) (h : History) (k : String) (r : TaskRecord)
    → lookup k (replay ttl h).tasks ≡ some r
    → Any (StartedAt (new_ledger ttl).ttl k r.task.started_at) h
unfolding replay
provenance ttl [] k r e = unfold new_ledger lookup in cc
provenance ttl ((clock, event) ∷ earlier) k r e =
    elim (apply_origin (replay ttl earlier) clock event k r (replay-UniqueKeys ttl earlier) e) [
      | inl (q, old, same) ↦ inr (
          subst (λ t. Any (StartedAt (new_ledger ttl).ttl k t) earlier) (sym same)
            (provenance ttl earlier k q old))
      | inr starts ↦ inl (
          subst (λ d. StartedAt d k r.task.started_at (clock, event)) (ttl-replay ttl earlier)
            starts)
    ]

effect_tool_use :
    (event : Event) (now : Instant)
    → event.name ≡ "PostToolUse"
    → effect event now (main_key event) ≡ see
effect_tool_use event now h = ground (
  arith,
  eq_iff event.name "PostToolUse",
  eq_iff event.name "UserPromptSubmit",
  eq_iff (main_key event) (main_key event),
  ap (λ s. s == "UserPromptSubmit") h,
)

-- A tool use that counts at a time before the start of the task of its session: the task's last
-- sign of life then lies before its start.
pub late_event :
    (l : Ledger) (clock : Instant) (event : Event) (r : TaskRecord)
    → UniqueKeys l.tasks
    → event.name ≡ "PostToolUse"
    → event_time l.ttl clock event ≡ some event.at
    → lookup (main_key event) l.tasks ≡ some r
    → live l.ttl event.at r ≡ true
    → lookup (main_key event) (apply l clock event).tasks ≡ some (touch event.at r)
late_event l clock event r u tool counts there alive =
    rw
      (
        lookup-apply l clock event (main_key event) u,
        counts,
        effect_tool_use event event.at tool,
        there,
        alive,
      )
      refl

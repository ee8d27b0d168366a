-- ===== src/Agent/Ledger/Life.antt =====
-- The ledger as a family of independent tasks: what an event does to the record of one key
-- (`Ledger.Apply` of internal/agent/ledger.go) depends on that record alone.
use codex_claude_monitor.Prelude.{
  String, ◌≡◌, refl, ap, ◌∙◌, Bool, true, false, not, ◌&&◌, ◌||◌, Option, none, some, arith, ◌==◌,
  eq_iff, Option-cases, inl, inr, if◌then◌else◌,
}
use codex_claude_monitor.Prelude.GoMap.{GoMap, lookup, lookup-insert, lookup-delete}
use codex_claude_monitor.Prelude.GoMap.Unique.{
  UniqueKeys, only_if, lookup-keep, keep-UniqueKeys, delete-UniqueKeys, insert-UniqueKeys,
}
use codex_claude_monitor.Prelude.Text.{trim_space}
use codex_claude_monitor.Clock.{Instant, Duration}
use codex_claude_monitor.Hooks.{Event}
use codex_claude_monitor.Model.{task_main, task_sub}
use codex_claude_monitor.Agent.Ledger.{
  TaskRecord, Ledger, live, prune, touch, touch_key, new_record, start_key, main_key, sub_key,
  sub_task_id, child_of, on_prompt, on_tool_use, on_session_end, on_subagent_start,
  on_subagent_stop, dispatch, event_time, apply,
}

-- What an event does to one key: nothing, a new time of the last sign of life, a start (of a
-- record that is not there), an end, or an end if the record passes a test.
pub data Effect : Type 0 where
  leave see stop : Effect
  start : TaskRecord → Effect
  stop_if : (TaskRecord → Bool) → Effect

abbrev pub outcome : Effect → Instant → Option TaskRecord → Option TaskRecord
outcome leave now r = r
outcome see now none = none
outcome see now (some r) = some (touch now r)
outcome stop now r = none
outcome (start fresh) now none = some fresh
outcome (start fresh) now (some r) = some (touch now r)
outcome (stop_if p) now r = only_if (λ t. not (p t)) r

abbrev pub when : Bool → Effect → Effect
when b e = if b then e else leave

-- The effect of an event that counts at `now` on key `k`.
abbrev pub effect : Event → Instant → String → Effect
effect event now k =
    if event.name == "UserPromptSubmit"
    then when (not (event.session_id == "") && main_key event == k)
        (start (new_record event task_main event.session_id now))
    else if event.name == "PostToolUse"
    then when (main_key event == k || (not (trim_space event.task_id == "") && sub_key event == k))
        see
    else if event.name == "Stop" || event.name == "StopFailure"
    then when (main_key event == k) stop
    else if event.name == "SessionEnd"
    then stop_if (child_of event)
    else if event.name == "SubagentStart"
    then when (not (event.session_id == "") && sub_key event == k)
        (start (new_record event task_sub (sub_task_id event) now))
    else if event.name == "SubagentStop"
    then (if trim_space event.task_id == ""
        then stop_if (λ t. t.task.kind == task_sub && child_of event t)
        else when (sub_key event == k) stop)
    else leave

abbrev pub life : Event → Instant → String → Option TaskRecord → Option TaskRecord
life event now k = outcome (effect event now k) now

module _ (key k : String) (now : Instant) (m : GoMap TaskRecord) where
  same_key : (key == k) ≡ true → lookup key m ≡ lookup k m
  same_key hit = ap (λ s. lookup s m) ((eq_iff key k).0 hit)

  lookup-touch_key :
      lookup k (touch_key key now m)
      ≡ (if key == k then outcome see now (lookup k m) else lookup k m)
  unfolding touch_key
  lookup-touch_key = elim (Option-cases (lookup key m)) [
    | inl absent ↦ ground (arith, same_key)
    | inr (r, present) ↦ ground (arith, same_key, lookup-insert key k (touch now r) m)
  ]

  lookup-start_key :
      (fresh : TaskRecord)
      → lookup k (start_key key fresh now m)
        ≡ (if key == k then outcome (start fresh) now (lookup k m) else lookup k m)
  unfolding start_key
  lookup-start_key fresh = elim (Option-cases (lookup key m)) [
    | inl absent ↦ ground (arith, same_key, lookup-insert key k fresh m)
    | inr (r, present) ↦ ground (arith, same_key, lookup-insert key k (touch now r) m)
  ]

touch_key-UniqueKeys :
    (key : String) (now : Instant) (m : GoMap TaskRecord)
    → UniqueKeys m
    → UniqueKeys (touch_key key now m)
unfolding touch_key
touch_key-UniqueKeys key now m u = elim (Option-cases (lookup key m)) [
  | inl absent ↦ rw (absent, touch_key) u
  | inr (r, present) ↦ rw (present, touch_key) (insert-UniqueKeys key (touch now r) m u)
]

start_key-UniqueKeys :
    (key : String) (fresh : TaskRecord) (now : Instant) (m : GoMap TaskRecord)
    → UniqueKeys m
    → UniqueKeys (start_key key fresh now m)
unfolding start_key
start_key-UniqueKeys key fresh now m u = elim (Option-cases (lookup key m)) [
  | inl absent ↦ rw (absent, start_key) (insert-UniqueKeys key fresh m u)
  | inr (r, present) ↦ rw (present, start_key) (insert-UniqueKeys key (touch now r) m u)
]

module _ (event : Event) (now : Instant) (k : String) (m : GoMap TaskRecord) where
  lookup-on_prompt : lookup k (on_prompt event now m) ≡ (
      if not (event.session_id == "") && main_key event == k
      then outcome (start (new_record event task_main event.session_id now)) now (lookup k m)
      else lookup k m)
  unfolding on_prompt
  lookup-on_prompt = ground (
    arith,
    lookup-start_key (main_key event) k now m (new_record event task_main event.session_id now),
  )

  lookup-on_tool_use : lookup k (on_tool_use event now m) ≡ (
      if main_key event == k || (not (trim_space event.task_id == "") && sub_key event == k)
      then outcome see now (lookup k m)
      else lookup k m)
  unfolding on_tool_use
  lookup-on_tool_use = ground (
    arith,
    lookup-touch_key (main_key event) k now m,
    lookup-touch_key (sub_key event) k now (touch_key (main_key event) now m),
  )

  lookup-on_subagent_start : lookup k (on_subagent_start event now m) ≡ (
      if not (event.session_id == "") && sub_key event == k
      then outcome (start (new_record event task_sub (sub_task_id event) now)) now (lookup k m)
      else lookup k m)
  unfolding on_subagent_start
  lookup-on_subagent_start = ground (
    arith,
    lookup-start_key (sub_key event) k now m (new_record event task_sub (sub_task_id event) now),
  )

  module _ (u : UniqueKeys m) where
    lookup-on_session_end :
        lookup k (on_session_end event m) ≡ only_if (λ t. not (child_of event t)) (lookup k m)
    unfolding on_session_end
    lookup-on_session_end = lookup-keep k _ m u

    lookup-on_subagent_stop : lookup k (on_subagent_stop event m) ≡ (
        if trim_space event.task_id == ""
        then only_if (λ t. not (t.task.kind == task_sub && child_of event t)) (lookup k m)
        else outcome (when (sub_key event == k) stop) now (lookup k m))
    unfolding on_subagent_stop
    lookup-on_subagent_stop = ground (
      arith,
      lookup-delete (sub_key event) k m,
      lookup-keep k
          (λ (e : String × TaskRecord). not (e.1.task.kind == task_sub && child_of event e.1)) m u,
    )

    lookup-dispatch : lookup k (dispatch event now m) ≡ life event now k (lookup k m)
    unfolding dispatch
    lookup-dispatch = ground (
      arith,
      lookup-on_prompt,
      lookup-on_tool_use,
      lookup-delete (main_key event) k m,
      lookup-on_session_end,
      lookup-on_subagent_start,
      lookup-on_subagent_stop,
    )

if-UniqueKeys :
    (b : Bool) (m n : GoMap TaskRecord)
    → UniqueKeys m
    → UniqueKeys n
    → UniqueKeys (if b then m else n)
if-UniqueKeys true m n h k = h
if-UniqueKeys false m n h k = k

dispatch-UniqueKeys :
    (event : Event) (now : Instant) (m : GoMap TaskRecord)
    → UniqueKeys m
    → UniqueKeys (dispatch event now m)
unfolding dispatch on_prompt on_tool_use on_session_end on_subagent_start on_subagent_stop
dispatch-UniqueKeys event now m u =
    if-UniqueKeys (event.name == "UserPromptSubmit") _ _
      (if-UniqueKeys _ _ _ u (start_key-UniqueKeys _ _ now m u))
      (if-UniqueKeys (event.name == "PostToolUse") _ _
        (if-UniqueKeys _ _ _ touched (touch_key-UniqueKeys (sub_key event) now _ touched))
        (if-UniqueKeys (event.name == "Stop" || event.name == "StopFailure") _ _
          (delete-UniqueKeys (main_key event) m u)
          (if-UniqueKeys (event.name == "SessionEnd") _ _ (keep-UniqueKeys _ m u) (
            if-UniqueKeys (event.name == "SubagentStart") _ _
              (if-UniqueKeys _ _ _ u (start_key-UniqueKeys _ _ now m u))
              (if-UniqueKeys (event.name == "SubagentStop") _ _
                (if-UniqueKeys _ _ _ (delete-UniqueKeys (sub_key event) m u)
                  (keep-UniqueKeys _ m u))
                u)))))
  where
    touched : UniqueKeys (touch_key (main_key event) now m)
    touched = touch_key-UniqueKeys (main_key event) now m u

pub prune-UniqueKeys :
    (ttl : Duration) (now : Instant) (m : GoMap TaskRecord)
    → UniqueKeys m
    → UniqueKeys (prune ttl now m)
unfolding prune
prune-UniqueKeys ttl now m u = keep-UniqueKeys _ m u

pub lookup-prune :
    (ttl : Duration) (now : Instant) (k : String) (m : GoMap TaskRecord)
    → UniqueKeys m
    → lookup k (prune ttl now m) ≡ only_if (live ttl now) (lookup k m)
unfolding prune
lookup-prune ttl now k m u = lookup-keep k _ m u

-- Whatever the ledger's other tasks are, the record of a key after an event is that of its own life:
-- nothing changes if the event is dropped, and otherwise the record expires if it is past the ttl,
-- and then lives on as `life` says.
pub lookup-apply :
    (l : Ledger) (clock : Instant) (event : Event) (k : String)
    → UniqueKeys l.tasks
    → lookup k (apply l clock event).tasks ≡ elim (event_time l.ttl clock event) [
      | none ↦ lookup k l.tasks
      | some now ↦ life event now k (only_if (live l.ttl now) (lookup k l.tasks))
    ]
unfolding apply
lookup-apply l clock event k u = elim (Option-cases (event_time l.ttl clock event)) [
  | inl dropped ↦ rw (dropped, apply) refl
  | inr (now, counts) ↦
      rw (counts, apply)
        (lookup-dispatch event now k (prune l.ttl now l.tasks)
            (prune-UniqueKeys l.ttl now l.tasks u)
          ∙ ap (life event now k) (lookup-prune l.ttl now k l.tasks u))
]

-- Every event keeps the keys of the ledger distinct.
pub apply-UniqueKeys :
    (l : Ledger) (clock : Instant) (event : Event)
    → UniqueKeys l.tasks
    → UniqueKeys (apply l clock event).tasks
unfolding apply
apply-UniqueKeys l clock event u = elim (Option-cases (event_time l.ttl clock event)) [
  | inl dropped ↦ rw (dropped, apply) u
  | inr (now, counts) ↦
      rw (counts, apply) (dispatch-UniqueKeys event now _ (prune-UniqueKeys l.ttl now l.tasks u))
]

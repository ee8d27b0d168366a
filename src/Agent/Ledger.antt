-- ===== src/Agent/Ledger.antt =====
-- internal/agent/ledger.go: the tasks that are active now. The mutex makes each method one step;
-- `l.now()` is the argument `clock`.
pub mod Life
pub mod Snapshot
pub mod Traces
use Prim.Native.String
use codex_claude_monitor.Prelude.{
  ℕ, ◌*◌, String, Bool, true, false, not, ◌&&◌, ◌||◌, Option, none, some, List, [], ◌∷◌, map, leb,
  ◌==◌, keep, if◌then◌else◌,
}
use codex_claude_monitor.Prelude.GoMap.{GoMap, lookup, insert, delete}
use codex_claude_monitor.Prelude.Text.{trim_space, less}
use codex_claude_monitor.Clock.{Instant, Duration, bias, nanos, neg, minute, is_zero, before}
use codex_claude_monitor.Clock
use codex_claude_monitor.Hooks.{Event}
use codex_claude_monitor.Model.{ActiveTask, provider_codex, provider_claude, task_main, task_sub}

abbrev pub default_task_ttl : Duration
default_task_ttl = nanos (15 * minute)

pub record TaskRecord : Type 0 where
  pub task : ActiveTask
  pub parent : String

pub record Ledger : Type 0 where
  pub ttl : Duration
  pub tasks : GoMap TaskRecord

-- `ttl <= 0` under the bias.
unfoldable pub new_ledger : Duration → Ledger
new_ledger ttl = record { ttl = if leb ttl (nanos 0) then default_task_ttl else ttl; tasks = [] }

unfoldable pub ledger_key : String → String → String → String
ledger_key provider kind id =
    String.◌++◌ provider (String.◌++◌ "\0" (String.◌++◌ kind (String.◌++◌ "\0" id)))

unfoldable pub sub_task_id : Event → String
sub_task_id event =
    let id = trim_space event.task_id in
    String.◌++◌ event.session_id (String.◌++◌ ":" (if id == "" then "unknown" else id))

abbrev pub live : Duration → Instant → TaskRecord → Bool
live ttl now r = not (before r.task.last_seen_at (Clock.add now (neg ttl)))

-- pruneLocked
unfoldable pub prune : Duration → Instant → GoMap TaskRecord → GoMap TaskRecord
prune ttl now tasks = keep (λ e. live ttl now e.1) tasks

abbrev pub touch : Instant → TaskRecord → TaskRecord
touch now r = record r { task = record r.task { last_seen_at = now } }

-- A record with `LastSeenAt` set, if the key is there.
unfoldable pub touch_key : String → Instant → GoMap TaskRecord → GoMap TaskRecord
touch_key key now tasks = elim (lookup key tasks) [
  | none ↦ tasks
  | some r ↦ insert key (touch now r) tasks
]

abbrev pub new_record : Event → String → String → Instant → TaskRecord
new_record event kind id now = record {
  task = record {
    provider = event.provider;
    kind = kind;
    session_id = id;
    started_at = now;
    last_seen_at = now;
  };
  parent = event.session_id;
}

-- The task of the key is touched, or started.
unfoldable pub start_key : String → TaskRecord → Instant → GoMap TaskRecord → GoMap TaskRecord
start_key key fresh now tasks = elim (lookup key tasks) [
  | none ↦ insert key fresh tasks
  | some r ↦ insert key (touch now r) tasks
]

abbrev pub main_key : Event → String
main_key event = ledger_key event.provider task_main event.session_id

abbrev pub sub_key : Event → String
sub_key event = ledger_key event.provider task_sub (sub_task_id event)

abbrev pub child_of : Event → TaskRecord → Bool
child_of event r = r.task.provider == event.provider && r.parent == event.session_id

unfoldable pub on_prompt : Event → Instant → GoMap TaskRecord → GoMap TaskRecord
on_prompt event now tasks =
    if event.session_id == ""
    then tasks
    else start_key (main_key event) (new_record event task_main event.session_id now) now tasks

unfoldable pub on_tool_use : Event → Instant → GoMap TaskRecord → GoMap TaskRecord
on_tool_use event now tasks =
    let touched = touch_key (main_key event) now tasks in
    if trim_space event.task_id == "" then touched else touch_key (sub_key event) now touched

unfoldable pub on_session_end : Event → GoMap TaskRecord → GoMap TaskRecord
on_session_end event tasks = keep (λ e. not (child_of event e.1)) tasks

unfoldable pub on_subagent_start : Event → Instant → GoMap TaskRecord → GoMap TaskRecord
on_subagent_start event now tasks =
    if event.session_id == ""
    then tasks
    else start_key (sub_key event) (new_record event task_sub (sub_task_id event) now) now tasks

-- Without a task ID all children of the session end.
unfoldable pub on_subagent_stop : Event → GoMap TaskRecord → GoMap TaskRecord
on_subagent_stop event tasks =
    if not (trim_space event.task_id == "")
    then delete (sub_key event) tasks
    else keep (λ e. not (e.1.task.kind == task_sub && child_of event e.1)) tasks

-- The `switch` on the event's name.
unfoldable pub dispatch : Event → Instant → GoMap TaskRecord → GoMap TaskRecord
dispatch event now tasks =
    if event.name == "UserPromptSubmit"
    then on_prompt event now tasks
    else if event.name == "PostToolUse"
    then on_tool_use event now tasks
    else if event.name == "Stop" || event.name == "StopFailure"
    then delete (main_key event) tasks
    else if event.name == "SessionEnd"
    then on_session_end event tasks
    else if event.name == "SubagentStart"
    then on_subagent_start event now tasks
    else if event.name == "SubagentStop"
    then on_subagent_stop event tasks
    else tasks

-- The time at which an event counts: `none` if it is dropped, because it is a probe, of an unknown
-- provider, or older than the ttl.
unfoldable pub event_time : Duration → Instant → Event → Option Instant
event_time ttl clock event =
    if event.probe
      || (not (event.provider == provider_codex) && not (event.provider == provider_claude))
    then none
    else if is_zero event.at
    then some clock
    else if before event.at (Clock.add clock (neg ttl))
    then none
    else if before event.at (Clock.add clock (nanos minute))
    then some event.at
    else some clock

unfoldable pub apply : Ledger → Instant → Event → Ledger
apply l clock event = elim (event_time l.ttl clock event) [
  | none ↦ l
  | some now ↦ record l { tasks = dispatch event now (prune l.ttl now l.tasks) }
]

-- string(Provider) + "\x00" + string(Kind) + "\x00" + SessionID
abbrev pub sort_key : ActiveTask → String
sort_key t =
    String.◌++◌ t.provider (String.◌++◌ "\0" (String.◌++◌ t.kind (String.◌++◌ "\0" t.session_id)))

unfoldable pub insert_sorted : ActiveTask → List ActiveTask → List ActiveTask
insert_sorted t [] = t ∷ []
insert_sorted t (u ∷ us) =
    if less (sort_key u) (sort_key t) then u ∷ insert_sorted t us else t ∷ u ∷ us

-- sort.Slice by the key
unfoldable pub sort_tasks : List ActiveTask → List ActiveTask
unfolding insert_sorted
sort_tasks [] = []
sort_tasks (t ∷ ts) = insert_sorted t (sort_tasks ts)

-- Snapshot prunes the ledger and returns its tasks in order.
unfoldable pub snapshot : Ledger → Instant → List ActiveTask × Ledger
snapshot l clock =
    let tasks = prune l.ttl clock l.tasks in
    (sort_tasks (map (λ e. e.1.task) tasks), record l { tasks = tasks })

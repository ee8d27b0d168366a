-- ===== src/Hooks/Parse.antt =====
-- `ParseEvent` of internal/hooks/event.go: the event in the payload of a provider's hook.
--
-- SHA-256 and time.Parse are parameters, and so are unicode.ToLower and the environment. A payload
-- is given as decoded: `none` if it is no JSON object, and a JSON null is an empty map.
use Prim.Native.String
use Prim.Native.Char.{Char}
use codex_claude_monitor.Prelude.{
  String, Bool, false, not, ◌&&◌, ◌||◌, Option, none, some, List, [], ◌∷◌, ◌==◌, if◌then◌else◌,
}
use codex_claude_monitor.Prelude.Text.{trim_space, to_lower, without}
use codex_claude_monitor.Prelude.Result.{Result, ok, err, ◌>>=◌, ◌>>◌, reject}
use codex_claude_monitor.Clock.{Instant}
use codex_claude_monitor.Json.{Json, Members, obj, bool, text, get}
use codex_claude_monitor.Model.{provider_codex, provider_claude}
use codex_claude_monitor.Hooks.{Event}

pub data EventError : Type 0 where
  bad_provider bad_payload name_missing session_missing : EventError

pub record Library : Type 0 where
  pub lower : Char → Char
  -- The hexadecimal digits of the first 16 bytes of SHA-256.
  pub digest : String → String
  pub parse_rfc3339 : String → Option Instant
  -- IsProbeEnvironment
  pub probe_environment : Bool

abbrev first_of : Option Json → String → String
first_of (some (text s)) rest = if s == "" then rest else s
first_of _ rest = rest

-- The first of the keys with a text that is not empty.
unfoldable pub first_string : List String → Members → String
first_string [] raw = ""
first_string (key ∷ keys) raw = first_of (get key raw) (first_string keys raw)

abbrev matching : List (String × String) → String → String
matching [] compact = ""
matching ((key, name) ∷ names) compact = if compact == key then name else matching names compact

-- The texts with the spaces, hyphens and underscores removed, and the names that they stand for.
unfoldable pub canonical_event_name : Library → String → String
canonical_event_name lib value =
    matching
      (("userpromptsubmit", "UserPromptSubmit")
        ∷ ("stop", "Stop")
        ∷ ("stopfailure", "StopFailure")
        ∷ ("sessionend", "SessionEnd")
        ∷ ("subagentstart", "SubagentStart")
        ∷ ("subagentstop", "SubagentStop")
        ∷ ("posttooluse", "PostToolUse")
        ∷ [])
      (without b' ' (without b'-' (without b'_' (to_lower lib.lower (trim_space value)))))

unfoldable pub opaque_id : Library → String → String → String
opaque_id lib provider raw = lib.digest (String.◌++◌ provider (String.◌++◌ "\0" raw))

abbrev session_keys : List String
session_keys =
    "session_id" ∷ "sessionId" ∷ "conversation_id" ∷ "conversationId" ∷ "thread_id" ∷ "threadId"
    ∷ []

abbrev task_keys : List String
task_keys = "agent_id" ∷ "agentId" ∷ "subagent_id" ∷ "subagentId" ∷ "task_id" ∷ "taskId" ∷ []

abbrev name_keys : List String
name_keys = "hook_event_name" ∷ "hookEventName" ∷ "event_name" ∷ "eventName" ∷ "event" ∷ []

abbrev agent_id_of : Option Json → String
unfolding first_string
agent_id_of (some (obj agent)) = first_string ("id" ∷ "agent_id" ∷ "agentId" ∷ []) agent
agent_id_of _ = ""

-- The task, from the payload or from its agent.
unfoldable pub raw_task_id : Members → String
unfolding first_string agent_id_of
raw_task_id raw =
    let direct = first_string task_keys raw in
    if direct == "" then agent_id_of (get "agent" raw) else direct

abbrev time_of : Library → Option Json → Option Instant
time_of lib (some (text s)) = lib.parse_rfc3339 s
time_of lib _ = none

-- The first of the keys with a time that can be read, or the present.
unfoldable pub event_at : Library → List String → Members → Instant → Instant
event_at lib [] raw now = now
event_at lib (key ∷ keys) raw now = elim (time_of lib (get key raw)) [
  | some at ↦ at
  | none ↦ event_at lib keys raw now
]

abbrev is_probe : Option Json → Bool
is_probe (some (bool b)) = b
is_probe _ = false

abbrev event_of : Library → String → String → String → Members → Instant → Event
unfolding raw_task_id opaque_id event_at
event_of lib provider name raw_session raw now =
    let task = raw_task_id raw in
    record {
      provider = provider;
      name = name;
      session_id = opaque_id lib provider raw_session;
      task_id = if task == "" then "" else opaque_id lib provider task;
      at = event_at lib ("timestamp" ∷ "at" ∷ "created_at" ∷ "createdAt" ∷ []) raw now;
      probe = is_probe (get "quota_monitor_probe" raw) || lib.probe_environment;
    }

abbrev decoded : Option Members → Result EventError Members
decoded none = err bad_payload
decoded (some raw) = ok raw

unfoldable pub parse_event :
    Library → String → String → Option Members → Instant → Result EventError Event
unfolding canonical_event_name event_of first_string
parse_event lib provider override_name payload now = do
  reject (not (provider == provider_codex) && not (provider == provider_claude)) bad_provider
  raw ← decoded payload
  let name =
      canonical_event_name lib
        (if override_name == "" then first_string name_keys raw else override_name)
  reject (name == "") name_missing
  reject (first_string session_keys raw == "") session_missing
  ok (event_of lib provider name (first_string session_keys raw) raw now)

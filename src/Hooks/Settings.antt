-- ===== src/Hooks/Settings.antt =====
-- The hooks in the configuration files of the providers (internal/hooks/install.go).
--
-- A configuration is a decoded JSON object that is not null. `marshal` is json.Marshal of a value, as a text.
pub mod Kept
pub mod Users
use codex_claude_monitor.Prelude.{
  ℕ, nat_eq, String, Bool, true, false, not, ◌||◌, Option, none, some, List, [], ◌∷◌, ◌==◌,
  if◌then◌else◌, ◌*◌,
}
use Prim.Native.String
use Prim.Native.Char.{Char, code}
use codex_claude_monitor.Prelude.Text.{contains, join}
use codex_claude_monitor.Float.{fin, pos, one}
use codex_claude_monitor.Json.{
  Json, Items, Members, num, text, arr, obj, nil, cons, end, member, get,
}

abbrev pub managed_marker : String
managed_marker = "quota-monitor-managed-v1"

abbrev pub codex_events : List String
codex_events =
    "UserPromptSubmit" ∷ "Stop" ∷ "SessionEnd" ∷ "SubagentStart" ∷ "SubagentStop" ∷ "PostToolUse"
    ∷ []

abbrev pub claude_events : List String
claude_events =
    "UserPromptSubmit" ∷ "Stop" ∷ "StopFailure" ∷ "SessionEnd" ∷ "SubagentStart" ∷ "SubagentStop"
    ∷ "PostToolUse" ∷ []

-- `object[key] = value`
abbrev pub put : String → Json → Members → Members
put key value end = member key value end
put key value (member k v rest) =
    if k == key then member k value rest else member k v (put key value rest)

abbrev pub append : Items → Items → Items
append nil ys = ys
append (cons x xs) ys = cons x (append xs ys)

abbrev pub is_nil : Items → Bool
is_nil nil = true
is_nil (cons x xs) = false

abbrev pub command_object : String → Json
command_object command = obj (
    member "type" (text "command")
      (member "command" (text command) (member "timeout" (num (fin (pos (5 * one)))) end)))

abbrev pub managed_group : String → Json
managed_group command = obj (member "hooks" (arr (cons (command_object command) nil)) end)

abbrev pub groups_of : Option Json → Items
groups_of (some (arr groups)) = groups
groups_of _ = nil

abbrev pub hooks_of : Option Json → Members
hooks_of (some (obj hooks)) = hooks
hooks_of _ = end

abbrev pub put_back : String → Items → Members → Members
put_back event nil rest = rest
put_back event (cons g gs) rest = member event (arr (cons g gs)) rest

module _ (marshal : Json → String) where
  unfoldable pub is_managed_value : Json → Bool
  unfolding contains
  is_managed_value value = contains (marshal value) managed_marker

  -- The commands of a group that are kept.
  unfoldable pub unmanaged : Items → Items
  unfolding is_managed_value
  unmanaged nil = nil
  unmanaged (cons c cs) =
      let rest = unmanaged cs in if is_managed_value c then rest else cons c rest

  unfoldable pub has_managed : Items → Bool
  unfolding is_managed_value
  has_managed nil = false
  has_managed (cons c cs) = is_managed_value c || has_managed cs

  -- What is kept of a group, by the value under "hooks", and whether a command was removed.
  abbrev pub filter_hooks : Members → Option Json → Option Json × Bool
  unfolding unmanaged has_managed
  filter_hooks group (some (arr commands)) =
      let kept = unmanaged commands in
      (
        if is_nil kept then none else some (obj (put "hooks" (arr kept) group)),
        has_managed commands,
      )
  filter_hooks group _ = (some (obj group), false)

  abbrev pub filter_group : Json → Option Json × Bool
  unfolding filter_hooks
  filter_group (obj group) = filter_hooks group (get "hooks" group)
  filter_group raw = (some raw, false)

  abbrev pub prepend : Option Json × Bool → Items × Bool → Items × Bool
  prepend (none, b) (rest, removed) = (rest, b || removed)
  prepend (some group, b) (rest, removed) = (cons group rest, b || removed)

  unfoldable pub filter_managed_groups : Items → Items × Bool
  unfolding filter_group
  filter_managed_groups nil = (nil, false)
  filter_managed_groups (cons raw rest) = prepend (filter_group raw) (filter_managed_groups rest)

  abbrev pub merged_groups : String → Items → Items
  unfolding filter_managed_groups
  merged_groups command groups =
      append (filter_managed_groups groups).0 (cons (managed_group command) nil)

  -- The loop over the events.
  unfoldable pub merge_events : List String → String → Members → Members
  unfolding merged_groups
  merge_events [] command hooks = hooks
  merge_events (event ∷ events) command hooks =
      merge_events events command
        (put event (arr (merged_groups command (groups_of (get event hooks)))) hooks)

  unfoldable pub merge_managed_hooks : Members → List String → String → Members
  unfolding merge_events
  merge_managed_hooks root events command =
      put "hooks" (obj (merge_events events command (hooks_of (get "hooks" root)))) root

  -- The loop of removeManagedHooks over the events of the hooks object.
  unfoldable pub remove_event : String → Json → Bool × Members → Bool × Members
  unfolding filter_managed_groups
  remove_event event (arr groups) (changed, rest) =
      let (filtered, removed) = filter_managed_groups groups in
      if removed
      then (true, put_back event filtered rest)
      else (changed, member event (arr groups) rest)
  remove_event event raw (changed, rest) = (changed, member event raw rest)

  unfoldable pub remove_events : Members → Bool × Members
  unfolding remove_event
  remove_events end = (false, end)
  remove_events (member event raw rest) = remove_event event raw (remove_events rest)

  unfoldable pub remove_from : Option Json → Members → Bool × Members
  unfolding remove_events
  remove_from (some (obj hooks)) root =
      let (changed, hooks') = remove_events hooks in (changed, put "hooks" (obj hooks') root)
  remove_from _ root = (false, root)

  unfoldable pub remove_managed_hooks : Members → Bool × Members
  unfolding remove_from
  remove_managed_hooks root = remove_from (get "hooks" root) root

-- How `managedCommand` quotes: each `quote` in the value is replaced by a text.
abbrev quoted_with : ℕ → String → String → String
quoted_with quote by String.[] = String.[]
quoted_with quote by (String.◌∷◌ c s) =
    let rest = quoted_with quote by s in
    if nat_eq (code c) quote then String.◌++◌ by rest else String.◌∷◌ c rest

unfoldable pub shell_quote : String → String → String
shell_quote target_os value =
    if target_os == "windows"
    then String.◌++◌ "\"" (String.◌++◌ (quoted_with 0x22 "\\\"" value) "\"")
    else String.◌++◌ "'" (String.◌++◌ (quoted_with 0x27 "'\"'\"'" value) "'")

abbrev quoted_all : String → List String → List String
unfolding shell_quote
quoted_all target_os [] = []
quoted_all target_os (v ∷ vs) = shell_quote target_os v ∷ quoted_all target_os vs

unfoldable pub managed_command : String → String → List String → String
unfolding quoted_all
managed_command target_os executable args = join " " (quoted_all target_os (executable ∷ args))

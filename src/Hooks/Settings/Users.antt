-- ===== src/Hooks/Settings/Users.antt =====
-- What becomes of the commands of the user when the hooks are installed (`mergeManagedHooks` of
-- internal/hooks/install.go).
use codex_claude_monitor.Prelude.{
  ◌*◌, String, Bool, true, false, List, if◌then◌else◌, ◌≡◌, refl, ap, ◌∙◌, inl, inr, Bool-cases,
}
use codex_claude_monitor.Prelude.Text.{contains}
use codex_claude_monitor.Float.{fin, pos, one}
use codex_claude_monitor.Json.{Json, Items, Members, num, text, obj, nil, cons, end, member}
use codex_claude_monitor.Hooks.Settings.{is_managed_value, unmanaged, merge_managed_hooks}
use codex_claude_monitor.Hooks.Settings.Kept.{
  event_commands, listed, with_command, merge_managed_hooks-eq,
}

-- The command object of a hook: a command that may take 5 seconds.
abbrev pub hook : String → Json
hook command = obj (
    member "type" (text "command")
      (member "command" (text command) (member "timeout" (num (fin (pos (5 * one)))) end)))

module _ (marshal : Json → String) where
  -- The commands without those whose text has the marker, and then the new one.
  abbrev pub installed : String → Items → Items
  unfolding contains
  installed command nil = cons (hook command) nil
  installed command (cons c cs) =
      let rest = installed command cs in
      if contains (marshal c) "quota-monitor-managed-v1" then rest else cons c rest

  with_command-installed :
      (command : String) (commands : Items)
      → with_command marshal command commands ≡ installed command commands
  unfolding with_command installed unmanaged is_managed_value
  with_command-installed command nil = refl
  with_command-installed command (cons c cs) =
      elim (Bool-cases (contains (marshal c) "quota-monitor-managed-v1")) [
        | inl ours ↦ rw ours (with_command-installed command cs)
        | inr theirs ↦ rw theirs (ap (cons c) (with_command-installed command cs))
      ]

  either_way :
      (managed : Bool) (command : String) (commands : Items)
      → (if managed then with_command marshal command commands else commands)
        ≡ (if managed then installed command commands else commands)
  either_way true command commands = with_command-installed command commands
  either_way false command commands = refl

  -- If the text of the new command has the marker, then after an installation an event that it
  -- manages has the commands that were there before, in their order, but for those whose text has
  -- the marker, and then the new one; every other event has the commands that it had.
  pub merge_managed_hooks-commands :
      (command k : String) (events : List String) (root : Members)
      → contains (marshal (hook command)) "quota-monitor-managed-v1" ≡ true
      → event_commands k (merge_managed_hooks marshal root events command) ≡ (
          if listed k events
          then installed command (event_commands k root)
          else event_commands k root)
  unfolding is_managed_value
  merge_managed_hooks-commands command k events root ours =
      merge_managed_hooks-eq marshal command ours k events root
      ∙ either_way (listed k events) command (event_commands k root)

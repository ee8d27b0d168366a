-- ===== src/Tests/Installs.antt =====
-- The theorems on internal/hooks/install.go at concrete inputs.
use mathlib.Core.Bool.{false≢true}
use codex_claude_monitor.Prelude.{
  ℕ, String, List, Bool, true, ◌≡◌, refl, Option, none, some, [], ◌∷◌, nat_eq, if◌then◌else◌, ◌≢◌,
  eq_iff, inl, inr,
}
use codex_claude_monitor.Prelude.GoMap.{lookup}
use codex_claude_monitor.Prelude.Text.{contains}
use codex_claude_monitor.Json.{Json, Members, text, arr, obj, nil, cons, end, member, get, as_text}
use codex_claude_monitor.Hooks.Files.{Disk, FileMutation, apply_file_transaction}
use codex_claude_monitor.Hooks.Files.Atomic.{AllOrNothing, apply_file_transaction-AllOrNothing}
use codex_claude_monitor.Hooks.Install.{
  InstallConfig, HookFiles, status_command, with_defaults, uninstall_claude,
}
use codex_claude_monitor.Hooks.Install.Restored.{Recognised}
use codex_claude_monitor.Hooks.Install.Removed.{
  install_all, HasSettings, IsUsers, install-uninstall,
}
use codex_claude_monitor.Hooks.Settings.{
  managed_command, shell_quote, codex_events, is_managed_value, merge_managed_hooks,
}
use codex_claude_monitor.Hooks.Settings.Kept.{event_commands, listed}
use codex_claude_monitor.Hooks.Settings.Users.{hook, installed, merge_managed_hooks-commands}

abbrev disk : Disk
disk = ("hooks.json", record { payload = "{}"; mode = 0o644 }) ∷ []

abbrev mutations : List FileMutation
mutations =
    record { path = "hooks.json"; payload = "{\"hooks\":{}}"; mode = 0o644 }
    ∷ record { path = "hook-secret"; payload = "secret"; mode = 0 }
    ∷ []

-- The rename of the second file fails.
abbrev rename_fails : ℕ → Bool
rename_fails n = nat_eq n 17

apply_file_transaction-AllOrNothing_example :
    AllOrNothing
      (λ s. s)
      rename_fails
      mutations
      disk
      (apply_file_transaction (λ s. s) rename_fails 4 mutations disk)
apply_file_transaction-AllOrNothing_example =
    apply_file_transaction-AllOrNothing (λ s. s) rename_fails 4 mutations disk

-- The command of an object, as what json.Marshal writes of it.
abbrev command_text : Option Json → String
command_text none = ""
command_text (some v) = elim (as_text v) [ none ↦ "" | some s ↦ s ]

abbrev marshal : Json → String
marshal (obj m) = command_text (get "command" m)
marshal _ = ""

abbrev command : String
command = "'qm' '--managed-by' 'quota-monitor-managed-v1'"

hook_is_ours : contains (marshal (hook command)) "quota-monitor-managed-v1" ≡ true
unfolding contains
hook_is_ours = refl

abbrev users : Members
users =
    member "hooks"
      (obj (
        member "Stop"
          (arr (
            cons
              (obj (
                member "hooks"
                  (arr
                    (cons (obj (member "command" (text "say done") end)) (cons (hook command) nil)))
                  end))
              nil))
          end))
      end

merge_managed_hooks-commands_example :
    event_commands "Stop" (merge_managed_hooks marshal users codex_events command) ≡ (
      if listed "Stop" codex_events
      then installed marshal command (event_commands "Stop" users)
      else event_commands "Stop" users)
merge_managed_hooks-commands_example =
    merge_managed_hooks-commands marshal command "Stop" codex_events users hook_is_ours

-- The command of the user is there, and the managed one once.
users_commands :
    event_commands "Stop" (merge_managed_hooks marshal users codex_events command)
    ≡ cons (obj (member "command" (text "say done") end)) (cons (hook command) nil)
unfolding merge_managed_hooks is_managed_value contains
users_commands = refl

abbrev config : InstallConfig
config = record {
  executable = "/usr/bin/qm";
  hook_url = "http://127.0.0.1:47632";
  secret_path = "/s";
  state_path = "/t";
  default_state_path = "/home/.quota-monitor/hooks-state.json";
  default_claude_path = "/home/.claude/settings.json";
  claude_config_path = "";
  target_os = "linux";
}

config_is_ours : Recognised marshal (with_defaults config)
unfolding is_managed_value contains status_command managed_command shell_quote
config_is_ours = refl

-- The second installation names the paths itself, and another secret.
abbrev again : InstallConfig
again = record config { claude_config_path = "/home/.claude/settings.json"; secret_path = "/other" }

again_is_ours : Recognised marshal (with_defaults again)
unfolding is_managed_value contains status_command managed_command shell_quote
again_is_ours = refl

abbrev with_status : Members
with_status = member "statusLine" (obj (member "command" (text "date") end)) users

abbrev files : HookFiles
files = record { settings = ("/home/.claude/settings.json", with_status) ∷ []; states = [] }

date-IsUsers : IsUsers marshal (get "statusLine" with_status)
unfolding contains
date-IsUsers = refl

settings_there : HasSettings "/home/.claude/settings.json" with_status files
unfolding lookup
settings_there = inl refl

state_named : ◌≢◌ {A = String} "/t" ""
state_named e = false≢true ((eq_iff "/t" "").1 e)

settings_named : ◌≢◌ {A = String} "/home/.claude/settings.json" ""
settings_named e = false≢true ((eq_iff "/home/.claude/settings.json" "").1 e)

-- Two installations and a removal.
install-uninstall_example :
    (lookup "/t"
        (uninstall_claude marshal config (install_all marshal (config ∷ again ∷ []) files)).states
      ≡ none)
    × ((after : Members) × (lookup "/home/.claude/settings.json"
            (uninstall_claude marshal config
              (install_all marshal (config ∷ again ∷ []) files)).settings
          ≡ some after)
        × (get "statusLine" after ≡ some (obj (member "command" (text "date") end))))
install-uninstall_example =
    install-uninstall marshal "/t" "/home/.claude/settings.json" state_named settings_named config
      (again ∷ []) config files with_status settings_there date-IsUsers
      ((inl refl, inr (refl, refl)), ((inl refl, inl refl), tt))
      (config_is_ours, (again_is_ours, tt)) (inl refl, inr refl)

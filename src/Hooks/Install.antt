-- ===== src/Hooks/Install.antt =====
-- What Install and Uninstall of internal/hooks/install.go do to the Claude settings, and the state
-- that they keep between them, in the files whose paths the configuration names.
--
-- The files are given as decoded, the settings and the states each by their path; a file that is
-- there can be read and written, and no path is one of both kinds. The previous status line is kept in the state as a JSON text that
-- decodes to the same value; `none` is the empty text.
pub mod Restored
pub mod Placed
pub mod Removed
use Prim.Native.String
use codex_claude_monitor.Prelude.{
  ℕ, suc, zero, ◌*◌, String, Bool, true, false, ◌&&◌, ◌||◌, Option, none, some, List, [], ◌∷◌, ◌==◌,
  nat_eq, if◌then◌else◌, is_none,
}
use codex_claude_monitor.Prelude.GoMap.{GoMap, lookup, insert, delete}
use codex_claude_monitor.Float.{fin, pos, one}
use codex_claude_monitor.Json.{Json, Members, null, num, text, obj, end, member, get}
use codex_claude_monitor.Hooks.Settings.{
  put, is_managed_value, managed_marker, claude_events, merge_managed_hooks, remove_managed_hooks,
  managed_command,
}

-- The zero value has the version 0. `claude_path` is that of the settings.
pub record InstallState : Type 0 where
  pub version : ℕ
  pub claude_path : String
  pub previous_status_line_exists : Bool
  pub previous_status_line : Option Json

-- The parts of an InstallConfig that reach the settings and the state. An empty path stands for the
-- default one, which filepath.Join makes of the home directory.
pub record InstallConfig : Type 0 where
  pub default_state_path : String
  pub default_claude_path : String
  pub claude_config_path : String
  pub executable : String
  pub hook_url : String
  pub secret_path : String
  pub state_path : String
  pub target_os : String

-- `delete(object, key)`
abbrev pub drop_key : String → Members → Members
drop_key key end = end
drop_key key (member k v rest) =
    let others = drop_key key rest in if k == key then others else member k v others

unfoldable pub forward_command : InstallConfig → String → String
unfolding managed_command
forward_command cfg provider = managed_command cfg.target_os cfg.executable (
    "hook" ∷ "forward" ∷ "--provider" ∷ provider ∷ "--url" ∷ cfg.hook_url ∷ "--secret-file"
    ∷ cfg.secret_path ∷ "--managed-by" ∷ managed_marker ∷ [])

unfoldable pub status_command : InstallConfig → String
unfolding managed_command
status_command cfg = managed_command cfg.target_os cfg.executable (
    "hook" ∷ "statusline" ∷ "--url" ∷ cfg.hook_url ∷ "--secret-file" ∷ cfg.secret_path
    ∷ "--state-file" ∷ cfg.state_path ∷ "--managed-by" ∷ managed_marker ∷ [])

abbrev pub status_object : String → Json
status_object command = obj (
    member "type" (text "command")
      (member "command" (text command) (member "refreshInterval" (num (fin (pos (15 * one)))) end)))

abbrev pub or_null : Option Json → Json
or_null none = null
or_null (some v) = v

module _ (marshal : Json → String) where
  -- What the state keeps of the status line that is there; a missing one counts as null.
  unfoldable pub save_status_line : Option Json → InstallState → InstallState
  unfolding is_managed_value
  save_status_line current state =
      if is_managed_value marshal (or_null current) then state else record state {
        previous_status_line_exists = if is_none current then false else true;
        previous_status_line = current;
      }

  -- The settings and the state that Install writes.
  unfoldable pub install_settings : InstallConfig → Members × InstallState → Members × InstallState
  unfolding merge_managed_hooks save_status_line forward_command status_command
  install_settings cfg (root, state) =
      let merged = merge_managed_hooks marshal root claude_events (forward_command cfg "claude") in
      (
        put "statusLine" (status_object (status_command cfg)) merged,
        save_status_line (get "statusLine" merged) state,
      )

  abbrev pub previous : InstallState → Option Json
  previous state = if state.previous_status_line_exists then state.previous_status_line else none

  abbrev pub put_or_drop : Option Json → Members → Members
  put_or_drop none root = drop_key "statusLine" root
  put_or_drop (some v) root = put "statusLine" v root

  abbrev pub restore_status_line : Option Json → InstallState → Bool × Members → Bool × Members
  unfolding is_managed_value
  restore_status_line none state (changed, root) = (changed, root)
  restore_status_line (some current) state (changed, root) =
      if is_managed_value marshal current
      then (true, put_or_drop (previous state) root)
      else (changed, root)

  -- The settings that Uninstall makes, and whether they are written.
  unfoldable pub uninstall_settings : Members × InstallState → Bool × Members
  unfolding remove_managed_hooks restore_status_line
  uninstall_settings (root, state) =
      let removed = remove_managed_hooks marshal root in
      restore_status_line (get "statusLine" removed.1) state removed

pub record HookFiles : Type 0 where
  pub settings : GoMap Members
  pub states : GoMap InstallState

abbrev pub zero_state : InstallState
zero_state = record {
  version = 0;
  claude_path = "";
  previous_status_line_exists = false;
  previous_status_line = none;
}

abbrev pub or_default : String → String → String
or_default path fallback = if path == "" then fallback else path

-- withDefaults: the path of the state, and that of the settings in an installation.
abbrev pub resolved_state_path : InstallConfig → String
resolved_state_path cfg = or_default cfg.state_path cfg.default_state_path

abbrev pub resolved_claude_path : InstallConfig → String
resolved_claude_path cfg = or_default cfg.claude_config_path cfg.default_claude_path

abbrev pub with_defaults : InstallConfig → InstallConfig
with_defaults cfg = record cfg {
  state_path = resolved_state_path cfg;
  claude_config_path = resolved_claude_path cfg;
}

-- A state that is missing is the zero value.
unfoldable pub read_state : String → HookFiles → InstallState
unfolding lookup
read_state path files = elim (lookup path files.states) [ none ↦ zero_state | some state ↦ state ]

-- readJSONObject: settings that are missing are an empty object.
unfoldable pub read_settings : String → HookFiles → Members
unfolding lookup
read_settings path files = elim (lookup path files.settings) [ none ↦ end | some root ↦ root ]

-- A state of another version is not used.
abbrev pub current_state : InstallState → InstallState
current_state state = if nat_eq state.version 1 then state else record zero_state { version = 1 }

-- Where Uninstall looks for the settings.
abbrev pub uninstall_path : InstallConfig → InstallState → String
uninstall_path cfg state =
    if cfg.claude_config_path == ""
    then or_default state.claude_path cfg.default_claude_path
    else cfg.claude_config_path

module _ (marshal : Json → String) where
  unfoldable pub install_claude : InstallConfig → HookFiles → HookFiles
  unfolding install_settings read_state read_settings insert
  install_claude given files =
      let cfg = with_defaults given in
      let state = record (current_state (read_state cfg.state_path files)) {
        claude_path = cfg.claude_config_path;
      } in
      let (root, saved) =
        install_settings marshal cfg (read_settings cfg.claude_config_path files, state) in
      record {
        settings = insert cfg.claude_config_path root files.settings;
        states = insert cfg.state_path saved files.states;
      }

  -- Uninstall with the paths of the state and the settings. Settings that are missing are left so, and
  -- the state is removed.
  unfoldable pub uninstall_at : String → String → InstallState → HookFiles → HookFiles
  unfolding uninstall_settings lookup insert delete
  uninstall_at state_path path state files = record {
    settings = elim (lookup path files.settings) [
      | none ↦ files.settings
      | some root ↦
          let (changed, after) = uninstall_settings marshal (root, state) in
          if changed then insert path after files.settings else files.settings
    ];
    states = delete state_path files.states;
  }

  unfoldable pub uninstall_claude : InstallConfig → HookFiles → HookFiles
  unfolding uninstall_at read_state
  uninstall_claude cfg files =
      let state = read_state (resolved_state_path cfg) files in
      uninstall_at (resolved_state_path cfg) (uninstall_path cfg state) state files

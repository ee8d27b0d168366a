-- ===== src/Hooks/Install/Removed.antt =====
-- Installations and a removal in the files of one user (`Install` and `Uninstall` of
-- internal/hooks/install.go).
use codex_claude_monitor.Prelude.{
  String, false, ◌≡◌, ◌≢◌, ◌⊎◌, refl, sym, subst, ap, ◌∙◌, Option, none, some, List, [], ◌∷◌, All,
  eq_iff, inl, inr, arith,
}
use codex_claude_monitor.Prelude.GoMap.{lookup, insert, delete, lookup-delete}
use codex_claude_monitor.Prelude.Text.{contains}
use codex_claude_monitor.Json.{Json, Members, null, end, get}
use codex_claude_monitor.Hooks.Settings.{is_managed_value}
use codex_claude_monitor.Hooks.Install.{
  InstallState, InstallConfig, HookFiles, or_null, resolved_state_path, with_defaults,
  read_settings, uninstall_settings, uninstall_path, uninstall_at, install_claude, uninstall_claude,
}
use codex_claude_monitor.Hooks.Install.Restored.{Recognised, uninstall-Saved, uninstall-changed}
use codex_claude_monitor.Hooks.Install.Placed.{
  InstallsAt, RemovesAt, Names-or_default, lookup-insert_self, Placed, read_state-there,
  first-Placed, next-Placed,
}

module _ (marshal : Json → String) where
  -- Installations one after the other, each with its own configuration.
  abbrev pub install_all : List InstallConfig → HookFiles → HookFiles
  unfolding install_claude
  install_all [] files = files
  install_all (cfg ∷ cfgs) files = install_all cfgs (install_claude marshal cfg files)

  module _ (state_path path : String) (state_named : state_path ≢ "") (named : path ≢ "") where
    install_all-Placed :
        (cfgs : List InstallConfig) (files : HookFiles) (before : Option Json)
        → All (InstallsAt state_path path) cfgs
        → All (λ cfg. Recognised marshal (with_defaults cfg)) cfgs
        → Placed marshal before state_path path files
        → Placed marshal before state_path path (install_all cfgs files)
    unfolding install_all
    install_all-Placed [] files before at ours placed = placed
    install_all-Placed (cfg ∷ cfgs) files before (at, ats) (ours, all_ours) placed =
        install_all-Placed cfgs (install_claude marshal cfg files) before ats all_ours
          (next-Placed marshal state_path path state_named named cfg files before at ours placed)

    removed_at :
        (cfg : InstallConfig) (state : InstallState)
        → (cfg.claude_config_path ≡ path) ⊎ (cfg.claude_config_path ≡ "")
        → state.claude_path ≡ path
        → uninstall_path cfg state ≡ path
    removed_at cfg state (inl given) at =
        ground (arith, eq_iff cfg.claude_config_path "", given, named)
    removed_at cfg state (inr empty) at =
        ground
          (arith, eq_iff cfg.claude_config_path "", empty, eq_iff state.claude_path "", at, named)

    uninstall_at-eq :
        (files : HookFiles) (before : Option Json)
        (placed : Placed marshal before state_path path files)
        → uninstall_at marshal state_path path placed.state files ≡ record {
          settings =
              insert path (uninstall_settings marshal (placed.root, placed.state)).1 files.settings;
          states = delete state_path files.states;
        }
    unfolding uninstall_at
    uninstall_at-eq files before placed =
        rw
          (
            placed.settings_there,
            uninstall-changed marshal before (placed.root, placed.state) placed.saved,
          )
          refl

    uninstall_claude-eq :
        (cfg : InstallConfig) (files : HookFiles) (before : Option Json)
        → RemovesAt state_path path cfg
        → (placed : Placed marshal before state_path path files)
        → uninstall_claude marshal cfg files
          ≡ uninstall_at marshal state_path path placed.state files
    unfolding uninstall_claude
    uninstall_claude-eq cfg files before (at_state, at) placed =
        let e =
          Names-or_default state_path cfg.state_path cfg.default_state_path state_named at_state in
        let found =
          read_state-there marshal (resolved_state_path cfg) files placed.state
            (ap (λ p. lookup p files.states) e ∙ placed.state_there) in
        ap (λ s. uninstall_at marshal (resolved_state_path cfg) (uninstall_path cfg s) s files)
          found
        ∙ ap (λ p. uninstall_at marshal (resolved_state_path cfg) p placed.state files)
            (removed_at cfg placed.state at placed.claude_path)
        ∙ ap (λ p. uninstall_at marshal p path placed.state files) e

    uninstall-Placed :
        (cfg : InstallConfig) (files : HookFiles) (before : Option Json)
        → RemovesAt state_path path cfg
        → Placed marshal before state_path path files
        → (lookup state_path (uninstall_claude marshal cfg files).states ≡ none)
          × ((after : Members) × (lookup path (uninstall_claude marshal cfg files).settings
                ≡ some after)
              × (get "statusLine" after ≡ before))
    uninstall-Placed cfg files before at placed =
        let after = (uninstall_settings marshal (placed.root, placed.state)).1 in
        rw (uninstall_claude-eq cfg files before at placed ∙ uninstall_at-eq files before placed) (
          ground (
            arith,
            lookup-delete state_path state_path files.states,
            eq_iff state_path state_path,
          ),
          (
            after,
            lookup-insert_self path after files.settings,
            uninstall-Saved marshal before (placed.root, placed.state) placed.saved,
          ),
        )

-- The settings file has the object, or there is none, and the object is empty.
abbrev pub HasSettings : String → Members → HookFiles → Type 0
HasSettings path root files =
    (lookup path files.settings ≡ some root) ⊎ ((lookup path files.settings ≡ none) × (root ≡ end))

module _ (marshal : Json → String) where
  -- The text of the status line, or that of null if there is none, does not have the marker.
  abbrev pub IsUsers : Option Json → Type 0
  unfolding contains
  IsUsers none = contains (marshal null) "quota-monitor-managed-v1" ≡ false
  IsUsers (some line) = contains (marshal line) "quota-monitor-managed-v1" ≡ false

  IsUsers-unmanaged :
      (line : Option Json) → IsUsers line → is_managed_value marshal (or_null line) ≡ false
  unfolding is_managed_value IsUsers
  IsUsers-unmanaged none h = h
  IsUsers-unmanaged (some line) h = h

  HasSettings-read_settings :
      (path : String) (root : Members) (files : HookFiles)
      → HasSettings path root files
      → read_settings path files ≡ root
  unfolding read_settings
  HasSettings-read_settings path root files (inl there) = rw (there, read_settings) refl
  HasSettings-read_settings path root files (inr (missing, empty)) =
      rw (missing, read_settings) (sym empty)

  module _ (state_path path : String) (state_named : state_path ≢ "") (named : path ≢ "") where
    -- The hooks are installed once or more, with configurations that may differ but all keep their
    -- state in the same file and name the same Claude settings, by paths that are not empty, and
    -- whose status lines are recognised as managed; the text of the status line that was there at
    -- first, or that of null if there was none, does not have the marker. Then a removal that finds this state, and names these settings or none, puts
    -- the first status line back into them, or leaves none if there was none, and the state is gone.
    -- Before the installations there may be a state of any version, or none, and the settings may be
    -- missing.
    pub install-uninstall :
        (cfg : InstallConfig) (cfgs : List InstallConfig) (removal : InstallConfig)
        (files : HookFiles) (root : Members)
        → HasSettings path root files
        → IsUsers (get "statusLine" root)
        → All (InstallsAt state_path path) (cfg ∷ cfgs)
        → All (λ c. Recognised marshal (with_defaults c)) (cfg ∷ cfgs)
        → RemovesAt state_path path removal
        → (lookup state_path
              (uninstall_claude marshal removal (install_all marshal (cfg ∷ cfgs) files)).states
            ≡ none)
          × ((after : Members) × (lookup path
                  (uninstall_claude marshal removal
                    (install_all marshal (cfg ∷ cfgs) files)).settings
                ≡ some after)
              × (get "statusLine" after ≡ get "statusLine" root))
    unfolding install_all
    install-uninstall cfg cfgs removal files root there users (at, ats) (ours, all_ours) removes =
        uninstall-Placed marshal state_path path state_named named removal
          (install_all marshal cfgs (install_claude marshal cfg files)) (get "statusLine" root)
          removes
          (install_all-Placed marshal state_path path state_named named cfgs
            (install_claude marshal cfg files) (get "statusLine" root) ats all_ours
            (subst
              (λ r.
                Placed marshal (get "statusLine" r) state_path path
                  (install_claude marshal cfg files))
              same
              (first-Placed marshal state_path path state_named named cfg files at ours (
                subst (λ r. is_managed_value marshal (or_null (get "statusLine" r)) ≡ false)
                  (sym same) (IsUsers-unmanaged (get "statusLine" root) users)))))
      where
        same : read_settings path files ≡ root
        same = HasSettings-read_settings path root files there

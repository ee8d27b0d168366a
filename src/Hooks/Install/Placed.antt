-- ===== src/Hooks/Install/Placed.antt =====
-- What installations leave in the files of one user (`Install` of
-- internal/hooks/install.go).
use codex_claude_monitor.Prelude.{
  String, false, ◌≡◌, ◌≢◌, ◌⊎◌, refl, sym, ap, subst, ◌∙◌, Option, some, nat_eq, eq_iff, inl, inr,
  arith, Bool-cases,
}
use codex_claude_monitor.Prelude.GoMap.{GoMap, lookup, insert, lookup-insert}
use codex_claude_monitor.Json.{Json, Members, get}
use codex_claude_monitor.Hooks.Settings.{is_managed_value}
use codex_claude_monitor.Hooks.Install.{
  InstallState, InstallConfig, HookFiles, or_null, or_default, resolved_state_path,
  resolved_claude_path, with_defaults, read_state, read_settings, current_state, previous,
  install_settings, install_claude,
}
use codex_claude_monitor.Hooks.Install.Restored.{
  Recognised, Saved, first-Saved, next-Saved, install_settings-keeps,
}

-- The path is the one that is given, or none is given and it is the default.
abbrev pub Names : String → String → String → Type 0
Names path given fallback = (given ≡ path) ⊎ ((given ≡ "") × (fallback ≡ path))

-- The configuration keeps its state at the first path, and the Claude settings at the second.
abbrev pub InstallsAt : String → String → InstallConfig → Type 0
InstallsAt state_path path cfg =
    Names state_path cfg.state_path cfg.default_state_path
    × Names path cfg.claude_config_path cfg.default_claude_path

-- A removal finds the state at the first path, and names the second one or none for the settings.
abbrev pub RemovesAt : String → String → InstallConfig → Type 0
RemovesAt state_path path cfg =
    Names state_path cfg.state_path cfg.default_state_path
    × ((cfg.claude_config_path ≡ path) ⊎ (cfg.claude_config_path ≡ ""))

pub Names-or_default :
    (path given fallback : String)
    → path ≢ ""
    → Names path given fallback
    → or_default given fallback ≡ path
Names-or_default path given fallback there (inl e) = ground (arith, eq_iff given "", e, there)
Names-or_default path given fallback there (inr (empty, e)) =
    ground (arith, eq_iff given "", empty, e)

pub lookup-insert_self {ℓ} :
    {V : Type ℓ} (k : String) (v : V) (m : GoMap V) → lookup k (insert k v m) ≡ some v
lookup-insert_self k v m = ground (arith, lookup-insert k k v m, eq_iff k k)

module _ (marshal : Json → String) where
  -- The settings have a managed status line, and the state file has the one before.
  pub record Placed (before : Option Json) (state_path path : String) (files : HookFiles)
      : Type 0 where
    pub root : Members
    pub state : InstallState
    pub settings_there : lookup path files.settings ≡ some root
    pub state_there : lookup state_path files.states ≡ some state
    pub version : state.version ≡ 1
    pub claude_path : state.claude_path ≡ path
    pub saved : Saved marshal before (root, state)

  -- The state that an installation starts from.
  abbrev opened : InstallConfig → HookFiles → InstallState
  opened cfg files = record (current_state (read_state (resolved_state_path cfg) files)) {
    claude_path = resolved_claude_path cfg;
  }

  current_state-version : (state : InstallState) → (current_state state).version ≡ 1
  current_state-version state = elim (Bool-cases (nat_eq state.version 1)) [
    | inl same ↦ rw same (ground arith)
    | inr other ↦ rw other refl
  ]

  read_settings-there :
      (path : String) (files : HookFiles) (root : Members)
      → lookup path files.settings ≡ some root
      → read_settings path files ≡ root
  unfolding read_settings
  read_settings-there path files root there = rw (there, read_settings) refl

  pub read_state-there :
      (path : String) (files : HookFiles) (state : InstallState)
      → lookup path files.states ≡ some state
      → read_state path files ≡ state
  unfolding read_state
  read_state-there path files state there = rw (there, read_state) refl

  previous-opened :
      (cfg : InstallConfig) (files : HookFiles) (state : InstallState)
      → lookup (resolved_state_path cfg) files.states ≡ some state
      → state.version ≡ 1
      → previous marshal (opened cfg files) ≡ previous marshal state
  unfolding read_state
  previous-opened cfg files state there version = rw (there, read_state, version) refl

  install-Placed :
      (cfg : InstallConfig) (files : HookFiles) (before : Option Json)
      → Saved marshal before (
          install_settings marshal
            (with_defaults cfg)
            (read_settings (resolved_claude_path cfg) files, opened cfg files))
      → Placed before
          (resolved_state_path cfg)
          (resolved_claude_path cfg)
          (install_claude marshal cfg files)
  unfolding install_claude
  install-Placed cfg files before saved =
      let root = read_settings (resolved_claude_path cfg) files in
      let out = install_settings marshal (with_defaults cfg) (root, opened cfg files) in
      let (same_version, same_path) =
        install_settings-keeps marshal (with_defaults cfg) root (opened cfg files) in
      record {
        root = out.0;
        state = out.1;
        settings_there = lookup-insert_self (resolved_claude_path cfg) out.0 files.settings;
        state_there = lookup-insert_self (resolved_state_path cfg) out.1 files.states;
        version = same_version ∙ current_state-version (read_state (resolved_state_path cfg) files);
        claude_path = same_path;
        saved = saved;
      }

  module _ (state_path path : String) (state_named : state_path ≢ "") (named : path ≢ "") where
    install-Placed_at :
        (cfg : InstallConfig) (files : HookFiles) (before : Option Json)
        → InstallsAt state_path path cfg
        → Saved marshal before (
            install_settings marshal
              (with_defaults cfg)
              (read_settings (resolved_claude_path cfg) files, opened cfg files))
        → Placed before state_path path (install_claude marshal cfg files)
    install-Placed_at cfg files before (at_state, at) saved =
        subst (λ p. Placed before p path (install_claude marshal cfg files))
          (Names-or_default state_path cfg.state_path cfg.default_state_path state_named at_state)
          (subst (λ p. Placed before (resolved_state_path cfg) p (install_claude marshal cfg files))
            (Names-or_default path cfg.claude_config_path cfg.default_claude_path named at)
            (install-Placed cfg files before saved))

    pub first-Placed :
        (cfg : InstallConfig) (files : HookFiles)
        → InstallsAt state_path path cfg
        → Recognised marshal (with_defaults cfg)
        → is_managed_value marshal (or_null (get "statusLine" (read_settings path files))) ≡ false
        → Placed
            (get "statusLine" (read_settings path files))
            state_path
            path
            (install_claude marshal cfg files)
    first-Placed cfg files (at_state, at) ours theirs =
        let e = Names-or_default path cfg.claude_config_path cfg.default_claude_path named at in
        let root = read_settings (resolved_claude_path cfg) files in
        install-Placed_at cfg files (get "statusLine" (read_settings path files)) (at_state, at)
          (subst
            (λ p.
              Saved marshal (get "statusLine" (read_settings p files))
                (install_settings marshal (with_defaults cfg) (root, opened cfg files)))
            e
            (first-Saved marshal (with_defaults cfg) root (opened cfg files) ours (
              subst
                (λ p.
                  is_managed_value marshal (or_null (get "statusLine" (read_settings p files)))
                  ≡ false)
                (sym e) theirs)))

    pub next-Placed :
        (cfg : InstallConfig) (files : HookFiles) (before : Option Json)
        → InstallsAt state_path path cfg
        → Recognised marshal (with_defaults cfg)
        → Placed before state_path path files
        → Placed before state_path path (install_claude marshal cfg files)
    next-Placed cfg files before (at_state, at) ours placed =
        let (current, here, managed, kept) = placed.saved in
        install-Placed_at cfg files before (at_state, at)
          (next-Saved marshal (with_defaults cfg) before
            (read_settings (resolved_claude_path cfg) files, opened cfg files) ours
            (
              current,
              ap (get "statusLine") (
                    read_settings-there (resolved_claude_path cfg) files placed.root (
                      ap (λ p. lookup p files.settings)
                        (Names-or_default path cfg.claude_config_path cfg.default_claude_path named
                          at)
                      ∙ placed.settings_there))
                  ∙ here,
              managed,
              previous-opened cfg files placed.state
                    (ap (λ p. lookup p files.states)
                        (Names-or_default state_path cfg.state_path cfg.default_state_path
                          state_named at_state)
                      ∙ placed.state_there)
                    placed.version
                  ∙ kept,
            ))

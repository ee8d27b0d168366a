-- ===== src/Hooks/Install/Restored.antt =====
-- The status line through an installation and its removal (internal/hooks/install.go).
use codex_claude_monitor.Prelude.{
  String, Bool, true, false, ◌≡◌, refl, ap, ◌∙◌, Option, none, some, List, ◌==◌, inl, inr,
  Bool-cases,
}
use codex_claude_monitor.Json.{Json, Members, null, bool, num, text, arr, obj, end, member, get}
use codex_claude_monitor.Hooks.Settings.{
  is_managed_value, merge_managed_hooks, remove_managed_hooks, remove_events, remove_from,
  claude_events,
}
use codex_claude_monitor.Hooks.Settings.Kept.{get-put}
use codex_claude_monitor.Hooks.Install.{
  InstallState, InstallConfig, drop_key, forward_command, status_command, status_object, or_null,
  save_status_line, install_settings, previous, put_or_drop, restore_status_line,
  uninstall_settings,
}

get-drop_key : (k : String) (m : Members) → get k (drop_key k m) ≡ none
get-drop_key k end = refl
get-drop_key k (member j v m) = elim (Bool-cases (j == k)) [
  | inl hit ↦ rw hit (get-drop_key k m)
  | inr miss ↦ rw (miss, miss) (get-drop_key k m)
]

module _ (marshal : Json → String) where
  -- The status line of the configuration is recognised as managed.
  abbrev pub Recognised : InstallConfig → Type 0
  Recognised cfg = is_managed_value marshal (status_object (status_command cfg)) ≡ true

  -- The settings have a managed status line, and the state the one before.
  abbrev pub Saved : Option Json → Members × InstallState → Type 0
  Saved before (root, state) =
      (current : Json) × (get "statusLine" root ≡ some current)
      × (is_managed_value marshal current ≡ true)
      × (previous marshal state ≡ before)

  merge-status_line :
      (root : Members) (events : List String) (command : String)
      → get "statusLine" (merge_managed_hooks marshal root events command) ≡ get "statusLine" root
  unfolding merge_managed_hooks
  merge-status_line root events command = get-put "statusLine" "hooks" _ root

  remove_from-status_line :
      (hooks : Option Json) (root : Members)
      → get "statusLine" (remove_from marshal hooks root).1 ≡ get "statusLine" root
  unfolding remove_from
  remove_from-status_line (some (obj hooks)) root =
      get-put "statusLine" "hooks" (obj (remove_events marshal hooks).1) root
  remove_from-status_line none root = refl
  remove_from-status_line (some null) root = refl
  remove_from-status_line (some (bool b)) root = refl
  remove_from-status_line (some (num x)) root = refl
  remove_from-status_line (some (text s)) root = refl
  remove_from-status_line (some (arr xs)) root = refl

  remove-status_line :
      (root : Members)
      → get "statusLine" (remove_managed_hooks marshal root).1 ≡ get "statusLine" root
  unfolding remove_managed_hooks
  remove-status_line root = remove_from-status_line (get "hooks" root) root

  previous-saved :
      (before : Option Json) (state : InstallState)
      → is_managed_value marshal (or_null before) ≡ false
      → previous marshal (save_status_line marshal before state) ≡ before
  unfolding save_status_line
  previous-saved none state theirs = rw theirs refl
  previous-saved (some v) state theirs = rw theirs refl

  save-managed :
      (current : Json) (state : InstallState)
      → is_managed_value marshal current ≡ true
      → (before : Option Json) → previous marshal state ≡ before
      → previous marshal (save_status_line marshal (some current) state) ≡ before
  unfolding save_status_line
  save-managed current state managed before kept = rw managed kept

  put_or_drop-get :
      (o : Option Json) (root : Members) → get "statusLine" (put_or_drop marshal o root) ≡ o
  put_or_drop-get none root = get-drop_key "statusLine" root
  put_or_drop-get (some v) root = get-put "statusLine" "statusLine" v root

  pub first-Saved :
      (cfg : InstallConfig) (root : Members) (state : InstallState)
      → Recognised cfg
      → is_managed_value marshal (or_null (get "statusLine" root)) ≡ false
      → Saved (get "statusLine" root) (install_settings marshal cfg (root, state))
  unfolding install_settings
  first-Saved cfg root state ours theirs =
      let merged = merge_managed_hooks marshal root claude_events (forward_command cfg "claude") in
      (
        status_object (status_command cfg),
        get-put "statusLine" "statusLine" (status_object (status_command cfg)) merged,
        ours,
        ap (λ o. previous marshal (save_status_line marshal o state))
              (merge-status_line root claude_events (forward_command cfg "claude"))
            ∙ previous-saved (get "statusLine" root) state theirs,
      )

  pub next-Saved :
      (cfg : InstallConfig) (before : Option Json) (s : Members × InstallState)
      → Recognised cfg
      → Saved before s
      → Saved before (install_settings marshal cfg s)
  unfolding install_settings save_status_line
  next-Saved cfg before (root, state) ours (current, here, managed, kept) =
      let merged = merge_managed_hooks marshal root claude_events (forward_command cfg "claude") in
      (
        status_object (status_command cfg),
        get-put "statusLine" "statusLine" (status_object (status_command cfg)) merged,
        ours,
        ap (λ o. previous marshal (save_status_line marshal o state))
              (merge-status_line root claude_events (forward_command cfg "claude") ∙ here)
            ∙ save-managed current state managed before kept,
      )

  restored-get :
      (before : Option Json) (current : Json) (state : InstallState) (removed : Bool × Members)
      → is_managed_value marshal current ≡ true
      → previous marshal state ≡ before
      → get "statusLine" (restore_status_line marshal (some current) state removed).1 ≡ before
  unfolding restore_status_line
  restored-get before current state (changed, root) managed kept =
      rw managed (put_or_drop-get (previous marshal state) root ∙ kept)

  pub uninstall-Saved :
      (before : Option Json) (s : Members × InstallState)
      → Saved before s
      → get "statusLine" (uninstall_settings marshal s).1 ≡ before
  unfolding uninstall_settings restore_status_line
  uninstall-Saved before (root, state) (current, here, managed, kept) =
      let removed = remove_managed_hooks marshal root in
      ap (λ o. get "statusLine" (restore_status_line marshal o state removed).1)
        (remove-status_line root ∙ here)
      ∙ restored-get before current state removed managed kept

  restored-changed :
      (current : Json) (state : InstallState) (removed : Bool × Members)
      → is_managed_value marshal current ≡ true
      → (restore_status_line marshal (some current) state removed).0 ≡ true
  unfolding restore_status_line
  restored-changed current state (changed, root) managed = rw managed refl

  pub uninstall-changed :
      (before : Option Json) (s : Members × InstallState)
      → Saved before s
      → (uninstall_settings marshal s).0 ≡ true
  unfolding uninstall_settings restore_status_line
  uninstall-changed before (root, state) (current, here, managed, kept) =
      let removed = remove_managed_hooks marshal root in
      ap (λ o. (restore_status_line marshal o state removed).0) (remove-status_line root ∙ here)
      ∙ restored-changed current state removed managed

  pub install_settings-keeps :
      (cfg : InstallConfig) (root : Members) (state : InstallState)
      → ((install_settings marshal cfg (root, state)).1.version ≡ state.version)
        × ((install_settings marshal cfg (root, state)).1.claude_path ≡ state.claude_path)
  unfolding install_settings save_status_line
  install_settings-keeps cfg root state =
      elim (Bool-cases (
        is_managed_value marshal (
          or_null (
            get "statusLine"
              (merge_managed_hooks marshal root claude_events (forward_command cfg "claude")))))) [
                | inl ours ↦ rw ours (refl, refl)
                | inr theirs ↦ rw theirs (refl, refl)
              ]

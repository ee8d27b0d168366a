-- ===== src/Hooks/Settings/Kept.antt =====
-- What an installation does to the commands that are there (`mergeManagedHooks` of
-- internal/hooks/install.go).
use codex_claude_monitor.Prelude.{
  String, Bool, true, false, ◌||◌, Option, none, some, List, [], ◌∷◌, ◌==◌, if◌then◌else◌, ◌≡◌,
  refl, sym, ap, ◌∙◌, inl, inr, Bool-cases, arith, eq_iff,
}
use codex_claude_monitor.Json.{
  Json, Items, Members, null, bool, num, text, arr, obj, nil, cons, end, member, get,
}
use codex_claude_monitor.Hooks.Settings.{
  put, append, is_nil, is_managed_value, unmanaged, has_managed, filter_hooks, filter_group,
  prepend, filter_managed_groups, command_object, managed_group, groups_of, merged_groups,
  merge_events, hooks_of, merge_managed_hooks,
}

abbrev commands_under : Option Json → Items
commands_under (some (arr commands)) = commands
commands_under _ = nil

-- The commands of a group.
abbrev commands_of : Json → Items
commands_of (obj group) = commands_under (get "hooks" group)
commands_of _ = nil

-- The commands of all groups, in order.
abbrev pub all_commands : Items → Items
all_commands nil = nil
all_commands (cons group groups) = append (commands_of group) (all_commands groups)

-- The commands of an event in a configuration.
abbrev pub event_commands : String → Members → Items
event_commands event root = all_commands (groups_of (get event (hooks_of (get "hooks" root))))

abbrev pub listed : String → List String → Bool
listed k [] = false
listed k (e ∷ es) = e == k || listed k es

pub get-put :
    (k j : String) (v : Json) (m : Members)
    → get k (put j v m) ≡ (if j == k then some v else get k m)
get-put k j v end = refl
get-put k j v (member i w m) = ground (arith, get-put k j v m, eq_iff i j, eq_iff i k, eq_iff j k)

append_nil : (xs : Items) → append xs nil ≡ xs
append_nil nil = refl
append_nil (cons x xs) = ap (cons x) (append_nil xs)

append_assoc : (xs ys zs : Items) → append (append xs ys) zs ≡ append xs (append ys zs)
append_assoc nil ys zs = refl
append_assoc (cons x xs) ys zs = ap (cons x) (append_assoc xs ys zs)

all_commands-append :
    (xs ys : Items) → all_commands (append xs ys) ≡ append (all_commands xs) (all_commands ys)
all_commands-append nil ys = refl
all_commands-append (cons x xs) ys =
    ap (append (commands_of x)) (all_commands-append xs ys)
    ∙ sym (append_assoc (commands_of x) (all_commands xs) (all_commands ys))

module _ (marshal : Json → String) where
  unmanaged-append :
      (xs ys : Items)
      → unmanaged marshal (append xs ys) ≡ append (unmanaged marshal xs) (unmanaged marshal ys)
  unfolding unmanaged
  unmanaged-append nil ys = refl
  unmanaged-append (cons x xs) ys = elim (Bool-cases (is_managed_value marshal x)) [
    | inl ours ↦ rw ours (unmanaged-append xs ys)
    | inr theirs ↦ rw theirs (ap (cons x) (unmanaged-append xs ys))
  ]

  unmanaged-unmanaged :
      (xs : Items) → unmanaged marshal (unmanaged marshal xs) ≡ unmanaged marshal xs
  unfolding unmanaged
  unmanaged-unmanaged nil = refl
  unmanaged-unmanaged (cons x xs) = elim (Bool-cases (is_managed_value marshal x)) [
    | inl ours ↦ rw ours (unmanaged-unmanaged xs)
    | inr theirs ↦ rw (theirs, theirs) (ap (cons x) (unmanaged-unmanaged xs))
  ]

  kept-commands :
      (kept : Items) (group : Members) (removed : Bool) (rest : Items × Bool)
      → all_commands
          (prepend marshal
            (if is_nil kept then none else some (obj (put "hooks" (arr kept) group)), removed)
            rest).0
        ≡ append kept (all_commands rest.0)
  kept-commands nil group removed rest = refl
  kept-commands (cons c cs) group removed rest =
      ap (λ o. append (commands_under o) (all_commands rest.0))
        (get-put "hooks" "hooks" (arr (cons c cs)) group)

  other-commands :
      (group : Members) (o : Option Json) (rest : Items × Bool)
      → get "hooks" group ≡ o
      → commands_under o ≡ nil
      → append (commands_of (obj group)) (all_commands rest.0)
        ≡ append (unmanaged marshal (commands_under o)) (all_commands rest.0)
  unfolding unmanaged
  other-commands group o rest e empty = rw (e, empty) refl

  filter_hooks-commands :
      (group : Members) (o : Option Json) (rest : Items × Bool)
      → get "hooks" group ≡ o
      → all_commands (prepend marshal (filter_hooks marshal group o) rest).0
        ≡ append (unmanaged marshal (commands_under o)) (all_commands rest.0)
  unfolding filter_hooks
  filter_hooks-commands group (some (arr cs)) rest e =
      kept-commands (unmanaged marshal cs) group (has_managed marshal cs) rest
  filter_hooks-commands group none rest e = other-commands group none rest e refl
  filter_hooks-commands group (some null) rest e = other-commands group (some null) rest e refl
  filter_hooks-commands group (some (bool b)) rest e =
      other-commands group (some (bool b)) rest e refl
  filter_hooks-commands group (some (num x)) rest e =
      other-commands group (some (num x)) rest e refl
  filter_hooks-commands group (some (text s)) rest e =
      other-commands group (some (text s)) rest e refl
  filter_hooks-commands group (some (obj m)) rest e =
      other-commands group (some (obj m)) rest e refl

  filter_group-commands :
      (group : Json) (rest : Items × Bool)
      → all_commands (prepend marshal (filter_group marshal group) rest).0
        ≡ append (unmanaged marshal (commands_of group)) (all_commands rest.0)
  unfolding filter_group unmanaged
  filter_group-commands (obj m) rest = filter_hooks-commands m (get "hooks" m) rest refl
  filter_group-commands null rest = refl
  filter_group-commands (bool b) rest = refl
  filter_group-commands (num x) rest = refl
  filter_group-commands (text s) rest = refl
  filter_group-commands (arr xs) rest = refl

  filter-commands :
      (groups : Items)
      → all_commands (filter_managed_groups marshal groups).0
        ≡ unmanaged marshal (all_commands groups)
  unfolding filter_managed_groups unmanaged
  filter-commands nil = refl
  filter-commands (cons group groups) =
      filter_group-commands group (filter_managed_groups marshal groups)
      ∙ ap (append (unmanaged marshal (commands_of group))) (filter-commands groups)
      ∙ sym (unmanaged-append (commands_of group) (all_commands groups))

  -- The commands of the user, and then the managed one.
  unfoldable pub with_command : String → Items → Items
  unfolding unmanaged
  with_command command commands =
      append (unmanaged marshal commands) (cons (command_object command) nil)

  merged_groups-commands :
      (command : String) (groups : Items)
      → all_commands (merged_groups marshal command groups)
        ≡ with_command command (all_commands groups)
  unfolding merged_groups with_command
  merged_groups-commands command groups =
      all_commands-append (filter_managed_groups marshal groups).0
        (cons (managed_group command) nil)
      ∙ ap (λ cs. append cs (cons (command_object command) nil)) (filter-commands groups)

  module _ (command : String)
      (ours : is_managed_value marshal (command_object command) ≡ true) where
    with_command-twice :
        (commands : Items)
        → with_command command (with_command command commands) ≡ with_command command commands
    unfolding with_command unmanaged
    with_command-twice commands =
        ap (λ cs. append cs (cons (command_object command) nil))
          (unmanaged-append (unmanaged marshal commands) (cons (command_object command) nil)
            ∙ rw ours (
                append_nil (unmanaged marshal (unmanaged marshal commands))
                ∙ unmanaged-unmanaged commands))

    with_command-once :
        (again : Bool) (before after : Items)
        → after ≡ with_command command before
        → (if again then with_command command after else after) ≡ with_command command before
    with_command-once true before after h = ap (with_command command) h ∙ with_command-twice before
    with_command-once false before after h = h

    merge_events-commands :
        (k : String) (events : List String) (hooks : Members)
        → all_commands (groups_of (get k (merge_events marshal events command hooks))) ≡ (
            if listed k events
            then with_command command (all_commands (groups_of (get k hooks)))
            else all_commands (groups_of (get k hooks)))
    unfolding merge_events
    merge_events-commands k [] hooks = refl
    merge_events-commands k (e ∷ es) hooks =
        let groups = arr (merged_groups marshal command (groups_of (get e hooks))) in
        let ih = merge_events-commands k es (put e groups hooks) in
        let placed = get-put k e groups hooks in
        elim (Bool-cases (e == k)) [
          | inl hit ↦ rw hit (
              ih
              ∙ with_command-once (listed k es) (all_commands (groups_of (get k hooks)))
                  (all_commands (groups_of (get k (put e groups hooks))))
                  (ap (λ o. all_commands (groups_of o)) (rw hit at placed)
                    ∙ merged_groups-commands command (groups_of (get e hooks))
                    ∙ ap (λ j. with_command command (all_commands (groups_of (get j hooks))))
                        ((eq_iff e k).0 hit)))
          | inr miss ↦ rw miss (
              ih
              ∙ ap
                  (λ o.
                    if listed k es
                    then with_command command (all_commands (groups_of o))
                    else all_commands (groups_of o))
                  (rw miss at placed))
        ]

    pub merge_managed_hooks-eq :
        (k : String) (events : List String) (root : Members)
        → event_commands k (merge_managed_hooks marshal root events command) ≡ (
            if listed k events
            then with_command command (event_commands k root)
            else event_commands k root)
    unfolding merge_managed_hooks
    merge_managed_hooks-eq k events root =
        ap (λ o. all_commands (groups_of (get k (hooks_of o))))
          (get-put "hooks" "hooks"
            (obj (merge_events marshal events command (hooks_of (get "hooks" root)))) root)
        ∙ merge_events-commands k events (hooks_of (get "hooks" root))

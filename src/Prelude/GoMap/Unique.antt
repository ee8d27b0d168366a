-- ===== src/Prelude/GoMap/Unique.antt =====
-- A Go map holds every key once. The operations keep that, and a deletion by a test then acts on
-- each key alone.
use Prim.Native.String.{String}
use mathlib.Core.Path.{◌≡◌, refl, ap}
use mathlib.Core.Logic.{inl, inr}
use mathlib.Core.Bool.{Bool}
use mathlib.Core.Option.{Option, none, some}
use mathlib.Core.List.{[], ◌∷◌}
use native.Mathlib.Omega.{arith}
use text.Mathlib.Text.{◌==◌}
use text.Mathlib.TextEquality.{eq_iff}
use codex_claude_monitor.Prelude.Tests.{if◌then◌else◌, Bool-cases}
use codex_claude_monitor.Prelude.Lists.{keep}
use codex_claude_monitor.Prelude.GoMap.{GoMap, lookup, delete, insert, lookup-delete}

module _ {ℓ} {V : Type ℓ} where
  abbrev pub UniqueKeys : GoMap V → Type ℓ
  UniqueKeys [] = Unit
  UniqueKeys ((k, v) ∷ m) = (lookup k m ≡ none) × UniqueKeys m

  -- What a test leaves of the value of a key.
  abbrev pub only_if : (V → Bool) → Option V → Option V
  only_if p none = none
  only_if p (some v) = if p v then some v else none

  pub lookup-keep-none :
      (k : String) (p : String × V → Bool) (m : GoMap V)
      → lookup k m ≡ none
      → lookup k (keep p m) ≡ none
  unfolding lookup
  lookup-keep-none k p [] h = refl
  lookup-keep-none k p ((j, v) ∷ m) h = ground (arith, lookup-keep-none k p m)

  pub lookup-keep :
      (k : String) (p : String × V → Bool) (m : GoMap V)
      → UniqueKeys m
      → lookup k (keep p m) ≡ only_if (λ v. p (k, v)) (lookup k m)
  unfolding lookup
  lookup-keep k p [] u = refl
  lookup-keep k p ((j, v) ∷ m) u = elim (Bool-cases (j == k)) [
    | inl hit ↦
        let same : j ≡ k = (eq_iff j k).0 hit in
        let tests : p (j, v) ≡ p (k, v) = ap (λ s. p (s, v)) same in
        let gone : lookup k (keep p m) ≡ none = lookup-keep-none k p m (rw same at u.0) in
        ground (arith, tests, gone)
    | inr miss ↦ ground (arith, lookup-keep k p m u.1)
  ]

  pub keep-UniqueKeys : (p : String × V → Bool) (m : GoMap V) → UniqueKeys m → UniqueKeys (keep p m)
  keep-UniqueKeys p [] u = tt
  keep-UniqueKeys p ((j, v) ∷ m) u = elim (Bool-cases (p (j, v))) [
    | inl pass ↦ rw pass (lookup-keep-none j p m u.0, keep-UniqueKeys p m u.1)
    | inr drop ↦ rw drop (keep-UniqueKeys p m u.1)
  ]

  pub delete-UniqueKeys : (k : String) (m : GoMap V) → UniqueKeys m → UniqueKeys (delete k m)
  unfolding delete
  delete-UniqueKeys k [] u = tt
  delete-UniqueKeys k ((j, v) ∷ m) u = elim (Bool-cases (j == k)) [
    | inl hit ↦ rw hit (delete-UniqueKeys k m u.1)
    | inr miss ↦ rw miss (ground (arith, lookup-delete k j m, u.0), delete-UniqueKeys k m u.1)
  ]

  pub insert-UniqueKeys :
      (k : String) (v : V) (m : GoMap V) → UniqueKeys m → UniqueKeys (insert k v m)
  unfolding insert
  insert-UniqueKeys k v m u =
      (ground (arith, lookup-delete k k m, eq_iff k k), delete-UniqueKeys k m u)

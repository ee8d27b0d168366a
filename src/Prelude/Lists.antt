-- ===== src/Prelude/Lists.antt =====
-- Lists measured by native numbers, Boolean filters, and predicates by recursion.
use Prim.Native.Nat.{ℕ, suc, ◌+◌, ◌≤◌}
use mathlib.Core.Path.{◌≡◌, sym, subst}
use mathlib.Core.Logic.{◌⊎◌, inl, inr}
use mathlib.Core.Bool.{Bool, true}
use mathlib.Core.List.{List, [], ◌∷◌, ◌++◌}
use native.Mathlib.Omega.{arith}
use codex_claude_monitor.Prelude.Tests.{if◌then◌else◌, Bool-cases}

module _ {ℓ} {A : Type ℓ} where
  abbrev pub length : List A → ℕ
  length [] = 0
  length (x ∷ xs) = suc (length xs)

  -- The entries that pass a Boolean test.
  abbrev pub keep : (A → Bool) → List A → List A
  keep p [] = []
  keep p (x ∷ xs) = let rest = keep p xs in if p x then x ∷ rest else rest

  abbrev pub count : (A → Bool) → List A → ℕ
  count p [] = 0
  count p (x ∷ xs) = (if p x then 1 else 0) + count p xs

  abbrev pub All {κ} : (A → Type κ) → List A → Type κ
  All P [] = Unit
  All P (x ∷ xs) = P x × All P xs

  pub length-append : (xs ys : List A) → length (xs ++ ys) ≡ length xs + length ys
  length-append [] ys = omega arith
  length-append (x ∷ xs) ys = omega (arith, length-append xs ys)

  pub count-append : (p : A → Bool) (xs ys : List A) → count p (xs ++ ys) ≡ count p xs + count p ys
  count-append p [] ys = omega arith
  count-append p (x ∷ xs) ys = omega (arith, count-append p xs ys)

  pub length-keep-le : (p : A → Bool) (xs : List A) → length (keep p xs) ≤ length xs
  length-keep-le p [] = omega arith
  length-keep-le p (x ∷ xs) = ground (arith, length-keep-le p xs)

module _ {A : Type 0} where
  -- The value stands in the list.
  abbrev pub Member : A → List A → Type 0
  Member a [] = ⊥
  Member a (x ∷ xs) = (a ≡ x) ⊎ Member a xs

  pub keep-Member :
      (p : A → Bool) (a : A) (xs : List A) → Member a (keep p xs) → (p a ≡ true) × Member a xs
  keep-Member p a [] h = absurd h
  keep-Member p a (x ∷ xs) h = elim (Bool-cases (p x)) [
    | inl kept ↦ elim (rw (kept, keep) at h) [
      | inl e ↦ (subst (λ r. p r ≡ true) (sym e) kept, inl e)
      | inr later ↦ let (passes, there) = keep-Member p a xs later in (passes, inr there)
    ]
    | inr dropped ↦
        let (passes, there) = keep-Member p a xs (rw (dropped, keep) at h) in (passes, inr there)
  ]

-- Two lists with the same entries, each as often, in some order.
pub data Reordering {ℓ} {A : Type ℓ} : List A → List A → Type ℓ where
  nil : Reordering [] []
  cons : (x : A) {xs ys : List A} → Reordering xs ys → Reordering (x ∷ xs) (x ∷ ys)
  swap : (x y : A) (xs : List A) → Reordering (x ∷ y ∷ xs) (y ∷ x ∷ xs)
  trans : {xs ys zs : List A} → Reordering xs ys → Reordering ys zs → Reordering xs zs

pub Reordering-All {ℓ κ} :
    {A : Type ℓ} (P : A → Type κ) {xs ys : List A} → Reordering xs ys → All P xs → All P ys
Reordering-All P nil h = h
Reordering-All P (cons x r) (h, hs) = (h, Reordering-All P r hs)
Reordering-All P (swap x y xs) (h, (k, hs)) = (k, (h, hs))
Reordering-All P (trans r s) h = Reordering-All P s (Reordering-All P r h)

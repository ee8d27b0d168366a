-- ===== src/Prelude/Result.antt =====
-- A Go result `(value, error)`, and the early return `if cond { return err }`.
use mathlib.Core.Path.{◌≡◌, refl}
use mathlib.Core.Logic.{◌↔◌}
use mathlib.Core.Bool.{Bool, true, false}

pub data Result {ℓ} (E : Type 0) (A : Type ℓ) : Type ℓ where
  ok : A → Result E A
  err : E → Result E A

infixl 5 ◌>>=◌ ◌>>◌
abbrev pub ◌>>=◌ {ℓ κ} :
    {E : Type 0} {A : Type ℓ} {B : Type κ} → Result E A → (A → Result E B) → Result E B
ok a >>= f = f a
err e >>= f = err e

abbrev pub ◌>>◌ {ℓ} : {E : Type 0} {B : Type ℓ} → Result E (Unit {0}) → Result E B → Result E B
m >> k = m >>= λ _. k

-- A check that returns no value; `ok tt` is Go's nil error.
abbrev pub Check : Type 0 → Type 0
Check E = Result E (Unit {0})

abbrev pub pass : {E : Type 0} → Check E
pass = ok tt

-- `if cond { return e }`
abbrev pub reject : {E : Type 0} → Bool → E → Check E
reject true e = err e
reject false e = ok tt

-- A chain succeeds exactly if its guard does not fire and the rest succeeds.
pub reject-then_iff :
    {E : Type 0} (b : Bool) (e : E) (m : Check E)
    → ((reject b e >> m) ≡ ok tt) ↔ ((b ≡ false) × (m ≡ ok tt))
reject-then_iff true e m = (λ h. cc, λ h. cc h.0)
reject-then_iff false e m = (λ h. (refl, h), λ h. h.1)

pub reject_iff : {E : Type 0} (b : Bool) (e : E) → (reject b e ≡ ok tt) ↔ (b ≡ false)
reject_iff true e = (λ h. cc, λ h. cc)
reject_iff false e = (λ h. refl, λ h. refl)

pub check-then_iff :
    {E : Type 0} (c : Check E) (m : Check E) → ((c >> m) ≡ ok tt) ↔ ((c ≡ ok tt) × (m ≡ ok tt))
check-then_iff (ok tt) m = (λ h. (refl, h), λ h. h.1)
check-then_iff (err e) m = (λ h. cc, λ h. cc h.0)

-- A chain that succeeds has steps that succeed.
pub bind-ok :
    {E A B : Type 0} (m : Result E A) (f : A → Result E B) (b : B)
    → (m >>= f) ≡ ok b
    → (a : A) × (m ≡ ok a) × (f a ≡ ok b)
bind-ok (ok a) f b h = (a, refl, h)
bind-ok (err e) f b h = cc

pub ok_inj : {E A : Type 0} (r : Result E A) (a b : A) → r ≡ ok a → r ≡ ok b → a ≡ b
ok_inj r a b h k = cc

-- A guard that lets a chain through does not fire.
pub reject-ok :
    {E B : Type 0} (b : Bool) (e : E) (m : Result E B) (x : B)
    → (reject b e >> m) ≡ ok x
    → (b ≡ false) × (m ≡ ok x)
reject-ok true e m x h = cc
reject-ok false e m x h = (refl, h)

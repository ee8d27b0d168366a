-- ===== src/Store/Calls.antt =====
-- Chains of database calls that succeed.
use codex_claude_monitor.Prelude.{ℕ, ◌≡◌, inl, inr, Bool-cases, arith}
use codex_claude_monitor.Prelude.Result.{Result, ok, ◌>>=◌}
use codex_claude_monitor.Store.Db.{StoreError, Faults, exec}

pub exec-ok :
    {A : Type 0} (fails : Faults) (n : ℕ) (m : Result StoreError A) (a : A)
    → exec fails n m ≡ ok a
    → m ≡ ok a
exec-ok fails n m a h = elim (Bool-cases (fails n)) [
  | inl fault ↦ absurd (ground (arith, fault))
  | inr fine ↦ rw fine at h
]

-- A call with a result that is known fails or gives it.
pub exec-then :
    {A B : Type 0} (fails : Faults) (n : ℕ) (a : A) (f : A → Result StoreError B) (b : B)
    → (exec fails n (ok a) >>= f) ≡ ok b
    → f a ≡ ok b
exec-then fails n a f b h = elim (Bool-cases (fails n)) [
  | inl fault ↦ absurd (ground (arith, rw fault at h))
  | inr fine ↦ rw fine at h
]

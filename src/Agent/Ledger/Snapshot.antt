-- ===== src/Agent/Ledger/Snapshot.antt =====
-- `Ledger.Snapshot` of internal/agent/ledger.go: which tasks it lists, and in which order.
use Prim.Native.String
use Prim.Native.String.compare as text_compare
use codex_claude_monitor.Prelude.{
  ◌+◌, ◌^◌, ◌<◌, ◌≤◌, String, ◌≡◌, refl, sym, ap, subst, ◌↔◌, ◌∙◌, ◌⊎◌, inl, inr, true, false, some,
  List, [], ◌∷◌, map, arith, ◌==◌, eq_iff, Bool-cases,
}
use codex_claude_monitor.Prelude.GoMap.{GoMap, lookup}
use codex_claude_monitor.Prelude.GoMap.Unique.{UniqueKeys, only_if}
use codex_claude_monitor.Prelude.Text.{less}
use codex_claude_monitor.Clock.{Instant, Duration}
use codex_claude_monitor.Model.{ActiveTask}
use codex_claude_monitor.Agent.Ledger.{
  TaskRecord, Ledger, live, prune, sort_key, insert_sorted, sort_tasks, snapshot,
}
use codex_claude_monitor.Agent.Ledger.Life.{lookup-prune, prune-UniqueKeys}

-- The task is one of the list.
abbrev pub Has : ActiveTask → List ActiveTask → Type 0
Has t [] = ⊥
Has t (u ∷ us) = (t ≡ u) ⊎ Has t us

insert_sorted-Has :
    (t u : ActiveTask) (us : List ActiveTask) → Has t (u ∷ us) → Has t (insert_sorted u us)
unfolding insert_sorted
insert_sorted-Has t u [] h = h
insert_sorted-Has t u (v ∷ us) (inl e) = elim (Bool-cases (less (sort_key v) (sort_key u))) [
  | inl behind ↦ rw behind (inr (insert_sorted-Has t u us (inl e)))
  | inr other ↦ rw other (inl e)
]
insert_sorted-Has t u (v ∷ us) (inr (inl e)) = elim (Bool-cases (less (sort_key v) (sort_key u))) [
  | inl behind ↦ rw behind (inl e)
  | inr other ↦ rw other (inr (inl e))
]
insert_sorted-Has t u (v ∷ us) (inr (inr h)) = elim (Bool-cases (less (sort_key v) (sort_key u))) [
  | inl behind ↦ rw behind (inr (insert_sorted-Has t u us (inr h)))
  | inr other ↦ rw other (inr (inr h))
]

shift_left : {A B C : Type 0} → A ⊎ (B ⊎ C) → B ⊎ (A ⊎ C)
shift_left (inl a) = inr (inl a)
shift_left (inr (inl b)) = inl b
shift_left (inr (inr c)) = inr (inr c)

shift_in : {A B C D : Type 0} → (C → A ⊎ D) → B ⊎ C → A ⊎ (B ⊎ D)
shift_in f (inl b) = inr (inl b)
shift_in f (inr c) = shift_left (inr (f c))

Has-insert_sorted :
    (t u : ActiveTask) (us : List ActiveTask) → Has t (insert_sorted u us) → Has t (u ∷ us)
unfolding insert_sorted
Has-insert_sorted t u [] h = h
Has-insert_sorted t u (v ∷ us) h = elim (Bool-cases (less (sort_key v) (sort_key u))) [
  | inl behind ↦ shift_in (Has-insert_sorted t u us) (rw behind at h)
  | inr other ↦ rw other at h
]

sort_tasks-Has : (t : ActiveTask) (ts : List ActiveTask) → Has t ts → Has t (sort_tasks ts)
unfolding sort_tasks
sort_tasks-Has t (u ∷ us) (inl e) = insert_sorted-Has t u (sort_tasks us) (inl e)
sort_tasks-Has t (u ∷ us) (inr h) =
    insert_sorted-Has t u (sort_tasks us) (inr (sort_tasks-Has t us h))
sort_tasks-Has t [] h = absurd h

or_later : {A B C : Type 0} → (B → C) → A ⊎ B → A ⊎ C
or_later f (inl a) = inl a
or_later f (inr b) = inr (f b)

Has-sort_tasks : (t : ActiveTask) (ts : List ActiveTask) → Has t (sort_tasks ts) → Has t ts
unfolding sort_tasks
Has-sort_tasks t [] h = h
Has-sort_tasks t (u ∷ us) h =
    or_later (Has-sort_tasks t us) (Has-insert_sorted t u (sort_tasks us) h)

abbrev tasks_of : GoMap TaskRecord → List ActiveTask
tasks_of m = map (λ e. e.1.task) m

lookup-Has :
    (k : String) (r : TaskRecord) (m : GoMap TaskRecord)
    → lookup k m ≡ some r
    → Has r.task (tasks_of m)
unfolding lookup
lookup-Has k r [] h = cc
lookup-Has k r ((j, q) ∷ m) h = elim (Bool-cases (j == k)) [
  | inl hit ↦ inl (ground arith)
  | inr miss ↦ inr (lookup-Has k r m (rw miss at h))
]

Has-lookup :
    (t : ActiveTask) (m : GoMap TaskRecord)
    → UniqueKeys m
    → Has t (tasks_of m)
    → (k : String) × (r : TaskRecord) × (lookup k m ≡ some r) × (r.task ≡ t)
unfolding lookup
Has-lookup t [] u h = absurd h
Has-lookup t ((j, q) ∷ m) u (inl e) = (j, q, ground (arith, eq_iff j j), sym e)
Has-lookup t ((j, q) ∷ m) u (inr h) =
    let (k, r, found, same) = Has-lookup t m u.1 h in
    (k, r, ground (arith, eq_iff j k, ap (λ s. lookup s m), u.0), same)

abbrev pub Shows : Ledger → Instant → ActiveTask → Type 0
Shows l clock t =
    (k : String) × (r : TaskRecord) × (lookup k l.tasks ≡ some r)
    × (live l.ttl clock r ≡ true)
    × (r.task ≡ t)

pub shown :
    (l : Ledger) (clock : Instant) (t : ActiveTask)
    → UniqueKeys l.tasks
    → Shows l clock t
    → Has t (snapshot l clock).0
unfolding snapshot
shown l clock t u (k, r, there, alive, same) =
    subst (λ x. Has x (sort_tasks (tasks_of (prune l.ttl clock l.tasks)))) same
      (sort_tasks-Has r.task (tasks_of (prune l.ttl clock l.tasks)) (
        lookup-Has k r (prune l.ttl clock l.tasks)
          (rw (lookup-prune l.ttl clock k l.tasks u, there, alive) refl)))

recorded :
    (l : Ledger) (clock : Instant) (t : ActiveTask)
    → UniqueKeys l.tasks
    → Has t (snapshot l clock).0
    → Shows l clock t
unfolding snapshot
recorded l clock t u h =
    let m = prune l.ttl clock l.tasks in
    let (k, r, found, same) =
      Has-lookup t m (prune-UniqueKeys l.ttl clock l.tasks u) (Has-sort_tasks t (tasks_of m) h) in
    let kept : only_if (live l.ttl clock) (lookup k l.tasks) ≡ some r =
      sym (lookup-prune l.ttl clock k l.tasks u) ∙ found in
    (k, r, ground arith, ground arith, same)

-- A record stays if it was seen no longer ago than the ttl, which is kept with 2^63 added.
live_iff :
    (ttl : Duration) (clock : Instant) (r : TaskRecord)
    → ttl < 2 ^ 64
    → (live ttl clock r ≡ true) ↔ (clock + 2 ^ 63 ≤ r.task.last_seen_at + ttl)
live_iff ttl clock r int64 = (λ h. ground arith, λ h. ground arith)

-- The ttl of the ledger is an int64 (it is kept with 2^63 added), and the keys are distinct. Then a
-- snapshot lists exactly the tasks of the ledger that were last seen no longer ago than the ttl.
pub Has-snapshot_iff :
    (l : Ledger) (clock : Instant) (t : ActiveTask)
    → UniqueKeys l.tasks
    → l.ttl < 2 ^ 64
    → Has t (snapshot l clock).0 ↔ (
        (k : String) × (r : TaskRecord) × (lookup k l.tasks ≡ some r)
        × (clock + 2 ^ 63 ≤ r.task.last_seen_at + l.ttl)
        × (r.task ≡ t))
Has-snapshot_iff l clock t u int64 = (
  λ h.
      let (k, r, there, alive, same) = recorded l clock t u h in
      (k, r, there, (live_iff l.ttl clock r int64).0 alive, same),
  λ (k, r, there, seen, same).
      shown l clock t u (k, r, there, (live_iff l.ttl clock r int64).1 seen, same),
)

less_asym : (s t : String) → less s t ≡ true → less t s ≡ false
less_asym String.[] String.[] h = ground (arith, text_compare.nil-nil)
less_asym String.[] (String.◌∷◌ d t) h = ground (arith, text_compare.cons-nil d t)
less_asym (String.◌∷◌ c s) String.[] h = ground (arith, text_compare.cons-nil c s)
less_asym (String.◌∷◌ c s) (String.◌∷◌ d t) h =
    ground (arith, text_compare.cons-cons c d s t, text_compare.cons-cons d c t s, less_asym s t)

-- No task stands behind one with a greater key.
abbrev InOrder : ActiveTask → List ActiveTask → Type 0
InOrder t [] = Unit
InOrder t (u ∷ us) = less (sort_key u) (sort_key t) ≡ false

abbrev IsSorted : List ActiveTask → Type 0
IsSorted [] = Unit
IsSorted (t ∷ ts) = InOrder t ts × IsSorted ts

InOrder-insert_sorted :
    (t u : ActiveTask) (us : List ActiveTask)
    → less (sort_key u) (sort_key t) ≡ false
    → InOrder t us
    → InOrder t (insert_sorted u us)
unfolding insert_sorted
InOrder-insert_sorted t u [] new h = new
InOrder-insert_sorted t u (v ∷ us) new h = elim (Bool-cases (less (sort_key v) (sort_key u))) [
  | inl behind ↦ rw behind h
  | inr other ↦ rw other new
]

insert_sorted-IsSorted :
    (u : ActiveTask) (us : List ActiveTask) → IsSorted us → IsSorted (insert_sorted u us)
unfolding insert_sorted
insert_sorted-IsSorted u [] s = (tt, tt)
insert_sorted-IsSorted u (v ∷ us) s = elim (Bool-cases (less (sort_key v) (sort_key u))) [
  | inl behind ↦ rw behind (
    InOrder-insert_sorted v u us (less_asym (sort_key v) (sort_key u) behind) s.0,
    insert_sorted-IsSorted u us s.1,
  )
  | inr other ↦ rw other (other, s)
]

sort_tasks-IsSorted : (ts : List ActiveTask) → IsSorted (sort_tasks ts)
unfolding sort_tasks
sort_tasks-IsSorted [] = tt
sort_tasks-IsSorted (t ∷ ts) = insert_sorted-IsSorted t (sort_tasks ts) (sort_tasks-IsSorted ts)

-- A task of a snapshot does not come before the one in front of it, by the text of the provider,
-- the kind and the session with NUL bytes between them.
abbrev pub NotBefore : ActiveTask → List ActiveTask → Type 0
NotBefore t [] = Unit
NotBefore t (u ∷ us) =
    less
      (String.◌++◌ u.provider
        (String.◌++◌ "\0" (String.◌++◌ u.kind (String.◌++◌ "\0" u.session_id))))
      (String.◌++◌ t.provider
        (String.◌++◌ "\0" (String.◌++◌ t.kind (String.◌++◌ "\0" t.session_id))))
    ≡ false

abbrev pub InOrderBySession : List ActiveTask → Type 0
InOrderBySession [] = Unit
InOrderBySession (t ∷ ts) = NotBefore t ts × InOrderBySession ts

IsSorted-InOrderBySession : (ts : List ActiveTask) → IsSorted ts → InOrderBySession ts
IsSorted-InOrderBySession [] s = tt
IsSorted-InOrderBySession (t ∷ []) s = (tt, tt)
IsSorted-InOrderBySession (t ∷ u ∷ us) s = (s.0, IsSorted-InOrderBySession (u ∷ us) s.1)

-- In a snapshot no task stands before one that it comes after by provider, kind and session, each
-- compared as bytes with a NUL byte between them.
pub snapshot-InOrderBySession :
    (l : Ledger) (clock : Instant) → InOrderBySession (snapshot l clock).0
unfolding snapshot
snapshot-InOrderBySession l clock = IsSorted-InOrderBySession _ (sort_tasks-IsSorted _)

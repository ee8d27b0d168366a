-- ===== src/Hooks/Files/Atomic.antt =====
-- A file transaction of internal/hooks/install.go writes all files or none.
use codex_claude_monitor.Prelude.{
  ℕ, ◌+◌, String, ◌≡◌, ◌⊎◌, inl, inr, refl, sym, ap, ◌∙◌, subst, Bool, true, false, Option, none,
  some, List, [], ◌∷◌, All, ◌==◌, if◌then◌else◌, Bool-cases, arith, eq_iff,
}
use codex_claude_monitor.Prelude.GoMap.{lookup, insert, lookup-insert, lookup-delete}
use codex_claude_monitor.Prelude.Result.{Result, ok, err, bind-ok, ok_inj}
use codex_claude_monitor.Hooks.Files.{
  File, Disk, FileMutation, FileSnapshot, TransactionError, Ending, refused, applied, rolled_back,
  rollback_failed, write_fails, atomic_write, snapshot_file, read_saved, seen_before,
  take_snapshots, restore, rollback, file_of, ended, write_all, write_snapshots,
  apply_file_transaction,
}

module _ (clean : String → String) (fails : ℕ → Bool) where
  -- The file at a path after all mutations.
  abbrev pub overwritten : String → List FileMutation → Option File → Option File
  overwritten q [] old = old
  overwritten q (m ∷ ms) old =
      overwritten q ms (if clean m.path == q then some (file_of clean fails m) else old)

  abbrev pub AllOrNothing : List FileMutation → Disk → Ending × Disk → Type 0
  AllOrNothing ms before (applied, after) =
      (q : String) → lookup q after ≡ overwritten q ms (lookup q before)
  AllOrNothing ms before (refused e, after) = after ≡ before
  AllOrNothing ms before (rolled_back, after) = (q : String) → lookup q after ≡ lookup q before
  AllOrNothing ms before (rollback_failed, after) = Unit

  abbrev Touched : String → List FileSnapshot → Type 0
  Touched q [] = ⊥
  Touched q (s ∷ ss) = (clean s.path ≡ q) ⊎ Touched q ss

  -- The snapshot is one of the disk.
  abbrev Of : Disk → FileSnapshot → Type 0
  Of disk s = s.saved ≡ lookup (clean s.path) disk

  -- Where the disks differ, a snapshot of the first one was taken.
  abbrev Covered : Disk → List FileSnapshot → Disk → Type 0
  Covered before written disk = (q : String) → (lookup q disk ≡ lookup q before) ⊎ Touched q written

  restored :
      (n : ℕ) (s : FileSnapshot) (saved : Option File) (disk : Disk) (q : String)
      → (restore clean fails n s saved disk).0 ≡ false
      → lookup q (restore clean fails n s saved disk).1
        ≡ (if clean s.path == q then saved else lookup q disk)
  unfolding restore atomic_write
  restored n s (some file) disk q fine = elim (Bool-cases (write_fails clean fails n)) [
    | inl failed ↦ absurd (ground (arith, rw failed at fine))
    | inr written ↦ rw written (lookup-insert (clean s.path) q file disk)
  ]
  restored n s none disk q fine = elim (Bool-cases (fails n)) [
    | inl failed ↦ absurd (ground (arith, rw failed at fine))
    | inr removed ↦ rw removed (lookup-delete (clean s.path) q disk)
  ]

  restore-Covered :
      (before : Disk) (n : ℕ) (s : FileSnapshot) (ss : List FileSnapshot) (disk : Disk)
      → Of before s
      → (restore clean fails n s s.saved disk).0 ≡ false
      → Covered before (s ∷ ss) disk
      → Covered before ss (restore clean fails n s s.saved disk).1
  restore-Covered before n s ss disk same fine covered q = elim (Bool-cases (clean s.path == q)) [
    | inl here ↦
        let path = (eq_iff (clean s.path) q).0 here in
        let after = restored n s s.saved disk q fine in
        inl ((rw here at after) ∙ same ∙ ap (λ p. lookup p before) path)
    | inr away ↦
        let after = restored n s s.saved disk q fine in
        let kept = rw away at after in
        elim (covered q) [
          | inl equal ↦ inl (kept ∙ equal)
          | inr (inl path) ↦ absurd (ground (arith, eq_iff (clean s.path) q, path, away))
          | inr (inr later) ↦ inr later
        ]
  ]

  rollback-restores :
      (before : Disk) (n : ℕ) (ss : List FileSnapshot) (disk : Disk)
      → All (Of before) ss
      → Covered before ss disk
      → (rollback clean fails n ss disk).0 ≡ false
      → (q : String) → lookup q (rollback clean fails n ss disk).1 ≡ lookup q before
  unfolding rollback
  rollback-restores before n [] disk same covered fine q = elim (covered q) [
    | inl equal ↦ equal
    | inr none_touched ↦ absurd none_touched
  ]
  rollback-restores before n (s ∷ ss) disk (same, sames) covered fine q =
      elim (Bool-cases (restore clean fails n s s.saved disk).0) [
        | inl failed ↦ absurd (ground (arith, rw failed at fine))
        | inr first ↦
            rollback-restores before (n + 7) ss (restore clean fails n s s.saved disk).1 sames
              (restore-Covered before n s ss disk same first covered) (rw first at fine) q
      ]

  -- The mutations that are still to be written, with their snapshots.
  abbrev Pairs : Disk → List (FileMutation × FileSnapshot) → Type 0
  Pairs before pairs = All (λ e. Of before e.1 × (e.1.path ≡ e.0.path)) pairs

  abbrev mutations_of : List (FileMutation × FileSnapshot) → List FileMutation
  mutations_of [] = []
  mutations_of ((m, s) ∷ rest) = m ∷ mutations_of rest

  -- The part of the statement that does not depend on what was written before.
  abbrev Continues : Disk → List FileMutation → Disk → Ending × Disk → Type 0
  Continues before ms disk (applied, after) =
      (q : String) → lookup q after ≡ overwritten q ms (lookup q disk)
  Continues before ms disk (refused e, after) = ⊥
  Continues before ms disk (rolled_back, after) = (q : String) → lookup q after ≡ lookup q before
  Continues before ms disk (rollback_failed, after) = Unit

  ended-Continues :
      (before : Disk) (ms : List FileMutation) (disk : Disk) (out : Bool × Disk)
      → (out.0 ≡ false → (q : String) → lookup q out.1 ≡ lookup q before)
      → Continues before ms disk (ended clean fails out)
  ended-Continues before ms disk (true, after) h = tt
  ended-Continues before ms disk (false, after) h = h refl

  written-Continues :
      (before : Disk) (m : FileMutation) (ms : List FileMutation) (disk : Disk)
      (out : Ending × Disk)
      → Continues before ms (insert (clean m.path) (file_of clean fails m) disk) out
      → Continues before (m ∷ ms) disk out
  written-Continues before m ms disk (applied, after) h =
      λ q. h q ∙ ap (overwritten q ms) (lookup-insert (clean m.path) q (file_of clean fails m) disk)
  written-Continues before m ms disk (refused e, after) h = h
  written-Continues before m ms disk (rolled_back, after) h = h
  written-Continues before m ms disk (rollback_failed, after) h = tt

  insert-Covered :
      (before : Disk) (path : String) (file : File) (s : FileSnapshot) (written : List FileSnapshot)
      (disk : Disk)
      → s.path ≡ path
      → Covered before written disk
      → Covered before (s ∷ written) (insert (clean path) file disk)
  insert-Covered before path file s written disk same covered q =
      let after = lookup-insert (clean path) q file disk in
      elim (Bool-cases (clean path == q)) [
        | inl here ↦ inr (inl (ap clean same ∙ (eq_iff (clean path) q).0 here))
        | inr away ↦ elim (covered q) [
          | inl equal ↦ inl ((rw away at after) ∙ equal)
          | inr touched ↦ inr (inr touched)
        ]
      ]

  more-Covered :
      (before : Disk) (s : FileSnapshot) (written : List FileSnapshot) (disk : Disk)
      → Covered before written disk
      → Covered before (s ∷ written) disk
  more-Covered before s written disk covered q = elim (covered q) [
    | inl equal ↦ inl equal
    | inr touched ↦ inr (inr touched)
  ]

  write_all-Continues :
      (before : Disk) (n : ℕ) (written : List FileSnapshot)
      (pairs : List (FileMutation × FileSnapshot)) (disk : Disk)
      → All (Of before) written
      → Covered before written disk
      → Pairs before pairs
      → Continues before (mutations_of pairs) disk (write_all clean fails n written pairs disk)
  unfolding write_all atomic_write
  write_all-Continues before n written [] disk sames covered h = λ q. refl
  write_all-Continues before n written ((m, s) ∷ rest) disk sames covered ((same, path), h) =
      elim (Bool-cases (write_fails clean fails n)) [
        | inl failed ↦ rw failed (
            ended-Continues before (m ∷ mutations_of rest) disk
              (rollback clean fails (n + 7) (s ∷ written) disk)
              (rollback-restores before (n + 7) (s ∷ written) disk (same, sames)
                (more-Covered before s written disk covered)))
        | inr fine ↦ rw fine (
            written-Continues before m (mutations_of rest) disk _ (
              write_all-Continues before (n + 7) (s ∷ written) rest
                (insert (clean m.path) (file_of clean fails m) disk) (same, sames)
                (insert-Covered before m.path (file_of clean fails m) s written disk path covered)
                h))
      ]

  read_saved-Of :
      (n : ℕ) (path : String) (disk : Disk) (found : Option File) (s : FileSnapshot)
      → lookup (clean path) disk ≡ found
      → read_saved clean fails n path found ≡ ok s
      → Of disk s × (s.path ≡ path)
  read_saved-Of n path disk none s e h =
      subst (λ s. Of disk s × (s.path ≡ path)) (ok_inj _ _ _ refl h) (sym e, refl)
  read_saved-Of n path disk (some file) s e h = elim (Bool-cases (fails n)) [
    | inl failed ↦ cc (rw failed at h)
    | inr read ↦
        subst (λ s. Of disk s × (s.path ≡ path)) (ok_inj _ _ _ refl (rw read at h)) (sym e, refl)
  ]

  snapshot_file-Of :
      (n : ℕ) (path : String) (disk : Disk) (s : FileSnapshot)
      → snapshot_file clean fails n path disk ≡ ok s
      → Of disk s × (s.path ≡ path)
  unfolding snapshot_file
  snapshot_file-Of n path disk s h = elim (Bool-cases (fails n)) [
    | inl failed ↦ cc (rw failed at h)
    | inr found ↦ read_saved-Of (n + 1) path disk (lookup (clean path) disk) s refl (rw found at h)
  ]

  take_snapshots-Pairs :
      (n : ℕ) (seen : List String) (ms : List FileMutation) (disk : Disk)
      (pairs : List (FileMutation × FileSnapshot))
      → take_snapshots clean fails n seen ms disk ≡ ok pairs
      → Pairs disk pairs × (mutations_of pairs ≡ ms)
  unfolding take_snapshots
  take_snapshots-Pairs n seen [] disk pairs h =
      subst (λ ps. Pairs disk ps × (mutations_of ps ≡ [])) (ok_inj _ _ _ refl h) (tt, refl)
  take_snapshots-Pairs n seen (m ∷ ms) disk pairs h =
      elim (Bool-cases (seen_before clean fails (clean m.path) seen)) [
        | inl twice ↦ cc (rw twice at h)
        | inr once ↦
            let (s, snapshot, h1) =
              bind-ok (snapshot_file clean fails n m.path disk) _ _ (rw once at h) in
            let (rest, taken, h2) =
              bind-ok (take_snapshots clean fails (n + 2) (clean m.path ∷ seen) ms disk) _ _ h1 in
            let (valid, same) =
              take_snapshots-Pairs (n + 2) (clean m.path ∷ seen) ms disk rest taken in
            subst (λ ps. Pairs disk ps × (mutations_of ps ≡ m ∷ ms)) (ok_inj _ _ _ refl h2)
              ((snapshot_file-Of n m.path disk s snapshot, valid), ap (λ tail. m ∷ tail) same)
      ]

  Continues-AllOrNothing :
      (ms : List FileMutation) (disk : Disk) (out : Ending × Disk)
      → Continues disk ms disk out
      → AllOrNothing ms disk out
  Continues-AllOrNothing ms disk (applied, after) h = h
  Continues-AllOrNothing ms disk (refused e, after) h = absurd h
  Continues-AllOrNothing ms disk (rolled_back, after) h = h
  Continues-AllOrNothing ms disk (rollback_failed, after) h = tt

  write_snapshots-AllOrNothing :
      (n : ℕ) (ms : List FileMutation) (disk : Disk)
      (taken : Result TransactionError (List (FileMutation × FileSnapshot)))
      → take_snapshots clean fails 0 [] ms disk ≡ taken
      → AllOrNothing ms disk (write_snapshots clean fails n taken disk)
  unfolding write_snapshots
  write_snapshots-AllOrNothing n ms disk (err e) h = refl
  write_snapshots-AllOrNothing n ms disk (ok pairs) h =
      let (valid, same) = take_snapshots-Pairs 0 [] ms disk pairs h in
      Continues-AllOrNothing ms disk (write_all clean fails n [] pairs disk) (
        subst (λ ms'. Continues disk ms' disk (write_all clean fails n [] pairs disk)) same
          (write_all-Continues disk n [] pairs disk tt (λ q. inl refl) valid))

  -- Whichever operations fail: an applied transaction leaves at every path the file of the last
  -- mutation of that path, and what was there before at the paths of none; a transaction that is
  -- refused or rolled back leaves every path as it was. Only one whose rollback fails as well may
  -- leave anything else.
  pub apply_file_transaction-AllOrNothing :
      (n : ℕ) (ms : List FileMutation) (disk : Disk)
      → AllOrNothing ms disk (apply_file_transaction clean fails n ms disk)
  unfolding apply_file_transaction
  apply_file_transaction-AllOrNothing n ms disk =
      write_snapshots-AllOrNothing n ms disk (take_snapshots clean fails 0 [] ms disk) refl

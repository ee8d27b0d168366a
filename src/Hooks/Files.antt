-- ===== src/Hooks/Files.antt =====
-- The file transaction of internal/hooks/install.go, which replaces the configuration files of an
-- installation or leaves them as they were.
--
-- A disk maps cleaned paths to regular files; directories and temporary files are not seen. The
-- operations of package os are numbered from 0 on, and `fails` says which of them fail; a failed
-- one changes nothing. `clean` is filepath.Clean.
pub mod Atomic
use codex_claude_monitor.Prelude.{
  ℕ, ◌+◌, String, Bool, true, false, ◌||◌, Option, none, some, List, [], ◌∷◌, nat_eq, ◌==◌,
  if◌then◌else◌,
}
use codex_claude_monitor.Prelude.GoMap.{GoMap, lookup, insert, delete}
use codex_claude_monitor.Prelude.Result.{Result, ok, err, ◌>>=◌}

pub record File : Type 0 where
  pub payload : String
  pub mode : ℕ

abbrev pub Disk : Type 0
Disk = GoMap File

pub record FileMutation : Type 0 where
  pub path : String
  pub payload : String
  pub mode : ℕ

-- What was at a path: `saved` is `none` if there was no file.
pub record FileSnapshot : Type 0 where
  pub path : String
  pub saved : Option File

pub data TransactionError : Type 0 where
  duplicate_path snapshot_failed : String → TransactionError

-- How a transaction ends: refused before the first write, applied, rolled back after a failed
-- write, or not rolled back in full.
pub data Ending : Type 0 where
  refused : TransactionError → Ending
  applied rolled_back rollback_failed : Ending

abbrev pub private_mode : ℕ
private_mode = 0o600

module _ (clean : String → String) (fails : ℕ → Bool) where
  -- MkdirAll, CreateTemp, Chmod, Write, Sync, Close and Rename
  unfoldable pub write_fails : ℕ → Bool
  write_fails n =
      fails n
      || fails (n + 1)
      || fails (n + 2)
      || fails (n + 3)
      || fails (n + 4)
      || fails (n + 5)
      || fails (n + 6)

  -- Whether the write failed, and the disk after it.
  unfoldable pub atomic_write : ℕ → String → File → Disk → Bool × Disk
  unfolding write_fails insert
  atomic_write n path file disk =
      if write_fails n then (true, disk) else (false, insert (clean path) file disk)

  -- ReadFile, if there is a file.
  abbrev pub read_saved : ℕ → String → Option File → Result TransactionError FileSnapshot
  read_saved n path none = ok (record { path = path; saved = none })
  read_saved n path (some file) =
      if fails n then err (snapshot_failed path) else ok (record { path = path; saved = some file })

  -- Stat, and the read.
  unfoldable pub snapshot_file : ℕ → String → Disk → Result TransactionError FileSnapshot
  unfolding lookup
  snapshot_file n path disk =
      if fails n
      then err (snapshot_failed path)
      else read_saved (n + 1) path (lookup (clean path) disk)

  abbrev pub seen_before : String → List String → Bool
  seen_before path [] = false
  seen_before path (p ∷ ps) = p == path || seen_before path ps

  -- The first loop: each mutation with the snapshot of its path.
  unfoldable pub take_snapshots :
      ℕ
      → List String
      → List FileMutation
      → Disk
      → Result TransactionError (List (FileMutation × FileSnapshot))
  unfolding snapshot_file
  take_snapshots n seen [] disk = ok []
  take_snapshots n seen (m ∷ ms) disk =
      if seen_before (clean m.path) seen then err (duplicate_path m.path) else do
        s ← snapshot_file n m.path disk
        rest ← take_snapshots (n + 2) (clean m.path ∷ seen) ms disk
        ok ((m, s) ∷ rest)

  abbrev pub restore : ℕ → FileSnapshot → Option File → Disk → Bool × Disk
  unfolding atomic_write delete
  restore n s (some file) disk = atomic_write n s.path file disk
  restore n s none disk = if fails n then (true, disk) else (false, delete (clean s.path) disk)

  -- The snapshots are given from the last one on. A failure does not end the rollback.
  unfoldable pub rollback : ℕ → List FileSnapshot → Disk → Bool × Disk
  unfolding restore
  rollback n [] disk = (false, disk)
  rollback n (s ∷ ss) disk =
      let (failed, disk') = restore n s s.saved disk in
      let (later, disk'') = rollback (n + 7) ss disk' in (failed || later, disk'')

  abbrev pub file_of : FileMutation → File
  file_of m = record {
    payload = m.payload;
    mode = if nat_eq m.mode 0 then private_mode else m.mode;
  }

  abbrev pub ended : Bool × Disk → Ending × Disk
  ended (true, disk) = (rollback_failed, disk)
  ended (false, disk) = (rolled_back, disk)

  -- The second loop; `written` are the snapshots of the paths before, from the last one on.
  unfoldable pub write_all :
      ℕ → List FileSnapshot → List (FileMutation × FileSnapshot) → Disk → Ending × Disk
  unfolding atomic_write rollback
  write_all n written [] disk = (applied, disk)
  write_all n written ((m, s) ∷ rest) disk =
      let (failed, disk') = atomic_write n m.path (file_of m) disk in
      let continued = write_all (n + 7) (s ∷ written) rest disk' in
      if failed then ended (rollback (n + 7) (s ∷ written) disk') else continued

  abbrev pub write_snapshots :
      ℕ → Result TransactionError (List (FileMutation × FileSnapshot)) → Disk → Ending × Disk
  unfolding write_all
  write_snapshots n (err e) disk = (refused e, disk)
  write_snapshots n (ok pairs) disk = write_all n [] pairs disk

  -- `n` is the number of the first write.
  unfoldable pub apply_file_transaction : ℕ → List FileMutation → Disk → Ending × Disk
  unfolding take_snapshots write_snapshots
  apply_file_transaction n mutations disk =
      write_snapshots n (take_snapshots 0 [] mutations disk) disk

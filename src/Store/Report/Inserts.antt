-- ===== src/Store/Report/Inserts.antt =====
-- The loops of `ReplaceAgentReport` (internal/store/store.go) never meet a constraint, if the report
-- is one that the server validated.
use mathlib.Core.List.{append_assoc, append-nil}
use codex_claude_monitor.Prelude.{
  ℕ, ◌+◌, String, ◌≡◌, refl, ap, ◌∙◌, Bool, true, false, ◌&&◌, ◌||◌, none, some, List, [], ◌∷◌,
  ◌++◌, arith, ◌==◌, eq_iff, All, length,
}
use codex_claude_monitor.Prelude.GoMap.{GoMap, lookup}
use codex_claude_monitor.Prelude.GoMap.Unique.{UniqueKeys}
use codex_claude_monitor.Prelude.Result.{Result, ok}
use codex_claude_monitor.Model.{ProviderReport, ActiveTask}
use codex_claude_monitor.Store.Db.{
  ProviderRow, TaskRow, Db, StoreError, exists, owner, same_task, insert_provider_row,
  insert_task_row, is_provider, is_kind,
}
use codex_claude_monitor.Store.Report.{
  Encode, provider_row, task_row, insert_providers, insert_tasks,
}
use codex_claude_monitor.Server.Validate.Spec.{SameSession, DistinctSessions}

abbrev pub no_faults : ℕ → Bool
no_faults n = false

pub exists-append :
    {A : Type 0} (p : A → Bool) (xs ys : List A) → exists p (xs ++ ys) ≡ exists p xs || exists p ys
exists-append p [] ys = refl
exists-append p (x ∷ xs) ys = ground (arith, exists-append p xs ys)

-- The rows that stand for the providers of a report.
unfoldable pub provider_rows : Encode → String → GoMap ProviderReport → List ProviderRow
provider_rows encode agent_id [] = []
provider_rows encode agent_id ((p, r) ∷ rest) = elim (encode r.windows) [
  | none ↦ provider_rows encode agent_id rest
  | some windows ↦ provider_row agent_id p r windows ∷ provider_rows encode agent_id rest
]

-- A row has the primary key.
abbrev pub taken_provider : String → String → List ProviderRow → Bool
taken_provider agent_id p = exists (λ old. old.agent_id == agent_id && old.provider == p)

abbrev pub taken_task : String → ActiveTask → List TaskRow → Bool
taken_task agent_id t = exists (λ old.
    old.agent_id == agent_id && old.provider == t.provider && old.session_id == t.session_id)

-- The entry of a provider goes into the table without a conflict.
abbrev pub Insertable : Encode → String → List ProviderRow → String × ProviderReport → Type 0
Insertable encode agent_id rows (p, r) =
    (is_provider p ≡ true)
    × (taken_provider agent_id p rows ≡ false)
    × ((windows : String) × (encode r.windows ≡ some windows))

Insertable-append :
    (encode : Encode) (agent_id : String) (rows : List ProviderRow) (row : ProviderRow)
    (m : GoMap ProviderReport)
    → lookup row.provider m ≡ none
    → All (Insertable encode agent_id rows) m
    → All (Insertable encode agent_id (rows ++ row ∷ [])) m
unfolding lookup
Insertable-append encode agent_id rows row [] absent h = tt
Insertable-append encode agent_id rows row ((q, r) ∷ m) absent (h, hs) = (
  (
    h.0,
    ground (
      arith,
      exists-append (λ (old : ProviderRow). old.agent_id == agent_id && old.provider == q) rows
          (row ∷ []),
      eq_iff row.provider q,
      eq_iff q row.provider,
    ),
    h.2,
  ),
  Insertable-append encode agent_id rows row m (ground arith) hs,
)

abbrev Done : Type 0
Done = Result StoreError (ℕ × Db)

ok_cong : {n m : ℕ} {db db' : Db} → n ≡ m → db ≡ db' → ◌≡◌ {A = Done} (ok (n, db)) (ok (m, db'))
ok_cong e f = cc

insert_provider_row-eq-ok :
    (row : ProviderRow) (db : Db)
    → is_provider row.provider ≡ true
    → exists (owner row.agent_id) db.agents ≡ true
    → taken_provider row.agent_id row.provider db.provider_reports ≡ false
    → insert_provider_row row db
      ≡ ok (record db { provider_reports = db.provider_reports ++ row ∷ [] })
unfolding insert_provider_row
insert_provider_row-eq-ok row db known o free = ground (arith)

insert_providers-cons :
    (encode : Encode) (n : ℕ) (agent_id p : String) (r : ProviderReport) (m : GoMap ProviderReport)
    (windows : String) (db db' : Db)
    → encode r.windows ≡ some windows
    → insert_provider_row (provider_row agent_id p r windows) db ≡ ok db'
    → insert_providers encode no_faults n agent_id ((p, r) ∷ m) db
      ≡ insert_providers encode no_faults (n + 1) agent_id m db'
unfolding insert_providers
insert_providers-cons encode n agent_id p r m windows db db' e put = ground arith

pub insert_providers-eq-ok :
    (encode : Encode) (n : ℕ) (agent_id : String) (m : GoMap ProviderReport) (db : Db)
    → UniqueKeys m
    → exists (owner agent_id) db.agents ≡ true
    → All (Insertable encode agent_id db.provider_reports) m
    → insert_providers encode no_faults n agent_id m db
      ≡ ok (
        n + length m,
        record db { provider_reports = db.provider_reports ++ provider_rows encode agent_id m },
      )
unfolding insert_providers provider_rows
insert_providers-eq-ok encode n agent_id [] db u o h =
    rw (append-nil db.provider_reports) (ap (λ k. ok (k, db)) (omega arith))
insert_providers-eq-ok encode n agent_id ((p, r) ∷ m) db u o ((known, free, (windows, e)), hs) =
    let row = provider_row agent_id p r windows in
    let db' : Db = record db { provider_reports = db.provider_reports ++ row ∷ [] } in
    insert_providers-cons encode n agent_id p r m windows db db' e
      (insert_provider_row-eq-ok row db known o free)
    ∙ insert_providers-eq-ok encode (n + 1) agent_id m db' u.1 o
        (Insertable-append encode agent_id db.provider_reports row m u.0 hs)
    ∙ rw (e, provider_rows)
        (ok_cong (omega arith) (
          ap (λ rows. record db { provider_reports = rows })
            (append_assoc db.provider_reports (row ∷ []) (provider_rows encode agent_id m))))

-- The rows that stand for the tasks of a report.
abbrev pub task_rows : String → List ActiveTask → List TaskRow
task_rows agent_id [] = []
task_rows agent_id (t ∷ ts) = task_row agent_id t ∷ task_rows agent_id ts

-- The entry of a task goes into the table without a conflict.
abbrev pub Acceptable : String → List TaskRow → ActiveTask → Type 0
Acceptable agent_id rows t =
    (is_provider t.provider ≡ true) × (is_kind t.kind ≡ true) × (taken_task agent_id t rows ≡ false)

Acceptable-append :
    (agent_id : String) (rows : List TaskRow) (t : ActiveTask) (ts : List ActiveTask)
    → All (λ u. ¬ SameSession t u) ts
    → All (Acceptable agent_id rows) ts
    → All (Acceptable agent_id (rows ++ task_row agent_id t ∷ [])) ts
Acceptable-append agent_id rows t [] apart h = tt
Acceptable-append agent_id rows t (u ∷ ts) (new, apart) ((p, k, free), hs) = (
  (
    p,
    k,
    ground (
      arith,
      exists-append
          (λ (old : TaskRow).
            old.agent_id == agent_id
            && old.provider == u.provider
            && old.session_id == u.session_id)
          rows (task_row agent_id t ∷ []),
      new,
      eq_iff t.provider u.provider,
      eq_iff t.session_id u.session_id,
    ),
  ),
  Acceptable-append agent_id rows t ts apart hs,
)

insert_task_row-eq-ok :
    (row : TaskRow) (db : Db)
    → is_provider row.provider ≡ true
    → is_kind row.kind ≡ true
    → exists (owner row.agent_id) db.agents ≡ true
    → exists (same_task row) db.active_tasks ≡ false
    → insert_task_row row db ≡ ok (record db { active_tasks = db.active_tasks ++ row ∷ [] })
unfolding insert_task_row
insert_task_row-eq-ok row db known kind o free = ground arith

insert_tasks-cons :
    (n : ℕ) (agent_id : String) (t : ActiveTask) (ts : List ActiveTask) (db db' : Db)
    → insert_task_row (task_row agent_id t) db ≡ ok db'
    → insert_tasks no_faults n agent_id (t ∷ ts) db ≡ insert_tasks no_faults (n + 1) agent_id ts db'
unfolding insert_tasks
insert_tasks-cons n agent_id t ts db db' put = ground arith

pub insert_tasks-eq-ok :
    (n : ℕ) (agent_id : String) (ts : List ActiveTask) (db : Db)
    → DistinctSessions ts
    → exists (owner agent_id) db.agents ≡ true
    → All (Acceptable agent_id db.active_tasks) ts
    → insert_tasks no_faults n agent_id ts db
      ≡ ok (n + length ts, record db { active_tasks = db.active_tasks ++ task_rows agent_id ts })
unfolding insert_tasks
insert_tasks-eq-ok n agent_id [] db d o h =
    rw (append-nil db.active_tasks) (ap (λ k. ok (k, db)) (omega arith))
insert_tasks-eq-ok n agent_id (t ∷ ts) db d o ((known, kind, free), hs) =
    let row = task_row agent_id t in
    let db' : Db = record db { active_tasks = db.active_tasks ++ row ∷ [] } in
    insert_tasks-cons n agent_id t ts db db' (insert_task_row-eq-ok row db known kind o free)
    ∙ insert_tasks-eq-ok (n + 1) agent_id ts db' d.1 o
        (Acceptable-append agent_id db.active_tasks t ts d.0 hs)
    ∙ ok_cong (omega arith) (
        ap (λ rows. record db { active_tasks = rows })
          (append_assoc db.active_tasks (row ∷ []) (task_rows agent_id ts)))

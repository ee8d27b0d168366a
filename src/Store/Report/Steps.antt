-- ===== src/Store/Report/Steps.antt =====
-- The statements of `ReplaceAgentReport` (internal/store/store.go), whichever database calls fail.
use codex_claude_monitor.Prelude.{
  ℕ, ◌+◌, String, ◌≡◌, ◌⊎◌, refl, sym, ap, subst, ◌∙◌, inl, inr, Bool, true, false, not, List, [],
  ◌∷◌, ◌++◌, arith, keep, if◌then◌else◌,
}
use codex_claude_monitor.Prelude.GoMap.{GoMap}
use codex_claude_monitor.Prelude.Result.{bind-ok, Result, ok, err}
use codex_claude_monitor.Clock.{Instant}
use codex_claude_monitor.Model.{ProviderReport, ActiveTask, AgentReport}
use codex_claude_monitor.Store.Calls.{exec-ok, exec-then}
use codex_claude_monitor.Store.Db.{
  ProviderRow, TaskRow, Db, StoreError, exists, owner, same_provider, same_task, is_provider,
  is_kind, insert_provider_row, insert_task_row, Faults, exec,
}
use codex_claude_monitor.Store.Report.{
  Encode, encoded, agent_row, upsert_agent, provider_row, task_row, entries, of_others_provider,
  of_others_task, insert_providers, insert_tasks, replace_in_tx, finish, replace_agent_report,
}
use codex_claude_monitor.Store.Report.Accepted.{agent_of, upsert_agent-changed, is_newer}

then-ok :
    {A : Type 0} (changed : Bool) (e : StoreError) (m : Result StoreError A) (a : A)
    → (if not changed then err e else m) ≡ ok a
    → (changed ≡ true) × (m ≡ ok a)
then-ok true e m a h = (refl, h)
then-ok false e m a h = cc

-- The effect of a statement that inserts a row.
pub insert_provider_row-ok :
    (row : ProviderRow) (db db' : Db)
    → insert_provider_row row db ≡ ok db'
    → (is_provider row.provider ≡ true)
      × (exists (owner row.agent_id) db.agents ≡ true)
      × (exists (same_provider row) db.provider_reports ≡ false)
      × (db' ≡ record db { provider_reports = db.provider_reports ++ row ∷ [] })
unfolding insert_provider_row
insert_provider_row-ok row db db' h = ground arith

pub insert_task_row-ok :
    (row : TaskRow) (db db' : Db)
    → insert_task_row row db ≡ ok db'
    → (is_provider row.provider ≡ true)
      × (is_kind row.kind ≡ true)
      × (exists (owner row.agent_id) db.agents ≡ true)
      × (exists (same_task row) db.active_tasks ≡ false)
      × (db' ≡ record db { active_tasks = db.active_tasks ++ row ∷ [] })
unfolding insert_task_row
insert_task_row-ok row db db' h = ground arith

-- What every insertion of a row of the agent keeps, the loops keep.
module _ (P : Db → Type 0) (agent_id : String) where
  pub insert_providers-keeps :
      (encode : Encode) (fails : Faults) (n : ℕ) (m : GoMap ProviderReport) (db : Db) (end : ℕ × Db)
      → ((row : ProviderRow) (db db' : Db)
          → row.agent_id ≡ agent_id
          → insert_provider_row row db ≡ ok db'
          → P db
          → P db')
      → insert_providers encode fails n agent_id m db ≡ ok end
      → P db
      → P end.1
  unfolding insert_providers
  insert_providers-keeps encode fails n [] db end step h p = subst P (ground (arith, h)) p
  insert_providers-keeps encode fails n ((q, r) ∷ m) db end step h p =
      let (windows, _, h1) = bind-ok (encoded encode q r.windows) _ end h in
      let (db', put, h2) =
        bind-ok (exec fails n (insert_provider_row (provider_row agent_id q r windows) db)) _ end
          h1 in
      insert_providers-keeps encode fails (n + 1) m db' end step h2
        (step (provider_row agent_id q r windows) db db' refl (exec-ok fails n _ db' put) p)

  pub insert_tasks-keeps :
      (fails : Faults) (n : ℕ) (ts : List ActiveTask) (db : Db) (end : ℕ × Db)
      → ((row : TaskRow) (db db' : Db)
          → row.agent_id ≡ agent_id
          → insert_task_row row db ≡ ok db'
          → P db
          → P db')
      → insert_tasks fails n agent_id ts db ≡ ok end
      → P db
      → P end.1
  unfolding insert_tasks
  insert_tasks-keeps fails n [] db end step h p = subst P (ground (arith, h)) p
  insert_tasks-keeps fails n (t ∷ ts) db end step h p =
      let (db', put, h2) =
        bind-ok (exec fails n (insert_task_row (task_row agent_id t) db)) _ end h in
      insert_tasks-keeps fails (n + 1) ts db' end step h2
        (step (task_row agent_id t) db db' refl (exec-ok fails n _ db' put) p)

-- The statements of a transaction that succeeds.
pub record TxSteps (encode : Encode) (fails : Faults) (report : AgentReport) (received_at : Instant)
    (db db' : Db) : Type 0 where
  pub newer : is_newer (agent_row report received_at) (agent_of report.agent_id db.agents) ≡ true
  pub filled : ℕ × Db
  pub last : ℕ
  pub providers :
      insert_providers encode fails 3 report.agent_id (entries report.providers) (record db {
        agents = (upsert_agent (agent_row report received_at) db.agents).0;
        provider_reports = keep (of_others_provider report.agent_id) db.provider_reports;
      })
      ≡ ok filled
  pub tasks :
      insert_tasks fails
        (filled.0 + 1)
        report.agent_id
        (entries report.active_tasks)
        (record filled.1 {
          active_tasks = keep (of_others_task report.agent_id) filled.1.active_tasks;
        })
      ≡ ok (last, db')

pub replace_in_tx-TxSteps :
    (encode : Encode) (fails : Faults) (report : AgentReport) (received_at : Instant) (db db' : Db)
    → replace_in_tx encode fails report received_at db ≡ ok db'
    → TxSteps encode fails report received_at db db'
unfolding replace_in_tx
replace_in_tx-TxSteps encode fails report received_at db db' h =
    let (changed, h1) = then-ok _ _ _ db' (exec-then fails 1 _ _ db' h) in
    let (filled, providers, h2) = bind-ok _ _ db' (exec-then fails 2 _ _ db' h1) in
    let ((last, final), tasks, h3) = bind-ok _ _ db' (exec-then fails filled.0 _ _ db' h2) in
    let done : final ≡ db' = ground (arith, exec-ok fails last (ok final) db' h3) in
    record {
      newer = sym (upsert_agent-changed (agent_row report received_at) db.agents) ∙ changed;
      filled = filled;
      last = last;
      providers = providers;
      tasks = tasks ∙ ap (λ d. ok (last, d)) done;
    }

-- A call leaves the database as it was, or its transaction succeeded.
pub replace_agent_report_cases :
    (encode : Encode) (fails : Faults) (report : AgentReport) (received_at : Instant) (db : Db)
    → ((replace_agent_report encode fails report received_at db).1 ≡ db)
      ⊎ TxSteps encode fails report received_at db
          (replace_agent_report encode fails report received_at db).1
unfolding replace_agent_report
replace_agent_report_cases encode fails report received_at db =
    go (exec fails 0 (replace_in_tx encode fails report received_at db)) refl
  where
    go :
        (out : Result StoreError Db)
        → exec fails 0 (replace_in_tx encode fails report received_at db) ≡ out
        → ((finish db out).1 ≡ db) ⊎ TxSteps encode fails report received_at db (finish db out).1
    go (ok db') h =
        inr (replace_in_tx-TxSteps encode fails report received_at db db' (exec-ok fails 0 _ db' h))
    go (err e) h = inl refl

-- ===== src/Store/Report.antt =====
-- `Store.ReplaceAgentReport` of internal/store/store.go.
pub mod Inserts
pub mod Accepted
pub mod Replaced
pub mod Order
pub mod Steps
pub mod Isolation
pub mod Integrity
use codex_claude_monitor.Prelude.{
  ℕ, ◌+◌, String, Bool, true, false, not, Option, none, some, List, [], ◌∷◌, ◌++◌, map, ltb, keep,
  ◌==◌, if◌then◌else◌,
}
use codex_claude_monitor.Prelude.GoMap.{GoMap}
use codex_claude_monitor.Prelude.Result.{Result, ok, err, ◌>>=◌}
use codex_claude_monitor.Clock.{Instant, UnixNano, bias, unix_nano, is_zero}
use codex_claude_monitor.Model.{ProviderWindows, ProviderReport, ActiveTask, AgentReport}
use codex_claude_monitor.Store.Db.{
  AgentRow, ProviderRow, TaskRow, Db, StoreError, stale_report, sql_failed, encode_failed, exists,
  owner, insert_provider_row, insert_task_row, Faults, exec,
}

-- INSERT INTO agents … ON CONFLICT DO UPDATE … WHERE excluded.report_sent_at_ns >
-- agents.report_sent_at_ns: the rows, and whether one was inserted or updated.
unfoldable pub upsert_agent : AgentRow → List AgentRow → List AgentRow × Bool
upsert_agent new [] = (new ∷ [], true)
upsert_agent new (a ∷ rest) =
    let (later, changed) = upsert_agent new rest in
    if a.agent_id == new.agent_id
    then (if ltb a.report_sent_at new.report_sent_at then (new ∷ rest, true) else (a ∷ rest, false))
    else (a ∷ later, changed)

-- A zero time is stored as 0.
abbrev pub observed_nano : Instant → UnixNano
observed_nano t = if is_zero t then bias else unix_nano t

abbrev pub provider_row : String → String → ProviderReport → String → ProviderRow
provider_row agent_id provider r windows = record {
  agent_id = agent_id;
  provider = provider;
  observed_at = observed_nano r.observed_at;
  auth_state = r.auth_state;
  plan = r.plan;
  source = r.source;
  windows_json = windows;
  error_code = r.error_code;
}

abbrev pub task_row : String → ActiveTask → TaskRow
task_row agent_id t = record {
  agent_id = agent_id;
  provider = t.provider;
  kind = t.kind;
  session_id = t.session_id;
  started_at = unix_nano t.started_at;
  last_seen_at = unix_nano t.last_seen_at;
}

-- `json.Marshal` of the windows, which may fail.
abbrev pub Encode : Type 0
Encode = ProviderWindows → Option String

abbrev pub encoded : Encode → String → ProviderWindows → Result StoreError String
encoded encode provider w = elim (encode w) [ none ↦ err (encode_failed provider) | some s ↦ ok s ]

-- The loop over `report.Providers`, from the n-th database call on.
unfoldable pub insert_providers :
    Encode → Faults → ℕ → String → GoMap ProviderReport → Db → Result StoreError (ℕ × Db)
insert_providers encode fails n agent_id [] db = ok (n, db)
insert_providers encode fails n agent_id ((provider, r) ∷ rest) db = do
  windows ← encoded encode provider r.windows
  db' ← exec fails n (insert_provider_row (provider_row agent_id provider r windows) db)
  insert_providers encode fails (n + 1) agent_id rest db'

-- The loop over `report.ActiveTasks`.
unfoldable pub insert_tasks :
    Faults → ℕ → String → List ActiveTask → Db → Result StoreError (ℕ × Db)
insert_tasks fails n agent_id [] db = ok (n, db)
insert_tasks fails n agent_id (t ∷ rest) db = do
  db' ← exec fails n (insert_task_row (task_row agent_id t) db)
  insert_tasks fails (n + 1) agent_id rest db'

abbrev pub agent_row : AgentReport → Instant → AgentRow
agent_row report received_at = record {
  agent_id = report.agent_id;
  report_sent_at = unix_nano report.sent_at;
  last_report_at = unix_nano received_at;
}

-- A nil map or slice has no entries to visit.
abbrev pub entries {ℓ} : {A : Type ℓ} → Option (List A) → List A
entries none = []
entries (some xs) = xs

abbrev pub of_others_provider : String → ProviderRow → Bool
of_others_provider agent_id row = not (row.agent_id == agent_id)

abbrev pub of_others_task : String → TaskRow → Bool
of_others_task agent_id row = not (row.agent_id == agent_id)

-- The statements of the transaction.
unfoldable pub replace_in_tx : Encode → Faults → AgentReport → Instant → Db → Result StoreError Db
replace_in_tx encode fails report received_at db = do
  (agents, changed) ← exec fails 1 (ok (upsert_agent (agent_row report received_at) db.agents))
  if not changed then err stale_report else do
    rows ← exec fails 2 (ok (keep (of_others_provider report.agent_id) db.provider_reports))
    (n, db') ←
        insert_providers encode fails 3 report.agent_id (entries report.providers)
          (record db { agents = agents; provider_reports = rows })
    tasks ← exec fails n (ok (keep (of_others_task report.agent_id) db'.active_tasks))
    (m, db'') ←
        insert_tasks fails (n + 1) report.agent_id (entries report.active_tasks)
          (record db' { active_tasks = tasks })
    exec fails m (ok db'')

-- What the caller sees of the outcome of a transaction. Every return before the commit, and a
-- failed commit, rolls back.
abbrev pub finish : Db → Result StoreError Db → Result StoreError (Unit {0}) × Db
finish db (ok db') = (ok tt, db')
finish db (err e) = (err e, db)

-- BeginTx is the database call number 0.
unfoldable pub replace_agent_report :
    Encode → Faults → AgentReport → Instant → Db → Result StoreError (Unit {0}) × Db
replace_agent_report encode fails report received_at db =
    finish db (exec fails 0 (replace_in_tx encode fails report received_at db))

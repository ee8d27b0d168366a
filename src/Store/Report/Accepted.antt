-- ===== src/Store/Report/Accepted.antt =====
-- What `ReplaceAgentReport` (internal/store/store.go) makes of a report that the server validated,
-- if no database call fails.
use codex_claude_monitor.Prelude.{
  ◌+◌, String, ◌≡◌, refl, sym, ap, subst, inl, inr, Bool, true, false, Option, none, some, List, [],
  ◌∷◌, ◌++◌, arith, ◌==◌, eq_iff, keep, length, All, ltb, Bool-cases, if◌then◌else◌, ◌&&◌,
}
use codex_claude_monitor.Prelude.GoMap.{GoMap}
use codex_claude_monitor.Prelude.GoMap.Unique.{UniqueKeys}
use codex_claude_monitor.Prelude.Result.{ok, err}
use codex_claude_monitor.Clock.{Instant}
use codex_claude_monitor.Float.{Round}
use codex_claude_monitor.Model.{ProviderReport, ActiveTask, AgentReport}
use codex_claude_monitor.Store.Db.{AgentRow, ProviderRow, TaskRow, Db, stale_report, exists, owner}
use codex_claude_monitor.Store.Report.{
  Encode, agent_row, upsert_agent, entries, of_others_provider, of_others_task, insert_providers,
  insert_tasks, replace_in_tx, replace_agent_report, finish,
}
use codex_claude_monitor.Store.Report.Inserts.{
  no_faults, provider_rows, task_rows, taken_provider, taken_task, Insertable, Acceptable,
  insert_providers-eq-ok, insert_tasks-eq-ok,
}
use codex_claude_monitor.Server.Validate.Spec.{
  IsValidProvider, IsValidTask, DistinctSessions, IsValidReport,
}

-- The row of an agent.
abbrev pub agent_of : String → List AgentRow → Option AgentRow
agent_of id [] = none
agent_of id (a ∷ rest) = if a.agent_id == id then some a else agent_of id rest

-- No report of the agent with a send time as late is stored.
abbrev pub is_newer : AgentRow → Option AgentRow → Bool
is_newer new none = true
is_newer new (some a) = ltb a.report_sent_at new.report_sent_at

pub upsert_agent-changed :
    (new : AgentRow) (agents : List AgentRow)
    → (upsert_agent new agents).1 ≡ is_newer new (agent_of new.agent_id agents)
unfolding upsert_agent
upsert_agent-changed new [] = refl
upsert_agent-changed new (a ∷ rest) = ground (arith, upsert_agent-changed new rest)

pub agent_of-upsert_agent :
    (new : AgentRow) (agents : List AgentRow) (id : String)
    → agent_of id (upsert_agent new agents).0 ≡ (
        if new.agent_id == id && is_newer new (agent_of id agents)
        then some new
        else agent_of id agents)
unfolding upsert_agent
agent_of-upsert_agent new [] id = ground arith
agent_of-upsert_agent new (a ∷ rest) id = ground (
  arith,
  agent_of-upsert_agent new rest id,
  eq_iff a.agent_id id,
  eq_iff new.agent_id id,
  eq_iff a.agent_id new.agent_id,
)

exists-upsert_agent :
    (new : AgentRow) (agents : List AgentRow)
    → exists (owner new.agent_id) (upsert_agent new agents).0 ≡ true
unfolding upsert_agent
exists-upsert_agent new [] = ground (arith, eq_iff new.agent_id new.agent_id)
exists-upsert_agent new (a ∷ rest) = ground (
  arith,
  exists-upsert_agent new rest,
  eq_iff new.agent_id new.agent_id,
  eq_iff a.agent_id new.agent_id,
)

-- The database in which the agent's rows are those of the report.
abbrev pub replaced : Encode → AgentReport → Instant → Db → Db
replaced encode report received_at db = record db {
  agents = (upsert_agent (agent_row report received_at) db.agents).0;
  provider_reports =
      keep (of_others_provider report.agent_id) db.provider_reports
      ++ provider_rows encode report.agent_id (entries report.providers);
  active_tasks =
      keep (of_others_task report.agent_id) db.active_tasks
      ++ task_rows report.agent_id (entries report.active_tasks);
}

none_taken_provider :
    (agent_id p : String) (rows : List ProviderRow)
    → taken_provider agent_id p (keep (of_others_provider agent_id) rows) ≡ false
none_taken_provider agent_id p [] = refl
none_taken_provider agent_id p (row ∷ rows) = ground (arith, none_taken_provider agent_id p rows)

none_taken_task :
    (agent_id : String) (t : ActiveTask) (rows : List TaskRow)
    → taken_task agent_id t (keep (of_others_task agent_id) rows) ≡ false
none_taken_task agent_id t [] = refl
none_taken_task agent_id t (row ∷ rows) = ground (arith, none_taken_task agent_id t rows)

-- `json.Marshal` succeeds on the windows of every provider.
abbrev pub Encodable : Encode → GoMap ProviderReport → Type 0
Encodable encode = All (λ e. (windows : String) × (encode e.1.windows ≡ some windows))

module _ (round : Round) (report : AgentReport) (now : Instant) where
  valid_provider-Insertable :
      (encode : Encode) (rows : List ProviderRow) (m : GoMap ProviderReport)
      → All (IsValidProvider round report now) m
      → Encodable encode m
      → All (Insertable encode report.agent_id (keep (of_others_provider report.agent_id) rows)) m
  valid_provider-Insertable encode rows [] v e = tt
  valid_provider-Insertable encode rows ((p, r) ∷ m) (v, vs) (e, es) = (
    (
      ground (arith, v.known, eq_iff p "codex", eq_iff p "claude"),
      none_taken_provider report.agent_id p rows,
      e,
    ),
    valid_provider-Insertable encode rows m vs es,
  )

  valid_task-Acceptable :
      (rows : List TaskRow) (ts : List ActiveTask)
      → All (IsValidTask report now) ts
      → All (Acceptable report.agent_id (keep (of_others_task report.agent_id) rows)) ts
  valid_task-Acceptable rows [] v = tt
  valid_task-Acceptable rows (t ∷ ts) (v, vs) = (
    (
      ground (arith, v.provider, eq_iff t.provider "codex", eq_iff t.provider "claude"),
      ground (arith, v.kind, eq_iff t.kind "main", eq_iff t.kind "sub"),
      none_taken_task report.agent_id t rows,
    ),
    valid_task-Acceptable rows ts vs,
  )

  module _ (encode : Encode) (received_at : Instant) (db : Db) where
    replace_in_tx-eq :
        IsValidReport round report now
        → UniqueKeys (entries report.providers)
        → Encodable encode (entries report.providers)
        → replace_in_tx encode no_faults report received_at db ≡ (
            if is_newer (agent_row report received_at) (agent_of report.agent_id db.agents)
            then ok (replaced encode report received_at db)
            else err stale_report)
    unfolding replace_in_tx
    replace_in_tx-eq v u e = elim (Bool-cases (is_newer new (agent_of report.agent_id db.agents))) [
      | inl newer ↦ rw (changed, newer, providers, tasks) refl
      | inr older ↦ rw (changed, older) refl
    ]
      where
        new : AgentRow
        new = agent_row report received_at

        changed : (upsert_agent new db.agents).1 ≡ is_newer new (agent_of report.agent_id db.agents)
        changed = upsert_agent-changed new db.agents

        cleared : Db
        cleared = record db {
          agents = (upsert_agent new db.agents).0;
          provider_reports = keep (of_others_provider report.agent_id) db.provider_reports;
        }

        providers :
            insert_providers encode no_faults 3 report.agent_id (entries report.providers) cleared
            ≡ ok (
              3 + length (entries report.providers),
              record (replaced encode report received_at db) { active_tasks = db.active_tasks },
            )
        providers =
            insert_providers-eq-ok encode 3 report.agent_id (entries report.providers) cleared u
              (exists-upsert_agent new db.agents)
              (valid_provider-Insertable encode db.provider_reports (entries report.providers)
                (subst (λ m. All (IsValidProvider round report now) (entries m))
                  (sym v.providers_present) v.providers_valid)
                e)

        refilled : Db
        refilled = record (replaced encode report received_at db) {
          active_tasks = keep (of_others_task report.agent_id) db.active_tasks;
        }

        tasks :
            insert_tasks no_faults
              (3 + length (entries report.providers) + 1)
              report.agent_id
              (entries report.active_tasks)
              refilled
            ≡ ok (
              3 + length (entries report.providers) + 1 + length (entries report.active_tasks),
              replaced encode report received_at db,
            )
        tasks =
            insert_tasks-eq-ok (3 + length (entries report.providers) + 1) report.agent_id
              (entries report.active_tasks) refilled
              (subst (λ ts. DistinctSessions (entries ts)) (sym v.tasks_present) v.sessions)
              (exists-upsert_agent new db.agents)
              (valid_task-Acceptable db.active_tasks (entries report.active_tasks) (
                subst (λ ts. All (IsValidTask report now) (entries ts)) (sym v.tasks_present)
                  v.tasks_valid))

    pub replace_agent_report-eq :
        IsValidReport round report now
        → UniqueKeys (entries report.providers)
        → Encodable encode (entries report.providers)
        → replace_agent_report encode no_faults report received_at db ≡ (
            if is_newer (agent_row report received_at) (agent_of report.agent_id db.agents)
            then (ok tt, replaced encode report received_at db)
            else (err stale_report, db))
    unfolding replace_agent_report
    replace_agent_report-eq v u e =
        elim (Bool-cases
          (is_newer (agent_row report received_at) (agent_of report.agent_id db.agents))) [
            | inl newer ↦ rw newer (ap (finish db) (rw newer at (replace_in_tx-eq v u e)))
            | inr older ↦ rw older (ap (finish db) (rw older at (replace_in_tx-eq v u e)))
          ]

-- ===== src/Store/Report/Replaced.antt =====
-- What a validated report leaves in the tables (`ReplaceAgentReport` of internal/store/store.go),
-- column by column.
use codex_claude_monitor.Prelude.{
  ◌<◌, ◌≤◌, ltb, ltb→lt, String, ◌^◌, ◌≡◌, ◌≢◌, ◌⊎◌, refl, sym, subst, inl, inr, true, false, not,
  none, some, List, [], ◌∷◌, ◌++◌, arith, ◌==◌, eq_iff, keep, Bool-cases, Option-cases, Option,
}
use codex_claude_monitor.Prelude.GoMap.{GoMap}
use codex_claude_monitor.Prelude.GoMap.Unique.{UniqueKeys}
use codex_claude_monitor.Prelude.Result.{ok, err}
use codex_claude_monitor.Clock.{Instant, unix_nano, zero_time, is_zero}
use codex_claude_monitor.Float.{Round}
use codex_claude_monitor.Model.{ProviderReport, ActiveTask, AgentReport}
use codex_claude_monitor.Server.Validate.Spec.{IsValidReport}
use codex_claude_monitor.Store.Db.{AgentRow, ProviderRow, TaskRow, Db, stale_report}
use codex_claude_monitor.Store.Report.{
  Encode, observed_nano, agent_row, upsert_agent, entries, replace_agent_report,
}
use codex_claude_monitor.Store.Report.Inserts.{no_faults, provider_rows, task_rows}
use codex_claude_monitor.Store.Report.Accepted.{
  agent_of, is_newer, agent_of-upsert_agent, replaced, Encodable, replace_agent_report-eq,
}

-- The row has the columns of a provider's sample, with the windows as the encoder writes them. A
-- sample without a time of observation has the nanoseconds 0, which are 2^63 with the bias.
pub record SampleColumns (encode : Encode) (owner name : String) (r : ProviderReport)
    (row : ProviderRow) : Type 0 where
  pub agent_id : row.agent_id ≡ owner
  pub provider : row.provider ≡ name
  pub observed_at :
      ((r.observed_at ≡ zero_time) × (row.observed_at ≡ 2 ^ 63))
      ⊎ ((r.observed_at ≢ zero_time) × (row.observed_at ≡ unix_nano r.observed_at))
  pub auth_state : row.auth_state ≡ r.auth_state
  pub plan : row.plan ≡ r.plan
  pub source : row.source ≡ r.source
  pub windows_json : some row.windows_json ≡ encode r.windows
  pub error_code : row.error_code ≡ r.error_code

-- The rows are the samples of the providers, one each, in their order.
abbrev pub SampleRows : Encode → String → GoMap ProviderReport → List ProviderRow → Type 0
SampleRows encode agent_id [] [] = Unit
SampleRows encode agent_id [] (row ∷ rows) = ⊥
SampleRows encode agent_id (e ∷ m) [] = ⊥
SampleRows encode agent_id ((p, r) ∷ m) (row ∷ rows) =
    SampleColumns encode agent_id p r row × SampleRows encode agent_id m rows

-- The rows are the tasks, one each, in their order.
abbrev pub TaskRows : String → List ActiveTask → List TaskRow → Type 0
TaskRows agent_id [] [] = Unit
TaskRows agent_id [] (row ∷ rows) = ⊥
TaskRows agent_id (t ∷ ts) [] = ⊥
TaskRows agent_id (t ∷ ts) (row ∷ rows) =
    (row.agent_id ≡ agent_id)
    × (row.provider ≡ t.provider)
    × (row.kind ≡ t.kind)
    × (row.session_id ≡ t.session_id)
    × (row.started_at ≡ unix_nano t.started_at)
    × (row.last_seen_at ≡ unix_nano t.last_seen_at)
    × TaskRows agent_id ts rows

-- What a report lists; a missing list is empty.
abbrev pub all_of {ℓ} : {A : Type ℓ} → Option (List A) → List A
all_of none = []
all_of (some xs) = xs

all_of-entries {ℓ} : {A : Type ℓ} (o : Option (List A)) → entries o ≡ all_of o
all_of-entries none = refl
all_of-entries (some xs) = refl

-- The tables after a report: the agent's row has the times of the report, its samples and its tasks
-- are those of the report, and all else is as before.
pub record Replaces (encode : Encode) (report : AgentReport) (received_at : Instant)
    (before after : Db) : Type 0 where
  pub tokens : after.tokens ≡ before.tokens
  pub agent :
      (row : AgentRow) × (agent_of report.agent_id after.agents ≡ some row)
      × (row.agent_id ≡ report.agent_id)
      × (row.report_sent_at ≡ unix_nano report.sent_at)
      × (row.last_report_at ≡ unix_nano received_at)
  pub other_agents :
      keep (λ a. not (a.agent_id == report.agent_id)) after.agents
      ≡ keep (λ a. not (a.agent_id == report.agent_id)) before.agents
  pub samples :
      (rows : List ProviderRow) × SampleRows encode report.agent_id (all_of report.providers) rows
      × (after.provider_reports
          ≡ keep (λ row. not (row.agent_id == report.agent_id)) before.provider_reports ++ rows)
  pub tasks :
      (rows : List TaskRow) × TaskRows report.agent_id (all_of report.active_tasks) rows
      × (after.active_tasks
          ≡ keep (λ row. not (row.agent_id == report.agent_id)) before.active_tasks ++ rows)

task_rows-TaskRows :
    (agent_id : String) (ts : List ActiveTask) → TaskRows agent_id ts (task_rows agent_id ts)
task_rows-TaskRows agent_id [] = tt
task_rows-TaskRows agent_id (t ∷ ts) =
    (refl, refl, refl, refl, refl, refl, task_rows-TaskRows agent_id ts)

dated :
    (t : Instant)
    → ((t ≡ zero_time) × (observed_nano t ≡ 2 ^ 63))
      ⊎ ((t ≢ zero_time) × (observed_nano t ≡ unix_nano t))
dated t = elim (Bool-cases (is_zero t)) [
  | inl undated ↦ inl (ground arith, rw undated refl)
  | inr set ↦ inr ((λ e. ground (arith, e, set)), rw set refl)
]

provider_rows-SampleRows :
    (encode : Encode) (agent_id : String) (m : GoMap ProviderReport)
    → Encodable encode m
    → SampleRows encode agent_id m (provider_rows encode agent_id m)
unfolding provider_rows
provider_rows-SampleRows encode agent_id [] h = tt
provider_rows-SampleRows encode agent_id ((p, r) ∷ m) ((windows, e), es) =
    rw (e, provider_rows)
      (
        record {
          agent_id = refl;
          provider = refl;
          observed_at = dated r.observed_at;
          auth_state = refl;
          plan = refl;
          source = refl;
          windows_json = sym e;
          error_code = refl;
        },
        provider_rows-SampleRows encode agent_id m es,
      )

upsert_agent-keeps :
    (new : AgentRow) (agents : List AgentRow)
    → keep (λ a. not (a.agent_id == new.agent_id)) (upsert_agent new agents).0
      ≡ keep (λ a. not (a.agent_id == new.agent_id)) agents
unfolding upsert_agent
upsert_agent-keeps new [] = ground (arith, eq_iff new.agent_id new.agent_id)
upsert_agent-keeps new (a ∷ rest) = ground (
  arith,
  upsert_agent-keeps new rest,
  eq_iff new.agent_id new.agent_id,
  eq_iff a.agent_id new.agent_id,
)

-- No row of the agent has a send time as late as the report's.
abbrev pub SentLater : AgentReport → Db → Type 0
SentLater report db =
    (agent_of report.agent_id db.agents ≡ none)
    ⊎ ((stored : AgentRow) × (agent_of report.agent_id db.agents ≡ some stored)
        × (stored.report_sent_at < unix_nano report.sent_at))

-- The row of the agent has a send time as late as the report's, or later.
abbrev pub SentEarlier : AgentReport → Db → Type 0
SentEarlier report db =
    (stored : AgentRow) × (agent_of report.agent_id db.agents ≡ some stored)
    × (unix_nano report.sent_at ≤ stored.report_sent_at)

replaced-Replaces :
    (encode : Encode) (report : AgentReport) (received_at : Instant) (db : Db)
    → is_newer (agent_row report received_at) (agent_of report.agent_id db.agents) ≡ true
    → Encodable encode (entries report.providers)
    → Replaces encode report received_at db (replaced encode report received_at db)
replaced-Replaces encode report received_at db newer e = record {
  tokens = refl;
  agent = (
    agent_row report received_at,
    ground (
      arith,
      agent_of-upsert_agent (agent_row report received_at) db.agents report.agent_id,
      eq_iff report.agent_id report.agent_id,
      newer,
    ),
    refl,
    refl,
    refl,
  );
  other_agents = upsert_agent-keeps (agent_row report received_at) db.agents;
  samples = (
    provider_rows encode report.agent_id (entries report.providers),
    subst
        (λ m.
          SampleRows encode report.agent_id m
            (provider_rows encode report.agent_id (entries report.providers)))
        (all_of-entries report.providers)
        (provider_rows-SampleRows encode report.agent_id (entries report.providers) e),
    refl,
  );
  tasks = (
    task_rows report.agent_id (entries report.active_tasks),
    subst
        (λ ts.
          TaskRows report.agent_id ts (task_rows report.agent_id (entries report.active_tasks)))
        (all_of-entries report.active_tasks)
        (task_rows-TaskRows report.agent_id (entries report.active_tasks)),
    refl,
  );
}

is_newer-SentLater :
    (report : AgentReport) (received_at : Instant) (db : Db)
    → is_newer (agent_row report received_at) (agent_of report.agent_id db.agents) ≡ true
    → SentLater report db
is_newer-SentLater report received_at db newer =
    elim (Option-cases (agent_of report.agent_id db.agents)) [
      | inl nothing ↦ inl nothing
      | inr (stored, there) ↦ inr (stored, there, ltb→lt _ _ (rw there at newer))
    ]

is_newer-SentEarlier :
    (report : AgentReport) (received_at : Instant) (db : Db)
    → is_newer (agent_row report received_at) (agent_of report.agent_id db.agents) ≡ false
    → SentEarlier report db
is_newer-SentEarlier report received_at db older =
    elim (Option-cases (agent_of report.agent_id db.agents)) [
      | inl nothing ↦ cc (rw nothing at older)
      | inr (stored, there) ↦
          let behind : ltb stored.report_sent_at (unix_nano report.sent_at) ≡ false =
            rw there at older in
          (stored, there, ground (arith, behind))
    ]

-- If no database call fails, then a report that the server validated, with distinct providers and
-- windows that can be encoded, is handled in one of two ways. If no row of its agent has a send time
-- as late, then it replaces what is stored of the agent: the row of the agent, column by column, and
-- its samples and tasks, with the tokens and the rows of other agents as before. Otherwise it is
-- refused as stale, and the database stays as it was.
pub replace_validated_report :
    (round : Round) (report : AgentReport) (now : Instant) (encode : Encode) (received_at : Instant)
    (db : Db)
    → IsValidReport round report now
    → UniqueKeys (entries report.providers)
    → Encodable encode (entries report.providers)
    → (SentLater report db
        × ((replace_agent_report encode no_faults report received_at db).0 ≡ ok tt)
        × Replaces encode report received_at db
            (replace_agent_report encode no_faults report received_at db).1)
      ⊎ (SentEarlier report db
          × (replace_agent_report encode no_faults report received_at db ≡ (err stale_report, db)))
replace_validated_report round report now encode received_at db v u e =
    let eq = replace_agent_report-eq round report now encode received_at db v u e in
    elim (Bool-cases
      (is_newer (agent_row report received_at) (agent_of report.agent_id db.agents))) [
        | inl newer ↦ inl (
          is_newer-SentLater report received_at db newer,
          rw (eq, newer) refl,
          rw (eq, newer) (replaced-Replaces encode report received_at db newer e),
        )
        | inr older ↦ inr (is_newer-SentEarlier report received_at db older, rw (eq, older) refl)
      ]

-- ===== src/Store/Db.antt =====
-- The tables of `migrations` in internal/store/store.go with their constraints, and the statements
-- of internal/store/store.go that insert into them.
use codex_claude_monitor.Prelude.{
  ℕ, String, Bool, false, not, ◌&&◌, ◌||◌, Option, List, [], ◌∷◌, ◌++◌, ◌==◌, if◌then◌else◌,
}
use codex_claude_monitor.Prelude.Result.{Result, ok, err}
use codex_claude_monitor.Clock.{UnixNano}
use codex_claude_monitor.Model.{provider_codex, provider_claude, task_main, task_sub}

pub record TokenRow : Type 0 where
  pub id : String
  pub digest : String
  pub scope : String
  pub agent_id : Option String
  pub label : String
  pub created_at : UnixNano
  pub revoked_at : Option UnixNano
  pub last_used_at : Option UnixNano

pub record AgentRow : Type 0 where
  pub agent_id : String
  pub report_sent_at : UnixNano
  pub last_report_at : UnixNano

pub record ProviderRow : Type 0 where
  pub agent_id : String
  pub provider : String
  pub observed_at : UnixNano
  pub auth_state : String
  pub plan : String
  pub source : String
  pub windows_json : String
  pub error_code : String

pub record TaskRow : Type 0 where
  pub agent_id : String
  pub provider : String
  pub kind : String
  pub session_id : String
  pub started_at : UnixNano
  pub last_seen_at : UnixNano

pub record Db : Type 0 where
  pub tokens : List TokenRow
  pub agents : List AgentRow
  pub provider_reports : List ProviderRow
  pub active_tasks : List TaskRow

pub data StoreError : Type 0 where
  stale_report sql_failed constraint_failed invalid_token token_not_found random_failed : StoreError
  invalid_scope agent_id_missing agent_id_given bad_agent_id label_too_long : StoreError
  encode_failed decode_failed : String → StoreError

module _ {A : Type 0} where
  -- A row passes the test.
  abbrev pub exists : (A → Bool) → List A → Bool
  exists p [] = false
  exists p (x ∷ xs) = p x || exists p xs

abbrev pub is_provider : String → Bool
is_provider p = p == provider_codex || p == provider_claude

abbrev pub is_kind : String → Bool
is_kind k = k == task_main || k == task_sub

abbrev pub owner : String → AgentRow → Bool
owner agent_id a = a.agent_id == agent_id

-- PRIMARY KEY(agent_id, provider)
abbrev pub same_provider : ProviderRow → ProviderRow → Bool
same_provider new old = old.agent_id == new.agent_id && old.provider == new.provider

-- PRIMARY KEY(agent_id, provider, session_id)
abbrev pub same_task : TaskRow → TaskRow → Bool
same_task new old =
    old.agent_id == new.agent_id && old.provider == new.provider && old.session_id == new.session_id

-- INSERT INTO provider_reports: the CHECK, the primary key and the reference to `agents` hold, or
-- the statement fails.
unfoldable pub insert_provider_row : ProviderRow → Db → Result StoreError Db
insert_provider_row row db =
    if is_provider row.provider
      && exists (owner row.agent_id) db.agents
      && not (exists (same_provider row) db.provider_reports)
    then ok (record db { provider_reports = db.provider_reports ++ row ∷ [] })
    else err constraint_failed

-- INSERT INTO active_tasks
unfoldable pub insert_task_row : TaskRow → Db → Result StoreError Db
insert_task_row row db =
    if is_provider row.provider
      && is_kind row.kind
      && exists (owner row.agent_id) db.agents
      && not (exists (same_task row) db.active_tasks)
    then ok (record db { active_tasks = db.active_tasks ++ row ∷ [] })
    else err constraint_failed

-- Whether a database call fails, by its number in the method.
abbrev pub Faults : Type 0
Faults = ℕ → Bool

abbrev pub exec {ℓ} : {A : Type ℓ} → Faults → ℕ → Result StoreError A → Result StoreError A
exec fails n statement = if fails n then err sql_failed else statement

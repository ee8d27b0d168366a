-- ===== src/Store/Report/Integrity.antt =====
-- The constraints of `migrations` (internal/store/store.go) as a predicate on the tables.
use codex_claude_monitor.Prelude.{◌≡◌, Bool, true, false, List, [], ◌∷◌, All}
use codex_claude_monitor.Store.Db.{
  AgentRow, ProviderRow, TaskRow, Db, exists, owner, is_provider, is_kind, same_provider, same_task,
}

-- No two rows have one key.
abbrev pub Distinct : {A : Type 0} → (A → A → Bool) → List A → Type 0
Distinct same [] = Unit
Distinct same (x ∷ xs) = (exists (same x) xs ≡ false) × Distinct same xs

abbrev pub same_agent : AgentRow → AgentRow → Bool
same_agent new = owner new.agent_id

-- The CHECKs and the reference of a row of `provider_reports`.
abbrev pub IsProviderRow : List AgentRow → ProviderRow → Type 0
IsProviderRow agents row =
    (is_provider row.provider ≡ true) × (exists (owner row.agent_id) agents ≡ true)

-- The CHECKs and the reference of a row of `active_tasks`.
abbrev pub IsTaskRow : List AgentRow → TaskRow → Type 0
IsTaskRow agents row =
    (is_provider row.provider ≡ true)
    × (is_kind row.kind ≡ true)
    × (exists (owner row.agent_id) agents ≡ true)

pub record IsConsistent (db : Db) : Type 0 where
  pub agents : Distinct same_agent db.agents
  pub report_keys : Distinct same_provider db.provider_reports
  pub reports : All (IsProviderRow db.agents) db.provider_reports
  pub task_keys : Distinct same_task db.active_tasks
  pub tasks : All (IsTaskRow db.agents) db.active_tasks

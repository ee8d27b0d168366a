-- ===== src/Agent/Loop.antt =====
-- internal/agent/agent.go: the reports that an agent keeps and sends, and when it sends them.
pub mod Lives
use codex_claude_monitor.Prelude.{
  ℕ, ◌+◌, ◌-◌, ◌*◌, String, Bool, true, false, not, ◌&&◌, ◌||◌, Option, none, some, List, [], ◌∷◌,
  ◌++◌, is_none, ltb, leb, ◌==◌, if◌then◌else◌,
}
use codex_claude_monitor.Prelude.GoMap.{GoMap, lookup, insert}
use codex_claude_monitor.Clock.{Instant, Duration, bias, nanos, second, minute}
use codex_claude_monitor.Model
use codex_claude_monitor.Model.{
  ProviderReport, ProviderWindows, AgentReport, ActiveTask, provider_codex, provider_claude,
  valid_provider,
}
use codex_claude_monitor.Collector.Merge.{merge_provider_reports}
use codex_claude_monitor.Agent.Ledger
use codex_claude_monitor.Agent.Ledger.{Ledger, snapshot}

-- The state behind Agent.mu, and the overrides of the configuration.
pub record Agent : Type 0 where
  pub providers : GoMap ProviderReport
  pub plan_overrides : GoMap String

-- The result of a collector: its report, and whether it came with an error.
pub record CollectionResult : Type 0 where
  pub provider : String
  pub report : ProviderReport
  pub failed : Bool

abbrev pub has_windows : ProviderReport → Bool
has_windows r = not (is_none r.windows.five_hour) || not (is_none r.windows.seven_day)

abbrev pub or_failed : String → String
or_failed code = if code == "" then "collection_failed" else code

-- What is kept of a provider after a failed collection.
unfoldable pub after_failure : Option ProviderReport → ProviderReport → ProviderReport
after_failure none report = report
after_failure (some previous) report =
    if has_windows previous
    then record previous { error_code = or_failed report.error_code }
    else report

-- What is kept of a provider after a successful one.
unfoldable pub after_success : String → Option ProviderReport → ProviderReport → ProviderReport
after_success provider none report = report
after_success provider (some previous) report =
    if provider == provider_claude then merge_provider_reports previous report else report

abbrev pub stored_report : Option ProviderReport → CollectionResult → ProviderReport
unfolding after_failure after_success
stored_report previous item =
    if item.failed
    then after_failure previous item.report
    else after_success item.provider previous item.report

unfoldable pub store_collection_result : CollectionResult → Agent → Agent
unfolding insert stored_report
store_collection_result item a = record a {
  providers =
      insert item.provider (stored_report (lookup item.provider a.providers) item) a.providers;
}

unfoldable pub ingest_status_line : ProviderReport → Agent → Agent
unfolding insert after_success
ingest_status_line report a = record a {
  providers =
      insert provider_claude
        (after_success provider_claude (lookup provider_claude a.providers) report) a.providers;
}

abbrev pub override_of : Option String → String
override_of none = ""
override_of (some plan) = plan

-- The reports of a snapshot, with the plans that the user overrides.
unfoldable pub overridden : GoMap String → GoMap ProviderReport → GoMap ProviderReport
unfolding lookup
overridden overrides [] = []
overridden overrides ((provider, report) ∷ rest) =
    let plan = override_of (lookup provider overrides) in
    (provider, if plan == "" then report else record report { plan = plan })
    ∷ overridden overrides rest

-- SnapshotReport: `now` is cfg.Now(), `ledger_now` the clock of the ledger.
unfoldable pub snapshot_report : String → Instant → Instant → Agent → Ledger → AgentReport × Ledger
unfolding overridden
snapshot_report agent_id now ledger_now a ledger =
    let (tasks, pruned) = snapshot ledger ledger_now in
    (
      record {
        schema_version = Model.schema_version;
        agent_id = agent_id;
        sent_at = now;
        providers = some (overridden a.plan_overrides a.providers);
        active_tasks = some tasks;
      },
      pruned,
    )

-- A configured collector over what it acts on: Collect, and ReleaseIdleResources if it has it.
pub record Adapter (World : Type 0) : Type 0 where
  pub collect : World → (ProviderReport × Bool) × World
  pub release_idle_resources : Option (World → World)

abbrev named : {A : Type 0} → String → Option A → List (String × A)
named provider none = []
named provider (some adapter) = (provider, adapter) ∷ []

unfoldable pub configured_collectors : {A : Type 0} → Option A → Option A → List (String × A)
configured_collectors codex claude = named provider_codex codex ++ named provider_claude claude

abbrev pub result_of : String → ProviderReport × Bool → CollectionResult
result_of provider (report, failed) = record {
  provider = provider;
  report = report;
  failed = failed;
}

module _ {World : Type 0} where
  abbrev released : Option (World → World) → World → World
  released none w = w
  released (some release) w = release w

  -- CollectOnce with SequentialCollection.
  unfoldable pub collect_in_order : List (String × Adapter World) → Agent × World → Agent × World
  unfolding store_collection_result
  collect_in_order [] s = s
  collect_in_order ((provider, adapter) ∷ rest) (a, w) =
      let (answer, w') = adapter.collect w in
      collect_in_order rest (
        store_collection_result (result_of provider answer) a,
        released adapter.release_idle_resources w',
      )

-- CollectOnce without it: the results are stored as they come in.
unfoldable pub collect_concurrently : List CollectionResult → Agent → Agent
unfolding store_collection_result
collect_concurrently [] a = a
collect_concurrently (item ∷ results) a =
    collect_concurrently results (store_collection_result item a)

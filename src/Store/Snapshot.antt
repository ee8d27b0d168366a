-- ===== src/Store/Snapshot.antt =====
-- `Store.BuildDisplaySnapshot` of internal/store/store.go and its queries.
pub mod Totals
pub mod Latest
pub mod Newest
pub mod Shown
use Prim.Native.String
use codex_claude_monitor.Prelude.{
  ℕ, ◌+◌, ◌*◌, String, Bool, true, false, not, ◌&&◌, ◌||◌, Option, none, some, List, [], ◌∷◌, ◌++◌,
  map, keep, count, length, ltb, leb, nat_eq, is_none, ◌==◌, if◌then◌else◌,
}
use codex_claude_monitor.Prelude.GoMap.{GoMap, lookup, insert}
use codex_claude_monitor.Prelude.Text.{less}
use codex_claude_monitor.Prelude.Result.{Result, ok, err, ◌>>=◌}
use codex_claude_monitor.Clock.{
  Instant, Duration, UnixNano, bias, nanos, neg, minute, second, unix_nano, of_unix_nano,
}
use codex_claude_monitor.Clock
use codex_claude_monitor.Model.{
  Freshness, fresh, stale, unavailable, ProviderWindows, no_windows, ProviderSnapshot, TaskCount,
  TaskSummary, AgentSummary, DisplaySnapshot, schema_version, provider_codex, provider_claude,
  task_main, task_sub,
}
use codex_claude_monitor.Store.Db.{
  AgentRow, ProviderRow, TaskRow, Db, StoreError, decode_failed, Faults, exec,
}

abbrev pub agent_online_window : Duration
agent_online_window = nanos (45 * second)

abbrev pub provider_fresh_window : Duration
provider_fresh_window = nanos (5 * minute)

abbrev pub task_ttl : Duration
task_ttl = nanos (15 * minute)

-- `json.Unmarshal` of the windows, which may fail.
abbrev pub Decode : Type 0
Decode = String → Option ProviderWindows

abbrev pub unavailable_provider : ProviderSnapshot
unavailable_provider = record {
  observed_at = none;
  freshness = unavailable;
  login_required = false;
  plan = "";
  source = "";
  windows = no_windows;
}

-- The agent reported within the online window before `now`.
abbrev pub is_online : Instant → AgentRow → Bool
is_online now a = leb (unix_nano (Clock.add now (neg agent_online_window))) a.last_report_at

-- SELECT COUNT(*), SUM(CASE WHEN last_report_at_ns >= ? THEN 1 ELSE 0 END) FROM agents
unfoldable pub load_agent_summary : Instant → Db → AgentSummary
load_agent_summary now db = record {
  online = count (is_online now) db.agents;
  total = length db.agents;
}

-- ORDER BY observed_at_ns DESC, agent_id ASC
abbrev pub precedes : ProviderRow → ProviderRow → Bool
precedes a b =
    ltb b.observed_at a.observed_at
    || (nat_eq a.observed_at b.observed_at && less a.agent_id b.agent_id)

-- LIMIT 1
unfoldable pub first_row : List ProviderRow → Option ProviderRow
first_row [] = none
first_row (row ∷ rest) = elim (first_row rest) [
  | none ↦ some row
  | some best ↦ some (if precedes best row then best else row)
]

-- WHERE provider = ? AND observed_at_ns > 0
abbrev pub is_observed : String → ProviderRow → Bool
is_observed provider row = row.provider == provider && ltb bias row.observed_at

-- The snapshot of the row that was scanned, with its windows decoded.
abbrev pub candidate : Instant → ProviderRow → ProviderWindows → ProviderSnapshot
candidate now row windows =
    let observed_at = of_unix_nano row.observed_at in
    record {
      observed_at = some observed_at;
      freshness =
          if is_none windows.five_hour && is_none windows.seven_day
          then unavailable
          else if ltb provider_fresh_window (Clock.sub now observed_at)
          then stale
          else fresh;
      login_required = row.auth_state == "unauthenticated" || row.error_code == "not_authenticated";
      plan = row.plan;
      source = row.source;
      windows = windows;
    }

-- `none` where the method returns found = false.
unfoldable pub load_latest_provider :
    Decode → String → Instant → Db → Result StoreError (Option ProviderSnapshot)
unfolding first_row
load_latest_provider decode provider now db =
    elim (first_row (keep (is_observed provider) db.provider_reports)) [
      | none ↦ ok none
      | some row ↦ elim (decode row.windows_json) [
        | none ↦ err (decode_failed provider)
        | some windows ↦ ok (some (candidate now row windows))
      ]
    ]

-- FROM active_tasks t JOIN agents a ON a.agent_id = t.agent_id
-- WHERE a.last_report_at_ns >= ? AND t.last_seen_at_ns >= ?
unfoldable pub active_rows : Instant → List AgentRow → List TaskRow → List TaskRow
active_rows now agents [] = []
active_rows now agents (t ∷ rest) =
    let later = active_rows now agents rest in
    if leb (unix_nano (Clock.add now (neg task_ttl))) t.last_seen_at
    then map (λ _. t) (keep (λ a. a.agent_id == t.agent_id && is_online now a) agents) ++ later
    else later

abbrev pub no_tasks : TaskCount
no_tasks = record { main = 0; sub = 0 }

-- `switch kind`
abbrev pub count_kind : String → TaskCount → TaskCount
count_kind kind c =
    if kind == task_main
    then record c { main = c.main + 1 }
    else if kind == task_sub
    then record c { sub = c.sub + 1 }
    else c

-- The body of the loop over the rows.
abbrev pub count_row : TaskRow → TaskSummary → TaskSummary
count_row t s =
    if t.provider == provider_codex
    then record s { codex = count_kind t.kind s.codex; total = count_kind t.kind s.total }
    else if t.provider == provider_claude
    then record s { claude = count_kind t.kind s.claude; total = count_kind t.kind s.total }
    else s

unfoldable pub count_rows : List TaskRow → TaskSummary → TaskSummary
count_rows [] s = s
count_rows (t ∷ rest) s = count_rows rest (count_row t s)

unfoldable pub load_task_summary : Instant → Db → TaskSummary
unfolding active_rows count_rows
load_task_summary now db =
    count_rows (active_rows now db.agents db.active_tasks)
      (record { codex = no_tasks; claude = no_tasks; total = no_tasks })

abbrev pub freshness_text : Freshness → String
freshness_text fresh = "fresh"
freshness_text stale = "stale"
freshness_text unavailable = "unavailable"

abbrev pub is_fresh : Freshness → Bool
is_fresh fresh = true
is_fresh stale = false
is_fresh unavailable = false

-- The warnings that the snapshot of a provider adds.
unfoldable pub provider_warnings : String → ProviderSnapshot → List String
provider_warnings provider s =
    if s.login_required
    then String.◌++◌ provider "_login_required" ∷ []
    else if not (is_fresh s.freshness)
    then String.◌++◌ provider (String.◌++◌ "_" (freshness_text s.freshness)) ∷ []
    else []

abbrev pub or_unavailable : Option ProviderSnapshot → ProviderSnapshot
or_unavailable none = unavailable_provider
or_unavailable (some s) = s

-- The queries are the database calls 0 to 3.
unfoldable pub build_display_snapshot :
    Decode → Faults → Instant → Db → Result StoreError DisplaySnapshot
build_display_snapshot decode fails now db = do
  agents ← exec fails 0 (ok (load_agent_summary now db))
  codex ← exec fails 1 (load_latest_provider decode provider_codex now db)
  claude ← exec fails 2 (load_latest_provider decode provider_claude now db)
  tasks ← exec fails 3 (ok (load_task_summary now db))
  ok (record {
    schema_version = schema_version;
    generated_at = now;
    providers =
        (provider_codex, or_unavailable codex) ∷ (provider_claude, or_unavailable claude) ∷ [];
    tasks = tasks;
    agents = agents;
    warnings =
        provider_warnings provider_codex (or_unavailable codex)
        ++ provider_warnings provider_claude (or_unavailable claude);
  })

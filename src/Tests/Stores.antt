-- ===== src/Tests/Stores.antt =====
-- The theorems on internal/store/store.go at concrete inputs.
use mathlib.Core.Bool.{false≢true}
use codex_claude_monitor.Prelude.{
  ◌+◌, ◌-◌, ◌^◌, ◌<◌, ◌≤◌, ◌⊎◌, ◌==◌, ◌≡◌, ◌≢◌, refl, some, List, [], ◌∷◌, keep, All, arith, nat_eq,
  eq_iff,
}
use codex_claude_monitor.Prelude.GoMap.{lookup}
use codex_claude_monitor.Prelude.GoMap.Unique.{UniqueKeys}
use codex_claude_monitor.Prelude.Result.{ok, err}
use codex_claude_monitor.Clock.{unix_nano}
use codex_claude_monitor.Float.{fin}
use codex_claude_monitor.Model.{ProviderWindows, AgentReport, provider_codex, task_main}
use codex_claude_monitor.Server.Validate.{validate_agent_report}
use codex_claude_monitor.Server.Validate.Reports.{validate_agent_report_iff}
use codex_claude_monitor.Server.Validate.Spec.{IsValidReport}
use codex_claude_monitor.Store.Db.{AgentRow, ProviderRow, TaskRow, Db, stale_report, Faults}
use codex_claude_monitor.Store.Report.{Encode, entries, replace_agent_report}
use codex_claude_monitor.Store.Report.Inserts.{no_faults}
use codex_claude_monitor.Store.Report.Accepted.{agent_of, Encodable}
use codex_claude_monitor.Store.Report.Replaced.{
  SentLater, SentEarlier, Replaces, replace_validated_report,
}
use codex_claude_monitor.Store.Report.Order.{IsStorable, store, store-store}
use codex_claude_monitor.Store.Report.Isolation.{
  replace_agent_report-others, replace_agent_report-sent_at-le,
}
use codex_claude_monitor.Store.Report.Integrity.{IsConsistent}
use codex_claude_monitor.Store.Snapshot.{Decode, load_task_summary, load_latest_provider, candidate}
use codex_claude_monitor.Store.Snapshot.Totals.{load_task_summary-eq, summary_of_shown}
use codex_claude_monitor.Store.Snapshot.Latest.{HasRow}
use codex_claude_monitor.Store.Snapshot.Newest.{Shows, load_latest_provider-Shows}
use codex_claude_monitor.Store.Snapshot.Shown.{
  ShownSince, load_latest_provider-store, load_latest_provider-store_wrapped,
}
use codex_claude_monitor.Tests.Reports.{
  now, codex_report, report_1, report_1_accepted, report_2, report_2_accepted, report_3,
  report_3_accepted, ancient_sample,
}

abbrev encode : Encode
encode windows = some "{}"

abbrev decode : Decode
decode text = some codex_report.windows

-- The insertion of a provider's row fails.
abbrev third_fails : Faults
third_fails n = nat_eq n 3

abbrev desk_task : TaskRow
desk_task = record {
  agent_id = "desk";
  provider = provider_codex;
  kind = task_main;
  session_id = "d1";
  started_at = unix_nano now;
  last_seen_at = unix_nano now;
}

abbrev desk_sample : ProviderRow
desk_sample = record {
  agent_id = "desk";
  provider = provider_codex;
  observed_at = unix_nano now;
  auth_state = "authenticated";
  plan = "pro";
  source = "app-server";
  windows_json = "{}";
  error_code = "";
}

abbrev desk : AgentRow
desk = record { agent_id = "desk"; report_sent_at = unix_nano now; last_report_at = unix_nano now }

abbrev db_1 : Db
db_1 = record {
  tokens = [];
  agents = desk ∷ [];
  provider_reports = desk_sample ∷ [];
  active_tasks = desk_task ∷ [];
}

db_1-IsConsistent : IsConsistent db_1
db_1-IsConsistent = record {
  agents = (refl, tt);
  report_keys = (refl, tt);
  reports = ((refl, refl), tt);
  task_keys = (refl, tt);
  tasks = ((refl, refl, refl), tt);
}

report_1-IsValidReport : IsValidReport fin report_1 now
report_1-IsValidReport = (validate_agent_report_iff fin report_1 now).0 report_1_accepted

report_1-UniqueKeys : UniqueKeys (entries report_1.providers)
unfolding lookup
report_1-UniqueKeys = (refl, tt)

report_1-Encodable : Encodable encode (entries report_1.providers)
report_1-Encodable = (("{}", refl), tt)

report_3-UniqueKeys : UniqueKeys (entries report_3.providers)
unfolding lookup
report_3-UniqueKeys = (refl, tt)

replace_validated_report_example :
    (SentLater report_1 db_1
      × ((replace_agent_report encode no_faults report_1 now db_1).0 ≡ ok tt)
      × Replaces encode report_1 now db_1
          (replace_agent_report encode no_faults report_1 now db_1).1)
    ⊎ (SentEarlier report_1 db_1
        × (replace_agent_report encode no_faults report_1 now db_1 ≡ (err stale_report, db_1)))
replace_validated_report_example =
    replace_validated_report fin report_1 now encode now db_1 report_1-IsValidReport
      report_1-UniqueKeys report_1-Encodable

accepted_IsStorable :
    (report : AgentReport)
    → validate_agent_report fin report now ≡ ok tt
    → UniqueKeys (entries report.providers)
    → Encodable encode (entries report.providers)
    → IsStorable encode report
accepted_IsStorable report accepted unique encodable = record {
  round = fin;
  now = now;
  valid = (validate_agent_report_iff fin report now).0 accepted;
  unique = unique;
  encodable = encodable;
}

report_1-IsStorable : IsStorable encode report_1
report_1-IsStorable =
    accepted_IsStorable report_1 report_1_accepted report_1-UniqueKeys report_1-Encodable

report_2-IsStorable : IsStorable encode report_2
report_2-IsStorable =
    accepted_IsStorable report_2 report_2_accepted report_1-UniqueKeys report_1-Encodable

report_3-IsStorable : IsStorable encode report_3
report_3-IsStorable =
    accepted_IsStorable report_3 report_3_accepted report_3-UniqueKeys report_1-Encodable

store-store_example :
    store encode report_1 now (store encode report_2 now db_1)
    ≡ store encode report_2 now (store encode report_1 now db_1)
store-store_example =
    store-store encode report_1 report_2 now now db_1 refl (omega arith) report_1-IsStorable
      report_2-IsStorable

desk_differs : "desk" ≢ report_1.agent_id
desk_differs e = false≢true ((eq_iff "desk" "laptop").1 e)

replace_agent_report-others_example :
    ((replace_agent_report encode third_fails report_1 now db_1).1.tokens ≡ db_1.tokens)
    × (agent_of "desk" (replace_agent_report encode third_fails report_1 now db_1).1.agents
        ≡ agent_of "desk" db_1.agents)
    × (keep
          (λ row. row.agent_id == "desk")
          (replace_agent_report encode third_fails report_1 now db_1).1.provider_reports
        ≡ desk_sample ∷ [])
    × (keep
          (λ row. row.agent_id == "desk")
          (replace_agent_report encode third_fails report_1 now db_1).1.active_tasks
        ≡ desk_task ∷ [])
replace_agent_report-others_example =
    replace_agent_report-others encode third_fails report_1 now db_1 "desk" desk_differs

replace_agent_report-sent_at-le_example :
    (b : AgentRow) × (agent_of "desk"
        (replace_agent_report encode third_fails report_1 now db_1).1.agents
      ≡ some b)
    × (unix_nano now ≤ b.report_sent_at)
replace_agent_report-sent_at-le_example =
    replace_agent_report-sent_at-le encode third_fails report_1 now db_1 "desk" desk refl

load_task_summary-eq_example : load_task_summary now db_1 ≡ summary_of_shown now db_1
load_task_summary-eq_example = load_task_summary-eq now db_1 db_1-IsConsistent

desk_shown :
    load_latest_provider decode provider_codex now db_1
    ≡ ok (some (candidate now desk_sample codex_report.windows))
unfolding load_latest_provider
desk_shown = refl

load_latest_provider-Shows_example :
    (row : ProviderRow) × HasRow row db_1.provider_reports
    × (row.provider ≡ provider_codex)
    × (2 ^ 63 < row.observed_at)
    × All
        (λ other. (other.provider ≢ provider_codex) ⊎ (other.observed_at ≤ row.observed_at))
        db_1.provider_reports
    × Shows decode now row (candidate now desk_sample codex_report.windows)
load_latest_provider-Shows_example =
    load_latest_provider-Shows decode provider_codex now db_1
      (candidate now desk_sample codex_report.windows) desk_shown

stored_decodes :
    (rows : List ProviderRow)
    → All (λ row. (w : ProviderWindows) × (decode row.windows_json ≡ some w)) rows
stored_decodes [] = tt
stored_decodes (row ∷ rows) = ((codex_report.windows, refl), stored_decodes rows)

codex_in_1 : lookup provider_codex (entries report_1.providers) ≡ some codex_report
unfolding lookup
codex_in_1 = refl

codex_in_3 : lookup provider_codex (entries report_3.providers) ≡ some ancient_sample
unfolding lookup
codex_in_3 = refl

load_latest_provider-store_example :
    ShownSince decode provider_codex now (store encode report_1 now db_1) now
load_latest_provider-store_example =
    load_latest_provider-store encode decode report_1 now now db_1 provider_codex codex_report
      report_1-IsStorable refl codex_in_1 (stored_decodes _) (omega arith) (omega arith)

load_latest_provider-store_wrapped_example :
    ShownSince decode provider_codex now (store encode report_3 now db_1) (now - 2 ^ 64 + 2 ^ 64)
load_latest_provider-store_wrapped_example =
    load_latest_provider-store_wrapped encode decode report_3 now now db_1 provider_codex
      ancient_sample report_3-IsStorable refl codex_in_3 (stored_decodes _) (omega arith)
      (omega arith)

-- ===== src/Tests/Loops.antt =====
-- The theorems on internal/agent/agent.go at concrete inputs.
use codex_claude_monitor.Prelude.{
  ◌+◌, ◌*◌, ◌^◌, ◌≡◌, refl, true, false, ◌==◌, some, none, List, [], ◌∷◌, arith, min,
}
use codex_claude_monitor.Prelude.Text.{trim_space, every}
use codex_claude_monitor.Prelude.GoMap.{lookup, insert, delete}
use codex_claude_monitor.Prelude.Result.{ok}
use codex_claude_monitor.Clock.{second, minute, nanos}
use codex_claude_monitor.Model.{
  ProviderReport, provider_codex, provider_claude, valid_provider, no_windows,
}
use codex_claude_monitor.Agent.Loop.{Agent, CollectionResult, collect_concurrently}
use codex_claude_monitor.Agent.Loop.Lives.{
  life, results_of, Retained, lookup-collect_concurrently, failures-Retained,
}
use codex_claude_monitor.Agent.Config.{
  Net, Config, Settings, new_agent, agent_id_pattern, check_server, normalize_overrides,
  plan_override_pattern, with_defaults,
}
use codex_claude_monitor.Agent.Config.Safe.{Safe, new_agent-Safe}
use codex_claude_monitor.Agent.Config.Schedule.{retry_delay, retry_delay-eq}
use codex_claude_monitor.Tests.Reports.{now, codex_report}

abbrev unavailable : ProviderReport
unavailable = record {
  observed_at = now + minute;
  auth_state = "unknown";
  plan = "";
  source = "claude-usage";
  windows = no_windows;
  error_code = "usage_command_failed";
}

abbrev codex_failed : CollectionResult
codex_failed = record { provider = provider_codex; report = unavailable; failed = true }

abbrev claude_done : CollectionResult
claude_done = record { provider = provider_claude; report = codex_report; failed = false }

abbrev agent : Agent
agent = record { providers = (provider_codex, codex_report) ∷ []; plan_overrides = [] }

abbrev both : List CollectionResult
both = claude_done ∷ codex_failed ∷ []

lookup-collect_concurrently_example :
    lookup provider_codex (collect_concurrently both agent).providers
    ≡ life (lookup provider_codex agent.providers) (results_of provider_codex both)
lookup-collect_concurrently_example = lookup-collect_concurrently provider_codex both agent

codex_known : lookup provider_codex agent.providers ≡ some codex_report
unfolding lookup
codex_known = refl

failures-Retained_example :
    Retained codex_report (lookup provider_codex (collect_concurrently both agent).providers)
failures-Retained_example =
    failures-Retained provider_codex both agent codex_report codex_known refl (refl, tt)

abbrev net : Net
net = record {
  parse_url = λ s. some (record {
    host = "quota.example";
    hostname = "quota.example";
    scheme = "https";
    has_user = false;
  });
  equal_fold = λ s t. s == t;
  loopback_ip = λ s. none;
}

abbrev laptop : Config
laptop = record {
  agent_id = "laptop";
  server_url = "https://quota.example";
  token = "qmon_0123456789ABCDEF";
  has_ledger = true;
  has_sink = false;
  plan_overrides = (provider_claude, " max5 ") ∷ [];
  report_interval = nanos 0;
  collect_interval = nanos 0;
  max_backoff = nanos 0;
  allow_insecure_http = false;
}

abbrev laptop_settings : Settings
laptop_settings = record {
  config = record laptop {
    plan_overrides = (provider_claude, "max5") ∷ [];
    report_interval = nanos (15 * second);
    collect_interval = nanos (60 * second);
    max_backoff = nanos (2 * minute);
  };
  new_ledger_ttl = none;
}

laptop_starts : new_agent net laptop ≡ ok laptop_settings
unfolding new_agent agent_id_pattern every check_server normalize_overrides plan_override_pattern
    with_defaults trim_space valid_provider insert delete
laptop_starts = refl

new_agent-Safe_example : Safe net laptop_settings.config
new_agent-Safe_example = new_agent-Safe net laptop laptop_settings laptop_starts

-- The fifth retry would wait for 240 seconds; the limit is 120.
retry_delay-eq_example :
    retry_delay laptop_settings.config 4 ≡ min (2 * minute) (2 ^ 4 * (15 * second))
retry_delay-eq_example =
    retry_delay-eq laptop_settings.config (15 * second) (2 * minute) 4 refl refl (omega arith)
      (omega arith)

-- ===== src/Tests/Collectors.antt =====
-- The theorems on internal/collector/codex.go and internal/collector/claude.go at concrete inputs.
use Prim.Native.Char.{Char}
use codex_claude_monitor.Prelude.{
  ℕ, ◌+◌, ◌*◌, ◌≡◌, ◌⊎◌, refl, true, false, ◌&&◌, some, none, List, [], ◌∷◌, arith, swap,
}
use codex_claude_monitor.Clock.{Instant, bias, second, minute}
use codex_claude_monitor.Float.{fin, pos, one}
use codex_claude_monitor.Json.{bool, obj, member, end}
use codex_claude_monitor.Model.{ProviderReport, no_windows}
use codex_claude_monitor.Collector.Codex.{RateLimitWindow, RateLimitSnapshot, codex_windows}
use codex_claude_monitor.Collector.Codex.Order.{codex_windows-Reordering}
use codex_claude_monitor.Collector.Codex.Rpc.{Replies, answer, refused, Client, collect}
use codex_claude_monitor.Collector.Codex.Rpc.Life.{Healthy, collect-StoppedOrHealthy}
use codex_claude_monitor.Collector.Merge.{merge_provider_reports}
use codex_claude_monitor.Collector.Merge.Laws.{IsMerge, merge_provider_reports-IsMerge}
use codex_claude_monitor.Collector.Claude.Logout
use codex_claude_monitor.Collector.Claude.Logout.{Answers}
use codex_claude_monitor.Collector.Claude.Logout.Confirmed.{
  collector_after, says_logged_out, latest_says_logged_out, reports_logout, collect-reports_logout,
}
use codex_claude_monitor.Tests.Reports.{now, codex_report}

abbrev same_char : Char → Char
same_char c = c

abbrev five_hours_at : ℕ → RateLimitWindow
five_hours_at used = record {
  used_percent = fin (pos (used * one));
  window_duration_min = some (bias + 300);
  resets_at = some (bias + 1700003600);
}

abbrev limits_at : ℕ → RateLimitSnapshot
limits_at used = record {
  limit_id = none;
  plan_type = some "pro";
  primary = some (five_hours_at used);
  secondary = none;
}

codex_windows-Reordering_example :
    codex_windows fin (record {
      rate_limits = limits_at 20;
      rate_limits_by_limit_id = ("a", limits_at 50) ∷ ("b", limits_at 70) ∷ [];
    })
    ≡ codex_windows fin (record {
      rate_limits = limits_at 20;
      rate_limits_by_limit_id = ("b", limits_at 70) ∷ ("a", limits_at 50) ∷ [];
    })
codex_windows-Reordering_example =
    codex_windows-Reordering fin (limits_at 20) (("a", limits_at 50) ∷ ("b", limits_at 70) ∷ [])
      (("b", limits_at 70) ∷ ("a", limits_at 50) ∷ [])
      (swap ("a", limits_at 50) ("b", limits_at 70) []) ((pos (20 * one), refl), tt)
      (((pos (50 * one), refl), tt), (((pos (70 * one), refl), tt), tt))

-- The app-server starts, says that nobody is logged in, and exits.
abbrev logged_out_replies : Replies
logged_out_replies = record {
  starts = λ n. true;
  alive = λ n. true;
  handshake = λ n. none;
  account = λ refresh n. answer (record { account = none; requires_openai_auth = true });
  limits = λ n. refused (record { message = "no"; details = none });
  exits = λ n. true;
  clock = λ n. now;
}

abbrev stopped : Client
stopped = record { running = false; next = 0 }

collect-StoppedOrHealthy_example :
    ((collect fin same_char logged_out_replies stopped).1.running ≡ false)
    ⊎ Healthy (collect fin same_char logged_out_replies stopped).0
collect-StoppedOrHealthy_example = collect-StoppedOrHealthy fin same_char logged_out_replies stopped

abbrev later_report : ProviderReport
later_report = record codex_report { observed_at = now + 60 * second; windows = no_windows }

merge_provider_reports-IsMerge_example :
    IsMerge (merge_provider_reports later_report codex_report) later_report codex_report
merge_provider_reports-IsMerge_example =
    merge_provider_reports-IsMerge later_report codex_report (omega arith)

abbrev nobody : Answers
nobody = record {
  auth_output = some (obj (member "loggedIn" (bool false) end));
  auth_failed = true;
  usage = none;
}

abbrev one_logout : List (Instant × Answers)
one_logout = (now, nobody) ∷ []

-- The second answer in a row is believed.
collect-reports_logout_example :
    reports_logout (Logout.collect (now + minute) nobody (collector_after one_logout)).0
    ≡ (says_logged_out (now + minute, nobody) && latest_says_logged_out one_logout)
collect-reports_logout_example =
    collect-reports_logout one_logout (now + minute) nobody (omega arith)

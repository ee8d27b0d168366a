-- ===== src/Collector/Claude/Once.antt =====
-- `CollectClaudeAuth` and `CollectClaudeUsage` of internal/collector/claude.go, which ask once and
-- keep no state.
use codex_claude_monitor.Prelude.{Bool, String, Option, ◌==◌, if◌then◌else◌}
use codex_claude_monitor.Prelude.Result.{Result, ok, err}
use codex_claude_monitor.Clock.{Instant}
use codex_claude_monitor.Float.{Round}
use codex_claude_monitor.Json.{Json}
use codex_claude_monitor.Model.{ProviderReport}
use codex_claude_monitor.Collector.Claude
use codex_claude_monitor.Collector.Claude.{ClaudeError, command_failed, parse_claude_auth_status}
use codex_claude_monitor.Collector.Claude.Reset.{Library}
use codex_claude_monitor.Collector.Claude.Usage.Payload.{parse_claude_usage}

abbrev auth_result : Bool → Result ClaudeError ProviderReport → Result ClaudeError ProviderReport
auth_result failed (err e) = err (if failed then command_failed else e)
auth_result failed (ok report) =
    if report.auth_state == "authenticated"
    then if failed then err command_failed else ok report
    else ok (record report { error_code = "not_authenticated" })

-- `failed` says whether the command failed.
unfoldable pub collect_claude_auth :
    Instant → Option Json → Bool → Result ClaudeError ProviderReport
unfolding parse_claude_auth_status
collect_claude_auth now payload failed = auth_result failed (parse_claude_auth_status now payload)

unfoldable pub collect_claude_usage :
    Round
    → Claude.Library
    → Library
    → (String → Option Json)
    → String
    → Bool
    → Instant
    → Result ClaudeError ProviderReport
unfolding parse_claude_usage
collect_claude_usage round json lib decode payload failed now =
    if failed then err command_failed else parse_claude_usage round json lib decode payload now

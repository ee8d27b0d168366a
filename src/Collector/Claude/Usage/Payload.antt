-- ===== src/Collector/Claude/Usage/Payload.antt =====
-- `ParseClaudeUsage` of internal/collector/claude.go: the output of `claude -p /usage`.
use codex_claude_monitor.Prelude.{
  String, Option, none, some, List, [], ◌∷◌, ◌++◌, ◌==◌, if◌then◌else◌,
}
use codex_claude_monitor.Prelude.Text.{trim_space, split_lines, join}
use codex_claude_monitor.Prelude.Result.{Result, ok, err}
use codex_claude_monitor.Clock.{Instant}
use codex_claude_monitor.Float.{Round}
use codex_claude_monitor.Json.{Json, Members, obj, end, member}
use codex_claude_monitor.Model.{ProviderReport}
use codex_claude_monitor.Collector.Claude
use codex_claude_monitor.Collector.Claude.{ClaudeError, find_rate_limits, parse_claude_rate_limits}
use codex_claude_monitor.Collector.Claude.Reset.{Library}
use codex_claude_monitor.Collector.Claude.Usage.{ansi_pattern, parse_usage_text, collect_quota_text}

-- What the loop over the lines ends with: the limits of the first line that has some, or the texts
-- of the lines before.
pub data Scan : Type 0 where
  limits_found : Members → Scan
  quota_texts : List String → Scan

abbrev scanned : Option Members → List String → Scan → Scan
scanned (some limits) texts rest = limits_found limits
scanned none texts (limits_found limits) = limits_found limits
scanned none texts (quota_texts later) = quota_texts (texts ++ later)

-- `decode` is json.Unmarshal into an `any`, `none` for an error.
module _ (round : Round) (json : Claude.Library) (lib : Library)
    (decode : String → Option Json) where
  abbrev scan_line : String → Scan → Scan
  unfolding find_rate_limits collect_quota_text
  scan_line line rest = if line == "" then rest else elim (decode line) [
    | none ↦ rest
    | some value ↦ scanned (find_rate_limits value) (collect_quota_text lib value) rest
  ]

  unfoldable pub scan : List String → Scan
  unfolding scan_line
  scan [] = quota_texts []
  scan (line ∷ lines) = scan_line (trim_space line) (scan lines)

  abbrev pub first_ok :
      Result ClaudeError ProviderReport
      → Result ClaudeError ProviderReport
      → Result ClaudeError ProviderReport
  first_ok (ok report) other = ok report
  first_ok (err e) other = other

  -- The limits are encoded once more and decoded, which keeps them as they are.
  abbrev finish_scan : Scan → String → Instant → Result ClaudeError ProviderReport
  unfolding parse_usage_text
  finish_scan (limits_found limits) payload observed_at =
      parse_claude_rate_limits round json (some (obj (member "rate_limits" (obj limits) end)))
        observed_at "claude-usage"
  finish_scan (quota_texts []) payload observed_at =
      parse_usage_text lib round (lib.remove_all ansi_pattern payload) observed_at
  finish_scan (quota_texts (t ∷ ts)) payload observed_at =
      first_ok (parse_usage_text lib round (join "\n" (t ∷ ts)) observed_at)
        (parse_usage_text lib round (lib.remove_all ansi_pattern payload) observed_at)

  unfoldable pub parse_claude_usage : String → Instant → Result ClaudeError ProviderReport
  unfolding parse_claude_rate_limits scan finish_scan
  parse_claude_usage payload observed_at =
      first_ok (parse_claude_rate_limits round json (decode payload) observed_at "claude-usage")
        (finish_scan (scan (split_lines payload)) payload observed_at)

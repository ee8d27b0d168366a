-- ===== src/Tests/Usages.antt =====
-- The theorems on the text of `/usage` (internal/collector/claude.go) at concrete inputs.
use codex_claude_monitor.Prelude.{
  ◌+◌, ◌*◌, ◌^◌, ◌≡◌, refl, String, ◌==◌, ◌&&◌, some, none, List, [], ◌∷◌, Option, if◌then◌else◌,
}
use codex_claude_monitor.Prelude.Text.{
  trim_space, split_lines, to_lower, contains, remove_word, every,
}
use codex_claude_monitor.Prelude.Result.{ok}
use codex_claude_monitor.Clock.{minute}
use codex_claude_monitor.Float.{fin, pos, one}
use codex_claude_monitor.Model.{ProviderReport}
use codex_claude_monitor.Collector.Window.{normalize_window}
use codex_claude_monitor.Collector.Claude.Reset.{
  Library, parse_usage_reset, reset_phrase_pattern, relative_reset_pattern, parse_relative_reset,
  valid_reset_horizon, add_parts, add_part, unit_of, reset_value,
}
use codex_claude_monitor.Collector.Claude.Reset.Horizon.{InHorizon, parse_usage_reset-InHorizon}
use codex_claude_monitor.Collector.Claude.Usage.{
  five_hour_heading, current_session_heading, percent_pattern, commit, classify_usage_heading,
  used_in, read_line, read_lines, parse_usage_text,
}
use codex_claude_monitor.Collector.Claude.Usage.Windows.{
  SoundWindows, parse_usage_text-SoundWindows,
}
use codex_claude_monitor.Tests.Reports.{now}

abbrev match : String → String → Option (List String)
match pattern s =
    if pattern == reset_phrase_pattern && s == "resets in 1h"
    then some ("resets in 1h" ∷ "in 1h" ∷ [])
    else if pattern == relative_reset_pattern && s == "in 1h"
    then some ("in 1h" ∷ "1h" ∷ [])
    else if pattern == five_hour_heading && s == "Current session"
    then some ("Current session" ∷ [])
    else if pattern == current_session_heading && s == "Current session"
    then some ("Current session" ∷ [])
    else if pattern == percent_pattern && s == "20% used"
    then some ("20% used" ∷ "20" ∷ [])
    else none

-- What Go's library answers for the texts below.
abbrev library : Library
library = record {
  lower = λ c. c;
  equal_fold = λ s t. s == t;
  find = match;
  find_all = λ pattern s. ("1h" ∷ "1" ∷ "h" ∷ []) ∷ [];
  remove_all = λ pattern s. "";
  atoi = λ s. some 1;
  float_of = λ s. fin (pos (20 * one));
  parse_rfc3339 = λ s. none;
  Zone = Unit;
  load_location = λ s. none;
  local = tt;
  in_zone = λ t zone. record { year = 2 ^ 63; month = 1; day = 1; hour = 0; min = 0 };
  date = λ c zone. now;
}

in_one_hour : parse_usage_reset library "  resets in 1h" now ≡ some (now + 60 * minute)
unfolding parse_usage_reset trim_space reset_value parse_relative_reset add_parts add_part unit_of
    remove_word to_lower every valid_reset_horizon
in_one_hour = refl

parse_usage_reset-InHorizon_example : InHorizon now (now + 60 * minute)
parse_usage_reset-InHorizon_example =
    parse_usage_reset-InHorizon library "  resets in 1h" now (now + 60 * minute) in_one_hour

abbrev usage_report : ProviderReport
unfolding normalize_window
usage_report = record {
  observed_at = now;
  auth_state = "authenticated";
  plan = "";
  source = "claude-usage";
  windows = record {
    five_hour = some (normalize_window fin (fin (pos (20 * one))) (now + 60 * minute));
    seven_day = none;
  };
  error_code = "";
}

session_read :
    parse_usage_text library fin "Current session\n20% used\nresets in 1h" now ≡ ok usage_report
unfolding parse_usage_text read_lines read_line split_lines commit classify_usage_heading used_in
    contains parse_usage_reset trim_space reset_value parse_relative_reset add_parts add_part
    unit_of remove_word to_lower every valid_reset_horizon usage_report
session_read = refl

parse_usage_text-SoundWindows_example : SoundWindows now usage_report.windows
parse_usage_text-SoundWindows_example =
    parse_usage_text-SoundWindows library fin now "Current session\n20% used\nresets in 1h"
      usage_report session_read

-- ===== src/Collector/Window.antt =====
-- What both collectors share (internal/collector/codex.go): windows from a used percentage and a
-- reset time, and the report of a failed collection.
use codex_claude_monitor.Prelude.{ℕ, ◌+◌, ◌-◌, ◌*◌, ◌%◌, ◌^◌, String, some, if◌then◌else◌}
use codex_claude_monitor.Clock.{Instant, second, bias, zero_time}
use codex_claude_monitor.Float
use codex_claude_monitor.Float.{Float64, Round, f0, f100}
use codex_claude_monitor.Model.{LimitWindow, ProviderReport, no_windows}

-- An int64 with 2^63 added.
abbrev pub Int64 : Type 0
Int64 = ℕ

-- time.Unix(s, 0): the seconds since year 1 wrap around as an int64.
unfoldable pub of_unix : Int64 → Instant
of_unix s = (s + 62135596800) % 2 ^ 64 * second + zero_time - bias * second

-- Neither comparison holds of NaN, which passes.
unfoldable pub clamp_used : Float64 → Float64
clamp_used used =
    let at_least = if Float.lt used f0 then f0 else used in
    if Float.lt f100 at_least then f100 else at_least

unfoldable pub normalize_window : Round → Float64 → Instant → LimitWindow
unfolding clamp_used Float.sub
normalize_window round used resets_at = record {
  used_percent = clamp_used used;
  remaining_percent = Float.sub round f100 (clamp_used used);
  resets_at = some resets_at;
}

abbrev pub unavailable_report : Instant → String → String → ProviderReport
unavailable_report now source code = record {
  observed_at = now;
  auth_state = "unknown";
  plan = "";
  source = source;
  windows = no_windows;
  error_code = code;
}

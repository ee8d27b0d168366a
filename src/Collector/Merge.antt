-- ===== src/Collector/Merge.antt =====
-- `MergeProviderReports` of internal/collector/claude.go.
pub mod Laws
use codex_claude_monitor.Prelude.{
  Bool, true, false, not, ◌&&◌, Option, none, some, is_none, ◌==◌, if◌then◌else◌,
}
use codex_claude_monitor.Clock.{Instant, is_zero, after}
use codex_claude_monitor.Float
use codex_claude_monitor.Float.{f0, f100}
use codex_claude_monitor.Model.{LimitWindow, ProviderReport, no_windows}

abbrev pub reset_ahead : Option Instant → LimitWindow → Instant → Bool
reset_ahead none w observed_at = Float.eq w.used_percent f0 && Float.eq w.remaining_percent f100
reset_ahead (some t) w observed_at = not (is_zero t) && after t observed_at

unfoldable pub reusable_window : Option LimitWindow → Instant → Bool
reusable_window none observed_at = false
reusable_window (some w) observed_at = reset_ahead w.resets_at w observed_at

-- A window that is missing is taken from the older report, if it can be reused.
abbrev pub fill : Option LimitWindow → Option LimitWindow → Instant → Option LimitWindow
fill (some w) older observed_at = some w
fill none older observed_at = if reusable_window older observed_at then older else none

unfoldable pub merge_into : ProviderReport → ProviderReport → ProviderReport
unfolding reusable_window
merge_into newer older =
    if newer.auth_state == "unauthenticated"
    then record newer { windows = no_windows }
    else record newer {
      windows = record {
        five_hour = fill newer.windows.five_hour older.windows.five_hour newer.observed_at;
        seven_day = fill newer.windows.seven_day older.windows.seven_day newer.observed_at;
      };
      plan = if newer.plan == "" then older.plan else newer.plan;
      auth_state = if newer.auth_state == "" then older.auth_state else newer.auth_state;
    }

unfoldable pub merge_provider_reports : ProviderReport → ProviderReport → ProviderReport
merge_provider_reports a b =
    if after b.observed_at a.observed_at then merge_into b a else merge_into a b

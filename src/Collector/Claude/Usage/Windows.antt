-- ===== src/Collector/Claude/Usage/Windows.antt =====
-- Which windows are read from the text of `/usage` (internal/collector/claude.go).
use codex_claude_monitor.Prelude.{
  ◌≡◌, ◌⊎◌, String, ◌&&◌, Option, none, some, List, [], ◌∷◌, refl, subst, inl, inr, Bool-cases,
  is_none, ◌==◌,
}
use codex_claude_monitor.Prelude.Text.{split_lines}
use codex_claude_monitor.Prelude.Result.{ok}
use codex_claude_monitor.Clock.{Instant}
use codex_claude_monitor.Float
use codex_claude_monitor.Float.{Round, Float64, f0}
use codex_claude_monitor.Model.{LimitWindow, ProviderWindows, ProviderReport, no_windows}
use codex_claude_monitor.Collector.Window.{normalize_window}
use codex_claude_monitor.Collector.Claude.Reset.{Library, parse_usage_reset}
use codex_claude_monitor.Collector.Claude.Reset.Horizon.{InHorizon, parse_usage_reset-InHorizon}
use codex_claude_monitor.Collector.Claude.Usage.{
  Pending, nothing_pending, inactive_window, place, commit, commit_used, commit_pending, later,
  classify_usage_heading, start_window, read_values, read_line, read_lines, text_report,
  parse_usage_text,
}

-- The time, if it is there, lies in the horizon of the observation.
abbrev ResetInHorizon : Instant → Option Instant → Type 0
ResetInHorizon observed_at none = Unit
ResetInHorizon observed_at (some t) = InHorizon observed_at t

-- A seven-day window resets within the horizon.
abbrev pub Resets : Instant → Option LimitWindow → Type 0
Resets observed_at none = Unit
Resets observed_at (some w) = (t : Instant) × (w.resets_at ≡ some t) × InHorizon observed_at t

-- So does a five-hour window, if it is not the unused one.
abbrev pub ResetsOrInactive : Instant → Option LimitWindow → Type 0
ResetsOrInactive observed_at w = (w ≡ some inactive_window) ⊎ Resets observed_at w

abbrev pub SoundWindows : Instant → ProviderWindows → Type 0
SoundWindows observed_at windows =
    ResetsOrInactive observed_at windows.five_hour × Resets observed_at windows.seven_day

module _ (lib : Library) (round : Round) (observed_at : Instant) where
  normalize_window-Resets :
      (used : Float64) (t : Instant)
      → InHorizon observed_at t
      → Resets observed_at (some (normalize_window round used t))
  unfolding normalize_window
  normalize_window-Resets used t h = (t, refl, h)

  place-SoundWindows :
      (kind : String) (w : LimitWindow) (windows : ProviderWindows)
      → Resets observed_at (some w)
      → SoundWindows observed_at windows
      → SoundWindows observed_at (place kind w windows)
  place-SoundWindows kind w windows h (five, seven) = elim (Bool-cases (kind == "five")) [
    | inl is_five ↦ rw is_five (inr h, seven)
    | inr other ↦ elim (Bool-cases (kind == "seven")) [
      | inl is_seven ↦ rw (other, is_seven) (five, h)
      | inr unknown ↦ rw (other, unknown) (five, seven)
    ]
  ]

  commit_used-SoundWindows :
      (p : Pending) (used : Float64) (reset : Option Instant) (windows : ProviderWindows)
      → ResetInHorizon observed_at reset
      → SoundWindows observed_at windows
      → SoundWindows observed_at (commit_used round p used reset windows)
  commit_used-SoundWindows p used (some t) windows h sound =
      place-SoundWindows p.kind (normalize_window round used t) windows
        (normalize_window-Resets used t h) sound
  commit_used-SoundWindows p used none windows h (five, seven) =
      elim (Bool-cases (p.kind == "five" && (p.allow_inactive_without_reset && Float.eq used f0))) [
        | inl inactive ↦ rw inactive (inl refl, seven)
        | inr other ↦ rw other (five, seven)
      ]

  commit_pending-SoundWindows :
      (p : Pending) (used : Option Float64) (windows : ProviderWindows)
      → ResetInHorizon observed_at p.reset
      → SoundWindows observed_at windows
      → SoundWindows observed_at (commit_pending round p used windows)
  commit_pending-SoundWindows p none windows h sound = sound
  commit_pending-SoundWindows p (some used) windows h sound =
      commit_used-SoundWindows p used p.reset windows h sound

  -- What the loop keeps.
  abbrev SoundState : Pending × ProviderWindows → Type 0
  SoundState (p, windows) = ResetInHorizon observed_at p.reset × SoundWindows observed_at windows

  start_window-SoundState :
      (kind : Option String) (line : String) (s : Pending × ProviderWindows)
      → SoundState s
      → SoundState (start_window lib round kind line s)
  unfolding start_window commit
  start_window-SoundState none line s h = h
  start_window-SoundState (some kind) line (p, windows) (reset, sound) =
      (tt, commit_pending-SoundWindows p p.used windows reset sound)

  later-ResetInHorizon :
      (line : String) (new old : Option Instant)
      → parse_usage_reset lib line observed_at ≡ new
      → ResetInHorizon observed_at old
      → ResetInHorizon observed_at (later new old)
  later-ResetInHorizon line none old e h = h
  later-ResetInHorizon line (some t) old e h = parse_usage_reset-InHorizon lib line observed_at t e

  read_values-ResetInHorizon :
      (line : String) (p : Pending)
      → ResetInHorizon observed_at p.reset
      → ResetInHorizon observed_at (read_values lib round observed_at line p).reset
  unfolding read_values
  read_values-ResetInHorizon line p h = elim (Bool-cases (p.kind == "")) [
    | inl skipped ↦ rw skipped h
    | inr read ↦
        rw read (later-ResetInHorizon line (parse_usage_reset lib line observed_at) p.reset refl h)
  ]

  read_line-SoundState :
      (line : String) (s : Pending × ProviderWindows)
      → SoundState s
      → SoundState (read_line lib round observed_at line s)
  unfolding read_line
  read_line-SoundState line s h =
      let kind = classify_usage_heading lib line in
      let (reset, sound) = start_window-SoundState kind line s h in
      (read_values-ResetInHorizon line (start_window lib round kind line s).0 reset, sound)

  read_lines-SoundWindows :
      (lines : List String) (s : Pending × ProviderWindows)
      → SoundState s
      → SoundWindows observed_at (read_lines lib round observed_at lines s)
  unfolding read_lines commit
  read_lines-SoundWindows [] (p, windows) (reset, sound) =
      commit_pending-SoundWindows p p.used windows reset sound
  read_lines-SoundWindows (line ∷ lines) s h =
      read_lines-SoundWindows lines (read_line lib round observed_at line s)
        (read_line-SoundState line s h)

  text_report-windows :
      (windows : ProviderWindows) (report : ProviderReport)
      → text_report lib round observed_at windows ≡ ok report
      → windows ≡ report.windows
  text_report-windows windows report h =
      elim (Bool-cases (is_none windows.five_hour && is_none windows.seven_day)) [
        | inl empty ↦ cc (rw empty at h)
        | inr found ↦ cc (rw found at h)
      ]

-- Every window of a report from the text resets between one day before the observation and eight
-- days after it; only a five-hour window that is wholly unused can have no reset time.
pub parse_usage_text-SoundWindows :
    (lib : Library) (round : Round) (observed_at : Instant) (output : String)
    (report : ProviderReport)
    → parse_usage_text lib round output observed_at ≡ ok report
    → SoundWindows observed_at report.windows
unfolding parse_usage_text
parse_usage_text-SoundWindows lib round observed_at output report h =
    subst (SoundWindows observed_at)
      (text_report-windows lib round observed_at
        (read_lines lib round observed_at (split_lines output) (nothing_pending, no_windows)) report
        h)
      (read_lines-SoundWindows lib round observed_at (split_lines output)
        (nothing_pending, no_windows) (tt, (inr tt, tt)))

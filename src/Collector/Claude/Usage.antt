-- ===== src/Collector/Claude/Usage.antt =====
-- internal/collector/claude.go: the windows in what `/usage` prints, as JSON or as text.
pub mod Windows
pub mod Payload
use codex_claude_monitor.Prelude.{
  String, Bool, true, false, not, ◌&&◌, ◌||◌, Option, none, some, List, [], ◌∷◌, ◌++◌, is_none,
  ◌==◌, if◌then◌else◌,
}
use codex_claude_monitor.Prelude.Text.{trim_space, to_lower, contains, split_lines, fields, join}
use codex_claude_monitor.Prelude.Result.{Result, ok, err}
use codex_claude_monitor.Clock.{Instant}
use codex_claude_monitor.Float
use codex_claude_monitor.Float.{Float64, Round, f0, f100}
use codex_claude_monitor.Json.{
  Json, Items, Members, null, bool, num, text, arr, obj, nil, cons, end, member, as_text,
}
use codex_claude_monitor.Model.{LimitWindow, ProviderWindows, ProviderReport, no_windows}
use codex_claude_monitor.Collector.Window.{normalize_window}
use codex_claude_monitor.Collector.Claude
use codex_claude_monitor.Collector.Claude.{
  ClaudeError, usage_invalid, find_rate_limits, parse_claude_rate_limits,
}
use codex_claude_monitor.Collector.Claude.Reset.{Library, parse_usage_reset}

abbrev pub ansi_pattern : String
ansi_pattern = "\u{1b}\\[[0-?]*[ -/]*[@-~]"

abbrev pub percent_pattern : String
percent_pattern = "(?i)(\\d+(?:\\.\\d+)?)\\s*%\\s*(?:used)?"

abbrev pub current_week_heading : String
current_week_heading = "(?i)^\\s*current\\s+week(?:\\s*\\(([^)]*)\\))?(?:\\s*:|\\s*$)"

abbrev pub model_only_heading : String
model_only_heading = "(?i)^\\s*[^:]{1,80}\\bonly(?:\\s*:|\\s*$)"

abbrev pub current_session_heading : String
current_session_heading = "(?i)^\\s*current\\s+session(?:\\s+(?:limit|usage))?(?:\\s*:|\\s*$)"

abbrev pub five_hour_heading : String
five_hour_heading =
    "(?i)^\\s*(?:current\\s+session|5h|5\\s*hours?|5-hour)(?:\\s+(?:limit|usage))?(?:\\s*:|\\s*$)"

abbrev pub seven_day_heading : String
seven_day_heading =
    "(?i)^\\s*(?:all\\s+models|7d|7\\s*days?|7-day|weekly\\s+limits?)(?:\\s*:|\\s*$)"

pub record Pending : Type 0 where
  pub kind : String
  pub allow_inactive_without_reset : Bool
  pub used : Option Float64
  pub reset : Option Instant

abbrev pub nothing_pending : Pending
nothing_pending = record {
  kind = "";
  allow_inactive_without_reset = false;
  used = none;
  reset = none;
}

abbrev pub inactive_window : LimitWindow
inactive_window = record { used_percent = f0; remaining_percent = f100; resets_at = none }

abbrev pub place : String → LimitWindow → ProviderWindows → ProviderWindows
place kind window windows =
    if kind == "five"
    then record windows { five_hour = some window }
    else if kind == "seven"
    then record windows { seven_day = some window }
    else windows

abbrev pub commit_used :
    Round → Pending → Float64 → Option Instant → ProviderWindows → ProviderWindows
commit_used round p used none windows =
    if p.kind == "five" && (p.allow_inactive_without_reset && Float.eq used f0)
    then record windows { five_hour = some inactive_window }
    else windows
commit_used round p used (some reset) windows =
    place p.kind (normalize_window round used reset) windows

abbrev pub commit_pending : Round → Pending → Option Float64 → ProviderWindows → ProviderWindows
commit_pending round p none windows = windows
commit_pending round p (some used) windows = commit_used round p used p.reset windows

unfoldable pub commit : Round → Pending → ProviderWindows → ProviderWindows
commit round p windows = commit_pending round p p.used windows

abbrev pub later {ℓ} : {A : Type ℓ} → Option A → Option A → Option A
later none old = old
later (some new) old = some new

module _ (lib : Library) where
  abbrev matches : String → String → Bool
  matches pattern line = not (is_none (lib.find pattern line))

  abbrev pub other_heading : String → Option String
  other_heading line =
      if matches model_only_heading line
      then some ""
      else if matches five_hour_heading line
      then some "five"
      else if matches seven_day_heading line
      then some "seven"
      else none

  -- The kind of window under a heading, "" for one that is not displayed; `none` for a line that
  -- is no heading.
  unfoldable pub classify_usage_heading : String → Option String
  classify_usage_heading line = elim (lib.find current_week_heading line) [
    | some (_ ∷ label ∷ []) ↦
        some (if lib.equal_fold (join " " (fields label)) "all models" then "seven" else "")
    | _ ↦ other_heading line
  ]

  module _ (round : Round) where
    -- The percentage of a line.
    unfoldable pub used_in : String → Option Float64
    unfolding Float.sub
    used_in line = elim (lib.find percent_pattern line) [
      | some (_ ∷ digits ∷ _) ↦
          let used = lib.float_of digits in
          let lower = to_lower lib.lower line in
          some (
            if contains lower "remaining" && not (contains lower "used")
            then Float.sub round f100 used
            else used)
      | _ ↦ none
    ]

    abbrev pub start_window :
        Option String → String → Pending × ProviderWindows → Pending × ProviderWindows
    unfolding commit
    start_window none line s = s
    start_window (some kind) line (p, windows) = (
      record {
        kind = kind;
        allow_inactive_without_reset = kind == "five" && matches current_session_heading line;
        used = none;
        reset = none;
      },
      commit round p windows,
    )

    abbrev pub read_values : Instant → String → Pending → Pending
    unfolding used_in
    read_values observed_at line p = if p.kind == "" then p else record p {
      used = later (used_in line) p.used;
      reset = later (parse_usage_reset lib line observed_at) p.reset;
    }

    -- One turn of the loop over the lines.
    unfoldable pub read_line :
        Instant → String → Pending × ProviderWindows → Pending × ProviderWindows
    unfolding classify_usage_heading
    read_line observed_at line s =
        let (p, windows) = start_window (classify_usage_heading line) line s in
        (read_values observed_at line p, windows)

    unfoldable pub read_lines : Instant → List String → Pending × ProviderWindows → ProviderWindows
    unfolding read_line commit
    read_lines observed_at [] (p, windows) = commit round p windows
    read_lines observed_at (line ∷ lines) s =
        read_lines observed_at lines (read_line observed_at line s)

    abbrev pub text_report : Instant → ProviderWindows → Result ClaudeError ProviderReport
    text_report observed_at windows =
        if is_none windows.five_hour && is_none windows.seven_day
        then err usage_invalid
        else ok (record {
          observed_at = observed_at;
          auth_state = "authenticated";
          plan = "";
          source = "claude-usage";
          windows = windows;
          error_code = "";
        })

    unfoldable pub parse_usage_text : String → Instant → Result ClaudeError ProviderReport
    unfolding read_lines
    parse_usage_text output observed_at =
        text_report observed_at
          (read_lines observed_at (split_lines output) (nothing_pending, no_windows))

  -- A text that can hold quotas, under one of the keys.
  abbrev quota_text : String → Json → List String
  quota_text key (text s) =
      let lower = to_lower lib.lower s in
      if (key == "result" || key == "text")
        && (contains lower "% used"
            || contains lower "rate limit"
            || contains lower "current session")
      then s ∷ []
      else []
  quota_text key _ = []

  unfoldable mutual
    pub collect_quota_text : Json → List String
    collect_quota_text (obj m) = collect_from_members m
    collect_quota_text (arr xs) = collect_from_items xs
    collect_quota_text null = []
    collect_quota_text (bool b) = []
    collect_quota_text (num x) = []
    collect_quota_text (text s) = []

    pub collect_from_members : Members → List String
    collect_from_members end = []
    collect_from_members (member k v rest) =
        quota_text k v ++ (collect_quota_text v ++ collect_from_members rest)

    pub collect_from_items : Items → List String
    collect_from_items nil = []
    collect_from_items (cons v rest) = collect_quota_text v ++ collect_from_items rest

-- ===== src/Collector/Claude/Reset.antt =====
-- internal/collector/claude.go: the reset times in the text that `/usage` prints.
--
-- The engine of Go's regexp, the conversions of strconv and the calendar of package time are
-- parameters (`Library`); the patterns are those of the code.
pub mod Horizon
use Prim.Native.Char.{Char, code}
use codex_claude_monitor.Prelude.{
  ℕ, ◌+◌, ◌-◌, ◌*◌, ◌/◌, ◌%◌, ◌^◌, String, Bool, true, false, not, ◌&&◌, ◌||◌, Option, none, some,
  List, [], ◌∷◌, ltb, leb, nat_eq, ◌==◌, if◌then◌else◌,
}
use codex_claude_monitor.Prelude.Text.{trim_space, to_lower, remove_word, every}
use codex_claude_monitor.Prelude.Chain.{◌>>=◌}
use codex_claude_monitor.Clock
use codex_claude_monitor.Clock.{Instant, second, minute, bias}
use codex_claude_monitor.Float.{Float64}

-- A Go `int` with 2^63 added.
abbrev pub Year : Type 0
Year = ℕ

pub record Civil : Type 0 where
  pub year : Year
  pub month : ℕ
  pub day : ℕ
  pub hour : ℕ
  pub min : ℕ

pub record Library : Type 1 where
  -- unicode.ToLower, and strings.EqualFold
  pub lower : Char → Char
  pub equal_fold : String → String → Bool
  -- The groups of the first match (FindStringSubmatch) and of all matches
  -- (FindAllStringSubmatch) of a pattern in a text, and the text without its matches.
  pub find : String → String → Option (List String)
  pub find_all : String → String → List (List String)
  pub remove_all : String → String → String
  -- strconv on a text of digits: `atoi` gives an error on overflow, `float_of` an infinity.
  pub atoi : String → Option ℕ
  pub float_of : String → Float64
  pub parse_rfc3339 : String → Option Instant
  -- *time.Location, time.LoadLocation, and time.Local
  pub Zone : Type 0
  pub load_location : String → Option Zone
  pub local : Zone
  -- t.In(zone), and time.Date with no seconds
  pub in_zone : Instant → Zone → Civil
  pub date : Civil → Zone → Instant

abbrev pub timestamp_pattern : String
timestamp_pattern = "\\d{4}-\\d{2}-\\d{2}T\\d{2}:\\d{2}:\\d{2}(?:\\.\\d+)?(?:Z|[+-]\\d{2}:?\\d{2})"

abbrev pub reset_phrase_pattern : String
reset_phrase_pattern = "(?i)\\bresets?\\s+(.+?)\\s*$"

abbrev pub relative_reset_pattern : String
relative_reset_pattern = "(?i)^in\\s+(.+?)\\s*$"

abbrev pub relative_reset_part : String
relative_reset_part = "(?i)(\\d+)\\s*(days?|d|hours?|hrs?|h|minutes?|mins?|m|seconds?|secs?|s)"

abbrev pub absolute_reset_pattern : String
absolute_reset_pattern =
    "(?i)^([a-z]+)\\s+(\\d{1,2})(?:,\\s*(\\d{4}))?(?:,\\s*|\\s+at\\s+)(\\d{1,2})(?::(\\d{2}))?\\s*(am|pm)?(?:\\s*\\(([^)]+)\\))?$"

abbrev pub day : ℕ
day = 24 * 60 * minute

abbrev pub past_tolerance : ℕ
past_tolerance = day

abbrev pub max_horizon : ℕ
max_horizon = 8 * day

unfoldable pub valid_reset_horizon : Instant → Instant → Bool
valid_reset_horizon reset observed_at =
    let delta = Clock.sub reset observed_at in
    leb (bias - past_tolerance) delta && leb delta (bias + max_horizon)

-- A time that passes the horizon check.
abbrev pub within : Instant → Instant → Option Instant
within observed_at t = if valid_reset_horizon t observed_at then some t else none

abbrev one_of : List String → String → Bool
one_of [] s = false
one_of (t ∷ ts) s = s == t || one_of ts s

unfoldable pub unit_of : String → Option ℕ
unit_of s =
    if one_of ("d" ∷ "day" ∷ "days" ∷ []) s
    then some day
    else if one_of ("h" ∷ "hr" ∷ "hrs" ∷ "hour" ∷ "hours" ∷ []) s
    then some (60 * minute)
    else if one_of ("m" ∷ "min" ∷ "mins" ∷ "minute" ∷ "minutes" ∷ []) s
    then some minute
    else if one_of ("s" ∷ "sec" ∷ "secs" ∷ "second" ∷ "seconds" ∷ []) s
    then some second
    else none

abbrev in_cutset : ℕ → Bool
in_cutset c = nat_eq c 0x20 || nat_eq c 0x09 || nat_eq c 0x2c || nat_eq c 0xb7

module _ (lib : Library) where
  -- One turn of the loop over the parts: the duration after it, if the part is plausible. A
  -- duration is an int64 of nanoseconds; it is never negative here and never past 16 days.
  unfoldable pub add_part : List String → ℕ → Option ℕ
  add_part (_ ∷ amount ∷ unit ∷ _) duration = elim (lib.atoi amount) [
    | none ↦ none
    | some n ↦ elim (unit_of (to_lower lib.lower unit)) [
      | none ↦ none
      | some u ↦
          if ltb (max_horizon / u) n || ltb max_horizon (duration + n * u)
          then none
          else some (duration + n * u)
    ]
  ]
  add_part _ duration = none

  unfoldable pub add_parts : List (List String) → ℕ → Option ℕ
  unfolding add_part
  add_parts [] duration = some duration
  add_parts (part ∷ parts) duration = elim (add_part part duration) [
    | none ↦ none
    | some total ↦ add_parts parts total
  ]

  -- The text between the parts has nothing but separators.
  abbrev only_separators : String → Bool
  only_separators text =
      every in_cutset
        (remove_word "and" 3 0 (to_lower lib.lower (lib.remove_all relative_reset_part text)))

  abbrev relative_duration : String → Option ℕ
  relative_duration text = elim (lib.find_all relative_reset_part text) [
    | [] ↦ none
    | part ∷ parts ↦ if only_separators text then add_parts (part ∷ parts) 0 else none
  ]

  unfoldable pub parse_relative_reset : String → Instant → Option Instant
  unfolding add_parts
  parse_relative_reset value observed_at =
      elim (lib.find relative_reset_pattern (trim_space value)) [
        | some (_ ∷ text ∷ []) ↦ elim (relative_duration text) [
          | none ↦ none
          | some duration ↦ some (Clock.add observed_at (Clock.nanos duration))
        ]
        | _ ↦ none
      ]

  abbrev month_names : List (String × String)
  month_names =
      ("january", "jan")
      ∷ ("february", "feb")
      ∷ ("march", "mar")
      ∷ ("april", "apr")
      ∷ ("may", "may")
      ∷ ("june", "jun")
      ∷ ("july", "jul")
      ∷ ("august", "aug")
      ∷ ("september", "sep")
      ∷ ("october", "oct")
      ∷ ("november", "nov")
      ∷ ("december", "dec")
      ∷ []

  abbrev month_from : List (String × String) → ℕ → String → Option ℕ
  month_from [] month s = none
  month_from ((name, short) ∷ names) month s =
      if s == name || s == short then some month else month_from names (1 + month) s

  unfoldable pub english_month : String → Option ℕ
  english_month value = month_from month_names 1 (to_lower lib.lower (trim_space value))

  -- The hour of the day, from the hour that is written and "am", "pm" or "".
  unfoldable pub hour_of : ℕ → String → Option ℕ
  hour_of hour meridiem =
      if meridiem == ""
      then if leb hour 23 then some hour else none
      else if ltb hour 1 || ltb 12 hour
      then none
      else let base = if nat_eq hour 12 then 0 else hour in
        some (if meridiem == "pm" then base + 12 else base)

  abbrev same_civil : Civil → Civil → Bool
  same_civil a b =
      nat_eq a.year b.year
      && nat_eq a.month b.month
      && nat_eq a.day b.day
      && nat_eq a.hour b.hour
      && nat_eq a.min b.min

  -- Dates that time.Date has to normalize are refused.
  unfoldable pub build_absolute_reset : Civil → lib.Zone → Option Instant
  build_absolute_reset c zone =
      let parsed = lib.date c zone in
      if same_civil (lib.in_zone parsed zone) c then some parsed else none

  abbrev pub plausible_or : Option Instant → Option Instant → Instant → Option Instant
  plausible_or none rest observed_at = rest
  plausible_or (some t) rest observed_at =
      if valid_reset_horizon t observed_at then some t else rest

  -- The first of the years in which the date is plausible.
  unfoldable pub first_plausible : List Year → Civil → lib.Zone → Instant → Option Instant
  unfolding build_absolute_reset valid_reset_horizon
  first_plausible [] c zone observed_at = none
  first_plausible (year ∷ years) c zone observed_at =
      plausible_or (build_absolute_reset (record c { year = year }) zone)
        (first_plausible years c zone observed_at) observed_at

  abbrev pub candidate_years : String → Year → Option (List Year)
  candidate_years written current =
      if written == ""
      then some ((current - 1) ∷ current ∷ (1 + current) ∷ [])
      else do year ← lib.atoi written; some ((bias + year) ∷ [])

  abbrev minute_of : String → Option ℕ
  minute_of written = if written == "" then some 0 else lib.atoi written

  abbrev pub zone_of : String → Option lib.Zone
  zone_of name = if name == "" then some lib.local else lib.load_location name

  -- The month, day, hour and minute that are written, with a year to be replaced.
  unfoldable pub written_date : String → String → String → String → String → Option Civil
  unfolding english_month hour_of
  written_date month day_text hour_text minute_text meridiem = do
    m ← english_month month
    d ← lib.atoi day_text
    h ← lib.atoi hour_text
    n ← minute_of minute_text
    hour ← if ltb d 1 || ltb 31 d || ltb 59 n then none else hour_of h (to_lower lib.lower meridiem)
    some (record { year = bias; month = m; day = d; hour = hour; min = n })

  -- The date with the groups of a match.
  unfoldable pub matched_date : Option (List String) → Instant → Option Instant
  unfolding first_plausible written_date
  matched_date (some (_ ∷ month ∷ d ∷ year ∷ hour ∷ minutes ∷ meridiem ∷ zone ∷ [])) observed_at =
      do
        c ← written_date month d hour minutes meridiem
        location ← zone_of (trim_space zone)
        years ← candidate_years year (lib.in_zone observed_at location).year
        first_plausible years c location observed_at
  matched_date _ observed_at = none

  unfoldable pub parse_absolute_reset : String → Instant → Option Instant
  unfolding matched_date
  parse_absolute_reset value observed_at =
      matched_date (lib.find absolute_reset_pattern (trim_space value)) observed_at

  abbrev pub stamped : String → Instant → Option Instant
  stamped stamp observed_at = do parsed ← lib.parse_rfc3339 stamp; within observed_at parsed

  abbrev pub relative_or : Option Instant → Option Instant → Instant → Option Instant
  relative_or (some parsed) absolute observed_at = within observed_at parsed
  relative_or none absolute observed_at = absolute

  -- The three forms of a reset time, of which the first that applies decides.
  unfoldable pub reset_value : Option (List String) → String → Instant → Option Instant
  unfolding parse_relative_reset parse_absolute_reset
  reset_value (some (stamp ∷ _)) value observed_at = stamped stamp observed_at
  reset_value _ value observed_at =
      relative_or (parse_relative_reset value observed_at) (parse_absolute_reset value observed_at)
        observed_at

  abbrev pub reset_phrase : Option (List String) → Instant → Option Instant
  reset_phrase (some (_ ∷ text ∷ [])) observed_at =
      let value = trim_space text in
      reset_value (lib.find timestamp_pattern value) value observed_at
  reset_phrase _ observed_at = none

  unfoldable pub parse_usage_reset : String → Instant → Option Instant
  unfolding reset_value
  parse_usage_reset line observed_at =
      reset_phrase (lib.find reset_phrase_pattern (trim_space line)) observed_at

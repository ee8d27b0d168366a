-- ===== src/Collector/Claude.antt =====
-- internal/collector/claude.go: the answers of the Claude command-line program.
--
-- What the code takes from Go's library is a parameter (`Library`): unicode.ToLower, time.Parse,
-- strconv, and the conversion of a float64 to an int64. A payload is given as decoded by
-- encoding/json, `none` if it is no JSON.
pub mod Logout
pub mod Reset
pub mod Usage
pub mod Once
use Prim.Native.String
use Prim.Native.Char.{Char, code}
use codex_claude_monitor.Prelude.{
  ℕ, ◌+◌, ◌-◌, ◌*◌, ◌/◌, ◌%◌, ◌^◌, String, Bool, true, false, not, ◌&&◌, ◌||◌, Option, none, some,
  List, [], ◌∷◌, ltb, leb, nat_eq, is_none, ◌==◌, if◌then◌else◌,
}
use codex_claude_monitor.Prelude.Text.{trim_space}
use codex_claude_monitor.Prelude.Result.{Result, ok, err, ◌>>=◌}
use codex_claude_monitor.Clock.{Instant, bias}
use codex_claude_monitor.Float.{Float64, Round}
use codex_claude_monitor.Json.{
  Json, Items, Members, null, bool, num, text, arr, obj, nil, cons, end, member, get, first_value,
  as_text, as_bool, as_object,
}
use codex_claude_monitor.Model.{LimitWindow, ProviderWindows, ProviderReport, no_windows}
use codex_claude_monitor.Collector.Window.{Int64, of_unix, normalize_window, unavailable_report}

pub record Library : Type 0 where
  pub parse_rfc3339 : String → Option Instant
  pub parse_int : String → Option Int64
  pub parse_float : String → Option Float64
  pub truncate : Float64 → Int64

pub data ClaudeError : Type 0 where
  command_failed not_json not_an_object login_state_missing logout_unconfirmed : ClaudeError
  no_rate_limits no_windows_found not_a_window used_missing bad_timestamp usage_invalid :
      ClaudeError

-- The value at a path of keys, for stringValueNested.
abbrev at_path : List String → Json → Json
at_path [] value = value
at_path (key ∷ keys) (obj m) = elim (get key m) [
  | some v ↦ at_path keys v
  | none ↦ at_path keys null
]
at_path (key ∷ keys) _ = null

unfoldable pub string_value_nested : List (List String) → Members → String
string_value_nested [] object = ""
string_value_nested (path ∷ paths) object = elim (as_text (at_path path (obj object))) [
  | some s ↦ s
  | none ↦ string_value_nested paths object
]

abbrev string_or_empty : Option String → String
string_or_empty none = ""
string_or_empty (some s) = s

unfoldable pub auth_plan : Members → String
unfolding string_value_nested
auth_plan raw =
    let plan = string_or_empty (
      as_text
        (first_value ("subscriptionType" ∷ "subscription_type" ∷ "plan" ∷ "planType" ∷ []) raw)) in
    if plan == ""
    then string_value_nested
        (("account" ∷ "subscriptionType" ∷ []) ∷ ("account" ∷ "plan" ∷ []) ∷ []) raw
    else plan

abbrev pub login_state : Members → Option Bool
login_state raw = as_bool (first_value ("loggedIn" ∷ "logged_in" ∷ "authenticated" ∷ []) raw)

-- The part of ParseClaudeAuthStatus after the payload is decoded into a map; a JSON null gives a
-- nil map.
unfoldable pub auth_status_of : Instant → Json → Result ClaudeError ProviderReport
unfolding auth_plan
auth_status_of now (obj raw) = elim (login_state raw) [
  | none ↦ err login_state_missing
  | some logged_in ↦ ok (record {
    observed_at = now;
    auth_state = if logged_in then "authenticated" else "unauthenticated";
    plan = auth_plan raw;
    source = "claude-auth-status";
    windows = no_windows;
    error_code = "";
  })
]
auth_status_of now null = err not_an_object
auth_status_of now _ = err not_json

unfoldable pub parse_claude_auth_status : Instant → Option Json → Result ClaudeError ProviderReport
unfolding auth_status_of
parse_claude_auth_status now none = err not_json
parse_claude_auth_status now (some value) = auth_status_of now value

-- The entries that findRateLimits looks at first.
abbrev own_limits : Members → Option Members
own_limits m = elim (get "rate_limits" m) [
  | some (obj limits) ↦ some limits
  | _ ↦ elim (get "rateLimits" m) [ some (obj limits) ↦ some limits | _ ↦ none ]
]

abbrev or_else : Option Members → Option Members → Option Members
or_else none b = b
or_else (some a) b = some a

unfoldable mutual
  pub find_rate_limits : Json → Option Members
  find_rate_limits (obj m) = or_else (own_limits m) (find_in_members m)
  find_rate_limits (arr xs) = find_in_items xs
  find_rate_limits null = none
  find_rate_limits (bool b) = none
  find_rate_limits (num x) = none
  find_rate_limits (text s) = none

  pub find_in_members : Members → Option Members
  find_in_members end = none
  find_in_members (member k v rest) = or_else (find_rate_limits v) (find_in_members rest)

  pub find_in_items : Items → Option Members
  find_in_items nil = none
  find_in_items (cons v rest) = or_else (find_rate_limits v) (find_in_items rest)

-- strings.TrimSuffix(s, "%")
unfoldable pub trim_percent : String → String
trim_percent String.[] = String.[]
trim_percent (String.◌∷◌ c String.[]) =
    if nat_eq (code c) b'%' then String.[] else String.◌∷◌ c String.[]
trim_percent (String.◌∷◌ c (String.◌∷◌ d s)) = String.◌∷◌ c (trim_percent (String.◌∷◌ d s))

unfoldable pub number_of : Library → Json → Option Float64
number_of lib (num x) = some x
number_of lib (text s) = lib.parse_float (trim_percent (trim_space s))
number_of lib _ = none

-- A value above 10^12 counts milliseconds.
unfoldable pub unix_timestamp : Int64 → Instant
unix_timestamp v =
    if ltb (bias + 10 ^ 12) v
    then of_unix (bias + (v - bias) / 1000) + (v - bias) % 1000 * 10 ^ 6
    else of_unix v

-- The cases that a decoded value can have. Time.Parse reads the fraction of RFC 3339 in either
-- layout, so the second layout of the loop adds nothing.
unfoldable pub parse_timestamp : Library → Json → Result ClaudeError Instant
unfolding unix_timestamp
parse_timestamp lib (text s) = elim (lib.parse_rfc3339 s) [
  | some t ↦ ok t
  | none ↦ elim (lib.parse_int s) [ some n ↦ ok (unix_timestamp n) | none ↦ err bad_timestamp ]
]
parse_timestamp lib (num x) = ok (unix_timestamp (lib.truncate x))
parse_timestamp lib _ = err bad_timestamp

abbrev window_used : Library → Members → Option Float64
window_used lib m =
    number_of lib
      (first_value ("used_percentage" ∷ "usedPercent" ∷ "used_percent" ∷ "utilization" ∷ []) m)

abbrev window_reset : Members → Json
window_reset m = first_value ("resets_at" ∷ "resetsAt" ∷ "reset_at" ∷ "resetAt" ∷ []) m

unfoldable pub parse_claude_window : Round → Library → Json → Result ClaudeError LimitWindow
unfolding normalize_window parse_timestamp number_of
parse_claude_window round lib (obj m) = elim (window_used lib m) [
  | none ↦ err used_missing
  | some used ↦ do
    reset ← parse_timestamp lib (window_reset m)
    ok (normalize_window round used reset)
]
parse_claude_window round lib _ = err not_a_window

-- A window under one of the keys, if it is not nil.
unfoldable pub optional_window : Round → Library → Json → Result ClaudeError (Option LimitWindow)
optional_window round lib null = ok none
optional_window round lib value = do window ← parse_claude_window round lib value; ok (some window)

-- The part of parseClaudeRateLimits after findRateLimits.
unfoldable pub limits_report :
    Round → Library → Instant → String → Members → Result ClaudeError ProviderReport
limits_report round lib observed_at source limits = do
  five_hour ← optional_window round lib (first_value ("five_hour" ∷ "fiveHour" ∷ "5h" ∷ []) limits)
  seven_day ← optional_window round lib (first_value ("seven_day" ∷ "sevenDay" ∷ "7d" ∷ []) limits)
  if is_none five_hour && is_none seven_day
      then err no_windows_found
      else ok (record {
        observed_at = observed_at;
        auth_state = "authenticated";
        plan = "";
        source = source;
        windows = record { five_hour = five_hour; seven_day = seven_day };
        error_code = "";
      })

unfoldable pub parse_claude_rate_limits :
    Round → Library → Option Json → Instant → String → Result ClaudeError ProviderReport
parse_claude_rate_limits round lib none observed_at source = err not_json
parse_claude_rate_limits round lib (some root) observed_at source = elim (find_rate_limits root) [
  | none ↦ err no_rate_limits
  | some limits ↦ limits_report round lib observed_at source limits
]

unfoldable pub parse_claude_status_line :
    Round → Library → Option Json → Instant → Result ClaudeError ProviderReport
parse_claude_status_line round lib payload observed_at =
    parse_claude_rate_limits round lib payload observed_at "claude-statusline"

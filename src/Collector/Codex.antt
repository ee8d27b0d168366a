-- ===== src/Collector/Codex.antt =====
-- internal/collector/codex.go: what the answers of the Codex app-server mean.
--
-- `lower` is `unicode.ToLower`, of which the program uses the ASCII part.
pub mod Order
pub mod Rpc
use Prim.Native.String
use Prim.Native.Char.{Char, code}
use codex_claude_monitor.Prelude.{
  ℕ, String, Bool, true, false, not, ◌&&◌, ◌||◌, Option, none, some, List, [], ◌∷◌, ltb, nat_eq,
  ◌==◌, if◌then◌else◌, ◌+◌, ◌^◌,
}
use codex_claude_monitor.Prelude.GoMap.{GoMap}
use codex_claude_monitor.Prelude.Text.{is_lower, is_digit, trim_space, less, to_lower}
use codex_claude_monitor.Clock.{Instant, bias, before}
use codex_claude_monitor.Float
use codex_claude_monitor.Float.{Float64, Round}
use codex_claude_monitor.Model.{LimitWindow, ProviderWindows, ProviderReport, no_windows}
use codex_claude_monitor.Collector.Window.{Int64, of_unix, normalize_window}

abbrev pub five_hour_minutes : Int64
five_hour_minutes = bias + 300

abbrev pub seven_day_minutes : Int64
seven_day_minutes = bias + 10080

-- The `account` of accountResponse.
pub record Account : Type 0 where
  pub type : String
  pub plan_type : String

pub record AccountResponse : Type 0 where
  pub account : Option Account
  pub requires_openai_auth : Bool

pub record RateLimitWindow : Type 0 where
  pub used_percent : Float64
  pub window_duration_min : Option Int64
  pub resets_at : Option Int64

pub record RateLimitSnapshot : Type 0 where
  pub limit_id : Option String
  pub plan_type : Option String
  pub primary : Option RateLimitWindow
  pub secondary : Option RateLimitWindow

pub record RateLimitsResponse : Type 0 where
  pub rate_limits : RateLimitSnapshot
  pub rate_limits_by_limit_id : GoMap RateLimitSnapshot

-- A codexWindowChoice that is set; one that is not set is `none`.
pub record WindowChoice : Type 0 where
  pub window : LimitWindow
  pub canonical : Bool

-- The choices for five hours and for seven days.
abbrev pub Choices : Type 0
Choices = Option WindowChoice × Option WindowChoice

abbrev bool_eq : Bool → Bool → Bool
bool_eq true b = b
bool_eq false b = not b

-- `a.Before(*b)` where both are set; the code sets both.
abbrev reset_before : Option Instant → Option Instant → Bool
reset_before (some a) (some b) = before a b
reset_before _ _ = false

unfoldable pub prefer_codex_window : WindowChoice → Option WindowChoice → Bool
prefer_codex_window candidate none = true
prefer_codex_window candidate (some current) =
    if not (bool_eq candidate.canonical current.canonical)
    then candidate.canonical
    else if not (Float.eq candidate.window.used_percent current.window.used_percent)
    then Float.lt current.window.used_percent candidate.window.used_percent
    else reset_before candidate.window.resets_at current.window.resets_at

unfoldable pub choose : WindowChoice → Option WindowChoice → Option WindowChoice
unfolding prefer_codex_window
choose candidate current = if prefer_codex_window candidate current then some candidate else current

-- The body of the loop of considerCodexSnapshot, with the fields of the window that may be nil.
unfoldable pub consider_fields :
    Round → Bool → Float64 → Option Int64 → Option Int64 → Choices → Choices
consider_fields round canonical used (some duration) (some resets_at) (five_hour, seven_day) =
    let candidate : WindowChoice = record {
      window = normalize_window round used (of_unix resets_at);
      canonical = canonical;
    } in
    if nat_eq duration five_hour_minutes
    then (choose candidate five_hour, seven_day)
    else if nat_eq duration seven_day_minutes
    then (five_hour, choose candidate seven_day)
    else (five_hour, seven_day)
consider_fields round canonical used _ _ choices = choices

unfoldable pub consider_window : Round → Bool → Option RateLimitWindow → Choices → Choices
unfolding consider_fields
consider_window round canonical none choices = choices
consider_window round canonical (some w) choices =
    consider_fields round canonical w.used_percent w.window_duration_min w.resets_at choices

unfoldable pub consider_codex_snapshot : Round → RateLimitSnapshot → Bool → Choices → Choices
consider_codex_snapshot round s canonical choices =
    consider_window round canonical s.secondary (consider_window round canonical s.primary choices)

-- The loop over `limits.RateLimitsByLimitID`.
unfoldable pub consider_by_limit_id : Round → GoMap RateLimitSnapshot → Choices → Choices
consider_by_limit_id round [] choices = choices
consider_by_limit_id round ((id, s) ∷ rest) choices =
    consider_by_limit_id round rest (consider_codex_snapshot round s false choices)

abbrev pub text_of : Option String → String
text_of none = ""
text_of (some s) = s

-- The loop of stableCodexPlan.
unfoldable pub least_plan : String → GoMap RateLimitSnapshot → String
least_plan plan [] = plan
least_plan plan ((id, s) ∷ rest) =
    least_plan
      (if text_of s.plan_type == ""
        then plan
        else if plan == "" || less (text_of s.plan_type) plan
        then text_of s.plan_type
        else plan)
      rest

unfoldable pub stable_codex_plan : RateLimitsResponse → String
stable_codex_plan limits =
    if not (text_of limits.rate_limits.plan_type == "")
    then text_of limits.rate_limits.plan_type
    else least_plan "" limits.rate_limits_by_limit_id

abbrev pub Lower : Type 0
Lower = Char → Char

-- The letters a to z and digits of a text.
unfoldable pub alphanumerics : String → String
alphanumerics String.[] = String.[]
alphanumerics (String.◌∷◌ c s) =
    let rest = alphanumerics s in
    if is_lower (code c) || is_digit (code c) then String.◌∷◌ c rest else rest

unfoldable pub compact_plan : Lower → String → String
compact_plan lower plan = alphanumerics (to_lower lower (trim_space plan))

abbrev is_pro5 : String → Bool
is_pro5 p = p == "prolite" || p == "pro5" || p == "pro5x"

abbrev is_pro20 : String → Bool
is_pro20 p = p == "pro" || p == "chatgptpro" || p == "pro20" || p == "pro20x"

unfoldable pub is_codex_pro_plan : Lower → String → Bool
is_codex_pro_plan lower plan =
    is_pro20 (compact_plan lower plan) || is_pro5 (compact_plan lower plan)

unfoldable pub canonical_codex_plan : Lower → String → String
canonical_codex_plan lower plan =
    if is_pro5 (compact_plan lower plan)
    then "pro5"
    else if is_pro20 (compact_plan lower plan)
    then "pro20"
    else trim_space plan

unfoldable pub select_codex_plan : Lower → String → String → String
select_codex_plan lower given_account given_limits =
    let account_plan = trim_space given_account in
    let rate_limits_plan = trim_space given_limits in
    if account_plan == ""
    then canonical_codex_plan lower rate_limits_plan
    else if not (rate_limits_plan == "")
        && is_codex_pro_plan lower account_plan
        && is_codex_pro_plan lower rate_limits_plan
    then canonical_codex_plan lower rate_limits_plan
    else canonical_codex_plan lower account_plan

abbrev window_of : Option WindowChoice → Option LimitWindow
window_of none = none
window_of (some c) = some c.window

abbrev pub account_state : AccountResponse → String
account_state a = elim a.account [
  | some _ ↦ "authenticated"
  | none ↦ if a.requires_openai_auth then "unauthenticated" else "not-required"
]

abbrev pub account_plan : AccountResponse → String
account_plan a = elim a.account [ some account ↦ account.plan_type | none ↦ "" ]

unfoldable pub codex_windows : Round → RateLimitsResponse → ProviderWindows
codex_windows round limits =
    let choices =
      consider_by_limit_id round limits.rate_limits_by_limit_id
        (consider_codex_snapshot round limits.rate_limits true (none, none)) in
    record { five_hour = window_of choices.0; seven_day = window_of choices.1 }

unfoldable pub normalize_codex :
    Round → Lower → AccountResponse → RateLimitsResponse → Instant → ProviderReport
normalize_codex round lower account limits observed_at = record {
  observed_at = observed_at;
  auth_state = account_state account;
  plan = select_codex_plan lower (account_plan account) (stable_codex_plan limits);
  source = "codex-app-server";
  windows = codex_windows round limits;
  error_code = "";
}

-- ===== src/Agent/Config.antt =====
-- `New` of internal/agent/agent.go: the checks of a configuration, its defaults, and the schedule
-- that the loop of `Run` derives from it.
pub mod Checked
pub mod Safe
pub mod Schedule
use codex_claude_monitor.Prelude.{
  ℕ, ◌+◌, ◌-◌, ◌*◌, ◌%◌, ◌^◌, String, Bool, true, false, not, ◌&&◌, ◌||◌, Option, none, some, List,
  [], ◌∷◌, is_none, ltb, leb, nat_eq, ◌==◌, if◌then◌else◌,
}
use Prim.Native.String
use Prim.Native.String.{len}
use Prim.Native.Char.{code}
use codex_claude_monitor.Prelude.Text.{every, is_lower, is_upper, is_digit, trim_space}
use codex_claude_monitor.Prelude.GoMap.{GoMap, insert}
use codex_claude_monitor.Prelude.Result.{Result, ok, err, ◌>>=◌, ◌>>◌, Check, pass, reject}
use codex_claude_monitor.Clock.{Duration, bias, nanos, second, minute}
use codex_claude_monitor.Model.{valid_provider}
use codex_claude_monitor.Agent.Ledger.{default_task_ttl}

pub data ConfigError : Type 0 where
  bad_agent_id token_missing bad_server_url url_credentials not_https : ConfigError
  bad_override_provider bad_override : String → ConfigError

-- The parts of a *url.URL that are used: Host is not empty, Hostname() has no port.
pub record Url : Type 0 where
  pub host : String
  pub hostname : String
  pub scheme : String
  pub has_user : Bool

-- url.Parse (`none` for an error), strings.EqualFold, and net.ParseIP with IsLoopback, which is
-- `none` for a text that is no address.
pub record Net : Type 0 where
  pub parse_url : String → Option Url
  pub equal_fold : String → String → Bool
  pub loopback_ip : String → Option Bool

pub record Config : Type 0 where
  pub agent_id : String
  pub server_url : String
  pub token : String
  pub has_ledger : Bool
  pub has_sink : Bool
  pub plan_overrides : GoMap String
  pub report_interval : Duration
  pub collect_interval : Duration
  pub max_backoff : Duration
  pub allow_insecure_http : Bool

-- What New adds: the overrides that are kept, the intervals, and the lifetime of tasks if it makes
-- the ledger.
pub record Settings : Type 0 where
  pub config : Config
  pub new_ledger_ttl : Option Duration

abbrev pub default_report_interval : Duration
default_report_interval = nanos (15 * second)

abbrev pub default_collect_interval : Duration
default_collect_interval = nanos (60 * second)

abbrev pub id_char : ℕ → Bool
id_char r =
    is_upper r || is_lower r || is_digit r || nat_eq r b'.' || nat_eq r b'_' || nat_eq r b'-'

-- ^[A-Za-z0-9._-]{1,64}$
unfoldable pub agent_id_pattern : String → Bool
unfolding every
agent_id_pattern s = leb 1 (len s) && leb (len s) 64 && every id_char s

abbrev pub override_start : String → Bool
override_start String.[] = false
override_start (String.◌∷◌ c s) = is_upper (code c) || is_lower (code c) || is_digit (code c)

-- ^[A-Za-z0-9][A-Za-z0-9._ -]{0,31}$
unfoldable pub plan_override_pattern : String → Bool
unfolding every
plan_override_pattern s =
    override_start s && leb (len s) 32 && every (λ r. id_char r || nat_eq r b' ') s

unfoldable pub is_loopback_host : Net → String → Bool
is_loopback_host net host =
    if net.equal_fold host "localhost"
    then true
    else elim (net.loopback_ip host) [ some loopback ↦ loopback | none ↦ false ]

abbrev pub check_scheme : Net → Config → Url → Check ConfigError
unfolding is_loopback_host
check_scheme net cfg u =
    reject
      (not (u.scheme == "https")
        && not (cfg.allow_insecure_http && (u.scheme == "http" && is_loopback_host net u.hostname)))
      not_https

abbrev pub check_url : Net → Config → Option Url → Check ConfigError
check_url net cfg none = err bad_server_url
check_url net cfg (some u) = do
  reject (u.host == "") bad_server_url
  reject u.has_user url_credentials
  check_scheme net cfg u

-- The checks of a configuration without a sink.
unfoldable pub check_server : Net → Config → Check ConfigError
unfolding check_scheme
check_server net cfg = do
  reject (cfg.token == "") token_missing
  check_url net cfg (net.parse_url cfg.server_url)

abbrev add_override : String → String → GoMap String → Result ConfigError (GoMap String)
unfolding insert plan_override_pattern
add_override provider plan normalized =
    if plan == ""
    then ok normalized
    else if plan_override_pattern plan
    then ok (insert provider plan normalized)
    else err (bad_override provider)

-- The loop over the overrides; `normalized` are those that are kept so far.
unfoldable pub normalize_overrides : GoMap String → GoMap String → Result ConfigError (GoMap String)
unfolding add_override valid_provider
normalize_overrides [] normalized = ok normalized
normalize_overrides ((provider, raw_plan) ∷ rest) normalized =
    reject (not (valid_provider provider)) (bad_override_provider provider)
    >> (add_override provider (trim_space raw_plan) normalized >>= normalize_overrides rest)

abbrev positive_or : Duration → Duration → Duration
positive_or given fallback = if leb given bias then fallback else given

unfoldable pub with_defaults : Config → Config
with_defaults cfg = record cfg {
  report_interval = positive_or cfg.report_interval default_report_interval;
  collect_interval = positive_or cfg.collect_interval default_collect_interval;
  max_backoff = positive_or cfg.max_backoff (nanos (2 * minute));
}

unfoldable pub new_agent : Net → Config → Result ConfigError Settings
unfolding agent_id_pattern check_server normalize_overrides with_defaults
new_agent net cfg =
    reject (not (agent_id_pattern cfg.agent_id)) bad_agent_id
    >> ((if cfg.has_sink then pass else check_server net cfg)
        >> (normalize_overrides cfg.plan_overrides [] >>= λ overrides. ok (record {
          config = record (with_defaults cfg) { plan_overrides = overrides };
          new_ledger_ttl = if cfg.has_ledger then none else some default_task_ttl;
        })))

-- 2 * d of an int64
abbrev pub double : Duration → Duration
double d = (2 * d + bias) % 2 ^ 64

-- The backoff after a failed report.
unfoldable pub next_backoff : Duration → Duration → Duration
next_backoff max_backoff backoff =
    if ltb max_backoff (double backoff) then max_backoff else double backoff

unfoldable pub successful_report_delay : Duration → Duration → Duration
successful_report_delay interval elapsed =
    if leb interval elapsed then nanos 0 else (interval + 2 ^ 64 - elapsed + bias) % 2 ^ 64

-- What the report timer is reset to after an attempt, and the backoff after it.
unfoldable pub report_attempted : Config → Bool → Duration → Duration → Duration × Duration
unfolding next_backoff successful_report_delay
report_attempted cfg failed elapsed backoff =
    if failed
    then (backoff, next_backoff cfg.max_backoff backoff)
    else (successful_report_delay cfg.report_interval elapsed, cfg.report_interval)

-- ===== src/Server/Http.antt =====
-- The handlers of internal/server/server.go over the database and the limiter.
--
-- What the code takes from the libraries is a parameter (`Library`). One request is one step, with
-- the readings of the clock it makes; `busy` says how many other requests are in the part that
-- `authSlots` bounds. A response is its status, its error code and its payload; the message texts
-- are left out.
pub mod Auth
pub mod Handlers
pub mod Authorized
pub mod Health
use Prim.Native.String
use Prim.Native.String.{len}
use codex_claude_monitor.Prelude.{
  ℕ, ◌+◌, ◌-◌, ◌*◌, ◌/◌, String, Bool, true, false, not, ◌&&◌, ◌||◌, Option, none, some, List, [],
  ◌∷◌, ltb, leb, nat_eq, ◌==◌, if◌then◌else◌,
}
use codex_claude_monitor.Prelude.Text.{fields, trim_space}
use codex_claude_monitor.Prelude.Result.{Result, ok, err, Check}
use codex_claude_monitor.Clock.{
  Instant, Duration, second, minute, bias, nanos, is_zero, before, sub,
}
use codex_claude_monitor.Float.{Round}
use codex_claude_monitor.Model.{AgentReport, DisplaySnapshot}
use codex_claude_monitor.Server.Limiter.{
  FixedWindowLimiter, Verdict, allow, new_fixed_window_limiter,
}
use codex_claude_monitor.Server.Validate.{ReportError, validate_agent_report}
use codex_claude_monitor.Store.Db.{Db, StoreError, Faults, stale_report}
use codex_claude_monitor.Store.Tokens.{
  TokenRecord, scope_agent_write, scope_display_read, authenticate_token,
}
use codex_claude_monitor.Store.Report.{Encode, replace_agent_report}
use codex_claude_monitor.Store.Snapshot.{Decode, build_display_snapshot}

pub record Library : Type 0 where
  -- strings.EqualFold
  pub equal_fold : String → String → Bool
  -- The host of net.SplitHostPort, `none` for an error.
  pub split_host : String → Option String
  -- SHA-256 as the store writes it, and the hexadecimal digits of its first 12 bytes.
  pub sha256 : String → String
  pub fingerprint : String → String
  pub encode : Encode
  pub decode : Decode
  pub round : Round

pub record Config : Type 0 where
  pub agent_requests_per_minute : ℕ
  pub display_requests_per_minute : ℕ
  pub auth_attempts_per_minute : ℕ
  pub global_auth_attempts_per_minute : ℕ
  pub concurrent_auth : ℕ

-- The state of a Server, with the database that its store opens.
pub record Server : Type 0 where
  pub limiter : FixedWindowLimiter
  pub db : Db
  pub health_checked_at : Instant
  pub health_failed : Bool
  -- How often the database was asked whether it answers.
  pub pings : ℕ

pub data Payload : Type 0 where
  nothing status_ok : Payload
  snapshot_body : DisplaySnapshot → Payload

pub record Response : Type 0 where
  pub status : ℕ
  pub code : String
  pub retry_after : Option ℕ
  pub payload : Payload

-- How the body of a report is read: it is longer than 64 KiB, no such JSON object, followed by
-- another value, or a report.
pub data Body : Type 0 where
  body_too_large invalid_json additional_json : Body
  decoded : AgentReport → Body

pub record Request : Type 0 where
  pub authorization : String
  pub remote_addr : String
  pub body : Body
  -- The clock at the start, in the store when the token is found, after the token is checked, and in
  -- the handler.
  pub now : Instant
  pub store_now : Instant
  pub checked_at : Instant
  pub handled_at : Instant
  pub busy : ℕ
  -- The database calls that fail, of the token's check and of the handler.
  pub auth_fails : Faults
  pub fails : Faults

abbrev default_to : ℕ → ℕ → ℕ
default_to given fallback = if nat_eq given 0 then fallback else given

-- The limits of New; a limit that is not positive counts as 0 here.
unfoldable pub with_defaults : Config → Config
with_defaults cfg = record {
  agent_requests_per_minute = default_to cfg.agent_requests_per_minute 120;
  display_requests_per_minute = default_to cfg.display_requests_per_minute 120;
  auth_attempts_per_minute = default_to cfg.auth_attempts_per_minute 240;
  global_auth_attempts_per_minute = default_to cfg.global_auth_attempts_per_minute 6000;
  concurrent_auth = default_to cfg.concurrent_auth 8;
}

abbrev pub write_error : ℕ → String → Response
write_error status code = record {
  status = status;
  code = code;
  retry_after = none;
  payload = nothing;
}

abbrev pub rate_limited : ℕ → Response
rate_limited seconds = record {
  status = 429;
  code = "rate_limited";
  retry_after = some seconds;
  payload = nothing;
}

abbrev pub unauthorized : Response
unauthorized = write_error 401 "unauthorized"

-- ===== src/Server/Http/Handlers.antt =====
-- The handlers of reports, snapshots and health checks of internal/server/server.go.
use codex_claude_monitor.Prelude.{◌+◌, Bool, true, false, ◌||◌, none, leb, ◌==◌, if◌then◌else◌}
use codex_claude_monitor.Prelude.Result.{Result, ok, err, Check}
use codex_claude_monitor.Clock.{Instant, second, nanos, is_zero, before, sub}
use codex_claude_monitor.Model.{AgentReport, DisplaySnapshot}
use codex_claude_monitor.Server.Validate.{ReportError, validate_agent_report}
use codex_claude_monitor.Store.Db.{StoreError, stale_report}
use codex_claude_monitor.Store.Tokens.{TokenRecord, scope_agent_write, scope_display_read}
use codex_claude_monitor.Store.Report.{replace_agent_report}
use codex_claude_monitor.Store.Snapshot.{build_display_snapshot}
use codex_claude_monitor.Server.Http.{
  Library, Config, Server, nothing, status_ok, snapshot_body, Response, Body, body_too_large,
  invalid_json, additional_json, decoded, Request, write_error,
}
use codex_claude_monitor.Server.Http.Auth.{Authentication, authenticate}

abbrev pub stored : Result StoreError (Unit {0}) → Response
stored (ok tt) = record { status = 204; code = ""; retry_after = none; payload = nothing }
stored (err stale_report) = write_error 409 "stale_report"
stored (err e) = write_error 500 "storage_error"

module _ (lib : Library) (cfg : Config) (req : Request) where
  unfoldable pub judged : AgentReport → Check ReportError → Server → Response × Server
  unfolding replace_agent_report
  judged report (err e) s = (write_error 400 "invalid_report", s)
  judged report (ok _) s =
      let (outcome, db) = replace_agent_report lib.encode req.fails report req.handled_at s.db in
      (stored outcome, record s { db = db })

  -- The report of an authenticated agent.
  unfoldable pub store_report : TokenRecord → AgentReport → Server → Response × Server
  unfolding validate_agent_report judged
  store_report token report s =
      if token.agent_id == report.agent_id
      then judged report (validate_agent_report lib.round report req.handled_at) s
      else (write_error 403 "agent_mismatch", s)

  unfoldable pub read_body : TokenRecord → Body → Server → Response × Server
  unfolding store_report
  read_body token body_too_large s = (write_error 413 "body_too_large", s)
  read_body token invalid_json s = (write_error 400 "invalid_json", s)
  read_body token additional_json s = (write_error 400 "invalid_json", s)
  read_body token (decoded report) s = store_report token report s

  abbrev pub after_authentication :
      (TokenRecord → Server → Response × Server) → Authentication → Response × Server
  after_authentication handler (err response, s) = (response, s)
  after_authentication handler (ok token, s) = handler token s

  unfoldable pub handle_agent_report : Server → Response × Server
  unfolding authenticate read_body
  handle_agent_report s =
      after_authentication (λ token. read_body token req.body)
        (authenticate lib cfg scope_agent_write cfg.agent_requests_per_minute req s)

  abbrev pub snapshot_response : Result StoreError DisplaySnapshot → Response
  snapshot_response (err e) = write_error 500 "storage_error"
  snapshot_response (ok shown) = record {
    status = 200;
    code = "";
    retry_after = none;
    payload = snapshot_body shown;
  }

  unfoldable pub handle_display_snapshot : Server → Response × Server
  unfolding authenticate build_display_snapshot
  handle_display_snapshot s =
      after_authentication
        (λ token s'. (
          snapshot_response (build_display_snapshot lib.decode req.fails req.handled_at s'.db),
          s',
        ))
        (authenticate lib cfg scope_display_read cfg.display_requests_per_minute req s)

-- Whether a health request asks the database.
abbrev pub check_due : Instant → Server → Bool
check_due now s =
    is_zero s.health_checked_at
    || leb (nanos second) (sub now s.health_checked_at)
    || before now s.health_checked_at

abbrev pub health_response : Bool → Response
health_response true = write_error 503 "unhealthy"
health_response false = record { status = 200; code = ""; retry_after = none; payload = status_ok }

-- `s.store.Ping`, of which `fails` says whether it fails; the state counts the calls.
abbrev pub ping : Bool → Server → Bool × Server
ping fails s = (fails, record s { pings = s.pings + 1 })

-- `ping_fails` says what the database would answer.
unfoldable pub handle_health : Instant → Bool → Server → Response × Server
handle_health now ping_fails s =
    if check_due now s
    then (let (failed, s') = ping ping_fails s in
        (health_response failed, record s' { health_failed = failed; health_checked_at = now }))
    else (health_response s.health_failed, s)

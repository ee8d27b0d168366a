-- ===== src/Agent/Ingest.antt =====
-- internal/agent/hookserver.go: the handlers of the local hook server, over the ledger and the stored
-- reports. A response is its status.
use codex_claude_monitor.Prelude.{
  ℕ, zero, suc, String, Bool, not, ◌&&◌, ◌||◌, Option, ◌==◌, if◌then◌else◌,
}
use codex_claude_monitor.Prelude.Text.{trim_space, has_prefix}
use codex_claude_monitor.Prelude.Result.{Result, ok, err}
use codex_claude_monitor.Clock.{Instant}
use codex_claude_monitor.Float.{Round}
use codex_claude_monitor.Json.{Json}
use codex_claude_monitor.Model.{ProviderReport, provider_codex, provider_claude}
use codex_claude_monitor.Hooks.{Event}
use codex_claude_monitor.Collector.Claude.{Library, ClaudeError, parse_claude_status_line}
use codex_claude_monitor.Agent.Ledger.{Ledger, apply}
use codex_claude_monitor.Agent.Loop.{Agent, ingest_status_line}

-- What the handlers change: IngestStatusLine is the StatusLine of the configuration.
pub record Local : Type 0 where
  pub ledger : Ledger
  pub agent : Agent

-- How the body of an event is read.
pub data EventBody : Type 0 where
  event_too_large event_invalid more_values : EventBody
  decoded : Event → EventBody

-- The body of a status line, as decoded.
pub data StatusBody : Type 0 where
  status_too_large : StatusBody
  payload : Option Json → StatusBody

pub record Headers : Type 0 where
  pub authorization : String
  pub x_quota_monitor_secret : String

abbrev drop_chars : ℕ → String → String
drop_chars zero s = s
drop_chars (suc n) String.[] = String.[]
drop_chars (suc n) (String.◌∷◌ c s) = drop_chars n s

-- strings.TrimPrefix(s, "Bearer ")
abbrev without_bearer : String → String
without_bearer s = if has_prefix s "Bearer " then drop_chars 7 s else s

abbrev pub provided_secret : Headers → String
provided_secret headers =
    let bearer = trim_space (without_bearer headers.authorization) in
    if bearer == "" then headers.x_quota_monitor_secret else bearer

-- `sha256` is SHA-256; the digests are compared.
unfoldable pub valid_local_secret : (String → String) → Headers → String → Bool
valid_local_secret sha256 headers secret = sha256 secret == sha256 (provided_secret headers)

abbrev refused_event : Event → Bool
refused_event e =
    e.probe
    || e.session_id == ""
    || (not (e.provider == provider_codex) && not (e.provider == provider_claude))

abbrev pub take_event : Instant → EventBody → Local → ℕ × Local
unfolding apply
take_event now event_too_large s = (413, s)
take_event now event_invalid s = (400, s)
take_event now more_values s = (400, s)
take_event now (decoded e) s =
    if refused_event e then (400, s) else (204, record s { ledger = apply s.ledger now e })

unfoldable pub handle_event :
    (String → String) → String → Headers → Instant → EventBody → Local → ℕ × Local
unfolding valid_local_secret take_event
handle_event sha256 secret headers now body s =
    if valid_local_secret sha256 headers secret then take_event now body s else (401, s)

abbrev pub take_report : Result ClaudeError ProviderReport → Local → ℕ × Local
unfolding ingest_status_line
take_report (err e) s = (400, s)
take_report (ok report) s = (204, record s { agent = ingest_status_line report s.agent })

abbrev pub take_status : Round → Library → Instant → StatusBody → Local → ℕ × Local
unfolding take_report parse_claude_status_line
take_status round json now status_too_large s = (413, s)
take_status round json now (payload p) s = take_report (parse_claude_status_line round json p now) s

unfoldable pub handle_status_line :
    (String → String)
    → String
    → Headers
    → Round
    → Library
    → Instant
    → StatusBody
    → Local
    → ℕ × Local
unfolding valid_local_secret take_status
handle_status_line sha256 secret headers round json now body s =
    if valid_local_secret sha256 headers secret then take_status round json now body s else (401, s)

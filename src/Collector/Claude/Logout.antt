-- ===== src/Collector/Claude/Logout.antt =====
-- `ClaudeCollector.Collect` of internal/collector/claude.go.
pub mod Confirmed
use codex_claude_monitor.Prelude.{
  ℕ, suc, ◌+◌, ◌<◌, ◌%◌, ◌^◌, String, Bool, true, false, ◌&&◌, Option, none, some, List, [], ◌∷◌,
  length, leb, ltb, is_none, ◌==◌, if◌then◌else◌, ◌≡◌, arith, refl, ap, ◌∙◌, inl, inr, Bool-cases,
  subst,
}
use codex_claude_monitor.Prelude.Result.{Result, ok, err}
use codex_claude_monitor.Clock.{Instant}
use codex_claude_monitor.Json.{Json}
use codex_claude_monitor.Model.{ProviderReport}
use codex_claude_monitor.Collector.Window.{unavailable_report}
use codex_claude_monitor.Collector.Claude.{
  ClaudeError, command_failed, logout_unconfirmed, parse_claude_auth_status,
}

abbrev pub logout_confirmations : ℕ
logout_confirmations = 2

-- What the two commands answer: the output of `claude auth status` as decoded, with whether the
-- command failed, and what ParseClaudeUsage makes of the output of `claude -p /usage`, `none` if
-- that command failed.
pub record Answers : Type 0 where
  pub auth_output : Option Json
  pub auth_failed : Bool
  pub usage : Option (Result ClaudeError ProviderReport)

-- A Go int in two's complement.
pub record Collector : Type 0 where
  pub consecutive_logged_out : ℕ

abbrev pub new_claude : Collector
new_claude = record { consecutive_logged_out = 0 }

-- The report and the error that are returned.
abbrev pub Outcome : Type 0
Outcome = ProviderReport × Option ClaudeError

unfoldable pub confirm_logged_out : Collector → Bool × Collector
confirm_logged_out c =
    let n = (c.consecutive_logged_out + 1) % 2 ^ 64 in
    (leb logout_confirmations n && ltb n (2 ^ 63), record { consecutive_logged_out = n })

unfoldable pub reset_logout_confirmation : Collector → Collector
reset_logout_confirmation c = record { consecutive_logged_out = 0 }

abbrev pub status_unavailable : Instant → String → ProviderReport
status_unavailable now code = unavailable_report now "claude-auth-status" code

abbrev pub with_auth : ProviderReport → ProviderReport → ProviderReport
with_auth auth usage = record usage {
  auth_state = auth.auth_state;
  plan = if usage.plan == "" then auth.plan else usage.plan;
}

unfoldable pub finish_usage : ProviderReport → Option (Result ClaudeError ProviderReport) → Outcome
finish_usage auth none = (
  record auth { error_code = "usage_command_failed"; source = "claude-auth-status" },
  some command_failed,
)
finish_usage auth (some (err e)) = (record auth { error_code = "usage_parse_failed" }, some e)
finish_usage auth (some (ok usage)) = (with_auth auth usage, none)

abbrev pub unparsed : Instant → Bool → ClaudeError → Outcome
unparsed now failed e =
    if failed
    then (status_unavailable now "auth_status_failed", some command_failed)
    else (status_unavailable now "auth_status_invalid", some e)

abbrev pub logged_out : Instant → ProviderReport → Bool → Outcome
logged_out now auth confirmed =
    if confirmed
    then (record auth { error_code = "not_authenticated" }, none)
    else (status_unavailable now "auth_logout_unconfirmed", some logout_unconfirmed)

abbrev pub logged_in : Instant → ProviderReport → Answers → Outcome
unfolding finish_usage
logged_in now auth answers =
    if answers.auth_failed
    then (status_unavailable now "auth_status_failed", some command_failed)
    else finish_usage auth answers.usage

unfoldable pub collect_with :
    Instant → Answers → Collector → Result ClaudeError ProviderReport → Outcome × Collector
unfolding confirm_logged_out reset_logout_confirmation
collect_with now answers c (err e) =
    (unparsed now answers.auth_failed e, reset_logout_confirmation c)
collect_with now answers c (ok auth) =
    if auth.auth_state == "authenticated"
    then (logged_in now auth answers, reset_logout_confirmation c)
    else (logged_out now auth (confirm_logged_out c).0, (confirm_logged_out c).1)

unfoldable pub collect : Instant → Answers → Collector → Outcome × Collector
unfolding collect_with
collect now answers c =
    collect_with now answers c (parse_claude_auth_status now answers.auth_output)

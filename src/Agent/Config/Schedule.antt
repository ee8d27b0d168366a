-- ===== src/Agent/Config/Schedule.antt =====
-- When a failed report is tried again (the loop of `run` in internal/agent/agent.go).
use codex_claude_monitor.Prelude.{
  ℕ, zero, suc, ◌*◌, ◌^◌, ◌≤◌, ◌<◌, ◌-◌, min, true, false, ◌≡◌, sym, ap, ◌∙◌, arith,
}
use native.Mathlib.Nat.{pow-suc, mul_assoc}
use codex_claude_monitor.Clock.{Duration, bias, nanos}
use codex_claude_monitor.Agent.Config.{
  Config, next_backoff, successful_report_delay, report_attempted,
}

-- The backoff after a number of failures in a row.
abbrev pub backoff_after : Config → ℕ → Duration
unfolding report_attempted
backoff_after cfg zero = cfg.report_interval
backoff_after cfg (suc n) = (report_attempted cfg true (nanos 0) (backoff_after cfg n)).1

-- The delay after the failure that follows `n` failures in a row, in nanoseconds.
abbrev pub retry_delay : Config → ℕ → ℕ
unfolding report_attempted
retry_delay cfg n = (report_attempted cfg true (nanos 0) (backoff_after cfg n)).0 - bias

next_backoff-eq :
    (limit d : ℕ)
    → d ≤ limit
    → limit < 2 ^ 62
    → next_backoff (nanos limit) (nanos d) ≡ nanos (min limit (2 * d))
unfolding next_backoff
next_backoff-eq limit d le small = ground arith

min-double : (limit d : ℕ) → min limit (2 * min limit d) ≡ min limit (2 * d)
min-double limit d = ground arith

backoff_after-eq :
    (cfg : Config) (interval limit n : ℕ)
    → cfg.report_interval ≡ nanos interval
    → cfg.max_backoff ≡ nanos limit
    → interval ≤ limit
    → limit < 2 ^ 62
    → backoff_after cfg n ≡ nanos (min limit (2 ^ n * interval))
unfolding backoff_after report_attempted
backoff_after-eq cfg interval limit zero e f le small = ground (arith, e)
backoff_after-eq cfg interval limit (suc n) e f le small =
    let ih = backoff_after-eq cfg interval limit n e f le small in
    rw (f, ih)
      (next_backoff-eq limit (min limit (2 ^ n * interval)) (ground arith) small
        ∙ ap nanos (min-double limit (2 ^ n * interval))
        ∙ ap (λ k. nanos (min limit k))
            (sym (mul_assoc 2 (2 ^ n) interval)
              ∙ ap (λ p. p * interval) (omega (arith, pow-suc 2 n))))

-- The retry after `n + 1` failures in a row waits for the interval doubled `n` times, and never
-- longer than the limit, if the interval is within the limit and the limit below 2^62 nanoseconds.
pub retry_delay-eq :
    (cfg : Config) (interval limit n : ℕ)
    → cfg.report_interval ≡ nanos interval
    → cfg.max_backoff ≡ nanos limit
    → interval ≤ limit
    → limit < 2 ^ 62
    → retry_delay cfg n ≡ min limit (2 ^ n * interval)
unfolding retry_delay report_attempted
retry_delay-eq cfg interval limit n e f le small =
    ap (λ d. d - bias) (backoff_after-eq cfg interval limit n e f le small) ∙ omega arith

-- A successful report sets the next one exactly one interval after its own start, or at once if it
-- took longer than that, and the backoff back to the interval.
pub successful_attempt :
    (cfg : Config) (interval elapsed : ℕ) (backoff : Duration)
    → cfg.report_interval ≡ nanos interval
    → interval < 2 ^ 62
    → elapsed < 2 ^ 62
    → report_attempted cfg false (nanos elapsed) backoff
      ≡ (nanos (interval - elapsed), nanos interval)
unfolding report_attempted successful_report_delay
successful_attempt cfg interval elapsed backoff e small short = rw e (ground arith)

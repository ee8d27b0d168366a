-- ===== src/Collector/Codex/Rpc/Life.antt =====
-- When a collection leaves the app-server running (`CodexCollector.Collect` of
-- internal/collector/codex.go).
use mathlib.Core.Bool.{false≢true}
use codex_claude_monitor.Prelude.{
  eq_iff, String, ◌≡◌, ◌≢◌, ◌⊎◌, refl, sym, ◌∙◌, inl, inr, Bool, true, false, Option, none, some,
  arith, ◌==◌, Bool-cases, Option-cases,
}
use codex_claude_monitor.Float.{Round}
use codex_claude_monitor.Collector.Codex.{
  Lower, AccountResponse, RateLimitsResponse, normalize_codex, account_state,
}
use codex_claude_monitor.Collector.Codex.Rpc.{
  CollectError, Replies, Client, Outcome, is_refreshable_auth_error, ensure_started, received,
  reset_and_wait, finish_limits, logged_out, finish_account, collect_attempt, conclude, retry,
  collect, is_logged_out,
}

-- An outcome with no error that does not ask for a login.
abbrev pub Healthy : Outcome → Type 0
Healthy out = (out.1 ≡ none) × (out.0.auth_state ≢ "unauthenticated")

-- The app-server is stopped, or the outcome is healthy.
abbrev StoppedOrHealthy : Outcome × Client → Type 0
StoppedOrHealthy (out, c) = (c.running ≡ false) ⊎ Healthy out

reset_and_wait-stops :
    (replies : Replies) (c : Client) → (reset_and_wait replies c).1.running ≡ false
unfolding reset_and_wait
reset_and_wait-stops replies c = ground arith

logged_out-stops : (replies : Replies) (c : Client) → (logged_out replies c).1.running ≡ false
unfolding logged_out
logged_out-stops replies c = reset_and_wait-stops replies c

state_cases :
    (a : AccountResponse)
    → is_logged_out a ≡ false
    → (account_state a ≡ "authenticated") ⊎ (account_state a ≡ "not-required")
state_cases a h = elim (Option-cases a.account) [
  | inl absent ↦ elim (Bool-cases a.requires_openai_auth) [
    | inl needs ↦ absurd (ground (arith, absent, needs))
    | inr free ↦ inr (ground (arith, absent, free))
  ]
  | inr (account, present) ↦ inl (ground (arith, present))
]

differ : (s t : String) → (s == t) ≡ false → s ≢ t
differ s t h e = false≢true (sym h ∙ (eq_iff s t).1 e)

state_ne : (a : AccountResponse) → is_logged_out a ≡ false → account_state a ≢ "unauthenticated"
state_ne a h e = elim (state_cases a h) [
  | inl here ↦ differ "authenticated" "unauthenticated" refl (sym here ∙ e)
  | inr here ↦ differ "not-required" "unauthenticated" refl (sym here ∙ e)
]

module _ (round : Round) (lower : Lower) (replies : Replies) where
  finish_limits-Healthy :
      (account : AccountResponse) (r : (Option CollectError × Option RateLimitsResponse) × Client)
      → is_logged_out account ≡ false
      → (finish_limits round lower replies account r).0.1 ≡ none
      → Healthy (finish_limits round lower replies account r).0
  unfolding finish_limits normalize_codex
  finish_limits-Healthy account ((e, some limits), c) h done = (refl, state_ne account h)
  finish_limits-Healthy account ((some e, none), c) h done = cc
  finish_limits-Healthy account ((none, none), c) h done = cc

  finish_account-StoppedOrHealthy :
      (r : (Option CollectError × Option AccountResponse) × Client)
      → (finish_account round lower replies r).0.1 ≡ none
      → StoppedOrHealthy (finish_account round lower replies r)
  unfolding finish_account
  finish_account-StoppedOrHealthy ((e, some account), c) done =
      elim (Bool-cases (is_logged_out account)) [
        | inl gone ↦ rw gone (inl (logged_out-stops replies c))
        | inr stays ↦ rw stays (
            inr (
              finish_limits-Healthy account (received (replies.limits c.next) c) stays
                (rw stays at done)))
      ]
  finish_account-StoppedOrHealthy ((some e, none), c) done = cc
  finish_account-StoppedOrHealthy ((none, none), c) done = cc

  collect_attempt-StoppedOrHealthy :
      (refresh : Bool) (c : Client)
      → (collect_attempt round lower replies refresh c).0.1 ≡ none
      → StoppedOrHealthy (collect_attempt round lower replies refresh c)
  unfolding collect_attempt
  collect_attempt-StoppedOrHealthy refresh c done =
      elim (Option-cases (ensure_started replies c).0) [
        | inl started ↦
            rw (started, collect_attempt)
              (finish_account-StoppedOrHealthy _ (rw (started, collect_attempt) at done))
        | inr (e, down) ↦ absurd (ground (arith, rw (down, collect_attempt) at done))
      ]

  conclude-StoppedOrHealthy :
      (r : Outcome × Client)
      → (r.0.1 ≡ none → StoppedOrHealthy r)
      → StoppedOrHealthy (conclude lower replies r)
  unfolding conclude
  conclude-StoppedOrHealthy ((report, none), c) h = h refl
  conclude-StoppedOrHealthy ((report, some e), c) h = inl (reset_and_wait-stops replies c)

  retry-StoppedOrHealthy :
      (r : Outcome × Client)
      → (r.0.1 ≡ none → StoppedOrHealthy r)
      → StoppedOrHealthy (retry round lower replies r)
  unfolding retry
  retry-StoppedOrHealthy ((report, none), c) h = h refl
  retry-StoppedOrHealthy ((report, some e), c) h =
      let stops = reset_and_wait-stops replies c in
      let again =
        conclude-StoppedOrHealthy _
          (collect_attempt-StoppedOrHealthy true (reset_and_wait replies c).1) in
      elim (Option-cases (reset_and_wait replies c).0) [
        | inr (stuck, e1) ↦ rw (e1, retry) (inl stops)
        | inl waited ↦ elim (Bool-cases (is_refreshable_auth_error lower e)) [
          | inl expired ↦ rw (waited, expired, retry) again
          | inr final ↦ rw (waited, final, retry) (inl stops)
        ]
      ]

  -- A collection leaves the app-server running only with an outcome that has no error and does not
  -- ask for a login: after every failure, and after a logout, the next collection starts afresh.
  pub collect-StoppedOrHealthy :
      (c : Client)
      → ((collect round lower replies c).1.running ≡ false)
        ⊎ Healthy (collect round lower replies c).0
  unfolding collect
  collect-StoppedOrHealthy c =
      retry-StoppedOrHealthy (collect_attempt round lower replies false c)
        (collect_attempt-StoppedOrHealthy false c)

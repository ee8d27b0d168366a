-- ===== src/Server/Limiter.antt =====
-- `fixedWindowLimiter` of internal/server/server.go. The mutex makes each call of `Allow` one step.
pub mod Window
use codex_claude_monitor.Prelude.{
  ℕ, ◌+◌, ◌*◌, ◌-◌, String, Bool, true, false, not, ◌||◌, Option, none, some, ltb, leb, length,
  keep, if◌then◌else◌, [],
}
use codex_claude_monitor.Prelude.GoMap.{GoMap, lookup, insert}
use codex_claude_monitor.Clock.{Instant, Duration, before, add, sub, nanos, bias}

pub record FixedWindowEntry : Type 0 where
  pub start : Instant
  pub hits : ℕ

pub record FixedWindowLimiter : Type 0 where
  pub window : Duration
  pub entries : GoMap FixedWindowEntry

-- What `Allow` returns, and the limiter that it leaves.
pub record Verdict : Type 0 where
  pub allowed : Bool
  pub retry_after : Duration
  pub limiter : FixedWindowLimiter

abbrev pub new_fixed_window_limiter : Duration → FixedWindowLimiter
new_fixed_window_limiter window = record { window = window; entries = [] }

-- The entries that `prune` deletes: `2*l.window` is twice the duration under the bias.
abbrev pub prunable : Duration → Instant → FixedWindowEntry → Bool
prunable window now entry =
    leb (nanos (2 * (window - bias))) (sub now entry.start) || before now entry.start

unfoldable pub prune : FixedWindowLimiter → Instant → FixedWindowLimiter
prune l now =
    if ltb (length l.entries) 4096
    then l
    else record l { entries = keep (λ e. not (prunable l.window now e.1)) l.entries }

-- `!ok || now.Sub(entry.start) >= l.window || now.Before(entry.start)`
abbrev pub expired : Duration → Instant → FixedWindowEntry → Bool
expired window now entry = leb window (sub now entry.start) || before now entry.start

unfoldable pub restart_window : FixedWindowLimiter → String → Instant → Verdict
restart_window l key now = record {
  allowed = true;
  retry_after = nanos 0;
  limiter =
      prune (record l { entries = insert key (record { start = now; hits = 1 }) l.entries }) now;
}

unfoldable pub count_hit : FixedWindowLimiter → String → Instant → ℕ → FixedWindowEntry → Verdict
unfolding restart_window
count_hit l key now limit entry =
    if expired l.window now entry
    then restart_window l key now
    else if leb limit entry.hits
    then record { allowed = false; retry_after = sub (add entry.start l.window) now; limiter = l }
    else record {
      allowed = true;
      retry_after = nanos 0;
      limiter = record l {
        entries = insert key (record entry { hits = entry.hits + 1 }) l.entries;
      };
    }

unfoldable pub allow : FixedWindowLimiter → String → Instant → ℕ → Verdict
unfolding restart_window count_hit
allow l key now limit = elim (lookup key l.entries) [
  | none ↦ restart_window l key now
  | some entry ↦ count_hit l key now limit entry
]

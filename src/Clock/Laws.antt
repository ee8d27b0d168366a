-- ===== src/Clock/Laws.antt =====
-- Facts about instants, durations and their int64 counts.
use codex_claude_monitor.Prelude.{ℕ, ◌+◌, ◌≤◌, ◌<◌, ◌≡◌, true, leb, arith}
use codex_claude_monitor.Clock.{Instant, bias, unix_epoch, unix_nano, of_unix_nano, sub, nanos}

-- The instants whose count of nanoseconds since 1970 fits into an int64.
pub record InRange (t : Instant) : Type 0 where
  pub low : unix_epoch ≤ t + bias
  pub high : t < unix_epoch + bias

pub of_unix_nano-unix_nano : (t : Instant) → InRange t → of_unix_nano (unix_nano t) ≡ t
of_unix_nano-unix_nano t h = omega arith

pub unix_nano_mono : (t u : Instant) → InRange t → InRange u → t < u → unix_nano t < unix_nano u
unix_nano_mono t u h k lt = omega arith

pub leb-sub : (t u w : ℕ) → 0 < w → w < bias → u + w ≤ t → leb (nanos w) (sub t u) ≡ true
leb-sub t u w p q h = ground arith

-- ===== src/Clock.antt =====
-- Go's `time` package, as far as the program uses it.
--
-- An `Instant` is a `time.Time` in UTC: the nanoseconds since the beginning of the year
-- -292277022399, the "absolute" zero of Go's implementation, so that no instant is negative and
-- the zero `Time` (year 1) is the constant `zero_time`.
-- A `Duration` is a Go `time.Duration`, and a `UnixNano` is the int64 of `Time.UnixNano`. Both are
-- kept with 2^63 added, so that the order of the numbers is that of the signed integers.
pub mod Laws
use codex_claude_monitor.Prelude.{ℕ, ◌+◌, ◌-◌, ◌*◌, ◌%◌, ◌^◌, Bool, min, ltb, nat_eq}

abbrev pub Instant : Type 0
Instant = ℕ

abbrev pub Duration : Type 0
Duration = ℕ

abbrev pub UnixNano : Type 0
UnixNano = ℕ

abbrev pub bias : ℕ
bias = 2 ^ 63

abbrev pub nanos : ℕ → Duration
nanos n = n + bias

abbrev pub second : ℕ
second = 10 ^ 9

abbrev pub minute : ℕ
minute = 60 * second

abbrev pub zero_time : Instant
zero_time = 9223371966579724800 * second

abbrev pub unix_epoch : Instant
unix_epoch = zero_time + 62135596800 * second

-- t.IsZero()
abbrev pub is_zero : Instant → Bool
is_zero t = nat_eq t zero_time

-- t.Before(u)
abbrev pub before : Instant → Instant → Bool
before t u = ltb t u

-- t.After(u)
abbrev pub after : Instant → Instant → Bool
after t u = ltb u t

-- t.Add(d)
abbrev pub add : Instant → Duration → Instant
add t d = t + d - bias

-- -d
abbrev pub neg : Duration → Duration
neg d = 2 ^ 64 - d

-- t.Sub(u), which saturates: the truncated subtraction stops at the least int64.
abbrev pub sub : Instant → Instant → Duration
sub t u = min (2 ^ 64 - 1) (t + bias - u)

-- t.UnixNano(), which wraps around outside the years 1678 to 2262. The multiple of 2^64 keeps the
-- difference positive.
abbrev pub unix_nano : Instant → UnixNano
unix_nano t = (t + bias + 2 ^ 64 * 10 ^ 9 - unix_epoch) % 2 ^ 64

-- time.Unix(0, n)
abbrev pub of_unix_nano : UnixNano → Instant
of_unix_nano n = n + unix_epoch - bias

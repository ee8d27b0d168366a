-- ===== src/Float.antt =====
-- Go's float64, as far as the program uses it: comparisons, negation of NaN and infinities, sums
-- and differences.
--
-- A finite value is a whole number of the least positive float64, 2^-1074, so comparisons are
-- exact. The two zeros are one value. How a sum or a difference is rounded to a float64 is not
-- code of the program: `Rounding` states what IEEE 754 promises, and the functions that add take
-- the rounding as an argument.
use codex_claude_monitor.Prelude.{
  ℕ, ◌+◌, ◌-◌, ◌*◌, ◌^◌, ◌≤◌, ◌≡◌, Bool, true, false, ltb, nat_eq, leb, if◌then◌else◌, zero, suc,
  refl, arith,
}

-- A signed whole number; `negsuc n` is -(n + 1).
pub data ℤ : Type 0 where
  pos : ℕ → ℤ
  negsuc : ℕ → ℤ

pub data Float64 : Type 0 where
  nan neg_inf pos_inf : Float64
  fin : ℤ → Float64

-- The number of units of 2^-1074 in 1.
abbrev pub one : ℕ
one = 2 ^ 1074

abbrev pub hundred : ℕ
hundred = 100 * one

abbrev pub pos_part : ℤ → ℕ
pos_part (pos n) = n
pos_part (negsuc n) = 0

abbrev pub neg_part : ℤ → ℕ
neg_part (pos n) = 0
neg_part (negsuc n) = suc n

-- a - b
abbrev pub sub_ℕ : ℕ → ℕ → ℤ
sub_ℕ a b = if leb b a then pos (a - b) else negsuc (b - a - 1)

abbrev pub ltb_ℤ : ℤ → ℤ → Bool
ltb_ℤ a b = ltb (pos_part a + neg_part b) (pos_part b + neg_part a)

abbrev pub eqb_ℤ : ℤ → ℤ → Bool
eqb_ℤ a b = nat_eq (pos_part a + neg_part b) (pos_part b + neg_part a)

-- math.IsNaN
abbrev pub is_nan : Float64 → Bool
is_nan nan = true
is_nan _ = false

-- math.IsInf(x, 0)
abbrev pub is_inf : Float64 → Bool
is_inf neg_inf = true
is_inf pos_inf = true
is_inf _ = false

-- x < y, false if one of them is NaN
abbrev pub lt : Float64 → Float64 → Bool
lt (fin a) (fin b) = ltb_ℤ a b
lt (fin a) pos_inf = true
lt neg_inf (fin b) = true
lt neg_inf pos_inf = true
lt _ _ = false

-- x == y
abbrev pub eq : Float64 → Float64 → Bool
eq (fin a) (fin b) = eqb_ℤ a b
eq neg_inf neg_inf = true
eq pos_inf pos_inf = true
eq _ _ = false

abbrev pub of_ℕ : ℕ → Float64
of_ℕ n = fin (pos n)

-- The constants 0, 100 and 0.01; the last is the float64 nearest to it.
abbrev pub f0 : Float64
f0 = fin (pos 0)

abbrev pub f100 : Float64
f100 = fin (pos hundred)

abbrev pub hundredth : ℕ
hundredth = 5764607523034235 * 2 ^ 1015

abbrev pub f001 : Float64
f001 = fin (pos hundredth)

-- How an exact result is rounded to a float64; past the largest finite value it overflows.
abbrev pub Round : Type 0
Round = ℤ → Float64

-- x + y
unfoldable pub add : Round → Float64 → Float64 → Float64
add round (fin a) (fin b) = round (sub_ℕ (pos_part a + pos_part b) (neg_part a + neg_part b))
add round nan y = nan
add round x nan = nan
add round pos_inf neg_inf = nan
add round neg_inf pos_inf = nan
add round pos_inf y = pos_inf
add round neg_inf y = neg_inf
add round x pos_inf = pos_inf
add round x neg_inf = neg_inf

-- -y
unfoldable pub negate : Float64 → Float64
negate nan = nan
negate neg_inf = pos_inf
negate pos_inf = neg_inf
negate (fin (pos zero)) = fin (pos zero)
negate (fin (pos (suc n))) = fin (negsuc n)
negate (fin (negsuc n)) = fin (pos (suc n))

-- x - y
unfoldable pub sub : Round → Float64 → Float64 → Float64
unfolding add negate
sub round x y = add round x (negate y)

-- math.Abs
unfoldable pub abs : Float64 → Float64
abs nan = nan
abs neg_inf = pos_inf
abs pos_inf = pos_inf
abs (fin (pos n)) = fin (pos n)
abs (fin (negsuc n)) = fin (pos (suc n))

-- What IEEE 754 promises of the rounding of an exact result of magnitude at most 200: the result
-- is finite, with an error of at most one part in 2^53, and symmetric in the sign; and no result
-- up to 100 is rounded past the float64 100.
pub record Rounding (round : Round) : Type 0 where
  pub magnitude : ℕ → ℕ
  pub finite : (n : ℕ) → n ≤ 2 * hundred → round (pos n) ≡ fin (pos (magnitude n))
  pub error_above : (n : ℕ) → n ≤ 2 * hundred → 2 ^ 53 * magnitude n ≤ 2 ^ 53 * n + n
  pub error_below : (n : ℕ) → n ≤ 2 * hundred → 2 ^ 53 * n ≤ 2 ^ 53 * magnitude n + n
  pub keeps_hundred : (n : ℕ) → n ≤ hundred → magnitude n ≤ hundred
  pub symmetric : (n : ℕ) → round (negsuc n) ≡ negate (round (pos (suc n)))

-- Exact arithmetic is such a rounding.
pub exact : Rounding fin
unfolding negate
exact = record {
  magnitude = λ n. n;
  finite = λ n h. refl;
  error_above = λ n h. omega arith;
  error_below = λ n h. omega arith;
  keeps_hundred = λ n h. h;
  symmetric = λ n. refl;
}

-- ===== src/Server/Validate/Produced.antt =====
-- The percentages that `ClampPercent` and `NewLimitWindow` produce.
use codex_claude_monitor.Prelude.{
  ℕ, zero, suc, ◌+◌, ◌-◌, ◌*◌, ◌^◌, ◌≤◌, ◌≡◌, ◌≢◌, refl, ◌⊎◌, inl, inr, false, arith, min, leb,
  Bool-cases, ◌∙◌, ap,
}
use codex_claude_monitor.Float.{
  Float64, nan, neg_inf, pos_inf, fin, pos, negsuc, hundred, hundredth, Round, Rounding, sub_ℕ,
  negate, f100, f001,
}
use codex_claude_monitor.Float
use codex_claude_monitor.Clock.{Instant, zero_time}
use codex_claude_monitor.Model.{clamp_percent, new_limit_window}
use codex_claude_monitor.Server.Validate.Spec.{IsValidWindow}

-- Whatever the value, NaN and the infinities included, the result is a finite one from 0 to 100.
pub clamp_percent_bounds :
    (value : Float64) → (n : ℕ) × (clamp_percent value ≡ fin (pos n)) × (n ≤ hundred)
unfolding clamp_percent
clamp_percent_bounds nan = (0, refl, omega arith)
clamp_percent_bounds neg_inf = (0, refl, omega arith)
clamp_percent_bounds pos_inf = (0, refl, omega arith)
clamp_percent_bounds (fin (negsuc n)) = (0, ground arith, omega arith)
clamp_percent_bounds (fin (pos n)) = (min n hundred, ground arith, omega arith)

le-or-lt : (a b : ℕ) → ((d : ℕ) × (b ≡ a + d)) ⊎ ((d : ℕ) × (b + suc d ≡ a))
le-or-lt a b = elim (Bool-cases (leb a b)) [
  | inl le ↦ inl (b - a, ground arith)
  | inr gt ↦ inr (a - b - 1, ground arith)
]

module _ (round : Round) where
  add-pos : (a b : ℕ) → Float.add round (fin (pos a)) (fin (pos b)) ≡ round (pos (a + b))
  unfolding Float.add
  add-pos a b = ap round (ground arith)

  sub-pos_le : (a b : ℕ) → b ≤ a → Float.sub round (fin (pos a)) (fin (pos b)) ≡ round (pos (a - b))
  unfolding Float.sub
  sub-pos_le a zero h = ap round (ground arith)
  sub-pos_le a (suc b) h = ap round (ground arith)

  sub-pos_lt :
      (a b d : ℕ) → a + suc d ≡ b → Float.sub round (fin (pos a)) (fin (pos b)) ≡ round (negsuc d)
  unfolding Float.sub
  sub-pos_lt a zero d h = absurd (omega arith)
  sub-pos_lt a (suc b) d h = ap round (ground arith)

abs-negate : (n : ℕ) → Float.abs (negate (fin (pos n))) ≡ fin (pos n)
unfolding Float.abs negate
abs-negate zero = refl
abs-negate (suc n) = refl

abs-pos : (n : ℕ) → Float.abs (fin (pos n)) ≡ fin (pos n)
unfolding Float.abs
abs-pos n = refl

module _ (round : Round) (laws : Rounding round) where
  open laws use {magnitude, finite, error_above, error_below, keeps_hundred, symmetric}

  -- The distance of a sum of percentages from 100, as `validateWindow` computes it.
  distance_pos :
      (s d : ℕ)
      → s ≡ hundred + d
      → d ≤ hundred
      → Float.abs (Float.sub round (fin (pos s)) f100) ≡ fin (pos (magnitude d))
  distance_pos s d e h =
      ap Float.abs (
        sub-pos_le round s hundred (omega arith)
        ∙ ap (λ k. round (pos k)) (omega arith)
        ∙ finite d (omega arith))
      ∙ abs-pos (magnitude d)

  distance_neg :
      (s d : ℕ)
      → s + suc d ≡ hundred
      → Float.abs (Float.sub round (fin (pos s)) f100) ≡ fin (pos (magnitude (suc d)))
  distance_neg s d e =
      ap Float.abs
        (sub-pos_lt round s hundred d e ∙ symmetric d ∙ ap negate (finite (suc d) (omega arith)))
      ∙ abs-negate (magnitude (suc d))

  small_not_above : (m : ℕ) → m ≤ hundredth → Float.lt f001 (fin (pos m)) ≡ false
  small_not_above m h = ground arith

  distance_small :
      (s : ℕ)
      → 2 ^ 50 * s ≤ 2 ^ 50 * hundred + hundred
      → 2 ^ 50 * hundred ≤ 2 ^ 50 * s + hundred
      → Float.lt f001 (Float.abs (Float.sub round (fin (pos s)) f100)) ≡ false
  distance_small s above below = elim (le-or-lt hundred s) [
    | inl (d, e) ↦
        rw (distance_pos s d e (omega arith))
          (small_not_above (magnitude d) (omega (arith, error_above d (omega arith))))
    | inr (d, e) ↦
        rw (distance_neg s d e)
          (small_not_above (magnitude (suc d)) (omega (arith, error_above (suc d) (omega arith))))
  ]

  -- A percentage and its rounded complement add up to 100, up to 0.01.
  close_sum :
      (n : ℕ)
      → n ≤ hundred
      → Float.lt f001 (
          Float.abs (
            Float.sub round
              (Float.add round (fin (pos n)) (fin (pos (magnitude (hundred - n)))))
              f100))
        ≡ false
  close_sum n h =
      let r = magnitude (hundred - n) in
      let r_le = keeps_hundred (hundred - n) (omega arith) in
      let r_above = error_above (hundred - n) (omega arith) in
      let r_below = error_below (hundred - n) (omega arith) in
      let s_above = error_above (n + r) (omega arith) in
      let s_below = error_below (n + r) (omega arith) in
      rw (add-pos round n r ∙ finite (n + r) (omega arith))
        (distance_small (magnitude (n + r)) (omega arith) (omega arith))

  remaining_lem :
      (n : ℕ)
      → n ≤ hundred
      → Float.sub round f100 (fin (pos n)) ≡ fin (pos (magnitude (hundred - n)))
  remaining_lem n h = sub-pos_le round hundred n h ∙ finite (hundred - n) (omega arith)

  -- The server accepts every window that `NewLimitWindow` makes, whatever the used percentage
  -- that the provider reported, if the reset time is not the zero time and float64 arithmetic
  -- rounds as IEEE 754 says.
  pub new_limit_window-IsValidWindow :
      (used : Float64) (resets_at : Instant)
      → resets_at ≢ zero_time
      → IsValidWindow round (new_limit_window round used resets_at)
  unfolding new_limit_window
  new_limit_window-IsValidWindow used resets_at h =
      let (n, e, le) = clamp_percent_bounds used in
      record {
        used = (n, e, le);
        remaining = (
          magnitude (hundred - n),
          ap (Float.sub round f100) e ∙ remaining_lem n le,
          keeps_hundred (hundred - n) (omega arith),
        );
        sum = rw (e, remaining_lem n le) (close_sum n le);
        reset = h;
      }

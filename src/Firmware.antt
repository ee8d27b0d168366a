-- ===== src/Firmware.antt =====
-- The versions of internal/firmware/firmware.go.
pub mod Order
use Prim.Native.String
use Prim.Native.String.{len}
use Prim.Native.Char.{Char, code}
use codex_claude_monitor.Prelude.{
  ℕ, ◌+◌, ◌-◌, ◌*◌, ◌^◌, String, Bool, true, false, not, ◌&&◌, ◌||◌, List, [], ◌∷◌, ltb, nat_eq,
  ◌==◌, if◌then◌else◌,
}
use codex_claude_monitor.Prelude.Text.{every, is_digit}
use codex_claude_monitor.Prelude.Result.{Result, ok, err, ◌>>=◌, ◌>>◌, Check, reject}

pub record Version : Type 0 where
  pub major : ℕ
  pub minor : ℕ
  pub patch : ℕ

pub data VersionError : Type 0 where
  not_three_parts not_canonical not_digits out_of_range : VersionError

-- The first part gets the character.
abbrev prepend : Char → List String → List String
prepend c [] = String.◌∷◌ c String.[] ∷ []
prepend c (part ∷ parts) = String.◌∷◌ c part ∷ parts

-- strings.Split(value, ".")
unfoldable pub split_dots : String → List String
split_dots String.[] = String.[] ∷ []
split_dots (String.◌∷◌ c s) =
    let parts = split_dots s in if nat_eq (code c) b'.' then String.[] ∷ parts else prepend c parts

abbrev pub leading_zero : String → Bool
leading_zero String.[] = false
leading_zero (String.◌∷◌ c s) = nat_eq (code c) b'0'

-- The number that decimal digits stand for, after those that give `n`.
unfoldable pub decimal : ℕ → String → ℕ
decimal n String.[] = n
decimal n (String.◌∷◌ c s) = decimal (n * 10 + (code c - b'0')) s

-- The body of the loop of ParseVersion, with `strconv.ParseUint(part, 10, 32)`.
unfoldable pub parse_component : String → Result VersionError ℕ
unfolding decimal every
parse_component part = do
  reject (part == "" || (ltb 1 (len part) && leading_zero part)) not_canonical
  reject (not (every is_digit part)) not_digits
  reject (not (ltb (decimal 0 part) (2 ^ 32))) out_of_range
  ok (decimal 0 part)

abbrev pub parse_parts : List String → Result VersionError Version
parse_parts (a ∷ b ∷ c ∷ []) = do
  major ← parse_component a
  minor ← parse_component b
  patch ← parse_component c
  ok (record { major = major; minor = minor; patch = patch })
parse_parts _ = err not_three_parts

unfoldable pub parse_version : String → Result VersionError Version
unfolding split_dots
parse_version value = parse_parts (split_dots value)

-- The results -1, 0 and 1.
pub data Comparison : Type 0 where
  below same above : Comparison

abbrev pub compare_parts : ℕ → ℕ → Comparison → Comparison
compare_parts left right rest =
    if ltb left right then below else if ltb right left then above else rest

unfoldable pub compare : Version → Version → Comparison
compare v other =
    compare_parts v.major other.major
      (compare_parts v.minor other.minor (compare_parts v.patch other.patch same))

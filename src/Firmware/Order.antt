-- ===== src/Firmware/Order.antt =====
-- The order of versions (`ParseVersion` and `Version.Compare` of internal/firmware/firmware.go).
use codex_claude_monitor.Prelude.{
  ℕ, ◌+◌, ◌*◌, ◌^◌, ◌<◌, String, ◌≡◌, ◌↔◌, List, [], ◌∷◌, arith, subst,
}
use codex_claude_monitor.Prelude.Result.{ok, bind-ok}
use codex_claude_monitor.Firmware.{
  Version, split_dots, parse_component, parse_parts, parse_version, below, same, compare,
}

-- The version as one number.
abbrev pub rank : Version → ℕ
rank v = v.major * 2 ^ 64 + v.minor * 2 ^ 32 + v.patch

parse_component-lt : (part : String) (n : ℕ) → parse_component part ≡ ok n → n < 2 ^ 32
unfolding parse_component
parse_component-lt part n h = ground (arith, h)

pub record IsVersion (v : Version) : Type 0 where
  pub major : v.major < 2 ^ 32
  pub minor : v.minor < 2 ^ 32
  pub patch : v.patch < 2 ^ 32

parse_parts-IsVersion : (parts : List String) (v : Version) → parse_parts parts ≡ ok v → IsVersion v
parse_parts-IsVersion [] v h = cc
parse_parts-IsVersion (a ∷ []) v h = cc
parse_parts-IsVersion (a ∷ b ∷ []) v h = cc
parse_parts-IsVersion (a ∷ b ∷ c ∷ []) v h =
    let (major, first, h1) = bind-ok (parse_component a) _ v h in
    let (minor, second, h2) = bind-ok (parse_component b) _ v h1 in
    let (patch, third, h3) = bind-ok (parse_component c) _ v h2 in
    let made : record { major = major; minor = minor; patch = patch } ≡ v = ground (arith, h3) in
    subst IsVersion made (record {
      major = parse_component-lt a major first;
      minor = parse_component-lt b minor second;
      patch = parse_component-lt c patch third;
    })
parse_parts-IsVersion (a ∷ b ∷ c ∷ d ∷ parts) v h = cc

compare-rank :
    (u v : Version)
    → IsVersion u
    → IsVersion v
    → ((compare u v ≡ below) ↔ (rank u < rank v)) × ((compare u v ≡ same) ↔ (u ≡ v))
unfolding compare
compare-rank u v iu iv = (
  (
    λ h. ground (arith, iu.major, iu.minor, iu.patch, iv.major, iv.minor, iv.patch),
    λ h. ground (arith, iu.major, iu.minor, iu.patch, iv.major, iv.minor, iv.patch),
  ),
  (λ h. ground arith, λ h. ground arith),
)

-- Versions that ParseVersion accepts are ordered by Compare as numbers with three digits to the base
-- 2^32: it is -1 exactly if the first number is less, and 0 exactly if the versions are equal.
pub parse_version-compare :
    (s t : String) (u v : Version)
    → parse_version s ≡ ok u
    → parse_version t ≡ ok v
    → ((compare u v ≡ below) ↔ (rank u < rank v)) × ((compare u v ≡ same) ↔ (u ≡ v))
unfolding parse_version
parse_version-compare s t u v first second =
    compare-rank u v (parse_parts-IsVersion (split_dots s) u first)
      (parse_parts-IsVersion (split_dots t) v second)

-- ===== src/Prelude/Text.antt =====
-- Walks over the characters of a text. Texts that come from JSON are valid UTF-8, so a Go `range`
-- over a string visits the characters of the native `String`, and `len` counts its bytes.
use Prim.Native.Nat.{ℕ, zero, suc, ◌-◌, Ordering}
use mathlib.Core.List.{List, [], ◌∷◌}
use Prim.Native.String
use Prim.Native.Char.{Char, code}
use Prim.Native.String.{String}
use mathlib.Core.Path.{◌≡◌, refl}
use mathlib.Core.Bool.{Bool, true, false, ◌&&◌, ◌||◌}
use codex_claude_monitor.Prelude.Tests.{leb, nat_eq, if◌then◌else◌}

-- Every character passes the test.
unfoldable pub every : (ℕ → Bool) → String → Bool
every p String.[] = true
every p (String.◌∷◌ c s) = p (code c) && every p s

abbrev pub is_lower : ℕ → Bool
is_lower c = leb b'a' c && leb c b'z'

abbrev pub is_upper : ℕ → Bool
is_upper c = leb b'A' c && leb c b'Z'

abbrev pub is_digit : ℕ → Bool
is_digit c = leb b'0' c && leb c b'9'

-- unicode.IsControl
abbrev pub is_control : ℕ → Bool
is_control c = leb c 0x1f || (leb 0x7f c && leb c 0x9f)

-- unicode.IsSpace
abbrev pub is_space : ℕ → Bool
is_space c =
    (leb 0x09 c && leb c 0x0d)
    || nat_eq c 0x20
    || nat_eq c 0x85
    || nat_eq c 0xa0
    || nat_eq c 0x1680
    || (leb 0x2000 c && leb c 0x200a)
    || nat_eq c 0x2028
    || nat_eq c 0x2029
    || nat_eq c 0x202f
    || nat_eq c 0x205f
    || nat_eq c 0x3000

unfoldable pub trim_left : String → String
trim_left String.[] = String.[]
trim_left (String.◌∷◌ c s) = if is_space (code c) then trim_left s else String.◌∷◌ c s

abbrev glue : Bool → Char → String → String
glue space c String.[] = if space then String.[] else String.◌∷◌ c String.[]
glue space c (String.◌∷◌ d s) = String.◌∷◌ c (String.◌∷◌ d s)

unfoldable pub trim_right : String → String
trim_right String.[] = String.[]
trim_right (String.◌∷◌ c s) = glue (is_space (code c)) c (trim_right s)

-- strings.TrimSpace
unfoldable pub trim_space : String → String
unfolding trim_left trim_right
trim_space s = trim_right (trim_left s)

trim_space_runs : trim_space " a b\t\n" ≡ "a b"
unfolding trim_space
trim_space_runs = refl

-- `s < t`, by bytes
abbrev pub less : String → String → Bool
less s t = elim (String.compare s t) [ Ordering.lt ↦ true | _ ↦ false ]

-- strings.HasPrefix
abbrev pub has_prefix : String → String → Bool
has_prefix s String.[] = true
has_prefix String.[] (String.◌∷◌ d t) = false
has_prefix (String.◌∷◌ c s) (String.◌∷◌ d t) = nat_eq (code c) (code d) && has_prefix s t

-- strings.Contains
unfoldable pub contains : String → String → Bool
contains String.[] t = has_prefix String.[] t
contains (String.◌∷◌ c s) t = has_prefix (String.◌∷◌ c s) t || contains s t

-- The text without a character: strings.ReplaceAll(s, string(c), "").
unfoldable pub without : ℕ → String → String
without c String.[] = String.[]
without c (String.◌∷◌ d s) =
    let rest = without c s in if nat_eq (code d) c then rest else String.◌∷◌ d rest

-- The text with each character lowered: strings.ToLower, where `lower` is unicode.ToLower.
unfoldable pub to_lower : (Char → Char) → String → String
to_lower lower String.[] = String.[]
to_lower lower (String.◌∷◌ c s) = String.◌∷◌ (lower c) (to_lower lower s)

-- strings.Split(s, "\n"): the first line, and the lines after it.
abbrev glue_line : Char → String × List String → String × List String
glue_line c (line, lines) =
    if nat_eq (code c) 0x0a then ("", line ∷ lines) else (String.◌∷◌ c line, lines)

unfoldable pub break_lines : String → String × List String
break_lines String.[] = ("", [])
break_lines (String.◌∷◌ c s) = glue_line c (break_lines s)

unfoldable pub split_lines : String → List String
unfolding break_lines
split_lines s = let (line, lines) = break_lines s in line ∷ lines

-- strings.Fields
abbrev add_field : Char → List String → Bool → List String
add_field c [] inside = String.◌∷◌ c "" ∷ []
add_field c (w ∷ ws) true = String.◌∷◌ c w ∷ ws
add_field c (w ∷ ws) false = String.◌∷◌ c "" ∷ w ∷ ws

abbrev starts_field : String → Bool
starts_field String.[] = false
starts_field (String.◌∷◌ c s) = if is_space (code c) then false else true

unfoldable pub fields : String → List String
fields String.[] = []
fields (String.◌∷◌ c s) =
    let rest = fields s in if is_space (code c) then rest else add_field c rest (starts_field s)

-- strings.Join
abbrev pub join : String → List String → String
join separator [] = ""
join separator (s ∷ []) = s
join separator (s ∷ t ∷ ts) = String.◌++◌ s (String.◌++◌ separator (join separator (t ∷ ts)))

-- strings.ReplaceAll(s, word, ""), with the characters that are still to be skipped.
unfoldable pub remove_word : String → ℕ → ℕ → String → String
remove_word word size skip String.[] = String.[]
remove_word word size (suc n) (String.◌∷◌ c s) = remove_word word size n s
remove_word word size zero (String.◌∷◌ c s) = elim (has_prefix (String.◌∷◌ c s) word) [
  | true ↦ remove_word word size (size - 1) s
  | false ↦ String.◌∷◌ c (remove_word word size 0 s)
]

texts_run :
    (fields " Bearer  abc " ≡ "Bearer" ∷ "abc" ∷ [])
    × (split_lines "a\n\nb" ≡ "a" ∷ "" ∷ "b" ∷ [])
    × (remove_word "and" 3 0 "1and 2" ≡ "1 2")
unfolding fields split_lines remove_word
texts_run = (refl, refl, refl)

-- ===== src/Text.antt =====
-- Go strings, and what the program uses of Go's packages strings and unicode.
-- A text is the list of its code points; strings that are not valid UTF-8 are not modelled.
pub mod Trim
pub mod Affix
use Prim.Native.Char.{code}
use caddy_bifrost.Base.{
  ℕ, ◌+◌, ◌≡◌, refl, ◌↔◌, ap, String, Bool, true, false, ◌&&◌, ◌||◌, Option, none, some, List, [],
  ◌∷◌, ◌++◌, arith, ltb, leb, ◌==◌, if◌then◌else◌, is_empty, any, is_some, map,
}
use mathlib.Core.Option

abbrev pub Text : Type 0
Text = List ℕ

-- A literal.
abbrev pub text : String → Text
text String.[] = []
text (String.◌∷◌ c s) = code c ∷ text s

-- `s == t`.
unfoldable pub text_eq : Text → Text → Bool
text_eq [] [] = true
text_eq [] (b ∷ t) = false
text_eq (a ∷ s) [] = false
text_eq (a ∷ s) (b ∷ t) = a == b && text_eq s t

pub text_eq_iff : (s t : Text) → (text_eq s t ≡ true) ↔ (s ≡ t)
unfolding text_eq
text_eq_iff [] [] = ((λ _. refl), (λ _. refl))
text_eq_iff [] (b ∷ t) = ground arith
text_eq_iff (a ∷ s) [] = ground arith
text_eq_iff (a ∷ s) (b ∷ t) = ground (arith, text_eq_iff s t)

-- `unicode.IsSpace`.
unfoldable pub is_space : ℕ → Bool
is_space c =
    leb 9 c && leb c 13
    || c == 0x20
    || c == 0x85
    || c == 0xa0
    || c == 0x1680
    || leb 0x2000 c && leb c 0x200a
    || c == 0x2028
    || c == 0x2029
    || c == 0x202f
    || c == 0x205f
    || c == 0x3000

unfoldable pub trim_left : Text → Text
trim_left [] = []
trim_left (c ∷ s) = let rest = trim_left s in if is_space c then rest else c ∷ s

unfoldable pub trim_right : Text → Text
trim_right [] = []
trim_right (c ∷ s) = let rest = trim_right s in if is_empty rest && is_space c then [] else c ∷ rest

-- `strings.TrimSpace`.
unfoldable pub trim_space : Text → Text
trim_space s = trim_right (trim_left s)

-- What follows the prefix, if the text has it.
unfoldable pub strip_prefix : Text → Text → Option Text
strip_prefix s [] = some s
strip_prefix [] (b ∷ p) = none
strip_prefix (a ∷ s) (b ∷ p) = if a == b then strip_prefix s p else none

-- What stands before the suffix, if the text has it.
unfoldable pub strip_suffix : Text → Text → Option Text
unfolding text_eq
strip_suffix [] p = if text_eq [] p then some [] else none
strip_suffix (a ∷ s) p =
    if text_eq (a ∷ s) p then some [] else Option.map (λ r. a ∷ r) (strip_suffix s p)

abbrev pub has_prefix : Text → Text → Bool
has_prefix s p = is_some (strip_prefix s p)

abbrev pub has_suffix : Text → Text → Bool
has_suffix s p = is_some (strip_suffix s p)

abbrev or_text : Option Text → Text → Text
or_text none s = s
or_text (some r) s = r

-- `strings.TrimPrefix` and `strings.TrimSuffix`.
abbrev pub trim_prefix : Text → Text → Text
trim_prefix s p = or_text (strip_prefix s p) s

abbrev pub trim_suffix : Text → Text → Text
trim_suffix s p = or_text (strip_suffix s p) s

-- `strings.Contains`.
unfoldable pub contains : Text → Text → Bool
contains [] p = has_prefix [] p
contains (a ∷ s) p = has_prefix (a ∷ s) p || contains s p

-- The test whether one code point occurs.
abbrev pub contains_rune : Text → ℕ → Bool
contains_rune s c = any (λ a. a == c) s

-- `strings.ContainsAny`.
abbrev pub contains_any : Text → Text → Bool
contains_any s chars = any (contains_rune chars) s

-- `strings.Count` of one code point.
unfoldable pub count : Text → ℕ → ℕ
count [] c = 0
count (a ∷ s) c = (if a == c then 1 else 0) + count s c

-- The text before and after the first occurrence of a code point.
unfoldable pub cut : Text → ℕ → Option (Text × Text)
cut [] c = none
cut (a ∷ s) c =
    if a == c then some ([], s) else Option.map (λ (p : Text × Text). (a ∷ p.0, p.1)) (cut s c)

-- The text before and after the last occurrence of a code point.
unfoldable pub cut_last : Text → ℕ → Option (Text × Text)
cut_last [] c = none
cut_last (a ∷ s) c = elim (cut_last s c) [
  | some (before, after) ↦ some (a ∷ before, after)
  | none ↦ if a == c then some ([], s) else none
]

-- The part of Unicode's case table from code point 128 on: `unicode.ToLower` there.
pub record CaseTable : Type 0 where
  pub lower : ℕ → ℕ

-- `unicode.ToLower`.
unfoldable pub lower_rune : CaseTable → ℕ → ℕ
lower_rune t c = if ltb c 128 then (if leb b'A' c && leb c b'Z' then c + 32 else c) else t.lower c

-- `strings.ToLower`.
unfoldable pub to_lower : CaseTable → Text → Text
to_lower t s = map (lower_rune t) s

-- `strings.ReplaceAll` of one code point by one.
unfoldable pub replace_rune : ℕ → ℕ → Text → Text
replace_rune from to s = map (λ c. if c == from then to else c) s

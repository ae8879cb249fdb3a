-- ===== src/Text/Affix.antt =====
-- Prefixes and suffixes, and how trimming meets them.
use caddy_bifrost.Base.{
  ℕ, ◌≡◌, refl, ap, ◌∙◌, true, false, none, some, [], ◌∷◌, ◌++◌, arith, length, length-append,
  Option-cases, inl, inr,
}
use caddy_bifrost.Text.{
  Text, text_eq, text_eq_iff, is_space, trim_left, trim_right, trim_space, strip_prefix,
  strip_suffix, contains, contains_rune, count, has_prefix, trim_prefix,
}
use caddy_bifrost.Text.Trim.{IsTrimmed, trim_left-of_IsTrimmed, not_space_head}

text_eq-length : (s t : Text) → text_eq s t ≡ true → length s ≡ length t
text_eq-length s t h = ap length ((text_eq_iff s t).0 h)

pub text_eq_refl : (s : Text) → text_eq s s ≡ true
text_eq_refl s = (text_eq_iff s s).1 refl

-- A suffix is found where it was put.
pub strip_suffix-append : (s p : Text) → strip_suffix (s ++ p) p ≡ some s
unfolding strip_suffix
strip_suffix-append [] [] = ground (arith, text_eq_refl [])
strip_suffix-append [] (c ∷ p) = ground (arith, text_eq_refl (c ∷ p))
strip_suffix-append (a ∷ s) p =
    ground (arith, strip_suffix-append s p, text_eq-length (a ∷ (s ++ p)) p, length-append s p)

-- What is before a suffix, and the suffix, make the text.
pub strip_suffix_sound : (s p r : Text) → strip_suffix s p ≡ some r → s ≡ r ++ p
unfolding strip_suffix
strip_suffix_sound [] p r h = ground (arith, text_eq_iff [] p)
strip_suffix_sound (a ∷ s) p [] h = ground (arith, text_eq_iff (a ∷ s) p)
strip_suffix_sound (a ∷ s) p (b ∷ r) h =
    ground (arith, text_eq_iff (a ∷ s) p, strip_suffix_sound s p r)

-- What follows a prefix, and the prefix, make the text.
pub strip_prefix_sound : (s p r : Text) → strip_prefix s p ≡ some r → s ≡ p ++ r
unfolding strip_prefix
strip_prefix_sound s [] r h = ground arith
strip_prefix_sound [] (b ∷ p) r h = ground arith
strip_prefix_sound (a ∷ s) (b ∷ p) r h = ground (arith, strip_prefix_sound s p r)

pub strip_prefix-append : (p r : Text) → strip_prefix (p ++ r) p ≡ some r
unfolding strip_prefix
strip_prefix-append [] r = refl
strip_prefix-append (a ∷ p) r = ground (arith, strip_prefix-append p r)

trim_right-snoc : (s : Text) (c : ℕ) → is_space c ≡ false → trim_right (s ++ c ∷ []) ≡ s ++ c ∷ []
unfolding trim_right
trim_right-snoc [] c h = rw h refl
trim_right-snoc (a ∷ []) c h = rw h refl
trim_right-snoc (a ∷ b ∷ s) c h = rw (trim_right-snoc (b ∷ s) c h) refl

trim_left-snoc :
    (s : Text) (c : ℕ)
    → is_space c ≡ false
    → trim_left s ≡ s
    → trim_left (s ++ c ∷ []) ≡ s ++ c ∷ []
unfolding trim_left
trim_left-snoc [] c h k = rw h refl
trim_left-snoc (a ∷ s) c h k = rw (not_space_head a s k) refl

-- A code point that is no space can stand behind a trimmed text.
pub IsTrimmed-snoc : (s : Text) (c : ℕ) → IsTrimmed s → is_space c ≡ false → IsTrimmed (s ++ c ∷ [])
unfolding trim_space
IsTrimmed-snoc s c t h =
    ap trim_right (trim_left-snoc s c h (trim_left-of_IsTrimmed s t)) ∙ trim_right-snoc s c h

-- What a text that lacks a code point lacks with it.
pub strip_prefix-none :
    (s p : Text) (c : ℕ) → contains_rune s c ≡ false → strip_prefix s (c ∷ p) ≡ none
unfolding strip_prefix
strip_prefix-none [] p c h = refl
strip_prefix-none (a ∷ s) p c h = ground arith

pub contains-none : (s p : Text) (c : ℕ) → contains_rune s c ≡ false → contains s (c ∷ p) ≡ false
unfolding contains
contains-none [] p c h = ground (arith, strip_prefix-none [] p c h)
contains-none (a ∷ s) p c h = ground (arith, strip_prefix-none (a ∷ s) p c h, contains-none s p c)

pub count-none : (s : Text) (c : ℕ) → contains_rune s c ≡ false → count s c ≡ 0
unfolding count
count-none [] c h = refl
count-none (a ∷ s) c h = ground (arith, count-none s c)

pub trim_prefix_sound : (s p : Text) → has_prefix s p ≡ true → s ≡ p ++ trim_prefix s p
trim_prefix_sound s p h = elim (Option-cases (strip_prefix s p)) [
  | inl missing ↦ absurd (ground (arith, missing))
  | inr (r, found) ↦ rw found (strip_prefix_sound s p r found)
]

-- ===== src/Text/Trim.antt =====
-- The laws of `trim_space`: what it leaves starts and ends with no space, and is kept by it.
use caddy_bifrost.Base.{ℕ, ◌≡◌, refl, ap, ◌∙◌, true, false, [], ◌∷◌, ◌++◌, arith, length, ◌≤◌, All}
use caddy_bifrost.Text.{Text, is_space, trim_left, trim_right, trim_space}

-- A text with no space at either end.
abbrev pub IsTrimmed : Text → Type 0
IsTrimmed s = trim_space s ≡ s

abbrev pub AllSpace : Text → Type 0
AllSpace s = All (λ c. is_space c ≡ true) s

trim_left_idem : (s : Text) → trim_left (trim_left s) ≡ trim_left s
unfolding trim_left
trim_left_idem [] = refl
trim_left_idem (c ∷ s) = ground (arith, trim_left_idem s)

trim_right_idem : (s : Text) → trim_right (trim_right s) ≡ trim_right s
unfolding trim_right
trim_right_idem [] = refl
trim_right_idem (c ∷ s) = ground (arith, trim_right_idem s)

length-trim_left : (s : Text) → length (trim_left s) ≤ length s
unfolding trim_left
length-trim_left [] = omega arith
length-trim_left (c ∷ s) = ground (arith, length-trim_left s)

length-trim_right : (s : Text) → length (trim_right s) ≤ length s
unfolding trim_right
length-trim_right [] = omega arith
length-trim_right (c ∷ s) = ground (arith, length-trim_right s)

pub not_space_head : (c : ℕ) (s : Text) → trim_left (c ∷ s) ≡ c ∷ s → is_space c ≡ false
unfolding trim_left
not_space_head c s h = ground (arith, length-trim_left s)

trim_left-trim_right : (s : Text) → trim_left s ≡ s → trim_left (trim_right s) ≡ trim_right s
unfolding trim_left trim_right
trim_left-trim_right [] h = refl
trim_left-trim_right (c ∷ s) h = ground (arith, not_space_head c s h)

pub trim_space-IsTrimmed : (s : Text) → IsTrimmed (trim_space s)
unfolding trim_space
trim_space-IsTrimmed s =
    ap trim_right (trim_left-trim_right (trim_left s) (trim_left_idem s))
    ∙ trim_right_idem (trim_left s)

-- A trimmed text is kept by each half of `trim_space`.
pub trim_left-of_IsTrimmed : (s : Text) → IsTrimmed s → trim_left s ≡ s
unfolding trim_space trim_left
trim_left-of_IsTrimmed [] h = refl
trim_left-of_IsTrimmed (c ∷ s) h =
    ground (arith, ap length h, length-trim_right (trim_left s), length-trim_left s)

pub trim_right-of_IsTrimmed : (s : Text) → IsTrimmed s → trim_right s ≡ s
unfolding trim_space
trim_right-of_IsTrimmed s h = rw (trim_left-of_IsTrimmed s h) at h

trim_left-append : (pre s : Text) → AllSpace pre → trim_left (pre ++ s) ≡ trim_left s
unfolding trim_left
trim_left-append [] s h = refl
trim_left-append (c ∷ pre) s (p, h) = rw p (trim_left-append pre s h)

trim_right-spaces : (post : Text) → AllSpace post → trim_right post ≡ []
unfolding trim_right
trim_right-spaces [] h = refl
trim_right-spaces (c ∷ post) (p, h) = rw (trim_right-spaces post h, p) refl

trim_left-spaces : (post : Text) → AllSpace post → trim_left post ≡ []
unfolding trim_left
trim_left-spaces [] h = refl
trim_left-spaces (c ∷ post) (p, h) = rw p (trim_left-spaces post h)

trim_right-append : (s post : Text) → AllSpace post → trim_right (s ++ post) ≡ trim_right s
unfolding trim_right
trim_right-append [] post h = trim_right-spaces post h
trim_right-append (c ∷ s) post h = rw (trim_right-append s post h) refl

trim_left-cons : (c : ℕ) (s : Text) → is_space c ≡ false → trim_left (c ∷ s) ≡ c ∷ s
unfolding trim_left
trim_left-cons c s h = rw h

trim_left-append_trimmed :
    (s post : Text)
    → AllSpace post
    → trim_left s ≡ s
    → trim_right (trim_left (s ++ post)) ≡ trim_right (s ++ post)
unfolding trim_right
trim_left-append_trimmed [] post h k = rw (trim_left-spaces post h, trim_right-spaces post h)
trim_left-append_trimmed (c ∷ s) post h k =
    ap trim_right (trim_left-cons c (s ++ post) (not_space_head c s k))

-- `trim_space` takes off exactly the spaces around a trimmed text.
pub trim_space-around :
    (pre s post : Text)
    → AllSpace pre
    → AllSpace post
    → IsTrimmed s
    → trim_space (pre ++ (s ++ post)) ≡ s
unfolding trim_space
trim_space-around pre s post hp hq h =
    ap trim_right (trim_left-append pre (s ++ post) hp)
    ∙ trim_left-append_trimmed s post hq (trim_left-of_IsTrimmed s h)
    ∙ trim_right-append s post hq
    ∙ trim_right-of_IsTrimmed s h

-- ===== src/Runtime/Metrics/Reasons.antt =====
-- The reasons that stand in a label.
use caddy_bifrost.Base.{ℕ, ◌≡◌, ◌≢◌, refl, false, [], ◌∷◌, arith, is_empty}
use caddy_bifrost.Text.{Text, CaseTable, contains_rune, replace_rune, trim_space, to_lower}
use caddy_bifrost.Runtime.Metrics.{safe_reason, or_unknown}

replace_rune-absent :
    (from to : ℕ) (s : Text) → from ≢ to → contains_rune (replace_rune from to s) from ≡ false
unfolding replace_rune
replace_rune-absent from to [] h = refl
replace_rune-absent from to (c ∷ s) h = ground (arith, replace_rune-absent from to s h)

replace_rune-keeps :
    (from to c : ℕ) (s : Text)
    → to ≢ c
    → contains_rune s c ≡ false
    → contains_rune (replace_rune from to s) c ≡ false
unfolding replace_rune
replace_rune-keeps from to c [] h k = refl
replace_rune-keeps from to c (a ∷ s) h k = ground (arith, replace_rune-keeps from to c s h)

-- A label's reason is not empty and has no dash and no space in it, whatever reason was given.
pub safe_reason-IsLabel :
    (cases : CaseTable) (why : Text)
    → (is_empty (safe_reason cases why) ≡ false)
      × (contains_rune (safe_reason cases why) b'-' ≡ false)
      × (contains_rune (safe_reason cases why) b' ' ≡ false)
unfolding safe_reason or_unknown
safe_reason-IsLabel cases why =
    let lowered = trim_space (to_lower cases why) in
    let undashed = replace_rune b'-' b'_' lowered in
    ground (
      arith,
      replace_rune-absent b'-' b'_' lowered (omega arith),
      replace_rune-keeps b' ' b'_' b'-' undashed (omega arith),
      replace_rune-absent b' ' b'_' undashed (omega arith),
    )

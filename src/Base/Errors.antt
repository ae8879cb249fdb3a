-- ===== src/Base/Errors.antt =====
-- Go's `(value, error)` returns: a result is a value or an error, and a `do` block stops at the
-- first error as a chain of `if err != nil { return err }` does.
use mathlib.Core.Path.{◌≡◌, refl}
use mathlib.Core.Bool.{Bool, true, false}

pub data Result {ℓ} (E : Type 0) (A : Type ℓ) : Type ℓ where
  ok : A → Result E A
  err : E → Result E A

infixl 5 ◌>>=◌ ◌>>◌
abbrev pub ◌>>=◌ {ℓ κ} :
    {E : Type 0} {A : Type ℓ} {B : Type κ} → Result E A → (A → Result E B) → Result E B
ok a >>= f = f a
err e >>= f = err e

abbrev pub ◌>>◌ {ℓ} : {E : Type 0} {B : Type ℓ} → Result E (Unit {0}) → Result E B → Result E B
m >> k = m >>= λ _. k

-- `if bad { return e }`.
abbrev pub fail_if : {E : Type 0} → Bool → E → Result E (Unit {0})
fail_if true e = err e
fail_if false e = ok tt

-- The error of a fallible call in the caller's own terms, as `fmt.Errorf("…: %w", err)` gives it.
abbrev pub map_err {ℓ} : {E F : Type 0} {A : Type ℓ} → (E → F) → Result E A → Result F A
map_err f (ok a) = ok a
map_err f (err e) = err (f e)

-- A block that returned got through its first step.
pub bound_ok {ℓ κ} :
    {E : Type 0} {A : Type ℓ} {B : Type κ} (step : Result E A) (rest : A → Result E B) {end : B}
    → (step >>= rest) ≡ ok end
    → (got : A) × (step ≡ ok got) × (rest got ≡ ok end)
bound_ok (err failure) rest returned = cc
bound_ok (ok got) rest returned = (got, refl, returned)

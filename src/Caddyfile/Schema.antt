-- ===== src/Caddyfile/Schema.antt =====
-- What a block of the Caddyfile means, told of its lines and not of a cursor: a schema lists the
-- directives, each with what its arguments and its block change. The schemas of the blocks stand
-- in `Blocks`.
pub mod Blocks
use caddy_bifrost.Base.{Bool, List, [], ◌∷◌, if◌then◌else◌, Result, ok, err, ℤ}
use caddy_bifrost.Text.{Text, text_eq}
use caddy_bifrost.Caddyfile.{ParseError, wrong_args, number_of}
use caddy_bifrost.Caddyfile.Tree.{Line, Lines, line, nil, cons}

-- A configuration after some lines, and the error that stopped the reading.
abbrev pub Outcome : Type 0 → Type 0
Outcome S = S × Result ParseError (Unit {0})

-- The forms of directives: one argument; none; one that is refused, with its error; a block
-- and no argument; a block with a name, refused where the test of the configuration holds. The
-- last field of a form with a block says which blocks are well shaped.
pub data Kind (S : Type 0) : Type 1 where
  one_arg : (Text → Result ParseError (S → S)) → Kind S
  flag : (S → S) → Kind S
  retired : ParseError → Kind S
  block : (Lines → S → Outcome S) → (Lines → Type 0) → Kind S
  named : (Text → Lines → Result ParseError (S → S)) → (Lines → Type 0) → Kind S
  exclusive :
      (S → Bool)
      → ParseError
      → (Text → Lines → Result ParseError (S → S))
      → (Lines → Type 0)
      → Kind S

abbrev pub Schema : Type 0 → Type 1
Schema S = List (Text × Kind S)

-- The form of a directive, if the schema lists it.
abbrev pub with_directive {ℓ} : {S : Type 0} {X : Type ℓ} → Schema S → Text → (Kind S → X) → X → X
with_directive [] name known unknown = unknown
with_directive ((n, k) ∷ schema) name known unknown =
    if text_eq name n then known k else with_directive schema name known unknown

abbrev pub change : {S : Type 0} → Result ParseError (S → S) → S → Outcome S
change (ok f) s = (f s, ok tt)
change (err e) s = (s, err e)

-- The argument of a line that has one, and a line that has none.
abbrev pub with_one : {X : Type 0} → List Text → (Text → X) → X → X
with_one [] one other = other
with_one (a ∷ []) one other = one a
with_one (a ∷ b ∷ args) one other = other

abbrev pub with_none : {X : Type 0} → List Text → X → X → X
with_none [] none_given other = none_given
with_none (a ∷ args) none_given other = other

abbrev pub read_kind : {S : Type 0} → List Text → Lines → S → Kind S → Outcome S
read_kind args body s (one_arg f) = with_one args (λ a. change (f a) s) (s, err wrong_args)
read_kind args body s (flag f) = with_none args (f s, ok tt) (s, err wrong_args)
read_kind args body s (retired e) = (s, err e)
read_kind args body s (block f shape) = with_none args (f body s) (s, err wrong_args)
read_kind args body s (named f shape) = with_one args (λ a. change (f a body) s) (s, err wrong_args)
read_kind args body s (exclusive taken e f shape) =
    if taken s then (s, err e) else with_one args (λ a. change (f a body) s) (s, err wrong_args)

abbrev pub then_lines : {S : Type 0} → Outcome S → (S → Outcome S) → Outcome S
then_lines (s, ok u) rest = rest s
then_lines (s, err e) rest = (s, err e)

abbrev pub read_line : {S : Type 0} → Schema S → Text → List Text → Lines → S → Outcome S
read_line schema name args body s =
    with_directive schema name (read_kind args body s) (s, err wrong_args)

-- The lines one after another, up to the first error.
unfoldable pub read_lines : {S : Type 0} → Schema S → Lines → S → Outcome S
read_lines schema nil s = (s, ok tt)
read_lines schema (cons (line name args body) ls) s =
    then_lines (read_line schema name args body s) (read_lines schema ls)

abbrev pub IsBare : Lines → Type 0
IsBare nil = Unit
IsBare (cons l ls) = ⊥

-- Only directives that take a block are written with one.
abbrev pub ShapeOf : {S : Type 0} → Lines → Kind S → Type 0
ShapeOf body (one_arg f) = IsBare body
ShapeOf body (flag f) = IsBare body
ShapeOf body (retired e) = Unit
ShapeOf body (block f shape) = shape body
ShapeOf body (named f shape) = shape body
ShapeOf body (exclusive taken e f shape) = shape body

abbrev pub Shaped : {S : Type 0} → Schema S → Lines → Type 0
Shaped schema nil = Unit
Shaped schema (cons (line name args body) ls) =
    with_directive schema name (ShapeOf body) Unit × Shaped schema ls

-- A block in a field.
abbrev pub read_within : {S T : Type 0} → Schema T → (S → T) → (T → S → S) → Lines → S → Outcome S
read_within schema get set body s = let r = read_lines schema body (get s) in (set r.0 s, r.1)

abbrev pub result_of : {S : Type 0} → Outcome S → Result ParseError S
result_of (s, ok u) = ok s
result_of (s, err e) = err e

abbrev pub mapped : {A B : Type 0} → (A → B) → Result ParseError A → Result ParseError B
mapped f (ok a) = ok (f a)
mapped f (err e) = err e

-- A number that sets a field.
abbrev pub number :
    {S : Type 0}
    → (Text → Text → ParseError)
    → (Text → Result Text ℤ)
    → (ℤ → S → S)
    → Text
    → Result ParseError (S → S)
number bad parse set value = mapped set (number_of bad value (parse value))

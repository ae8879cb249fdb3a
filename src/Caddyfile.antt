-- ===== src/Caddyfile.antt =====
-- internal/caddyfile/app.go: what the parsers of Caddyfile blocks share. Caddy's `Dispenser`, the
-- cursor over the tokens, is a parameter, and so is the reading of numbers by Go's strconv and
-- time. A parser takes the cursor and gives it back; an error is raised where the cursor then is.
pub mod Server
pub mod Client
pub mod App
pub mod Tree
pub mod Schema
pub mod Cursor
pub mod Ending
pub mod Keeping
pub mod Written
use caddy_bifrost.Base.{ℕ, zero, suc, Bool, true, false, Result, ok, err, ℤ}
use caddy_bifrost.Text.{Text}

-- The methods of `caddyfile.Dispenser` that the parsers call.
pub record Dispenser (D : Type 0) : Type 0 where
  pub next : D → D × Bool
  pub next_arg : D → D × Bool
  pub next_block : ℕ → D → D × Bool
  pub val : D → Text
  pub nesting : D → ℕ

-- `strconv.Atoi`, `strconv.ParseInt` to base 10 and 64 bits, `time.ParseDuration`, each with the
-- message of its error.
pub record Numbers : Type 0 where
  pub atoi : Text → Result Text ℤ
  pub parse_int : Text → Result Text ℤ
  pub parse_duration : Text → Result Text ℤ

-- The errors that the parsers raise, a constructor for each message; `wrong_args` is `ArgErr`.
pub data ParseError : Type 0 where
  wrong_args exactly_one_runtime : ParseError
  connector_unsupported server_tls_unsupported : ParseError
  connect_unsupported client_tls_moved transport_endpoint_unsupported : ParseError
  -- The text that is no number, and why.
  bad_integer bad_duration : Text → Text → ParseError
  -- The bound of the model on the rounds of a loop is used up.
  out_of_fuel : ParseError

-- A parser that returns a value, and one that fills in a configuration behind a pointer, which
-- keeps what was filled in before an error.
abbrev pub Parsed : Type 0 → Type 0 → Type 0
Parsed D A = D × Result ParseError A

abbrev pub Filled : Type 0 → Type 0 → Type 0
Filled D S = D × S × Result ParseError (Unit {0})

-- `value, err := …; if err != nil { return err }; field = value`.
abbrev pub fill : {D A S : Type 0} → Parsed D A → (A → S → S) → S → Filled D S
fill (d, ok a) set s = (d, set a s, ok tt)
fill (d, err e) set s = (d, s, err e)

-- A parser on a field behind a pointer.
abbrev pub within : {D S T : Type 0} → Filled D T → (T → S → S) → S → Filled D S
within (d, t, r) set s = (d, set t s, r)

-- The filled configuration as a value, or the error.
abbrev pub value_of : {D S : Type 0} → Filled D S → Parsed D S
value_of (d, s, ok u) = (d, ok s)
value_of (d, s, err e) = (d, err e)

abbrev pub and_then : {D A B : Type 0} → Parsed D A → (A → D → Parsed D B) → Parsed D B
and_then (d, ok a) k = k a d
and_then (d, err e) k = (d, err e)

abbrev pub after_line : {D S : Type 0} → Filled D S → (D → S → Filled D S) → Filled D S
after_line (d, s, ok u) rest = rest d s
after_line (d, s, err e) rest = (d, s, err e)

-- `if d.NextArg() { return d.ArgErr() }`, and what follows.
abbrev pub unless_arg : {D S : Type 0} → D × Bool → (D → S → Filled D S) → S → Filled D S
unless_arg (d, true) rest s = (d, s, err wrong_args)
unless_arg (d, false) rest s = rest d s

-- One round of a loop over lines.
abbrev pub on_line :
    {D S : Type 0} → D × Bool → (D → S → Filled D S) → (D → S → Filled D S) → S → Filled D S
on_line (d, false) line rest s = (d, s, ok tt)
on_line (d, true) line rest s = after_line (line d s) rest

-- A number read from a text, with the error that quotes the text.
abbrev pub number_of : (Text → Text → ParseError) → Text → Result Text ℤ → Result ParseError ℤ
number_of bad value (ok n) = ok n
number_of bad value (err why) = err (bad value why)

abbrev pub read_number :
    {D : Type 0} → (Text → Result Text ℤ) → (Text → Text → ParseError) → Parsed D Text → Parsed D ℤ
read_number parse bad (d, ok value) = (d, number_of bad value (parse value))
read_number parse bad (d, err e) = (d, err e)

module _ {D : Type 0} (o : Dispenser D) where
  last_arg : Text → D × Bool → Parsed D Text
  last_arg value (d, true) = (d, err wrong_args)
  last_arg value (d, false) = (d, ok value)

  first_arg : D × Bool → Parsed D Text
  unfolding last_arg
  first_arg (d, false) = (d, err wrong_args)
  first_arg (d, true) = last_arg (o.val d) (o.next_arg d)

  -- `singleArg`.
  unfoldable pub single_arg : D → Parsed D Text
  unfolding first_arg
  single_arg d = first_arg (o.next_arg d)

  -- `for d.NextBlock(nesting) { … }`; the body gets the fuel that is left for loops of its own.
  unfoldable pub each_line : {S : Type 0} → ℕ → (ℕ → D → S → Filled D S) → ℕ → D → S → Filled D S
  each_line zero line nesting d s = (d, s, err out_of_fuel)
  each_line (suc fuel) line nesting d s =
      let rest = each_line fuel line nesting in on_line (o.next_block nesting d) (line fuel) rest s

module _ {D : Type 0} (o : Dispenser D) (numbers : Numbers) where
  -- `singleInt`, `singleInt64`, `singleDuration`.
  unfoldable pub single_int : D → Parsed D ℤ
  single_int d = read_number numbers.atoi bad_integer (single_arg o d)

  unfoldable pub single_int64 : D → Parsed D ℤ
  single_int64 d = read_number numbers.parse_int bad_integer (single_arg o d)

  unfoldable pub single_duration : D → Parsed D ℤ
  single_duration d = read_number numbers.parse_duration bad_duration (single_arg o d)

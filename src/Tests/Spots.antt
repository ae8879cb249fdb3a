-- ===== src/Tests/Spots.antt =====
-- A cursor over written lines, and numbers in decimal, for the tests of the Caddyfile parsers.
use caddy_bifrost.Base.{
  ℕ, suc, ◌+◌, ◌*◌, ◌-◌, ◌≡◌, refl, ap, Bool, true, false, List, [], ◌∷◌, arith, if◌then◌else◌,
  length, ltb, Result, ok, err, ℤ, pos,
}
use caddy_bifrost.Text.{Text, text}
use caddy_bifrost.Caddyfile.{Dispenser, Numbers}
use caddy_bifrost.Caddyfile.Tree.{Lines, line, nil, cons}
use caddy_bifrost.Caddyfile.Cursor.{Cursor}

-- A cursor over written lines: the token it is on, what follows on the line, and the blocks around.
pub record Spot : Type 0 where
  pub fresh : Bool
  pub word : Text
  pub args : List Text
  pub body : Lines
  pub outer : List Lines

abbrev pub at : Text → List Text → Lines → List Lines → Spot
at word args body outer = record {
  fresh = false;
  word = word;
  args = args;
  body = body;
  outer = outer;
}

abbrev pub spot_next : Spot → Spot × Bool
spot_next s = (record s { fresh = false }, s.fresh)

abbrev pub take_arg : List Text → Spot → Spot × Bool
take_arg [] s = (s, false)
take_arg (a ∷ args) s = (record s { word = a; args = args }, true)

abbrev pub move_on : Bool → Text → List Lines → Spot × Bool
move_on true v (cons (line name args body) ls ∷ outer) = (at name args body (ls ∷ outer), true)
move_on true v (nil ∷ outer) = (at (text "}") [] nil outer, false)
move_on true v [] = (at v [] nil [], false)
move_on false v outer = (at v [] nil outer, false)

abbrev pub take_line : ℕ → Text → Lines → List Lines → Spot × Bool
take_line n v (cons (line name args body) ls) outer = (at name args body (ls ∷ outer), true)
take_line n v nil outer = move_on (ltb n (length outer)) v outer

abbrev pub spots : Dispenser Spot
spots = record {
  next = spot_next;
  next_arg = λ s. take_arg s.args s;
  next_block = λ n s. take_line n s.word s.body s.outer;
  val = λ s. s.word;
  nesting = λ s. length s.outer;
}

pub ltb-suc : (n : ℕ) → ltb n (suc n) ≡ true
ltb-suc n = ground arith

pub ltb-same : (n : ℕ) → ltb n n ≡ false
ltb-same n = ground arith

abbrev pub spot_cursor : Cursor spots
spot_cursor = record {
  At = λ d v args body outer. d ≡ at v args body outer;
  Fresh = λ d name args body. d ≡ record (at name args body []) { fresh = true };
  current = λ h. ap (λ s. s.word) h;
  depth = λ h. ap (λ s. length s.outer) h;
  arg = λ h. rw h (refl, refl);
  no_arg = λ h. rw h (refl, refl);
  enter = λ h. rw h (refl, refl);
  no_block = λ {outer = outer} h. rw (h, ltb-same (length outer)) (refl, refl);
  advance = λ {outer = outer} h. rw (h, ltb-suc (length outer)) (refl, refl);
  leave = λ {outer = outer} h. rw (h, ltb-suc (length outer)) (refl, refl);
  begin = λ h. rw h (refl, refl);
  finish = λ h. rw h (refl, refl);
}

abbrev pub decimal_from : ℕ → Text → Result Text ℤ
decimal_from n [] = ok (pos n)
decimal_from n (c ∷ s) =
    let rest = decimal_from (n * 10 + (c - b'0')) s in
    if ltb c b'0' then err (text "invalid syntax") else rest

-- Decimal numbers; a duration is a number of nanoseconds.
abbrev pub decimals : Numbers
decimals = record {
  atoi = decimal_from 0;
  parse_int = decimal_from 0;
  parse_duration = decimal_from 0;
}

abbrev pub in_front : Text → Lines → Spot
in_front name body = record (at name [] body []) { fresh = true }

-- ===== src/Caddyfile/Ending.antt =====
-- The loops of the parsers end: each round reads a token, and no call puts one back. Nothing else
-- is asked of the cursor, so the tokens may be any.
pub mod Client
pub mod Listener
pub mod Blocks
use caddy_bifrost.Base.{
  ℕ, zero, suc, ◌≤◌, ◌<◌, ◌≡◌, ◌≢◌, refl, Bool, true, false, if◌then◌else◌, arith, Result, ok, err,
  ℤ,
}
use caddy_bifrost.Text.{Text}
use caddy_bifrost.Caddyfile.{
  Dispenser, ParseError, Parsed, Filled, fill, within, value_of, and_then, after_line, unless_arg,
  on_line, number_of, read_number, single_arg, each_line, wrong_args, bad_integer, bad_duration,
  out_of_fuel,
}

-- `left` counts the tokens in front of the cursor.
pub record Progress {D : Type 0} (o : Dispenser D) : Type 0 where
  pub left : D → ℕ
  pub arg_on : (d : D) → left (o.next_arg d).0 ≤ left d
  pub next_on : (d : D) → left (o.next d).0 ≤ left d
  pub next_reads : (d : D) → (o.next d).1 ≡ true → left (o.next d).0 < left d
  pub block_on : (nesting : ℕ) (d : D) → left (o.next_block nesting d).0 ≤ left d
  pub block_reads :
      (nesting : ℕ) (d : D)
      → (o.next_block nesting d).1 ≡ true
      → left (o.next_block nesting d).0 < left d

module _ {D : Type 0} (o : Dispenser D) (m : Progress o) where
  open m use {left}

  -- A parser that went no way back and had fuel enough.
  pub record Ends {S : Type 0} (d : D) (p : Filled D S) : Type 0 where
    pub on : left p.0 ≤ left d
    pub fuelled : p.2 ≢ err out_of_fuel

  pub record Gives {A : Type 0} (d : D) (p : Parsed D A) : Type 0 where
    pub on : left p.0 ≤ left d
    pub fuelled : p.1 ≢ err out_of_fuel

  -- A handler of lines that ends on the fuel of the tokens in front of it.
  abbrev pub HandlerEnds : {S : Type 0} → (ℕ → D → S → Filled D S) → Type 0
  HandlerEnds {S = S} handle =
      (fuel : ℕ) (d : D) (s : S) (v : Text) → o.val d ≡ v → left d < fuel → Ends d (handle fuel d s)

  pub stop_Ends :
      {S : Type 0} (d : D) (s : S) (e : ParseError) → e ≢ out_of_fuel → Ends d (d, s, err e)
  stop_Ends d s e other = record { on = omega arith; fuelled = λ h. other (cc) }

  pub done_Ends : {S : Type 0} (d d' : D) (s : S) → left d' ≤ left d → Ends d (d', s, ok tt)
  done_Ends d d' s h = record { on = h; fuelled = λ k. cc }

  pub done_Gives : {A : Type 0} (d d' : D) (a : A) → left d' ≤ left d → Gives d (d', ok a)
  done_Gives d d' a h = record { on = h; fuelled = λ k. cc }

  pub if-Ends :
      {S : Type 0} (b : Bool) {d : D} {p q : Filled D S}
      → Ends d p
      → Ends d q
      → Ends d (if b then p else q)
  if-Ends true yes_case no_case = yes_case
  if-Ends false yes_case no_case = no_case

  pub later_Ends :
      {S : Type 0} (d d' : D) (p : Filled D S) → left d' ≤ left d → Ends d' p → Ends d p
  later_Ends d d' p h e = record { on = omega (arith, e.on); fuelled = e.fuelled }

  pub fill-Ends :
      {A S : Type 0} (d : D) (p : Parsed D A) (set : A → S → S) (s : S)
      → Gives d p
      → Ends d (fill p set s)
  fill-Ends d (d', ok a) set s g = record { on = g.on; fuelled = λ h. cc }
  fill-Ends d (d', err e) set s g = record { on = g.on; fuelled = λ h. g.fuelled (cc) }

  pub within-Ends :
      {S T : Type 0} (d : D) (p : Filled D T) (set : T → S → S) (s : S)
      → Ends d p
      → Ends d (within p set s)
  within-Ends d (d', t, r) set s e = record { on = e.on; fuelled = e.fuelled }

  pub value_of-Gives : {S : Type 0} (d : D) (p : Filled D S) → Ends d p → Gives d (value_of p)
  value_of-Gives d (d', s, ok u) e = record { on = e.on; fuelled = λ h. cc }
  value_of-Gives d (d', s, err x) e = record { on = e.on; fuelled = λ h. e.fuelled (cc) }

  pub and_then-Gives :
      {A B : Type 0} (d : D) (p : Parsed D A) (rest : A → D → Parsed D B)
      → Gives d p
      → ((a : A) (d' : D) → left d' ≤ left d → Gives d' (rest a d'))
      → Gives d (and_then p rest)
  and_then-Gives d (d', ok a) rest g later =
      let g' = later a d' g.on in record { on = omega (arith, g.on, g'.on); fuelled = g'.fuelled }
  and_then-Gives d (d', err e) rest g later = record { on = g.on; fuelled = λ h. g.fuelled (cc) }

  pub unless_arg-Ends :
      {S : Type 0} (d : D) (rest : D → S → Filled D S) (s : S)
      → ((d' : D) → left d' ≤ left d → Ends d' (rest d' s))
      → Ends d (unless_arg (o.next_arg d) rest s)
  unless_arg-Ends {S = S} d rest s later = by_arg (o.next_arg d) (m.arg_on d)
    where
      by_arg : (q : D × Bool) → left q.0 ≤ left d → Ends d (unless_arg q rest s)
      by_arg (d', true) h = record { on = h; fuelled = λ k. cc }
      by_arg (d', false) h = later_Ends d d' (rest d' s) h (later d' h)

  pub single_arg-Gives : (d : D) → Gives d (single_arg o d)
  unfolding single_arg
  single_arg-Gives d = record {
    on = ground (arith, m.arg_on d, m.arg_on (o.next_arg d).0);
    fuelled = ground arith;
  }

  pub read_number-Gives :
      (parse : Text → Result Text ℤ) (bad : Text → Text → ParseError) (d : D) (p : Parsed D Text)
      → ((v why : Text) → bad v why ≢ out_of_fuel)
      → Gives d p
      → Gives d (read_number parse bad p)
  read_number-Gives parse bad d (d', err e) other g = record {
    on = g.on;
    fuelled = λ h. g.fuelled (cc);
  }
  read_number-Gives parse bad d (d', ok v) other g = record {
    on = g.on;
    fuelled = by_number (parse v);
  }
    where
      by_number : (r : Result Text ℤ) → number_of bad v r ≢ err out_of_fuel
      by_number (ok n) h = cc
      by_number (err why) h = other v why (cc)

  module _ {S : Type 0} (handle : ℕ → D → S → Filled D S) (ends : HandlerEnds handle) where
    round_Ends :
        (fuel : ℕ) (d : D) (q : D × Bool) (rest : D → S → Filled D S) (s : S)
        → left d < suc fuel
        → left q.0 ≤ left d
        → (q.1 ≡ true → left q.0 < left d)
        → ((d : D) (s : S) → left d < fuel → Ends d (rest d s))
        → Ends d (on_line q (handle fuel) rest s)
    round_Ends fuel d (d', false) rest s enough on reads later = record {
      on = on;
      fuelled = λ h. cc;
    }
    round_Ends fuel d (d', true) rest s enough on reads later =
        let e = ends fuel d' s (o.val d') refl (omega (arith, reads refl)) in
        after (handle fuel d' s) (omega (arith, e.on)) e.fuelled (omega (arith, reads refl, e.on))
      where
        after :
            (p : Filled D S)
            → left p.0 ≤ left d
            → p.2 ≢ err out_of_fuel
            → left p.0 < fuel
            → Ends d (after_line p rest)
        after (d'', s, ok u) back fine enough =
            later_Ends d d'' (rest d'' s) back (later d'' s enough)
        after (d'', s, err e) back fine enough = record { on = back; fuelled = fine }

    pub each_line-Ends :
        (fuel nesting : ℕ) (d : D) (s : S)
        → left d < fuel
        → Ends d (each_line o fuel handle nesting d s)
    unfolding each_line
    each_line-Ends zero nesting d s enough = absurd (omega arith)
    each_line-Ends (suc fuel) nesting d s enough =
        round_Ends fuel d (o.next_block nesting d) (each_line o fuel handle nesting) s enough
          (m.block_on nesting d) (m.block_reads nesting d)
          λ d s h. each_line-Ends fuel nesting d s h

    pub block_Ends :
        (fuel : ℕ) (d : D) (s : S)
        → left d < fuel
        → Ends d (each_line o fuel handle (o.nesting d) d s)
    block_Ends fuel d s enough = each_line-Ends fuel (o.nesting d) d s enough

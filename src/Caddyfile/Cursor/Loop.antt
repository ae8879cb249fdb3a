-- ===== src/Caddyfile/Cursor/Loop.antt =====
-- The loop over the lines of a block reads them as the schema does, if the handler of one line does
-- so for each line.
use caddy_bifrost.Base.{
  ℕ, zero, suc, ◌<◌, refl, Bool, true, false, List, [], ◌∷◌, length, if◌then◌else◌, arith, ok, err,
}
use caddy_bifrost.Text.{Text, text}
use caddy_bifrost.Caddyfile.{Dispenser, Filled, after_line, each_line}
use caddy_bifrost.Caddyfile.Tree.{Lines, line, nil, cons, weight}
use caddy_bifrost.Caddyfile.Schema.{
  Outcome, Schema, then_lines, read_line, read_lines, ShapeOf, with_directive, Shaped,
}
use caddy_bifrost.Caddyfile.Cursor.{Cursor, Done, Agrees, agree}

module _ {D : Type 0} (o : Dispenser D) (c : Cursor o) where
  open c use {At}

  -- A handler of lines against a schema.
  abbrev pub Implements : {S : Type 0} → (ℕ → D → S → Filled D S) → Schema S → Type 0
  Implements {S = S} handle schema =
      (fuel : ℕ) (d : D) (name : Text) (args : List Text) (body : Lines) (outer : List Lines)
      (s : S)
      → At d name args body outer
      → weight body < fuel
      → with_directive schema name (ShapeOf body) Unit
      → Agrees o c outer (handle fuel d s) (read_line schema name args body s)

  -- A test that both sides make.
  pub if-Agrees :
      {S P Q : Type 0} (b : Bool) {outer : List Lines} {p p' : Filled D S} {q q' : Outcome S}
      → (if b then P else Q)
      → (P → Agrees o c outer p q)
      → (Q → Agrees o c outer p' q')
      → Agrees o c outer (if b then p else p') (if b then q else q')
  if-Agrees true h yes_case no_case = yes_case h
  if-Agrees false h yes_case no_case = no_case h

  module _ {S : Type 0} (handle : ℕ → D → S → Filled D S) (schema : Schema S) where
    after-Agrees :
        (outer : List Lines) (ls : Lines) (p : Filled D S) (q : Outcome S)
        (rest : D → S → Filled D S)
        → Agrees o c (ls ∷ outer) p q
        → ((d : D) (s : S)
            → Done o c (ls ∷ outer) d
            → Agrees o c outer (rest d s) (read_lines schema ls s))
        → Agrees o c outer (after_line p rest) (then_lines q (read_lines schema ls))
    after-Agrees outer ls (d, s, ok w) (s', ok u) rest h later =
        rw (h.same) (later d s' (h.done refl))
    after-Agrees outer ls (d, s, err e) (s', ok u) rest h later = absurd (cc (h.result))
    after-Agrees outer ls (d, s, ok w) (s', err e) rest h later = absurd (cc (h.result))
    after-Agrees outer ls (d, s, err e') (s', err e) rest h later =
        agree o c h.same h.result (λ k. cc)

    line-Agrees :
        (fuel : ℕ) (d : D) (name : Text) (args : List Text) (body ls : Lines) (outer : List Lines)
        (s : S) (rest : D → S → Filled D S)
        → Implements handle schema
        → At d name args body (ls ∷ outer)
        → weight body < fuel
        → with_directive schema name (ShapeOf body) Unit
        → ((d : D) (s : S)
            → Done o c (ls ∷ outer) d
            → Agrees o c outer (rest d s) (read_lines schema ls s))
        → Agrees o c outer
            (after_line (handle fuel d s) rest)
            (then_lines (read_line schema name args body s) (read_lines schema ls))
    line-Agrees fuel d name args body ls outer s rest implements at enough shape later =
        after-Agrees outer ls (handle fuel d s) (read_line schema name args body s) rest
          (implements fuel d name args body (ls ∷ outer) s at enough shape) later

    inside-Agrees :
        Implements handle schema
        → (fuel : ℕ) (ls : Lines) (outer : List Lines) (d : D) (s : S) → Done o c (ls ∷ outer) d
        → weight ls < fuel
        → Shaped schema ls
        → Agrees o c outer (each_line o fuel handle (length outer) d s) (read_lines schema ls s)
    unfolding each_line read_lines
    inside-Agrees implements zero ls outer d s at enough shaped = absurd (omega arith)
    inside-Agrees implements (suc fuel) nil outer d s (v, at) enough shaped =
        let (left, end) = c.leave at in rw left (agree o c refl refl (λ h. (text "}", end)))
    inside-Agrees implements (suc fuel) (cons (line name args body) ls) outer d s (v, at) enough
          (shape, shaped) =
        let (more, there) = c.advance at in
        rw more (
          line-Agrees fuel (o.next_block (length outer) d).0 name args body ls outer s
            (each_line o fuel handle (length outer)) implements there (omega arith) shape
            λ d s done. inside-Agrees implements fuel ls outer d s done (omega arith) shaped)

    -- The block of the line that the cursor is on.
    pub block-Agrees :
        Implements handle schema
        → (fuel : ℕ) (ls : Lines) (outer : List Lines) (d : D) (v : Text) (s : S)
        → At d v [] ls outer
        → weight ls < fuel
        → Shaped schema ls
        → Agrees o c outer (each_line o fuel handle (length outer) d s) (read_lines schema ls s)
    unfolding each_line read_lines
    block-Agrees implements zero ls outer d v s at enough shaped = absurd (omega arith)
    block-Agrees implements (suc fuel) nil outer d v s at enough shaped =
        let (left, end) = c.no_block at in rw left (agree o c refl refl (λ h. (v, end)))
    block-Agrees implements (suc fuel) (cons (line name args body) ls) outer d v s at enough
          (shape, shaped) =
        let (more, there) = c.enter at in
        rw more (
          line-Agrees fuel (o.next_block (length outer) d).0 name args body ls outer s
            (each_line o fuel handle (length outer)) implements there (omega arith) shape
            λ d s done. inside-Agrees implements fuel ls outer d s done (omega arith) shaped)

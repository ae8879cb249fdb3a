-- ===== src/Caddyfile/Cursor.antt =====
-- What Caddy documents of its `Dispenser`: where the cursor stands while a block is read line by
-- line, as far as the lines are well formed. `At d v args body enclosing` says that the cursor `d`
-- is on the token `v`, that on its line the arguments `args` and then the block `body` follow, and
-- that the lines `enclosing` are left in the blocks around it, the innermost first.
pub mod Loop
pub mod Forms
pub mod Server
pub mod Client
pub mod App
use caddy_bifrost.Base.{
  ℕ, ◌≡◌, refl, Bool, true, false, List, [], ◌∷◌, length, arith, Result, ok, err, ℤ,
}
use caddy_bifrost.Text.{Text, text}
use caddy_bifrost.Caddyfile.{
  Dispenser, ParseError, Parsed, Filled, wrong_args, single_arg, fill, read_number, number_of,
  unless_arg,
}
use caddy_bifrost.Caddyfile.Tree.{Line, Lines, line, nil, cons}
use caddy_bifrost.Caddyfile.Schema.{
  Outcome, Kind, one_arg, flag, block, read_kind, change, ShapeOf, number, mapped,
}

pub record Cursor {D : Type 0} (o : Dispenser D) : Type 1 where
  pub At : D → Text → List Text → Lines → List Lines → Type 0
  -- In front of a segment that is one line.
  pub Fresh : D → Text → List Text → Lines → Type 0
  pub current :
      {d : D} {v : Text} {args : List Text} {body : Lines} {outer : List Lines}
      → At d v args body outer
      → o.val d ≡ v
  pub depth :
      {d : D} {v : Text} {args : List Text} {body : Lines} {outer : List Lines}
      → At d v args body outer
      → o.nesting d ≡ length outer
  pub arg :
      {d : D} {v a : Text} {args : List Text} {body : Lines} {outer : List Lines}
      → At d v (a ∷ args) body outer
      → ((o.next_arg d).1 ≡ true) × At (o.next_arg d).0 a args body outer
  pub no_arg :
      {d : D} {v : Text} {body : Lines} {outer : List Lines}
      → At d v [] body outer
      → ((o.next_arg d).1 ≡ false) × At (o.next_arg d).0 v [] body outer
  pub enter :
      {d : D} {v name : Text} {args : List Text} {body ls : Lines} {outer : List Lines}
      → At d v [] (cons (line name args body) ls) outer
      → ((o.next_block (length outer) d).1 ≡ true)
        × At (o.next_block (length outer) d).0 name args body (ls ∷ outer)
  pub no_block :
      {d : D} {v : Text} {outer : List Lines}
      → At d v [] nil outer
      → ((o.next_block (length outer) d).1 ≡ false)
        × At (o.next_block (length outer) d).0 v [] nil outer
  pub advance :
      {d : D} {v name : Text} {args : List Text} {body ls : Lines} {outer : List Lines}
      → At d v [] nil (cons (line name args body) ls ∷ outer)
      → ((o.next_block (length outer) d).1 ≡ true)
        × At (o.next_block (length outer) d).0 name args body (ls ∷ outer)
  pub leave :
      {d : D} {v : Text} {outer : List Lines}
      → At d v [] nil (nil ∷ outer)
      → ((o.next_block (length outer) d).1 ≡ false)
        × At (o.next_block (length outer) d).0 (text "}") [] nil outer
  pub begin :
      {d : D} {name : Text} {args : List Text} {body : Lines}
      → Fresh d name args body
      → ((o.next d).1 ≡ true) × At (o.next d).0 name args body []
  pub finish :
      {d : D} {v : Text} → At d v [] nil [] → ((o.next d).1 ≡ false) × At (o.next d).0 v [] nil []

pub same_arg : {a b : Text} → ◌≡◌ {A = Result ParseError Text} (ok a) (ok b) → a ≡ b
same_arg h = cc

module _ {D : Type 0} (o : Dispenser D) (c : Cursor o) where
  open c use {At}

  -- The cursor has read the line and the blocks in it.
  abbrev pub Done : List Lines → D → Type 0
  Done outer d = (v : Text) × At d v [] nil outer

  -- A parser against what the schema says of the same lines.
  pub record Agrees {S : Type 0} (outer : List Lines) (p : Filled D S) (q : Outcome S)
      : Type 0 where
    pub same : p.1 ≡ q.0
    pub result : p.2 ≡ q.1
    pub done : q.1 ≡ ok tt → Done outer p.0

  pub agree :
      {S : Type 0} {outer : List Lines} {p : Filled D S} {q : Outcome S}
      → p.1 ≡ q.0
      → p.2 ≡ q.1
      → (q.1 ≡ ok tt → Done outer p.0)
      → Agrees outer p q
  agree same result done = record { same = same; result = result; done = done }

  -- What `single_arg` makes of the arguments of a line.
  abbrev pub ArgRead : Parsed D Text → List Text → Lines → List Lines → Type 0
  ArgRead p [] body outer = p.1 ≡ err wrong_args
  ArgRead p (a ∷ []) body outer = (p.1 ≡ ok a) × At p.0 a [] body outer
  ArgRead p (a ∷ b ∷ args) body outer = p.1 ≡ err wrong_args

  pub single_arg-ArgRead :
      {d : D} {v : Text} (args : List Text) {body : Lines} {outer : List Lines}
      → At d v args body outer
      → ArgRead (single_arg o d) args body outer
  unfolding single_arg
  single_arg-ArgRead [] at = rw (c.no_arg at).0
  single_arg-ArgRead (a ∷ []) at =
      let (more, got) = c.arg at in
      let (last, end) = c.no_arg got in (rw (more, last, c.current got), rw (more, last) end)
  single_arg-ArgRead (a ∷ b ∷ args) at =
      let (more, got) = c.arg at in let (again, end) = c.arg got in rw (more, again)

  -- A line that sets a field to its argument.
  pub fill_text-Agrees :
      {S : Type 0} (p : Parsed D Text) (args : List Text) (body : Lines) {outer : List Lines}
      (set : Text → S → S) (s : S)
      → ArgRead p args body outer
      → ShapeOf {S = S} body (one_arg (λ t. ok (set t)))
      → Agrees outer (fill p set s) (read_kind args body s (one_arg (λ t. ok (set t))))
  fill_text-Agrees p args (cons l ls) set s read shape = absurd shape
  fill_text-Agrees (d, ok v) [] nil set s read shape = absurd (cc)
  fill_text-Agrees (d, err e) [] nil set s read shape = agree refl (cc) (λ h. cc)
  fill_text-Agrees (d, ok v) (a ∷ []) nil set s (same, at) shape = agree (cc) refl (λ h. (a, at))
  fill_text-Agrees (d, err e) (a ∷ []) nil set s (same, at) shape = absurd (cc)
  fill_text-Agrees (d, ok v) (a ∷ b ∷ args) nil set s read shape = absurd (cc)
  fill_text-Agrees (d, err e) (a ∷ b ∷ args) nil set s read shape = agree refl (cc) (λ h. cc)

  number-Agrees :
      {S : Type 0} (d : D) (a : Text) (outer : List Lines) (parsed : Result ParseError ℤ)
      (set : ℤ → S → S) (s : S)
      → At d a [] nil outer
      → Agrees outer (fill (d, parsed) set s) (change (mapped set parsed) s)
  number-Agrees d a outer (ok n) set s at = agree refl refl (λ h. (a, at))
  number-Agrees d a outer (err e) set s at = agree refl refl (λ h. cc)

  -- A line that sets a field to a number.
  pub fill-number-Agrees :
      {S : Type 0} (parse : Text → Result Text ℤ) (bad : Text → Text → ParseError)
      (p : Parsed D Text) (args : List Text) (body : Lines) {outer : List Lines} (set : ℤ → S → S)
      (s : S)
      → ArgRead p args body outer
      → ShapeOf {S = S} body (one_arg (number bad parse set))
      → Agrees outer
          (fill (read_number parse bad p) set s)
          (read_kind args body s (one_arg (number bad parse set)))
  fill-number-Agrees parse bad p args (cons l ls) set s read shape = absurd shape
  fill-number-Agrees parse bad (d, ok v) [] nil set s read shape = absurd (cc)
  fill-number-Agrees parse bad (d, err e) [] nil set s read shape = agree refl (cc) (λ h. cc)
  fill-number-Agrees parse bad (d, ok v) (a ∷ []) nil {outer = outer} set s (same, at) shape =
      rw (same_arg same) (number-Agrees d a outer (number_of bad a (parse a)) set s at)
  fill-number-Agrees parse bad (d, err e) (a ∷ []) nil set s (same, at) shape = absurd (cc)
  fill-number-Agrees parse bad (d, ok v) (a ∷ b ∷ args) nil set s read shape = absurd (cc)
  fill-number-Agrees parse bad (d, err e) (a ∷ b ∷ args) nil set s read shape =
      agree refl (cc) (λ h. cc)

  -- The cursor behind a line without arguments.
  pub unless_arg-Agrees :
      {S : Type 0} {d : D} {v : Text} (args : List Text) (body : Lines) {outer : List Lines}
      (rest : D → S → Filled D S) (kind : Kind S) (s : S) (q : Outcome S)
      → At d v args body outer
      → ((a : Text) (more : List Text) → read_kind (a ∷ more) body s kind ≡ (s, err wrong_args))
      → read_kind [] body s kind ≡ q
      → ((d' : D) → At d' v [] body outer → Agrees outer (rest d' s) q)
      → Agrees outer (unless_arg (o.next_arg d) rest s) (read_kind args body s kind)
  unless_arg-Agrees [] body rest kind s q at refused none_given then_rest =
      let (last, end) = c.no_arg at in rw (last, none_given) (then_rest _ end)
  unless_arg-Agrees (a ∷ args) body rest kind s q at refused none_given then_rest =
      let (more, got) = c.arg at in rw (more, refused a args) (agree refl refl (λ h. cc))

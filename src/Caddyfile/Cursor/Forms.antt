-- ===== src/Caddyfile/Cursor/Forms.antt =====
-- The forms of lines: what each piece of a parser makes of a line, and what the schema makes of it.
use caddy_bifrost.Base.{
  ℕ, ◌<◌, ◌≡◌, refl, ap, Bool, List, [], ◌∷◌, if◌then◌else◌, Result, ok, err, ℤ, inl, inr,
  Bool-cases,
}
use caddy_bifrost.Text.{Text}
use caddy_bifrost.Caddyfile.{
  Dispenser, ParseError, Parsed, Filled, fill, read_number, single_arg, unless_arg, within,
  value_of, and_then, each_line,
}
use caddy_bifrost.Caddyfile.Tree.{Lines, nil, cons, weight}
use caddy_bifrost.Caddyfile.Schema.{
  Outcome, Schema, one_arg, flag, block, named, exclusive, read_kind, read_lines, read_within,
  result_of, change, ShapeOf, IsBare, Shaped, number, mapped,
}
use caddy_bifrost.Caddyfile.Cursor.{
  Cursor, Done, Agrees, agree, ArgRead, same_arg, single_arg-ArgRead, fill_text-Agrees,
  fill-number-Agrees, unless_arg-Agrees,
}
use caddy_bifrost.Caddyfile.Cursor.Loop.{Implements, block-Agrees}

module _ {D : Type 0} (o : Dispenser D) (c : Cursor o) where
  open c use {At}

  module _ {S : Type 0} (d : D) (name : Text) (args : List Text) (body : Lines) (outer : List Lines)
      (s : S) (at : At d name args body outer) where
    pub text_line :
        (set : Text → S → S)
        → ShapeOf {S = S} body (one_arg (λ t. ok (set t)))
        → Agrees o c outer
            (fill (single_arg o d) set s)
            (read_kind args body s (one_arg (λ t. ok (set t))))
    text_line set shape =
        fill_text-Agrees o c (single_arg o d) args body set s (single_arg-ArgRead o c args at) shape

    pub number_line :
        (parse : Text → Result Text ℤ) (bad : Text → Text → ParseError) (set : ℤ → S → S)
        → ShapeOf {S = S} body (one_arg (number bad parse set))
        → Agrees o c outer
            (fill (read_number parse bad (single_arg o d)) set s)
            (read_kind args body s (one_arg (number bad parse set)))
    number_line parse bad set shape =
        fill-number-Agrees o c parse bad (single_arg o d) args body set s
          (single_arg-ArgRead o c args at) shape

    pub refused_line : (e : ParseError) → Agrees o c outer (d, s, err e) (s, err e)
    refused_line e = agree o c refl refl (λ k. cc)

    -- A directive that stands for itself.
    pub flag_line :
        (set : S → S)
        → ShapeOf {S = S} body (flag set)
        → Agrees o c outer
            (unless_arg (o.next_arg d) (λ d s. (d, set s, ok tt)) s)
            (read_kind args body s (flag set))
    flag_line set shape =
        unless_arg-Agrees o c args body _ (flag set) s (set s, ok tt) at (λ a more. refl) refl
          λ d' at'. agree o c refl refl (λ h. (name, bare body shape at'))
      where
        bare :
            {d' : D} (body : Lines)
            → IsBare body
            → At d' name [] body outer
            → At d' name [] nil outer
        bare nil shape at' = at'
        bare (cons l ls) shape at' = absurd shape

    -- A block that goes on filling in the same configuration.
    pub same_block_line :
        (handle : ℕ → D → S → Filled D S) (schema : Schema S) (fuel : ℕ)
        → Implements o c handle schema
        → weight body < fuel
        → Shaped schema body
        → Agrees o c outer
            (unless_arg (o.next_arg d) (λ d s. each_line o fuel handle (o.nesting d) d s) s)
            (read_kind args body s (block (read_lines schema) (Shaped schema)))
    same_block_line handle schema fuel implements enough shape =
        unless_arg-Agrees o c args body _ (block (read_lines schema) (Shaped schema)) s _ at
          (λ a more. refl) refl
          λ d' at'.
            rw (c.depth at')
              (block-Agrees o c handle schema implements fuel body outer d' name s at' enough shape)

    -- A block in a field.
    pub block_line :
        {T : Type 0} (handle : ℕ → D → T → Filled D T) (schema : Schema T) (get : S → T)
        (set : T → S → S) (fuel : ℕ)
        → Implements o c handle schema
        → weight body < fuel
        → Shaped schema body
        → Agrees o c outer
            (unless_arg
              (o.next_arg d)
              (λ d s. within (each_line o fuel handle (o.nesting d) d (get s)) set s)
              s)
            (read_kind args body s (block (read_within schema get set) (Shaped schema)))
    block_line handle schema get set fuel implements enough shape =
        unless_arg-Agrees o c args body _ (block (read_within schema get set) (Shaped schema)) s _
          at (λ a more. refl) refl
          λ d' at'. rw (c.depth at') (
            let h =
              block-Agrees o c handle schema implements fuel body outer d' name (get s) at' enough
                shape in
            agree o c (ap (λ t. set t s) h.same) h.result h.done)

  -- A parser that returns a value, against the value that the lines stand for.
  abbrev pub Returns : {A : Type 0} → List Lines → Parsed D A → Result ParseError A → Type 0
  Returns {A = A} outer p q = (p.1 ≡ q) × ((a : A) → q ≡ ok a → Done o c outer p.0)

  pub value_of-Returns :
      {S : Type 0} (outer : List Lines) (p : Filled D S) (q : Outcome S)
      → Agrees o c outer p q
      → Returns outer (value_of p) (result_of q)
  value_of-Returns outer (d, s, ok w) (s', ok u) h = (ap ok h.same, (λ a k. h.done refl))
  value_of-Returns outer (d, s, err e) (s', ok u) h = absurd (cc (h.result))
  value_of-Returns outer (d, s, ok w) (s', err e) h = absurd (cc (h.result))
  value_of-Returns outer (d, s, err e') (s', err e) h = (cc (h.result), (λ a k. cc))

  pub mapped-Returns :
      {A B : Type 0} (outer : List Lines) (f : A → B) (p : Parsed D A) (q : Result ParseError A)
      → Returns outer p q
      → Returns outer (and_then p (λ a d. (d, ok (f a)))) (mapped f q)
  mapped-Returns outer f (d, ok a) (ok b) (same, done) = (cc, (λ x h. done b refl))
  mapped-Returns outer f (d, err e) (ok b) (same, done) = absurd (cc)
  mapped-Returns outer f (d, ok a) (err e) (same, done) = absurd (cc)
  mapped-Returns outer f (d, err e') (err e) (same, done) = (cc, (λ x h. cc))

  fill-Returns :
      {A S : Type 0} (outer : List Lines) (set : A → S → S) (s : S) (p : Parsed D A)
      (q : Result ParseError A)
      → Returns outer p q
      → Agrees o c outer (fill p set s) (change (mapped set q) s)
  fill-Returns outer set s (d, ok a) (ok b) (same, done) = agree o c (cc) refl (λ h. done b refl)
  fill-Returns outer set s (d, err e) (ok b) (same, done) = absurd (cc)
  fill-Returns outer set s (d, ok a) (err e) (same, done) = absurd (cc)
  fill-Returns outer set s (d, err e') (err e) (same, done) = agree o c refl (cc) (λ h. cc)

  and_then-Returns :
      {A S : Type 0} (outer : List Lines) (set : A → S → S) (s : S) (p : Parsed D Text)
      (args : List Text) (body : Lines) (rest : Text → D → Parsed D A)
      (f : Text → Lines → Result ParseError A) (shape : Lines → Type 0)
      → ArgRead o c p args body outer
      → ((a : Text) (d : D) → At d a [] body outer → Returns outer (rest a d) (f a body))
      → Agrees o c outer
          (fill (and_then p rest) set s)
          (read_kind args body s (named (λ a ls. mapped set (f a ls)) shape))
  and_then-Returns outer set s (d, ok v) [] body rest f shape read later = absurd (cc)
  and_then-Returns outer set s (d, err e) [] body rest f shape read later =
      agree o c refl (cc) (λ h. cc)
  and_then-Returns outer set s (d, ok v) (a ∷ []) body rest f shape (same, at) later =
      rw (same_arg same) (fill-Returns outer set s (rest a d) (f a body) (later a d at))
  and_then-Returns outer set s (d, err e) (a ∷ []) body rest f shape (same, at) later = absurd (cc)
  and_then-Returns outer set s (d, ok v) (a ∷ b ∷ args) body rest f shape read later = absurd (cc)
  and_then-Returns outer set s (d, err e) (a ∷ b ∷ args) body rest f shape read later =
      agree o c refl (cc) (λ h. cc)

  -- The block of a named directive.
  pub body-Returns :
      {T : Type 0} (handle : ℕ → D → T → Filled D T) (schema : Schema T) (fuel : ℕ) (ls : Lines)
      (outer : List Lines) (d : D) (v : Text) (t : T)
      → Implements o c handle schema
      → weight ls < fuel
      → Shaped schema ls
      → At d v [] ls outer
      → Returns outer
          (value_of (each_line o fuel handle (o.nesting d) d t))
          (result_of (read_lines schema ls t))
  body-Returns handle schema fuel ls outer d v t implements enough shape at = rw (c.depth at) (
      value_of-Returns outer _ _
        (block-Agrees o c handle schema implements fuel ls outer d v t at enough shape))

  module _ {A S : Type 0} (d : D) (name : Text) (args : List Text) (body : Lines)
      (outer : List Lines) (s : S) (at : At d name args body outer) (set : A → S → S)
      (rest : Text → D → Parsed D A) (f : Text → Lines → Result ParseError A)
      (shape : Lines → Type 0)
      (later : (a : Text) (d : D)
        → At d a [] body outer
        → Returns outer (rest a d) (f a body)) where
    -- A directive with a name and a block.
    pub named_line :
        Agrees o c outer
          (fill (and_then (single_arg o d) rest) set s)
          (read_kind args body s (named (λ a ls. mapped set (f a ls)) shape))
    named_line =
        and_then-Returns outer set s (single_arg o d) args body rest f shape
          (single_arg-ArgRead o c args at) later

    -- A directive that is refused where the test holds, before its name is looked for.
    pub exclusive_line :
        (taken : S → Bool) (e : ParseError)
        → Agrees o c outer
            (if taken s then (d, s, err e) else fill (and_then (single_arg o d) rest) set s)
            (read_kind args body s (exclusive taken e (λ a ls. mapped set (f a ls)) shape))
    exclusive_line taken e = elim (Bool-cases (taken s)) [
      | inl h ↦ rw h (agree o c refl refl (λ k. cc))
      | inr h ↦ rw h named_line
    ]

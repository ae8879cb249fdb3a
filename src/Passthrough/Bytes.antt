-- ===== src/Passthrough/Bytes.antt =====
-- The bytes that a stream's observations report.
use caddy_bifrost.Base.{
  ℕ, ◌+◌, ◌≡◌, refl, ap, true, false, List, [], ◌∷◌, ◌++◌, arith, All, pos_part,
}
use caddy_bifrost.Passthrough.{
  Observation, Lifecycle, Call, start, bytes, end, reject, ingress_to_endpoint, endpoint_to_ingress,
  other_direction, call, run,
}

-- The bytes that one call adds in each direction; a count that is not positive adds none.
abbrev pub added : Call → ℕ × ℕ
added start = (0, 0)
added (bytes ingress_to_endpoint n) = (pos_part n, 0)
added (bytes endpoint_to_ingress n) = (0, pos_part n)
added (bytes other_direction n) = (0, 0)
added end = (0, 0)
added (reject _) = (0, 0)

abbrev pub added_ingress : List (ℕ × Call) → ℕ
added_ingress [] = 0
added_ingress ((now, c) ∷ cs) = (added c).0 + added_ingress cs

abbrev pub added_egress : List (ℕ × Call) → ℕ
added_egress [] = 0
added_egress ((now, c) ∷ cs) = (added c).1 + added_egress cs

abbrev pub total_ingress : List Observation → ℕ
total_ingress [] = 0
total_ingress (o ∷ os) = pos_part o.bytes_ingress_to_endpoint + total_ingress os

abbrev pub total_egress : List Observation → ℕ
total_egress [] = 0
total_egress (o ∷ os) = pos_part o.bytes_endpoint_to_ingress + total_egress os

-- A call that does not end the stream.
abbrev pub IsOpen : ℕ × Call → Type 0
IsOpen (now, start) = Unit {0}
IsOpen (now, bytes direction n) = Unit {0}
IsOpen (now, end) = ⊥
IsOpen (now, reject _) = ⊥

total_ingress-append :
    (xs ys : List Observation) → total_ingress (xs ++ ys) ≡ total_ingress xs + total_ingress ys
total_ingress-append [] ys = omega arith
total_ingress-append (x ∷ xs) ys = omega (arith, total_ingress-append xs ys)

total_egress-append :
    (xs ys : List Observation) → total_egress (xs ++ ys) ≡ total_egress xs + total_egress ys
total_egress-append [] ys = omega arith
total_egress-append (x ∷ xs) ys = omega (arith, total_egress-append xs ys)

call-totals :
    (now : ℕ) (c : Call) (l : Lifecycle)
    → IsOpen (now, c)
    → l.observed ≡ true
    → l.ended ≡ false
    → ((call now c l).0.observed ≡ true)
      × ((call now c l).0.ended ≡ false)
      × (total_ingress (call now c l).1 ≡ (added c).0)
      × (total_egress (call now c l).1 ≡ (added c).1)
unfolding call
call-totals now start l h p q = ground arith
call-totals now (bytes ingress_to_endpoint n) l h p q = ground arith
call-totals now (bytes endpoint_to_ingress n) l h p q = ground arith
call-totals now (bytes other_direction n) l h p q = ground arith
call-totals now end l h p q = absurd h
call-totals now (reject _) l h p q = absurd h

-- Until a stream ends, the deltas that its observer sees add up to the bytes that were counted, in
-- each direction.
pub run-totals :
    (cs : List (ℕ × Call)) (l : Lifecycle)
    → All IsOpen cs
    → l.observed ≡ true
    → l.ended ≡ false
    → (total_ingress (run cs l).1 ≡ added_ingress cs)
      × (total_egress (run cs l).1 ≡ added_egress cs)
unfolding run
run-totals [] l h p q = (refl, refl)
run-totals ((now, c) ∷ cs) l (h, hs) p q =
    let (p', q', here_in, here_out) = call-totals now c l h p q in
    let (later_in, later_out) = run-totals cs (call now c l).0 hs p' q' in
    (
      omega (arith, total_ingress-append (call now c l).1 (run cs (call now c l).0).1),
      omega (arith, total_egress-append (call now c l).1 (run cs (call now c l).0).1),
    )

call-over : (now : ℕ) (c : Call) (l : Lifecycle) → l.ended ≡ true → call now c l ≡ (l, [])
unfolding call
call-over now start l h = ground arith
call-over now (bytes ingress_to_endpoint n) l h = ground arith
call-over now (bytes endpoint_to_ingress n) l h = ground arith
call-over now (bytes other_direction n) l h = ground arith
call-over now end l h = ground arith
call-over now (reject _) l h = ground arith

-- A stream that is over reports nothing more.
pub run-over : (cs : List (ℕ × Call)) (l : Lifecycle) → l.ended ≡ true → run cs l ≡ (l, [])
unfolding run
run-over [] l h = refl
run-over ((now, c) ∷ cs) l h = rw (call-over now c l h) (rw (run-over cs l h) refl)

pub call-started :
    (now : ℕ) (c : Call) (l : Lifecycle) → l.started ≡ true → (call now c l).0.started ≡ true
unfolding call
call-started now start l h = ground arith
call-started now (bytes ingress_to_endpoint n) l h = ground arith
call-started now (bytes endpoint_to_ingress n) l h = ground arith
call-started now (bytes other_direction n) l h = ground arith
call-started now end l h = ground arith
call-started now (reject _) l h = ground arith

end-quiet :
    (now : ℕ) (l : Lifecycle)
    → l.observed ≡ true
    → l.started ≡ true
    → l.ended ≡ false
    → ((call now end l).0.ended ≡ true)
      × (total_ingress (call now end l).1 ≡ 0)
      × (total_egress (call now end l).1 ≡ 0)
unfolding call
end-quiet now l p s q = ground arith

-- A stream in use when it ends: what was reported by then adds up to what was counted by then, and
-- whatever calls come after the end add nothing.
pub run-totals_ended :
    (cs later : List (ℕ × Call)) (now : ℕ) (l : Lifecycle)
    → All IsOpen cs
    → l.observed ≡ true
    → l.started ≡ true
    → l.ended ≡ false
    → (total_ingress (run (cs ++ (now, end) ∷ later) l).1 ≡ added_ingress cs)
      × (total_egress (run (cs ++ (now, end) ∷ later) l).1 ≡ added_egress cs)
unfolding run
run-totals_ended [] later now l h p s q =
    let (over, quiet_in, quiet_out) = end-quiet now l p s q in
    let after : run later (call now end l).0 ≡ ((call now end l).0, []) =
      run-over later (call now end l).0 over in
    (
      omega (
        arith,
        total_ingress-append (call now end l).1 (run later (call now end l).0).1,
        ap (λ (r : Lifecycle × List Observation). total_ingress r.1) after,
      ),
      omega (
        arith,
        total_egress-append (call now end l).1 (run later (call now end l).0).1,
        ap (λ (r : Lifecycle × List Observation). total_egress r.1) after,
      ),
    )
run-totals_ended ((t, c) ∷ cs) later now l (h, hs) p s q =
    let (p', q', here_in, here_out) = call-totals t c l h p q in
    let later_run : Lifecycle × List Observation = run (cs ++ (now, end) ∷ later) (call t c l).0 in
    let (later_in, later_out) =
      run-totals_ended cs later now (call t c l).0 hs p' (call-started t c l s) q' in
    (
      omega (arith, total_ingress-append (call t c l).1 later_run.1),
      omega (arith, total_egress-append (call t c l).1 later_run.1),
    )

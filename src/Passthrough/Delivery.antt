-- ===== src/Passthrough/Delivery.antt =====
-- How the observations of a stream reach its observer. A call marks the lifecycle and makes its
-- observations under the lock, and hands them on after it has let go of it. The two directions of
-- a stream are copied at once, so other calls may come in between.
pub mod Crossing
pub mod Totals
use mathlib.Core.List.{append-nil, append_assoc, perm_middle, perm_append_comm}
use mathlib.Core.List.Perm
use mathlib.Core.List.{Perm}
use caddy_bifrost.Base.{
  ℕ, zero, suc, ◌<◌, ◌≡◌, refl, sym, ◌∙◌, ap, subst, true, none, some, List, [], ◌∷◌, ◌++◌, arith,
  All, ℤ, pos,
}
use caddy_bifrost.Passthrough.{
  EventType, stream_started, stream_usage_delta, StreamResult, no_reason, observation_at,
  Resolution, Observation, Lifecycle, new_lifecycle, Call, bytes, call, run, Direction,
  ingress_to_endpoint, endpoint_to_ingress,
}
use caddy_bifrost.Passthrough.Trace.{waiting, follow}

-- A stream under way: the calls made so far, what each of them has still to hand on, and what the
-- observer has received.
pub record Flight : Type 0 where
  pub lifecycle : Lifecycle
  pub calls : List (ℕ × Call)
  pub pending : List (List Observation)
  pub delivered : List Observation

abbrev pub begin : Lifecycle → Flight
begin l = record { lifecycle = l; calls = []; pending = []; delivered = [] }

-- A call under the lock.
unfoldable pub mark : ℕ → Call → Flight → Flight
mark now c s =
    let (l, seen) = call now c s.lifecycle in
    record s { lifecycle = l; calls = s.calls ++ (now, c) ∷ []; pending = seen ∷ s.pending }

-- A call hands its next observation on.
unfoldable pub deliver :
    List (List Observation)
    → Observation
    → List Observation
    → List (List Observation)
    → Flight
    → Flight
deliver before o later after s = record s {
  pending = before ++ later ∷ after;
  delivered = s.delivered ++ o ∷ [];
}

pub data Step (s : Flight) : Flight → Type 0 where
  marks : (now : ℕ) (c : Call) → Step s (mark now c s)
  delivers :
      (before : List (List Observation)) (o : Observation) (later : List Observation)
      (after : List (List Observation))
      → s.pending ≡ before ++ (o ∷ later) ∷ after
      → Step s (deliver before o later after s)

pub data Reach (s : Flight) : Flight → Type 0 where
  here : Reach s s
  next : {t u : Flight} → Reach s t → Step t u → Reach s u

abbrev pub all_of : List (List Observation) → List Observation
all_of [] = []
all_of (os ∷ queues) = os ++ all_of queues

-- Every call has handed on all it had.
abbrev pub Quiet : Flight → Type 0
Quiet s = all_of s.pending ≡ []

all_of-append : (xs ys : List (List Observation)) → all_of (xs ++ ys) ≡ all_of xs ++ all_of ys
all_of-append [] ys = refl
all_of-append (x ∷ xs) ys =
    ap (λ os. x ++ os) (all_of-append xs ys) ∙ sym (append_assoc x (all_of xs) (all_of ys))

run-append :
    (cs ds : List (ℕ × Call)) (l : Lifecycle)
    → run (cs ++ ds) l ≡ ((run ds (run cs l).0).0, (run cs l).1 ++ (run ds (run cs l).0).1)
unfolding run
run-append [] ds l = refl
run-append ((now, c) ∷ cs) ds l =
    let (l', seen) = call now c l in
    ap (λ (r : Lifecycle × List Observation). (r.0, seen ++ r.1)) (run-append cs ds l')
    ∙ ap (λ os. ((run ds (run cs l').0).0, os))
        (sym (append_assoc seen (run cs l').1 (run ds (run cs l').0).1))

run-one :
    (cs : List (ℕ × Call)) (now : ℕ) (c : Call) (l : Lifecycle)
    → run (cs ++ (now, c) ∷ []) l
      ≡ ((call now c (run cs l).0).0, (run cs l).1 ++ (call now c (run cs l).0).1)
unfolding run
run-one cs now c l =
    run-append cs ((now, c) ∷ []) l
    ∙ ap (λ os. ((call now c (run cs l).0).0, (run cs l).1 ++ os))
        (append-nil (call now c (run cs l).0).1)

-- A call's observations join those that are on their way.
seen_joins : (d seen p r : List Observation) → Perm (d ++ p) r → Perm (d ++ (seen ++ p)) (r ++ seen)
seen_joins d seen p r h =
    Perm.trans (Perm.append_left d (perm_append_comm seen p))
      (subst (λ os. Perm os (r ++ seen)) (append_assoc d p seen) (Perm.append_right seen h))

one_moves :
    (d : List Observation) (before : List (List Observation)) (o : Observation)
    (later : List Observation) (after : List (List Observation))
    → Perm
        ((d ++ o ∷ []) ++ all_of (before ++ later ∷ after))
        (d ++ all_of (before ++ (o ∷ later) ∷ after))
one_moves d before o later after =
    rw
      (
        append_assoc d (o ∷ []) (all_of (before ++ later ∷ after)),
        all_of-append before (later ∷ after),
        all_of-append before ((o ∷ later) ∷ after),
      )
      (Perm.append_left d (Perm.symm (perm_middle (all_of before) (later ++ all_of after))))

-- The lifecycle is where the calls, one after another, lead, and nothing is lost or made up.
record FlightOk (l : Lifecycle) (s : Flight) : Type 0 where
  lifecycle : s.lifecycle ≡ (run s.calls l).0
  kept : Perm (s.delivered ++ all_of s.pending) (run s.calls l).1

begin-FlightOk : (l : Lifecycle) → FlightOk l (begin l)
unfolding run
begin-FlightOk l = record { lifecycle = refl; kept = Perm.refl [] }

Step-FlightOk : {l : Lifecycle} {s t : Flight} → Step s t → FlightOk l s → FlightOk l t
unfolding mark deliver
Step-FlightOk {l} {s} (marks now c) v = record {
  lifecycle = rw (run-one s.calls now c l, v.lifecycle) refl;
  kept =
      rw (run-one s.calls now c l, v.lifecycle)
        (seen_joins s.delivered (call now c (run s.calls l).0).1 (all_of s.pending)
          (run s.calls l).1 v.kept);
}
Step-FlightOk {l} {s} (delivers before o later after h) v = record {
  lifecycle = v.lifecycle;
  kept =
      Perm.trans (one_moves s.delivered before o later after)
        (subst (λ q. Perm (s.delivered ++ all_of q) (run s.calls l).1) h v.kept);
}

Reach-FlightOk : {l : Lifecycle} {s : Flight} → Reach (begin l) s → FlightOk l s
Reach-FlightOk {l} here = begin-FlightOk l
Reach-FlightOk (next r st) = Step-FlightOk st (Reach-FlightOk r)

-- However calls come between one another, once all of them have handed on what they had, the
-- observer has received the observations of the calls made one after another, each of them once,
-- in some order, and the lifecycle is the one that they lead to.
pub delivered_once :
    (l : Lifecycle) (s : Flight)
    → Reach (begin l) s
    → Quiet s
    → Perm s.delivered (run s.calls l).1 × (s.lifecycle ≡ (run s.calls l).0)
delivered_once l s r quiet =
    let v = Reach-FlightOk r in
    (
      subst (λ os. Perm os (run s.calls l).1)
          (ap (λ os. s.delivered ++ os) quiet ∙ append-nil s.delivered) v.kept,
      v.lifecycle,
    )

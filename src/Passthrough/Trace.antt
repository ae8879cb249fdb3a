-- ===== src/Passthrough/Trace.antt =====
-- The order in which a stream's observations come, as an automaton.
use caddy_bifrost.Base.{
  ℕ, ◌≡◌, refl, ◌∙◌, ap, Option, none, some, List, [], ◌∷◌, ◌++◌, arith, if◌then◌else◌, All,
  All-append, subst,
}
use caddy_bifrost.Passthrough.{
  EventType, stream_started, stream_ended, stream_rejected, stream_usage_delta, Resolution,
  Observation, Lifecycle, Call, start, bytes, end, reject, call, run, ingress_to_endpoint,
  endpoint_to_ingress, other_direction,
}

-- Where a stream is: nothing reported, started, or over.
pub data Phase : Type 0 where
  waiting flowing over : Phase

-- The one event that each phase allows beside its end.
abbrev pub advance : Phase → EventType → Option Phase
advance waiting stream_started = some flowing
advance waiting stream_rejected = some over
advance flowing stream_usage_delta = some flowing
advance flowing stream_ended = some over
advance _ _ = none

abbrev pub follow : Option Phase → List Observation → Option Phase
follow none os = none
follow (some p) [] = some p
follow (some p) (o ∷ os) = follow (advance p o.event_type) os

-- The phase that the flags stand for.
abbrev pub phase : Lifecycle → Phase
phase l = if l.ended then over else if l.started then flowing else waiting

pub follow-append :
    (p : Option Phase) (xs ys : List Observation) → follow p (xs ++ ys) ≡ follow (follow p xs) ys
follow-append none [] ys = refl
follow-append none (x ∷ xs) ys = refl
follow-append (some p) [] ys = refl
follow-append (some p) (x ∷ xs) ys = follow-append (advance p x.event_type) xs ys

call-follow :
    (now : ℕ) (c : Call) (l : Lifecycle)
    → follow (some (phase l)) (call now c l).1 ≡ some (phase (call now c l).0)
unfolding call
call-follow now start l = ground arith
call-follow now (bytes ingress_to_endpoint n) l = ground arith
call-follow now (bytes endpoint_to_ingress n) l = ground arith
call-follow now (bytes other_direction n) l = ground arith
call-follow now end l = ground arith
call-follow now (reject _) l = ground arith

-- Whatever calls are made, the observations of a stream are a run of the automaton from its phase
-- before the calls to its phase after them: a start before any use, at most one start, use only
-- between start and end, at most one end, a rejection only in place of all this, and nothing after.
pub run-follow :
    (cs : List (ℕ × Call)) (l : Lifecycle)
    → follow (some (phase l)) (run cs l).1 ≡ some (phase (run cs l).0)
unfolding run
run-follow [] l = refl
run-follow ((now, c) ∷ cs) l =
    follow-append (some (phase l)) (call now c l).1 (run cs (call now c l).0).1
    ∙ ap (λ p. follow p (run cs (call now c l).0).1) (call-follow now c l)
    ∙ run-follow cs (call now c l).0

-- The keys of an observation are those of the route decision.
abbrev pub Tagged : Resolution → Observation → Type 0
Tagged r o = (o.endpoint_key ≡ r.endpoint_key) × (o.observation_key ≡ r.observation_key)

call-Tagged :
    (now : ℕ) (c : Call) (l : Lifecycle)
    → All (Tagged l.resolution) (call now c l).1 × ((call now c l).0.resolution ≡ l.resolution)
unfolding call
call-Tagged now start l = ground arith
call-Tagged now (bytes ingress_to_endpoint n) l = ground arith
call-Tagged now (bytes endpoint_to_ingress n) l = ground arith
call-Tagged now (bytes other_direction n) l = ground arith
call-Tagged now end l = ground arith
call-Tagged now (reject _) l = ground arith

-- Every observation carries the endpoint key and the observation key of the route decision.
pub run-Tagged : (cs : List (ℕ × Call)) (l : Lifecycle) → All (Tagged l.resolution) (run cs l).1
unfolding run
run-Tagged [] l = tt
run-Tagged ((now, c) ∷ cs) l =
    let (here, same) = call-Tagged now c l in
    All-append (Tagged l.resolution) (call now c l).1 (run cs (call now c l).0).1 here (
      subst (λ r. All (Tagged r) (run cs (call now c l).0).1) same (run-Tagged cs (call now c l).0))

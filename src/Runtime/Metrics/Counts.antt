-- ===== src/Runtime/Metrics/Counts.antt =====
-- What the counters count, over any sequence of events.
use caddy_bifrost.Base.{
  ℕ, zero, suc, ◌+◌, ◌≡◌, refl, ap, Bool, true, false, not, ◌&&◌, Option, none, some, List, [], ◌∷◌,
  arith, is_empty, ℤ, pos, negsuc, pos_part, neg_part,
}
use caddy_bifrost.Text.{Text, text_eq, text_eq_iff}
use caddy_bifrost.Passthrough.{Direction, ingress_to_endpoint, endpoint_to_ingress, other_direction}
use caddy_bifrost.Runtime.Metrics.{
  Metrics, StreamObserver, adjust, inc_ℤ, dec_ℤ, session_started, session_ended, stream_started,
  add_bytes, end_stream,
}

abbrev one_if : Bool → ℕ
one_if true = 1
one_if false = 0

-- The tunnel library's reports on sessions: one starts or ends at an endpoint.
pub data SessionEvent : Type 0 where
  starts ends : Text → SessionEvent

abbrev pub run_sessions : List SessionEvent → Metrics → Metrics
run_sessions [] m = m
run_sessions (starts key ∷ es) m = run_sessions es (session_started key m)
run_sessions (ends key ∷ es) m = run_sessions es (session_ended key m)

abbrev pub started_count : Text → List SessionEvent → ℕ
started_count k [] = 0
started_count k (starts key ∷ es) = one_if (text_eq k key) + started_count k es
started_count k (ends key ∷ es) = started_count k es

abbrev pub ended_count : Text → List SessionEvent → ℕ
ended_count k [] = 0
ended_count k (starts key ∷ es) = ended_count k es
ended_count k (ends key ∷ es) = one_if (text_eq k key) + ended_count k es

inc_ℤ-parts : (x : ℤ) → pos_part (inc_ℤ x) + neg_part x ≡ neg_part (inc_ℤ x) + pos_part x + 1
inc_ℤ-parts (pos n) = omega arith
inc_ℤ-parts (negsuc zero) = omega arith
inc_ℤ-parts (negsuc (suc n)) = omega arith

dec_ℤ-parts : (x : ℤ) → pos_part (dec_ℤ x) + neg_part x + 1 ≡ neg_part (dec_ℤ x) + pos_part x
dec_ℤ-parts (pos zero) = omega arith
dec_ℤ-parts (pos (suc n)) = omega arith
dec_ℤ-parts (negsuc n) = omega arith

start_session-parts :
    (k key : Text) (m : Metrics)
    → is_empty k ≡ false
    → let g = (session_started key m).active_sessions k in
      pos_part g + neg_part (m.active_sessions k)
      ≡ neg_part g + pos_part (m.active_sessions k) + one_if (text_eq k key)
unfolding session_started adjust
start_session-parts k key m h = ground (arith, inc_ℤ-parts (m.active_sessions k), text_eq_iff k key)

end_session-parts :
    (k key : Text) (m : Metrics)
    → is_empty k ≡ false
    → let g = (session_ended key m).active_sessions k in
      pos_part g + neg_part (m.active_sessions k) + one_if (text_eq k key)
      ≡ neg_part g + pos_part (m.active_sessions k)
unfolding session_ended adjust
end_session-parts k key m h = ground (arith, dec_ℤ-parts (m.active_sessions k), text_eq_iff k key)

-- The gauge of an endpoint moves by its sessions that started less its sessions that ended, in
-- whatever order they come and whatever other endpoints do.
pub run_sessions-gauge :
    (es : List SessionEvent) (k : Text) (m : Metrics)
    → is_empty k ≡ false
    → let g = (run_sessions es m).active_sessions k in
      pos_part g + neg_part (m.active_sessions k) + ended_count k es
      ≡ neg_part g + pos_part (m.active_sessions k) + started_count k es
run_sessions-gauge [] k m h = omega arith
run_sessions-gauge (starts key ∷ es) k m h =
    omega (arith, start_session-parts k key m h, run_sessions-gauge es k (session_started key m) h)
run_sessions-gauge (ends key ∷ es) k m h =
    omega (arith, end_session-parts k key m h, run_sessions-gauge es k (session_ended key m) h)

-- What happens to streams: one starts at an endpoint, or the observer of the n-th newest, be it
-- over or not, is told of bytes or of its end.
pub data StreamEvent : Type 0 where
  opens : Text → StreamEvent
  moves : ℕ → Direction → ℤ → StreamEvent
  closes : ℕ → StreamEvent

abbrev pub Streams : Type 0
Streams = Metrics × List StreamObserver

abbrev pub add_observer : Metrics × Option StreamObserver → List StreamObserver → Streams
add_observer (m, none) os = (m, os)
add_observer (m, some o) os = (m, o ∷ os)

abbrev pub move_nth : ℕ → Direction → ℤ → List StreamObserver → Metrics → Metrics
move_nth i direction n [] m = m
move_nth zero direction n (o ∷ os) m = add_bytes o direction n m
move_nth (suc i) direction n (o ∷ os) m = move_nth i direction n os m

abbrev pub close_nth : ℕ → List StreamObserver → Metrics → Streams
close_nth i [] m = (m, [])
close_nth zero (o ∷ os) m = let (m', o') = end_stream o m in (m', o' ∷ os)
close_nth (suc i) (o ∷ os) m = let (m', os') = close_nth i os m in (m', o ∷ os')

abbrev pub stream_step : StreamEvent → Streams → Streams
stream_step (opens key) (m, os) = add_observer (stream_started key m) os
stream_step (moves i direction n) (m, os) = (move_nth i direction n os m, os)
stream_step (closes i) (m, os) = close_nth i os m

abbrev pub run_streams : List StreamEvent → Streams → Streams
run_streams [] s = s
run_streams (e ∷ es) s = run_streams es (stream_step e s)

-- The streams of an endpoint whose end was not counted yet.
abbrev pub open_count : Text → List StreamObserver → ℕ
open_count k [] = 0
open_count k (o ∷ os) = one_if (not o.once && text_eq k o.endpoint_key) + open_count k os

abbrev Balanced : Text → Streams → Type 0
Balanced k (m, os) = m.streams_started k ≡ m.streams_ended k + open_count k os

add_bytes-streams :
    (o : StreamObserver) (direction : Direction) (n : ℤ) (m : Metrics)
    → ((add_bytes o direction n m).streams_started ≡ m.streams_started)
      × ((add_bytes o direction n m).streams_ended ≡ m.streams_ended)
unfolding add_bytes
add_bytes-streams o ingress_to_endpoint n m = ground arith
add_bytes-streams o endpoint_to_ingress n m = ground arith
add_bytes-streams o other_direction n m = ground arith

move_nth-Balanced :
    (k : Text) (i : ℕ) (direction : Direction) (n : ℤ) (os : List StreamObserver) (m : Metrics)
    → ((move_nth i direction n os m).streams_started ≡ m.streams_started)
      × ((move_nth i direction n os m).streams_ended ≡ m.streams_ended)
move_nth-Balanced k i direction n [] m = (refl, refl)
move_nth-Balanced k zero direction n (o ∷ os) m = add_bytes-streams o direction n m
move_nth-Balanced k (suc i) direction n (o ∷ os) m = move_nth-Balanced k i direction n os m

open-Balanced :
    (k key : Text) (os : List StreamObserver) (m : Metrics)
    → Balanced k (m, os)
    → Balanced k (add_observer (stream_started key m) os)
unfolding stream_started adjust
open-Balanced k key os m h = ground (arith, text_eq_iff k key)

end_stream-counts :
    (k : Text) (o : StreamObserver) (m : Metrics)
    → ((end_stream o m).0.streams_started k ≡ m.streams_started k)
      × ((end_stream o m).0.streams_ended k + open_count k ((end_stream o m).1 ∷ [])
          ≡ m.streams_ended k + open_count k (o ∷ []))
unfolding end_stream adjust
end_stream-counts k o m = ground (arith, text_eq_iff k o.endpoint_key)

close_nth-counts :
    (k : Text) (i : ℕ) (os : List StreamObserver) (m : Metrics)
    → let s = close_nth i os m in
      (s.0.streams_started k ≡ m.streams_started k)
      × (s.0.streams_ended k + open_count k s.1 ≡ m.streams_ended k + open_count k os)
close_nth-counts k i [] m = (refl, refl)
close_nth-counts k zero (o ∷ os) m =
    let (same, counts) = end_stream-counts k o m in (same, omega arith)
close_nth-counts k (suc i) (o ∷ os) m =
    let (same, counts) = close_nth-counts k i os m in (same, omega arith)

step-Balanced :
    (k : Text) (e : StreamEvent) (s : Streams) → Balanced k s → Balanced k (stream_step e s)
step-Balanced k (opens key) (m, os) h = open-Balanced k key os m h
step-Balanced k (moves i direction n) (m, os) h =
    let (same, also) = move_nth-Balanced k i direction n os m in
    omega (arith, ap (λ (f : Text → ℕ). f k) same, ap (λ (f : Text → ℕ). f k) also)
step-Balanced k (closes i) (m, os) h = let (same, counts) = close_nth-counts k i os m in omega arith

-- At every moment the streams counted as started at an endpoint are those counted as ended and
-- those still open, however often the end of a stream is reported.
pub run_streams-Balanced :
    (es : List StreamEvent) (k : Text) (m : Metrics) (os : List StreamObserver)
    → m.streams_started k ≡ m.streams_ended k + open_count k os
    → let s = run_streams es (m, os) in
      s.0.streams_started k ≡ s.0.streams_ended k + open_count k s.1
run_streams-Balanced [] k m os h = h
run_streams-Balanced (e ∷ es) k m os h =
    let s = stream_step e (m, os) in run_streams-Balanced es k s.0 s.1 (step-Balanced k e (m, os) h)

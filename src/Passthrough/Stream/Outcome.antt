-- ===== src/Passthrough/Stream/Outcome.antt =====
-- What the observer of a stream has seen when the stream is over.
use caddy_bifrost.Base.{
  ℕ, ◌≡◌, ◌≢◌, refl, ◌∙◌, ap, ◌⊎◌, inl, inr, true, false, Option, none, some, List, [], ◌∷◌, arith,
  All, Option-cases, pos,
}
use caddy_bifrost.Text.{Text}
use caddy_bifrost.Passthrough.{
  unset, no_reason, stream_rejected, StreamReason, StreamResult, Resolution, Observation, Lifecycle,
  Call, start, bytes, end, reject, ingress_to_endpoint, endpoint_to_ingress, other_direction,
  new_lifecycle, mark_rejected, or_open_failed, observation_at, call, run,
}
use caddy_bifrost.Passthrough.Trace.{waiting, over, phase, follow, follow-append, run-follow}
use caddy_bifrost.Passthrough.Bytes.{added, call-started}
use caddy_bifrost.Passthrough.Stream.{classify, finish_stream, stream}

-- The calls that the tunnel library makes on a stream observer.
abbrev pub FromProxy : ℕ × Call → Type 0
FromProxy (now, start) = ⊥
FromProxy (now, bytes direction n) = Unit {0}
FromProxy (now, end) = Unit {0}
FromProxy (now, reject _) = ⊥

-- A call of the tunnel library that counts no byte, in either direction.
abbrev pub IsIdle : ℕ × Call → Type 0
IsIdle (now, start) = ⊥
IsIdle (now, bytes direction n) =
    ((added (bytes direction n)).0 ≡ 0) × ((added (bytes direction n)).1 ≡ 0)
IsIdle (now, end) = Unit {0}
IsIdle (now, reject _) = ⊥

-- A rejection always has a reason that names one.
pub classify-IsReason : (e : Option Text) → (classify e ≢ unset) × (classify e ≢ no_reason)
unfolding classify
classify-IsReason none = ground arith
classify-IsReason (some message) = ground arith

finish-follow :
    (now : ℕ) (result : Option Text) (l : Lifecycle)
    → follow (some (phase l)) (finish_stream now result l).1
      ≡ some (phase (finish_stream now result l).0)
unfolding finish_stream call
finish-follow now none l = ground arith
finish-follow now (some e) l = ground arith

-- The flags that calls on an observed lifecycle reach: it is over only if it had started.
record Sound (l : Lifecycle) : Type 0 where
  observed : l.observed ≡ true
  over_started : (l.ended ≡ false) ⊎ (l.started ≡ true)

call-Sound : (c : ℕ × Call) (l : Lifecycle) → FromProxy c → Sound l → Sound (call c.0 c.1 l).0
unfolding call
call-Sound (now, start) l h v = absurd h
call-Sound (now, bytes ingress_to_endpoint n) l h v = ground arith
call-Sound (now, bytes endpoint_to_ingress n) l h v = ground arith
call-Sound (now, bytes other_direction n) l h v = ground arith
call-Sound (now, end) l h v = ground arith
call-Sound (now, reject _) l h v = absurd h

run-Sound : (cs : List (ℕ × Call)) (l : Lifecycle) → All FromProxy cs → Sound l → Sound (run cs l).0
unfolding run
run-Sound [] l h v = v
run-Sound ((now, c) ∷ cs) l (h, hs) v = run-Sound cs (call now c l).0 hs (call-Sound (now, c) l h v)

finish-over :
    (now : ℕ) (result : Option Text) (l : Lifecycle)
    → Sound l
    → (result ≢ none) ⊎ (l.started ≡ true)
    → phase (finish_stream now result l).0 ≡ over
unfolding finish_stream call mark_rejected
finish-over now none l v h = ground arith
finish-over now (some e) l v h = ground arith

run-started :
    (cs : List (ℕ × Call)) (l : Lifecycle) → l.started ≡ true → (run cs l).0.started ≡ true
unfolding run
run-started [] l h = h
run-started ((now, c) ∷ cs) l h = run-started cs (call now c l).0 (call-started now c l h)

record Fresh (l : Lifecycle) : Type 0 where
  observed : l.observed ≡ true
  unstarted : l.started ≡ false
  open_still : l.ended ≡ false

-- The first call on a fresh lifecycle moves no byte and reports nothing, or starts the stream.
first_call :
    (c : ℕ × Call) (l : Lifecycle)
    → FromProxy c
    → Fresh l
    → (IsIdle c × (call c.0 c.1 l ≡ (l, []))) ⊎ ((call c.0 c.1 l).0.started ≡ true)
unfolding call
first_call (now, start) l h v = absurd h
first_call (now, bytes ingress_to_endpoint n) l h v = ground arith
first_call (now, bytes endpoint_to_ingress n) l h v = ground arith
first_call (now, bytes other_direction n) l h v = ground arith
first_call (now, end) l h v = ground arith
first_call (now, reject _) l h v = absurd h

IsIdle-or_started :
    (cs : List (ℕ × Call)) (l : Lifecycle)
    → All FromProxy cs
    → Fresh l
    → (All IsIdle cs × (run cs l ≡ (l, []))) ⊎ ((run cs l).0.started ≡ true)
unfolding run
IsIdle-or_started [] l h v = inl (tt, refl)
IsIdle-or_started ((now, c) ∷ cs) l (h, hs) v = elim (first_call (now, c) l h v) [
  | inr begun ↦ inr (run-started cs (call now c l).0 begun)
  | inl (idle, quiet) ↦ rw quiet (elim (IsIdle-or_started cs l hs v) [
    | inr begun ↦ inr begun
    | inl (idles, silent) ↦ inl ((idle, idles), rw silent refl)
  ])
]

Fresh-new : (resolution : Resolution) → Fresh (new_lifecycle true resolution)
unfolding new_lifecycle
Fresh-new resolution = record { observed = refl; unstarted = refl; open_still = refl }

Fresh-Sound : (l : Lifecycle) → Fresh l → Sound l
Fresh-Sound l v = record { observed = v.observed; over_started = inl v.open_still }

idle_calls : (cs : List (ℕ × Call)) (l : Lifecycle) → All IsIdle cs → Fresh l → run cs l ≡ (l, [])
unfolding run call
idle_calls [] l h v = refl
idle_calls ((now, start) ∷ cs) l (h, hs) v = absurd h
idle_calls ((now, reject _) ∷ cs) l (h, hs) v = absurd h
idle_calls ((now, end) ∷ cs) l (h, hs) v = ground (arith, idle_calls cs l hs v)
idle_calls ((now, bytes ingress_to_endpoint n) ∷ cs) l (h, hs) v =
    ground (arith, idle_calls cs l hs v)
idle_calls ((now, bytes endpoint_to_ingress n) ∷ cs) l (h, hs) v =
    ground (arith, idle_calls cs l hs v)
idle_calls ((now, bytes other_direction n) ∷ cs) l (h, hs) v = ground (arith, idle_calls cs l hs v)

end_unstarted : (now : ℕ) (l : Lifecycle) → Fresh l → finish_stream now none l ≡ (l, [])
unfolding finish_stream call
end_unstarted now l v = ground arith

stream-over :
    (resolution : Resolution) (proxied : List (ℕ × Call)) (now : ℕ) (result : Option Text)
    → All FromProxy proxied
    → (result ≢ none) ⊎ ((run proxied (new_lifecycle true resolution)).0.started ≡ true)
    → follow (some waiting) (stream true resolution proxied now result).1 ≡ some over
unfolding stream new_lifecycle
stream-over resolution proxied now result h why =
    let l = new_lifecycle true resolution in
    let r = run proxied l in
    follow-append (some waiting) r.1 (finish_stream now result r.0).1
    ∙ ap (λ p. follow p (finish_stream now result r.0).1) (run-follow proxied l)
    ∙ finish-follow now result r.0
    ∙ ap some (
        finish-over now result r.0 (run-Sound proxied l h (Fresh-Sound l (Fresh-new resolution)))
          why)

-- A stream whose observer is set ends with its last event, or has reported nothing: with an error
-- it always ends with an end or a rejection; with no error and no event it moved no byte.
pub stream-closed :
    (resolution : Resolution) (proxied : List (ℕ × Call)) (now : ℕ) (result : Option Text)
    → All FromProxy proxied
    → let r = stream true resolution proxied now result in
      (follow (some waiting) r.1 ≡ some over) ⊎ ((r.1 ≡ []) × (result ≡ none) × All IsIdle proxied)
unfolding stream
stream-closed resolution proxied now result h =
    elim (IsIdle-or_started proxied (new_lifecycle true resolution) h (Fresh-new resolution)) [
      | inr begun ↦ inl (stream-over resolution proxied now result h (inr begun))
      | inl (idle, silent) ↦ elim (Option-cases result) [
        | inr (e, failed) ↦ inl (stream-over resolution proxied now result h (inl (λ n. cc)))
        | inl fine ↦ inr (
          rw (silent, fine)
              (rw (end_unstarted now (new_lifecycle true resolution) (Fresh-new resolution)) refl),
          fine,
          idle,
        )
      ]
    ]

-- A rejection as the observer sees it: no byte, and its reason.
abbrev pub rejection : Resolution → ℕ → StreamReason → Observation
rejection resolution now why = record {
  endpoint_key = resolution.endpoint_key;
  event_type = stream_rejected;
  observed_at = now;
  result = StreamResult.rejected;
  reason = why;
  observation_key = resolution.observation_key;
  bytes_ingress_to_endpoint = pos 0;
  bytes_endpoint_to_ingress = pos 0;
}

or_open_failed-named : (why : StreamReason) → why ≢ unset → or_open_failed why ≡ why
unfolding or_open_failed
or_open_failed-named why named = ground arith

fresh_rejection :
    (resolution : Resolution) (now : ℕ) (message : Text)
    → (finish_stream now (some message) (new_lifecycle true resolution)).1
      ≡ rejection resolution now (classify (some message)) ∷ []
unfolding finish_stream new_lifecycle mark_rejected observation_at
fresh_rejection resolution now message =
    ap (λ why. rejection resolution now why ∷ [])
      (or_open_failed-named (classify (some message)) (classify-IsReason (some message)).0)

-- If nothing flowed and the tunnel failed, the observer sees one rejection and nothing else: for the
-- stream's endpoint and key, at the time of the failure, with no bytes, and with the reason that the
-- tunnel's error is classified as.
pub stream-rejected :
    (resolution : Resolution) (proxied : List (ℕ × Call)) (now : ℕ) (message : Text)
    → All IsIdle proxied
    → (stream true resolution proxied now (some message)).1
      ≡ rejection resolution now (classify (some message)) ∷ []
unfolding stream
stream-rejected resolution proxied now message h =
    let l = new_lifecycle true resolution in
    rw (idle_calls proxied l h (Fresh-new resolution)) (fresh_rejection resolution now message)

-- ===== src/Passthrough/Delivery/Crossing.antt =====
-- Two calls of one stream that overlap.
use caddy_bifrost.Base.{ℕ, suc, ◌≡◌, refl, true, none, some, [], ◌∷◌, arith, ℤ, pos}
use caddy_bifrost.Passthrough.{
  stream_started, stream_usage_delta, StreamResult, no_reason, observation_at, Resolution,
  Observation, new_lifecycle, bytes, call, ingress_to_endpoint, endpoint_to_ingress,
}
use caddy_bifrost.Passthrough.Trace.{waiting, follow}
use caddy_bifrost.Passthrough.Delivery.{
  Flight, begin, mark, deliver, marks, delivers, Reach, here, next, Quiet,
}

module _ (r : Resolution) (a b m n : ℕ) where
  -- The two directions of a new stream see their first bytes.
  crossing : Flight
  crossing =
      mark b (bytes endpoint_to_ingress (pos (suc n)))
        (mark a (bytes ingress_to_endpoint (pos (suc m))) (begin (new_lifecycle true r)))

  abbrev pub begun : Observation
  begun = observation_at (new_lifecycle true r) stream_started StreamResult.started no_reason a

  abbrev pub used : ℕ → ℤ → ℤ → Observation
  used now ingress egress =
      record (observation_at (new_lifecycle true r) stream_usage_delta StreamResult.unset no_reason
        now) { bytes_ingress_to_endpoint = ingress; bytes_endpoint_to_ingress = egress }

  abbrev pub first_in : Observation
  first_in = used a (pos (suc m)) (pos 0)

  abbrev pub second_in : Observation
  second_in = used b (pos 0) (pos (suc n))

  crossing-pending : crossing.pending ≡ (second_in ∷ []) ∷ (begun ∷ first_in ∷ []) ∷ []
  unfolding crossing mark call new_lifecycle
  crossing-pending = ground arith

  -- Calls that overlap may hand on in another order than they were made in. On a new stream two
  -- calls are made, of bytes from the ingress to the endpoint and then of bytes the other way, and
  -- all that they have to hand on is handed on: the observer may have received the use of the second
  -- call before the start of the stream and the use of the first, which is no lifecycle.
  pub delivered_early :
      (s : Flight) × Reach (begin (new_lifecycle true r)) s
      × Quiet s
      × (s.calls
          ≡ (a, bytes ingress_to_endpoint (pos (suc m)))
            ∷ (b, bytes endpoint_to_ingress (pos (suc n)))
            ∷ [])
      × (s.delivered ≡ second_in ∷ begun ∷ first_in ∷ [])
      × (follow (some waiting) s.delivered ≡ none)
  unfolding crossing deliver mark observation_at
  delivered_early =
      let two =
        next (next here (marks a (bytes ingress_to_endpoint (pos (suc m)))))
          (marks b (bytes endpoint_to_ingress (pos (suc n)))) in
      (
        _,
        next
            (next (next two (delivers [] second_in [] _ crossing-pending))
              (delivers ([] ∷ []) begun (first_in ∷ []) [] refl))
            (delivers ([] ∷ []) first_in [] [] refl),
        refl,
        refl,
        refl,
        refl,
      )

-- ===== src/Runtime/Metrics/Registration/Again.antt =====
-- A second observer in a registry counts in the vectors of the first.
use caddy_bifrost.Base.{ℕ, ◌≡◌, refl, ◌∙◌, ap, subst, some, Result, ok, err}
use caddy_bifrost.Runtime.Metrics.Registration.{
  VecKind, gauge_vec, counter_vec, VecOpts, Collector, vec, other_collector, Registered, fresh,
  already, refused, MetricsError, CaddyObserver, sessions_opts, started_opts, ended_opts,
  rejected_opts, bytes_opts, existing_vec, registered_vec, register_vec, with_vec, observer_in,
  new_caddy_observer,
}

-- What Prometheus documents of a registry: `Has r opts v` says that the vector `v` is registered
-- under these options. A vector stays registered, and a second registration finds it.
pub record Keeps {R : Type 0} (register : VecOpts → R → R × Registered) : Type 1 where
  pub Has : R → VecOpts → ℕ → Type 0
  pub made :
      {opts : VecOpts} {r : R} {v : ℕ}
      → (register opts r).1 ≡ fresh v
      → Has (register opts r).0 opts v
  pub found :
      {opts : VecOpts} {r : R} {v : ℕ}
      → (register opts r).1 ≡ already (vec opts.kind v)
      → Has (register opts r).0 opts v
  pub stays :
      (other : VecOpts) {opts : VecOpts} {r : R} {v : ℕ}
      → Has r opts v
      → Has (register other r).0 opts v
  pub again :
      {opts : VecOpts} {r : R} {v : ℕ}
      → Has r opts v
      → (register opts r).1 ≡ already (vec opts.kind v)

existing_vec_sound :
    (kind : VecKind) (c : Collector) (v : ℕ) → existing_vec kind c ≡ ok v → c ≡ vec kind v
unfolding existing_vec
existing_vec_sound gauge_vec (vec gauge_vec u) v h = cc
existing_vec_sound gauge_vec (vec counter_vec u) v h = cc
existing_vec_sound gauge_vec other_collector v h = cc
existing_vec_sound counter_vec (vec counter_vec u) v h = cc
existing_vec_sound counter_vec (vec gauge_vec u) v h = cc
existing_vec_sound counter_vec other_collector v h = cc

existing_vec-vec : (kind : VecKind) (v : ℕ) → existing_vec kind (vec kind v) ≡ ok v
unfolding existing_vec
existing_vec-vec gauge_vec v = refl
existing_vec-vec counter_vec v = refl

-- A successful round of `NewCaddyObserver`.
round_sound :
    {R X : Type 0} (p : R × Result MetricsError ℕ) (rest : ℕ → R → R × Result MetricsError X)
    (r' : R) (x : X)
    → with_vec p rest ≡ (r', ok x)
    → (v : ℕ) × (p ≡ (p.0, ok v)) × (rest v p.0 ≡ (r', ok x))
round_sound (r, ok v) rest r' x h = (v, refl, h)
round_sound (r, err e) rest r' x h = cc

ok_pair :
    {R X : Type 0} (a b : R) (x y : X)
    → ◌≡◌ {A = R × Result MetricsError X} (a, ok x) (b, ok y)
    → ◌≡◌ {A = R × X} (a, x) (b, y)
ok_pair a b x y h = cc

module _ {R : Type 0} (register : VecOpts → R → R × Registered) (k : Keeps register) where
  open k use {Has}

  registered-Has :
      (opts : VecOpts) (r : R) (v : ℕ) (o : Registered)
      → (register opts r).1 ≡ o
      → registered_vec opts.kind o ≡ ok v
      → Has (register opts r).0 opts v
  unfolding registered_vec
  registered-Has opts r v (fresh u) e h = k.made (e ∙ cc)
  registered-Has opts r v (refused x) e h = cc
  registered-Has opts r v (already c) e h =
      k.found (e ∙ ap already (existing_vec_sound opts.kind c v h))

  register_vec-Has :
      (opts : VecOpts) (r : R) (v : ℕ)
      → register_vec register opts r ≡ ((register opts r).0, ok v)
      → Has (register opts r).0 opts v
  unfolding register_vec
  register_vec-Has opts r v h = registered-Has opts r v (register opts r).1 refl (cc)

  register_vec-again :
      (opts : VecOpts) (r : R) (v : ℕ)
      → Has r opts v
      → register_vec register opts r ≡ ((register opts r).0, ok v)
  unfolding register_vec registered_vec
  register_vec-again opts r v h = rw (k.again h, existing_vec-vec opts.kind v) refl

  record HasAll (r : R) (o : CaddyObserver) : Type 0 where
    sessions : Has r sessions_opts o.active_sessions
    started : Has r started_opts o.streams_started
    ended : Has r ended_opts o.streams_ended
    rejected : Has r rejected_opts o.streams_rejected
    bytes : Has r bytes_opts o.stream_bytes

  observer_in-HasAll :
      (r r' : R) (o : CaddyObserver) → observer_in register r ≡ (r', ok o) → HasAll r' o
  unfolding observer_in register_vec
  observer_in-HasAll r r' o h =
      let (s, hs, h) = round_sound (register_vec register sessions_opts r) _ r' o h in
      let r1 = (register sessions_opts r).0 in
      let (b, hb, h) = round_sound (register_vec register started_opts r1) _ r' o h in
      let r2 = (register started_opts r1).0 in
      let (e, he, h) = round_sound (register_vec register ended_opts r2) _ r' o h in
      let r3 = (register ended_opts r2).0 in
      let (j, hj, h) = round_sound (register_vec register rejected_opts r3) _ r' o h in
      let r4 = (register rejected_opts r3).0 in
      let (n, hn, h) = round_sound (register_vec register bytes_opts r4) _ r' o h in
      let r5 = (register bytes_opts r4).0 in
      let all : HasAll r5 (record {
        active_sessions = s;
        streams_started = b;
        streams_ended = e;
        streams_rejected = j;
        stream_bytes = n;
      }) =
        record {
          sessions = k.stays bytes_opts (
              k.stays rejected_opts (
                k.stays ended_opts (k.stays started_opts (register_vec-Has sessions_opts r s hs))));
          started =
              k.stays bytes_opts (
                k.stays rejected_opts (k.stays ended_opts (register_vec-Has started_opts r1 b hb)));
          ended = k.stays bytes_opts (k.stays rejected_opts (register_vec-Has ended_opts r2 e he));
          rejected = k.stays bytes_opts (register_vec-Has rejected_opts r3 j hj);
          bytes = register_vec-Has bytes_opts r4 n hn;
        } in
      subst (λ (q : R × CaddyObserver). HasAll q.0 q.1) (ok_pair _ _ _ _ h) all

  observer_in-again : (r : R) (o : CaddyObserver) → HasAll r o → (observer_in register r).1 ≡ ok o
  unfolding observer_in
  observer_in-again r o h =
      let r1 = (register sessions_opts r).0 in
      let r2 = (register started_opts r1).0 in
      let r3 = (register ended_opts r2).0 in
      let r4 = (register rejected_opts r3).0 in
      rw
        (
          register_vec-again sessions_opts r o.active_sessions h.sessions,
          register_vec-again started_opts r1 o.streams_started (k.stays sessions_opts h.started),
          register_vec-again ended_opts r2 o.streams_ended
              (k.stays started_opts (k.stays sessions_opts h.ended)),
          register_vec-again rejected_opts r3 o.streams_rejected
              (k.stays ended_opts (k.stays started_opts (k.stays sessions_opts h.rejected))),
          register_vec-again bytes_opts r4 o.stream_bytes (
              k.stays rejected_opts
                (k.stays ended_opts (k.stays started_opts (k.stays sessions_opts h.bytes)))),
        )
        refl

  in_registry :
      (r r' : R) (o : CaddyObserver)
      → new_caddy_observer register (some r) ≡ (some r', ok o)
      → observer_in register r ≡ (r', ok o)
  unfolding new_caddy_observer
  in_registry r r' o h = cc

  -- An observer that is made in a registry where one was made before counts in the very same five
  -- vectors, and its making does not fail, given that the registry keeps its vectors.
  pub new_caddy_observer_again :
      (r r' : R) (o : CaddyObserver)
      → new_caddy_observer register (some r) ≡ (some r', ok o)
      → (new_caddy_observer register (some r')).1 ≡ ok o
  unfolding new_caddy_observer
  new_caddy_observer_again r r' o h =
      observer_in-again r' o (observer_in-HasAll r r' o (in_registry r r' o h))

-- ===== src/Runtime/Metrics/Registration.antt =====
-- internal/runtime/metrics.go: `NewCaddyObserver` and the registration of its metric vectors. The
-- Prometheus registry is a parameter; a vector is a place in it.
pub mod Again
use caddy_bifrost.Base.{ℕ, Bool, true, false, Option, none, some, List, [], ◌∷◌, Result, ok, err}
use caddy_bifrost.Text.{Text, text}

pub data VecKind : Type 0 where
  gauge_vec counter_vec : VecKind

-- `prometheus.GaugeOpts` or `prometheus.CounterOpts` with the labels. The namespace is "bifrost"
-- and the subsystem "endpoint" throughout.
pub record VecOpts : Type 0 where
  pub kind : VecKind
  pub name : Text
  pub labels : List Text

-- A collector that a registry has already.
pub data Collector : Type 0 where
  vec : VecKind → ℕ → Collector
  other_collector : Collector

-- What `Registry.Register` returns: no error, `AlreadyRegisteredError`, or another error.
pub data Registered : Type 0 where
  fresh : ℕ → Registered
  already : Collector → Registered
  refused : Text → Registered

pub data MetricsError : Type 0 where
  registry_required already_registered : MetricsError
  register_failed : Text → MetricsError

-- `CaddyObserver`.
pub record CaddyObserver : Type 0 where
  pub active_sessions : ℕ
  pub streams_started : ℕ
  pub streams_ended : ℕ
  pub streams_rejected : ℕ
  pub stream_bytes : ℕ

abbrev pub sessions_opts : VecOpts
sessions_opts = record {
  kind = gauge_vec;
  name = text "active_sessions";
  labels = text "endpoint_key" ∷ [];
}

abbrev pub started_opts : VecOpts
started_opts = record {
  kind = counter_vec;
  name = text "streams_started_total";
  labels = text "endpoint_key" ∷ [];
}

abbrev pub ended_opts : VecOpts
ended_opts = record {
  kind = counter_vec;
  name = text "streams_ended_total";
  labels = text "endpoint_key" ∷ [];
}

abbrev pub rejected_opts : VecOpts
rejected_opts = record {
  kind = counter_vec;
  name = text "streams_rejected_total";
  labels = text "endpoint_key" ∷ text "reason" ∷ [];
}

abbrev pub bytes_opts : VecOpts
bytes_opts = record {
  kind = counter_vec;
  name = text "stream_bytes_total";
  labels = text "endpoint_key" ∷ text "direction" ∷ [];
}

-- The vector that an existing collector is, if it is one of the kind.
existing_vec : VecKind → Collector → Result MetricsError ℕ
existing_vec gauge_vec (vec gauge_vec v) = ok v
existing_vec gauge_vec (vec counter_vec v) = err already_registered
existing_vec gauge_vec other_collector = err already_registered
existing_vec counter_vec (vec counter_vec v) = ok v
existing_vec counter_vec (vec gauge_vec v) = err already_registered
existing_vec counter_vec other_collector = err already_registered

registered_vec : VecKind → Registered → Result MetricsError ℕ
unfolding existing_vec
registered_vec kind (fresh v) = ok v
registered_vec kind (already c) = existing_vec kind c
registered_vec kind (refused e) = err (register_failed e)

-- `vec, err := …; if err != nil { return nil, err }`.
abbrev pub with_vec {ℓ} :
    {R : Type 0} {X : Type ℓ}
    → R × Result MetricsError ℕ
    → (ℕ → R → R × Result MetricsError X)
    → R × Result MetricsError X
with_vec (r, ok v) rest = rest v r
with_vec (r, err e) rest = (r, err e)

module _ {R : Type 0} (register : VecOpts → R → R × Registered) where
  -- `registerGaugeVec` and `registerCounterVec`.
  unfoldable pub register_vec : VecOpts → R → R × Result MetricsError ℕ
  unfolding registered_vec
  register_vec opts r =
      let (r', outcome) = register opts r in (r', registered_vec opts.kind outcome)

  -- `NewCaddyObserver` on a registry that is there.
  unfoldable pub observer_in : R → R × Result MetricsError CaddyObserver
  observer_in r = with_vec (register_vec sessions_opts r) λ sessions r.
      with_vec (register_vec started_opts r) λ started r.
        with_vec (register_vec ended_opts r) λ ended r.
          with_vec (register_vec rejected_opts r) λ rejected r.
            with_vec (register_vec bytes_opts r) λ bytes r. (
              r,
              ok (record {
                active_sessions = sessions;
                streams_started = started;
                streams_ended = ended;
                streams_rejected = rejected;
                stream_bytes = bytes;
              }),
            )

  -- `NewCaddyObserver`.
  unfoldable pub new_caddy_observer : Option R → Option R × Result MetricsError CaddyObserver
  new_caddy_observer none = (none, err registry_required)
  new_caddy_observer (some r) = let (r', made) = observer_in r in (some r', made)

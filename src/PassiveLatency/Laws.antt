-- ===== src/PassiveLatency/Laws.antt =====
-- What the bridge promises of every observation that it hands on.
use caddy_bifrost.Base.{
  ℕ, ◌*◌, ◌≤◌, ◌≡◌, ◌≢◌, refl, ◌↔◌, true, false, Option, none, some, List, [], ◌∷◌, arith, All,
  is_some, is_empty, ℤ, pos, ◌≤ℤ◌, map,
}
use caddy_bifrost.Text.{Text, trim_space}
use caddy_bifrost.Text.Trim.{IsTrimmed, trim_space-IsTrimmed}
use caddy_bifrost.PassiveLatency.{
  LatencyState, latency_ok, latency_unknown, latency_stale, LatencyObservation, TunnelObservation,
  LatencyRuntime, convert_state, convert_known, convert_observation, unknown_observation,
  app_observation, app_snapshot, millisecond, passive_latency_milliseconds, observe_latency,
  Context, LatencyAdapter, call_observer, observer_of,
}

-- The value and its time are there exactly when the state is not unknown.
pub record Bounded (o : LatencyObservation) : Type 0 where
  pub key : IsTrimmed o.endpoint_key
  pub latency : (is_some o.latency_ms ≡ true) ↔ (o.state ≢ latency_unknown)
  pub at : (is_some o.observed_at ≡ true) ↔ (o.state ≢ latency_unknown)

unknown-Bounded : (key : Text) → Bounded (unknown_observation key)
unfolding unknown_observation
unknown-Bounded key = record {
  key = trim_space-IsTrimmed key;
  latency = ((λ e. cc), (λ h. absurd (h refl)));
  at = ((λ e. cc), (λ h. absurd (h refl)));
}

convert_known-Bounded :
    (key : Text) (state : LatencyState) (latency : Option ℤ) (at : Option ℕ)
    → Bounded (convert_known key state latency at)
unfolding convert_known
convert_known-Bounded key latency_unknown latency at = unknown-Bounded key
convert_known-Bounded key latency_ok none at = unknown-Bounded key
convert_known-Bounded key latency_ok (some n) none = unknown-Bounded key
convert_known-Bounded key latency_ok (some n) (some t) = record {
  key = trim_space-IsTrimmed key;
  latency = ((λ e. λ s. cc), (λ h. refl));
  at = ((λ e. λ s. cc), (λ h. refl));
}
convert_known-Bounded key latency_stale none at = unknown-Bounded key
convert_known-Bounded key latency_stale (some n) none = unknown-Bounded key
convert_known-Bounded key latency_stale (some n) (some t) = record {
  key = trim_space-IsTrimmed key;
  latency = ((λ e. λ s. cc), (λ h. refl));
  at = ((λ e. λ s. cc), (λ h. refl));
}

convert_observation-Bounded : (o : TunnelObservation) → Bounded (convert_observation o)
unfolding convert_observation
convert_observation-Bounded o =
    convert_known-Bounded o.endpoint_key (convert_state o.state) o.latency_ms o.observed_at

-- Whatever runtime the app has and whatever it answers, the observation of an endpoint is bounded:
-- its key is trimmed, and a latency and a time are present exactly when the state is not unknown.
pub app_observation-Bounded :
    (runtime : Option LatencyRuntime) (key : Text) (now : ℕ)
    → Bounded (app_observation runtime key now)
unfolding app_observation
app_observation-Bounded none key now = unknown-Bounded key
app_observation-Bounded (some r) key now = convert_observation-Bounded (r.observation key now)

map-Bounded : (os : List TunnelObservation) → All Bounded (map convert_observation os)
map-Bounded [] = tt
map-Bounded (o ∷ os) = (convert_observation-Bounded o, map-Bounded os)

-- So is every observation of a snapshot.
pub app_snapshot-Bounded :
    (runtime : Option LatencyRuntime) (now : ℕ) → All Bounded (app_snapshot runtime now)
unfolding app_snapshot
app_snapshot-Bounded none now = tt
app_snapshot-Bounded (some r) now = map-Bounded (r.snapshot now)

-- Nanoseconds are rounded up to milliseconds: the result is the least number of milliseconds that
-- is not below the duration, and 0 for a negative duration.
pub milliseconds-least :
    (d : ℤ) (m : ℕ) → (passive_latency_milliseconds d ≤ m) ↔ (d ≤ℤ pos (m * millisecond))
unfolding passive_latency_milliseconds
milliseconds-least d m = ground arith

called :
    (o : Option ℕ) (ctx : Context) (observation : LatencyObservation)
    → is_some (call_observer o ctx observation) ≡ is_some o
unfolding call_observer
called none ctx observation = refl
called (some observer) ctx observation = refl

-- The observer is called exactly when it is set, the key is not blank and the latency is not
-- negative.
pub observe_latency_iff :
    (adapter : Option LatencyAdapter) (now : ℕ) (key : Text) (latency : ℤ) (at : ℕ)
    → (is_some (observe_latency adapter now key latency at) ≡ true) ↔ (
        (is_some (observer_of adapter) ≡ true)
        × (is_empty (trim_space key) ≡ false)
        × (pos 0 ≤ℤ latency))
unfolding observe_latency
observe_latency_iff adapter now key latency at = ground (arith, called (observer_of adapter))

-- ===== src/PassiveLatency.antt =====
-- passive_latency.go: passive latency observations on their way from the tunnel library to the
-- embedding modules. A time is a number, 0 for the zero time; `UTC` keeps the instant.
pub mod Laws
use caddy_bifrost.Base.{
  ℕ, ◌+◌, ◌/◌, ◌%◌, Bool, true, false, ◌||◌, ◌&&◌, Option, none, some, List, [], ◌∷◌, map,
  if◌then◌else◌, ◌==◌, is_empty, ℤ, pos, is_neg, is_pos, pos_part, not, is_some,
}
use caddy_bifrost.Text.{Text, trim_space}

-- `PassiveLatencyState`, and the states of the tunnel library, which may have others.
pub data LatencyState : Type 0 where
  latency_ok latency_unknown latency_stale : LatencyState

pub data TunnelState : Type 0 where
  tunnel_ok tunnel_stale tunnel_other : TunnelState

pub record LatencyObservation : Type 0 where
  pub endpoint_key : Text
  pub latency_ms : Option ℤ
  pub observed_at : Option ℕ
  pub state : LatencyState

-- `bifrost.PassiveLatencyObservation`.
pub record TunnelObservation : Type 0 where
  pub endpoint_key : Text
  pub latency_ms : Option ℤ
  pub observed_at : Option ℕ
  pub state : TunnelState

-- `convertPassiveLatencyState`.
unfoldable pub convert_state : TunnelState → LatencyState
convert_state tunnel_ok = latency_ok
convert_state tunnel_stale = latency_stale
convert_state tunnel_other = latency_unknown

-- `unknownPassiveLatencyObservation`.
unfoldable pub unknown_observation : Text → LatencyObservation
unknown_observation key = record {
  endpoint_key = trim_space key;
  latency_ms = none;
  observed_at = none;
  state = latency_unknown;
}

convert_known : Text → LatencyState → Option ℤ → Option ℕ → LatencyObservation
unfolding unknown_observation
convert_known key latency_unknown latency at = unknown_observation key
convert_known key state none at = unknown_observation key
convert_known key state (some latency) none = unknown_observation key
convert_known key state (some latency) (some at) = record {
  endpoint_key = trim_space key;
  latency_ms = some latency;
  observed_at = some at;
  state = state;
}

-- `convertPassiveLatencyObservation`.
unfoldable pub convert_observation : TunnelObservation → LatencyObservation
unfolding convert_known convert_state
convert_observation o =
    convert_known o.endpoint_key (convert_state o.state) o.latency_ms o.observed_at

-- What an app's runtime offers, if it is a server: `passiveLatencyRuntime`.
pub record LatencyRuntime : Type 0 where
  pub observation : Text → ℕ → TunnelObservation
  pub snapshot : ℕ → List TunnelObservation

-- `App.PassiveLatencyObservation`; `none` is a nil app, or an app with another runtime.
unfoldable pub app_observation : Option LatencyRuntime → Text → ℕ → LatencyObservation
app_observation none key now = unknown_observation key
app_observation (some runtime) key now = convert_observation (runtime.observation key now)

-- `App.PassiveLatencySnapshot`.
unfoldable pub app_snapshot : Option LatencyRuntime → ℕ → List LatencyObservation
app_snapshot none now = []
app_snapshot (some runtime) now = map convert_observation (runtime.snapshot now)

-- `Server.PassiveLatencyObservation` and `Server.PassiveLatencySnapshot` of
-- internal/runtime/server.go; `none` is a server that is not running.
unfoldable pub server_observation : Option LatencyRuntime → Text → ℕ → TunnelObservation
server_observation none key now = record {
  endpoint_key = trim_space key;
  latency_ms = none;
  observed_at = none;
  state = tunnel_other;
}
server_observation (some tunnel) key now = tunnel.observation (trim_space key) now

unfoldable pub server_snapshot : Option LatencyRuntime → ℕ → List TunnelObservation
server_snapshot none now = []
server_snapshot (some tunnel) now = tunnel.snapshot now

-- `time.Millisecond` in nanoseconds.
abbrev pub millisecond : ℕ
millisecond = 1000000

round_up : ℕ → ℕ
round_up value =
    let ms =
      (if (value % millisecond) == 0 then value / millisecond else value / millisecond + 1) in
    if ms == 0 then 1 else ms

-- `passiveLatencyMilliseconds`.
unfoldable pub passive_latency_milliseconds : ℤ → ℕ
unfolding round_up
passive_latency_milliseconds value = if is_pos value then round_up (pos_part value) else 0

-- A `context.Context`: that of Caddy, or `context.Background()`.
pub data Context : Type 0 where
  background : Context
  context : ℕ → Context

-- `passiveLatencyObserverAdapter`; an observer is a number, as a pointer to it.
pub record LatencyAdapter : Type 0 where
  pub ctx : Context
  pub observer : Option ℕ

context_of : Option ℕ → Context
context_of none = background
context_of (some ctx) = context ctx

-- `newPassiveLatencyObserverAdapter`.
unfoldable pub new_latency_adapter : Option ℕ → Option ℕ → Option LatencyAdapter
unfolding context_of
new_latency_adapter ctx none = none
new_latency_adapter ctx (some observer) =
    some (record { ctx = context_of ctx; observer = some observer })

-- A call of `ObservePassiveLatency`.
pub record LatencyCall : Type 0 where
  pub observer : ℕ
  pub ctx : Context
  pub observation : LatencyObservation

-- The observer of an adapter, if both are there.
pub observer_of : Option LatencyAdapter → Option ℕ
observer_of none = none
observer_of (some adapter) = adapter.observer

adapter_ctx : Option LatencyAdapter → Context
adapter_ctx none = background
adapter_ctx (some adapter) = adapter.ctx

call_observer : Option ℕ → Context → LatencyObservation → Option LatencyCall
call_observer none ctx observation = none
call_observer (some observer) ctx observation =
    some (record { observer = observer; ctx = ctx; observation = observation })

-- `passiveLatencyObserverAdapter.ObserveLatency`, with the current time for a zero time: the call of
-- the observer, if one is made.
unfoldable pub observe_latency : Option LatencyAdapter → ℕ → Text → ℤ → ℕ → Option LatencyCall
unfolding call_observer adapter_ctx
observe_latency adapter now key latency at =
    if not (is_some (observer_of adapter)) || is_empty (trim_space key) || is_neg latency
    then none
    else call_observer (observer_of adapter) (adapter_ctx adapter) (record {
      endpoint_key = trim_space key;
      latency_ms = some (pos (passive_latency_milliseconds latency));
      observed_at = some (if at == 0 then now else at);
      state = latency_ok;
    })

-- ===== src/Passthrough.antt =====
-- passthrough_observer.go: the lifecycle of a passthrough stream and the observations that it
-- reports, with the controlled values of app.go. A call reads the clock once; its time is an
-- argument. The lifecycle behind a nil pointer, on which every call does nothing, is not modelled:
-- the program makes no such pointer.
pub mod Trace
pub mod Bytes
pub mod Stream
pub mod Delivery
pub mod Proxy
use caddy_bifrost.Base.{
  ℕ, Bool, true, false, not, ◌&&◌, ◌||◌, Option, none, some, List, [], ◌∷◌, ◌++◌, if◌then◌else◌, ℤ,
  pos, is_pos,
}
use caddy_bifrost.Text.{Text}

-- `PassthroughStreamEventType`.
pub data EventType : Type 0 where
  stream_started stream_ended stream_rejected stream_usage_delta : EventType

-- `PassthroughStreamResult`; `unset` is the empty string.
pub data StreamResult : Type 0 where
  unset started ended rejected : StreamResult

-- `PassthroughStreamReason`; `unset` is the empty string.
pub data StreamReason : Type 0 where
  unset no_reason resolver_error empty_endpoint server_unavailable no_session : StreamReason
  session_not_ready stream_limit stream_open_failed : StreamReason

-- `runtime.PassthroughResolution`.
pub record Resolution : Type 0 where
  pub endpoint_key : Text
  pub observation_key : Text

-- `PassthroughStreamObservation`.
pub record Observation : Type 0 where
  pub endpoint_key : Text
  pub event_type : EventType
  pub observed_at : ℕ
  pub result : StreamResult
  pub reason : StreamReason
  pub observation_key : Text
  pub bytes_ingress_to_endpoint : ℤ
  pub bytes_endpoint_to_ingress : ℤ

-- `passthroughStreamLifecycle`; `observed` tells that its observer is set.
pub record Lifecycle : Type 0 where
  pub observed : Bool
  pub resolution : Resolution
  pub started : Bool
  pub ended : Bool

-- `newPassthroughStreamLifecycle`.
unfoldable pub new_lifecycle : Bool → Resolution → Lifecycle
new_lifecycle observed resolution = record {
  observed = observed;
  resolution = resolution;
  started = false;
  ended = false;
}

-- `observationAt`; `observation` is the same at the current time.
unfoldable pub observation_at :
    Lifecycle → EventType → StreamResult → StreamReason → ℕ → Observation
observation_at l event result reason now = record {
  endpoint_key = l.resolution.endpoint_key;
  event_type = event;
  observed_at = now;
  result = result;
  reason = reason;
  observation_key = l.resolution.observation_key;
  bytes_ingress_to_endpoint = pos 0;
  bytes_endpoint_to_ingress = pos 0;
}

-- `markStarted`.
unfoldable pub mark_started : ℕ → Lifecycle → Lifecycle × Option Observation
unfolding observation_at
mark_started now l = if not l.observed || l.started || l.ended then (l, none) else (
  record l { started = true },
  some (observation_at l stream_started StreamResult.started no_reason now),
)

-- The event that a first use of the stream reports.
first_use : ℕ → Lifecycle → List Observation
unfolding observation_at
first_use now l =
    if l.started
    then []
    else observation_at l stream_started StreamResult.started no_reason now ∷ []

-- `markUsageDelta`.
unfoldable pub mark_usage_delta : ℕ → ℤ → ℤ → Lifecycle → Lifecycle × List Observation
unfolding first_use observation_at
mark_usage_delta now ingress egress l =
    if not (is_pos ingress) && not (is_pos egress)
    then (l, [])
    else if not l.observed || l.ended
    then (l, [])
    else (
      record l { started = true },
      first_use now l
          ++ record (observation_at l stream_usage_delta StreamResult.unset no_reason now) {
            bytes_ingress_to_endpoint = ingress;
            bytes_endpoint_to_ingress = egress;
          }
            ∷ [],
    )

-- `markEnded`.
unfoldable pub mark_ended : ℕ → Lifecycle → Lifecycle × Option Observation
unfolding observation_at
mark_ended now l = if not l.observed || not l.started || l.ended then (l, none) else (
  record l { ended = true },
  some (observation_at l stream_ended StreamResult.ended no_reason now),
)

unfoldable pub or_open_failed : StreamReason → StreamReason
or_open_failed StreamReason.unset = stream_open_failed
or_open_failed reason = reason

-- `markRejected`.
unfoldable pub mark_rejected : ℕ → StreamReason → Lifecycle → Lifecycle × Option Observation
unfolding observation_at or_open_failed
mark_rejected now reason l = if not l.observed || l.started || l.ended then (l, none) else (
  record l { ended = true },
  some (observation_at l stream_rejected StreamResult.rejected (or_open_failed reason) now),
)

-- `bifrost.Direction`, the tunnel library's two directions and any other value.
pub data Direction : Type 0 where
  ingress_to_endpoint endpoint_to_ingress other_direction : Direction

-- `AddBytes`, up to the observations that it reports.
unfoldable pub add_bytes : ℕ → Direction → ℤ → Lifecycle → Lifecycle × List Observation
unfolding mark_usage_delta
add_bytes now other_direction n l = (l, [])
add_bytes now ingress_to_endpoint n l =
    if is_pos n then mark_usage_delta now n (pos 0) l else (l, [])
add_bytes now endpoint_to_ingress n l =
    if is_pos n then mark_usage_delta now (pos 0) n l else (l, [])

-- The calls on a lifecycle. `End` is `end`.
pub data Call : Type 0 where
  start : Call
  bytes : Direction → ℤ → Call
  end : Call
  reject : StreamReason → Call

abbrev pub report : Lifecycle × Option Observation → Lifecycle × List Observation
report (l, none) = (l, [])
report (l, some o) = (l, o ∷ [])

-- A call, with the observations that the observer receives.
unfoldable pub call : ℕ → Call → Lifecycle → Lifecycle × List Observation
unfolding mark_started mark_ended mark_rejected add_bytes
call now start l = report (mark_started now l)
call now (bytes direction n) l = add_bytes now direction n l
call now end l = report (mark_ended now l)
call now (reject reason) l = report (mark_rejected now reason l)

-- A sequence of calls, each with its time.
unfoldable pub run : List (ℕ × Call) → Lifecycle → Lifecycle × List Observation
run [] l = (l, [])
run ((now, c) ∷ cs) l =
    let (l', now_seen) = call now c l in let (l'', later) = run cs l' in (l'', now_seen ++ later)

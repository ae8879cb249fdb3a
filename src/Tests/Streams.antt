-- ===== src/Tests/Streams.antt =====
-- Tests of the passthrough streams.
use caddy_bifrost.Base.{
  ℕ, ◌≡◌, refl, ◌⊎◌, true, false, none, some, List, [], ◌∷◌, ◌++◌, pos, negsuc, All,
}
use caddy_bifrost.Text.{text, contains, strip_prefix}
use caddy_bifrost.Passthrough.{
  Resolution, Observation, Lifecycle, EventType, no_session, server_unavailable, Call, start, bytes,
  end, ingress_to_endpoint, endpoint_to_ingress, new_lifecycle, call, run,
}
use caddy_bifrost.Passthrough.Trace.{waiting, over, phase, follow, run-follow, Tagged, run-Tagged}
use caddy_bifrost.Passthrough.Bytes.{total_ingress, total_egress, run-totals, run-totals_ended}
use caddy_bifrost.Passthrough.Proxy.{passthrough_stream}
use caddy_bifrost.Passthrough.Proxy.Laws.{not_running_rejected}
use caddy_bifrost.Passthrough.Stream.{classify, finish_stream, stream}
use caddy_bifrost.Passthrough.Stream.Outcome.{rejection, IsIdle, stream-closed, stream-rejected}

abbrev home : Resolution
home = record { endpoint_key = text "home"; observation_key = text "route-1" }

abbrev traffic : List (ℕ × Call)
traffic =
    (1, bytes ingress_to_endpoint (pos 11))
    ∷ (2, bytes endpoint_to_ingress (pos 22))
    ∷ (3, bytes ingress_to_endpoint (negsuc 4))
    ∷ []

abbrev events : List Observation → List EventType
events [] = []
events (o ∷ os) = o.event_type ∷ events os

-- A start, two deltas, one end; the late calls are silent.
trace :
    events (run (traffic ++ (4, end) ∷ (5, end) ∷ (6, start) ∷ []) (new_lifecycle true home)).1
    ≡ EventType.stream_started ∷ EventType.stream_usage_delta ∷ EventType.stream_usage_delta
      ∷ EventType.stream_ended ∷ []
unfolding run call new_lifecycle
trace = refl

-- A stream that ends without an error and moved no byte is not reported at all.
quiet : (stream true home ((1, end) ∷ []) 2 none).1 ≡ []
unfolding stream finish_stream run call new_lifecycle
quiet = refl

reasons :
    (classify (some (text "endpoint home: no active session")) ≡ no_session)
    × (classify (some (text "bifrost server is not running")) ≡ server_unavailable)
unfolding classify contains strip_prefix
reasons = (refl, refl)

run-follow_example :
    follow (some (phase (new_lifecycle true home))) (run traffic (new_lifecycle true home)).1
    ≡ some (phase (run traffic (new_lifecycle true home)).0)
run-follow_example = run-follow traffic (new_lifecycle true home)

traffic-Tagged :
    All (Tagged (new_lifecycle true home).resolution) (run traffic (new_lifecycle true home)).1
traffic-Tagged = run-Tagged traffic (new_lifecycle true home)

run-totals_run :
    (total_ingress (run traffic (new_lifecycle true home)).1 ≡ 11)
    × (total_egress (run traffic (new_lifecycle true home)).1 ≡ 22)
unfolding new_lifecycle
run-totals_run = run-totals traffic (new_lifecycle true home) (tt, (tt, (tt, tt))) refl refl

abbrev in_use : Lifecycle
in_use = record { observed = true; resolution = home; started = true; ended = false }

run-totals_ended_example :
    (total_ingress (run (traffic ++ (4, end) ∷ traffic) in_use).1 ≡ 11)
    × (total_egress (run (traffic ++ (4, end) ∷ traffic) in_use).1 ≡ 22)
run-totals_ended_example =
    run-totals_ended traffic traffic 4 in_use (tt, (tt, (tt, tt))) refl refl refl

abbrev traffic_result : Lifecycle × List Observation
traffic_result = stream true home traffic 9 (some (text "reset"))

stream-closed_example :
    (follow (some waiting) traffic_result.1 ≡ some over)
    ⊎ ((traffic_result.1 ≡ []) × (some (text "reset") ≡ none) × All IsIdle traffic)
stream-closed_example = stream-closed home traffic 9 (some (text "reset")) (tt, (tt, (tt, tt)))

stream-rejected_example :
    (stream true home ((1, end) ∷ []) 2 (some (text "no active session"))).1
    ≡ rejection home 2 (classify (some (text "no active session"))) ∷ []
stream-rejected_example = stream-rejected home ((1, end) ∷ []) 2 (text "no active session") (tt, tt)

not_running_rejected_example :
    ((passthrough_stream true home none 5).0 ≡ true)
    × ((passthrough_stream true home none 5).2 ≡ rejection home 5 server_unavailable ∷ [])
not_running_rejected_example = not_running_rejected home 5

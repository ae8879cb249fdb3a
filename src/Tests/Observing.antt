-- ===== src/Tests/Observing.antt =====
-- Tests of passive latency and of the metrics.
use caddy_bifrost.Base.{
  ◌+◌, ◌*◌, ◌≤◌, ◌≡◌, refl, ◌↔◌, true, false, none, some, List, [], ◌∷◌, is_some, is_empty, pos,
  negsuc, pos_part, neg_part, ◌≤ℤ◌, All,
}
use caddy_bifrost.Text.{CaseTable, text, trim_space, contains_rune}
use caddy_bifrost.Passthrough.{ingress_to_endpoint}
use caddy_bifrost.PassiveLatency.{
  TunnelObservation, tunnel_stale, LatencyRuntime, app_observation, app_snapshot, millisecond,
  passive_latency_milliseconds, observe_latency, LatencyAdapter, background, new_latency_adapter,
  observer_of,
}
use caddy_bifrost.PassiveLatency.Laws.{
  Bounded, app_observation-Bounded, app_snapshot-Bounded, milliseconds-least, observe_latency_iff,
}
use caddy_bifrost.Runtime.Metrics.{Metrics, safe_reason}
use caddy_bifrost.Runtime.Metrics.Counts.{
  SessionEvent, starts, ends, run_sessions, started_count, ended_count, run_sessions-gauge,
  StreamEvent, opens, moves, closes, run_streams, open_count, run_streams-Balanced,
}
use caddy_bifrost.Runtime.Metrics.Reasons.{safe_reason-IsLabel}

abbrev home_adapter : LatencyAdapter
home_adapter = record { ctx = background; observer = some 4 }

adapter_made : new_latency_adapter none (some 4) ≡ some home_adapter
unfolding new_latency_adapter
adapter_made = refl

rounding :
    (passive_latency_milliseconds (pos 1) ≡ 1)
    × (passive_latency_milliseconds (pos 2_000_000) ≡ 2)
    × (passive_latency_milliseconds (pos 2_000_001) ≡ 3)
    × (passive_latency_milliseconds (negsuc 5) ≡ 0)
unfolding passive_latency_milliseconds
rounding = (refl, refl, refl, refl)

milliseconds-least_example :
    (passive_latency_milliseconds (pos 2_000_001) ≤ 3) ↔ (pos 2_000_001 ≤ℤ pos (3 * millisecond))
milliseconds-least_example = milliseconds-least (pos 2_000_001) 3

abbrev stale : TunnelObservation
stale = record {
  endpoint_key = text " home ";
  latency_ms = some (pos 12);
  observed_at = none;
  state = tunnel_stale;
}

abbrev stale_runtime : LatencyRuntime
stale_runtime = record { observation = λ key now. stale; snapshot = λ now. stale ∷ [] }

app_observation-Bounded_run : Bounded (app_observation (some stale_runtime) (text "home") 5)
app_observation-Bounded_run = app_observation-Bounded (some stale_runtime) (text "home") 5

stale_snapshot-Bounded : All Bounded (app_snapshot (some stale_runtime) 5)
stale_snapshot-Bounded = app_snapshot-Bounded (some stale_runtime) 5

latency_observed :
    (is_some (observe_latency (some home_adapter) 9 (text "home") (pos 3) 0) ≡ true) ↔ (
      (is_some (observer_of (some home_adapter)) ≡ true)
      × (is_empty (trim_space (text "home")) ≡ false)
      × (pos 0 ≤ℤ pos 3))
latency_observed = observe_latency_iff (some home_adapter) 9 (text "home") (pos 3) 0

abbrev no_metrics : Metrics
no_metrics = record {
  active_sessions = λ k. pos 0;
  streams_started = λ k. 0;
  streams_ended = λ k. 0;
  streams_rejected = λ k r. 0;
  bytes_ingress = λ k. 0;
  bytes_egress = λ k. 0;
}

abbrev sessions : List SessionEvent
sessions =
    starts (text "home") ∷ starts (text "lab") ∷ ends (text "home") ∷ starts (text "home") ∷ []

sessions_counted :
    let g = (run_sessions sessions no_metrics).active_sessions (text "home") in
    pos_part g
      + neg_part (no_metrics.active_sessions (text "home"))
      + ended_count (text "home") sessions
    ≡ neg_part g
      + pos_part (no_metrics.active_sessions (text "home"))
      + started_count (text "home") sessions
sessions_counted = run_sessions-gauge sessions (text "home") no_metrics refl

abbrev streams : List StreamEvent
streams =
    opens (text "home")
    ∷ moves 0 ingress_to_endpoint (pos 4)
    ∷ closes 0
    ∷ closes 0
    ∷ opens (text "home")
    ∷ []

run_streams-Balanced_example :
    let s = run_streams streams (no_metrics, []) in
    s.0.streams_started (text "home")
    ≡ s.0.streams_ended (text "home") + open_count (text "home") s.1
run_streams-Balanced_example = run_streams-Balanced streams (text "home") no_metrics [] refl

abbrev ascii : CaseTable
ascii = record { lower = λ c. c }

safe_reason-IsLabel_run :
    (is_empty (safe_reason ascii (text "No-Active Session")) ≡ false)
    × (contains_rune (safe_reason ascii (text "No-Active Session")) b'-' ≡ false)
    × (contains_rune (safe_reason ascii (text "No-Active Session")) b' ' ≡ false)
safe_reason-IsLabel_run = safe_reason-IsLabel ascii (text "No-Active Session")

-- ===== src/Tests/Delivering.antt =====
-- Tests of the delivery of a stream's observations.
use mathlib.Core.List.{Perm}
use caddy_bifrost.Base.{◌≡◌, refl, true, false, none, some, [], ◌∷◌, pos}
use caddy_bifrost.Text.{text}
use caddy_bifrost.Passthrough.{
  stream_started, stream_usage_delta, StreamResult, no_reason, Resolution, Observation, Lifecycle,
  bytes, ingress_to_endpoint, endpoint_to_ingress, new_lifecycle, observation_at, call, run,
}
use caddy_bifrost.Passthrough.Trace.{waiting, follow}
use caddy_bifrost.Passthrough.Bytes.{total_ingress, total_egress}
use caddy_bifrost.Passthrough.Delivery.{
  Flight, begin, mark, deliver, marks, delivers, Reach, here, next, Quiet, delivered_once,
}
use caddy_bifrost.Passthrough.Delivery.Crossing.{begun, first_in, second_in, delivered_early}
use caddy_bifrost.Passthrough.Delivery.Totals.{delivered-totals}

abbrev home : Resolution
home = record { endpoint_key = text "home"; observation_key = [] }

abbrev fresh : Lifecycle
fresh = record { observed = true; resolution = home; started = false; ended = false }

abbrev began : Observation
began = record {
  endpoint_key = text "home";
  event_type = stream_started;
  observed_at = 1;
  result = StreamResult.started;
  reason = no_reason;
  observation_key = [];
  bytes_ingress_to_endpoint = pos 0;
  bytes_endpoint_to_ingress = pos 0;
}

abbrev moved : Observation
moved = record began {
  event_type = stream_usage_delta;
  result = StreamResult.unset;
  bytes_ingress_to_endpoint = pos 11;
}

-- One call, and both of its observations handed on.
abbrev landed : Flight
landed = record {
  lifecycle = record fresh { started = true };
  calls = (1, bytes ingress_to_endpoint (pos 11)) ∷ [];
  pending = [] ∷ [];
  delivered = began ∷ moved ∷ [];
}

landing : Reach (begin fresh) landed
unfolding mark deliver call observation_at
landing =
    next
      (next (next here (marks 1 (bytes ingress_to_endpoint (pos 11))))
        (delivers [] began (moved ∷ []) [] refl))
      (delivers [] moved [] [] refl)

delivered_once_example :
    Perm landed.delivered (run landed.calls fresh).1
    × (landed.lifecycle ≡ (run landed.calls fresh).0)
delivered_once_example = delivered_once fresh landed landing refl

delivered-totals_run :
    (total_ingress (began ∷ moved ∷ []) ≡ 11) × (total_egress (began ∷ moved ∷ []) ≡ 0)
delivered-totals_run = delivered-totals fresh landed landing refl (tt, tt) refl refl

delivered_early_example :
    (s : Flight) × Reach (begin (new_lifecycle true home)) s
    × Quiet s
    × (s.calls
        ≡ (1, bytes ingress_to_endpoint (pos 11)) ∷ (2, bytes endpoint_to_ingress (pos 21)) ∷ [])
    × (s.delivered ≡ second_in home 1 2 10 20 ∷ begun home 1 2 10 20 ∷ first_in home 1 2 10 20 ∷ [])
    × (follow (some waiting) s.delivered ≡ none)
delivered_early_example = delivered_early home 1 2 10 20

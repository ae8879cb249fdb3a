-- ===== src/Runtime/Metrics.antt =====
-- internal/runtime/metrics.go: the observer that counts sessions, streams and bytes by endpoint.
-- A metric vector of the Prometheus client is a map from labels to a number, 0 where it was never
-- touched. The observer has all five vectors, as `NewCaddyObserver` makes it; a nil observer, on
-- which every call does nothing, is not modelled, nor is the registration.
pub mod Counts
pub mod Reasons
pub mod Registration
use caddy_bifrost.Base.{
  ℕ, suc, ◌+◌, ◌-◌, zero, Bool, true, false, not, ◌&&◌, ◌||◌, Option, none, some, List, [], ◌∷◌,
  arith, if◌then◌else◌, ◌==◌, is_empty, ℤ, pos, negsuc, pos_part, is_pos,
}
use caddy_bifrost.Text.{
  Text, CaseTable, text, text_eq, text_eq_iff, trim_space, to_lower, replace_rune,
}
use caddy_bifrost.GoMap.{GoMap, Eq, Text-eq, lookup, insert}
use caddy_bifrost.Passthrough.{Direction, ingress_to_endpoint, endpoint_to_ingress, other_direction}

-- The five vectors, the bytes with one for each direction.
pub record Metrics : Type 0 where
  pub active_sessions : Text → ℤ
  pub streams_started : Text → ℕ
  pub streams_ended : Text → ℕ
  pub streams_rejected : Text → Text → ℕ
  pub bytes_ingress : Text → ℕ
  pub bytes_egress : Text → ℕ

-- A vector with the number for one label changed.
unfoldable pub adjust {ℓ} : {A : Type ℓ} → (Text → A) → Text → (A → A) → Text → A
adjust vec key change k = if text_eq k key then change (vec k) else vec k

abbrev pub inc_ℤ : ℤ → ℤ
inc_ℤ (pos n) = pos (suc n)
inc_ℤ (negsuc zero) = pos 0
inc_ℤ (negsuc (suc n)) = negsuc n

abbrev pub dec_ℤ : ℤ → ℤ
dec_ℤ (pos zero) = negsuc 0
dec_ℤ (pos (suc n)) = pos n
dec_ℤ (negsuc n) = negsuc (suc n)

-- `SessionStarted` and `SessionEnded`.
unfoldable pub session_started : Text → Metrics → Metrics
session_started key m =
    if is_empty key then m else record m { active_sessions = adjust m.active_sessions key inc_ℤ }

unfoldable pub session_ended : Text → Metrics → Metrics
session_ended key m =
    if is_empty key then m else record m { active_sessions = adjust m.active_sessions key dec_ℤ }

-- `caddyStreamObserver`: the counters of its endpoint, and whether its `sync.Once` has run.
pub record StreamObserver : Type 0 where
  pub endpoint_key : Text
  pub once : Bool

-- `StreamStarted`; `none` is the observer that does nothing.
unfoldable pub stream_started : Text → Metrics → Metrics × Option StreamObserver
stream_started key m = if is_empty key then (m, none) else (
  record m { streams_started = adjust m.streams_started key suc },
  some (record { endpoint_key = key; once = false }),
)

-- `caddyStreamObserver.AddBytes`.
unfoldable pub add_bytes : StreamObserver → Direction → ℤ → Metrics → Metrics
add_bytes o ingress_to_endpoint n m =
    if is_pos n
    then record m { bytes_ingress = adjust m.bytes_ingress o.endpoint_key (λ b. b + pos_part n) }
    else m
add_bytes o endpoint_to_ingress n m =
    if is_pos n
    then record m { bytes_egress = adjust m.bytes_egress o.endpoint_key (λ b. b + pos_part n) }
    else m
add_bytes o other_direction n m = m

-- `caddyStreamObserver.End`.
unfoldable pub end_stream : StreamObserver → Metrics → Metrics × StreamObserver
end_stream o m = if o.once then (m, o) else (
  record m { streams_ended = adjust m.streams_ended o.endpoint_key suc },
  record o { once = true },
)

or_unknown : Text → Text
or_unknown why = if is_empty why then text "unknown" else why

-- `safeReason`.
unfoldable pub safe_reason : CaseTable → Text → Text
unfolding or_unknown
safe_reason cases why =
    or_unknown (replace_rune b' ' b'_' (replace_rune b'-' b'_' (trim_space (to_lower cases why))))

-- `StreamRejected`.
unfoldable pub stream_rejected : CaseTable → Text → Text → Metrics → Metrics
stream_rejected cases key why m = if is_empty key then m else record m {
  streams_rejected =
      adjust m.streams_rejected key (λ counts. adjust counts (safe_reason cases why) suc);
}

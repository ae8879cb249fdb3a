-- ===== src/Config/Limits.antt =====
-- internal/config/config.go: the checks of endpoint limits, guardrails and runtime tuning, and
-- their conversion for the tunnel library.
use caddy_bifrost.Base.{
  ℕ, ◌*◌, ◌/◌, ◌%◌, ◌≡◌, refl, ◌↔◌, ◌&&◌, arith, ◌==◌, if◌then◌else◌, Result, ok, err, ◌>>=◌, ◌>>◌,
  fail_if, ℤ, pos, pos_part, ◌≤ℤ◌, ltb_ℤ, is_neg, is_pos, ◌⊎◌,
}
use caddy_bifrost.Config.{
  EndpointLimits, Guardrails, Runtime, ConfigError, must_be_positive, whole_seconds,
  idle_timeout_order, Field,
}

-- `bifrost.PlanLimits`, the tunnel library's record.
pub record PlanLimits : Type 0 where
  pub max_streams : ℤ
  pub max_bandwidth_bps : ℤ
  pub stream_idle_timeout_seconds : ℤ

-- `time.Second` in nanoseconds.
abbrev pub second : ℕ
second = 1000000000

-- The whole seconds of a duration; only a positive one is looked at.
idle_seconds : ℤ → Result ConfigError ℤ
idle_seconds d =
    if is_pos d
    then (if (pos_part d % second) == 0 then ok (pos (pos_part d / second)) else err whole_seconds)
    else ok (pos 0)

-- `EndpointLimits.PlanLimits`.
unfoldable pub plan_limits : EndpointLimits → Result ConfigError PlanLimits
unfolding idle_seconds
plan_limits l = do
  seconds ← idle_seconds l.stream_idle_timeout
  ok (record {
    max_streams = l.max_streams;
    max_bandwidth_bps = l.max_bandwidth_bps;
    stream_idle_timeout_seconds = seconds;
  })

-- `EndpointLimits.Validate`.
unfoldable pub validate_limits : EndpointLimits → Result ConfigError (Unit {0})
unfolding plan_limits
validate_limits l = do
  fail_if (is_neg l.max_streams) (must_be_positive Field.max_streams)
  fail_if (is_neg l.max_bandwidth_bps) (must_be_positive Field.max_bandwidth_bps)
  fail_if (is_neg l.stream_idle_timeout) (must_be_positive Field.stream_idle_timeout)
  planned ← plan_limits l
  ok tt

-- `Guardrails.Validate`.
unfoldable pub validate_guardrails : Guardrails → Result ConfigError (Unit {0})
validate_guardrails g = do
  fail_if (is_neg g.max_sessions) (must_be_positive Field.max_sessions)
  fail_if (is_neg g.max_streams_per_session) (must_be_positive Field.max_streams_per_session)
  fail_if (is_neg g.max_bandwidth_bps_per_session)
      (must_be_positive Field.max_bandwidth_bps_per_session)
  fail_if (is_neg g.min_stream_idle_timeout) (must_be_positive Field.min_stream_idle_timeout)
  fail_if (is_neg g.max_stream_idle_timeout) (must_be_positive Field.max_stream_idle_timeout)
  fail_if
      (is_pos g.min_stream_idle_timeout
        && is_pos g.max_stream_idle_timeout
        && ltb_ℤ g.max_stream_idle_timeout g.min_stream_idle_timeout)
      idle_timeout_order
  fail_if (is_neg g.max_headers) (must_be_positive Field.max_headers)
  fail_if (is_neg g.max_header_bytes) (must_be_positive Field.max_header_bytes)

-- `Runtime.Validate`.
unfoldable pub validate_runtime : Runtime → Result ConfigError (Unit {0})
validate_runtime r = do
  fail_if (is_neg r.handshake_timeout) (must_be_positive Field.handshake_timeout)
  fail_if (is_neg r.stream_copy_buffer_bytes) (must_be_positive Field.stream_copy_buffer_bytes)
  fail_if (is_neg r.tunnel_keep_alive_interval) (must_be_positive Field.tunnel_keepalive_interval)
  fail_if (is_neg r.tunnel_keep_alive_timeout) (must_be_positive Field.tunnel_keepalive_timeout)

abbrev pub NonNeg : ℤ → Type 0
NonNeg x = pos 0 ≤ℤ x

-- The limits that an endpoint may have.
pub record LimitsValid (l : EndpointLimits) : Type 0 where
  pub streams : NonNeg l.max_streams
  pub bandwidth : NonNeg l.max_bandwidth_bps
  pub idle : NonNeg l.stream_idle_timeout
  pub whole : pos_part l.stream_idle_timeout % second ≡ 0

pub validate_limits_iff : (l : EndpointLimits) → (validate_limits l ≡ ok tt) ↔ LimitsValid l
unfolding validate_limits
validate_limits_iff l = ground arith

pub record GuardrailsValid (g : Guardrails) : Type 0 where
  pub sessions : NonNeg g.max_sessions
  pub streams : NonNeg g.max_streams_per_session
  pub bandwidth : NonNeg g.max_bandwidth_bps_per_session
  pub least_idle : NonNeg g.min_stream_idle_timeout
  pub most_idle : NonNeg g.max_stream_idle_timeout
  pub ordered :
      (pos_part g.min_stream_idle_timeout ≡ 0)
      ⊎ (pos_part g.max_stream_idle_timeout ≡ 0)
      ⊎ (g.min_stream_idle_timeout ≤ℤ g.max_stream_idle_timeout)
  pub headers : NonNeg g.max_headers
  pub header_bytes : NonNeg g.max_header_bytes

pub validate_guardrails_iff : (g : Guardrails) → (validate_guardrails g ≡ ok tt) ↔ GuardrailsValid g
unfolding validate_guardrails
validate_guardrails_iff g = ground arith

pub record RuntimeValid (r : Runtime) : Type 0 where
  pub handshake : NonNeg r.handshake_timeout
  pub buffer : NonNeg r.stream_copy_buffer_bytes
  pub interval : NonNeg r.tunnel_keep_alive_interval
  pub timeout : NonNeg r.tunnel_keep_alive_timeout

pub validate_runtime_iff : (r : Runtime) → (validate_runtime r ≡ ok tt) ↔ RuntimeValid r
unfolding validate_runtime
validate_runtime_iff r = ground arith

-- The conversion loses nothing of limits that pass the checks.
pub plan_limits-of_LimitsValid :
    (l : EndpointLimits)
    → LimitsValid l
    → (p : PlanLimits) × (plan_limits l ≡ ok p)
      × (p.max_streams ≡ l.max_streams)
      × (p.max_bandwidth_bps ≡ l.max_bandwidth_bps)
      × (pos (pos_part p.stream_idle_timeout_seconds * second) ≡ l.stream_idle_timeout)
unfolding plan_limits
plan_limits-of_LimitsValid l v = (
  record {
    max_streams = l.max_streams;
    max_bandwidth_bps = l.max_bandwidth_bps;
    stream_idle_timeout_seconds = pos (pos_part l.stream_idle_timeout / second);
  },
  ground arith,
  refl,
  refl,
  ground arith,
)

-- ===== src/Config/Tunnel.antt =====
-- internal/config/config.go: the guardrails and the tuning in the tunnel library's terms.
use caddy_bifrost.Base.{ℤ}
use caddy_bifrost.Config.{Guardrails, Runtime}

-- `bifrost.Guardrails` and `bifrost.Runtime`, as far as the code sets them. A `time.Duration` is its
-- number of nanoseconds, as Caddy's `Duration` is.
pub record TunnelGuardrails : Type 0 where
  pub max_sessions : ℤ
  pub max_streams_per_session : ℤ
  pub max_bandwidth_bps_per_session : ℤ
  pub min_stream_idle_timeout : ℤ
  pub max_stream_idle_timeout : ℤ
  pub max_headers : ℤ
  pub max_header_bytes : ℤ

pub record TunnelRuntime : Type 0 where
  pub handshake_timeout : ℤ
  pub stream_copy_buffer_bytes : ℤ
  pub tunnel_keep_alive_interval : ℤ
  pub tunnel_keep_alive_timeout : ℤ

-- `Guardrails.BifrostGuardrails`.
unfoldable pub bifrost_guardrails : Guardrails → TunnelGuardrails
bifrost_guardrails g = record {
  max_sessions = g.max_sessions;
  max_streams_per_session = g.max_streams_per_session;
  max_bandwidth_bps_per_session = g.max_bandwidth_bps_per_session;
  min_stream_idle_timeout = g.min_stream_idle_timeout;
  max_stream_idle_timeout = g.max_stream_idle_timeout;
  max_headers = g.max_headers;
  max_header_bytes = g.max_header_bytes;
}

-- `Runtime.BifrostRuntime`.
unfoldable pub bifrost_runtime : Runtime → TunnelRuntime
bifrost_runtime r = record {
  handshake_timeout = r.handshake_timeout;
  stream_copy_buffer_bytes = r.stream_copy_buffer_bytes;
  tunnel_keep_alive_interval = r.tunnel_keep_alive_interval;
  tunnel_keep_alive_timeout = r.tunnel_keep_alive_timeout;
}

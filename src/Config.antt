-- ===== src/Config.antt =====
-- internal/config/config.go: the configuration model and its defaults. The operations stand in
-- the children: limits and guardrails, the server, the client and the transport.
pub mod Limits
pub mod Tunnel
pub mod Server
pub mod Client
use caddy_bifrost.Base.{ℕ, Bool, List}
use caddy_bifrost.Base.{ℤ}
use caddy_bifrost.Text.{Text, text}

abbrev pub default_connector_listen : Text
default_connector_listen = text ":8443"

abbrev pub default_connector_port : Text
default_connector_port = text "8443"

abbrev pub default_app_name : Text
default_app_name = text "bifrost"

-- Durations are nanoseconds, as `caddy.Duration` has them.
pub record EndpointLimits : Type 0 where
  pub max_streams : ℤ
  pub max_bandwidth_bps : ℤ
  pub stream_idle_timeout : ℤ

pub record Endpoint : Type 0 where
  pub key : Text
  pub token : Text
  pub policy : Text
  pub max_parallel : ℤ
  pub limits : EndpointLimits

pub record Connector : Type 0 where
  pub listen : Text
  pub tls_subject : Text
  pub endpoints : List Endpoint

pub record Guardrails : Type 0 where
  pub max_sessions : ℤ
  pub max_streams_per_session : ℤ
  pub max_bandwidth_bps_per_session : ℤ
  pub min_stream_idle_timeout : ℤ
  pub max_stream_idle_timeout : ℤ
  pub max_headers : ℤ
  pub max_header_bytes : ℤ

pub record Runtime : Type 0 where
  pub handshake_timeout : ℤ
  pub stream_copy_buffer_bytes : ℤ
  pub tunnel_keep_alive_interval : ℤ
  pub tunnel_keep_alive_timeout : ℤ

pub record ServerConfig : Type 0 where
  pub connector : Connector
  pub guardrails : Guardrails
  pub runtime : Runtime

pub record ClientConfig : Type 0 where
  pub connect : Text
  pub token : Text
  pub forward : Text
  pub tls_ca_file : Text
  pub tls_server_name : Text
  pub tls_insecure_skip_verify : Bool

pub record TransportConfig : Type 0 where
  pub app : Text
  pub dial_timeout : ℤ

-- The fields of the configuration, as the validation errors name them.
pub data Field : Type 0 where
  max_streams max_bandwidth_bps stream_idle_timeout : Field
  max_sessions max_streams_per_session max_bandwidth_bps_per_session : Field
  min_stream_idle_timeout max_stream_idle_timeout max_headers max_header_bytes : Field
  handshake_timeout stream_copy_buffer_bytes : Field
  tunnel_keepalive_interval tunnel_keepalive_timeout : Field

-- The `fmt.Errorf` values of config.go and routes.go, a constructor for each message. A wrapped
-- error has its wrapper's position.
pub data ConfigError : Type 0 where
  server_required client_required transport_required : ConfigError
  listen_required tls_subject_required endpoints_required : ConfigError
  endpoints_with_provider : ConfigError
  endpoint_key_required endpoint_token_required endpoint_key_duplicate : ℕ → ConfigError
  endpoint_limits : ℕ → ConfigError → ConfigError
  endpoint_static : ℕ → ConfigError → ConfigError
  must_be_positive : Field → ConfigError
  whole_seconds idle_timeout_order : ConfigError
  in_guardrails in_runtime : ConfigError → ConfigError
  connect_required token_required forward_required : ConfigError
  route_name_required route_name_inexact route_endpoint_required route_duplicate : ℕ → ConfigError
  -- An error of the tunnel library.
  provider_error : Text → ConfigError

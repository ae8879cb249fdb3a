-- ===== src/Caddyfile/Schema/Blocks.antt =====
-- The directives of each block, as the documentation of the Caddyfile lists them.
use caddy_bifrost.Base.{true, ◌||◌, [], ◌∷◌, is_some, Result, ok, some, ℤ}
use caddy_bifrost.Text.{Text, text}
use caddy_bifrost.Config.{
  EndpointLimits, Endpoint, Guardrails, Runtime, ServerConfig, ClientConfig, TransportConfig,
}
use caddy_bifrost.Config.Server.{normalize_server}
use caddy_bifrost.Config.Client.{normalize_client}
use caddy_bifrost.Caddyfile.{
  Numbers, ParseError, bad_integer, bad_duration, connector_unsupported, server_tls_unsupported,
  connect_unsupported, client_tls_moved, transport_endpoint_unsupported, exactly_one_runtime,
}
use caddy_bifrost.Caddyfile.Tree.{Lines}
use caddy_bifrost.Caddyfile.Server.{set_connector, new_endpoint, add_endpoint}
use caddy_bifrost.Caddyfile.App.{Runtimes, new_server_config, new_client_config}
use caddy_bifrost.Caddyfile.Schema.{
  Schema, one_arg, flag, retired, block, named, exclusive, read_lines, read_within, result_of,
  Shaped, number, mapped,
}

abbrev pub tls_schema : Schema ClientConfig
tls_schema =
    (text "ca_file", one_arg (λ v. ok (λ c. record c { tls_ca_file = v })))
    ∷ (text "server_name", one_arg (λ v. ok (λ c. record c { tls_server_name = v })))
    ∷ (text "insecure_skip_verify", flag (λ c. record c { tls_insecure_skip_verify = true }))
    ∷ []

abbrev pub client_schema : Schema ClientConfig
client_schema =
    (text "connect", retired connect_unsupported)
    ∷ (text "token", one_arg (λ v. ok (λ c. record c { token = v })))
    ∷ (text "forward", one_arg (λ v. ok (λ c. record c { forward = v })))
    ∷ (text "tls", block (read_lines tls_schema) (Shaped tls_schema))
    ∷ (text "tls_ca_file", retired client_tls_moved)
    ∷ (text "tls_server_name", retired client_tls_moved)
    ∷ (text "tls_insecure_skip_verify", retired client_tls_moved)
    ∷ []

-- A client block: the connector's address and the lines.
unfoldable pub read_client : Text → Lines → Result ParseError ClientConfig
read_client connect ls =
    mapped normalize_client (result_of (read_lines client_schema ls (new_client_config connect)))

module _ (numbers : Numbers) where
  abbrev integer : {S : Type 0} → (ℤ → S → S) → Text → Result ParseError (S → S)
  integer set = number bad_integer numbers.atoi set

  abbrev long : {S : Type 0} → (ℤ → S → S) → Text → Result ParseError (S → S)
  long set = number bad_integer numbers.parse_int set

  abbrev duration : {S : Type 0} → (ℤ → S → S) → Text → Result ParseError (S → S)
  duration set = number bad_duration numbers.parse_duration set

  abbrev pub limits_schema : Schema EndpointLimits
  limits_schema =
      (text "max_streams", one_arg (integer (λ v l. record l { max_streams = v })))
      ∷ (text "max_bandwidth_bps", one_arg (long (λ v l. record l { max_bandwidth_bps = v })))
      ∷ (
        text "stream_idle_timeout",
        one_arg (duration (λ v l. record l { stream_idle_timeout = v })),
      )
      ∷ []

  abbrev pub endpoint_schema : Schema Endpoint
  endpoint_schema =
      (text "token", one_arg (λ v. ok (λ e. record e { token = v })))
      ∷ (text "policy", one_arg (λ v. ok (λ e. record e { policy = v })))
      ∷ (text "max_parallel", one_arg (integer (λ v e. record e { max_parallel = v })))
      ∷ (
        text "limits",
        block (read_within limits_schema (λ e. e.limits) (λ l e. record e { limits = l }))
            (Shaped limits_schema),
      )
      ∷ []

  abbrev pub guardrails_schema : Schema Guardrails
  guardrails_schema =
      (text "max_sessions", one_arg (integer (λ v g. record g { max_sessions = v })))
      ∷ (
        text "max_streams_per_session",
        one_arg (integer (λ v g. record g { max_streams_per_session = v })),
      )
      ∷ (
        text "max_bandwidth_bps_per_session",
        one_arg (long (λ v g. record g { max_bandwidth_bps_per_session = v })),
      )
      ∷ (
        text "min_stream_idle_timeout",
        one_arg (duration (λ v g. record g { min_stream_idle_timeout = v })),
      )
      ∷ (
        text "max_stream_idle_timeout",
        one_arg (duration (λ v g. record g { max_stream_idle_timeout = v })),
      )
      ∷ (text "max_headers", one_arg (integer (λ v g. record g { max_headers = v })))
      ∷ (text "max_header_bytes", one_arg (integer (λ v g. record g { max_header_bytes = v })))
      ∷ []

  abbrev pub runtime_schema : Schema Runtime
  runtime_schema =
      (text "handshake_timeout", one_arg (duration (λ v r. record r { handshake_timeout = v })))
      ∷ (
        text "stream_copy_buffer_bytes",
        one_arg (integer (λ v r. record r { stream_copy_buffer_bytes = v })),
      )
      ∷ (
        text "tunnel_keepalive_interval",
        one_arg (duration (λ v r. record r { tunnel_keep_alive_interval = v })),
      )
      ∷ (
        text "tunnel_keepalive_timeout",
        one_arg (duration (λ v r. record r { tunnel_keep_alive_timeout = v })),
      )
      ∷ []

  -- An endpoint line: its key and the lines of its block.
  unfoldable pub read_endpoint : Text → Lines → Result ParseError Endpoint
  read_endpoint key ls = result_of (read_lines endpoint_schema ls (new_endpoint key))

  abbrev pub server_schema : Schema ServerConfig
  server_schema =
      (text "listen", one_arg (λ v. ok (λ s. set_connector (λ c. record c { listen = v }) s)))
      ∷ (
        text "endpoint",
        named (λ key ls. mapped add_endpoint (read_endpoint key ls)) (Shaped endpoint_schema),
      )
      ∷ (
        text "guardrails",
        block
            (read_within guardrails_schema (λ s. s.guardrails) (λ g s. record s { guardrails = g }))
            (Shaped guardrails_schema),
      )
      ∷ (
        text "runtime",
        block (read_within runtime_schema (λ s. s.runtime) (λ r s. record s { runtime = r }))
            (Shaped runtime_schema),
      )
      ∷ (text "connector", retired connector_unsupported)
      ∷ (text "tls", retired server_tls_unsupported)
      ∷ []

  -- A server block: its TLS subject and the lines.
  unfoldable pub read_server : Text → Lines → Result ParseError ServerConfig
  read_server subject ls =
      mapped normalize_server (result_of (read_lines server_schema ls (new_server_config subject)))

  -- The app's block: one runtime.
  abbrev pub app_schema : Schema Runtimes
  app_schema =
      (
        text "server",
        exclusive (λ s. is_some s.0 || is_some s.1) exactly_one_runtime
            (λ subject ls. mapped (λ cfg s. (some cfg, s.1)) (read_server subject ls))
            (Shaped server_schema),
      )
      ∷ (
        text "client",
        exclusive (λ s. is_some s.0 || is_some s.1) exactly_one_runtime
            (λ connect ls. mapped (λ cfg s. (s.0, some cfg)) (read_client connect ls))
            (Shaped client_schema),
      )
      ∷ []

  abbrev pub transport_schema : Schema TransportConfig
  transport_schema =
      (text "endpoint", retired transport_endpoint_unsupported)
      ∷ (text "app", one_arg (λ v. ok (λ t. record t { app = v })))
      ∷ (text "dial_timeout", one_arg (duration (λ v t. record t { dial_timeout = v })))
      ∷ []

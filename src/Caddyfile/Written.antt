-- ===== src/Caddyfile/Written.antt =====
-- A server's configuration written out as an app block of a Caddyfile, every directive in it.
pub mod Back
pub mod RoundTrip
use caddy_bifrost.Base.{List, [], ◌∷◌, Result, ok, ℤ, ◌≡◌, All}
use caddy_bifrost.Text.{Text, text}
use caddy_bifrost.Config.{EndpointLimits, Endpoint, Guardrails, Runtime, ServerConfig}
use caddy_bifrost.Caddyfile.{Numbers}
use caddy_bifrost.Caddyfile.Tree.{Lines, line, nil, cons}

-- The texts of the three kinds of numbers.
pub record Written : Type 0 where
  pub integer : ℤ → Text
  pub long : ℤ → Text
  pub duration : ℤ → Text

abbrev pub word : Text → Text → Lines → Lines
word name value rest = cons (line name (value ∷ []) nil) rest

abbrev pub inner : Text → Lines → Lines → Lines
inner name body rest = cons (line name [] body) rest

module _ (w : Written) where
  abbrev pub limits_lines : EndpointLimits → Lines
  limits_lines l = word (text "max_streams") (w.integer l.max_streams) (
      word (text "max_bandwidth_bps") (w.long l.max_bandwidth_bps)
        (word (text "stream_idle_timeout") (w.duration l.stream_idle_timeout) nil))

  abbrev pub endpoint_lines : Endpoint → Lines
  endpoint_lines e = word (text "token") e.token (
      word (text "policy") e.policy (
        word (text "max_parallel") (w.integer e.max_parallel)
          (inner (text "limits") (limits_lines e.limits) nil)))

  abbrev pub guardrails_lines : Guardrails → Lines
  guardrails_lines g = word (text "max_sessions") (w.integer g.max_sessions) (
      word (text "max_streams_per_session") (w.integer g.max_streams_per_session) (
        word (text "max_bandwidth_bps_per_session") (w.long g.max_bandwidth_bps_per_session) (
          word (text "min_stream_idle_timeout") (w.duration g.min_stream_idle_timeout) (
            word (text "max_stream_idle_timeout") (w.duration g.max_stream_idle_timeout) (
              word (text "max_headers") (w.integer g.max_headers)
                (word (text "max_header_bytes") (w.integer g.max_header_bytes) nil))))))

  abbrev pub runtime_lines : Runtime → Lines
  runtime_lines r = word (text "handshake_timeout") (w.duration r.handshake_timeout) (
      word (text "stream_copy_buffer_bytes") (w.integer r.stream_copy_buffer_bytes) (
        word (text "tunnel_keepalive_interval") (w.duration r.tunnel_keep_alive_interval)
          (word (text "tunnel_keepalive_timeout") (w.duration r.tunnel_keep_alive_timeout) nil)))

  abbrev pub endpoints_lines : List Endpoint → Lines → Lines
  endpoints_lines [] rest = rest
  endpoints_lines (e ∷ es) rest =
      cons (line (text "endpoint") (e.key ∷ []) (endpoint_lines e)) (endpoints_lines es rest)

  abbrev pub server_lines : ServerConfig → Lines
  server_lines s = word (text "listen") s.connector.listen (
      endpoints_lines s.connector.endpoints (
        inner (text "guardrails") (guardrails_lines s.guardrails)
          (inner (text "runtime") (runtime_lines s.runtime) nil)))

  abbrev pub app_lines : ServerConfig → Lines
  app_lines s = cons (line (text "server") (s.connector.tls_subject ∷ []) (server_lines s)) nil

  -- Each number of a configuration reads back from its text.
  module _ (numbers : Numbers) where
    pub record LimitsRead (l : EndpointLimits) : Type 0 where
      pub streams : numbers.atoi (w.integer l.max_streams) ≡ ok l.max_streams
      pub bandwidth : numbers.parse_int (w.long l.max_bandwidth_bps) ≡ ok l.max_bandwidth_bps
      pub idle :
          numbers.parse_duration (w.duration l.stream_idle_timeout) ≡ ok l.stream_idle_timeout

    pub record EndpointRead (e : Endpoint) : Type 0 where
      pub parallel : numbers.atoi (w.integer e.max_parallel) ≡ ok e.max_parallel
      pub limits : LimitsRead e.limits

    pub record GuardrailsRead (g : Guardrails) : Type 0 where
      pub sessions : numbers.atoi (w.integer g.max_sessions) ≡ ok g.max_sessions
      pub streams :
          numbers.atoi (w.integer g.max_streams_per_session) ≡ ok g.max_streams_per_session
      pub bandwidth :
          numbers.parse_int (w.long g.max_bandwidth_bps_per_session)
          ≡ ok g.max_bandwidth_bps_per_session
      pub least_idle :
          numbers.parse_duration (w.duration g.min_stream_idle_timeout)
          ≡ ok g.min_stream_idle_timeout
      pub most_idle :
          numbers.parse_duration (w.duration g.max_stream_idle_timeout)
          ≡ ok g.max_stream_idle_timeout
      pub headers : numbers.atoi (w.integer g.max_headers) ≡ ok g.max_headers
      pub header_bytes : numbers.atoi (w.integer g.max_header_bytes) ≡ ok g.max_header_bytes

    pub record RuntimeRead (r : Runtime) : Type 0 where
      pub handshake :
          numbers.parse_duration (w.duration r.handshake_timeout) ≡ ok r.handshake_timeout
      pub buffer :
          numbers.atoi (w.integer r.stream_copy_buffer_bytes) ≡ ok r.stream_copy_buffer_bytes
      pub interval :
          numbers.parse_duration (w.duration r.tunnel_keep_alive_interval)
          ≡ ok r.tunnel_keep_alive_interval
      pub timeout :
          numbers.parse_duration (w.duration r.tunnel_keep_alive_timeout)
          ≡ ok r.tunnel_keep_alive_timeout

    pub record ServerRead (s : ServerConfig) : Type 0 where
      pub endpoints : All EndpointRead s.connector.endpoints
      pub guardrails : GuardrailsRead s.guardrails
      pub runtime : RuntimeRead s.runtime

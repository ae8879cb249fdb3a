-- ===== src/Caddyfile/Server.antt =====
-- internal/caddyfile/app.go: the parsers of the server block and of the blocks in it.
use caddy_bifrost.Base.{ℕ, [], ◌∷◌, ◌++◌, if◌then◌else◌, err, pos}
use caddy_bifrost.Text.{Text, text, text_eq}
use caddy_bifrost.Config.{EndpointLimits, Endpoint, Connector, Guardrails, Runtime, ServerConfig}
use caddy_bifrost.Caddyfile.{
  Dispenser, Numbers, Parsed, Filled, fill, within, value_of, and_then, unless_arg, each_line,
  single_arg, single_int, single_int64, single_duration, wrong_args, connector_unsupported,
  server_tls_unsupported,
}

-- Go's zero values.
abbrev pub no_limits : EndpointLimits
no_limits = record { max_streams = pos 0; max_bandwidth_bps = pos 0; stream_idle_timeout = pos 0 }

abbrev pub new_endpoint : Text → Endpoint
new_endpoint key = record {
  key = key;
  token = [];
  policy = [];
  max_parallel = pos 0;
  limits = no_limits;
}

abbrev pub set_connector : (Connector → Connector) → ServerConfig → ServerConfig
set_connector change s = record s { connector = change s.connector }

-- `s.Connector.Endpoints = append(s.Connector.Endpoints, endpoint)`.
abbrev pub add_endpoint : Endpoint → ServerConfig → ServerConfig
add_endpoint e s = set_connector (λ c. record c { endpoints = c.endpoints ++ e ∷ [] }) s

module _ {D : Type 0} (o : Dispenser D) (numbers : Numbers) where
  unfoldable pub limits_line : ℕ → D → EndpointLimits → Filled D EndpointLimits
  limits_line fuel d l =
      if text_eq (o.val d) (text "max_streams")
      then fill (single_int o numbers d) (λ v l. record l { max_streams = v }) l
      else if text_eq (o.val d) (text "max_bandwidth_bps")
      then fill (single_int64 o numbers d) (λ v l. record l { max_bandwidth_bps = v }) l
      else if text_eq (o.val d) (text "stream_idle_timeout")
      then fill (single_duration o numbers d) (λ v l. record l { stream_idle_timeout = v }) l
      else (d, l, err wrong_args)

  -- `parseLimits`.
  unfoldable pub parse_limits : ℕ → ℕ → D → EndpointLimits → Filled D EndpointLimits
  unfolding limits_line
  parse_limits fuel nesting d l = each_line o fuel limits_line nesting d l

  unfoldable pub endpoint_line : ℕ → D → Endpoint → Filled D Endpoint
  endpoint_line fuel d e =
      if text_eq (o.val d) (text "token")
      then fill (single_arg o d) (λ v e. record e { token = v }) e
      else if text_eq (o.val d) (text "policy")
      then fill (single_arg o d) (λ v e. record e { policy = v }) e
      else if text_eq (o.val d) (text "max_parallel")
      then fill (single_int o numbers d) (λ v e. record e { max_parallel = v }) e
      else if text_eq (o.val d) (text "limits")
      then unless_arg (o.next_arg d)
          (λ d e.
            within (parse_limits fuel (o.nesting d) d e.limits) (λ l e. record e { limits = l }) e)
          e
      else (d, e, err wrong_args)

  -- `parseEndpoint`.
  unfoldable pub parse_endpoint : ℕ → D → Parsed D Endpoint
  unfolding endpoint_line
  parse_endpoint fuel d =
      and_then (single_arg o d)
        λ key d. value_of (each_line o fuel endpoint_line (o.nesting d) d (new_endpoint key))

  unfoldable pub guardrails_line : ℕ → D → Guardrails → Filled D Guardrails
  guardrails_line fuel d g =
      if text_eq (o.val d) (text "max_sessions")
      then fill (single_int o numbers d) (λ v g. record g { max_sessions = v }) g
      else if text_eq (o.val d) (text "max_streams_per_session")
      then fill (single_int o numbers d) (λ v g. record g { max_streams_per_session = v }) g
      else if text_eq (o.val d) (text "max_bandwidth_bps_per_session")
      then fill (single_int64 o numbers d) (λ v g. record g { max_bandwidth_bps_per_session = v }) g
      else if text_eq (o.val d) (text "min_stream_idle_timeout")
      then fill (single_duration o numbers d) (λ v g. record g { min_stream_idle_timeout = v }) g
      else if text_eq (o.val d) (text "max_stream_idle_timeout")
      then fill (single_duration o numbers d) (λ v g. record g { max_stream_idle_timeout = v }) g
      else if text_eq (o.val d) (text "max_headers")
      then fill (single_int o numbers d) (λ v g. record g { max_headers = v }) g
      else if text_eq (o.val d) (text "max_header_bytes")
      then fill (single_int o numbers d) (λ v g. record g { max_header_bytes = v }) g
      else (d, g, err wrong_args)

  -- `parseGuardrails`.
  unfoldable pub parse_guardrails : ℕ → ℕ → D → Guardrails → Filled D Guardrails
  unfolding guardrails_line
  parse_guardrails fuel nesting d g = each_line o fuel guardrails_line nesting d g

  unfoldable pub runtime_line : ℕ → D → Runtime → Filled D Runtime
  runtime_line fuel d r =
      if text_eq (o.val d) (text "handshake_timeout")
      then fill (single_duration o numbers d) (λ v r. record r { handshake_timeout = v }) r
      else if text_eq (o.val d) (text "stream_copy_buffer_bytes")
      then fill (single_int o numbers d) (λ v r. record r { stream_copy_buffer_bytes = v }) r
      else if text_eq (o.val d) (text "tunnel_keepalive_interval")
      then fill (single_duration o numbers d) (λ v r. record r { tunnel_keep_alive_interval = v }) r
      else if text_eq (o.val d) (text "tunnel_keepalive_timeout")
      then fill (single_duration o numbers d) (λ v r. record r { tunnel_keep_alive_timeout = v }) r
      else (d, r, err wrong_args)

  -- `parseRuntime`.
  unfoldable pub parse_runtime : ℕ → ℕ → D → Runtime → Filled D Runtime
  unfolding runtime_line
  parse_runtime fuel nesting d r = each_line o fuel runtime_line nesting d r

  unfoldable pub server_line : ℕ → D → ServerConfig → Filled D ServerConfig
  server_line fuel d s =
      if text_eq (o.val d) (text "listen")
      then fill (single_arg o d) (λ v s. set_connector (λ c. record c { listen = v }) s) s
      else if text_eq (o.val d) (text "endpoint")
      then fill (parse_endpoint fuel d) add_endpoint s
      else if text_eq (o.val d) (text "guardrails")
      then unless_arg (o.next_arg d)
          (λ d s.
            within (parse_guardrails fuel (o.nesting d) d s.guardrails)
              (λ g s. record s { guardrails = g }) s)
          s
      else if text_eq (o.val d) (text "runtime")
      then unless_arg (o.next_arg d)
          (λ d s.
            within (parse_runtime fuel (o.nesting d) d s.runtime) (λ r s. record s { runtime = r })
              s)
          s
      else if text_eq (o.val d) (text "connector")
      then (d, s, err connector_unsupported)
      else if text_eq (o.val d) (text "tls")
      then (d, s, err server_tls_unsupported)
      else (d, s, err wrong_args)

  -- `parseServerBody`.
  unfoldable pub parse_server_body : ℕ → ℕ → D → ServerConfig → Filled D ServerConfig
  unfolding server_line
  parse_server_body fuel nesting d s = each_line o fuel server_line nesting d s

-- ===== src/Caddyfile/Cursor/Server.antt =====
-- The parsers of the server's blocks read their lines as the schemas do.
use caddy_bifrost.Text.{text, text_eq}
use caddy_bifrost.Caddyfile.{
  Dispenser, Numbers, single_int, single_int64, single_duration, wrong_args, connector_unsupported,
  server_tls_unsupported,
}
use caddy_bifrost.Caddyfile.Server.{
  new_endpoint, add_endpoint, limits_line, parse_limits, endpoint_line, parse_endpoint,
  guardrails_line, parse_guardrails, runtime_line, parse_runtime, server_line,
}
use caddy_bifrost.Caddyfile.Schema.{Shaped}
use caddy_bifrost.Caddyfile.Schema.Blocks.{
  limits_schema, endpoint_schema, guardrails_schema, runtime_schema, server_schema, read_endpoint,
}
use caddy_bifrost.Caddyfile.Cursor.{Cursor}
use caddy_bifrost.Caddyfile.Cursor.Loop.{Implements, if-Agrees}
use caddy_bifrost.Caddyfile.Cursor.Forms.{
  text_line, number_line, refused_line, block_line, body-Returns, named_line,
}

module _ {D : Type 0} (o : Dispenser D) (numbers : Numbers) (c : Cursor o) where
  pub limits_line-Implements : Implements o c (limits_line o numbers) (limits_schema numbers)
  unfolding limits_line single_int single_int64 single_duration
  limits_line-Implements fuel d name args body outer s at enough shape = rw (c.current at) (
      if-Agrees o c (text_eq name (text "max_streams")) shape
        (λ h. number_line o c d name args body outer s at _ _ _ h)
        λ shape.
          (if-Agrees o c (text_eq name (text "max_bandwidth_bps")) shape
            (λ h. number_line o c d name args body outer s at _ _ _ h)
            λ shape.
              (if-Agrees o c (text_eq name (text "stream_idle_timeout")) shape
                (λ h. number_line o c d name args body outer s at _ _ _ h)
                λ shape. refused_line o c d name args body outer s at wrong_args)))

  pub endpoint_line-Implements : Implements o c (endpoint_line o numbers) (endpoint_schema numbers)
  unfolding endpoint_line parse_limits single_int
  endpoint_line-Implements fuel d name args body outer s at enough shape = rw (c.current at) (
      if-Agrees o c (text_eq name (text "token")) shape
        (λ h. text_line o c d name args body outer s at _ h)
        λ shape.
          (if-Agrees o c (text_eq name (text "policy")) shape
            (λ h. text_line o c d name args body outer s at _ h)
            λ shape.
              (if-Agrees o c (text_eq name (text "max_parallel")) shape
                (λ h. number_line o c d name args body outer s at _ _ _ h)
                λ shape.
                  (if-Agrees o c (text_eq name (text "limits")) shape
                    (λ h.
                      block_line o c d name args body outer s at (limits_line o numbers)
                        (limits_schema numbers) (λ e. e.limits) (λ l e. record e { limits = l })
                        fuel limits_line-Implements enough h)
                    λ shape. refused_line o c d name args body outer s at wrong_args))))

  pub guardrails_line-Implements :
      Implements o c (guardrails_line o numbers) (guardrails_schema numbers)
  unfolding guardrails_line single_int single_int64 single_duration
  guardrails_line-Implements fuel d name args body outer s at enough shape = rw (c.current at) (
      if-Agrees o c (text_eq name (text "max_sessions")) shape
        (λ h. number_line o c d name args body outer s at _ _ _ h)
        λ shape.
          (if-Agrees o c (text_eq name (text "max_streams_per_session")) shape
            (λ h. number_line o c d name args body outer s at _ _ _ h)
            λ shape.
              (if-Agrees o c (text_eq name (text "max_bandwidth_bps_per_session")) shape
                (λ h. number_line o c d name args body outer s at _ _ _ h)
                λ shape.
                  (if-Agrees o c (text_eq name (text "min_stream_idle_timeout")) shape
                    (λ h. number_line o c d name args body outer s at _ _ _ h)
                    λ shape.
                      (if-Agrees o c (text_eq name (text "max_stream_idle_timeout")) shape
                        (λ h. number_line o c d name args body outer s at _ _ _ h)
                        λ shape.
                          (if-Agrees o c (text_eq name (text "max_headers")) shape
                            (λ h. number_line o c d name args body outer s at _ _ _ h)
                            λ shape.
                              (if-Agrees o c (text_eq name (text "max_header_bytes")) shape
                                (λ h. number_line o c d name args body outer s at _ _ _ h)
                                λ shape.
                                  refused_line o c d name args body outer s at wrong_args)))))))

  pub runtime_line-Implements : Implements o c (runtime_line o numbers) (runtime_schema numbers)
  unfolding runtime_line single_int single_duration
  runtime_line-Implements fuel d name args body outer s at enough shape = rw (c.current at) (
      if-Agrees o c (text_eq name (text "handshake_timeout")) shape
        (λ h. number_line o c d name args body outer s at _ _ _ h)
        λ shape.
          (if-Agrees o c (text_eq name (text "stream_copy_buffer_bytes")) shape
            (λ h. number_line o c d name args body outer s at _ _ _ h)
            λ shape.
              (if-Agrees o c (text_eq name (text "tunnel_keepalive_interval")) shape
                (λ h. number_line o c d name args body outer s at _ _ _ h)
                λ shape.
                  (if-Agrees o c (text_eq name (text "tunnel_keepalive_timeout")) shape
                    (λ h. number_line o c d name args body outer s at _ _ _ h)
                    λ shape. refused_line o c d name args body outer s at wrong_args))))

  pub server_line-Implements : Implements o c (server_line o numbers) (server_schema numbers)
  unfolding server_line parse_endpoint parse_guardrails parse_runtime read_endpoint
  server_line-Implements fuel d name args body outer s at enough shape = rw (c.current at) (
      if-Agrees o c (text_eq name (text "listen")) shape
        (λ h. text_line o c d name args body outer s at _ h)
        λ shape.
          (if-Agrees o c (text_eq name (text "endpoint")) shape
            (λ h.
              named_line o c d name args body outer s at add_endpoint _ (read_endpoint numbers)
                (Shaped (endpoint_schema numbers))
                (λ key d at.
                  body-Returns o c (endpoint_line o numbers) (endpoint_schema numbers) fuel body
                    outer d key (new_endpoint key) endpoint_line-Implements enough h at))
            λ shape.
              (if-Agrees o c (text_eq name (text "guardrails")) shape
                (λ h.
                  block_line o c d name args body outer s at (guardrails_line o numbers)
                    (guardrails_schema numbers) (λ s. s.guardrails)
                    (λ g s. record s { guardrails = g }) fuel guardrails_line-Implements enough h)
                λ shape.
                  (if-Agrees o c (text_eq name (text "runtime")) shape
                    (λ h.
                      block_line o c d name args body outer s at (runtime_line o numbers)
                        (runtime_schema numbers) (λ s. s.runtime) (λ r s. record s { runtime = r })
                        fuel runtime_line-Implements enough h)
                    λ shape.
                      (if-Agrees o c (text_eq name (text "connector")) shape
                        (λ h. refused_line o c d name args body outer s at connector_unsupported)
                        λ shape.
                          (if-Agrees o c (text_eq name (text "tls")) shape
                            (λ h.
                              refused_line o c d name args body outer s at server_tls_unsupported)
                            λ shape. refused_line o c d name args body outer s at wrong_args))))))

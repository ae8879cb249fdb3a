-- ===== src/Caddyfile/Ending/Blocks.antt =====
-- The parsers of the app and of the transport end on every input.
use caddy_bifrost.Base.{ℕ, ◌<◌, ◌≢◌, ◌||◌, is_some, some, arith, err}
use caddy_bifrost.Text.{text, text_eq}
use caddy_bifrost.Caddyfile.{
  Dispenser, Numbers, wrong_args, exactly_one_runtime, connector_unsupported,
  server_tls_unsupported, transport_endpoint_unsupported, bad_integer, bad_duration, out_of_fuel,
  single_arg, single_int, single_int64, single_duration,
}
use caddy_bifrost.Caddyfile.Server.{
  limits_line, parse_limits, endpoint_line, parse_endpoint, guardrails_line, parse_guardrails,
  runtime_line, parse_runtime, server_line, parse_server_body, new_endpoint, add_endpoint,
}
use caddy_bifrost.Caddyfile.App.{
  new_server_config, parse_server_case, app_line, app_segment, parse_app, transport_line,
  transport_segment, parse_transport,
}
use caddy_bifrost.Caddyfile.Ending.{
  Progress, Gives, HandlerEnds, stop_Ends, done_Gives, if-Ends, fill-Ends, within-Ends,
  value_of-Gives, and_then-Gives, unless_arg-Ends, single_arg-Gives, read_number-Gives, block_Ends,
}
use caddy_bifrost.Caddyfile.Ending.Client.{client_case-Gives, each_segment-Ends}

module _ {D : Type 0} (o : Dispenser D) (numbers : Numbers) (m : Progress o) where
  open m use {left}

  single_int-Gives : (d : D) → Gives o m d (single_int o numbers d)
  unfolding single_int
  single_int-Gives d =
      read_number-Gives o m numbers.atoi bad_integer d (single_arg o d) (λ v why h. cc)
        (single_arg-Gives o m d)

  single_int64-Gives : (d : D) → Gives o m d (single_int64 o numbers d)
  unfolding single_int64
  single_int64-Gives d =
      read_number-Gives o m numbers.parse_int bad_integer d (single_arg o d) (λ v why h. cc)
        (single_arg-Gives o m d)

  single_duration-Gives : (d : D) → Gives o m d (single_duration o numbers d)
  unfolding single_duration
  single_duration-Gives d =
      read_number-Gives o m numbers.parse_duration bad_duration d (single_arg o d) (λ v why h. cc)
        (single_arg-Gives o m d)

  limits_line-Ends : HandlerEnds o m (limits_line o numbers)
  unfolding limits_line
  limits_line-Ends fuel d s v at enough = rw at (
      (if-Ends o m (text_eq v (text "max_streams"))
        (fill-Ends o m d (single_int o numbers d) _ s (single_int-Gives d))
        (if-Ends o m (text_eq v (text "max_bandwidth_bps"))
          (fill-Ends o m d (single_int64 o numbers d) _ s (single_int64-Gives d))
          (if-Ends o m (text_eq v (text "stream_idle_timeout"))
            (fill-Ends o m d (single_duration o numbers d) _ s (single_duration-Gives d))
            (stop_Ends o m d s wrong_args (λ h. cc))))))

  endpoint_line-Ends : HandlerEnds o m (endpoint_line o numbers)
  unfolding endpoint_line parse_limits
  endpoint_line-Ends fuel d s v at enough = rw at (
      (if-Ends o m (text_eq v (text "token"))
        (fill-Ends o m d (single_arg o d) _ s (single_arg-Gives o m d))
        (if-Ends o m (text_eq v (text "policy"))
          (fill-Ends o m d (single_arg o d) _ s (single_arg-Gives o m d))
          (if-Ends o m (text_eq v (text "max_parallel"))
            (fill-Ends o m d (single_int o numbers d) _ s (single_int-Gives d))
            (if-Ends o m (text_eq v (text "limits"))
              (unless_arg-Ends o m d _ s λ d' h.
                within-Ends o m d' _ (λ l e. record e { limits = l }) s
                  (block_Ends o m (limits_line o numbers) limits_line-Ends fuel d' _ (omega arith)))
              (stop_Ends o m d s wrong_args (λ h. cc)))))))

  parse_endpoint-Gives :
      (fuel : ℕ) (d : D) → left d < fuel → Gives o m d (parse_endpoint o numbers fuel d)
  unfolding parse_endpoint
  parse_endpoint-Gives fuel d enough =
      and_then-Gives o m d (single_arg o d) _ (single_arg-Gives o m d) λ key d h.
        value_of-Gives o m d _ (
          block_Ends o m (endpoint_line o numbers) endpoint_line-Ends fuel d (new_endpoint key)
            (omega arith))

  guardrails_line-Ends : HandlerEnds o m (guardrails_line o numbers)
  unfolding guardrails_line
  guardrails_line-Ends fuel d s v at enough = rw at (
      (if-Ends o m (text_eq v (text "max_sessions"))
        (fill-Ends o m d (single_int o numbers d) _ s (single_int-Gives d))
        (if-Ends o m (text_eq v (text "max_streams_per_session"))
          (fill-Ends o m d (single_int o numbers d) _ s (single_int-Gives d))
          (if-Ends o m (text_eq v (text "max_bandwidth_bps_per_session"))
            (fill-Ends o m d (single_int64 o numbers d) _ s (single_int64-Gives d))
            (if-Ends o m (text_eq v (text "min_stream_idle_timeout"))
              (fill-Ends o m d (single_duration o numbers d) _ s (single_duration-Gives d))
              (if-Ends o m (text_eq v (text "max_stream_idle_timeout"))
                (fill-Ends o m d (single_duration o numbers d) _ s (single_duration-Gives d))
                (if-Ends o m (text_eq v (text "max_headers"))
                  (fill-Ends o m d (single_int o numbers d) _ s (single_int-Gives d))
                  (if-Ends o m (text_eq v (text "max_header_bytes"))
                    (fill-Ends o m d (single_int o numbers d) _ s (single_int-Gives d))
                    (stop_Ends o m d s wrong_args (λ h. cc))))))))))

  runtime_line-Ends : HandlerEnds o m (runtime_line o numbers)
  unfolding runtime_line
  runtime_line-Ends fuel d s v at enough = rw at (
      (if-Ends o m (text_eq v (text "handshake_timeout"))
        (fill-Ends o m d (single_duration o numbers d) _ s (single_duration-Gives d))
        (if-Ends o m (text_eq v (text "stream_copy_buffer_bytes"))
          (fill-Ends o m d (single_int o numbers d) _ s (single_int-Gives d))
          (if-Ends o m (text_eq v (text "tunnel_keepalive_interval"))
            (fill-Ends o m d (single_duration o numbers d) _ s (single_duration-Gives d))
            (if-Ends o m (text_eq v (text "tunnel_keepalive_timeout"))
              (fill-Ends o m d (single_duration o numbers d) _ s (single_duration-Gives d))
              (stop_Ends o m d s wrong_args (λ h. cc)))))))

  server_line-Ends : HandlerEnds o m (server_line o numbers)
  unfolding server_line parse_guardrails parse_runtime
  server_line-Ends fuel d s v at enough = rw at (
      (if-Ends o m (text_eq v (text "listen"))
        (fill-Ends o m d (single_arg o d) _ s (single_arg-Gives o m d))
        (if-Ends o m (text_eq v (text "endpoint"))
          (fill-Ends o m d (parse_endpoint o numbers fuel d) add_endpoint s
            (parse_endpoint-Gives fuel d enough))
          (if-Ends o m (text_eq v (text "guardrails"))
            (unless_arg-Ends o m d _ s λ d' h.
              within-Ends o m d' _ (λ g s. record s { guardrails = g }) s
                (block_Ends o m (guardrails_line o numbers) guardrails_line-Ends fuel d' _
                  (omega arith)))
            (if-Ends o m (text_eq v (text "runtime"))
              (unless_arg-Ends o m d _ s λ d' h.
                within-Ends o m d' _ (λ r s. record s { runtime = r }) s
                  (block_Ends o m (runtime_line o numbers) runtime_line-Ends fuel d' _
                    (omega arith)))
              (if-Ends o m (text_eq v (text "connector"))
                (stop_Ends o m d s connector_unsupported (λ h. cc))
                (if-Ends o m (text_eq v (text "tls"))
                  (stop_Ends o m d s server_tls_unsupported (λ h. cc))
                  (stop_Ends o m d s wrong_args (λ h. cc)))))))))

  server_case-Gives :
      (fuel : ℕ) (d : D) → left d < fuel → Gives o m d (parse_server_case o numbers fuel d)
  unfolding parse_server_case parse_server_body
  server_case-Gives fuel d enough =
      and_then-Gives o m d (single_arg o d) _ (single_arg-Gives o m d) λ subject d h.
        and_then-Gives o m d _ _
          (value_of-Gives o m d _ (
            block_Ends o m (server_line o numbers) server_line-Ends fuel d
              (new_server_config subject) (omega arith)))
          λ cfg d' h'. done_Gives o m d' d' _ (omega arith)

  app_line-Ends : HandlerEnds o m (app_line o numbers)
  unfolding app_line
  app_line-Ends fuel d s v at enough = rw at (
      (if-Ends o m (text_eq v (text "server"))
        ((if-Ends o m (is_some s.0 || is_some s.1) (stop_Ends o m d s exactly_one_runtime (λ h. cc))
          (fill-Ends o m d _ (λ cfg s. (some cfg, s.1)) s (server_case-Gives fuel d enough))))
        (if-Ends o m (text_eq v (text "client"))
          ((if-Ends o m (is_some s.0 || is_some s.1)
            (stop_Ends o m d s exactly_one_runtime (λ h. cc))
            (fill-Ends o m d _ (λ cfg s. (s.0, some cfg)) s (client_case-Gives o m fuel d enough))))
          (stop_Ends o m d s wrong_args (λ h. cc)))))

  transport_line-Ends : HandlerEnds o m (transport_line o numbers)
  unfolding transport_line
  transport_line-Ends fuel d s v at enough = rw at (
      (if-Ends o m (text_eq v (text "endpoint"))
        (stop_Ends o m d s transport_endpoint_unsupported (λ h. cc))
        (if-Ends o m (text_eq v (text "app"))
          (fill-Ends o m d (single_arg o d) _ s (single_arg-Gives o m d))
          (if-Ends o m (text_eq v (text "dial_timeout"))
            (fill-Ends o m d (single_duration o numbers d) _ s (single_duration-Gives d))
            (stop_Ends o m d s wrong_args (λ h. cc))))))

  app_segment-Ends : HandlerEnds o m (app_segment o numbers)
  unfolding app_segment
  app_segment-Ends fuel d s v at enough =
      unless_arg-Ends o m d _ s
        λ d' h. block_Ends o m (app_line o numbers) app_line-Ends fuel d' s (omega arith)

  transport_segment-Ends : HandlerEnds o m (transport_segment o numbers)
  unfolding transport_segment
  transport_segment-Ends fuel d s v at enough =
      unless_arg-Ends o m d _ s λ d' h.
        block_Ends o m (transport_line o numbers) transport_line-Ends fuel d' s (omega arith)

  -- The parsers of the app and of the transport end on every input, well formed or not: with more
  -- fuel than there are tokens in front of the cursor, none of their loops runs out of it.
  pub parsers_end :
      (fuel : ℕ) (d : D)
      → left d < fuel
      → ((parse_app o numbers fuel d).1 ≢ err out_of_fuel)
        × ((parse_transport o numbers fuel d).1 ≢ err out_of_fuel)
  unfolding parse_app parse_transport
  parsers_end fuel d enough = (
    (value_of-Gives o m d _
        (each_segment-Ends o m (app_segment o numbers) app_segment-Ends fuel d _ enough)).fuelled,
    (value_of-Gives o m d _ (
        each_segment-Ends o m (transport_segment o numbers) transport_segment-Ends fuel d _
          enough)).fuelled,
  )

-- ===== src/Caddyfile/App.antt =====
-- internal/caddyfile/app.go, caddyfile.go and listener.go: the parsers of whole blocks, which fill
-- in the app, the transport and the listener wrapper.
use caddy_bifrost.Base.{
  ℕ, zero, suc, Bool, true, false, ◌||◌, Option, none, some, List, [], ◌∷◌, ◌++◌, if◌then◌else◌,
  is_some, Result, ok, err, pos,
}
use caddy_bifrost.Text.{Text, text, text_eq}
use caddy_bifrost.Config.{Guardrails, Runtime, ServerConfig, ClientConfig, TransportConfig}
use caddy_bifrost.Config.Server.{normalize_server}
use caddy_bifrost.Config.Client.{normalize_client}
use caddy_bifrost.Routes.{SniRoute}
use caddy_bifrost.App.{App}
use caddy_bifrost.Caddyfile.{
  Dispenser, Numbers, ParseError, Parsed, Filled, fill, value_of, and_then, unless_arg, on_line,
  each_line, single_arg, single_duration, wrong_args, exactly_one_runtime,
  transport_endpoint_unsupported, out_of_fuel,
}
use caddy_bifrost.Caddyfile.Server.{parse_server_body}
use caddy_bifrost.Caddyfile.Client.{parse_client_body}

abbrev pub no_guardrails : Guardrails
no_guardrails = record {
  max_sessions = pos 0;
  max_streams_per_session = pos 0;
  max_bandwidth_bps_per_session = pos 0;
  min_stream_idle_timeout = pos 0;
  max_stream_idle_timeout = pos 0;
  max_headers = pos 0;
  max_header_bytes = pos 0;
}

abbrev pub no_runtime : Runtime
no_runtime = record {
  handshake_timeout = pos 0;
  stream_copy_buffer_bytes = pos 0;
  tunnel_keep_alive_interval = pos 0;
  tunnel_keep_alive_timeout = pos 0;
}

-- `new(config.Server)` with its TLS subject, `new(config.Client)` with its connect address.
abbrev pub new_server_config : Text → ServerConfig
new_server_config subject = record {
  connector = record { listen = []; tls_subject = subject; endpoints = [] };
  guardrails = no_guardrails;
  runtime = no_runtime;
}

abbrev pub new_client_config : Text → ClientConfig
new_client_config connect = record {
  connect = connect;
  token = [];
  forward = [];
  tls_ca_file = [];
  tls_server_name = [];
  tls_insecure_skip_verify = false;
}

-- The two runtimes that `ParseApp` fills in.
abbrev pub Runtimes : Type 0
Runtimes = Option ServerConfig × Option ClientConfig

-- The configuration of the listener wrapper that its block can set.
pub record ListenerConfig : Type 0 where
  pub app : Text
  pub routes : List SniRoute

-- A parsed configuration, normalised whether or not the parser failed.
abbrev pub normalized :
    {D S : Type 0} → (S → S) → Filled D S → D × Option S × Result ParseError (Unit {0})
normalized normalize (d, s, r) = (d, some (normalize s), r)

module _ {D : Type 0} (o : Dispenser D) where
  -- `for d.Next() { … }`.
  unfoldable pub each_segment : {S : Type 0} → ℕ → (ℕ → D → S → Filled D S) → D → S → Filled D S
  each_segment zero body d s = (d, s, err out_of_fuel)
  each_segment (suc fuel) body d s =
      let rest = each_segment fuel body in on_line (o.next d) (body fuel) rest s

  -- The body of the case `"client"` of `ParseApp`, behind its guard.
  unfoldable pub parse_client_case : ℕ → D → Parsed D ClientConfig
  parse_client_case fuel d = and_then (single_arg o d) λ connect d.
      and_then (value_of (parse_client_body o fuel (o.nesting d) d (new_client_config connect)))
        (λ cfg d. (d, ok (normalize_client cfg)))

  client_of : ℕ → D → Parsed D Text → D × Option ClientConfig × Result ParseError (Unit {0})
  client_of fuel d (d', err e) = (d', none, err e)
  client_of fuel d (d', ok connect) =
      normalized normalize_client
        (parse_client_body o fuel (o.nesting d') d' (new_client_config connect))

  client_segment : ℕ → D × Bool → D × Option ClientConfig × Result ParseError (Unit {0})
  unfolding client_of
  client_segment fuel (d, false) = (d, some (new_client_config []), ok tt)
  client_segment fuel (d, true) = client_of fuel d (single_arg o d)

  -- `ParseClient`: its loop returns in the first round.
  unfoldable pub parse_client : ℕ → D → D × Option ClientConfig × Result ParseError (Unit {0})
  unfolding client_segment
  parse_client fuel d = client_segment fuel (o.next d)

  unfoldable pub second_arg : Text → D × Bool → ListenerConfig → Filled D ListenerConfig
  second_arg server_name (d, false) w = (d, w, err wrong_args)
  second_arg server_name (d, true) w =
      unless_arg (o.next_arg d)
        (λ d' w. (
          d',
          record w {
            routes = w.routes ++ record { server_name = server_name; endpoint = o.val d } ∷ [];
          },
          ok tt,
        ))
        w

  unfoldable pub route_args : D × Bool → ListenerConfig → Filled D ListenerConfig
  unfolding second_arg
  route_args (d, false) w = (d, w, err wrong_args)
  route_args (d, true) w = second_arg (o.val d) (o.next_arg d) w

  -- The name is set before the arguments after it are looked for.
  unfoldable pub app_arg : D × Bool → ListenerConfig → Filled D ListenerConfig
  app_arg (d, false) w = (d, w, err wrong_args)
  app_arg (d, true) w =
      unless_arg (o.next_arg d) (λ d w. (d, w, ok tt)) (record w { app = o.val d })

  unfoldable pub listener_line : ℕ → D → ListenerConfig → Filled D ListenerConfig
  unfolding route_args app_arg
  listener_line fuel d w =
      if text_eq (o.val d) (text "app")
      then app_arg (o.next_arg d) w
      else if text_eq (o.val d) (text "route_sni")
      then route_args (o.next_arg d) w
      else (d, w, err wrong_args)

  -- `ListenerWrapper.UnmarshalCaddyfile`.
  unfoldable pub parse_listener : ℕ → D → ListenerConfig → Filled D ListenerConfig
  unfolding listener_line
  parse_listener fuel d w =
      unless_arg (o.next_arg (o.next d).0) (λ d w. each_line o fuel listener_line 0 d w) w

module _ {D : Type 0} (o : Dispenser D) (numbers : Numbers) where
  -- The body of the case `"server"` of `ParseApp`, behind its guard.
  unfoldable pub parse_server_case : ℕ → D → Parsed D ServerConfig
  parse_server_case fuel d = and_then (single_arg o d) λ subject d.
      and_then
        (value_of (parse_server_body o numbers fuel (o.nesting d) d (new_server_config subject)))
        (λ cfg d. (d, ok (normalize_server cfg)))

  unfoldable pub app_line : ℕ → D → Runtimes → Filled D Runtimes
  unfolding parse_server_case parse_client_case
  app_line fuel d s =
      if text_eq (o.val d) (text "server")
      then (if is_some s.0 || is_some s.1
          then (d, s, err exactly_one_runtime)
          else fill (parse_server_case fuel d) (λ cfg s. (some cfg, s.1)) s)
      else if text_eq (o.val d) (text "client")
      then (if is_some s.0 || is_some s.1
          then (d, s, err exactly_one_runtime)
          else fill (parse_client_case o fuel d) (λ cfg s. (s.0, some cfg)) s)
      else (d, s, err wrong_args)

  unfoldable pub app_segment : ℕ → D → Runtimes → Filled D Runtimes
  unfolding app_line
  app_segment fuel d s =
      unless_arg (o.next_arg d) (λ d s. each_line o fuel app_line (o.nesting d) d s) s

  -- `ParseApp`.
  unfoldable pub parse_app : ℕ → D → Parsed D Runtimes
  unfolding each_segment app_segment
  parse_app fuel d = value_of (each_segment o fuel app_segment d (none, none))

  -- `App.UnmarshalCaddyfile`.
  unfoldable pub unmarshal_app : ℕ → D → App → Filled D App
  unmarshal_app fuel d a =
      fill (parse_app fuel d) (λ runtimes a. record a { server = runtimes.0; client = runtimes.1 })
        a

  server_of : ℕ → D → Parsed D Text → D × Option ServerConfig × Result ParseError (Unit {0})
  server_of fuel d (d', err e) = (d', none, err e)
  server_of fuel d (d', ok subject) =
      normalized normalize_server
        (parse_server_body o numbers fuel (o.nesting d') d' (new_server_config subject))

  server_segment : ℕ → D × Bool → D × Option ServerConfig × Result ParseError (Unit {0})
  unfolding server_of
  server_segment fuel (d, false) = (d, some (new_server_config []), ok tt)
  server_segment fuel (d, true) = server_of fuel d (single_arg o d)

  -- `ParseServer`: its loop returns in the first round.
  unfoldable pub parse_server : ℕ → D → D × Option ServerConfig × Result ParseError (Unit {0})
  unfolding server_segment
  parse_server fuel d = server_segment fuel (o.next d)

  unfoldable pub transport_line : ℕ → D → TransportConfig → Filled D TransportConfig
  transport_line fuel d t =
      if text_eq (o.val d) (text "endpoint")
      then (d, t, err transport_endpoint_unsupported)
      else if text_eq (o.val d) (text "app")
      then fill (single_arg o d) (λ v t. record t { app = v }) t
      else if text_eq (o.val d) (text "dial_timeout")
      then fill (single_duration o numbers d) (λ v t. record t { dial_timeout = v }) t
      else (d, t, err wrong_args)

  unfoldable pub transport_segment : ℕ → D → TransportConfig → Filled D TransportConfig
  unfolding transport_line
  transport_segment fuel d t =
      unless_arg (o.next_arg d) (λ d t. each_line o fuel transport_line (o.nesting d) d t) t

  -- `ParseTransport`.
  unfoldable pub parse_transport : ℕ → D → Parsed D TransportConfig
  unfolding each_segment transport_segment
  parse_transport fuel d =
      value_of (each_segment o fuel transport_segment d (record { app = []; dial_timeout = pos 0 }))

  -- `Transport.UnmarshalCaddyfile`.
  unfoldable pub unmarshal_transport : ℕ → D → TransportConfig → Filled D TransportConfig
  unmarshal_transport fuel d t = fill (parse_transport fuel d) (λ cfg t. cfg) t

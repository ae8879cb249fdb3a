-- ===== src/Tests/Config.antt =====
-- Tests of the configuration models, and of the app that runs on them.
use caddy_bifrost.Base.{
  ◌*◌, ◌≡◌, refl, ◌↔◌, false, Option, none, some, List, [], ◌∷◌, pos, pos_part, ok, err, arith,
}
use caddy_bifrost.Text.{Text, text, text_eq, is_space, trim_left, trim_right, trim_space}
use caddy_bifrost.HostPort.{split_host_port, join_host_port}
use caddy_bifrost.HostPort.Laws.{split-join}
use caddy_bifrost.Config.{
  EndpointLimits, Endpoint, Guardrails, Runtime, ServerConfig, default_connector_port,
  endpoint_key_duplicate,
}
use caddy_bifrost.Config.Limits.{
  PlanLimits, plan_limits, validate_limits, validate_guardrails, validate_runtime,
  plan_limits-of_LimitsValid, second,
}
use caddy_bifrost.Config.Server.{
  StaticClient, normalize_server, static_client, convert_endpoints, check_endpoints, check_source,
  static_clients, accept_clients, check_server,
}
use caddy_bifrost.Config.Server.Normal.{
  ServerNormal, normalize_server-ServerNormal, normalize_server-of_ServerNormal,
}
use caddy_bifrost.Config.Server.Valid.{ServerValid, check_server_iff}
use caddy_bifrost.Config.Client.{normalize_connect_address}
use caddy_bifrost.Config.Client.Address.{
  normalize_connect_address_complete, normalize_connect_address-bare,
}

abbrev home_limits : EndpointLimits
home_limits = record {
  max_streams = pos 100;
  max_bandwidth_bps = pos 0;
  stream_idle_timeout = pos 90_000_000_000;
}

abbrev pub home_endpoint : Endpoint
home_endpoint = record {
  key = text "home";
  token = text " secret ";
  policy = text "replace_existing";
  max_parallel = pos 0;
  limits = home_limits;
}

abbrev zero_guardrails : Guardrails
zero_guardrails = record {
  max_sessions = pos 0;
  max_streams_per_session = pos 0;
  max_bandwidth_bps_per_session = pos 0;
  min_stream_idle_timeout = pos 0;
  max_stream_idle_timeout = pos 0;
  max_headers = pos 0;
  max_header_bytes = pos 0;
}

abbrev zero_runtime : Runtime
zero_runtime = record {
  handshake_timeout = pos 0;
  stream_copy_buffer_bytes = pos 0;
  tunnel_keep_alive_interval = pos 0;
  tunnel_keep_alive_timeout = pos 0;
}

abbrev pub server_with : List Endpoint → ServerConfig
server_with es = record {
  connector = record { listen = []; tls_subject = text "public.example.com"; endpoints = es };
  guardrails = zero_guardrails;
  runtime = zero_runtime;
}

-- A tunnel library that takes every list of clients.
abbrev pub accept_all : List StaticClient → Option Text
accept_all clients = none

check_one :
    check_server accept_all false (normalize_server (server_with (home_endpoint ∷ []))) ≡ ok tt
unfolding check_server normalize_server check_source check_endpoints static_clients
    convert_endpoints static_client plan_limits validate_limits validate_guardrails validate_runtime
    accept_clients trim_space trim_left trim_right is_space text_eq
check_one = refl

check_twice :
    check_server accept_all false
      (normalize_server (server_with (home_endpoint ∷ home_endpoint ∷ [])))
    ≡ err (endpoint_key_duplicate 1)
unfolding check_server normalize_server check_source check_endpoints static_clients
    convert_endpoints static_client plan_limits validate_limits validate_guardrails validate_runtime
    accept_clients trim_space trim_left trim_right is_space text_eq
check_twice = refl

check_server_iff_example :
    (check_server accept_all false (normalize_server (server_with (home_endpoint ∷ []))) ≡ ok tt)
    ↔ ServerValid accept_all false (normalize_server (server_with (home_endpoint ∷ [])))
check_server_iff_example =
    check_server_iff accept_all false (normalize_server (server_with (home_endpoint ∷ [])))

normalize_server-ServerNormal_run :
    ServerNormal (normalize_server (server_with (home_endpoint ∷ [])))
normalize_server-ServerNormal_run = normalize_server-ServerNormal (server_with (home_endpoint ∷ []))

home_server_kept :
    normalize_server (normalize_server (server_with (home_endpoint ∷ [])))
    ≡ normalize_server (server_with (home_endpoint ∷ []))
home_server_kept =
    normalize_server-of_ServerNormal (normalize_server (server_with (home_endpoint ∷ [])))
      (normalize_server-ServerNormal (server_with (home_endpoint ∷ [])))

plan_limits-of_LimitsValid_run :
    (p : PlanLimits) × (plan_limits home_limits ≡ ok p)
    × (p.max_streams ≡ pos 100)
    × (p.max_bandwidth_bps ≡ pos 0)
    × (pos (pos_part p.stream_idle_timeout_seconds * second) ≡ pos 90_000_000_000)
plan_limits-of_LimitsValid_run =
    plan_limits-of_LimitsValid home_limits
      (record { streams = omega arith; bandwidth = omega arith; idle = omega arith; whole = refl })

address_taken_apart :
    split_host_port (join_host_port (text "::1") (text "80")) ≡ some (text "::1", text "80")
address_taken_apart =
    split-join (text "::1") (text "80") (record { no_open = refl; no_close = refl })
      (record { no_colon = refl; no_open = refl; no_close = refl })

normalize_connect_address_complete_run :
    normalize_connect_address (join_host_port (text "::1") (text "80"))
    ≡ join_host_port (text "::1") (text "80")
unfolding join_host_port trim_space trim_left trim_right is_space
normalize_connect_address_complete_run =
    normalize_connect_address_complete (text "::1") (text "80")
      (record { no_open = refl; no_close = refl })
      (record { no_colon = refl; no_open = refl; no_close = refl }) refl refl

bare_address_completed :
    normalize_connect_address (text "edge") ≡ join_host_port (text "edge") default_connector_port
unfolding trim_space trim_left trim_right is_space
bare_address_completed =
    normalize_connect_address-bare (text "edge") refl refl refl
      (record { no_open = refl; no_close = refl })

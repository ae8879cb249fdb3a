-- ===== src/Tests/Making.antt =====
-- Tests of the making of server runtimes, and of the app's provision.
use caddy_bifrost.Tests.Config.{accept_all, home_endpoint, server_with}
use caddy_bifrost.Base.{◌≡◌, refl, ◌↔◌, true, false, none, some, [], ◌∷◌, ok, err}
use caddy_bifrost.Text.{text, text_eq, is_space, trim_left, trim_right, trim_space}
use caddy_bifrost.Config.{ServerConfig}
use caddy_bifrost.Config.Limits.{
  plan_limits, validate_limits, validate_guardrails, validate_runtime,
}
use caddy_bifrost.Config.Server.{
  normalize_server, validate_with_provider, static_client, convert_endpoints, check_endpoints,
  check_source, static_clients, accept_clients, check_server,
}
use caddy_bifrost.App.{
  App, Host, wanted, other_type, Provisioned, server_runtime, runtime_name, provision,
  accept_provider_type, load_accept_provider, load_latency_observer, server_options,
}
use caddy_bifrost.Runtime.Metrics.Registration.{CaddyObserver}
use caddy_bifrost.Runtime.Tls.{register_server_names, manage_names, caddy_tls_config, append_alpn}
use caddy_bifrost.Runtime.Making.{
  NewServer, new_server, new_server_with_tls_config, apply_server_options, with_observer,
  with_accept_provider, with_passive_latency_observer,
}
use caddy_bifrost.PassiveLatency.{new_latency_adapter}
use caddy_bifrost.Runtime.Making.Starting.{tunnel_config}
use caddy_bifrost.App.Handed.{TunnelValid, provision-TunnelValid}
use caddy_bifrost.App.Laws.{RunsAs, provision-RunsAs}
use caddy_bifrost.Runtime.Making.Certificate.{new_server_certificate}

abbrev pub home_observer : CaddyObserver
home_observer = record {
  active_sessions = 0;
  streams_started = 1;
  streams_ended = 2;
  streams_rejected = 3;
  stream_bytes = 4;
}

abbrev pub obliging : Host
obliging = record {
  new_static_accept_provider = accept_all;
  context = 1;
  metrics = ok home_observer;
  load_accept_provider = ok other_type;
  load_latency_observer = ok (wanted 5);
  tls = record {
    alpn = text "bifrost";
    tls_app = ok true;
    manage = λ subject. ok tt;
    provision_policies = λ policy. ok tt;
    policy_protos = λ policy. text "h2" ∷ [];
  };
}

abbrev home_app : App
home_app = record {
  server = some (server_with (home_endpoint ∷ []));
  client = none;
  accept_provider_raw = false;
  passive_latency_observer_raw = true;
}

provisioned : (r : Provisioned) × (provision obliging home_app ≡ ok r)
unfolding provision runtime_name load_accept_provider load_latency_observer server_options
    new_server new_server_with_tls_config apply_server_options with_observer with_accept_provider
    with_passive_latency_observer new_latency_adapter caddy_tls_config append_alpn check_server
    normalize_server check_source check_endpoints static_clients convert_endpoints static_client
    plan_limits validate_limits validate_guardrails validate_runtime accept_clients
    validate_with_provider trim_space trim_left trim_right is_space text_eq
provisioned = (_, refl)

provision-RunsAs_example : RunsAs obliging home_app provisioned.0
provision-RunsAs_example = provision-RunsAs obliging home_app provisioned.0 provisioned.1

mistyped_provider :
    provision obliging (record home_app { accept_provider_raw = true }) ≡ err accept_provider_type
unfolding provision runtime_name load_accept_provider
mistyped_provider = refl

abbrev pub spaced_server : ServerConfig
spaced_server =
    let s = server_with (home_endpoint ∷ []) in
    record s { connector = record s.connector { tls_subject = text " edge.test " } }

pub spaced_made :
    (s : NewServer) × (new_server accept_all obliging.tls
        (some spaced_server)
        (some (with_observer (some home_observer)) ∷ [])
      ≡ ok s)
unfolding new_server new_server_with_tls_config apply_server_options with_observer caddy_tls_config
    append_alpn check_server normalize_server check_source check_endpoints static_clients
    convert_endpoints static_client plan_limits validate_limits validate_guardrails validate_runtime
    accept_clients validate_with_provider trim_space trim_left trim_right is_space text_eq
spaced_made = (_, refl)

new_server_certificate_example :
    let subject = spaced_server.connector.tls_subject in
    ((caddy_tls_config obliging.tls subject).0
      ≡ register_server_names (subject ∷ []) (obliging.tls.alpn ∷ [])
        ∷ manage_names (subject ∷ [])
        ∷ [])
    × (spaced_made.0.tls_config.policy.default_sni ≡ subject)
    × ((spaced_made.0.cfg.connector.tls_subject ≡ subject) ↔ (trim_space subject ≡ subject))
new_server_certificate_example =
    new_server_certificate accept_all obliging.tls spaced_server
      (some (with_observer (some home_observer)) ∷ []) spaced_made.0 spaced_made.1

append_once :
    append_alpn (append_alpn (text "h2" ∷ []) (text "bifrost")) (text "bifrost")
    ≡ text "h2" ∷ text "bifrost" ∷ []
unfolding append_alpn text_eq
append_once = refl

home_server_runtime : (s : NewServer) × (provision obliging home_app ≡ ok (server_runtime s))
unfolding provision runtime_name load_accept_provider load_latency_observer server_options
    new_server new_server_with_tls_config apply_server_options with_observer with_accept_provider
    with_passive_latency_observer new_latency_adapter caddy_tls_config append_alpn check_server
    normalize_server check_source check_endpoints static_clients convert_endpoints static_client
    plan_limits validate_limits validate_guardrails validate_runtime accept_clients
    validate_with_provider trim_space trim_left trim_right is_space text_eq
home_server_runtime = (_, refl)

provision-TunnelValid_example : TunnelValid obliging.tls.alpn (tunnel_config home_server_runtime.0)
provision-TunnelValid_example =
    provision-TunnelValid obliging home_app home_server_runtime.0 home_server_runtime.1

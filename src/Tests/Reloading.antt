-- ===== src/Tests/Reloading.antt =====
-- Tests of the life of the app.
use caddy_bifrost.Base.{ℕ, ◌≡◌, refl, true, false, Option, none, some, [], Result, ok, err}
use caddy_bifrost.Text.{
  Text, text, text_eq, is_space, trim_left, trim_right, trim_space, strip_prefix, contains,
  cut_last,
}
use caddy_bifrost.GoMap.{lookup, insert, delete}
use caddy_bifrost.HostPort.{split_host_port}
use caddy_bifrost.Config.{ClientConfig}
use caddy_bifrost.Config.Client.{normalize_client, normalize_connect_address, check_client}
use caddy_bifrost.Runtime.Client.{new_client, start_client}
use caddy_bifrost.Leases.Keys.{identity_of, identity_eq, Identity-eq}
use caddy_bifrost.Leases.{new_lease, start_lease, acquire}
use caddy_bifrost.Runtime.Making.{NewServer}
use caddy_bifrost.App.{App, not_provisioned, Host, other_type, Provisioned, runtime_name, provision}
use caddy_bifrost.App.Life.{Process, start_app, stop_app}
use caddy_bifrost.App.Life.Reload.{reload_app, reload_app_keeps}

abbrev cafe_config : ClientConfig
cafe_config = record {
  connect = text "edge:8443";
  token = text "secret";
  forward = text "localhost:80";
  tls_ca_file = [];
  tls_server_name = [];
  tls_insecure_skip_verify = true;
}

abbrev spaced_config : ClientConfig
spaced_config = record cafe_config { token = text " secret " }

abbrev client_app : ClientConfig → App
client_app cfg = record {
  server = none;
  client = some cfg;
  accept_provider_raw = false;
  passive_latency_observer_raw = false;
}

abbrev quiet_host : Host
quiet_host = record {
  new_static_accept_provider = λ clients. none;
  context = 1;
  metrics = ok (record {
    active_sessions = 0;
    streams_started = 1;
    streams_ended = 2;
    streams_rejected = 3;
    stream_bytes = 4;
  });
  load_accept_provider = ok other_type;
  load_latency_observer = ok other_type;
  tls = record {
    alpn = text "bifrost";
    tls_app = ok false;
    manage = λ subject. ok tt;
    provision_policies = λ policy. ok tt;
    policy_protos = λ policy. [];
  };
}

-- A count of the calls on the server.
abbrev counted : NewServer → ℕ → ℕ × Result Text (Unit {0})
counted s n = (n, ok tt)

abbrev nothing_runs : Process ℕ
nothing_runs = record {
  leases = record { entries = []; clients = []; next_client = 0 };
  servers = 0;
}

provisioned_app : (r : Provisioned) × (provision quiet_host (client_app cafe_config) ≡ ok r)
unfolding provision runtime_name new_lease normalize_client normalize_connect_address check_client
    trim_space trim_left trim_right is_space contains strip_prefix split_host_port cut_last text_eq
provisioned_app = (_, refl)

spaced_app : (r : Provisioned) × (provision quiet_host (client_app spaced_config) ≡ ok r)
unfolding provision runtime_name new_lease normalize_client normalize_connect_address check_client
    trim_space trim_left trim_right is_space contains strip_prefix split_host_port cut_last text_eq
spaced_app = (_, refl)

same_normal : normalize_client spaced_config ≡ normalize_client cafe_config
unfolding normalize_client trim_space trim_left trim_right is_space
same_normal = refl

app_started :
    (p : Process ℕ) × (r : Option Provisioned) × (start_app counted
        (some provisioned_app.0)
        nothing_runs
      ≡ (p, r, ok tt))
unfolding start_app start_lease new_client start_client normalize_client normalize_connect_address
    check_client trim_space trim_left trim_right is_space contains strip_prefix split_host_port
    cut_last text_eq acquire lookup insert delete identity_eq provisioned_app
app_started = (_, _, refl)

reload_app_keeps_example :
    let q = reload_app counted counted app_started.1 spaced_app.0 app_started.0 in
    (q.0.leases.clients ≡ app_started.0.leases.clients)
    × (lookup (identity_of cafe_config) q.0.leases.entries
        ≡ lookup (identity_of cafe_config) app_started.0.leases.entries)
    × (q.0.servers ≡ app_started.0.servers)
    × (q.1 ≡ ok tt)
    × (q.2 ≡ ok tt)
reload_app_keeps_example =
    reload_app_keeps counted counted quiet_host quiet_host (client_app cafe_config)
      (client_app spaced_config) provisioned_app.0 spaced_app.0 cafe_config spaced_config
      nothing_runs app_started.0 app_started.1 (identity_of cafe_config) refl refl same_normal
      provisioned_app.1 spaced_app.1 app_started.2

not_provisioned_app : (start_app counted none nothing_runs).2 ≡ err not_provisioned
unfolding start_app
not_provisioned_app = refl

stopped_before_provision : (stop_app counted none nothing_runs).2 ≡ ok tt
unfolding stop_app
stopped_before_provision = refl

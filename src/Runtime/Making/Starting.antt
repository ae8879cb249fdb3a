-- ===== src/Runtime/Making/Starting.antt =====
-- internal/runtime/server.go: the first part of `Server.Start`, which opens the connector's listener
-- and makes the tunnel library's server, with the values that it hands over. Caddy's listening and
-- `bifrost.NewServer` are parameters. A listener is a number.
pub mod Laws
use caddy_bifrost.Base.{ℕ, Option, List, [], Result, ok, err}
use caddy_bifrost.Text.{Text}
use caddy_bifrost.Config.Tunnel.{
  TunnelGuardrails, TunnelRuntime, bifrost_guardrails, bifrost_runtime,
}
use caddy_bifrost.PassiveLatency.{LatencyAdapter}
use caddy_bifrost.NetUtil.Listening.{ListenError, Opened, listen_caddy}
use caddy_bifrost.Runtime.Metrics.Registration.{CaddyObserver}
use caddy_bifrost.Runtime.Tls.{TlsConfig}
use caddy_bifrost.Runtime.Making.{AcceptProvider, NewServer}
use caddy_bifrost.Runtime.Server.{Server, begin_start}

-- `bifrost.ServerConfig` and `bifrost.ServerOptions`, without the logger and the callback `Ready`.
pub record TunnelConfig : Type 0 where
  pub listen : Text
  pub tls_config : TlsConfig
  pub guardrails : TunnelGuardrails
  pub runtime : TunnelRuntime

pub record TunnelOptions : Type 0 where
  pub accept_provider : AcceptProvider
  pub observer : Option CaddyObserver
  pub passive_latency_observer : Option LatencyAdapter
  pub listener : ℕ

unfoldable pub tunnel_config : NewServer → TunnelConfig
tunnel_config s = record {
  listen = s.cfg.connector.listen;
  tls_config = s.tls_config;
  guardrails = bifrost_guardrails s.cfg.guardrails;
  runtime = bifrost_runtime s.cfg.runtime;
}

unfoldable pub tunnel_options : NewServer → ℕ → TunnelOptions
tunnel_options s listener = record {
  accept_provider = s.accept_provider;
  observer = s.observer;
  passive_latency_observer = s.latency;
  listener = listener;
}

module _ {A : Type 0} (parse : Text → Result Text A) (port_range_size : A → ℕ)
    (listen : A → Result Text Opened) (message : ListenError → Text)
    (new_tunnel : TunnelConfig → TunnelOptions → Result Text (Unit {0})) where
  -- `bifrost.NewServer` on the listener; on an error the listener is closed.
  made_on : List ℕ → Result Text (Unit {0}) → Server → List ℕ × Server
  made_on opened (ok made) life = (opened, begin_start (ok tt) (ok made) life)
  made_on opened (err e) life = ([], begin_start (ok tt) (err e) life)

  listened_on : NewServer → List ℕ × Result ListenError ℕ → Server → List ℕ × Server
  unfolding made_on
  listened_on s (opened, err e) life = (opened, begin_start (err (message e)) (ok tt) life)
  listened_on s (opened, ok l) life =
      made_on opened (new_tunnel (tunnel_config s) (tunnel_options s l)) life

  -- `Server.Start` up to its `select`: the listeners that it leaves open, and the runtime's life.
  unfoldable pub start_server : NewServer → Server → List ℕ × Server
  unfolding listened_on
  start_server s life =
      listened_on s (listen_caddy parse port_range_size listen s.cfg.connector.listen) life

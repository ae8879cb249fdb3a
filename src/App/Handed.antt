-- ===== src/App/Handed.antt =====
-- What the server runtime of a provisioned app hands over to the tunnel library.
use caddy_bifrost.Base.{
  ◌≡◌, sym, ap, subst, ◌⊎◌, is_some, is_empty, false, true, pos_part, ◌≤ℤ◌, ok,
}
use caddy_bifrost.Text.{Text, trim_space}
use caddy_bifrost.Config.Limits.{NonNeg, GuardrailsValid, RuntimeValid}
use caddy_bifrost.Config.Tunnel.{bifrost_guardrails, bifrost_runtime}
use caddy_bifrost.Config.Server.{normalize_server}
use caddy_bifrost.Config.Server.Valid.{ServerValid}
use caddy_bifrost.Runtime.Tls.{offers}
use caddy_bifrost.Runtime.Making.{NewServer}
use caddy_bifrost.Runtime.Making.Starting.{TunnelConfig, tunnel_config}
use caddy_bifrost.App.{App, Host, server_runtime, provision}
use caddy_bifrost.App.Laws.{provision-RunsAs}

-- Values that the tunnel library can work with: an address, TLS with the tunnel's protocol, and
-- no negative limit, time or size, with the idle timeouts in order where both are set.
pub record TunnelValid (alpn : Text) (c : TunnelConfig) : Type 0 where
  pub address : is_empty (trim_space c.listen) ≡ false
  pub offered : offers c.tls_config.next_protos alpn ≡ true
  pub sessions : NonNeg c.guardrails.max_sessions
  pub streams : NonNeg c.guardrails.max_streams_per_session
  pub bandwidth : NonNeg c.guardrails.max_bandwidth_bps_per_session
  pub least_idle : NonNeg c.guardrails.min_stream_idle_timeout
  pub most_idle : NonNeg c.guardrails.max_stream_idle_timeout
  pub ordered :
      (pos_part c.guardrails.min_stream_idle_timeout ≡ 0)
      ⊎ (pos_part c.guardrails.max_stream_idle_timeout ≡ 0)
      ⊎ (c.guardrails.min_stream_idle_timeout ≤ℤ c.guardrails.max_stream_idle_timeout)
  pub headers : NonNeg c.guardrails.max_headers
  pub header_bytes : NonNeg c.guardrails.max_header_bytes
  pub handshake : NonNeg c.runtime.handshake_timeout
  pub buffer : NonNeg c.runtime.stream_copy_buffer_bytes
  pub keep_alive_interval : NonNeg c.runtime.tunnel_keep_alive_interval
  pub keep_alive_timeout : NonNeg c.runtime.tunnel_keep_alive_timeout

made-TunnelValid :
    (alpn : Text) (s : NewServer)
    → is_empty (trim_space s.cfg.connector.listen) ≡ false
    → offers s.tls_config.next_protos alpn ≡ true
    → GuardrailsValid s.cfg.guardrails
    → RuntimeValid s.cfg.runtime
    → TunnelValid alpn (tunnel_config s)
unfolding tunnel_config bifrost_guardrails bifrost_runtime
made-TunnelValid alpn s listen offered g r = record {
  address = listen;
  offered = offered;
  sessions = g.sessions;
  streams = g.streams;
  bandwidth = g.bandwidth;
  least_idle = g.least_idle;
  most_idle = g.most_idle;
  ordered = g.ordered;
  headers = g.headers;
  header_bytes = g.header_bytes;
  handshake = r.handshake;
  buffer = r.buffer;
  keep_alive_interval = r.interval;
  keep_alive_timeout = r.timeout;
}

-- The server runtime of an app that has been provisioned asks the tunnel library for a server with
-- values that it can work with: an address that is not blank, a TLS configuration that offers the
-- tunnel's protocol, no negative limit, time or size, and idle timeouts in order.
pub provision-TunnelValid :
    (host : Host) (a : App) (s : NewServer)
    → provision host a ≡ ok (server_runtime s)
    → TunnelValid host.tls.alpn (tunnel_config s)
provision-TunnelValid host a s made =
    let runs = provision-RunsAs host a (server_runtime s) made in
    let from = runs.from in
    let same : s.cfg ≡ normalize_server runs.cfg = ap (λ (t : NewServer). t.cfg) from.made in
    let v =
      subst (λ c. ServerValid host.new_static_accept_provider (is_some runs.provider) c) (sym same)
        from.valid in
    made-TunnelValid host.tls.alpn s v.listen from.secured.offered v.guardrails v.runtime

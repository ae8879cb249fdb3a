-- ===== src/TransportModule/Laws.antt =====
-- What a provisioned transport module does with a request.
use caddy_bifrost.Base.{
  ◌≡◌, refl, false, Option, none, some, is_empty, if◌then◌else◌, Result, ok, ◌>>=◌, ℤ, is_pos,
}
use caddy_bifrost.Text.{Text, text}
use caddy_bifrost.Text.Trim.{IsTrimmed}
use caddy_bifrost.HostPort.{join_host_port}
use caddy_bifrost.HostPort.Laws.{IsHost, IsPort}
use caddy_bifrost.Config.{TransportConfig}
use caddy_bifrost.Config.Client.{normalize_transport, validate_transport}
use caddy_bifrost.Runtime.Transport.{
  TransportError, Url, open_stream, dial_context, dial_timeout, round_trip, scheme_or_http,
}
use caddy_bifrost.Runtime.Transport.Endpoint.{endpoint-join}
use caddy_bifrost.TransportModule.{
  FoundApp, with_server, Transport, Tunnel, connect_app, connected, typed_server, new_transport,
  provision_valid, provision_transport, trip, module_round_trip,
}

-- The host of an upstream and the port that Go's HTTP transport dials for it.
pub record IsUpstream (host port : Text) : Type 0 where
  pub is_host : IsHost host
  pub is_port : IsPort port
  pub set : is_empty host ≡ false
  pub trimmed : IsTrimmed host
  pub whole : IsTrimmed (join_host_port host port)

-- The module behind a provisioning that found a server.
made : {Server : Type 0} → TransportConfig → Server → Transport Server
made cfg server = record {
  cfg = normalize_transport cfg;
  transport =
      some (record { cfg = normalize_transport (normalize_transport cfg); server = server });
}

provision_transport-made :
    {Server : Type 0} (apps : Text → Result Text (FoundApp Server)) (cfg : TransportConfig)
    (server : Server)
    → apps (normalize_transport cfg).app ≡ ok (with_server server)
    → provision_transport apps cfg ≡ (made cfg server, ok tt)
unfolding provision_transport provision_valid validate_transport connect_app connected typed_server
    new_transport made
provision_transport-made apps cfg server found = rw found refl

-- The URL of a request behind `Transport.RoundTrip`.
abbrev pub request : Text → Text → Url
request scheme host = record {
  scheme = if is_empty scheme then text "http" else scheme;
  host = host;
}

dial-endpoint :
    {Stream : Type 0} (tunnel : Option ℤ → Text → Result TransportError Stream)
    (cfg : TransportConfig) (host port : Text)
    → IsUpstream host port
    → dial_context
        (some (some tunnel))
        (normalize_transport (normalize_transport cfg))
        (join_host_port host port)
      ≡ tunnel (if is_pos cfg.dial_timeout then some cfg.dial_timeout else none) host
unfolding dial_context dial_timeout open_stream normalize_transport
dial-endpoint tunnel cfg host port u =
    rw (endpoint-join host port u.is_host u.is_port u.set u.trimmed u.whole) refl

module _ {Stream Response : Type 0}
    (http : (Text → Result TransportError Stream) → Url → Result TransportError Response)
    (respond : Stream → Url → Result TransportError Response) where
  -- Where the app that is configured has a running server, provisioning succeeds, and a request to
  -- an upstream host without brackets and outer spaces, for which Go's HTTP transport dials the host
  -- with a port, is sent on a stream to the endpoint of that name, opened within the time that is
  -- configured, if any.
  pub module_round_trip-open_stream :
      (apps : Text → Result Text (FoundApp (Tunnel Stream))) (cfg : TransportConfig)
      (tunnel : Option ℤ → Text → Result TransportError Stream) (scheme host port : Text)
      → apps (normalize_transport cfg).app ≡ ok (with_server (some tunnel))
      → IsUpstream host port
      → ((dial : Text → Result TransportError Stream)
          → http dial (request scheme host)
            ≡ (dial (join_host_port host port) >>= λ c. respond c (request scheme host)))
      → let p = provision_transport apps cfg in
        (p.1 ≡ ok tt)
        × (module_round_trip http p.0 (record { scheme = scheme; host = host }) ≡ (
            tunnel (if is_pos cfg.dial_timeout then some cfg.dial_timeout else none) host >>= λ c.
            respond c (request scheme host)))
  unfolding module_round_trip trip round_trip scheme_or_http made
  module_round_trip-open_stream apps cfg tunnel scheme host port found u dials =
      rw
        (
          provision_transport-made apps cfg (some tunnel) found,
          u.trimmed,
          u.set,
          dials,
          dial-endpoint tunnel cfg host port u,
        )
        (refl, refl)

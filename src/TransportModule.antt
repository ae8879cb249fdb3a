-- ===== src/TransportModule.antt =====
-- transport.go: the module of Caddy's reverse proxy, and `NewTransport` of
-- internal/runtime/transport.go. Caddy's answer for an app and Go's HTTP transport are parameters;
-- that one opens its connections by the dial function that it is given.
pub mod Laws
use caddy_bifrost.Base.{Option, none, some, Result, ok, err, ◌>>=◌, ◌>>◌, map_err, ℤ}
use caddy_bifrost.Text.{Text}
use caddy_bifrost.Config.{TransportConfig, ConfigError}
use caddy_bifrost.Config.Client.{normalize_transport, validate_transport}
use caddy_bifrost.Runtime.Transport.{TransportError, not_provisioned, Url, dial_context, round_trip}

pub data ModuleError : Type 0 where
  config_invalid : ConfigError → ModuleError
  -- An error of Caddy, and the app that it is about.
  getting_app : Text → ModuleError
  app_type : ModuleError
  -- The app's name, as the message quotes it.
  server_required : Text → ModuleError

-- An app of the running configuration: a Bifrost app with a server runtime or without one, or
-- another app.
pub data FoundApp (Server : Type 0) : Type 0 where
  other_app without_server : FoundApp Server
  with_server : Server → FoundApp Server

-- `runtime.Transport`, but for its `http.Transport`.
pub record RuntimeTransport (Server : Type 0) : Type 0 where
  pub cfg : TransportConfig
  pub server : Server

-- `Transport`; `cfg` stands for its fields `App` and `DialTimeout`.
pub record Transport (Server : Type 0) : Type 0 where
  pub cfg : TransportConfig
  pub transport : Option (RuntimeTransport Server)

module _ {Server : Type 0} where
  -- `NewTransport`. Validating normalises its copy of the configuration.
  unfoldable pub new_transport :
      TransportConfig → Server → Result ConfigError (RuntimeTransport Server)
  new_transport cfg server = do
    (validate_transport (some cfg)).1
    ok (record { cfg = normalize_transport cfg; server = server })

  typed_server : Text → FoundApp Server → Result ModuleError Server
  typed_server name other_app = err app_type
  typed_server name without_server = err (server_required name)
  typed_server name (with_server server) = ok server

  -- `Transport.Provision` behind its validation: the name that it looks up, and what it keeps.
  connect_app :
      (Text → Result Text (FoundApp Server))
      → TransportConfig
      → Result ModuleError (RuntimeTransport Server)
  unfolding typed_server
  connect_app apps cfg = do
    app ← map_err getting_app (apps cfg.app)
    server ← typed_server cfg.app app
    map_err config_invalid (new_transport cfg server)

  connected :
      TransportConfig
      → Result ModuleError (RuntimeTransport Server)
      → Transport Server × Result ModuleError (Unit {0})
  connected cfg (ok t) = (record { cfg = cfg; transport = some t }, ok tt)
  connected cfg (err e) = (record { cfg = cfg; transport = none }, err e)

  provision_valid :
      (Text → Result Text (FoundApp Server))
      → TransportConfig
      → Result ConfigError (Unit {0})
      → Transport Server × Result ModuleError (Unit {0})
  unfolding connect_app connected
  provision_valid apps cfg (err e) =
      (record { cfg = cfg; transport = none }, err (config_invalid e))
  provision_valid apps cfg (ok valid) =
      connected (normalize_transport cfg) (connect_app apps (normalize_transport cfg))

  -- `Transport.Provision` of a new module with this configuration: the module, which keeps the
  -- normalised configuration behind its validation, and the error.
  unfoldable pub provision_transport :
      (Text → Result Text (FoundApp Server))
      → TransportConfig
      → Transport Server × Result ModuleError (Unit {0})
  unfolding provision_valid
  provision_transport apps cfg = provision_valid apps cfg (validate_transport (some cfg)).1

-- A running tunnel server, given the timeout of a dial and the endpoint; `none` is a server runtime
-- that is not running.
abbrev pub Tunnel {ℓ} : Type ℓ → Type ℓ
Tunnel Stream = Option (Option ℤ → Text → Result TransportError Stream)

module _ {Stream Response : Type 0}
    (http : (Text → Result TransportError Stream) → Url → Result TransportError Response) where
  trip : Option (RuntimeTransport (Tunnel Stream)) → Url → Result TransportError Response
  trip none url = err not_provisioned
  trip (some t) url = round_trip (some (http (dial_context (some t.server) t.cfg))) url

  -- `Transport.RoundTrip`.
  unfoldable pub module_round_trip :
      Transport (Tunnel Stream) → Url → Result TransportError Response
  unfolding trip
  module_round_trip t url = trip t.transport url

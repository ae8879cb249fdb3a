-- ===== src/Runtime/Making.antt =====
-- internal/runtime/server.go: `NewServer` and `NewServerWithTLSConfig`, and the options that they
-- take. A loaded module is a number, as a pointer to it; what the tunnel library's
-- `NewStaticAcceptProvider` thinks of a list of clients is a parameter, and so is Caddy.
pub mod Laws
pub mod Certificate
pub mod Starting
use caddy_bifrost.Base.{
  Option, none, some, List, [], ◌∷◌, is_some, ℕ, Result, ok, err, ◌>>=◌, ◌>>◌, map_err,
}
use caddy_bifrost.Text.{Text}
use caddy_bifrost.Config.{ServerConfig, ConfigError, server_required}
use caddy_bifrost.Config.Server.{
  StaticClient, normalize_server, validate_with_provider, static_clients,
}
use caddy_bifrost.PassiveLatency.{LatencyAdapter}
use caddy_bifrost.Runtime.Metrics.Registration.{CaddyObserver}
use caddy_bifrost.Runtime.Tls.{TlsError, TlsConfig, TlsHost, caddy_tls_config}

-- `ServerOptions`.
pub record ServerOptions : Type 0 where
  pub accept_provider : Option ℕ
  pub observer : Option CaddyObserver
  pub passive_latency_observer : Option LatencyAdapter

abbrev pub ServerOption : Type 0
ServerOption = ServerOptions → ServerOptions

-- The options; `none` is a nil interface.
unfoldable pub with_accept_provider : Option ℕ → ServerOption
with_accept_provider provider opts = record opts { accept_provider = provider }

unfoldable pub with_observer : Option CaddyObserver → ServerOption
with_observer observer opts = record opts { observer = observer }

unfoldable pub with_passive_latency_observer : Option LatencyAdapter → ServerOption
with_passive_latency_observer observer opts = record opts { passive_latency_observer = observer }

abbrev pub no_options : ServerOptions
no_options = record { accept_provider = none; observer = none; passive_latency_observer = none }

-- The loop of `applyServerOptions`; `none` is a nil option.
apply_to : ServerOptions → List (Option ServerOption) → ServerOptions
apply_to opts [] = opts
apply_to opts (none ∷ options) = apply_to opts options
apply_to opts (some option ∷ options) = apply_to (option opts) options

unfoldable pub apply_server_options : List (Option ServerOption) → ServerOptions
unfolding apply_to
apply_server_options options = apply_to no_options options

-- `Server.accept`: a module's provider, or that of `bifrost.NewStaticAcceptProvider`.
pub data AcceptProvider : Type 0 where
  custom_provider : ℕ → AcceptProvider
  static_provider : List StaticClient → AcceptProvider

pub data ServerError : Type 0 where
  server_config_required tls_config_required : ServerError
  tls_failed : TlsError → ServerError
  server_invalid : ConfigError → ServerError
  static_provider_failed : Text → ServerError

-- `Server`, as far as `NewServerWithTLSConfig` fills it in.
pub record NewServer : Type 0 where
  pub cfg : ServerConfig
  pub tls_config : TlsConfig
  pub accept_provider : AcceptProvider
  pub observer : Option CaddyObserver
  pub latency : Option LatencyAdapter

module _ (new_static_accept_provider : List StaticClient → Option Text) where
  new_static : List StaticClient → Option Text → Result ServerError AcceptProvider
  new_static clients none = ok (static_provider clients)
  new_static clients (some e) = err (static_provider_failed e)

  -- The provider of the options, or one of the static clients.
  accept_of : Option ℕ → ServerConfig → Result ServerError AcceptProvider
  unfolding new_static
  accept_of (some provider) cfg = ok (custom_provider provider)
  accept_of none cfg = do
    clients ← map_err server_invalid (static_clients new_static_accept_provider cfg)
    new_static clients (new_static_accept_provider clients)

  -- Behind the test of the TLS configuration. Validating refuses a nil configuration, and normalises
  -- another in place.
  server_of : Option ServerConfig → TlsConfig → ServerOptions → Result ServerError NewServer
  unfolding accept_of
  server_of none tls opts = err (server_invalid server_required)
  server_of (some cfg) tls opts =
      let n = normalize_server cfg in
      do
        map_err server_invalid
            (validate_with_provider new_static_accept_provider (is_some opts.accept_provider)
              (some cfg)).1
        accept ← accept_of opts.accept_provider n
        ok (record {
          cfg = n;
          tls_config = tls;
          accept_provider = accept;
          observer = opts.observer;
          latency = opts.passive_latency_observer;
        })

  -- `NewServerWithTLSConfig`; `none` is a nil configuration.
  unfoldable pub new_server_with_tls_config :
      Option ServerConfig
      → Option TlsConfig
      → List (Option ServerOption)
      → Result ServerError NewServer
  unfolding server_of
  new_server_with_tls_config cfg none options = err tls_config_required
  new_server_with_tls_config cfg (some tls) options =
      server_of cfg tls (apply_server_options options)

  -- `NewServer`.
  unfoldable pub new_server :
      TlsHost → Option ServerConfig → List (Option ServerOption) → Result ServerError NewServer
  new_server host none options = err server_config_required
  new_server host (some cfg) options = do
    tls ← map_err tls_failed (caddy_tls_config host cfg.connector.tls_subject).1
    new_server_with_tls_config (some cfg) (some tls) options

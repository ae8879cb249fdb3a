-- ===== src/App.antt =====
-- app.go: the app module, which runs one server or one client runtime. What Caddy's context gives
-- and loads is a parameter.
pub mod Laws
pub mod Life
pub mod Handed
use caddy_bifrost.Base.{
  ℕ, Bool, true, false, not, ◌&&◌, Option, none, some, List, [], ◌∷◌, ◌++◌, if◌then◌else◌, is_some,
  Result, ok, err, ◌>>=◌, ◌>>◌, fail_if, map_err,
}
use caddy_bifrost.Text.{Text}
use caddy_bifrost.Config.{ServerConfig, ClientConfig}
use caddy_bifrost.Config.Server.{StaticClient}
use caddy_bifrost.PassiveLatency.{new_latency_adapter}
use caddy_bifrost.Runtime.Client.{ClientError}
use caddy_bifrost.Runtime.Metrics.Registration.{MetricsError, CaddyObserver}
use caddy_bifrost.Runtime.Tls.{TlsHost}
use caddy_bifrost.Runtime.Making.{
  ServerOption, with_accept_provider, with_observer, with_passive_latency_observer, ServerError,
  NewServer, new_server,
}
use caddy_bifrost.Leases.{Lease, new_lease}

-- `App`: the two runtimes, and whether the two raw modules are configured.
pub record App : Type 0 where
  pub server : Option ServerConfig
  pub client : Option ClientConfig
  pub accept_provider_raw : Bool
  pub passive_latency_observer_raw : Bool

pub data AppError : Type 0 where
  exactly_one_runtime : AppError
  accept_provider_needs_server latency_observer_needs_server : AppError
  accept_provider_type latency_observer_type not_provisioned : AppError
  loading_accept_provider loading_latency_observer : Text → AppError
  metrics_failed : MetricsError → AppError
  server_failed : ServerError → AppError
  client_invalid : ClientError → AppError
  -- What the runtime of a server returns on a start or a stop.
  server_call_failed : Text → AppError

pub data RuntimeName : Type 0 where
  server_name client_name : RuntimeName

runtime_of : Bool → Bool → Result AppError RuntimeName
runtime_of true true = err exactly_one_runtime
runtime_of true false = ok server_name
runtime_of false true = ok client_name
runtime_of false false = err exactly_one_runtime

-- `App.runtimeName`.
unfoldable pub runtime_name : App → Result AppError RuntimeName
unfolding runtime_of
runtime_name a = runtime_of (is_some a.server) (is_some a.client)

-- A module that Caddy has loaded: a number, as a pointer to it, if it is of the wanted type.
pub data Loaded : Type 0 where
  wanted : ℕ → Loaded
  other_type : Loaded

-- What Caddy and the loaded modules answer.
pub record Host : Type 0 where
  -- `bifrost.NewStaticAcceptProvider`: its error, if it returns one.
  pub new_static_accept_provider : List StaticClient → Option Text
  -- `ctx.Context`.
  pub context : ℕ
  -- What `NewCaddyObserver` returns for the registry of this context.
  pub metrics : Result MetricsError CaddyObserver
  -- `ctx.LoadModule` of the two raw modules.
  pub load_accept_provider : Result Text Loaded
  pub load_latency_observer : Result Text Loaded
  pub tls : TlsHost

-- The body of the two loaders, given their two errors.
load_typed : (Text → AppError) → AppError → Bool → Result Text Loaded → Result AppError (Option ℕ)
load_typed failed mistyped false loaded = ok none
load_typed failed mistyped true (err e) = err (failed e)
load_typed failed mistyped true (ok (wanted m)) = ok (some m)
load_typed failed mistyped true (ok other_type) = err mistyped

-- `App.loadAcceptProvider`.
unfoldable pub load_accept_provider : Host → App → Result AppError (Option ℕ)
unfolding load_typed
load_accept_provider host a =
    load_typed loading_accept_provider accept_provider_type a.accept_provider_raw
      host.load_accept_provider

-- `App.loadPassiveLatencyObserver`.
unfoldable pub load_latency_observer : Host → App → Result AppError (Option ℕ)
unfolding load_typed
load_latency_observer host a =
    load_typed loading_latency_observer latency_observer_type a.passive_latency_observer_raw
      host.load_latency_observer

provider_option : Option ℕ → List (Option ServerOption)
provider_option none = []
provider_option (some provider) = some (with_accept_provider (some provider)) ∷ []

latency_option : ℕ → Option ℕ → List (Option ServerOption)
latency_option ctx none = []
latency_option ctx (some observer) =
    some (with_passive_latency_observer (new_latency_adapter (some ctx) (some observer))) ∷ []

-- The options that `App.Provision` gives to `NewServer`.
unfoldable pub server_options : ℕ → Option ℕ → Option ℕ → CaddyObserver → List (Option ServerOption)
unfolding provider_option latency_option
server_options ctx provider latency observer =
    provider_option provider
    ++ (latency_option ctx latency ++ (some (with_observer (some observer)) ∷ []))

-- `App.runtime`, once it is set.
pub data Provisioned : Type 0 where
  server_runtime : NewServer → Provisioned
  client_runtime : Lease → Provisioned

provision_server : Host → App → CaddyObserver → Result AppError Provisioned
provision_server host a observer = do
  provider ← load_accept_provider host a
  latency ← load_latency_observer host a
  server ← map_err server_failed (
      new_server host.new_static_accept_provider host.tls a.server
        (server_options host.context provider latency observer))
  ok (server_runtime server)

provision_client : App → Result AppError Provisioned
provision_client a = do
  lease ← map_err client_invalid (new_lease a.client)
  ok (client_runtime lease)

is_server : RuntimeName → Bool
is_server server_name = true
is_server client_name = false

provision_runtime : Host → App → CaddyObserver → RuntimeName → Result AppError Provisioned
unfolding provision_server provision_client
provision_runtime host a observer server_name = provision_server host a observer
provision_runtime host a observer client_name = provision_client a

-- `App.Provision`.
unfoldable pub provision : Host → App → Result AppError Provisioned
unfolding is_server provision_runtime
provision host a = do
  name ← runtime_name a
  fail_if (not (is_server name) && a.accept_provider_raw) accept_provider_needs_server
  fail_if (not (is_server name) && a.passive_latency_observer_raw) latency_observer_needs_server
  observer ← map_err metrics_failed host.metrics
  provision_runtime host a observer name

-- ===== src/Listener/Provision.antt =====
-- listener.go: `ListenerWrapper.Provision`. What Caddy's context loads is a parameter. The apps are
-- shared: a wrapper holds a pointer to its app, the name under which Caddy finds it, and what it
-- installs on the app's server is seen by all wrappers of that app.
pub mod Laws
use caddy_bifrost.Base.{
  Bool, true, false, not, ◌&&◌, ◌||◌, Option, none, some, List, [], ◌∷◌, if◌then◌else◌, is_empty,
  Result, ok, err, ◌>>=◌, ◌>>◌, fail_if, map_err,
}
use caddy_bifrost.Text.{Text, CaseTable, trim_space, text_eq}
use caddy_bifrost.Config.{ConfigError, default_app_name}
use caddy_bifrost.Routes.{SniRoute}
use caddy_bifrost.Runtime.Resolver.{
  Resolver, ServerState, new_static_resolver, set_passthrough_resolver,
}
use caddy_bifrost.Listener.{AppRuntime, server_runtime, ListenerWrapper, runtime_of}

-- The configuration of a wrapper: the app's name, the routes, and whether the two raw modules are
-- configured.
pub record ListenerModule : Type 0 where
  pub app : Text
  pub routes : List SniRoute
  pub passthrough_resolver_raw : Bool
  pub passthrough_observer_raw : Bool

pub data ListenerError : Type 0 where
  routes_and_resolver : ListenerError
  -- An error of Caddy or of a module, and the module or app that it is about.
  getting_app loading_resolver loading_observer : Text → ListenerError
  app_type resolver_type observer_type : ListenerError
  -- The app's name, as the message quotes it.
  server_required : Text → ListenerError
  routes_invalid : ConfigError → ListenerError

-- A resolver module, and whether it observes streams too.
pub record LoadedResolver : Type 0 where
  pub resolver : Resolver
  pub observes : Bool

-- The apps as they are at one moment: what `ctx.App` answers on a name, where an app of another type
-- is `none`. Caddy has one app for a name.
abbrev pub Apps : Type 0
Apps = Text → Result Text (Option AppRuntime)

put_app : Text → AppRuntime → Apps → Apps
put_app name app apps other = if text_eq name other then ok (some app) else apps other

pointed_to : Result Text (Option AppRuntime) → Option AppRuntime
pointed_to (err e) = none
pointed_to (ok app) = app

-- What Caddy's context loads. A module of another type is `none`, or `false`.
pub record ListenerHost : Type 0 where
  pub load_resolver : Result Text (Option LoadedResolver)
  pub load_observer : Result Text Bool

-- Where the observer of the streams comes from.
pub data ObserverSource : Type 0 where
  no_observer explicit_observer resolver_observer : ObserverSource

abbrev pub is_set : ObserverSource → Bool
is_set no_observer = false
is_set explicit_observer = true
is_set resolver_observer = true

-- A provisioned wrapper: the pointer to its app, and the source of its observer.
pub record Provisioned : Type 0 where
  pub app : Text
  pub observer : ObserverSource

-- The wrapper as a connection meets it, with its app as it is then.
unfoldable pub wrapper_on : Apps → Provisioned → ListenerWrapper
unfolding pointed_to
wrapper_on apps p = record { bifrost_app = pointed_to (apps p.app); observed = is_set p.observer }

-- A blank name is replaced; another one is kept as it is written.
app_name : Text → Text
app_name app = if is_empty (trim_space app) then default_app_name else app

typed_app : Option AppRuntime → Result ListenerError AppRuntime
typed_app none = err app_type
typed_app (some app) = ok app

typed_resolver : Option LoadedResolver → Result ListenerError LoadedResolver
typed_resolver none = err resolver_type
typed_resolver (some r) = ok r

typed_observer : Bool → Result ListenerError Bool
typed_observer false = err observer_type
typed_observer true = ok true

-- `loadPassthroughObserver`: whether there is an explicit observer.
load_observer : ListenerHost → Bool → Result ListenerError Bool
unfolding typed_observer
load_observer host false = ok false
load_observer host true = do
  mod_is ← map_err loading_observer host.load_observer
  typed_observer mod_is

-- `loadPassthroughResolver`, where the module is configured.
load_resolver : ListenerHost → Result ListenerError LoadedResolver
unfolding typed_resolver
load_resolver host = do loaded ← map_err loading_resolver host.load_resolver; typed_resolver loaded

-- `serverRuntime` with its error.
server_runtime_of : Text → Option ServerState → Result ListenerError ServerState
server_runtime_of name none = err (server_required name)
server_runtime_of name (some s) = ok s

-- `server.SetPassthroughResolver(resolver)` on the app's server.
pub install : Resolver → Text → ServerState → Apps → Apps
unfolding put_app
install r name s apps = put_app name (server_runtime (set_passthrough_resolver (some r) s)) apps

-- An explicit observer goes before the resolver's own.
choose_observer : Bool → Bool → ObserverSource
choose_observer true observes = explicit_observer
choose_observer false true = resolver_observer
choose_observer false false = no_observer

provision_resolver :
    ListenerHost → Text → AppRuntime → Bool → Apps → Result ListenerError (Apps × Provisioned)
unfolding load_resolver server_runtime_of install choose_observer runtime_of
provision_resolver host name app explicit apps = do
  loaded ← load_resolver host
  server ← server_runtime_of name (runtime_of (some app))
  ok (
    install loaded.resolver name server apps,
    record { app = name; observer = choose_observer explicit loaded.observes },
  )

provision_routes :
    CaseTable
    → Text
    → AppRuntime
    → Bool
    → List SniRoute
    → Apps
    → Result ListenerError (Apps × Provisioned)
unfolding server_runtime_of install choose_observer runtime_of
provision_routes cases name app explicit [] apps =
    ok (apps, record { app = name; observer = choose_observer explicit false })
provision_routes cases name app explicit (route ∷ routes) apps = do
  resolver ← map_err routes_invalid (new_static_resolver cases (route ∷ routes))
  server ← server_runtime_of name (runtime_of (some app))
  ok (
    install resolver name server apps,
    record { app = name; observer = choose_observer explicit false },
  )

provision_app :
    CaseTable
    → ListenerHost
    → ListenerModule
    → Text
    → AppRuntime
    → Bool
    → Apps
    → Result ListenerError (Apps × Provisioned)
unfolding provision_resolver provision_routes
provision_app cases host w name app explicit apps =
    if w.passthrough_resolver_raw
    then provision_resolver host name app explicit apps
    else provision_routes cases name app explicit w.routes apps

-- `ListenerWrapper.Provision`: the apps as it leaves them, and the wrapper. Its errors come before it
-- changes an app.
unfoldable pub provision_listener :
    CaseTable → ListenerHost → ListenerModule → Apps → Result ListenerError (Apps × Provisioned)
unfolding app_name typed_app load_observer provision_app
provision_listener cases host w apps = do
  fail_if (not (is_empty w.routes) && w.passthrough_resolver_raw) routes_and_resolver
  found ← map_err getting_app (apps (app_name w.app))
  app ← typed_app found
  explicit ← load_observer host w.passthrough_observer_raw
  provision_app cases host w (app_name w.app) app explicit apps

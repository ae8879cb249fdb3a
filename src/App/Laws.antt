-- ===== src/App/Laws.antt =====
-- What a provisioned app runs.
use caddy_bifrost.Base.{
  ◌≡◌, refl, subst, inl, inr, Bool, true, false, Option, none, some, arith, ℕ, Result, ok, err,
  bound_ok, map_err, Option-cases,
}
use caddy_bifrost.Text.{Text}
use caddy_bifrost.Config.{ServerConfig}
use caddy_bifrost.PassiveLatency.{new_latency_adapter}
use caddy_bifrost.Runtime.Metrics.Registration.{CaddyObserver}
use caddy_bifrost.Runtime.Making.{
  ServerOptions, NewServer, new_server, apply_server_options, with_accept_provider, with_observer,
  with_passive_latency_observer,
}
use caddy_bifrost.Runtime.Making.Laws.{MadeFrom, new_server-MadeFrom}
use caddy_bifrost.Leases.{new_lease}
use caddy_bifrost.App.{
  App, AppError, Loaded, wanted, other_type, Host, Provisioned, server_runtime, client_runtime,
  runtime_name, provision, load_typed, load_accept_provider, load_latency_observer, server_options,
  provider_option, latency_option, is_server, provision_server, provision_client, provision_runtime,
}

-- A module is there exactly if it is configured, and then it is the loaded one.
abbrev pub LoadedAs : Bool → Result Text Loaded → Option ℕ → Type 0
LoadedAs false loaded m = m ≡ none
LoadedAs true loaded none = ⊥
LoadedAs true loaded (some m) = loaded ≡ ok (wanted m)

-- The options of a server runtime: the modules that were loaded, and the metrics observer.
abbrev pub options_of : Host → Option ℕ → Option ℕ → CaddyObserver → ServerOptions
options_of host provider latency observer = record {
  accept_provider = provider;
  observer = some observer;
  passive_latency_observer = new_latency_adapter (some host.context) latency;
}

-- What a server runtime has to do with the app's configuration.
pub record RunsServer (host : Host) (a : App) (s : NewServer) : Type 0 where
  pub alone : a.client ≡ none
  pub cfg : ServerConfig
  pub configured : a.server ≡ some cfg
  pub provider : Option ℕ
  pub latency : Option ℕ
  pub observer : CaddyObserver
  pub provided : LoadedAs a.accept_provider_raw host.load_accept_provider provider
  pub watched : LoadedAs a.passive_latency_observer_raw host.load_latency_observer latency
  pub observed : host.metrics ≡ ok observer
  pub from :
      MadeFrom host.new_static_accept_provider host.tls cfg
        (options_of host provider latency observer)
        s

-- What the runtime of an app has to do with its configuration.
abbrev pub RunsAs : Host → App → Provisioned → Type 0
RunsAs host a (server_runtime s) = RunsServer host a s
RunsAs host a (client_runtime l) =
    (a.server ≡ none)
    × (a.accept_provider_raw ≡ false)
    × (a.passive_latency_observer_raw ≡ false)
    × (new_lease a.client ≡ ok l)

load_typed-LoadedAs :
    (failed : Text → AppError) (mistyped : AppError) (raw : Bool) (r : Result Text Loaded)
    (m : Option ℕ)
    → load_typed failed mistyped raw r ≡ ok m
    → LoadedAs raw r m
unfolding load_typed
load_typed-LoadedAs failed mistyped false r m h = cc
load_typed-LoadedAs failed mistyped true (err e) m h = cc
load_typed-LoadedAs failed mistyped true (ok other_type) m h = cc
load_typed-LoadedAs failed mistyped true (ok (wanted p)) none h = cc
load_typed-LoadedAs failed mistyped true (ok (wanted p)) (some m) h = cc

apply-server_options :
    (host : Host) (provider latency : Option ℕ) (observer : CaddyObserver)
    → apply_server_options (server_options host.context provider latency observer)
      ≡ options_of host provider latency observer
unfolding apply_server_options server_options provider_option latency_option new_latency_adapter
    with_accept_provider with_observer with_passive_latency_observer
apply-server_options host none none observer = refl
apply-server_options host none (some l) observer = refl
apply-server_options host (some p) none observer = refl
apply-server_options host (some p) (some l) observer = refl

map_err_sound {ℓ} :
    {E F : Type 0} {A : Type ℓ} (f : E → F) (m : Result E A) {x : A} → map_err f m ≡ ok x → m ≡ ok x
map_err_sound f (ok y) e = cc
map_err_sound f (err y) e = cc

provision_server-RunsAs :
    (host : Host) (a : App) (observer : CaddyObserver) (r : Provisioned)
    → a.client ≡ none
    → host.metrics ≡ ok observer
    → provision_server host a observer ≡ ok r
    → RunsAs host a r
unfolding provision_server load_accept_provider load_latency_observer
provision_server-RunsAs host a observer r alone observed h =
    let (p, loaded, rest) = bound_ok (load_accept_provider host a) _ h in
    let (l, watched, later) = bound_ok (load_latency_observer host a) _ rest in
    let (s, made, last) =
      bound_ok
        (map_err AppError.server_failed (
          new_server host.new_static_accept_provider host.tls a.server
            (server_options host.context p l observer)))
        _ later in
    let (cfg, there, from) =
      new_server-MadeFrom host.new_static_accept_provider host.tls a.server
        (server_options host.context p l observer) s
        (map_err_sound AppError.server_failed _ made) in
    let same : server_runtime s ≡ r = cc last in
    subst (RunsAs host a) same (record {
      alone = alone;
      cfg = cfg;
      configured = there;
      provider = p;
      latency = l;
      observer = observer;
      provided = load_typed-LoadedAs _ _ a.accept_provider_raw host.load_accept_provider p loaded;
      watched =
          load_typed-LoadedAs _ _ a.passive_latency_observer_raw host.load_latency_observer l
            watched;
      observed = observed;
      from =
          subst (λ opts. MadeFrom host.new_static_accept_provider host.tls cfg opts s)
            (apply-server_options host p l observer) from;
    })

provision_client-RunsAs :
    (host : Host) (a : App) (r : Provisioned)
    → a.server ≡ none
    → a.accept_provider_raw ≡ false
    → a.passive_latency_observer_raw ≡ false
    → provision_client a ≡ ok r
    → RunsAs host a r
unfolding provision_client
provision_client-RunsAs host a r alone no_provider no_observer h =
    let (l, leased, last) = bound_ok (map_err AppError.client_invalid (new_lease a.client)) _ h in
    let same : client_runtime l ≡ r = cc last in
    subst (RunsAs host a) same (
      alone,
      no_provider,
      no_observer,
      map_err_sound AppError.client_invalid (new_lease a.client) leased,
    )

-- An app is provisioned with the one runtime that its configuration has: a server that is made from
-- its server configuration, valid and in normal form, with a TLS configuration for its subject, with
-- the modules that were loaded exactly where they are configured and with the metrics observer; or a
-- client lease of its client configuration, where neither module may be configured.
pub provision-RunsAs :
    (host : Host) (a : App) (r : Provisioned) → provision host a ≡ ok r → RunsAs host a r
unfolding provision runtime_name provision_runtime is_server
provision-RunsAs host a r h = elim (Option-cases a.server) [
  | inl no_server ↦ elim (Option-cases a.client) [
    | inl no_client ↦ absurd (ground (arith, h, no_server, no_client))
    | inr (c, client) ↦
        provision_client-RunsAs host a r no_server (ground (arith, h, no_server, client))
          (ground (arith, h, no_server, client)) (ground (arith, h, no_server, client))
  ]
  | inr (s, server) ↦ elim (Option-cases a.client) [
    | inl no_client ↦
        let (observer, observed, rest) =
          bound_ok (map_err AppError.metrics_failed host.metrics)
            (λ (observer : CaddyObserver). provision_server host a observer)
            (ground (arith, h, no_client, server)) in
        provision_server-RunsAs host a observer r no_client
          (map_err_sound AppError.metrics_failed host.metrics observed) rest
    | inr (c, client) ↦ absurd (ground (arith, h, server, client))
  ]
]

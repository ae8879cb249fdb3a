-- ===== src/Listener/Provision/Laws.antt =====
-- What a provisioned listener wrapper does.
use caddy_bifrost.Base.{
  ℕ, ◌≡◌, refl, sym, ◌∙◌, ap, subst, ◌↔◌, Bool, true, false, not, ◌&&◌, Option, none, some, List,
  [], ◌∷◌, arith, is_empty, Result, ok, err, bound_ok, map_err, fail_if,
}
use caddy_bifrost.Text.{Text, CaseTable, text_eq_iff}
use caddy_bifrost.Routes.{SniRoute, normalize_server_name}
use caddy_bifrost.Routes.Table.{find_route}
use caddy_bifrost.NetUtil.{Handshake}
use caddy_bifrost.Runtime.Resolver.{
  Resolver, ServerState, new_static_resolver, set_passthrough_resolver,
}
use caddy_bifrost.Listener.{AppRuntime, server_runtime, runtime_of, handle_connection}
use caddy_bifrost.Listener.Dispatch.{server_name_of, by_route, handle_connection-static}
use caddy_bifrost.Listener.Provision.{
  ListenerModule, ListenerError, routes_and_resolver, getting_app, routes_invalid, load_resolver,
  ListenerHost, Apps, put_app, pointed_to, wrapper_on, Provisioned, explicit_observer, is_set,
  app_name, typed_app, load_observer, server_runtime_of, install, choose_observer,
  provision_resolver, provision_routes, provision_app, provision_listener,
}

passed_guard : (b : Bool) (e : ListenerError) {u : Unit {0}} → fail_if b e ≡ ok u → b ≡ false
passed_guard true e h = cc
passed_guard false e h = refl

observer_loaded :
    (host : ListenerHost) (raw explicit : Bool)
    → load_observer host raw ≡ ok explicit
    → explicit ≡ raw
unfolding load_observer
observer_loaded host false explicit h = cc
observer_loaded host true explicit h = ground arith

server_found :
    (name : Text) (app : Option ServerState) (s : ServerState)
    → server_runtime_of name app ≡ ok s
    → app ≡ some s
unfolding server_runtime_of
server_found name none s h = cc
server_found name (some t) s h = cc

map_err-ok : {E F A : Type 0} (f : E → F) (r : Result E A) (a : A) → map_err f r ≡ ok a → r ≡ ok a
map_err-ok f (ok b) a h = cc
map_err-ok f (err e) a h = cc

-- What the routes make: a resolver on the app's server, and the wrapper that points to the app.
record Routed (cases : CaseTable) (name : Text) (routes : List SniRoute) (apps : Apps)
    (r : Apps × Provisioned) : Type 0 where
  resolver : Resolver
  server : ServerState
  made : new_static_resolver cases routes ≡ ok resolver
  points : r.1.app ≡ name
  installed : r.0 ≡ install resolver name server apps

provision_routes-Routed :
    (cases : CaseTable) (name : Text) (app : AppRuntime) (explicit : Bool) (route : SniRoute)
    (routes : List SniRoute) (apps : Apps) (r : Apps × Provisioned)
    → provision_routes cases name app explicit (route ∷ routes) apps ≡ ok r
    → Routed cases name (route ∷ routes) apps r
unfolding provision_routes
provision_routes-Routed cases name app explicit route routes apps r h =
    let (resolver, made, rest) =
      bound_ok (map_err routes_invalid (new_static_resolver cases (route ∷ routes))) _ h in
    let (s, there, last) = bound_ok (server_runtime_of name (runtime_of (some app))) _ rest in
    let same : (
      install resolver name s apps,
      record { app = name; observer = choose_observer explicit false },
    )
        ≡ r =
      cc in
    record {
      resolver = resolver;
      server = s;
      made = map_err-ok routes_invalid _ resolver made;
      points = ap (λ (q : Apps × Provisioned). q.1.app) (sym same);
      installed = ap (λ (q : Apps × Provisioned). q.0) (sym same);
    }

-- The explicit observer is the wrapper's if there is one, and only then.
abbrev ExplicitOk : Bool → Provisioned → Type 0
ExplicitOk explicit p = (p.observer ≡ explicit_observer) ↔ (explicit ≡ true)

choose-ExplicitOk :
    (explicit observes : Bool)
    → (choose_observer explicit observes ≡ explicit_observer) ↔ (explicit ≡ true)
unfolding choose_observer
choose-ExplicitOk true observes = ((λ h. refl), (λ h. refl))
choose-ExplicitOk false true = ((λ h. cc), (λ h. cc))
choose-ExplicitOk false false = ((λ h. cc), (λ h. cc))

module _ (name : Text) (app : AppRuntime) (explicit : Bool) (apps : Apps)
    (r : Apps × Provisioned) where
  provision_resolver-ExplicitOk :
      (host : ListenerHost)
      → provision_resolver host name app explicit apps ≡ ok r
      → ExplicitOk explicit r.1
  unfolding provision_resolver
  provision_resolver-ExplicitOk host h =
      let (l, got, rest) = bound_ok (load_resolver host) _ h in
      let (s, there, last) = bound_ok (server_runtime_of name (runtime_of (some app))) _ rest in
      let same : (
        install l.resolver name s apps,
        record { app = name; observer = choose_observer explicit l.observes },
      )
          ≡ r =
        cc in
      subst (λ (q : Apps × Provisioned). ExplicitOk explicit q.1) same
        (choose-ExplicitOk explicit l.observes)

  provision_routes-ExplicitOk :
      (cases : CaseTable) (routes : List SniRoute)
      → provision_routes cases name app explicit routes apps ≡ ok r
      → ExplicitOk explicit r.1
  unfolding provision_routes
  provision_routes-ExplicitOk cases [] h =
      let same : (apps, record { app = name; observer = choose_observer explicit false }) ≡ r =
        cc in
      subst (λ (q : Apps × Provisioned). ExplicitOk explicit q.1) same
        (choose-ExplicitOk explicit false)
  provision_routes-ExplicitOk cases (route ∷ routes) h =
      let (resolver, made, rest) =
        bound_ok (map_err routes_invalid (new_static_resolver cases (route ∷ routes))) _ h in
      let (s, there, last) = bound_ok (server_runtime_of name (runtime_of (some app))) _ rest in
      let same : (
        install resolver name s apps,
        record { app = name; observer = choose_observer explicit false },
      )
          ≡ r =
        cc in
      subst (λ (q : Apps × Provisioned). ExplicitOk explicit q.1) same
        (choose-ExplicitOk explicit false)

put_app-same :
    (name : Text) (app : AppRuntime) (apps : Apps) → put_app name app apps name ≡ ok (some app)
unfolding put_app
put_app-same name app apps = ground (arith, text_eq_iff name name)

module _ (cases : CaseTable) (host : ListenerHost) (w : ListenerModule) (apps : Apps)
    (r : Apps × Provisioned) (provisioned : provision_listener cases host w apps ≡ ok r) where
  -- The app that was found, and whether an explicit observer was loaded.
  record Found : Type 0 where
    app : AppRuntime
    explicit : Bool
    allowed : not (is_empty w.routes) && w.passthrough_resolver_raw ≡ false
    loaded : load_observer host w.passthrough_observer_raw ≡ ok explicit
    built : provision_app cases host w (app_name w.app) app explicit apps ≡ ok r

  found : Found
  unfolding provision_listener
  found =
      let (u, allowed, rest) =
        bound_ok
          (fail_if (not (is_empty w.routes) && w.passthrough_resolver_raw) routes_and_resolver) _
          provisioned in
      let (o, got, rest) = bound_ok (map_err getting_app (apps (app_name w.app))) _ rest in
      let (app, typed, rest) = bound_ok (typed_app o) _ rest in
      let (explicit, loaded, rest) =
        bound_ok (load_observer host w.passthrough_observer_raw) _ rest in
      record {
        app = app;
        explicit = explicit;
        allowed = passed_guard _ routes_and_resolver allowed;
        loaded = loaded;
        built = rest;
      }

  plain-of_routes : is_empty w.routes ≡ false → w.passthrough_resolver_raw ≡ false
  plain-of_routes listed = ground (arith, found.allowed)

  routed :
      (routes : List SniRoute)
      → w.routes ≡ routes
      → is_empty w.routes ≡ false
      → Routed cases (app_name w.app) routes apps r
  unfolding provision_app
  routed [] same listed = absurd (cc (ap is_empty same))
  routed (route ∷ routes) same listed =
      provision_routes-Routed cases (app_name w.app) found.app found.explicit route routes apps r
        (rw same at (rw (plain-of_routes listed) at found.built))

  -- A wrapper with routes was provisioned. While the server of its app is as this provisioning has
  -- left it, every wrapper of that app, this one and any other, proxies a connection whose
  -- ClientHello names a server to the endpoint of the first of these routes for that name, and hands
  -- it on to Caddy unchanged if there is none.
  pub provision_listener-by_route :
      (later : Apps) (p : Provisioned) (handshake : List ℕ → Handshake) (now : ℕ) (stream : List ℕ)
      (name : Text)
      → is_empty w.routes ≡ false
      → p.app ≡ r.1.app
      → later r.1.app ≡ r.0 r.1.app
      → server_name_of handshake stream ≡ ok name
      → handle_connection handshake (wrapper_on later p) now stream
        ≡ by_route (find_route cases (normalize_server_name cases name) w.routes) stream
  unfolding install wrapper_on pointed_to
  provision_listener-by_route later p handshake now stream name listed same_app kept named =
      let v = routed w.routes refl listed in
      let app = server_runtime (set_passthrough_resolver (some v.resolver) v.server) in
      let there : later p.app ≡ ok (some app) =
        ap later same_app
        ∙ kept
        ∙ ap (λ (f : Apps). f r.1.app) v.installed
        ∙ ap (put_app (app_name w.app) app apps) v.points
        ∙ put_app-same (app_name w.app) app apps in
      ap
        (λ found.
          handle_connection handshake
            (record { bifrost_app = pointed_to found; observed = is_set p.observer }) now stream)
        there
      ∙ handle_connection-static cases w.routes v.resolver v.server handshake (is_set p.observer)
          now stream name v.made named

  -- A wrapper takes its streams' observer from its observer module exactly when one is configured;
  -- a resolver that observes never goes before it.
  pub provision_listener-explicit_observer :
      (r.1.observer ≡ explicit_observer) ↔ (w.passthrough_observer_raw ≡ true)
  unfolding provision_app
  provision_listener-explicit_observer =
      subst (λ explicit. ExplicitOk explicit r.1)
        (observer_loaded host w.passthrough_observer_raw found.explicit found.loaded)
        (by_raw w.passthrough_resolver_raw refl)
    where
      by_raw : (raw : Bool) → w.passthrough_resolver_raw ≡ raw → ExplicitOk found.explicit r.1
      by_raw true e =
          provision_resolver-ExplicitOk (app_name w.app) found.app found.explicit apps r host
            (rw e at found.built)
      by_raw false e =
          provision_routes-ExplicitOk (app_name w.app) found.app found.explicit apps r cases
            w.routes (rw e at found.built)

-- ===== src/Runtime/Resolver.antt =====
-- internal/runtime/server.go: the resolvers of passthrough routes and the server's use of them. A
-- resolver that an embedding module brings is a parameter; its errors are texts.
pub mod Laws
use caddy_bifrost.Base.{
  ℕ, Bool, true, false, Option, none, some, List, [], ◌∷◌, Result, ok, err, ◌>>=◌,
}
use caddy_bifrost.Text.{Text, CaseTable, text}
use caddy_bifrost.Config.{ConfigError}
use caddy_bifrost.Routes.{SniRoute, RouteTable, new_route_table, resolve}
use caddy_bifrost.Passthrough.{Resolution}

-- What a resolver answers on one name: no route, a route, or an error.
abbrev pub Answer : Type 0 → Type 0
Answer A = Result Text (Option A)

-- `PassthroughResolver`, with the methods of `PassthroughObservationResolver` if it has them.
pub record Resolver : Type 0 where
  pub resolve_passthrough : Text → Answer Text
  pub resolve_observation : Option (Text → Answer Resolution)

-- An endpoint without an observation key.
unfoldable pub plain_resolution : Answer Text → Answer Resolution
plain_resolution (err e) = err e
plain_resolution (ok none) = ok none
plain_resolution (ok (some endpoint)) =
    ok (some (record { endpoint_key = endpoint; observation_key = [] }))

module _ (cases : CaseTable) where
  -- `StaticPassthroughResolver.ResolvePassthrough`; `none` is the nil resolver.
  unfoldable pub static_resolve : Option RouteTable → Text → Answer Text
  static_resolve none server_name = ok none
  static_resolve (some table) server_name = ok (resolve cases table server_name)

  -- `StaticPassthroughResolver.ResolvePassthroughObservation`.
  unfoldable pub static_resolve_observation : Option RouteTable → Text → Answer Resolution
  unfolding static_resolve plain_resolution
  static_resolve_observation table server_name = plain_resolution (static_resolve table server_name)

  -- The resolver of a table, with both methods.
  unfoldable pub static_resolver : RouteTable → Resolver
  static_resolver table = record {
    resolve_passthrough = static_resolve (some table);
    resolve_observation = some (static_resolve_observation (some table));
  }

  -- `NewStaticPassthroughResolver`.
  unfoldable pub new_static_resolver : List SniRoute → Result ConfigError Resolver
  new_static_resolver routes = do table ← new_route_table cases routes; ok (static_resolver table)

-- The passthrough state of `Server`: the resolver that is set, if any.
pub record ServerState : Type 0 where
  pub resolver : Option Resolver

-- `Server.SetPassthroughResolver`.
unfoldable pub set_passthrough_resolver : Option Resolver → ServerState → ServerState
set_passthrough_resolver resolver s = record s { resolver = resolver }

ask : Resolver → Option (Text → Answer Resolution) → Text → Answer Resolution
unfolding plain_resolution
ask r (some observing) server_name = observing server_name
ask r none server_name = plain_resolution (r.resolve_passthrough server_name)

resolve_with : Option Resolver → Text → Answer Resolution
unfolding ask
resolve_with none server_name = ok none
resolve_with (some r) server_name = ask r r.resolve_observation server_name

-- `Server.ResolvePassthrough`; `none` is the nil server.
unfoldable pub resolve_passthrough : Option ServerState → Text → Answer Resolution
unfolding resolve_with
resolve_passthrough none server_name = err (text "bifrost server runtime is not configured")
resolve_passthrough (some s) server_name = resolve_with s.resolver server_name

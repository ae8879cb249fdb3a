-- ===== src/Runtime/Resolver/Laws.antt =====
-- A server with static routes resolves a name as the list of routes says.
use caddy_bifrost.Base.{◌≡◌, refl, sym, ◌∙◌, ap, some, List, ok, bound_ok, All}
use caddy_bifrost.Text.{Text, CaseTable}
use caddy_bifrost.Routes.{SniRoute, RouteTable, new_route_table, resolve, normalize_server_name}
use caddy_bifrost.Routes.Table.{
  find_route, RouteValid, new_route_table_iff, resolve-new_route_table,
}
use caddy_bifrost.Runtime.Resolver.{
  Resolver, plain_resolution, static_resolve_observation, static_resolver, new_static_resolver,
  ServerState, set_passthrough_resolver, resolve_passthrough, resolve_with,
}

table_answers :
    (cases : CaseTable) (table : RouteTable) (name : Text)
    → resolve_with (some (static_resolver cases table)) name
      ≡ plain_resolution (ok (resolve cases table name))
unfolding resolve_with static_resolver static_resolve_observation
table_answers cases table name = refl

-- Once static routes are installed in a server, it answers each name with the endpoint of the
-- first route for that name, without an observation key, and with no route if there is none; it
-- never answers with an error, and what resolver was there before does not matter.
pub resolve_passthrough-static :
    (cases : CaseTable) (routes : List SniRoute) (r : Resolver) (s : ServerState) (name : Text)
    → new_static_resolver cases routes ≡ ok r
    → resolve_passthrough (some (set_passthrough_resolver (some r) s)) name
      ≡ plain_resolution (ok (find_route cases (normalize_server_name cases name) routes))
unfolding new_static_resolver resolve_passthrough set_passthrough_resolver
resolve_passthrough-static cases routes r s name made =
    let (table, listed, built) = bound_ok (new_route_table cases routes) _ made in
    let same : static_resolver cases table ≡ r = cc in
    ap (λ q. resolve_with (some q) name) (sym same)
    ∙ table_answers cases table name
    ∙ ap (λ e. plain_resolution (ok e)) (resolve-new_route_table cases routes table name listed)

-- Routes that make a resolver are valid.
pub static_routes-valid :
    (cases : CaseTable) (routes : List SniRoute) (r : Resolver)
    → new_static_resolver cases routes ≡ ok r
    → All (RouteValid cases) routes
unfolding new_static_resolver
static_routes-valid cases routes r made =
    let (table, listed, built) = bound_ok (new_route_table cases routes) _ made in
    ((new_route_table_iff cases routes).0 (table, listed)).0

-- ===== src/Routes.antt =====
-- internal/config/routes.go: the table from SNI names to endpoint keys.
pub mod Names
pub mod Table
use caddy_bifrost.Base.{
  ℕ, ◌+◌, Bool, Option, none, some, List, [], ◌∷◌, is_empty, is_some, Result, ok, err, ◌>>=◌, ◌>>◌,
  fail_if, map_err,
}
use caddy_bifrost.Text.{Text, CaseTable, text, trim_space, trim_suffix, to_lower, contains_any}
use caddy_bifrost.GoMap.{GoMap, Text-eq, lookup, insert}
use caddy_bifrost.Config.{
  ConfigError, route_name_required, route_name_inexact, route_endpoint_required, route_duplicate,
}

pub record SniRoute : Type 0 where
  pub server_name : Text
  pub endpoint : Text

pub record RouteTable : Type 0 where
  pub by_server_name : GoMap Text Text

module _ (cases : CaseTable) where
  -- `NormalizeServerName`.
  unfoldable pub normalize_server_name : Text → Text
  normalize_server_name name = to_lower cases (trim_suffix (trim_space name) (text "."))

  -- The loop of `NewRouteTable`, from an index on, with the table so far.
  unfoldable pub add_routes : ℕ → GoMap Text Text → List SniRoute → Result ConfigError RouteTable
  add_routes index table [] = ok (record { by_server_name = table })
  add_routes index table (route ∷ routes) =
      let server_name = normalize_server_name route.server_name in
      let endpoint = trim_space route.endpoint in
      let rest = add_routes (index + 1) (insert server_name endpoint table) routes in
      do
        fail_if (is_empty server_name) (route_name_required index)
        fail_if (contains_any server_name (text "*{}")) (route_name_inexact index)
        fail_if (is_empty endpoint) (route_endpoint_required index)
        fail_if (is_some (lookup server_name table)) (route_duplicate index)
        rest

  -- `NewRouteTable`.
  unfoldable pub new_route_table : List SniRoute → Result ConfigError RouteTable
  new_route_table routes = add_routes 0 [] routes

  -- `RouteTable.Resolve`.
  unfoldable pub resolve : RouteTable → Text → Option Text
  resolve table server_name = lookup (normalize_server_name server_name) table.by_server_name

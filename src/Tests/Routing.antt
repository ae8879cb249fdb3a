-- ===== src/Tests/Routing.antt =====
-- Tests of routes, resolvers, upstream addresses and the listener wrapper.
use caddy_bifrost.Base.{
  ℕ, ◌≡◌, refl, ◌↔◌, ◌⊎◌, true, false, none, some, List, [], ◌∷◌, ◌++◌, All, is_empty, ok, err,
}
use caddy_bifrost.Text.{
  CaseTable, text, text_eq, is_space, trim_left, trim_right, trim_space, cut, strip_suffix,
  lower_rune, to_lower,
}
use caddy_bifrost.Text.Trim.{IsTrimmed}
use caddy_bifrost.GoMap.{lookup, insert, delete}
use caddy_bifrost.HostPort.{join_host_port, split_host_port}
use caddy_bifrost.Config.{default_app_name}
use caddy_bifrost.Routes.{
  SniRoute, RouteTable, normalize_server_name, add_routes, new_route_table, resolve,
}
use caddy_bifrost.Routes.Names.{normalize_server_name-spelling}
use caddy_bifrost.Routes.Table.{
  RouteValid, DistinctNames, find_route, new_route_table_iff, resolve-new_route_table,
}
use caddy_bifrost.NetUtil.{Handshake, peek_server_name, split_address}
use caddy_bifrost.NetUtil.Laws.{peek-replays, split_address_sound}
use caddy_bifrost.Runtime.Resolver.{
  ServerState, static_resolver, new_static_resolver, set_passthrough_resolver,
}
use caddy_bifrost.Runtime.Transport.{endpoint_from_dial_address}
use caddy_bifrost.Runtime.Transport.Endpoint.{endpoint-named, endpoint-join}
use caddy_bifrost.Listener.{
  server_runtime, ListenerWrapper, passed, proxied, handle_connection, returned, accept,
}
use caddy_bifrost.Listener.Provision.{
  ListenerModule, ListenerHost, Apps, Provisioned, wrapper_on, install, no_observer,
  explicit_observer, provision_listener,
}
use caddy_bifrost.Listener.Provision.Laws.{
  provision_listener-by_route, provision_listener-explicit_observer,
}
use caddy_bifrost.Listener.Dispatch.{
  IsUnrouted, server_name_of, handle_connection-passed, by_route, handle_connection-static,
  handlings, arriving, accept-first,
}

-- A case table that knows no letter from code point 128 on.
abbrev ascii : CaseTable
ascii = record { lower = λ c. c }

abbrev home_routes : List SniRoute
home_routes =
    record { server_name = text "Home.Example.Com."; endpoint = text " home " }
    ∷ record { server_name = text "files.example.com"; endpoint = text "files" }
    ∷ []

abbrev home_table : RouteTable
home_table = record {
  by_server_name =
      (text "files.example.com", text "files") ∷ (text "home.example.com", text "home") ∷ [];
}

table_made : new_route_table ascii home_routes ≡ ok home_table
unfolding new_route_table add_routes normalize_server_name trim_space trim_left trim_right is_space
    strip_suffix text_eq to_lower lower_rune lookup insert delete
table_made = refl

new_route_table_iff_example :
    ((t : RouteTable) × (new_route_table ascii home_routes ≡ ok t))
    ↔ (All (RouteValid ascii) home_routes × DistinctNames ascii home_routes)
new_route_table_iff_example = new_route_table_iff ascii home_routes

resolve-new_route_table_example :
    resolve ascii home_table (text "HOME.example.com")
    ≡ find_route ascii (normalize_server_name ascii (text "HOME.example.com")) home_routes
resolve-new_route_table_example =
    resolve-new_route_table ascii home_routes home_table (text "HOME.example.com") table_made

home_spelling :
    (normalize_server_name ascii (text " Home") ≡ to_lower ascii (text "Home"))
    × (normalize_server_name ascii (text " Home.") ≡ to_lower ascii (text "Home"))
unfolding trim_space trim_left trim_right is_space strip_suffix text_eq
home_spelling =
    normalize_server_name-spelling ascii (text " ") (text "Home") [] (refl, tt) tt refl refl

endpoint_found : endpoint_from_dial_address (text "[::1]:80") ≡ ok (text "::1")
unfolding endpoint_from_dial_address split_host_port trim_space trim_left trim_right is_space cut
endpoint_found = refl

endpoint-named_example : (is_empty (text "::1") ≡ false) × IsTrimmed (text "::1")
endpoint-named_example = endpoint-named (text "[::1]:80") (text "::1") endpoint_found

endpoint-join_run :
    endpoint_from_dial_address (join_host_port (text "home") (text "8123")) ≡ ok (text "home")
unfolding join_host_port trim_space trim_left trim_right is_space
endpoint-join_run =
    endpoint-join (text "home") (text "8123") (record { no_open = refl; no_close = refl })
      (record { no_colon = refl; no_open = refl; no_close = refl }) refl refl refl

-- A handshake that takes the first byte for the length of the name behind it.
abbrev named : List ℕ → Handshake
named [] = record { read_count = 0; parsed = err (text "EOF") }
named (n ∷ bytes) = record { read_count = 3; parsed = ok bytes }

abbrev hello : List ℕ
hello = 22 ∷ text "Home.Example.Com"

peek-replays_run : (peek_server_name named hello).1 ≡ hello
peek-replays_run = peek-replays named hello

split_address_sound_run :
    let r = split_address (text "unix//run/bifrost.sock") in
    ((text "unix//run/bifrost.sock" ≡ r.0 ++ (text "//" ++ r.1))
      ⊎ (text "unix//run/bifrost.sock" ≡ r.0 ++ (text ":" ++ r.1)))
    ⊎ ((r.0 ≡ text "tcp") × (r.1 ≡ text "unix//run/bifrost.sock"))
split_address_sound_run = split_address_sound (text "unix//run/bifrost.sock")

abbrev bare_state : ServerState
bare_state = record { resolver = none }

abbrev home_wrapper : ListenerWrapper
home_wrapper = record {
  bifrost_app = some (
      server_runtime
        (set_passthrough_resolver (some (static_resolver ascii home_table)) bare_state));
  observed = true;
}

resolver_made : new_static_resolver ascii home_routes ≡ ok (static_resolver ascii home_table)
unfolding new_static_resolver
resolver_made = rw table_made

home_routed :
    handle_connection named home_wrapper 7 hello
    ≡ by_route
        (find_route ascii (normalize_server_name ascii (text "Home.Example.Com")) home_routes)
        hello
home_routed =
    handle_connection-static ascii home_routes (static_resolver ascii home_table) bare_state named
      true 7 hello (text "Home.Example.Com") resolver_made refl

handle_connection-passed_example :
    (handle_connection named home_wrapper 7 [] ≡ passed [])
    ↔ (IsUnrouted home_wrapper (server_name_of named []) × (◌≡◌ {A = List ℕ} [] []))
handle_connection-passed_example = handle_connection-passed named home_wrapper 7 [] []

home_handled :
    handle_connection named home_wrapper 7 hello
    ≡ proxied (record { endpoint_key = text "home"; observation_key = [] }) hello
unfolding normalize_server_name find_route trim_space trim_left trim_right is_space strip_suffix
    text_eq to_lower lower_rune
home_handled = home_routed

accept-first_run :
    accept named home_wrapper (arriving named home_wrapper ((7, hello) ∷ []) ++ (8, ok []) ∷ [])
    ≡ (returned [], handlings named home_wrapper ((7, hello) ∷ []))
accept-first_run =
    accept-first named home_wrapper ((7, hello) ∷ []) 8 [] [] (rw home_handled tt, tt) tt

abbrev home_module : ListenerModule
home_module = record {
  app = text " ";
  routes = home_routes;
  passthrough_resolver_raw = false;
  passthrough_observer_raw = true;
}

-- Every app is a server, and the modules are what they have to be.
abbrev home_apps : Apps
home_apps name = ok (some (server_runtime bare_state))

abbrev home_host : ListenerHost
home_host = record { load_resolver = ok none; load_observer = ok true }

abbrev home_provisioned : Provisioned
home_provisioned = record { app = default_app_name; observer = explicit_observer }

abbrev home_installed : Apps
home_installed = install (static_resolver ascii home_table) default_app_name bare_state home_apps

-- Another wrapper of the same app, which was provisioned before.
abbrev earlier_wrapper : Provisioned
earlier_wrapper = record { app = default_app_name; observer = no_observer }

home_made :
    provision_listener ascii home_host home_module home_apps ≡ ok (home_installed, home_provisioned)
unfolding provision_listener trim_space trim_right trim_left is_space
home_made = rw resolver_made refl

provision_listener-by_route_example :
    handle_connection named (wrapper_on home_installed earlier_wrapper) 7 hello
    ≡ by_route
        (find_route ascii (normalize_server_name ascii (text "Home.Example.Com")) home_routes)
        hello
provision_listener-by_route_example =
    provision_listener-by_route ascii home_host home_module home_apps
      (home_installed, home_provisioned) home_made home_installed earlier_wrapper named 7 hello
      (text "Home.Example.Com") refl refl refl refl

provision_listener-explicit_observer_run :
    (home_provisioned.observer ≡ explicit_observer) ↔ (home_module.passthrough_observer_raw ≡ true)
provision_listener-explicit_observer_run =
    provision_listener-explicit_observer ascii home_host home_module home_apps
      (home_installed, home_provisioned) home_made

-- ===== src/Routes/Table.antt =====
-- `NewRouteTable` and `Resolve` against a search through the list of routes.
use caddy_bifrost.Base.{
  ℕ, ◌+◌, ◌≡◌, refl, ◌↔◌, ◌∙◌, true, false, Option, none, some, List, [], ◌∷◌, arith, if◌then◌else◌,
  is_empty, is_some, All, ok,
}
use caddy_bifrost.Text.{Text, CaseTable, text, text_eq, text_eq_iff, trim_space, contains_any}
use caddy_bifrost.Text.Trim.{trim_space-IsTrimmed}
use caddy_bifrost.GoMap.{GoMap, Text-eq, lookup, insert, lookup-insert}
use caddy_bifrost.Routes.{
  SniRoute, RouteTable, normalize_server_name, add_routes, new_route_table, resolve,
}

module _ (cases : CaseTable) where
  -- The key that a route is found under.
  abbrev pub key_of : SniRoute → Text
  key_of r = normalize_server_name cases r.server_name

  pub record RouteValid (r : SniRoute) : Type 0 where
    pub named : is_empty (key_of r) ≡ false
    pub exact : contains_any (key_of r) (text "*{}") ≡ false
    pub endpoint : is_empty (trim_space r.endpoint) ≡ false

  abbrev pub DistinctNames : List SniRoute → Type 0
  DistinctNames [] = Unit
  DistinctNames (r ∷ rs) =
      All (λ other. text_eq (key_of r) (key_of other) ≡ false) rs × DistinctNames rs

  -- The endpoint of the first route with this key.
  unfoldable pub find_route : Text → List SniRoute → Option Text
  find_route key [] = none
  find_route key (r ∷ rs) =
      if text_eq (key_of r) key then some (trim_space r.endpoint) else find_route key rs

  abbrev Unused : GoMap Text Text → List SniRoute → Type 0
  Unused table rs = All (λ r. is_some (lookup (key_of r) table) ≡ false) rs

  Unused-insert :
      (k v : Text) (table : GoMap Text Text) (rs : List SniRoute)
      → Unused (insert k v table) rs
        ↔ (All (λ r. text_eq k (key_of r) ≡ false) rs × Unused table rs)
  Unused-insert k v table [] = ground arith
  Unused-insert k v table (r ∷ rs) =
      ground (arith, Unused-insert k v table rs, lookup-insert k (key_of r) v table)

  Unused-nil : (rs : List SniRoute) → Unused [] rs
  unfolding lookup
  Unused-nil [] = tt
  Unused-nil (r ∷ rs) = (refl, Unused-nil rs)

  abbrev Accepted : GoMap Text Text → List SniRoute → Type 0
  Accepted table rs = All RouteValid rs × Unused table rs × DistinctNames rs

  add_routes-sound :
      (index : ℕ) (table : GoMap Text Text) (rs : List SniRoute) (t : RouteTable)
      → add_routes cases index table rs ≡ ok t
      → Accepted table rs
  unfolding add_routes
  add_routes-sound index table [] t h = ground arith
  add_routes-sound index table (r ∷ rs) t h = ground (
    arith,
    add_routes-sound (index + 1) (insert (key_of r) (trim_space r.endpoint) table) rs t,
    Unused-insert (key_of r) (trim_space r.endpoint) table rs,
  )

  -- What a lookup finds: the route list first, then the table so far.
  or_else : Option Text → Option Text → Option Text
  or_else none b = b
  or_else (some a) b = some a

  or_else-none : (a : Option Text) → or_else a none ≡ a
  unfolding or_else
  or_else-none none = refl
  or_else-none (some a) = refl

  add_routes_complete :
      (index : ℕ) (table : GoMap Text Text) (rs : List SniRoute)
      → Accepted table rs
      → (t : RouteTable) × (add_routes cases index table rs ≡ ok t)
  unfolding add_routes
  add_routes_complete index table [] h = (_, refl)
  add_routes_complete index table (r ∷ rs) h =
      let (t, e) =
        add_routes_complete (index + 1) (insert (key_of r) (trim_space r.endpoint) table) rs
          (ground (arith, Unused-insert (key_of r) (trim_space r.endpoint) table rs)) in
      (t, ground arith)

  find_route-none :
      (k key : Text) (rs : List SniRoute)
      → text_eq k key ≡ true
      → All (λ other. text_eq k (key_of other) ≡ false) rs
      → find_route key rs ≡ none
  unfolding find_route
  find_route-none k key [] e h = refl
  find_route-none k key (r ∷ rs) e h = ground (
    arith,
    text_eq_iff k key,
    text_eq_iff k (key_of r),
    text_eq_iff (key_of r) key,
    find_route-none k key rs e,
  )

  add_routes-lookup :
      (index : ℕ) (table : GoMap Text Text) (rs : List SniRoute) (t : RouteTable) (key : Text)
      → add_routes cases index table rs ≡ ok t
      → lookup key t.by_server_name ≡ or_else (find_route key rs) (lookup key table)
  unfolding add_routes find_route or_else
  add_routes-lookup index table [] t key h = ground arith
  add_routes-lookup index table (r ∷ rs) t key h =
      let k = key_of r in
      let e = trim_space r.endpoint in
      ground (
        arith,
        add_routes-sound index table (r ∷ rs) t h,
        add_routes-lookup (index + 1) (insert k e table) rs t key,
        lookup-insert k key e table,
        find_route-none k key rs,
      )

  -- A list of routes is accepted exactly when each route has an exact name and an endpoint, and no
  -- two routes have one name.
  pub new_route_table_iff :
      (routes : List SniRoute)
      → ((t : RouteTable) × (new_route_table cases routes ≡ ok t))
        ↔ (All RouteValid routes × DistinctNames routes)
  unfolding new_route_table
  new_route_table_iff routes = (
    (λ (t, h). let a = add_routes-sound 0 [] routes t h in (a.0, a.2)),
    (λ (v, d). add_routes_complete 0 [] routes (v, Unused-nil routes, d)),
  )

  -- An accepted table resolves a name as the first route of the list with that name does.
  pub resolve-new_route_table :
      (routes : List SniRoute) (t : RouteTable) (name : Text)
      → new_route_table cases routes ≡ ok t
      → resolve cases t name ≡ find_route (normalize_server_name cases name) routes
  unfolding new_route_table resolve or_else lookup
  resolve-new_route_table routes t name h =
      add_routes-lookup 0 [] routes t (normalize_server_name cases name) h
      ∙ or_else-none (find_route (normalize_server_name cases name) routes)

  -- A route that is found in an accepted list has an endpoint.
  pub find_route-endpoint :
      (key : Text) (routes : List SniRoute) (endpoint : Text)
      → All RouteValid routes
      → find_route key routes ≡ some endpoint
      → is_empty (trim_space endpoint) ≡ false
  unfolding find_route
  find_route-endpoint key [] endpoint v h = cc
  find_route-endpoint key (r ∷ rs) endpoint (v, vs) h =
      ground
        (arith, v.endpoint, trim_space-IsTrimmed r.endpoint, find_route-endpoint key rs endpoint vs)

-- ===== src/Config/Server/Normal.antt =====
-- The normal form of a server configuration.
use caddy_bifrost.Base.{◌≡◌, refl, List, [], ◌∷◌, map, arith, is_empty, false, All}
use caddy_bifrost.Text.{Text, trim_space, trim_left, trim_right, is_space}
use caddy_bifrost.Text.Trim.{IsTrimmed, trim_space-IsTrimmed}
use caddy_bifrost.Config.{ServerConfig, Endpoint, default_connector_listen}
use caddy_bifrost.Config.Server.{normalize_endpoint, normalize_server, listen_or_default}

pub record EndpointNormal (e : Endpoint) : Type 0 where
  pub key : IsTrimmed e.key
  pub token : IsTrimmed e.token
  pub policy : IsTrimmed e.policy

-- The listen address is set, and no text has a space at either end.
pub record ServerNormal (s : ServerConfig) : Type 0 where
  pub listen_set : is_empty s.connector.listen ≡ false
  pub listen : IsTrimmed s.connector.listen
  pub tls_subject : IsTrimmed s.connector.tls_subject
  pub endpoints : All EndpointNormal s.connector.endpoints

default-IsTrimmed : IsTrimmed default_connector_listen
unfolding trim_space trim_left trim_right is_space
default-IsTrimmed = refl

map-EndpointNormal : (es : List Endpoint) → All EndpointNormal (map normalize_endpoint es)
unfolding normalize_endpoint
map-EndpointNormal [] = tt
map-EndpointNormal (e ∷ es) = (
  record {
    key = trim_space-IsTrimmed e.key;
    token = trim_space-IsTrimmed e.token;
    policy = trim_space-IsTrimmed e.policy;
  },
  map-EndpointNormal es,
)

listen_or_default_lem :
    (t : Text)
    → IsTrimmed t
    → (is_empty (listen_or_default t) ≡ false) × IsTrimmed (listen_or_default t)
unfolding listen_or_default
listen_or_default_lem [] h = (refl, default-IsTrimmed)
listen_or_default_lem (c ∷ t) h = (refl, h)

-- `Server.Normalize` reaches the normal form from every configuration.
pub normalize_server-ServerNormal : (s : ServerConfig) → ServerNormal (normalize_server s)
unfolding normalize_server
normalize_server-ServerNormal s =
    let (is_set, trimmed) =
      listen_or_default_lem (trim_space s.connector.listen)
        (trim_space-IsTrimmed s.connector.listen) in
    record {
      listen_set = is_set;
      listen = trimmed;
      tls_subject = trim_space-IsTrimmed s.connector.tls_subject;
      endpoints = map-EndpointNormal s.connector.endpoints;
    }

map-of_EndpointNormal :
    (es : List Endpoint) → All EndpointNormal es → map normalize_endpoint es ≡ es
unfolding normalize_endpoint
map-of_EndpointNormal [] h = refl
map-of_EndpointNormal (e ∷ es) (n, h) =
    ground (arith, n.key, n.token, n.policy, map-of_EndpointNormal es h)

listen_or_default-of_set : (t : Text) → is_empty t ≡ false → listen_or_default t ≡ t
unfolding listen_or_default
listen_or_default-of_set t h = rw h

-- A configuration in normal form is left as it is.
pub normalize_server-of_ServerNormal : (s : ServerConfig) → ServerNormal s → normalize_server s ≡ s
unfolding normalize_server
normalize_server-of_ServerNormal s n = ground (
  arith,
  n.tls_subject,
  n.listen,
  listen_or_default-of_set s.connector.listen n.listen_set,
  map-of_EndpointNormal s.connector.endpoints n.endpoints,
)

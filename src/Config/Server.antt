-- ===== src/Config/Server.antt =====
-- internal/config/config.go: the server configuration, its normal form and its checks, and the
-- static clients that it stands for. What the tunnel library's `NewStaticAcceptProvider` thinks of
-- a list of clients is a parameter: its error, if it returns one.
pub mod Normal
pub mod Valid
use caddy_bifrost.Base.{
  ℕ, ◌+◌, Bool, true, false, not, Option, none, some, List, [], ◌∷◌, map, if◌then◌else◌, is_empty,
  any, Result, ok, err, ◌>>=◌, ◌>>◌, fail_if, map_err, ℤ,
}
use caddy_bifrost.Text.{Text, trim_space, text_eq}
use caddy_bifrost.Config.{
  ServerConfig, Connector, Endpoint, ConfigError, default_connector_listen, server_required,
  listen_required, tls_subject_required, endpoints_required, endpoints_with_provider,
  endpoint_key_required, endpoint_token_required, endpoint_key_duplicate, endpoint_limits,
  endpoint_static, in_guardrails, in_runtime, provider_error,
}
use caddy_bifrost.Config.Limits.{
  PlanLimits, plan_limits, validate_limits, validate_guardrails, validate_runtime,
}

-- `bifrost.StaticClient` and its connection policy, the tunnel library's records.
pub record ConnectionPolicy : Type 0 where
  pub mode : Text
  pub max_parallel : ℤ

pub record StaticClient : Type 0 where
  pub token : Text
  pub endpoint_key : Text
  pub connection_policy : ConnectionPolicy
  pub limits : PlanLimits

-- The body of the loop of `Server.Normalize`.
unfoldable pub normalize_endpoint : Endpoint → Endpoint
normalize_endpoint e = record e {
  key = trim_space e.key;
  token = trim_space e.token;
  policy = trim_space e.policy;
}

-- An empty listen address takes the default.
unfoldable pub listen_or_default : Text → Text
listen_or_default listen = if is_empty listen then default_connector_listen else listen

-- `Server.Normalize`.
unfoldable pub normalize_server : ServerConfig → ServerConfig
unfolding normalize_endpoint listen_or_default
normalize_server s = record s {
  connector = record {
    listen = listen_or_default (trim_space s.connector.listen);
    tls_subject = trim_space s.connector.tls_subject;
    endpoints = map normalize_endpoint s.connector.endpoints;
  };
}

-- `Endpoint.StaticClient`.
unfoldable pub static_client : Endpoint → Result ConfigError StaticClient
static_client e = do
  limits ← plan_limits e.limits
  ok (record {
    token = trim_space e.token;
    endpoint_key = trim_space e.key;
    connection_policy = record { mode = trim_space e.policy; max_parallel = e.max_parallel };
    limits = limits;
  })

-- The loop of `Server.StaticClients`, from an index on.
unfoldable pub convert_endpoints : ℕ → List Endpoint → Result ConfigError (List StaticClient)
convert_endpoints index [] = ok []
convert_endpoints index (e ∷ es) = do
  client ← map_err (endpoint_static index) (static_client e)
  clients ← convert_endpoints (index + 1) es
  ok (client ∷ clients)

-- The loop of `Server.ValidateWithProvider`, with the keys seen so far.
unfoldable pub check_endpoints : ℕ → List Text → List Endpoint → Result ConfigError (Unit {0})
check_endpoints index seen [] = ok tt
check_endpoints index seen (e ∷ es) = do
  fail_if (is_empty e.key) (endpoint_key_required index)
  fail_if (is_empty e.token) (endpoint_token_required index)
  fail_if (any (text_eq e.key) seen) (endpoint_key_duplicate index)
  map_err (endpoint_limits index) (validate_limits e.limits)
  check_endpoints (index + 1) (e.key ∷ seen) es

-- Endpoints and a custom accept provider exclude each other, and one of them is needed.
unfoldable pub check_source : Bool → List Endpoint → Result ConfigError (Unit {0})
check_source provider_configured [] = fail_if (not provider_configured) endpoints_required
check_source provider_configured (e ∷ es) = fail_if provider_configured endpoints_with_provider

module _ (new_static_accept_provider : List StaticClient → Option Text) where
  unfoldable pub accept_clients : List StaticClient → Result ConfigError (List StaticClient)
  accept_clients clients = elim (new_static_accept_provider clients) [
    | none ↦ ok clients
    | some message ↦ err (provider_error message)
  ]

  -- `Server.StaticClients`.
  unfoldable pub static_clients : ServerConfig → Result ConfigError (List StaticClient)
  unfolding accept_clients
  static_clients s = do clients ← convert_endpoints 0 s.connector.endpoints; accept_clients clients

  -- The conversion of the endpoints is tried only where no provider takes their place.
  check_static : Bool → ServerConfig → Result ConfigError (Unit {0})
  unfolding static_clients
  check_static true s = ok tt
  check_static false s = do clients ← static_clients s; ok tt

  -- `Server.ValidateWithProvider` behind its call of `Normalize`.
  unfoldable pub check_server : Bool → ServerConfig → Result ConfigError (Unit {0})
  unfolding check_static
  check_server provider_configured s = do
    fail_if (is_empty (trim_space s.connector.listen)) listen_required
    fail_if (is_empty (trim_space s.connector.tls_subject)) tls_subject_required
    check_source provider_configured s.connector.endpoints
    check_endpoints 0 [] s.connector.endpoints
    check_static provider_configured s
    map_err in_guardrails (validate_guardrails s.guardrails)
    map_err in_runtime (validate_runtime s.runtime)

  -- `Server.ValidateWithProvider`: it leaves the configuration normalised, whatever it returns.
  unfoldable pub validate_with_provider :
      Bool → Option ServerConfig → Option ServerConfig × Result ConfigError (Unit {0})
  validate_with_provider provider_configured none = (none, err server_required)
  validate_with_provider provider_configured (some s) =
      let n = normalize_server s in (some n, check_server provider_configured n)

  -- `Server.Validate`.
  unfoldable pub validate_server :
      Option ServerConfig → Option ServerConfig × Result ConfigError (Unit {0})
  unfolding validate_with_provider
  validate_server s = validate_with_provider false s

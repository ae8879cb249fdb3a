-- ===== src/Config/Server/Valid.antt =====
-- What the checks of a server configuration accept, without their order and their loops.
use caddy_bifrost.Base.{
  ℕ, ◌+◌, ◌≡◌, refl, ◌↔◌, ◌⊎◌, Bool, true, false, Option, none, List, [], ◌∷◌, arith, is_empty, any,
  All, ok, map, pos, pos_part, ◌/◌,
}
use caddy_bifrost.Text.{Text, trim_space, text_eq}
use caddy_bifrost.Config.{ServerConfig, Endpoint}
use caddy_bifrost.Config.Limits.{
  LimitsValid, GuardrailsValid, RuntimeValid, validate_limits_iff, validate_guardrails_iff,
  validate_runtime_iff, plan_limits, second,
}
use caddy_bifrost.Config.Server.{
  StaticClient, static_client, convert_endpoints, check_endpoints, check_source, check_static,
  static_clients, check_server, accept_clients,
}

pub record EndpointValid (e : Endpoint) : Type 0 where
  pub key : is_empty e.key ≡ false
  pub token : is_empty e.token ≡ false
  pub limits : LimitsValid e.limits

-- No two endpoints have one key.
abbrev pub DistinctKeys : List Endpoint → Type 0
DistinctKeys [] = Unit
DistinctKeys (e ∷ es) = All (λ other. text_eq other.key e.key ≡ false) es × DistinctKeys es

abbrev Unseen : List Text → List Endpoint → Type 0
Unseen seen es = All (λ e. any (text_eq e.key) seen ≡ false) es

Unseen-cons :
    (k : Text) (seen : List Text) (es : List Endpoint)
    → Unseen (k ∷ seen) es ↔ (All (λ e. text_eq e.key k ≡ false) es × Unseen seen es)
Unseen-cons k seen [] = ground arith
Unseen-cons k seen (e ∷ es) = ground (arith, Unseen-cons k seen es)

Unseen-nil : (es : List Endpoint) → Unseen [] es
Unseen-nil [] = tt
Unseen-nil (e ∷ es) = (refl, Unseen-nil es)

check_endpoints_iff :
    (index : ℕ) (seen : List Text) (es : List Endpoint)
    → (check_endpoints index seen es ≡ ok tt)
      ↔ (All EndpointValid es × Unseen seen es × DistinctKeys es)
unfolding check_endpoints
check_endpoints_iff index seen [] = ground arith
check_endpoints_iff index seen (e ∷ es) = ground (
  arith,
  check_endpoints_iff (index + 1) (e.key ∷ seen) es,
  Unseen-cons e.key seen es,
  validate_limits_iff e.limits,
)

-- The source of admissions: static endpoints, or a custom accept provider, and never both.
abbrev pub SourceValid : Bool → List Endpoint → Type 0
SourceValid provider_configured es = is_empty es ≡ provider_configured

check_source_iff : (p : Bool) (es : List Endpoint) → (check_source p es ≡ ok tt) ↔ SourceValid p es
unfolding check_source
check_source_iff p [] = ground arith
check_source_iff p (e ∷ es) = ground arith

-- The static client that a valid endpoint stands for.
abbrev pub client_of : Endpoint → StaticClient
client_of e = record {
  token = trim_space e.token;
  endpoint_key = trim_space e.key;
  connection_policy = record { mode = trim_space e.policy; max_parallel = e.max_parallel };
  limits = record {
    max_streams = e.limits.max_streams;
    max_bandwidth_bps = e.limits.max_bandwidth_bps;
    stream_idle_timeout_seconds = pos (pos_part e.limits.stream_idle_timeout / second);
  };
}

static_client-of_valid : (e : Endpoint) → EndpointValid e → static_client e ≡ ok (client_of e)
unfolding static_client plan_limits
static_client-of_valid e v = ground (arith, v.limits)

convert_endpoints-of_valid :
    (index : ℕ) (es : List Endpoint)
    → All EndpointValid es
    → convert_endpoints index es ≡ ok (map client_of es)
unfolding convert_endpoints
convert_endpoints-of_valid index [] h = refl
convert_endpoints-of_valid index (e ∷ es) (v, h) =
    rw (static_client-of_valid e v, convert_endpoints-of_valid (index + 1) es h) refl

module _ (new_static_accept_provider : List StaticClient → Option Text) where
  -- What the checks ask of a configuration in normal form.
  pub record ServerValid (provider_configured : Bool) (s : ServerConfig) : Type 0 where
    pub listen : is_empty (trim_space s.connector.listen) ≡ false
    pub tls_subject : is_empty (trim_space s.connector.tls_subject) ≡ false
    pub source : SourceValid provider_configured s.connector.endpoints
    pub endpoints : All EndpointValid s.connector.endpoints
    pub distinct : DistinctKeys s.connector.endpoints
    pub accepted :
        (provider_configured ≡ true)
        ⊎ (new_static_accept_provider (map client_of s.connector.endpoints) ≡ none)
    pub guardrails : GuardrailsValid s.guardrails
    pub runtime : RuntimeValid s.runtime

  pub static_clients-of_valid :
      (s : ServerConfig)
      → All EndpointValid s.connector.endpoints
      → static_clients new_static_accept_provider s
        ≡ accept_clients new_static_accept_provider (map client_of s.connector.endpoints)
  unfolding static_clients
  static_clients-of_valid s h = rw (convert_endpoints-of_valid 0 s.connector.endpoints h) refl

  check_static_iff :
      (p : Bool) (s : ServerConfig)
      → All EndpointValid s.connector.endpoints
      → (check_static new_static_accept_provider p s ≡ ok tt)
        ↔ ((p ≡ true) ⊎ (new_static_accept_provider (map client_of s.connector.endpoints) ≡ none))
  unfolding check_static accept_clients
  check_static_iff true s h = ground arith
  check_static_iff false s h = ground (arith, static_clients-of_valid s h)

  -- A server configuration passes the checks exactly when it has an address and a subject, exactly
  -- one source of admission, endpoints with distinct keys, tokens and limits in range, clients that
  -- the tunnel library accepts, and guardrails and runtime values in range.
  pub check_server_iff :
      (p : Bool) (s : ServerConfig)
      → (check_server new_static_accept_provider p s ≡ ok tt) ↔ ServerValid p s
  unfolding check_server
  check_server_iff p s = ground (
    arith,
    check_source_iff p s.connector.endpoints,
    check_endpoints_iff 0 [] s.connector.endpoints,
    Unseen-nil s.connector.endpoints,
    check_static_iff p s,
    validate_guardrails_iff s.guardrails,
    validate_runtime_iff s.runtime,
  )

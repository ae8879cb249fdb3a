-- ===== src/Runtime/Tls.antt =====
-- internal/runtime/server.go: `caddyTLSConfig`, which has Caddy manage the connector's certificate,
-- and `appendALPN`. Caddy's TLS app and its connection policies are parameters.
pub mod Laws
use caddy_bifrost.Base.{
  Bool, true, false, not, List, [], ◌∷◌, ◌++◌, if◌then◌else◌, is_empty, Result, ok, err, ◌>>=◌,
  ◌>>◌, fail_if, map_err,
}
use caddy_bifrost.Text.{Text, text_eq, trim_space}

pub data TlsError : Type 0 where
  subject_required unexpected_tls_app : TlsError
  getting_tls_app managing provision_policy : Text → TlsError

-- `caddytls.ConnectionPolicy`, as far as the code sets it.
pub record Policy : Type 0 where
  pub alpn : List Text
  pub default_sni : Text

-- A `tls.Config`: its protocols, and the policy that Caddy made the rest of it from.
pub record TlsConfig : Type 0 where
  pub next_protos : List Text
  pub policy : Policy

-- What Caddy and its TLS app answer.
pub record TlsHost : Type 0 where
  -- `bifrost.ALPN`.
  pub alpn : Text
  -- `ctx.App("tls")`, and whether the app is a `*caddytls.TLS`.
  pub tls_app : Result Text Bool
  -- `tlsApp.Manage` of one name.
  pub manage : Text → Result Text (Unit {0})
  pub provision_policies : Policy → Result Text (Unit {0})
  -- `NextProtos` of `policies.TLSConfig`.
  pub policy_protos : Policy → List Text

-- A call on the TLS app.
pub data TlsCall : Type 0 where
  register_server_names : List Text → List Text → TlsCall
  manage_names : List Text → TlsCall

-- The test in the loop of `appendALPN`.
pub offers : List Text → Text → Bool
offers [] proto = false
offers (existing ∷ next) proto = if text_eq existing proto then true else offers next proto

-- `appendALPN`.
unfoldable pub append_alpn : List Text → Text → List Text
unfolding offers
append_alpn next_protos proto =
    if offers next_protos proto then next_protos else next_protos ++ (proto ∷ [])

abbrev pub connector_policy : TlsHost → Text → Policy
connector_policy host subject = record { alpn = host.alpn ∷ []; default_sni = subject }

-- The part of `caddyTLSConfig` that makes the configuration, behind `tlsApp.Manage`.
policy_config : TlsHost → Policy → Result TlsError TlsConfig
unfolding append_alpn
policy_config host policy = do
  map_err provision_policy (host.provision_policies policy)
  ok (record { next_protos = append_alpn (host.policy_protos policy) host.alpn; policy = policy })

-- What is done with the app that Caddy returns: the calls on it, and the result.
managed : TlsHost → Text → Result Text Bool → List TlsCall × Result TlsError TlsConfig
unfolding policy_config
managed host subject (err e) = ([], err (getting_tls_app e))
managed host subject (ok false) = ([], err unexpected_tls_app)
managed host subject (ok true) = (
  register_server_names (subject ∷ []) (host.alpn ∷ []) ∷ manage_names (subject ∷ []) ∷ [],
  do map_err managing (host.manage subject); policy_config host (connector_policy host subject),
)

-- `caddyTLSConfig`.
unfoldable pub caddy_tls_config : TlsHost → Text → List TlsCall × Result TlsError TlsConfig
unfolding managed
caddy_tls_config host subject =
    if is_empty (trim_space subject)
    then ([], err subject_required)
    else managed host subject host.tls_app

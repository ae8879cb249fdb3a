-- ===== src/Runtime/Tls/Laws.antt =====
-- What `caddyTLSConfig` returns, and what it asks of Caddy.
use caddy_bifrost.Base.{
  ◌≡◌, refl, sym, ap, subst, ◌∙◌, Bool, true, false, List, [], ◌∷◌, ◌++◌, arith, if◌then◌else◌,
  is_empty, Result, ok, err, map_err, bound_ok,
}
use caddy_bifrost.Text.{Text, text_eq_iff, trim_space}
use caddy_bifrost.Runtime.Tls.{
  TlsError, TlsConfig, TlsHost, Policy, TlsCall, register_server_names, manage_names, offers,
  append_alpn, connector_policy, policy_config, managed, caddy_tls_config,
}

offers-append : (protos : List Text) (proto : Text) → offers (protos ++ (proto ∷ [])) proto ≡ true
unfolding offers
offers-append [] proto = ground (arith, text_eq_iff proto proto)
offers-append (p ∷ ps) proto = ground (arith, offers-append ps proto)

-- The protocols with one more are offered, and adding it again changes nothing.
pub append_alpn-offers :
    (protos : List Text) (proto : Text) → offers (append_alpn protos proto) proto ≡ true
unfolding append_alpn
append_alpn-offers protos proto = ground (arith, offers-append protos proto)

pub append_alpn-again :
    (protos : List Text) (proto : Text)
    → append_alpn (append_alpn protos proto) proto ≡ append_alpn protos proto
append_alpn-again protos proto = kept (append_alpn protos proto) (append_alpn-offers protos proto)
  where
    kept : (ps : List Text) → offers ps proto ≡ true → append_alpn ps proto ≡ ps
    kept ps there = unfold append_alpn in (rw there refl)

-- What a successful `caddyTLSConfig` has done: the subject is not blank, it is registered and
-- managed as it is spelled, and the configuration offers the tunnel's protocol.
pub record Secured (host : TlsHost) (subject : Text) (t : TlsConfig) : Type 0 where
  pub named : is_empty (trim_space subject) ≡ false
  pub calls :
      (caddy_tls_config host subject).0
      ≡ register_server_names (subject ∷ []) (host.alpn ∷ []) ∷ manage_names (subject ∷ []) ∷ []
  pub sni : t.policy.default_sni ≡ subject
  pub offered : offers t.next_protos host.alpn ≡ true

policy_config_sound :
    (host : TlsHost) (p : Policy) (t : TlsConfig)
    → policy_config host p ≡ ok t
    → (t.policy ≡ p) × (offers t.next_protos host.alpn ≡ true)
unfolding policy_config
policy_config_sound host p t h =
    let (u, made, last) =
      bound_ok (map_err TlsError.provision_policy (host.provision_policies p)) _ h in
    let same : _ ≡ t = cc last in
    subst (λ (c : TlsConfig). (c.policy ≡ p) × (offers c.next_protos host.alpn ≡ true)) same
      (refl, append_alpn-offers (host.policy_protos p) host.alpn)

managed_sound :
    (host : TlsHost) (subject : Text) (r : Result Text Bool) (t : TlsConfig)
    → (managed host subject r).1 ≡ ok t
    → ((managed host subject r).0
        ≡ register_server_names (subject ∷ []) (host.alpn ∷ []) ∷ manage_names (subject ∷ []) ∷ [])
      × (policy_config host (connector_policy host subject) ≡ ok t)
unfolding managed
managed_sound host subject (err e) t h = cc
managed_sound host subject (ok false) t h = cc
managed_sound host subject (ok true) t h =
    let (u, kept, last) = bound_ok (map_err TlsError.managing (host.manage subject)) _ h in
    (refl, last)

guard_passed :
    {A : Type 0} (b : Bool) (r : List TlsCall × Result TlsError A) (e : TlsError) (x : A)
    → (if b then ([], err e) else r).1 ≡ ok x
    → (b ≡ false) × ((if b then ([], err e) else r) ≡ r)
guard_passed true r e x h = cc
guard_passed false r e x h = (refl, refl)

pub caddy_tls_config-Secured :
    (host : TlsHost) (subject : Text) (t : TlsConfig)
    → (caddy_tls_config host subject).1 ≡ ok t
    → Secured host subject t
unfolding caddy_tls_config
caddy_tls_config-Secured host subject t h =
    let (named, through) =
      guard_passed (is_empty (trim_space subject)) (managed host subject host.tls_app)
        TlsError.subject_required t h in
    let (calls, made) =
      managed_sound host subject host.tls_app t (ap (λ q. q.1) (sym through) ∙ h) in
    let (policy, offered) = policy_config_sound host (connector_policy host subject) t made in
    record {
      named = named;
      calls = ap (λ q. q.0) through ∙ calls;
      sni = ap (λ (p : Policy). p.default_sni) policy;
      offered = offered;
    }

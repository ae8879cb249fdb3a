-- ===== src/Runtime/Making/Certificate.antt =====
-- The name that a server's certificate is managed for. `NewServer` asks Caddy for it before the
-- configuration is validated, and so before its subject is trimmed.
use caddy_bifrost.Base.{◌≡◌, sym, ap, subst, ◌∙◌, ◌↔◌, Option, some, List, [], ◌∷◌, ok}
use caddy_bifrost.Text.{Text, trim_space}
use caddy_bifrost.Config.{ServerConfig}
use caddy_bifrost.Config.Server.{StaticClient, normalize_server}
use caddy_bifrost.Runtime.Tls.{TlsHost, register_server_names, manage_names, caddy_tls_config}
use caddy_bifrost.Runtime.Tls.Laws.{Secured}
use caddy_bifrost.Runtime.Making.{ServerOption, NewServer, new_server}
use caddy_bifrost.Runtime.Making.Laws.{new_server-MadeFrom}

module _ (new_static_accept_provider : List StaticClient → Option Text) where
  normal_subject :
      (cfg : ServerConfig) (s : NewServer)
      → s.cfg ≡ normalize_server cfg
      → s.cfg.connector.tls_subject ≡ trim_space cfg.connector.tls_subject
  unfolding normalize_server
  normal_subject cfg s h = ap (λ (c : ServerConfig). c.connector.tls_subject) h

  some_inj : {A : Type 0} (x y : A) → some x ≡ some y → x ≡ y
  some_inj x y h = cc

  -- A server that is made has had its certificate registered and managed for the subject as it is
  -- spelled in the configuration, which is the subject of the server's own configuration exactly if
  -- no space stands around it.
  pub new_server_certificate :
      (host : TlsHost) (cfg : ServerConfig) (options : List (Option ServerOption)) (s : NewServer)
      → new_server new_static_accept_provider host (some cfg) options ≡ ok s
      → let subject = cfg.connector.tls_subject in
        ((caddy_tls_config host subject).0
          ≡ register_server_names (subject ∷ []) (host.alpn ∷ [])
            ∷ manage_names (subject ∷ [])
            ∷ [])
        × (s.tls_config.policy.default_sni ≡ subject)
        × ((s.cfg.connector.tls_subject ≡ subject) ↔ (trim_space subject ≡ subject))
  new_server_certificate host cfg options s h =
      let (c, same, from) =
        new_server-MadeFrom new_static_accept_provider host (some cfg) options s h in
      let e = sym (some_inj cfg c same) in
      let secured =
        subst (λ (d : ServerConfig). Secured host d.connector.tls_subject s.tls_config) e
          from.secured in
      let normal =
        normal_subject cfg s (ap (λ (t : NewServer). t.cfg) from.made ∙ ap normalize_server e) in
      (secured.calls, secured.sni, ((λ t. sym normal ∙ t), (λ t. normal ∙ t)))

-- ===== src/Runtime/Making/Laws.antt =====
-- What `NewServer` makes of a configuration.
use caddy_bifrost.Base.{
  ◌≡◌, refl, sym, subst, ◌∙◌, Option, none, some, List, map, arith, is_some, ℕ, Result, ok, err,
  bound_ok, map_err,
}
use caddy_bifrost.Text.{Text}
use caddy_bifrost.Config.{ServerConfig}
use caddy_bifrost.Config.Server.{
  StaticClient, normalize_server, validate_with_provider, check_server, accept_clients,
}
use caddy_bifrost.Config.Server.Valid.{
  ServerValid, check_server_iff, static_clients-of_valid, client_of,
}
use caddy_bifrost.Runtime.Tls.{TlsError, TlsConfig, TlsHost, caddy_tls_config}
use caddy_bifrost.Runtime.Tls.Laws.{Secured, caddy_tls_config-Secured}
use caddy_bifrost.Runtime.Making.{
  ServerOptions, ServerOption, apply_server_options, AcceptProvider, custom_provider,
  static_provider, ServerError, NewServer, new_static, accept_of, server_of,
  new_server_with_tls_config, new_server,
}

-- The provider of a server: the one given, or that of the clients of the endpoints.
abbrev pub provider_for : Option ℕ → ServerConfig → AcceptProvider
provider_for (some provider) cfg = custom_provider provider
provider_for none cfg = static_provider (map client_of cfg.connector.endpoints)

abbrev pub made_server : ServerConfig → TlsConfig → ServerOptions → NewServer
made_server cfg tls opts =
    let n = normalize_server cfg in
    record {
      cfg = n;
      tls_config = tls;
      accept_provider = provider_for opts.accept_provider n;
      observer = opts.observer;
      latency = opts.passive_latency_observer;
    }

tls_ok :
    (r : Result TlsError TlsConfig) (t : TlsConfig)
    → map_err ServerError.tls_failed r ≡ ok t
    → r ≡ ok t
tls_ok (ok x) t h = cc
tls_ok (err e) t h = cc

module _ (new_static_accept_provider : List StaticClient → Option Text) where
  accept-of_valid :
      (o : Option ℕ) (cfg : ServerConfig)
      → ServerValid new_static_accept_provider (is_some o) cfg
      → accept_of new_static_accept_provider o cfg ≡ ok (provider_for o cfg)
  unfolding accept_of accept_clients new_static
  accept-of_valid (some provider) cfg v = refl
  accept-of_valid none cfg v =
      ground (arith, v.accepted, static_clients-of_valid new_static_accept_provider cfg v.endpoints)

  server-of_valid :
      (cfg : ServerConfig) (tls : TlsConfig) (opts : ServerOptions)
      → ServerValid new_static_accept_provider (is_some opts.accept_provider) (normalize_server cfg)
      → server_of new_static_accept_provider (some cfg) tls opts ≡ ok (made_server cfg tls opts)
  unfolding server_of validate_with_provider
  server-of_valid cfg tls opts v =
      rw
        (
          (check_server_iff new_static_accept_provider (is_some opts.accept_provider)
                (normalize_server cfg)).1
              v,
          accept-of_valid opts.accept_provider (normalize_server cfg) v,
        )
        refl

  server_of_sound :
      (cfg : ServerConfig) (tls : TlsConfig) (opts : ServerOptions) (s : NewServer)
      → server_of new_static_accept_provider (some cfg) tls opts ≡ ok s
      → ServerValid new_static_accept_provider (is_some opts.accept_provider) (normalize_server cfg)
  unfolding server_of validate_with_provider
  server_of_sound cfg tls opts s h =
      let custom = is_some opts.accept_provider in
      let n = normalize_server cfg in
      let checks =
        map_err ServerError.server_invalid (check_server new_static_accept_provider custom n) in
      let (u, checked, rest) = bound_ok checks _ h in
      (check_server_iff new_static_accept_provider custom n).0 (ground arith)

  -- A server runtime that was made from a configuration: normalised, valid, with the certificate's
  -- name and the tunnel's protocol in its TLS configuration, and with the provider and the observers
  -- that the options say.
  pub record MadeFrom (host : TlsHost) (cfg : ServerConfig) (opts : ServerOptions) (s : NewServer)
      : Type 0 where
    pub valid :
        ServerValid new_static_accept_provider (is_some opts.accept_provider) (normalize_server cfg)
    pub secured : Secured host cfg.connector.tls_subject s.tls_config
    pub made : s ≡ made_server cfg s.tls_config opts

  -- `NewServer` succeeds for a valid configuration that Caddy has a certificate for.
  pub new_server_complete :
      (host : TlsHost) (cfg : ServerConfig) (options : List (Option ServerOption)) (tls : TlsConfig)
      → (caddy_tls_config host cfg.connector.tls_subject).1 ≡ ok tls
      → ServerValid new_static_accept_provider
          (is_some (apply_server_options options).accept_provider)
          (normalize_server cfg)
      → new_server new_static_accept_provider host (some cfg) options
        ≡ ok (made_server cfg tls (apply_server_options options))
  unfolding new_server new_server_with_tls_config
  new_server_complete host cfg options tls secured v =
      rw (secured, server-of_valid cfg tls (apply_server_options options) v) refl

  -- What `NewServer` returns is made from the configuration that it was given.
  pub new_server-MadeFrom :
      (host : TlsHost) (o : Option ServerConfig) (options : List (Option ServerOption))
      (s : NewServer)
      → new_server new_static_accept_provider host o options ≡ ok s
      → (cfg : ServerConfig) × (o ≡ some cfg) × MadeFrom host cfg (apply_server_options options) s
  unfolding new_server new_server_with_tls_config
  new_server-MadeFrom host none options s h = cc
  new_server-MadeFrom host (some cfg) options s h =
      let opts = apply_server_options options in
      let (tls, got, rest) =
        bound_ok
          (map_err ServerError.tls_failed (caddy_tls_config host cfg.connector.tls_subject).1) _
          h in
      let v = server_of_sound cfg tls opts s rest in
      let same : made_server cfg tls opts ≡ s = cc (sym (server-of_valid cfg tls opts v) ∙ rest) in
      subst (λ t. (c : ServerConfig) × (some cfg ≡ some c) × MadeFrom host c opts t) same
        (
          cfg,
          refl,
          record {
            valid = v;
            secured =
                caddy_tls_config-Secured host cfg.connector.tls_subject tls (tls_ok _ tls got);
            made = refl;
          },
        )

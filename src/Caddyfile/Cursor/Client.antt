-- ===== src/Caddyfile/Cursor/Client.antt =====
-- The parsers of the client's blocks read their lines as the schemas do.
use caddy_bifrost.Text.{text, text_eq}
use caddy_bifrost.Caddyfile.{Dispenser, wrong_args, connect_unsupported, client_tls_moved}
use caddy_bifrost.Caddyfile.Client.{tls_line, client_line, parse_client_tls}
use caddy_bifrost.Caddyfile.Schema.Blocks.{tls_schema, client_schema}
use caddy_bifrost.Caddyfile.Cursor.{Cursor}
use caddy_bifrost.Caddyfile.Cursor.Loop.{Implements, if-Agrees}
use caddy_bifrost.Caddyfile.Cursor.Forms.{text_line, flag_line, refused_line, same_block_line}

module _ {D : Type 0} (o : Dispenser D) (c : Cursor o) where
  pub tls_line-Implements : Implements o c (tls_line o) tls_schema
  unfolding tls_line
  tls_line-Implements fuel d name args body outer s at enough shape = rw (c.current at) (
      if-Agrees o c (text_eq name (text "ca_file")) shape
        (λ h. text_line o c d name args body outer s at _ h)
        λ shape.
          (if-Agrees o c (text_eq name (text "server_name")) shape
            (λ h. text_line o c d name args body outer s at _ h)
            λ shape.
              (if-Agrees o c (text_eq name (text "insecure_skip_verify")) shape
                (λ h. flag_line o c d name args body outer s at _ h)
                λ shape. refused_line o c d name args body outer s at wrong_args)))

  pub client_line-Implements : Implements o c (client_line o) client_schema
  unfolding client_line parse_client_tls
  client_line-Implements fuel d name args body outer s at enough shape = rw (c.current at) (
      if-Agrees o c (text_eq name (text "connect")) shape
        (λ h. refused_line o c d name args body outer s at connect_unsupported)
        λ shape.
          (if-Agrees o c (text_eq name (text "token")) shape
            (λ h. text_line o c d name args body outer s at _ h)
            λ shape.
              (if-Agrees o c (text_eq name (text "forward")) shape
                (λ h. text_line o c d name args body outer s at _ h)
                λ shape.
                  (if-Agrees o c (text_eq name (text "tls")) shape
                    (λ h.
                      same_block_line o c d name args body outer s at (tls_line o) tls_schema fuel
                        tls_line-Implements enough h)
                    λ shape.
                      (if-Agrees o c (text_eq name (text "tls_ca_file")) shape
                        (λ h. refused_line o c d name args body outer s at client_tls_moved)
                        λ shape.
                          (if-Agrees o c (text_eq name (text "tls_server_name")) shape
                            (λ h. refused_line o c d name args body outer s at client_tls_moved)
                            λ shape.
                              (if-Agrees o c (text_eq name (text "tls_insecure_skip_verify")) shape
                                (λ h. refused_line o c d name args body outer s at client_tls_moved)
                                λ shape.
                                  refused_line o c d name args body outer s at wrong_args)))))))

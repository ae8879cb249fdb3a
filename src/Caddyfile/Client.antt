-- ===== src/Caddyfile/Client.antt =====
-- internal/caddyfile/app.go: the parsers of the client block.
use caddy_bifrost.Base.{ℕ, true, if◌then◌else◌, ok, err}
use caddy_bifrost.Text.{text, text_eq}
use caddy_bifrost.Config.{ClientConfig}
use caddy_bifrost.Caddyfile.{
  Dispenser, Filled, fill, unless_arg, each_line, single_arg, wrong_args, connect_unsupported,
  client_tls_moved,
}

module _ {D : Type 0} (o : Dispenser D) where
  unfoldable pub tls_line : ℕ → D → ClientConfig → Filled D ClientConfig
  tls_line fuel d c =
      if text_eq (o.val d) (text "ca_file")
      then fill (single_arg o d) (λ v c. record c { tls_ca_file = v }) c
      else if text_eq (o.val d) (text "server_name")
      then fill (single_arg o d) (λ v c. record c { tls_server_name = v }) c
      else if text_eq (o.val d) (text "insecure_skip_verify")
      then unless_arg (o.next_arg d)
          (λ d c. (d, record c { tls_insecure_skip_verify = true }, ok tt)) c
      else (d, c, err wrong_args)

  -- `parseClientTLS`.
  unfoldable pub parse_client_tls : ℕ → ℕ → D → ClientConfig → Filled D ClientConfig
  unfolding tls_line
  parse_client_tls fuel nesting d c = each_line o fuel tls_line nesting d c

  unfoldable pub client_line : ℕ → D → ClientConfig → Filled D ClientConfig
  client_line fuel d c =
      if text_eq (o.val d) (text "connect")
      then (d, c, err connect_unsupported)
      else if text_eq (o.val d) (text "token")
      then fill (single_arg o d) (λ v c. record c { token = v }) c
      else if text_eq (o.val d) (text "forward")
      then fill (single_arg o d) (λ v c. record c { forward = v }) c
      else if text_eq (o.val d) (text "tls")
      then unless_arg (o.next_arg d) (λ d c. parse_client_tls fuel (o.nesting d) d c) c
      else if text_eq (o.val d) (text "tls_ca_file")
      then (d, c, err client_tls_moved)
      else if text_eq (o.val d) (text "tls_server_name")
      then (d, c, err client_tls_moved)
      else if text_eq (o.val d) (text "tls_insecure_skip_verify")
      then (d, c, err client_tls_moved)
      else (d, c, err wrong_args)

  -- `parseClientBody`.
  unfoldable pub parse_client_body : ℕ → ℕ → D → ClientConfig → Filled D ClientConfig
  unfolding client_line
  parse_client_body fuel nesting d c = each_line o fuel client_line nesting d c

-- ===== src/Caddyfile/Ending/Client.antt =====
-- The parsers of the client block and the loop over segments end on every input.
use caddy_bifrost.Base.{ℕ, zero, suc, ◌<◌, arith}
use caddy_bifrost.Text.{text, text_eq}
use caddy_bifrost.Caddyfile.{
  Dispenser, Filled, wrong_args, connect_unsupported, client_tls_moved, single_arg,
}
use caddy_bifrost.Caddyfile.Client.{tls_line, parse_client_tls, client_line, parse_client_body}
use caddy_bifrost.Caddyfile.App.{new_client_config, each_segment, parse_client_case}
use caddy_bifrost.Caddyfile.Ending.{
  Progress, Ends, Gives, HandlerEnds, stop_Ends, done_Ends, done_Gives, if-Ends, fill-Ends,
  value_of-Gives, and_then-Gives, unless_arg-Ends, single_arg-Gives, block_Ends, round_Ends,
}

module _ {D : Type 0} (o : Dispenser D) (m : Progress o) where
  open m use {left}

  tls_line-Ends : HandlerEnds o m (tls_line o)
  unfolding tls_line
  tls_line-Ends fuel d s v at enough = rw at (
      (if-Ends o m (text_eq v (text "ca_file"))
        (fill-Ends o m d (single_arg o d) _ s (single_arg-Gives o m d))
        (if-Ends o m (text_eq v (text "server_name"))
          (fill-Ends o m d (single_arg o d) _ s (single_arg-Gives o m d))
          (if-Ends o m (text_eq v (text "insecure_skip_verify"))
            (unless_arg-Ends o m d _ s λ d' h. done_Ends o m d' _ _ (omega arith))
            (stop_Ends o m d s wrong_args (λ h. cc))))))

  client_line-Ends : HandlerEnds o m (client_line o)
  unfolding client_line parse_client_tls
  client_line-Ends fuel d s v at enough = rw at (
      (if-Ends o m (text_eq v (text "connect")) (stop_Ends o m d s connect_unsupported (λ h. cc)) (
        if-Ends o m (text_eq v (text "token"))
          (fill-Ends o m d (single_arg o d) _ s (single_arg-Gives o m d))
          (if-Ends o m (text_eq v (text "forward"))
            (fill-Ends o m d (single_arg o d) _ s (single_arg-Gives o m d))
            (if-Ends o m (text_eq v (text "tls"))
              (unless_arg-Ends o m d _ s
                λ d' h. block_Ends o m (tls_line o) tls_line-Ends fuel d' s (omega arith))
              (if-Ends o m (text_eq v (text "tls_ca_file"))
                (stop_Ends o m d s client_tls_moved (λ h. cc))
                (if-Ends o m (text_eq v (text "tls_server_name"))
                  (stop_Ends o m d s client_tls_moved (λ h. cc))
                  (if-Ends o m (text_eq v (text "tls_insecure_skip_verify"))
                    (stop_Ends o m d s client_tls_moved (λ h. cc))
                    (stop_Ends o m d s wrong_args (λ h. cc))))))))))

  -- One block behind a name, and the loop over segments.
  pub client_case-Gives :
      (fuel : ℕ) (d : D) → left d < fuel → Gives o m d (parse_client_case o fuel d)
  unfolding parse_client_case parse_client_body
  client_case-Gives fuel d enough =
      and_then-Gives o m d (single_arg o d) _ (single_arg-Gives o m d) λ connect d h.
        and_then-Gives o m d _ _
          (value_of-Gives o m d _ (
            block_Ends o m (client_line o) client_line-Ends fuel d (new_client_config connect)
              (omega arith)))
          λ cfg d' h'. done_Gives o m d' d' _ (omega arith)

  pub each_segment-Ends :
      {S : Type 0} (body : ℕ → D → S → Filled D S)
      → HandlerEnds o m body
      → (fuel : ℕ) (d : D) (s : S) → left d < fuel
      → Ends o m d (each_segment o fuel body d s)
  unfolding each_segment
  each_segment-Ends body ends zero d s enough = absurd (omega arith)
  each_segment-Ends body ends (suc fuel) d s enough =
      round_Ends o m body ends fuel d (o.next d) (each_segment o fuel body) s enough (m.next_on d)
        (m.next_reads d) λ d s h. each_segment-Ends body ends fuel d s h

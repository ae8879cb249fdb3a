-- ===== src/Caddyfile/Cursor/App.antt =====
-- The parsers of whole blocks against their schemas.
use caddy_bifrost.Base.{
  ℕ, suc, ◌<◌, ◌≡◌, ◌∙◌, refl, ap, List, [], ◌∷◌, arith, ok, err, none, some, pos, Bool, ◌||◌,
  is_some, zero,
}
use caddy_bifrost.Text.{Text, text, text_eq}
use caddy_bifrost.Config.Server.{normalize_server}
use caddy_bifrost.Config.Client.{normalize_client}
use caddy_bifrost.Caddyfile.{
  Dispenser, Numbers, Filled, value_of, unless_arg, after_line, each_line, single_duration,
  wrong_args, exactly_one_runtime, transport_endpoint_unsupported,
}
use caddy_bifrost.Caddyfile.Tree.{Lines, weight}
use caddy_bifrost.Caddyfile.Server.{server_line, parse_server_body}
use caddy_bifrost.Caddyfile.Client.{client_line, parse_client_body}
use caddy_bifrost.Caddyfile.App.{
  Runtimes, new_server_config, new_client_config, each_segment, parse_client_case,
  parse_server_case, app_line, app_segment, parse_app, transport_line, transport_segment,
  parse_transport,
}
use caddy_bifrost.Caddyfile.Schema.{Outcome, Schema, Shaped, read_lines, result_of, with_none}
use caddy_bifrost.Caddyfile.Schema.Blocks.{
  server_schema, client_schema, app_schema, transport_schema, read_server, read_client,
}
use caddy_bifrost.Caddyfile.Cursor.{Cursor, Done, Agrees}
use caddy_bifrost.Caddyfile.Cursor.Loop.{Implements, if-Agrees, block-Agrees}
use caddy_bifrost.Caddyfile.Cursor.Forms.{
  text_line, number_line, refused_line, mapped-Returns, body-Returns, exclusive_line,
}
use caddy_bifrost.Caddyfile.Cursor.Server.{server_line-Implements}
use caddy_bifrost.Caddyfile.Cursor.Client.{client_line-Implements}

abbrev taken : Runtimes → Bool
taken s = is_some s.0 || is_some s.1

-- The body of the outer loop: no argument, and the block.
abbrev block_body : {D S : Type 0} → Dispenser D → (ℕ → D → S → Filled D S) → ℕ → D → S → Filled D S
block_body o handle fuel d s =
    unless_arg (o.next_arg d) (λ d s. each_line o fuel handle (o.nesting d) d s) s

module _ {D : Type 0} (o : Dispenser D) (c : Cursor o) where
  open c use {At, Fresh}

  after_block :
      {S : Type 0} (p : Filled D S) (q : Outcome S) (rest : D → S → Filled D S)
      → Agrees o c [] p q
      → ((d : D) (s : S) → Done o c [] d → ((rest d s).1 ≡ s) × ((rest d s).2 ≡ ok tt))
      → (value_of (after_line p rest)).1 ≡ result_of q
  after_block (d, s, ok w) (s', ok u) rest h ends =
      let (kept, fine) = ends d s (h.done refl) in ended (rest d s) kept fine ∙ ap ok h.same
    where
      ended : {S : Type 0} {s : S} (p : Filled D S) → p.1 ≡ s → p.2 ≡ ok tt → (value_of p).1 ≡ ok s
      ended (d, s, ok w) kept fine = ap ok kept
      ended (d, s, err e) kept fine = absurd (cc)
  after_block (d, s, err e) (s', ok u) rest h ends = absurd (cc (h.result))
  after_block (d, s, ok w) (s', err e) rest h ends = absurd (cc (h.result))
  after_block (d, s, err e') (s', err e) rest h ends = cc (h.result)

  last_segment :
      {S : Type 0} (fuel : ℕ) (body : ℕ → D → S → Filled D S) (d : D) (s : S)
      → Done o c [] d
      → ((each_segment o (suc fuel) body d s).1 ≡ s)
        × ((each_segment o (suc fuel) body d s).2 ≡ ok tt)
  unfolding each_segment
  last_segment fuel body d s (v, at) = let (end, after) = c.finish at in (rw end, rw end)

  -- A segment that is one line whose block the loop over lines reads.
  segment :
      {S : Type 0} (handle : ℕ → D → S → Filled D S) (schema : Schema S)
      → Implements o c handle schema
      → (fuel : ℕ) (d : D) (name : Text) (args : List Text) (body : Lines) (s : S)
      → Fresh d name args body
      → suc (weight body) < fuel
      → Shaped schema body
      → (value_of (each_segment o fuel (block_body o handle) d s)).1
        ≡ with_none args (result_of (read_lines schema body s)) (err wrong_args)
  unfolding each_segment
  segment handle schema implements zero d name args body s fresh enough shape = absurd (omega arith)
  segment handle schema implements (suc zero) d name args body s fresh enough shape =
      absurd (omega arith)
  segment handle schema implements (suc (suc fuel)) d name [] body s fresh enough shape =
      let (found, at) = c.begin fresh in
      let (bare, at') = c.no_arg at in
      rw (found, bare, c.depth at')
        (after_block _ (read_lines schema body s) _
          (block-Agrees o c handle schema implements (suc fuel) body [] _ name s at' (omega arith)
            shape)
          (last_segment fuel (block_body o handle)))
  segment handle schema implements (suc (suc fuel)) d name (a ∷ args) body s fresh enough shape =
      let (found, at) = c.begin fresh in let (more, at') = c.arg at in rw (found, more)

module _ {D : Type 0} (o : Dispenser D) (numbers : Numbers) (c : Cursor o) where
  app_line-Implements : Implements o c (app_line o numbers) (app_schema numbers)
  unfolding app_line parse_server_case parse_client_case parse_server_body parse_client_body
      read_server read_client
  app_line-Implements fuel d name args body outer s at enough shape = rw (c.current at) (
      if-Agrees o c (text_eq name (text "server")) shape
        (λ h.
          exclusive_line o c d name args body outer s at (λ cfg s. (some cfg, s.1)) _
            (read_server numbers) (Shaped (server_schema numbers))
            (λ subject d at. mapped-Returns o c outer normalize_server _ _ (
              body-Returns o c (server_line o numbers) (server_schema numbers) fuel body outer d
                subject (new_server_config subject) (server_line-Implements o numbers c) enough h
                at))
            taken exactly_one_runtime)
        λ shape.
          if-Agrees o c (text_eq name (text "client")) shape
            (λ h.
              exclusive_line o c d name args body outer s at (λ cfg s. (s.0, some cfg)) _
                read_client (Shaped client_schema)
                (λ connect d at. mapped-Returns o c outer normalize_client _ _ (
                  body-Returns o c (client_line o) client_schema fuel body outer d connect
                    (new_client_config connect) (client_line-Implements o c) enough h at))
                taken exactly_one_runtime)
            λ h. refused_line o c d name args body outer s at wrong_args)

  transport_line-Implements : Implements o c (transport_line o numbers) (transport_schema numbers)
  unfolding transport_line single_duration
  transport_line-Implements fuel d name args body outer s at enough shape = rw (c.current at) (
      if-Agrees o c (text_eq name (text "endpoint")) shape
        (λ h. refused_line o c d name args body outer s at transport_endpoint_unsupported)
        λ shape.
          if-Agrees o c (text_eq name (text "app")) shape
            (λ h. text_line o c d name args body outer s at _ h)
            λ shape.
              if-Agrees o c (text_eq name (text "dial_timeout")) shape
                (λ h. number_line o c d name args body outer s at _ _ _ h)
                λ h. refused_line o c d name args body outer s at wrong_args)

  -- On a cursor as Caddy documents it, in front of a block of the app, `bifrost { … }`, in which only
  -- directives that take a block have one, and with more fuel than the block has lines and one, the
  -- parser returns what the schema says of the written lines: the runtime, in normal form, with its
  -- settings as they are written, or the error of the first line that is wrong.
  pub parse_app-read_lines :
      (fuel : ℕ) (d : D) (name : Text) (args : List Text) (body : Lines)
      → c.Fresh d name args body
      → suc (weight body) < fuel
      → Shaped (app_schema numbers) body
      → (parse_app o numbers fuel d).1
        ≡ with_none args
            (result_of (read_lines (app_schema numbers) body (none, none)))
            (err wrong_args)
  unfolding parse_app app_segment
  parse_app-read_lines fuel d name args body fresh enough shape =
      segment o c (app_line o numbers) (app_schema numbers) app_line-Implements fuel d name args
        body (none, none) fresh enough shape

  -- On a cursor as Caddy documents it, in front of a block of the transport, `bifrost { … }`, in which
  -- only directives that take a block have one, and with more fuel than the block has lines and one,
  -- the parser returns what the schema says of the written lines.
  pub parse_transport-read_lines :
      (fuel : ℕ) (d : D) (name : Text) (args : List Text) (body : Lines)
      → c.Fresh d name args body
      → suc (weight body) < fuel
      → Shaped (transport_schema numbers) body
      → (parse_transport o numbers fuel d).1
        ≡ with_none args
            (result_of (
              read_lines
                (transport_schema numbers)
                body
                (record { app = []; dial_timeout = pos 0 })))
            (err wrong_args)
  unfolding parse_transport transport_segment
  parse_transport-read_lines fuel d name args body fresh enough shape =
      segment o c (transport_line o numbers) (transport_schema numbers) transport_line-Implements
        fuel d name args body (record { app = []; dial_timeout = pos 0 }) fresh enough shape

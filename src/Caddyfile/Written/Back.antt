-- ===== src/Caddyfile/Written/Back.antt =====
-- What is written out reads back.
use caddy_bifrost.Base.{◌≡◌, refl, ap, ◌∙◌, none, some, List, [], ◌∷◌, ◌++◌, ok, All}
use mathlib.Core.List.{append-nil, append_assoc}
use caddy_bifrost.Text.{text, text_eq}
use caddy_bifrost.Config.{EndpointLimits, Endpoint, Guardrails, Runtime, ServerConfig}
use caddy_bifrost.Config.Server.{normalize_server}
use caddy_bifrost.Caddyfile.{Numbers}
use caddy_bifrost.Caddyfile.Tree.{Lines, nil}
use caddy_bifrost.Caddyfile.Server.{no_limits, set_connector, add_endpoint}
use caddy_bifrost.Caddyfile.App.{no_guardrails, no_runtime, new_server_config}
use caddy_bifrost.Caddyfile.Schema.{read_lines, mapped, Shaped, result_of}
use caddy_bifrost.Caddyfile.Schema.Blocks.{
  limits_schema, guardrails_schema, runtime_schema, server_schema, app_schema, read_endpoint,
  read_server,
}
use caddy_bifrost.Caddyfile.Written.{
  Written, inner, limits_lines, endpoint_lines, guardrails_lines, runtime_lines, endpoints_lines,
  server_lines, app_lines, LimitsRead, EndpointRead, GuardrailsRead, RuntimeRead, ServerRead,
}

module _ (w : Written) (numbers : Numbers) where
  limits_back :
      (l : EndpointLimits)
      → LimitsRead w numbers l
      → read_lines (limits_schema numbers) (limits_lines w l) no_limits ≡ (l, ok tt)
  unfolding read_lines text_eq
  limits_back l h = rw (h.streams, h.bandwidth, h.idle) refl

  endpoint_back :
      (e : Endpoint)
      → EndpointRead w numbers e
      → read_endpoint numbers e.key (endpoint_lines w e) ≡ ok e
  unfolding read_endpoint read_lines text_eq
  endpoint_back e h = rw (h.parallel, h.limits.streams, h.limits.bandwidth, h.limits.idle) refl

  guardrails_back :
      (g : Guardrails)
      → GuardrailsRead w numbers g
      → read_lines (guardrails_schema numbers) (guardrails_lines w g) no_guardrails ≡ (g, ok tt)
  unfolding read_lines text_eq
  guardrails_back g h =
      rw (h.sessions, h.streams, h.bandwidth, h.least_idle, h.most_idle, h.headers, h.header_bytes)
        refl

  runtime_back :
      (r : Runtime)
      → RuntimeRead w numbers r
      → read_lines (runtime_schema numbers) (runtime_lines w r) no_runtime ≡ (r, ok tt)
  unfolding read_lines text_eq
  runtime_back r h = rw (h.handshake, h.buffer, h.interval, h.timeout) refl

  -- The endpoints on top of those that are there.
  abbrev with_endpoints : List Endpoint → ServerConfig → ServerConfig
  with_endpoints [] s = s
  with_endpoints (e ∷ es) s = with_endpoints es (add_endpoint e s)

  endpoints_back :
      (es : List Endpoint) (rest : Lines) (s : ServerConfig)
      → All (EndpointRead w numbers) es
      → read_lines (server_schema numbers) (endpoints_lines w es rest) s
        ≡ read_lines (server_schema numbers) rest (with_endpoints es s)
  unfolding read_lines text_eq
  endpoints_back [] rest s h = refl
  endpoints_back (e ∷ es) rest s (he, h) =
      rw (endpoint_back e he) (endpoints_back es rest (add_endpoint e s) h)

  appended :
      (es : List Endpoint) (s : ServerConfig)
      → with_endpoints es s
        ≡ record s { connector = record s.connector { endpoints = s.connector.endpoints ++ es } }
  appended [] s = rw (append-nil s.connector.endpoints) refl
  appended (e ∷ es) s =
      appended es (add_endpoint e s)
      ∙ ap
          (λ (all : List Endpoint). record s { connector = record s.connector { endpoints = all } })
          (append_assoc s.connector.endpoints (e ∷ []) es)

  -- The last two blocks.
  abbrev sections_of : ServerConfig → Lines
  sections_of s =
      inner (text "guardrails") (guardrails_lines w s.guardrails)
        (inner (text "runtime") (runtime_lines w s.runtime) nil)

  sections_back :
      (s t : ServerConfig)
      → GuardrailsRead w numbers s.guardrails
      → RuntimeRead w numbers s.runtime
      → t.guardrails ≡ no_guardrails
      → t.runtime ≡ no_runtime
      → read_lines (server_schema numbers) (sections_of s) t
        ≡ (record t { guardrails = s.guardrails; runtime = s.runtime }, ok tt)
  unfolding read_lines text_eq
  sections_back s t hg hr no_g no_r =
      rw (no_g, no_r, guardrails_back s.guardrails hg, runtime_back s.runtime hr) refl

  lines_back :
      (s : ServerConfig)
      → ServerRead w numbers s
      → read_lines
          (server_schema numbers)
          (server_lines w s)
          (new_server_config s.connector.tls_subject)
        ≡ (s, ok tt)
  unfolding read_lines text_eq
  lines_back s h =
      let start : ServerConfig =
        set_connector (λ c. record c { listen = s.connector.listen })
          (new_server_config s.connector.tls_subject) in
      let es = s.connector.endpoints in
      endpoints_back es (sections_of s) start h.endpoints
      ∙ ap (read_lines (server_schema numbers) (sections_of s)) (appended es start)
      ∙ sections_back s (record start { connector = s.connector }) h.guardrails h.runtime refl refl

  server_back :
      (s : ServerConfig)
      → ServerRead w numbers s
      → read_server numbers s.connector.tls_subject (server_lines w s) ≡ ok (normalize_server s)
  unfolding read_server
  server_back s h = ap (λ q. mapped normalize_server (result_of q)) (lines_back s h)

  pub app_back :
      (s : ServerConfig)
      → ServerRead w numbers s
      → result_of (read_lines (app_schema numbers) (app_lines w s) (none, none))
        ≡ ok (some (normalize_server s), none)
  unfolding read_lines text_eq
  app_back s h = rw (server_back s h) refl

  endpoints-Shaped :
      (es : List Endpoint) (rest : Lines)
      → Shaped (server_schema numbers) rest
      → Shaped (server_schema numbers) (endpoints_lines w es rest)
  unfolding text_eq
  endpoints-Shaped [] rest h = h
  endpoints-Shaped (e ∷ es) rest h =
      ((tt, (tt, (tt, ((tt, (tt, (tt, tt))), tt)))), endpoints-Shaped es rest h)

  pub app_lines-Shaped : (s : ServerConfig) → Shaped (app_schema numbers) (app_lines w s)
  unfolding text_eq
  app_lines-Shaped s = (
    (
      tt,
      endpoints-Shaped s.connector.endpoints (sections_of s)
          ((tt, (tt, (tt, (tt, (tt, (tt, (tt, tt))))))), ((tt, (tt, (tt, (tt, tt)))), tt)),
    ),
    tt,
  )

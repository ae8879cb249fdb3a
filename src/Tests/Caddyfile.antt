-- ===== src/Tests/Caddyfile.antt =====
-- Tests of the Caddyfile parsers, on cursors over written lines and over plain tokens.
use caddy_bifrost.Base.{
  ◌≤◌, ◌<◌, ◌≡◌, refl, ◌≢◌, ◌∙◌, Bool, true, false, List, [], ◌∷◌, arith, length, none, some, ok,
  err, pos,
}
use caddy_bifrost.Text.{Text, text, text_eq}
use caddy_bifrost.Caddyfile.{Dispenser, out_of_fuel}
use caddy_bifrost.Caddyfile.Tree.{Lines, line, nil, cons}
use caddy_bifrost.Caddyfile.Schema.{Shaped, read_lines, result_of}
use caddy_bifrost.Caddyfile.Schema.Blocks.{app_schema, transport_schema, read_client}
use caddy_bifrost.Caddyfile.App.{new_client_config, parse_app, parse_transport}
use caddy_bifrost.Caddyfile.Cursor.App.{parse_app-read_lines, parse_transport-read_lines}
use caddy_bifrost.Caddyfile.Ending.{Progress}
use caddy_bifrost.Caddyfile.Ending.Blocks.{parsers_end}
use caddy_bifrost.Config.{ClientConfig}
use caddy_bifrost.Config.Client.{normalize_client}
use caddy_bifrost.Caddyfile.Keeping.{IsParsed, parse_app-IsParsed}
use caddy_bifrost.Tests.Spots.{spots, spot_cursor, decimals, in_front}

abbrev word_line : Text → Text → Lines → Lines
word_line name arg ls = cons (line name (arg ∷ []) nil) ls

abbrev endpoint_block : Lines
endpoint_block = word_line (text "token") (text "secret") (
    word_line (text "max_parallel") (text "4")
      (cons (line (text "limits") [] (word_line (text "max_streams") (text "20") nil)) nil))

abbrev server_block : Lines
server_block = word_line (text "listen") (text ":8443") (
    cons (line (text "endpoint") (text "home" ∷ []) endpoint_block)
      (cons (line (text "guardrails") [] (word_line (text "max_sessions") (text "3") nil)) nil))

abbrev app_block : Lines
app_block = cons (line (text "server") (text "tunnel.example.com" ∷ []) server_block) nil

app_block-Shaped : Shaped (app_schema decimals) app_block
unfolding text_eq
app_block-Shaped = (((tt, ((tt, (tt, ((tt, tt), tt))), ((tt, tt), tt)))), tt)

parse_app-read_lines_example :
    (parse_app spots decimals 40 (in_front (text "bifrost") app_block)).1
    ≡ result_of (read_lines (app_schema decimals) app_block (none, none))
parse_app-read_lines_example =
    parse_app-read_lines spots decimals spot_cursor 40 (in_front (text "bifrost") app_block)
      (text "bifrost") [] app_block refl (omega arith) app_block-Shaped

abbrev transport_block : Lines
transport_block =
    word_line (text "app") (text "edge") (word_line (text "dial_timeout") (text "5000") nil)

transport_block-Shaped : Shaped (transport_schema decimals) transport_block
unfolding text_eq
transport_block-Shaped = (tt, (tt, tt))

parse_transport-read_lines_run :
    (parse_transport spots decimals 10 (in_front (text "bifrost") transport_block)).1
    ≡ result_of (
        read_lines
          (transport_schema decimals)
          transport_block
          (record { app = []; dial_timeout = pos 0 }))
parse_transport-read_lines_run =
    parse_transport-read_lines spots decimals spot_cursor 10
      (in_front (text "bifrost") transport_block) (text "bifrost") [] transport_block refl
      (omega arith) transport_block-Shaped

transport_parsed :
    (parse_transport spots decimals 10 (in_front (text "bifrost") transport_block)).1
    ≡ ok (record { app = text "edge"; dial_timeout = pos 5000 })
unfolding read_lines text_eq
transport_parsed = parse_transport-read_lines_run ∙ refl

abbrev client_block : Lines
client_block =
    cons (line (text "client") (text "relay:8443" ∷ []) (word_line (text "token") (text "t") nil))
      nil

abbrev read_client_config : ClientConfig
read_client_config =
    normalize_client (record (new_client_config (text "relay:8443")) { token = text "t" })

client_block-Shaped : Shaped (app_schema decimals) client_block
unfolding text_eq
client_block-Shaped = ((tt, tt), tt)

client_parsed :
    (parse_app spots decimals 10 (in_front (text "bifrost") client_block)).1
    ≡ ok (none, some read_client_config)
unfolding read_lines read_client text_eq
client_parsed =
    parse_app-read_lines spots decimals spot_cursor 10 (in_front (text "bifrost") client_block)
      (text "bifrost") [] client_block refl (omega arith) client_block-Shaped
    ∙ refl

-- A cursor that takes any token for an argument and for a line.
abbrev pop : List Text → List Text × Bool
pop [] = ([], false)
pop (t ∷ ts) = (ts, true)

abbrev peek : List Text → Text
peek [] = []
peek (t ∷ ts) = t

abbrev tokens : Dispenser (List Text)
tokens = record {
  next = pop;
  next_arg = pop;
  next_block = λ n ts. pop ts;
  val = peek;
  nesting = λ ts. 0;
}

pop-length : (ts : List Text) → length (pop ts).0 ≤ length ts
pop-length [] = omega arith
pop-length (t ∷ ts) = omega arith

pop-reads : (ts : List Text) → (pop ts).1 ≡ true → length (pop ts).0 < length ts
pop-reads [] h = cc
pop-reads (t ∷ ts) h = omega arith

abbrev token_progress : Progress tokens
token_progress = record {
  left = length;
  arg_on = pop-length;
  next_on = pop-length;
  next_reads = pop-reads;
  block_on = λ n. pop-length;
  block_reads = λ n. pop-reads;
}

abbrev loose : List Text
loose = text "bifrost" ∷ text "{" ∷ text "server" ∷ text "}" ∷ []

parsers_end_example :
    ((parse_app tokens decimals 5 loose).1 ≢ err out_of_fuel)
    × ((parse_transport tokens decimals 5 loose).1 ≢ err out_of_fuel)
parsers_end_example = parsers_end tokens decimals token_progress 5 loose (omega arith)

parse_app-IsParsed_example : IsParsed (none, some read_client_config)
parse_app-IsParsed_example =
    parse_app-IsParsed spots decimals 10 (in_front (text "bifrost") client_block)
      (none, some read_client_config) client_parsed

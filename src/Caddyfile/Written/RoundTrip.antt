-- ===== src/Caddyfile/Written/RoundTrip.antt =====
-- A configuration that is written out and parsed.
use caddy_bifrost.Base.{ℕ, suc, ◌<◌, ◌≡◌, ◌∙◌, some, none, [], ok}
use caddy_bifrost.Text.{Text}
use caddy_bifrost.Config.{ServerConfig}
use caddy_bifrost.Config.Server.{normalize_server}
use caddy_bifrost.Caddyfile.{Dispenser, Numbers}
use caddy_bifrost.Caddyfile.Tree.{weight}
use caddy_bifrost.Caddyfile.App.{parse_app}
use caddy_bifrost.Caddyfile.Cursor.{Cursor}
use caddy_bifrost.Caddyfile.Cursor.App.{parse_app-read_lines}
use caddy_bifrost.Caddyfile.Written.{Written, app_lines, ServerRead}
use caddy_bifrost.Caddyfile.Written.Back.{app_back, app_lines-Shaped}

module _ {D : Type 0} (o : Dispenser D) (c : Cursor o) (numbers : Numbers) (w : Written) where
  -- A server's configuration that is written out as an app block, with texts for its numbers that
  -- read back as these numbers, parses to itself in normal form, on a cursor as Caddy documents it in
  -- front of the block and with more fuel than the block has lines and one.
  pub parse_app-app_lines :
      (fuel : ℕ) (d : D) (name : Text) (s : ServerConfig)
      → c.Fresh d name [] (app_lines w s)
      → suc (weight (app_lines w s)) < fuel
      → ServerRead w numbers s
      → (parse_app o numbers fuel d).1 ≡ ok (some (normalize_server s), none)
  parse_app-app_lines fuel d name s fresh enough h =
      parse_app-read_lines o numbers c fuel d name [] (app_lines w s) fresh enough
        (app_lines-Shaped w numbers s)
      ∙ app_back w numbers s h

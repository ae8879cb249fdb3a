-- ===== src/Tests/Written.antt =====
-- Tests of configurations that are written out.
use caddy_bifrost.Base.{◌+◌, ◌≡◌, refl, arith, none, some, [], ◌∷◌, ok, ℤ, pos, pos_part}
use caddy_bifrost.Text.{Text, text}
use caddy_bifrost.Config.{ServerConfig}
use caddy_bifrost.Config.Server.{normalize_server}
use caddy_bifrost.Caddyfile.App.{parse_app}
use caddy_bifrost.Caddyfile.Written.{Written, app_lines, ServerRead}
use caddy_bifrost.Caddyfile.Written.RoundTrip.{parse_app-app_lines}
use caddy_bifrost.Tests.Config.{home_endpoint, server_with}
use caddy_bifrost.Tests.Spots.{spots, spot_cursor, decimals, in_front}

-- Numbers of one digit.
abbrev digit : ℤ → Text
digit n = (b'0' + pos_part n) ∷ []

abbrev digits : Written
digits = record { integer = digit; long = digit; duration = digit }

abbrev small_server : ServerConfig
small_server =
    let s = server_with (record home_endpoint { max_parallel = pos 4 } ∷ []) in
    record s { guardrails = record s.guardrails { max_sessions = pos 3 } }

small_server-ServerRead : ServerRead digits decimals small_server
small_server-ServerRead = record {
  endpoints = (
    record { parallel = refl; limits = record { streams = refl; bandwidth = refl; idle = refl } },
    tt,
  );
  guardrails = record {
    sessions = refl;
    streams = refl;
    bandwidth = refl;
    least_idle = refl;
    most_idle = refl;
    headers = refl;
    header_bytes = refl;
  };
  runtime = record { handshake = refl; buffer = refl; interval = refl; timeout = refl };
}

parse_app-app_lines_example :
    (parse_app spots decimals 40 (in_front (text "bifrost") (app_lines digits small_server))).1
    ≡ ok (some (normalize_server small_server), none)
parse_app-app_lines_example =
    parse_app-app_lines spots spot_cursor decimals digits 40
      (in_front (text "bifrost") (app_lines digits small_server)) (text "bifrost") small_server refl
      (omega arith) small_server-ServerRead

-- ===== src/Config/Client/Normal.antt =====
-- The normal form of client and transport configurations, and what their checks accept.
use caddy_bifrost.Base.{◌≡◌, refl, ◌↔◌, false, [], ◌∷◌, arith, is_empty, ok}
use caddy_bifrost.Text.{Text, trim_space, trim_left, trim_right, is_space}
use caddy_bifrost.Text.Trim.{IsTrimmed, trim_space-IsTrimmed}
use caddy_bifrost.Config.{ClientConfig, TransportConfig, default_app_name}
use caddy_bifrost.Config.Client.{
  normalize_connect_address, normalize_client, check_client, normalize_transport, app_or_default,
}

-- Normalising a client configuration twice is normalising it once, where that holds of its address.
pub normalize_client_idem :
    (c : ClientConfig)
    → normalize_connect_address (normalize_connect_address c.connect)
      ≡ normalize_connect_address c.connect
    → normalize_client (normalize_client c) ≡ normalize_client c
unfolding normalize_client
normalize_client_idem c h = ground (
  arith,
  trim_space-IsTrimmed c.token,
  trim_space-IsTrimmed c.forward,
  trim_space-IsTrimmed c.tls_ca_file,
  trim_space-IsTrimmed c.tls_server_name,
)

-- The checks of a client configuration ask for an address, a token and a target, each with
-- something other than spaces in it.
pub check_client_iff :
    (c : ClientConfig)
    → (check_client c ≡ ok tt) ↔ (
        (is_empty (trim_space c.connect) ≡ false)
        × (is_empty (trim_space c.token) ≡ false)
        × (is_empty (trim_space c.forward) ≡ false))
unfolding check_client
check_client_iff c = ground arith

default_app-IsTrimmed : IsTrimmed default_app_name
unfolding trim_space trim_left trim_right is_space
default_app-IsTrimmed = refl

app_or_default-IsTrimmed :
    (app : Text)
    → IsTrimmed app
    → (is_empty (app_or_default app) ≡ false) × IsTrimmed (app_or_default app)
unfolding app_or_default
app_or_default-IsTrimmed [] h = (refl, default_app-IsTrimmed)
app_or_default-IsTrimmed (c ∷ app) h = (refl, h)

-- A normalised transport names an app, with no space around the name.
pub normalize_transport-app :
    (t : TransportConfig)
    → (is_empty (normalize_transport t).app ≡ false) × IsTrimmed (normalize_transport t).app
unfolding normalize_transport
normalize_transport-app t = app_or_default-IsTrimmed (trim_space t.app) (trim_space-IsTrimmed t.app)

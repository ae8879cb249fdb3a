-- ===== src/Config/Client/Address.antt =====
-- Which connector address a client dials: the address given, or one with the default port.
use caddy_bifrost.Base.{
  ◌≡◌, refl, ap, ◌∙◌, Bool, true, false, ◌||◌, some, [], if◌then◌else◌, is_empty,
}
use caddy_bifrost.Text.{Text, text, contains, contains_rune}
use caddy_bifrost.Text.Trim.{IsTrimmed}
use caddy_bifrost.Text.Affix.{strip_prefix-none, contains-none, count-none}
use caddy_bifrost.HostPort.{split_host_port, join_host_port}
use caddy_bifrost.HostPort.Laws.{IsHost, IsPort, split-join, split-none, is_empty-join}
use caddy_bifrost.Config.{default_connector_port}
use caddy_bifrost.Config.Client.{
  normalize_connect_address, complete_address, with_port, fill_port, add_port,
}

complete_address-parts :
    (address host port : Text)
    → split_host_port address ≡ some (host, port)
    → is_empty port ≡ false
    → complete_address address ≡ address
unfolding complete_address with_port fill_port
complete_address-parts address host port h p =
    rw (h, p) (if_same (is_empty address || contains address (text "://")) address)
  where
    if_same : (b : Bool) (t : Text) → (if b then t else t) ≡ t
    if_same true t = refl
    if_same false t = refl

-- An address with a host and a port is dialled as it is given.
pub normalize_connect_address_complete :
    (host port : Text)
    → IsHost host
    → IsPort port
    → is_empty port ≡ false
    → IsTrimmed (join_host_port host port)
    → normalize_connect_address (join_host_port host port) ≡ join_host_port host port
unfolding normalize_connect_address
normalize_connect_address_complete host port h p set trimmed =
    ap complete_address trimmed
    ∙ complete_address-parts (join_host_port host port) host port (split-join host port h p) set

-- Without a port the default port is filled in.
pub normalize_connect_address-port_empty :
    (host : Text)
    → IsHost host
    → IsTrimmed (join_host_port host [])
    → contains (join_host_port host []) (text "://") ≡ false
    → normalize_connect_address (join_host_port host [])
      ≡ join_host_port host default_connector_port
unfolding normalize_connect_address complete_address with_port fill_port
normalize_connect_address-port_empty host h trimmed no_scheme =
    rw
      (
        trimmed,
        is_empty-join host [],
        no_scheme,
        split-join host [] h (record { no_colon = refl; no_open = refl; no_close = refl }),
      )
      refl

-- A bare host, with no colon and no bracket, is dialled at the default port.
pub normalize_connect_address-bare :
    (host : Text)
    → IsTrimmed host
    → is_empty host ≡ false
    → contains_rune host b':' ≡ false
    → IsHost host
    → normalize_connect_address host ≡ join_host_port host default_connector_port
unfolding normalize_connect_address complete_address with_port add_port
normalize_connect_address-bare host trimmed set plain h =
    rw
      (
        trimmed,
        set,
        contains-none host (text "//") b':' plain,
        split-none host plain h.no_open,
        strip_prefix-none host [] b'[' h.no_open,
        count-none host b':' plain,
      )
      refl

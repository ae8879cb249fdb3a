-- ===== src/Runtime/Transport/Endpoint.antt =====
-- The endpoint key that an upstream address names.
use caddy_bifrost.Base.{◌≡◌, refl, false, [], arith, is_empty, ok}
use caddy_bifrost.Text.{Text, trim_space, contains_rune}
use caddy_bifrost.Text.Trim.{IsTrimmed, trim_space-IsTrimmed}
use caddy_bifrost.HostPort.{split_host_port, join_host_port}
use caddy_bifrost.HostPort.Laws.{IsHost, IsPort, split-join, split-none, is_empty-join}
use caddy_bifrost.Text.Affix.{strip_prefix-none, count-none}
use caddy_bifrost.Runtime.Transport.{
  endpoint_from_dial_address, trimmed_endpoint, named_endpoint, host_part, unsplit_host,
}

named_endpoint-named :
    (address host key : Text)
    → IsTrimmed host
    → named_endpoint address host ≡ ok key
    → (is_empty key ≡ false) × IsTrimmed key
unfolding named_endpoint
named_endpoint-named address host key t h = ground arith

trimmed_endpoint-named :
    (address key : Text)
    → trimmed_endpoint address ≡ ok key
    → (is_empty key ≡ false) × IsTrimmed key
unfolding trimmed_endpoint
trimmed_endpoint-named address key h =
    named_endpoint-named address (trim_space (host_part address (split_host_port address))) key
      (trim_space-IsTrimmed (host_part address (split_host_port address))) (ground arith)

-- The endpoint of an address is never empty and has no space at either end, whatever the address.
pub endpoint-named :
    (address key : Text)
    → endpoint_from_dial_address address ≡ ok key
    → (is_empty key ≡ false) × IsTrimmed key
unfolding endpoint_from_dial_address
endpoint-named address key h = trimmed_endpoint-named (trim_space address) key h

-- The address of a host and a port names the host.
pub endpoint-join :
    (host port : Text)
    → IsHost host
    → IsPort port
    → is_empty host ≡ false
    → IsTrimmed host
    → IsTrimmed (join_host_port host port)
    → endpoint_from_dial_address (join_host_port host port) ≡ ok host
unfolding endpoint_from_dial_address trimmed_endpoint host_part named_endpoint
endpoint-join host port h p set trimmed whole =
    rw (whole, is_empty-join host port, split-join host port h p, trimmed, set) refl

-- A bare name, with no colon and no bracket, names itself.
pub endpoint-bare :
    (host : Text)
    → IsTrimmed host
    → is_empty host ≡ false
    → contains_rune host b':' ≡ false
    → IsHost host
    → endpoint_from_dial_address host ≡ ok host
unfolding endpoint_from_dial_address trimmed_endpoint host_part unsplit_host named_endpoint
endpoint-bare host trimmed set plain h =
    rw
      (
        trimmed,
        set,
        split-none host plain h.no_open,
        strip_prefix-none host [] b'[' h.no_open,
        count-none host b':' plain,
        trimmed,
        set,
      )
      refl

-- ===== src/Runtime/Transport.antt =====
-- internal/runtime/transport.go: the transport that opens a stream to the endpoint that an upstream
-- address names. Opening a stream (`bifrost.Server.OpenStream`) and the round trip of Go's
-- `http.Transport` belong to other libraries and are parameters.
pub mod Endpoint
use caddy_bifrost.Base.{
  ℕ, Bool, true, false, ◌&&◌, Option, none, some, List, [], ◌∷◌, if◌then◌else◌, ◌==◌, is_empty,
  Result, ok, err, ◌>>=◌, ◌>>◌, fail_if, ℤ, is_pos,
}
use caddy_bifrost.Text.{Text, text, trim_space, has_prefix, trim_prefix, contains_rune, count, cut}
use caddy_bifrost.HostPort.{split_host_port}
use caddy_bifrost.Config.{TransportConfig}

pub data TransportError : Type 0 where
  not_provisioned host_required server_not_configured server_not_running : TransportError
  address_empty : TransportError
  -- The address, as the message quotes it.
  endpoint_empty : Text → TransportError
  -- An error of the tunnel library or of Go's HTTP transport.
  failed : Text → TransportError

-- The text before the first `c`; the whole text if there is none.
before : Text → ℕ → Text
before s c = elim (cut s c) [ none ↦ s | some (head, rest) ↦ head ]

-- The endpoint of an address that `SplitHostPort` refuses.
unsplit_host : Text → Text
unfolding before
unsplit_host address =
    if has_prefix address (text "[") && contains_rune address b']'
    then trim_prefix (before address b']') (text "[")
    else if count address b':' == 1
    then before address b':'
    else address

host_part : Text → Option (Text × Text) → Text
unfolding unsplit_host
host_part address (some (host, port)) = host
host_part address none = unsplit_host address

named_endpoint : Text → Text → Result TransportError Text
named_endpoint address host = if is_empty host then err (endpoint_empty address) else ok host

-- `endpointFromDialAddress` behind its `TrimSpace`.
trimmed_endpoint : Text → Result TransportError Text
unfolding host_part named_endpoint
trimmed_endpoint address =
    if is_empty address
    then err address_empty
    else named_endpoint address (trim_space (host_part address (split_host_port address)))

unfoldable pub endpoint_from_dial_address : Text → Result TransportError Text
unfolding trimmed_endpoint
endpoint_from_dial_address address = trimmed_endpoint (trim_space address)

-- `Server.OpenStream` of server.go; `none` is a nil server, or one that is not running.
unfoldable pub open_stream {ℓ} :
    {Stream : Type ℓ}
    → Option (Option ℤ → Text → Result TransportError Stream)
    → Option ℤ
    → Text
    → Result TransportError Stream
open_stream none timeout endpoint = err server_not_running
open_stream (some tunnel) timeout endpoint = tunnel timeout endpoint

-- The timeout that the context of a dial gets.
unfoldable pub dial_timeout : TransportConfig → Option ℤ
dial_timeout cfg = if is_pos cfg.dial_timeout then some cfg.dial_timeout else none

-- `Transport.dialContext`. The outer option is the transport's server, the inner one the running
-- tunnel server.
unfoldable pub dial_context {ℓ} :
    {Stream : Type ℓ}
    → Option (Option (Option ℤ → Text → Result TransportError Stream))
    → TransportConfig
    → Text
    → Result TransportError Stream
unfolding dial_timeout
dial_context none cfg address = err server_not_configured
dial_context (some server) cfg address = do
  endpoint ← endpoint_from_dial_address address
  open_stream server (dial_timeout cfg) endpoint

-- The URL of a request, as far as the transport reads it.
pub record Url : Type 0 where
  pub scheme : Text
  pub host : Text

unfoldable pub scheme_or_http : Text → Text
scheme_or_http scheme = if is_empty scheme then text "http" else scheme

-- `Transport.RoundTrip`; `none` is a transport that is not provisioned.
unfoldable pub round_trip {ℓ} :
    {Response : Type ℓ}
    → Option (Url → Result TransportError Response)
    → Url
    → Result TransportError Response
unfolding scheme_or_http
round_trip none url = err not_provisioned
round_trip (some transport) url = do
  fail_if (is_empty (trim_space url.host)) host_required
  transport (record url { scheme = scheme_or_http url.scheme })

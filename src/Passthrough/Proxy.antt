-- ===== src/Passthrough/Proxy.antt =====
-- internal/runtime/server.go: `Server.ProxyStream` and `Server.ProxyStreamWithObserver`, which the
-- goroutine of `handleConnection` in listener.go calls. The running tunnel server of the tunnel
-- library is a parameter.
pub mod Laws
use caddy_bifrost.Base.{ℕ, Bool, true, Option, none, some, List, []}
use caddy_bifrost.Text.{Text, text}
use caddy_bifrost.Passthrough.{Resolution, Lifecycle, Call, Observation}
use caddy_bifrost.Passthrough.Stream.{stream}

-- What becomes of a stream that is proxied: the calls on its observer, whether the connection is
-- closed on return, and the error.
pub record Proxied : Type 0 where
  pub calls : List (ℕ × Call)
  pub conn_closed : Bool
  pub error : Option Text

-- A running tunnel server: `ProxyStreamWithOptions` of an endpoint with an observer, and
-- `ProxyStream`, which has none.
pub record Tunnel : Type 0 where
  pub with_options : Text → Proxied
  pub plain : Text → Bool × Option Text

-- A server runtime that is nil or not running has no tunnel server.
abbrev pub not_running : Text
not_running = text "bifrost server is not running"

-- `Server.ProxyStream`: whether it has closed the connection, and its error.
unfoldable pub proxy_stream : Option Tunnel → Text → Bool × Option Text
proxy_stream none endpoint = (true, some not_running)
proxy_stream (some tunnel) endpoint = tunnel.plain endpoint

-- `Server.ProxyStreamWithObserver`.
unfoldable pub proxy_stream_with_observer : Option Tunnel → Text → Proxied
proxy_stream_with_observer none endpoint = record {
  calls = [];
  conn_closed = true;
  error = some not_running;
}
proxy_stream_with_observer (some tunnel) endpoint = tunnel.with_options endpoint

-- The goroutine of `handleConnection`: whether the connection is closed when it is over, and what
-- the observer has seen. It returns at the time `now`.
unfoldable pub passthrough_stream :
    Bool → Resolution → Option Tunnel → ℕ → Bool × Lifecycle × List Observation
passthrough_stream observed resolution tunnel now =
    let p = proxy_stream_with_observer tunnel resolution.endpoint_key in
    let (l, seen) = stream observed resolution p.calls now p.error in (p.conn_closed, l, seen)

-- ===== src/Listener.antt =====
-- listener.go: the listener wrapper, which routes raw TLS connections by the server name of their
-- ClientHello, and its accept loop. A connection is the bytes that it holds.
pub mod Dispatch
pub mod Provision
use caddy_bifrost.Base.{
  ℕ, Bool, true, false, Option, none, some, List, [], ◌∷◌, if◌then◌else◌, is_empty, Result, ok, err,
}
use caddy_bifrost.Text.{Text, trim_space}
use caddy_bifrost.Passthrough.{Resolution, Observation, resolver_error, empty_endpoint}
use caddy_bifrost.Passthrough.Stream.{observe_rejected}
use caddy_bifrost.NetUtil.{Handshake, peek_server_name}
use caddy_bifrost.Runtime.Resolver.{ServerState, Answer, resolve_passthrough}

-- What an app runs: `App.runtime`.
pub data AppRuntime : Type 0 where
  no_runtime client_runtime : AppRuntime
  server_runtime : ServerState → AppRuntime

server_of : AppRuntime → Option ServerState
server_of no_runtime = none
server_of client_runtime = none
server_of (server_runtime s) = some s

-- A wrapper: its app as it is at the time, if `Provision` has run, and whether an observer is set.
pub record ListenerWrapper : Type 0 where
  pub bifrost_app : Option AppRuntime
  pub observed : Bool

-- `ListenerWrapper.serverRuntime`.
unfoldable pub runtime_of : Option AppRuntime → Option ServerState
unfolding server_of
runtime_of none = none
runtime_of (some runtime) = server_of runtime

-- What becomes of a connection: handed on to Caddy with these bytes, closed with these
-- observations, or given to the goroutine that proxies it.
pub data Handling : Type 0 where
  passed : List ℕ → Handling
  closed : List Observation → Handling
  proxied : Resolution → List ℕ → Handling

-- A route that names no endpoint is refused.
proxy_or_refuse : Bool → ℕ → Resolution → List ℕ → Handling
proxy_or_refuse observed now resolution stream =
    if is_empty (trim_space resolution.endpoint_key)
    then closed (observe_rejected observed resolution now empty_endpoint)
    else proxied resolution stream

route : Bool → ℕ → Answer Resolution → List ℕ → Handling
unfolding proxy_or_refuse
route observed now (err e) stream = closed (
    observe_rejected observed (record { endpoint_key = []; observation_key = [] }) now
      resolver_error)
route observed now (ok none) stream = passed stream
route observed now (ok (some resolution)) stream = proxy_or_refuse observed now resolution stream

-- The part of `handleConnection` behind the look at the ClientHello.
handle_named : ListenerWrapper → ℕ → Option ServerState → Result Text Text → List ℕ → Handling
unfolding route
handle_named w now server (err e) stream = passed stream
handle_named w now none (ok server_name) stream = closed []
handle_named w now (some s) (ok server_name) stream =
    route w.observed now (resolve_passthrough (some s) server_name) stream

-- `ListenerWrapper.handleConnection`; the goroutine that it starts is `Stream.stream`.
unfoldable pub handle_connection : (List ℕ → Handshake) → ListenerWrapper → ℕ → List ℕ → Handling
unfolding handle_named runtime_of
handle_connection handshake w now stream =
    let (parsed, replay) = peek_server_name handshake stream in
    handle_named w now (runtime_of w.bifrost_app) parsed replay

-- What one call of `Accept` returns, with the handling of the connections before it; `waiting` if
-- no more connection comes in.
pub data Accepted : Type 0 where
  waiting : Accepted
  returned : List ℕ → Accepted
  failed : Text → Accepted

also_handled : Handling → Accepted × List Handling → Accepted × List Handling
also_handled h (a, hs) = (a, h ∷ hs)

-- One round of the loop: a connection that is not handled ends it.
unless_passed : Handling → Accepted × List Handling → Accepted × List Handling
unfolding also_handled
unless_passed (passed stream) later = (returned stream, [])
unless_passed (closed observations) later = also_handled (closed observations) later
unless_passed (proxied resolution stream) later = also_handled (proxied resolution stream) later

-- `bifrostListener.Accept` over the results of the inner listener, each with its time.
unfoldable pub accept :
    (List ℕ → Handshake)
    → ListenerWrapper
    → List (ℕ × Result Text (List ℕ))
    → Accepted × List Handling
unfolding unless_passed
accept handshake w [] = (waiting, [])
accept handshake w ((now, err e) ∷ incoming) = (failed e, [])
accept handshake w ((now, ok stream) ∷ incoming) =
    let later = accept handshake w incoming in
    unless_passed (handle_connection handshake w now stream) later

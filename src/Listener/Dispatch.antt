-- ===== src/Listener/Dispatch.antt =====
-- Which connections Caddy sees, and which are proxied.
use caddy_bifrost.Base.{
  ℕ, ◌≡◌, refl, sym, ap, ◌∙◌, ◌↔◌, Bool, false, Option, none, some, List, [], ◌∷◌, ◌++◌, arith,
  is_empty, All, take-append-drop, Result, ok, err,
}
use caddy_bifrost.Text.{Text, CaseTable, trim_space}
use caddy_bifrost.Routes.{SniRoute, normalize_server_name}
use caddy_bifrost.Routes.Table.{find_route, find_route-endpoint}
use caddy_bifrost.Passthrough.{Resolution}
use caddy_bifrost.NetUtil.{Handshake, peek_server_name}
use caddy_bifrost.Runtime.Resolver.{
  Resolver, ServerState, Answer, plain_resolution, set_passthrough_resolver, resolve_passthrough,
  new_static_resolver,
}
use caddy_bifrost.Runtime.Resolver.Laws.{resolve_passthrough-static, static_routes-valid}
use caddy_bifrost.Listener.{
  server_runtime, ListenerWrapper, runtime_of, Handling, passed, closed, proxied, route,
  proxy_or_refuse, handle_named, handle_connection, Accepted, returned, unless_passed, accept,
}

-- The name in the ClientHello of a connection, or the error of reading it.
abbrev pub server_name_of : (List ℕ → Handshake) → List ℕ → Result Text Text
server_name_of handshake stream = (handshake stream).parsed

-- `handleConnection` decides by the name alone, and hands on the bytes that came in.
handle_connection-named :
    (handshake : List ℕ → Handshake) (w : ListenerWrapper) (now : ℕ) (stream : List ℕ)
    → handle_connection handshake w now stream
      ≡ handle_named w now (runtime_of w.bifrost_app) (server_name_of handshake stream) stream
unfolding handle_connection peek_server_name
handle_connection-named handshake w now stream =
    ap (handle_named w now (runtime_of w.bifrost_app) (server_name_of handshake stream))
      (take-append-drop (handshake stream).read_count stream)

-- Why a connection is none of the wrapper's: it has no readable ClientHello, or the server has no
-- route for its name.
abbrev pub IsUnrouted : ListenerWrapper → Result Text Text → Type 0
IsUnrouted w (err e) = Unit
IsUnrouted w (ok name) =
    (s : ServerState) × (runtime_of w.bifrost_app ≡ some s)
    × (resolve_passthrough (some s) name ≡ ok none)

route-passed :
    (observed : Bool) (now : ℕ) (a : Answer Resolution) (stream bytes : List ℕ)
    → route observed now a stream ≡ passed bytes
    → (a ≡ ok none) × (bytes ≡ stream)
unfolding route proxy_or_refuse
route-passed observed now (err e) stream bytes h = cc
route-passed observed now (ok none) stream bytes h = (refl, cc)
route-passed observed now (ok (some r)) stream bytes h = ground arith

named-passed :
    (w : ListenerWrapper) (now : ℕ) (server : Option ServerState) (parsed : Result Text Text)
    (stream bytes : List ℕ)
    → runtime_of w.bifrost_app ≡ server
    → handle_named w now server parsed stream ≡ passed bytes
    → IsUnrouted w parsed × (bytes ≡ stream)
unfolding handle_named
named-passed w now none (err e) stream bytes at h = (tt, cc)
named-passed w now (some s) (err e) stream bytes at h = (tt, cc)
named-passed w now none (ok name) stream bytes at h = cc
named-passed w now (some s) (ok name) stream bytes at h =
    let (unrouted, same) =
      route-passed w.observed now (resolve_passthrough (some s) name) stream bytes h in
    ((s, at, unrouted), same)

unrouted-passed :
    (w : ListenerWrapper) (now : ℕ) (parsed : Result Text Text) (stream : List ℕ)
    → IsUnrouted w parsed
    → handle_named w now (runtime_of w.bifrost_app) parsed stream ≡ passed stream
unfolding handle_named route
unrouted-passed w now (err e) stream h = refl
unrouted-passed w now (ok name) stream (s, at, h) = rw at (rw (h, handle_named) refl)

-- Caddy sees a connection exactly when it has no readable ClientHello or no route, and then it sees
-- the bytes that came in; every other connection, one whose route cannot be resolved included, is
-- closed or proxied.
pub handle_connection-passed :
    (handshake : List ℕ → Handshake) (w : ListenerWrapper) (now : ℕ) (stream bytes : List ℕ)
    → (handle_connection handshake w now stream ≡ passed bytes)
      ↔ (IsUnrouted w (server_name_of handshake stream) × (bytes ≡ stream))
handle_connection-passed handshake w now stream bytes = (
  (λ h.
      named-passed w now (runtime_of w.bifrost_app) (server_name_of handshake stream) stream bytes
        refl (sym (handle_connection-named handshake w now stream) ∙ h)),
  (λ (unrouted, same).
      handle_connection-named handshake w now stream
      ∙ unrouted-passed w now (server_name_of handshake stream) stream unrouted
      ∙ ap passed (sym same)),
)

-- What becomes of a connection under static routes.
abbrev pub by_route : Option Text → List ℕ → Handling
by_route none stream = passed stream
by_route (some endpoint) stream =
    proxied (record { endpoint_key = endpoint; observation_key = [] }) stream

route-found :
    (observed : Bool) (now : ℕ) (found : Option Text) (stream : List ℕ)
    → ((e : Text) → found ≡ some e → is_empty (trim_space e) ≡ false)
    → route observed now (plain_resolution (ok found)) stream ≡ by_route found stream
unfolding route proxy_or_refuse plain_resolution
route-found observed now none stream h = refl
route-found observed now (some e) stream h = rw (h e refl) refl

-- With static routes installed, a connection whose ClientHello names a server is proxied to the
-- endpoint of the first route for that name, and goes on to Caddy unchanged if there is none.
pub handle_connection-static :
    (cases : CaseTable) (routes : List SniRoute) (r : Resolver) (s : ServerState)
    (handshake : List ℕ → Handshake) (observed : Bool) (now : ℕ) (stream : List ℕ) (name : Text)
    → new_static_resolver cases routes ≡ ok r
    → server_name_of handshake stream ≡ ok name
    → handle_connection handshake
        (record {
          bifrost_app = some (server_runtime (set_passthrough_resolver (some r) s));
          observed = observed;
        })
        now
        stream
      ≡ by_route (find_route cases (normalize_server_name cases name) routes) stream
unfolding runtime_of handle_named
handle_connection-static cases routes r s handshake observed now stream name made named =
    handle_connection-named handshake _ now stream
    ∙ rw (named, resolve_passthrough-static cases routes r s name made, handle_named)
        (route-found observed now (find_route cases (normalize_server_name cases name) routes)
          stream
          λ e.
            find_route-endpoint cases (normalize_server_name cases name) routes e
              (static_routes-valid cases routes r made))

-- A connection that the wrapper handles itself.
abbrev pub IsHandled : Handling → Type 0
IsHandled (passed stream) = ⊥
IsHandled (closed observations) = Unit
IsHandled (proxied resolution stream) = Unit

module _ (handshake : List ℕ → Handshake) (w : ListenerWrapper) where
  abbrev pub handlings : List (ℕ × List ℕ) → List Handling
  handlings [] = []
  handlings ((now, stream) ∷ cs) = handle_connection handshake w now stream ∷ handlings cs

  abbrev pub arriving : List (ℕ × List ℕ) → List (ℕ × Result Text (List ℕ))
  arriving [] = []
  arriving ((now, stream) ∷ cs) = (now, ok stream) ∷ arriving cs

  unless_handled :
      (h : Handling) (later : Accepted × List Handling)
      → IsHandled h
      → unless_passed h later ≡ (later.0, h ∷ later.1)
  unfolding unless_passed
  unless_handled (passed stream) later i = absurd i
  unless_handled (closed observations) later i = refl
  unless_handled (proxied resolution stream) later i = refl

  -- `Accept` returns the first connection that is not handled, and has handled those before it.
  pub accept-first :
      (cs : List (ℕ × List ℕ)) (now : ℕ) (stream : List ℕ) (rest : List (ℕ × Result Text (List ℕ)))
      → All IsHandled (handlings cs)
      → IsUnrouted w (server_name_of handshake stream)
      → accept handshake w (arriving cs ++ (now, ok stream) ∷ rest)
        ≡ (returned stream, handlings cs)
  unfolding accept unless_passed
  accept-first [] now stream rest h unrouted =
      rw ((handle_connection-passed handshake w now stream stream).1 (unrouted, refl), accept) refl
  accept-first ((t, c) ∷ cs) now stream rest (h, hs) unrouted =
      unless_handled (handle_connection handshake w t c)
        (accept handshake w (arriving cs ++ (now, ok stream) ∷ rest)) h
      ∙ rw (accept-first cs now stream rest hs unrouted) refl

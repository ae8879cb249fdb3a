-- ===== src/Runtime/Making/Starting/Laws.antt =====
-- What a start of a server runtime leaves open.
use caddy_bifrost.Base.{ℕ, ◌≡◌, refl, sym, subst, inl, inr, List, [], ◌∷◌, Result, ok, err, true}
use caddy_bifrost.Text.{Text}
use caddy_bifrost.NetUtil.Listening.{ListenError, Opened, stream_listener, other, listen_caddy}
use caddy_bifrost.NetUtil.Listening.Laws.{
  Left, returned, nothing, stuck, Settled, listen_caddy-Settled,
}
use caddy_bifrost.Runtime.Making.{NewServer}
use caddy_bifrost.Runtime.Making.Starting.{
  TunnelConfig, TunnelOptions, tunnel_config, tunnel_options, made_on, listened_on, start_server,
}
use caddy_bifrost.Runtime.Server.{StartError, waiting, failed, Server, begin_start}

module _ {A : Type 0} (parse : Text → Result Text A) (port_range_size : A → ℕ)
    (listen : A → Result Text Opened) (message : ListenError → Text)
    (new_tunnel : TunnelConfig → TunnelOptions → Result Text (Unit {0})) where
  -- How the first part of a start can end: at the `select`, with the one listener open that the
  -- tunnel server was made on; or failed, with its context cancelled and nothing open; or failed,
  -- with a thing open that Caddy has opened for the address and that cannot be closed.
  pub data Begun (s : NewServer) : List ℕ × Server → Type 0 where
    at_select :
        {life : Server} {a : A} {l : ℕ}
        → parse s.cfg.connector.listen ≡ ok a
        → port_range_size a ≡ 1
        → listen a ≡ ok (stream_listener l)
        → new_tunnel (tunnel_config s) (tunnel_options s l) ≡ ok tt
        → life.main ≡ waiting
        → life.listening ≡ true
        → Begun s (l ∷ [], life)
    clean :
        {life : Server} {e : StartError}
        → life.main ≡ failed e
        → life.cancelled ≡ true
        → Begun s ([], life)
    left_stuck :
        {life : Server} {a : A} {l : ℕ} {e : StartError}
        → listen a ≡ ok (other l)
        → life.main ≡ failed e
        → life.cancelled ≡ true
        → Begun s (l ∷ [], life)

  made-Begun :
      (s : NewServer) (life : Server) (a : A) (l : ℕ) (made : Result Text (Unit {0}))
      → parse s.cfg.connector.listen ≡ ok a
      → port_range_size a ≡ 1
      → listen a ≡ ok (stream_listener l)
      → new_tunnel (tunnel_config s) (tunnel_options s l) ≡ made
      → Begun s (made_on parse port_range_size listen message new_tunnel (l ∷ []) made life)
  unfolding made_on begin_start
  made-Begun s life a l (ok u) p one at e = at_select p one at e refl refl
  made-Begun s life a l (err x) p one at e = clean refl refl

  failed_listen :
      (s : NewServer) (life : Server) (e : ListenError)
      → Begun s (listened_on parse port_range_size listen message new_tunnel s ([], err e) life)
  unfolding listened_on begin_start
  failed_listen s life e = clean refl refl

  left-Begun :
      (s : NewServer) (life : Server) (a : A) {r : List ℕ × Result ListenError ℕ}
      → parse s.cfg.connector.listen ≡ ok a
      → port_range_size a ≡ 1
      → Left (listen a) r
      → Begun s (listened_on parse port_range_size listen message new_tunnel s r life)
  unfolding listened_on begin_start
  left-Begun s life a p one (returned {l} at) =
      made-Begun s life a l (new_tunnel (tunnel_config s) (tunnel_options s l)) p one at refl
  left-Begun s life a p one (nothing {e}) = failed_listen s life e
  left-Begun s life a p one (stuck {e} {l} at) = left_stuck at refl refl

  Settled-Begun :
      (s : NewServer) (life : Server) (r : List ℕ × Result ListenError ℕ)
      → Settled parse port_range_size listen s.cfg.connector.listen r
      → Begun s (listened_on parse port_range_size listen message new_tunnel s r life)
  Settled-Begun s life r (inl (e, h)) =
      subst (λ q. Begun s (listened_on parse port_range_size listen message new_tunnel s q life))
        (sym h) (failed_listen s life e)
  Settled-Begun s life r (inr (a, p, one, left)) = left-Begun s life a p one left

  -- A start of a server runtime, whatever Caddy and the tunnel library answer, is at its `select`
  -- with the one listener open that its tunnel server was made on, for an address of exactly one
  -- listener; or it has failed and cancelled its context, and has left nothing open but what Caddy
  -- has opened that is no listener and cannot be closed.
  pub start_server-Begun :
      (s : NewServer) (life : Server)
      → Begun s (start_server parse port_range_size listen message new_tunnel s life)
  unfolding start_server
  start_server-Begun s life =
      Settled-Begun s life (listen_caddy parse port_range_size listen s.cfg.connector.listen)
        (listen_caddy-Settled parse port_range_size listen s.cfg.connector.listen)

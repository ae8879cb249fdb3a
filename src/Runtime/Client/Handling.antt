-- ===== src/Runtime/Client/Handling.antt =====
-- internal/runtime/client.go: `Client.handleStream`, which serves one stream of the tunnel from the
-- client's target. Dialling (`DialContext`) is a parameter; a connection is a number. The copying
-- belongs to the tunnel library, and is over when the next effect comes.
use caddy_bifrost.Base.{ℕ, ◌≡◌, refl, ◌⊎◌, inl, inr, List, [], ◌∷◌, ◌++◌, Result, ok, err}
use caddy_bifrost.Text.{Text}
use caddy_bifrost.Config.{ClientConfig}
use caddy_bifrost.NetUtil.{split_address}
use caddy_bifrost.NetUtil.Listening.{dial_address}

-- What `handleStream` does: a watch of connections that closes them on a cancelled context, its
-- release, a warning about the target, the close of a connection, the copying between two.
pub data Effect : Type 0 where
  watched : List ℕ → Effect
  warned : Text → Text → Effect
  conn_closed : ℕ → Effect
  copied : ℕ → ℕ → Effect
  released : Effect

serve : ClientConfig → ℕ → Result Text ℕ → List Effect
serve cfg stream (err e) = warned cfg.forward e ∷ conn_closed stream ∷ []
serve cfg stream (ok target) = copied stream target ∷ []

-- `Client.handleStream`; the release is deferred.
unfoldable pub handle_stream : (Text → Text → Result Text ℕ) → ClientConfig → ℕ → List Effect
unfolding serve
handle_stream dial cfg stream =
    watched (stream ∷ []) ∷ (serve cfg stream (dial_address dial cfg.forward) ++ (released ∷ []))

-- What is done with a stream whose target answers so.
abbrev pub Served : ClientConfig → ℕ → Result Text ℕ → List Effect → Type 0
Served cfg stream answer effects =
    ((target : ℕ) × (answer ≡ ok target)
      × (effects ≡ watched (stream ∷ []) ∷ copied stream target ∷ released ∷ []))
    ⊎ ((e : Text) × (answer ≡ err e)
        × (effects
            ≡ watched (stream ∷ []) ∷ warned cfg.forward e ∷ conn_closed stream ∷ released ∷ []))

serve-Served :
    (cfg : ClientConfig) (stream : ℕ) (answer : Result Text ℕ)
    → Served cfg stream answer
        (watched (stream ∷ []) ∷ (serve cfg stream answer ++ (released ∷ [])))
unfolding serve
serve-Served cfg stream (ok target) = inl (target, refl, refl)
serve-Served cfg stream (err e) = inr (e, refl, refl)

-- A stream is copied to and from what answers at the network and the address that the target names,
-- or it is closed with a warning; its watch is released in the end.
pub handle_stream-Served :
    (dial : Text → Text → Result Text ℕ) (cfg : ClientConfig) (stream : ℕ)
    → Served cfg stream
        (dial (split_address cfg.forward).0 (split_address cfg.forward).1)
        (handle_stream dial cfg stream)
unfolding handle_stream dial_address
handle_stream-Served dial cfg stream =
    serve-Served cfg stream (dial (split_address cfg.forward).0 (split_address cfg.forward).1)

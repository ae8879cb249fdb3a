-- ===== src/NetUtil/Listening/Laws.antt =====
-- What `ListenCaddy` returns, and what it leaves open.
use caddy_bifrost.Base.{
  ℕ, ◌≡◌, refl, ◌⊎◌, inl, inr, ==_iff, Bool, true, false, [], ◌∷◌, if◌then◌else◌, ◌==◌, not, Result,
  ok, err,
}
use caddy_bifrost.Text.{Text}
use caddy_bifrost.NetUtil.Listening.{
  ListenError, Opened, stream_listener, closable, other, Listened, assert_stream, not_one_listener,
  listen_at, listen_caddy,
}

-- What a call leaves behind: the listener that it returns, or nothing, or a thing that Caddy has
-- opened and that has no `Close`.
pub data Left (opened : Result Text Opened) : Listened → Type 0 where
  returned : {l : ℕ} → opened ≡ ok (stream_listener l) → Left opened (l ∷ [], ok l)
  nothing : {e : ListenError} → Left opened ([], err e)
  stuck : {e : ListenError} {l : ℕ} → opened ≡ ok (other l) → Left opened (l ∷ [], err e)

assert-Left : (o : Result Text Opened) → Left o (assert_stream o)
unfolding assert_stream
assert-Left (err e) = nothing
assert-Left (ok (stream_listener l)) = returned refl
assert-Left (ok (closable l)) = nothing
assert-Left (ok (other l)) = stuck refl

module _ {A : Type 0} (parse : Text → Result Text A) (port_range_size : A → ℕ)
    (listen : A → Result Text Opened) where
  -- What there is to know of a call at an address: it fails and leaves nothing open, or the address
  -- stands for exactly one listener and Caddy's answer decides.
  abbrev pub Settled : Text → Listened → Type 0
  Settled address r =
      ((e : ListenError) × (r ≡ ([], err e)))
      ⊎ ((a : A) × (parse address ≡ ok a) × (port_range_size a ≡ 1) × Left (listen a) r)

  at_one-Settled :
      (address : Text) (a : A) (b : Bool)
      → parse address ≡ ok a
      → port_range_size a == 1 ≡ b
      → Settled address (if not b then ([], err not_one_listener) else assert_stream (listen a))
  at_one-Settled address a false h e = inl (_, refl)
  at_one-Settled address a true h e =
      inr (a, h, (==_iff (port_range_size a) 1).0 e, assert-Left (listen a))

  at-Settled :
      (address : Text) (p : Result Text A)
      → parse address ≡ p
      → Settled address (listen_at parse port_range_size listen p)
  unfolding listen_at
  at-Settled address (err e) h = inl (_, refl)
  at-Settled address (ok a) h = at_one-Settled address a (port_range_size a == 1) h refl

  -- `ListenCaddy` returns a listener only for an address of exactly one, which is then the only one
  -- that it leaves open; where it fails, it leaves nothing open but what Caddy has opened that is
  -- no listener and cannot be closed.
  pub listen_caddy-Settled :
      (address : Text) → Settled address (listen_caddy parse port_range_size listen address)
  unfolding listen_caddy
  listen_caddy-Settled address = at-Settled address (parse address) refl

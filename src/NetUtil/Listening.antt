-- ===== src/NetUtil/Listening.antt =====
-- internal/netutil/netutil.go: `DialAddress` and `ListenCaddy`. Caddy's network addresses and what
-- they listen on are parameters, and so is Go's dialler. A connection or a listener is a number.
pub mod Laws
use caddy_bifrost.Base.{
  ℕ, Bool, true, false, not, List, [], ◌∷◌, if◌then◌else◌, ◌==◌, Result, ok, err, map_err,
}
use caddy_bifrost.Text.{Text}
use caddy_bifrost.NetUtil.{split_address}

-- `DialAddress`, given `DialContext` of a network and an address.
unfoldable pub dial_address : (Text → Text → Result Text ℕ) → Text → Result Text ℕ
dial_address dial address = let (network, target) = split_address address in dial network target

pub data ListenError : Type 0 where
  parse_failed listen_failed : Text → ListenError
  not_one_listener not_a_stream : ListenError

-- What Caddy opens at an address: a `net.Listener`, or something else that may be an `io.Closer`.
pub data Opened : Type 0 where
  stream_listener closable other : ℕ → Opened

-- The listeners that are left open, and the result.
abbrev pub Listened : Type 0
Listened = List ℕ × Result ListenError ℕ

-- The two type assertions of `ListenCaddy`.
assert_stream : Result Text Opened → Listened
assert_stream (err e) = ([], err (listen_failed e))
assert_stream (ok (stream_listener l)) = (l ∷ [], ok l)
assert_stream (ok (closable l)) = ([], err not_a_stream)
assert_stream (ok (other l)) = (l ∷ [], err not_a_stream)

module _ {A : Type 0} (parse : Text → Result Text A) (port_range_size : A → ℕ)
    (listen : A → Result Text Opened) where
  listen_at : Result Text A → Listened
  unfolding assert_stream
  listen_at (err e) = ([], err (parse_failed e))
  listen_at (ok a) =
      if not (port_range_size a == 1) then ([], err not_one_listener) else assert_stream (listen a)

  -- `ListenCaddy`.
  unfoldable pub listen_caddy : Text → Listened
  unfolding listen_at
  listen_caddy address = listen_at (parse address)

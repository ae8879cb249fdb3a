-- ===== src/NetUtil/Laws.antt =====
-- Nothing is lost: neither of a connection that is looked at, nor of an address that is split.
use caddy_bifrost.Base.{ℕ, ◌≡◌, ◌⊎◌, List, ◌++◌, take-append-drop, arith}
use caddy_bifrost.Text.{Text, text}
use caddy_bifrost.Text.Affix.{trim_prefix_sound}
use caddy_bifrost.NetUtil.{Handshake, peek_server_name, split_address}

-- Whatever the handshake reads and whatever it finds, the connection that is handed back holds the
-- bytes that came in.
pub peek-replays :
    (handshake : List ℕ → Handshake) (stream : List ℕ)
    → (peek_server_name handshake stream).1 ≡ stream
unfolding peek_server_name
peek-replays handshake stream = take-append-drop (handshake stream).read_count stream

-- The network and the address give back the text that was split: with one of the two separators
-- between them, or, on tcp, with nothing in front.
pub split_address_sound :
    (address : Text)
    → let r = split_address address in
      ((address ≡ r.0 ++ (text "//" ++ r.1)) ⊎ (address ≡ r.0 ++ (text ":" ++ r.1)))
      ⊎ ((r.0 ≡ text "tcp") × (r.1 ≡ address))
unfolding split_address
split_address_sound address = ground (
  arith,
  trim_prefix_sound address (text "unix//"),
  trim_prefix_sound address (text "unix:"),
  trim_prefix_sound address (text "tcp//"),
  trim_prefix_sound address (text "tcp:"),
)

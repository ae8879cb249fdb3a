-- ===== src/NetUtil.antt =====
-- internal/netutil/netutil.go: addresses with a network, and the look at a connection's ClientHello
-- that leaves the connection as it was. What Go's crypto/tls reads and parses of a connection is a
-- parameter. The children hold dialling and listening, and the watch that closes connections.
pub mod Laws
pub mod Listening
pub mod Watch
pub mod Replay
use caddy_bifrost.Base.{
  ℕ, Bool, true, false, Option, none, some, List, [], ◌∷◌, ◌++◌, if◌then◌else◌, Result, ok, err,
  take, drop,
}
use caddy_bifrost.Text.{Text, text, has_prefix, trim_prefix}

-- `SplitAddress`: the network and the address on it.
unfoldable pub split_address : Text → Text × Text
split_address address =
    if has_prefix address (text "unix//")
    then (text "unix", trim_prefix address (text "unix//"))
    else if has_prefix address (text "unix:")
    then (text "unix", trim_prefix address (text "unix:"))
    else if has_prefix address (text "tcp//")
    then (text "tcp", trim_prefix address (text "tcp//"))
    else if has_prefix address (text "tcp:")
    then (text "tcp", trim_prefix address (text "tcp:"))
    else (text "tcp", address)

-- The TLS handshake of `PeekClientHelloServerName`, from the bytes that the connection holds: how
-- many it reads, and the server name that it finds or its error. It ends with the error
-- `errClientHelloParsed` of the callback if it finds a name, so a name is a success.
pub record Handshake : Type 0 where
  pub read_count : ℕ
  pub parsed : Result Text Text

-- `PeekClientHelloServerName` on a connection with the bytes `stream`: the result, and the bytes
-- that the connection handed back holds. The tee has recorded what was read; the reader that is
-- handed back gives that first and the rest of the connection after it.
unfoldable pub peek_server_name : (List ℕ → Handshake) → List ℕ → Result Text Text × List ℕ
peek_server_name handshake stream =
    let hello = handshake stream in
    let replay = take hello.read_count stream in
    let rest = drop hello.read_count stream in (hello.parsed, replay ++ rest)

-- ===== src/NetUtil/Replay.antt =====
-- internal/netutil/netutil.go: the two connections of `PeekClientHelloServerName`, read by read: the
-- one that the handshake reads, which records what it reads, and the one that is handed back, which
-- reads the record first. A connection is the bytes that it holds; how many of them a `Read` gets is
-- left open.
pub mod Laws
use caddy_bifrost.Base.{ℕ, List, [], ◌∷◌, ◌++◌, take, drop}

-- `readWriteConn` on a `TeeReader`: the connection, and the buffer `replay`.
pub record PeekConn : Type 0 where
  pub conn : List ℕ
  pub replay : List ℕ

abbrev pub new_peek_conn : List ℕ → PeekConn
new_peek_conn stream = record { conn = stream; replay = [] }

-- `readWriteConn.Read` of so many bytes: what it gets, and the connection after it.
unfoldable pub peek_read : ℕ → PeekConn → List ℕ × PeekConn
peek_read n c =
    let got = take n c.conn in (got, record { conn = drop n c.conn; replay = c.replay ++ got })

-- `readWriteConn.Write`: `io.Discard` takes all, and the peer gets nothing.
unfoldable pub peek_write : List ℕ → PeekConn → PeekConn
peek_write bytes c = c

-- `prefixConn` on a `MultiReader`: what is left of the record, and the connection.
pub record PrefixConn : Type 0 where
  pub prefix : List ℕ
  pub conn : List ℕ

-- What `PeekClientHelloServerName` hands back.
unfoldable pub replay_conn : PeekConn → PrefixConn
replay_conn c = record { prefix = c.replay; conn = c.conn }

read_from : ℕ → List ℕ → List ℕ → List ℕ × PrefixConn
read_from n [] conn = (take n conn, record { prefix = []; conn = drop n conn })
read_from n (b ∷ prefix) conn =
    (take n (b ∷ prefix), record { prefix = drop n (b ∷ prefix); conn = conn })

-- `prefixConn.Read`: a read does not go over the end of the record.
unfoldable pub prefix_read : ℕ → PrefixConn → List ℕ × PrefixConn
unfolding read_from
prefix_read n c = read_from n c.prefix c.conn

-- A handshake: its reads, and its writes in between.
pub data PeekCall : Type 0 where
  reads : ℕ → PeekCall
  writes : List ℕ → PeekCall

unfoldable pub peek_calls : List PeekCall → PeekConn → List ℕ × PeekConn
peek_calls [] c = ([], c)
peek_calls (reads n ∷ calls) c =
    let (got, c') = peek_read n c in let (more, c'') = peek_calls calls c' in (got ++ more, c'')
peek_calls (writes bytes ∷ calls) c = peek_calls calls (peek_write bytes c)

unfoldable pub prefix_reads : List ℕ → PrefixConn → List ℕ × PrefixConn
prefix_reads [] c = ([], c)
prefix_reads (n ∷ ns) c =
    let (got, c') = prefix_read n c in let (more, c'') = prefix_reads ns c' in (got ++ more, c'')

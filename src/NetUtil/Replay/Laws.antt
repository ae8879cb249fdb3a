-- ===== src/NetUtil/Replay/Laws.antt =====
-- Nothing of a connection is lost or repeated by the look at its ClientHello.
use mathlib.Core.List.{append-nil, append_assoc}
use caddy_bifrost.Base.{
  ℕ, ◌≡◌, refl, sym, ◌∙◌, ap, List, [], ◌∷◌, ◌++◌, take, drop, take-append-drop,
}
use caddy_bifrost.NetUtil.Replay.{
  PeekConn, new_peek_conn, peek_read, peek_write, PrefixConn, replay_conn, prefix_read, read_from,
  PeekCall, reads, writes, peek_calls, prefix_reads,
}

-- What a handshake has read is what is recorded, and the rest is still to come.
peek_read-kept :
    (n : ℕ) (c : PeekConn) → (peek_read n c).1.replay ++ (peek_read n c).1.conn ≡ c.replay ++ c.conn
unfolding peek_read
peek_read-kept n c =
    append_assoc c.replay (take n c.conn) (drop n c.conn)
    ∙ ap (λ s. c.replay ++ s) (take-append-drop n c.conn)

peek_calls-kept :
    (calls : List PeekCall) (c : PeekConn)
    → ((peek_calls calls c).1.replay ++ (peek_calls calls c).1.conn ≡ c.replay ++ c.conn)
      × ((peek_calls calls c).1.replay ≡ c.replay ++ (peek_calls calls c).0)
unfolding peek_calls peek_write peek_read
peek_calls-kept [] c = (refl, sym (append-nil c.replay))
peek_calls-kept (reads n ∷ calls) c =
    let (kept, seen) = peek_calls-kept calls (peek_read n c).1 in
    (kept ∙ peek_read-kept n c, seen ∙ append_assoc c.replay (take n c.conn) _)
peek_calls-kept (writes bytes ∷ calls) c = peek_calls-kept calls c

prefix_read-kept :
    (n : ℕ) (prefix conn : List ℕ)
    → (read_from n prefix conn).0
        ++ ((read_from n prefix conn).1.prefix ++ (read_from n prefix conn).1.conn)
      ≡ prefix ++ conn
unfolding read_from
prefix_read-kept n [] conn = take-append-drop n conn
prefix_read-kept n (b ∷ prefix) conn =
    sym (append_assoc (take n (b ∷ prefix)) (drop n (b ∷ prefix)) conn)
    ∙ ap (λ s. s ++ conn) (take-append-drop n (b ∷ prefix))

prefix_reads-kept :
    (ns : List ℕ) (c : PrefixConn)
    → (prefix_reads ns c).0 ++ ((prefix_reads ns c).1.prefix ++ (prefix_reads ns c).1.conn)
      ≡ c.prefix ++ c.conn
unfolding prefix_reads prefix_read
prefix_reads-kept [] c = refl
prefix_reads-kept (n ∷ ns) c =
    let c' = (prefix_read n c).1 in
    append_assoc (prefix_read n c).0 (prefix_reads ns c').0 _
    ∙ ap (λ s. (prefix_read n c).0 ++ s) (prefix_reads-kept ns c')
    ∙ prefix_read-kept n c.prefix c.conn

-- However the handshake reads and writes, and however the connection that is handed back is read
-- after it: the handshake has read a first part of the connection, and the readers after it read
-- the connection from its first byte on, each byte once and in order, with the rest still to come.
pub replayed :
    (calls : List PeekCall) (ns : List ℕ) (stream : List ℕ)
    → let peeked = peek_calls calls (new_peek_conn stream) in
      let after = prefix_reads ns (replay_conn peeked.1) in
      (peeked.0 ++ peeked.1.conn ≡ stream) × (after.0 ++ (after.1.prefix ++ after.1.conn) ≡ stream)
unfolding replay_conn
replayed calls ns stream =
    let (kept, seen) = peek_calls-kept calls (new_peek_conn stream) in
    let peeked = peek_calls calls (new_peek_conn stream) in
    (
      ap (λ s. s ++ peeked.1.conn) (sym seen) ∙ kept,
      prefix_reads-kept ns (replay_conn peeked.1) ∙ kept,
    )

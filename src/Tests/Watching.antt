-- ===== src/Tests/Watching.antt =====
-- Tests of listening, dialling and closing, and of the start of a server runtime on a listener.
use caddy_bifrost.Base.{ℕ, ◌≡◌, refl, true, false, List, [], ◌∷◌, ◌++◌, Result, ok, err}
use caddy_bifrost.Text.{Text, text, strip_prefix}
use caddy_bifrost.Config.{ClientConfig}
use caddy_bifrost.Runtime.Client.Handling.{watched, warned, conn_closed, released, handle_stream}
use caddy_bifrost.NetUtil.{split_address}
use caddy_bifrost.NetUtil.Listening.{
  Opened, stream_listener, closable, ListenError, not_a_stream, not_one_listener, listen_caddy,
  dial_address,
}
use caddy_bifrost.NetUtil.Replay.{
  PeekCall, reads, writes, new_peek_conn, peek_calls, replay_conn, prefix_read, prefix_reads,
}
use caddy_bifrost.NetUtil.Replay.Laws.{replayed}
use caddy_bifrost.NetUtil.Watch.{
  Watch, closing, close_on_context, close_next, Reach, here, next, cancels, select_cancelled,
  closes,
}
use caddy_bifrost.NetUtil.Watch.Laws.{ClosedBy, watch-ClosedBy}
use caddy_bifrost.Runtime.Server.{new_server}
use caddy_bifrost.Runtime.Making.Starting.{TunnelConfig, TunnelOptions, start_server}
use caddy_bifrost.Runtime.Making.Starting.Laws.{Begun, start_server-Begun}
use caddy_bifrost.Tests.Making.{spaced_made}

abbrev half_closed : Watch
half_closed = record {
  cancelled = true;
  released = false;
  watcher = closing (8 ∷ []);
  closed = 7 ∷ [];
}

half_closed-reached : Reach (7 ∷ 8 ∷ []) (close_on_context false) half_closed
unfolding close_on_context close_next
half_closed-reached =
    next (next (next here cancels) (select_cancelled refl refl)) (closes 7 (8 ∷ []) refl)

watch-ClosedBy_example : ClosedBy (7 ∷ 8 ∷ []) half_closed
watch-ClosedBy_example = watch-ClosedBy (7 ∷ 8 ∷ []) false half_closed half_closed-reached

-- An address is the number of its ports and what Caddy opens there.
abbrev Address : Type 0
Address = ℕ × Opened

abbrev size : Address → ℕ
size a = a.0

abbrev opened : Address → Result Text Opened
opened a = ok a.1

abbrev packets : Text → Result Text Address
packets address = ok (1, closable 3)

abbrev streams : Text → Result Text Address
streams address = ok (1, stream_listener 3)

abbrev ranges : Text → Result Text Address
ranges address = ok (2, stream_listener 3)

listened : listen_caddy streams size opened (text ":8443") ≡ (3 ∷ [], ok 3)
unfolding listen_caddy
listened = refl

packets_closed : listen_caddy packets size opened (text "udp/:8443") ≡ ([], err not_a_stream)
unfolding listen_caddy
packets_closed = refl

range_refused : listen_caddy ranges size opened (text ":1-2") ≡ ([], err not_one_listener)
unfolding listen_caddy
range_refused = refl

abbrev no_message : ListenError → Text
no_message e = []

abbrev willing : TunnelConfig → TunnelOptions → Result Text (Unit {0})
willing cfg opts = ok tt

start_server-Begun_example :
    Begun streams size opened no_message willing spaced_made.0
      (start_server streams size opened no_message willing spaced_made.0 new_server)
start_server-Begun_example =
    start_server-Begun streams size opened no_message willing spaced_made.0 new_server

abbrev unix_config : ClientConfig
unix_config = record {
  connect = text "edge:8443";
  token = text "secret";
  forward = text "unix//run/caddy.sock";
  tls_ca_file = [];
  tls_server_name = [];
  tls_insecure_skip_verify = false;
}

abbrev refusing : Text → Text → Result Text ℕ
refusing network address = err network

unreached_target :
    handle_stream refusing unix_config 4
    ≡ watched (4 ∷ []) ∷ warned unix_config.forward (text "unix") ∷ conn_closed 4 ∷ released ∷ []
unfolding handle_stream dial_address split_address strip_prefix
unreached_target = refl

abbrev hello : List PeekCall
hello = reads 2 ∷ writes (9 ∷ []) ∷ reads 1 ∷ []

replayed_example :
    let peeked = peek_calls hello (new_peek_conn (5 ∷ 6 ∷ 7 ∷ 8 ∷ [])) in
    let after = prefix_reads (2 ∷ 2 ∷ []) (replay_conn peeked.1) in
    (peeked.0 ++ peeked.1.conn ≡ 5 ∷ 6 ∷ 7 ∷ 8 ∷ [])
    × (after.0 ++ (after.1.prefix ++ after.1.conn) ≡ 5 ∷ 6 ∷ 7 ∷ 8 ∷ [])
replayed_example = replayed hello (2 ∷ 2 ∷ []) (5 ∷ 6 ∷ 7 ∷ 8 ∷ [])

-- The second read ends with the record.
short_read :
    (prefix_reads (2 ∷ 2 ∷ []) (record { prefix = 5 ∷ 6 ∷ 7 ∷ []; conn = 8 ∷ [] })).0
    ≡ 5 ∷ 6 ∷ 7 ∷ []
unfolding prefix_reads prefix_read
short_read = refl

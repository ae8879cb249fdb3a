-- ===== src/Runtime/Server/Safety.antt =====
-- What a failed start leaves behind, and what becomes of an error of the running server.
use caddy_bifrost.Base.{◌≡◌, true, some, [], arith}
use caddy_bifrost.Text.{Text}
use caddy_bifrost.Runtime.Server.{
  StartError, started, failed, done, sending, Server, new_server, open_context, listen_first,
  signal_ready, take_ready, fail_start, take_error, after_run, send_error, begin_stop, Step, start,
  listens, run_ready, run_returns, run_over, run_sends, select_ready, select_error, select_timeout,
  start_fails, stop_begins, stop_returns, Reach, here, next,
}
use caddy_bifrost.Runtime.Server.Invariant.{ServerOk, NothingLeft, Reach-ServerOk, reached-ServerOk}

-- Where `Start` is called once, and `Stop` at any time: a `Start` that has returned an error has left
-- nothing behind, at that moment and at any later one. Its context is cancelled, and its goroutine is over, `Run` having returned, or no goroutine
-- was launched and no listener is open.
pub failed_start_clean :
    (s : Server) (e : StartError)
    → Reach new_server s
    → s.main ≡ failed e
    → (s.cancelled ≡ true) × NothingLeft s
failed_start_clean s e r at_failed = let v = reached-ServerOk r in ground (arith, v.work)

-- The error stays in the channel.
record Lost (e : Text) (s : Server) : Type 0 where
  main : s.main ≡ started
  work : s.work ≡ done
  kept : s.server_err ≡ some e

Step-Lost : {e : Text} {s t : Server} → Step s t → Lost e s → Lost e t
unfolding open_context listen_first signal_ready take_ready fail_start take_error after_run
    send_error begin_stop
Step-Lost (start at_idle) v = ground (arith, v.main)
Step-Lost (listens listened made at_opening) v = ground (arith, v.main)
Step-Lost (run_ready running) v = ground (arith, v.work)
Step-Lost (run_returns result running) v = ground (arith, v.work)
Step-Lost (run_over result back) v = ground (arith, v.work)
Step-Lost (run_sends e sends) v = ground (arith, v.work)
Step-Lost (select_ready waits there) v = ground (arith, v.main)
Step-Lost (select_error e waits there) v = ground (arith, v.main)
Step-Lost (select_timeout waits) v = ground (arith, v.main)
Step-Lost (start_fails e fails waited) v = ground (arith, v.main)
Step-Lost (stop_begins fresh) v = ground (arith, v.main)
Step-Lost (stop_returns stops waited) v = ground (arith, v.main)

Reach-Lost : {e : Text} {s t : Server} → Reach s t → Lost e s → Lost e t
Reach-Lost here v = v
Reach-Lost (next r st) v = Step-Lost st (Reach-Lost r v)

-- An error with which `Run` ends once `Start` has returned goes into the channel that nobody reads
-- any more, and is never logged, whatever happens afterwards.
pub run_error_lost :
    (s t : Server) (e : Text)
    → Reach new_server s
    → s.main ≡ started
    → s.work ≡ sending e
    → Reach (send_error e s) t
    → (t.server_err ≡ some e) × (t.logged ≡ [])
unfolding send_error
run_error_lost s t e r at_started sends later =
    let v = reached-ServerOk r in
    let lost = Reach-Lost later (sent v) in
    (lost.kept, (Reach-ServerOk later (Reach-ServerOk (next here (run_sends e sends)) v)).silent)
  where
    sent : ServerOk s → Lost e (send_error e s)
    sent v = ground (arith, v.channel)

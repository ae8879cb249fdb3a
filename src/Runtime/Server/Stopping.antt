-- ===== src/Runtime/Server/Stopping.antt =====
-- What a stop leaves behind, and what it leaves running where it came too early.
use caddy_bifrost.Base.{◌≡◌, ◌≢◌, true, false, arith}
use caddy_bifrost.Runtime.Server.{
  Main, absent, idle, opening, waiting, started, failing, failed, not_called, stopping, Stop,
  stopped, Server, new_server, open_context, listen_first, signal_ready, take_ready, fail_start,
  take_error, after_run, send_error, begin_stop, Waited, Step, start, listens, run_ready,
  run_returns, run_over, run_sends, select_ready, select_error, select_timeout, start_fails,
  stop_begins, stop_returns, Reach, here, next,
}
use caddy_bifrost.Base.{none, some, ok, err}
use caddy_bifrost.Runtime.Server.Invariant.{ServerOk, NothingLeft, Reach-ServerOk, reached-ServerOk}

-- `Start` has come to its `select`, or has failed.
abbrev pub Launched : Main → Type 0
Launched idle = ⊥
Launched opening = ⊥
Launched waiting = Unit
Launched started = Unit
Launched (failing e) = Unit
Launched (failed e) = Unit

abbrev EndedOk : Server → Stop → Type 0
EndedOk s not_called = ⊥
EndedOk s stopping = Unit
EndedOk s stopped = Waited s.work

-- `Stop` has cancelled the context of the one `Start`.
record Ending (s : Server) : Type 0 where
  launched : Launched s.main
  cancelled : s.cancelled ≡ true
  waited : EndedOk s s.stop

Step-Ending : {s t : Server} → Step s t → Ending s → Ending t
unfolding open_context listen_first signal_ready take_ready fail_start take_error after_run
    send_error begin_stop
Step-Ending {s} (start at_idle) v = ground (arith, v.launched)
Step-Ending {s} (listens listened made at_opening) v = ground (arith, v.launched)
Step-Ending {s} (run_ready running) v = ground arith
Step-Ending {s} (run_returns result running) v = ground arith
Step-Ending {s} (run_over none back) v = ground arith
Step-Ending {s} (run_over (some e) back) v = ground arith
Step-Ending {s} (run_sends e sends) v = ground arith
Step-Ending {s} (select_ready waits there) v = ground arith
Step-Ending {s} (select_error e waits there) v = ground arith
Step-Ending {s} (select_timeout waits) v = ground arith
Step-Ending {s} (start_fails e fails waited) v = ground arith
Step-Ending {s} (stop_begins fresh) v = ground (arith, v.waited)
Step-Ending {s} (stop_returns stops waited) v = ground arith

Reach-Ending : {s t : Server} → Reach s t → Ending s → Ending t
Reach-Ending here v = v
Reach-Ending (next r st) v = Step-Ending st (Reach-Ending r v)

-- Where `Start` is called once: the first `Stop`, if it begins once `Start` has come to its `select` or has failed: when it has
-- returned, the context is cancelled, and the goroutine is over, `Run` having returned, or none was
-- launched and no listener is open.
pub stop_ends :
    (s t : Server)
    → Reach new_server s
    → Launched s.main
    → s.stop ≡ not_called
    → Reach (begin_stop s) t
    → t.stop ≡ stopped
    → (t.cancelled ≡ true) × NothingLeft t
unfolding begin_stop
stop_ends s t r launched fresh later at_stopped =
    let v = reached-ServerOk r in
    let u = Reach-ServerOk later (Reach-ServerOk (next here (stop_begins fresh)) v) in
    let w = Reach-Ending later (ending v) in (w.cancelled, ended t u w at_stopped)
  where
    ending : ServerOk s → Ending (begin_stop s)
    ending v = record { launched = launched; cancelled = ground (arith, v.set); waited = tt }

    ended : (t : Server) → ServerOk t → Ending t → t.stop ≡ stopped → NothingLeft t
    ended t u w h = ground (arith, u.work, w.launched, w.waited)

abbrev RunningOk : Server → Main → Type 0
RunningOk s idle = Unit
RunningOk s opening = s.cancelled ≡ false
RunningOk s waiting = s.cancelled ≡ false
RunningOk s started = s.cancelled ≡ false
RunningOk s (failing e) = Unit
RunningOk s (failed e) = Unit

-- `stopOnce` is used up, and no `Stop` has cancelled the context.
record UsedUp (s : Server) : Type 0 where
  used : s.stop ≢ not_called
  running : RunningOk s s.main

Step-UsedUp : {s t : Server} → Step s t → UsedUp s → UsedUp t
unfolding open_context listen_first signal_ready take_ready fail_start take_error after_run
    send_error begin_stop
Step-UsedUp {s} (start at_idle) v = ground arith
Step-UsedUp {s} (listens (err e) made at_opening) v = ground arith
Step-UsedUp {s} (listens (ok opened) (err e) at_opening) v = ground arith
Step-UsedUp {s} (listens (ok opened) (ok made) at_opening) v = ground arith
Step-UsedUp {s} (run_ready running) v = ground arith
Step-UsedUp {s} (run_returns result running) v = ground arith
Step-UsedUp {s} (run_over none back) v = ground arith
Step-UsedUp {s} (run_over (some e) back) v = ground arith
Step-UsedUp {s} (run_sends e sends) v = ground arith
Step-UsedUp {s} (select_ready waits there) v = ground arith
Step-UsedUp {s} (select_error e waits there) v = ground arith
Step-UsedUp {s} (select_timeout waits) v = ground arith
Step-UsedUp {s} (start_fails e fails waited) v = ground arith
Step-UsedUp {s} (stop_begins fresh) v = ground (arith, v.used)
Step-UsedUp {s} (stop_returns stops waited) v = ground (arith, v.used)

Reach-UsedUp : {s t : Server} → Reach s t → UsedUp s → UsedUp t
Reach-UsedUp here v = v
Reach-UsedUp (next r st) v = Step-UsedUp st (Reach-UsedUp r v)

-- Where `Start` is called once: a `Stop` that begins before it is called uses up the one stop there is: whatever is called
-- afterwards, a server that comes up has a launched goroutine and a context that is not cancelled,
-- and no other `Stop` can begin.
pub stop_used_up :
    (s t : Server)
    → Reach new_server s
    → s.main ≡ idle
    → s.stop ≡ not_called
    → Reach (begin_stop s) t
    → t.main ≡ started
    → (t.cancelled ≡ false) × (t.work ≢ absent) × (t.stop ≢ not_called)
unfolding begin_stop
stop_used_up s t r at_idle fresh later at_started =
    let v = Reach-ServerOk (next here (stop_begins fresh)) (reached-ServerOk r) in
    let u = Reach-ServerOk later v in
    let w = Reach-UsedUp later (record { used = λ h. cc; running = rw at_idle tt }) in
    (ground (arith, w.running), ground (arith, u.work), w.used)

-- ===== src/Runtime/Server/Invariant.antt =====
-- What holds of a server runtime at every moment of its life.
use caddy_bifrost.Base.{
  ◌≡◌, ◌≢◌, ◌⊎◌, inl, refl, true, false, Option, none, some, [], arith, ok, err,
}
use caddy_bifrost.Text.{Text}
use caddy_bifrost.Runtime.Server.{
  Main, idle, opening, waiting, started, failing, failed, Work, absent, in_run, done, returned,
  sending, Server, new_server, open_context, listen_first, signal_ready, take_ready, fail_start,
  take_error, after_run, send_error, begin_stop, Step, start, listens, run_ready, run_returns,
  run_over, run_sends, select_ready, select_error, select_timeout, start_fails, stop_begins,
  stop_returns, Reach, here, next,
}

-- The goroutine was never launched, and nothing is open.
abbrev pub Untouched : Server → Type 0
Untouched s = (s.work ≡ absent) × (s.listening ≡ false) × (s.server_set ≡ false)

-- Nothing runs and nothing stays open: the goroutine is behind the return of `Run`, or there never
-- was one and no listener is open.
abbrev pub NothingLeft : Server → Type 0
NothingLeft s = (s.work ≡ done) ⊎ Untouched s

-- The goroutine against the place of `Start`, and the channel of errors against the goroutine.
abbrev pub WorkOk : Server → Main → Type 0
WorkOk s idle = Untouched s × (s.cancel_set ≡ false)
WorkOk s opening = Untouched s
WorkOk s waiting = (s.server_set ≡ true) × (s.work ≢ absent)
WorkOk s started = (s.server_set ≡ true) × (s.work ≢ absent)
WorkOk s (failing e) = (s.cancelled ≡ true) × (s.work ≢ absent)
WorkOk s (failed e) = (s.cancelled ≡ true) × NothingLeft s

-- An error waits in the channel only behind the goroutine's end.
abbrev pub ChannelOk : Work → Option Text → Type 0
ChannelOk done e = Unit
ChannelOk absent e = e ≡ none
ChannelOk in_run e = e ≡ none
ChannelOk (returned result) e = e ≡ none
ChannelOk (sending x) e = e ≡ none

pub record ServerOk (s : Server) : Type 0 where
  pub work : WorkOk s s.main
  pub channel : ChannelOk s.work s.server_err
  pub silent : s.logged ≡ []
  -- A context is set once `Start` was called.
  pub set : (s.main ≡ idle) ⊎ (s.cancel_set ≡ true)

pub new_server-ServerOk : ServerOk new_server
new_server-ServerOk = record {
  work = ((refl, refl, refl), refl);
  channel = refl;
  silent = refl;
  set = inl refl;
}

pub Step-ServerOk : {s t : Server} → Step s t → ServerOk s → ServerOk t
unfolding open_context listen_first signal_ready take_ready fail_start take_error after_run
    send_error begin_stop
Step-ServerOk {s} (start at_idle) v = ground arith
Step-ServerOk {s} (listens (err e) made at_opening) v = ground arith
Step-ServerOk {s} (listens (ok opened) (err e) at_opening) v = ground arith
Step-ServerOk {s} (listens (ok opened) (ok made) at_opening) v = ground arith
Step-ServerOk {s} (run_ready running) v = ground arith
Step-ServerOk {s} (run_returns result running) v = ground arith
Step-ServerOk {s} (run_over none back) v = ground arith
Step-ServerOk {s} (run_over (some e) back) v = ground arith
Step-ServerOk {s} (run_sends e sends) v = ground arith
Step-ServerOk {s} (select_ready waits there) v = ground arith
Step-ServerOk {s} (select_error e waits there) v = ground arith
Step-ServerOk {s} (select_timeout waits) v = ground arith
Step-ServerOk {s} (start_fails e fails waited) v = ground arith
Step-ServerOk {s} (stop_begins fresh) v = ground arith
Step-ServerOk {s} (stop_returns stops waited) v = ground arith

pub Reach-ServerOk : {s t : Server} → Reach s t → ServerOk s → ServerOk t
Reach-ServerOk here v = v
Reach-ServerOk (next r st) v = Step-ServerOk st (Reach-ServerOk r v)

pub reached-ServerOk : {s : Server} → Reach new_server s → ServerOk s
reached-ServerOk r = Reach-ServerOk r new_server-ServerOk

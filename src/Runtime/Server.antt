-- ===== src/Runtime/Server.antt =====
-- internal/runtime/server.go: the life of a server runtime, `Start` and `Stop` against the goroutine
-- that `Start` launches. What the tunnel library's `Run` does is left open: it may signal that it is
-- ready, and it may return, at any time. The five seconds that `Start` waits at most may pass at any
-- time. `Start` is called once; `Stop` may be called at any time, also before `Start` and during it.
pub mod Invariant
pub mod Safety
pub mod Stopping
use caddy_bifrost.Base.{
  Bool, true, false, not, ◌||◌, Option, none, some, List, [], ◌∷◌, if◌then◌else◌, is_some, Result,
  ok, err, ◌≡◌,
}
use caddy_bifrost.Text.{Text}

-- What `Start` fails with: an error of the listener, of `bifrost.NewServer` or of `Run`, or its
-- time is up.
pub data StartError : Type 0 where
  listen_failed new_server_failed run_failed : Text → StartError
  not_ready : StartError

-- Where `Start` is: not called, about to listen, at its `select`, in `failStart` before it returns,
-- or back.
pub data Main : Type 0 where
  idle opening waiting started : Main
  failing failed : StartError → Main

-- Where the goroutine is: not launched, in `Run`, back from it, about to hand its error on, or
-- behind `wg.Done`.
pub data Work : Type 0 where
  absent in_run done : Work
  returned : Option Text → Work
  sending : Text → Work

pub data Stop : Type 0 where
  not_called stopping stopped : Stop

-- `ready` and `server_err` are the two channels, each with room for one value. `logged` holds the
-- errors that the goroutine has logged.
pub record Server : Type 0 where
  pub main : Main
  pub work : Work
  pub stop : Stop
  pub cancel_set : Bool
  pub cancelled : Bool
  pub listening : Bool
  pub server_set : Bool
  pub ready : Bool
  pub server_err : Option Text
  pub logged : List Text

abbrev pub new_server : Server
new_server = record {
  main = idle;
  work = absent;
  stop = not_called;
  cancel_set = false;
  cancelled = false;
  listening = false;
  server_set = false;
  ready = false;
  server_err = none;
  logged = [];
}

-- `bifrost.NewServer` on an open listener: on an error the listener is closed.
create_server : Result Text (Unit {0}) → Server → Server
create_server (err e) s = record s {
  listening = false;
  cancelled = true;
  main = failed (new_server_failed e);
}
create_server (ok made) s = record s { server_set = true; work = in_run; main = waiting }

unfoldable pub listen_first : Result Text (Unit {0}) → Result Text (Unit {0}) → Server → Server
unfolding create_server
listen_first (err e) made s = record s { cancelled = true; main = failed (listen_failed e) }
listen_first (ok opened) made s = create_server made (record s { listening = true })

-- The first lines of `Server.Start`.
unfoldable pub open_context : Server → Server
open_context s = record s {
  cancel_set = true;
  cancelled = false;
  ready = false;
  server_err = none;
  main = opening;
}

-- `Server.Start` up to its `select`, given what `ListenCaddy` and `bifrost.NewServer` return.
unfoldable pub begin_start : Result Text (Unit {0}) → Result Text (Unit {0}) → Server → Server
unfolding listen_first open_context
begin_start listened made s = listen_first listened made (open_context s)

-- The callback `Ready`.
unfoldable pub signal_ready : Server → Server
signal_ready s = record s { ready = true }

-- The case of the `select` that takes the address out of the channel.
unfoldable pub take_ready : Server → Server
take_ready s = record s { ready = false; main = started }

-- `failStart`, up to its wait.
unfoldable pub fail_start : StartError → Server → Server
fail_start e s = record s { cancelled = true; main = failing e }

-- The case that takes the error out of the channel.
unfoldable pub take_error : Text → Server → Server
unfolding fail_start
take_error e s = fail_start (run_failed e) (record s { server_err = none })

-- `err != nil && ctx.Err() == nil`.
check_error : Option Text → Server → Server
check_error none s = record s { work = done }
check_error (some e) s = record s { work = if s.cancelled then done else sending e }

unfoldable pub after_run : Option Text → Server → Server
unfolding check_error
after_run result s = check_error result s

-- `select { case serverErr <- err: default: s.logger.Error(…) }`.
unfoldable pub send_error : Text → Server → Server
send_error e s =
    if is_some s.server_err
    then record s { logged = e ∷ s.logged; work = done }
    else record s { server_err = some e; work = done }

-- `Server.Stop`, up to its wait; a later call waits for the first and changes nothing.
unfoldable pub begin_stop : Server → Server
begin_stop s = record s { stop = stopping; cancelled = s.cancel_set || s.cancelled }

-- `wg.Wait()` returns: the goroutine was not launched, or is done.
abbrev pub Waited : Work → Type 0
Waited absent = Unit
Waited done = Unit
Waited in_run = ⊥
Waited (returned result) = ⊥
Waited (sending e) = ⊥

-- The steps of `Start`, `Stop` and the goroutine.
pub data Step (s : Server) : Server → Type 0 where
  start : s.main ≡ idle → Step s (open_context s)
  listens :
      (listened made : Result Text (Unit {0}))
      → s.main ≡ opening
      → Step s (listen_first listened made s)
  run_ready : s.work ≡ in_run → Step s (signal_ready s)
  run_returns :
      (result : Option Text) → s.work ≡ in_run → Step s (record s { work = returned result })
  run_over : (result : Option Text) → s.work ≡ returned result → Step s (after_run result s)
  run_sends : (e : Text) → s.work ≡ sending e → Step s (send_error e s)
  select_ready : s.main ≡ waiting → s.ready ≡ true → Step s (take_ready s)
  select_error : (e : Text) → s.main ≡ waiting → s.server_err ≡ some e → Step s (take_error e s)
  select_timeout : s.main ≡ waiting → Step s (fail_start not_ready s)
  start_fails :
      (e : StartError) → s.main ≡ failing e → Waited s.work → Step s (record s { main = failed e })
  stop_begins : s.stop ≡ not_called → Step s (begin_stop s)
  stop_returns : s.stop ≡ stopping → Waited s.work → Step s (record s { stop = stopped })

pub data Reach (s : Server) : Server → Type 0 where
  here : Reach s s
  next : {t u : Server} → Reach s t → Step t u → Reach s u

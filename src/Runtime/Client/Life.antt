-- ===== src/Runtime/Client/Life.antt =====
-- internal/runtime/client.go: the life of a client runtime, `Start` and `Stop` against the goroutine
-- that `Start` launches. What the tunnel library's `RunClient` does is left open: it may return at
-- any time. `Start` is called once, and is one step: a client runtime is handed out once it is back.
pub mod Laws
pub mod Flags
use caddy_bifrost.Base.{
  Bool, true, false, ◌||◌, Option, none, some, List, [], ◌∷◌, if◌then◌else◌, ◌≡◌,
}
use caddy_bifrost.Text.{Text}

-- Where the goroutine is: not launched, in `RunClient`, back from it, or behind `wg.Done`, where it
-- keeps what `RunClient` returned and whether the context was cancelled by then.
pub data RunState : Type 0 where
  absent in_run : RunState
  returned : Option Text → RunState
  done : Option Text → Bool → RunState

pub data StopCall : Type 0 where
  not_called stopping stopped : StopCall

-- `logged` holds the errors that the goroutine has logged.
pub record Runner : Type 0 where
  pub work : RunState
  pub stop : StopCall
  pub cancel_set : Bool
  pub cancelled : Bool
  pub logged : List Text

abbrev pub new_runner : Runner
new_runner = record {
  work = absent;
  stop = not_called;
  cancel_set = false;
  cancelled = false;
  logged = [];
}

-- `Client.Start`.
unfoldable pub begin_run : Runner → Runner
begin_run r = record r { work = in_run; cancel_set = true; cancelled = false }

log_error : Bool → Option Text → List Text → List Text
log_error cancelled none logged = logged
log_error cancelled (some e) logged = if cancelled then logged else e ∷ logged

-- The goroutine behind `RunClient`.
unfoldable pub end_run : Option Text → Runner → Runner
unfolding log_error
end_run result r = record r {
  work = done result r.cancelled;
  logged = log_error r.cancelled result r.logged;
}

-- `Client.Stop`, up to its wait; a later call waits for the first and changes nothing.
unfoldable pub cancel_run : Runner → Runner
cancel_run r = record r { stop = stopping; cancelled = r.cancel_set || r.cancelled }

-- `wg.Wait()` returns.
abbrev pub RunEnded : RunState → Type 0
RunEnded absent = Unit
RunEnded (done result cancelled) = Unit
RunEnded in_run = ⊥
RunEnded (returned result) = ⊥

pub data Step (r : Runner) : Runner → Type 0 where
  starts : r.work ≡ absent → Step r (begin_run r)
  run_returns :
      (result : Option Text) → r.work ≡ in_run → Step r (record r { work = returned result })
  run_over : (result : Option Text) → r.work ≡ returned result → Step r (end_run result r)
  stop_begins : r.stop ≡ not_called → Step r (cancel_run r)
  stop_returns : r.stop ≡ stopping → RunEnded r.work → Step r (record r { stop = stopped })

pub data Reach (r : Runner) : Runner → Type 0 where
  here : Reach r r
  next : {s t : Runner} → Reach r s → Step s t → Reach r t

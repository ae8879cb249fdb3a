-- ===== src/Runtime/Client/Life/Laws.antt =====
-- What holds of a client runtime at every moment of its life.
use caddy_bifrost.Base.{◌≡◌, refl, ◌⊎◌, inr, true, false, none, some, [], ◌∷◌, arith}
use caddy_bifrost.Runtime.Client.Life.{
  RunState, absent, in_run, returned, done, StopCall, not_called, stopping, stopped, Runner,
  new_runner, begin_run, end_run, cancel_run, RunEnded, Step, starts, run_returns, run_over,
  stop_begins, stop_returns, Reach, here, next,
}

-- What has been logged, wherever the goroutine is: an error is logged exactly if the context was not
-- cancelled when it came.
abbrev pub LoggedOk : Runner → RunState → Type 0
LoggedOk r absent = r.logged ≡ []
LoggedOk r in_run = r.logged ≡ []
LoggedOk r (returned result) = r.logged ≡ []
LoggedOk r (done none cancelled) = r.logged ≡ []
LoggedOk r (done (some e) true) = (r.logged ≡ []) × (r.cancelled ≡ true)
LoggedOk r (done (some e) false) = r.logged ≡ e ∷ []

abbrev pub StopOk : Runner → StopCall → Type 0
StopOk r not_called = r.cancelled ≡ false
StopOk r stopping = Unit
StopOk r stopped = (r.cancelled ≡ false) ⊎ RunEnded r.work

pub record RunnerOk (r : Runner) : Type 0 where
  pub logged : LoggedOk r r.work
  pub stop : StopOk r r.stop
  pub set : (r.cancel_set ≡ true) ⊎ (r.work ≡ absent)

Step-RunnerOk : {r s : Runner} → Step r s → RunnerOk r → RunnerOk s
unfolding begin_run end_run cancel_run
Step-RunnerOk {r} (starts fresh) v = ground arith
Step-RunnerOk {r} (run_returns result running) v = ground arith
Step-RunnerOk {r} (run_over none back) v = ground arith
Step-RunnerOk {r} (run_over (some e) back) v = ground arith
Step-RunnerOk {r} (stop_begins unstopped) v = ground arith
Step-RunnerOk {r} (stop_returns stops waited) v = ground arith

Reach-RunnerOk : {r s : Runner} → Reach r s → RunnerOk r → RunnerOk s
Reach-RunnerOk here v = v
Reach-RunnerOk (next q st) v = Step-RunnerOk st (Reach-RunnerOk q v)

new_runner-RunnerOk : RunnerOk new_runner
new_runner-RunnerOk = record { logged = refl; stop = refl; set = inr refl }

-- At every moment of its life a client runtime that is started at most once has logged what it has
-- to: nothing before the tunnel
-- is over or where it ended without an error, nothing where it ended with an error on a cancelled
-- context, and exactly that error where the context was not cancelled by then. It is not cancelled
-- before a `Stop` begins, and where it is cancelled and `Stop` is back, its goroutine is over or was
-- never launched.
pub runner-RunnerOk : (r : Runner) → Reach new_runner r → RunnerOk r
runner-RunnerOk r q = Reach-RunnerOk q new_runner-RunnerOk

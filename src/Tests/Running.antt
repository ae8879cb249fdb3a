-- ===== src/Tests/Running.antt =====
-- Tests of the life of a client runtime.
use caddy_bifrost.Base.{false, true, some, [], ◌∷◌, refl}
use caddy_bifrost.Text.{text}
use caddy_bifrost.Runtime.Client.Life.{
  done, not_called, Runner, new_runner, begin_run, end_run, starts, run_returns, run_over, Reach,
  here, next,
}
use caddy_bifrost.Runtime.Client.Life.Laws.{RunnerOk, runner-RunnerOk}

abbrev ended_run : Runner
ended_run = record {
  work = done (some (text "lost")) false;
  stop = not_called;
  cancel_set = true;
  cancelled = false;
  logged = text "lost" ∷ [];
}

ended_run-reached : Reach new_runner ended_run
unfolding begin_run end_run
ended_run-reached =
    next (next (next here (starts refl)) (run_returns (some (text "lost")) refl))
      (run_over (some (text "lost")) refl)

runner-RunnerOk_example : RunnerOk ended_run
runner-RunnerOk_example = runner-RunnerOk ended_run ended_run-reached

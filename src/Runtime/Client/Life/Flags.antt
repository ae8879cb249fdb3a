-- ===== src/Runtime/Client/Life/Flags.antt =====
-- The flags of a client runtime, as the leases see them, against the steps of its goroutine.
use caddy_bifrost.Base.{◌≡◌, refl, subst, Bool, true, false, arith, ◌⊎◌}
use caddy_bifrost.Config.{ClientConfig}
use caddy_bifrost.Runtime.Client.{Client, is_live, start_client, stop_client}
use caddy_bifrost.Runtime.Client.Life.{
  in_run, StopCall, not_called, stopping, stopped, Runner, new_runner, begin_run, end_run,
  cancel_run, Step, starts, run_returns, run_over, stop_begins, stop_returns, Reach,
}
use caddy_bifrost.Runtime.Client.Life.Laws.{runner-RunnerOk}

abbrev called : StopCall → Bool
called not_called = false
called stopping = true
called stopped = true

abbrev pub flags : ClientConfig → Runner → Client
flags cfg r = record {
  cfg = cfg;
  started = r.cancel_set;
  cancelled = r.cancelled;
  stop_once = called r.stop;
}

-- What one step does to the flags.
pub data FlagStep (c : Client) : Client → Type 0 where
  stays : FlagStep c c
  starts_client : FlagStep c (start_client c)
  stops_client : c.stop_once ≡ false → FlagStep c (stop_client c)

stop_flags :
    (cfg : ClientConfig) (r : Runner)
    → r.stop ≡ not_called
    → stop_client (flags cfg r) ≡ flags cfg (cancel_run r)
unfolding stop_client cancel_run
stop_flags cfg r h = rw h refl

-- Every step of a client's life is, for its flags, a start, a first stop, or nothing.
pub Step-FlagStep :
    (cfg : ClientConfig) {r s : Runner} → Step r s → FlagStep (flags cfg r) (flags cfg s)
unfolding begin_run end_run start_client
Step-FlagStep cfg {r} (starts fresh) = starts_client
Step-FlagStep cfg {r} (run_returns result running) = stays
Step-FlagStep cfg {r} (run_over result back) = stays
Step-FlagStep cfg {r} (stop_begins unstopped) =
    subst (FlagStep (flags cfg r)) (stop_flags cfg r unstopped) (stops_client (rw unstopped refl))
Step-FlagStep cfg {r} (stop_returns stops waited) =
    subst (λ b. FlagStep (flags cfg r) (record (flags cfg r) { stop_once = b })) (rw stops refl)
      stays

-- A tunnel runs only while the flags say that it may, or with a cancelled context.
pub in_run-is_live :
    (cfg : ClientConfig) (r : Runner)
    → Reach new_runner r
    → r.work ≡ in_run
    → (is_live (flags cfg r) ≡ true) ⊎ (r.cancelled ≡ true)
in_run-is_live cfg r q h = let v = runner-RunnerOk r q in ground (arith, v.set)

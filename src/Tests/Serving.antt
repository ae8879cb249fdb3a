-- ===== src/Tests/Serving.antt =====
-- Tests of the life of the server runtime and of the transport module.
use caddy_bifrost.Base.{
  ◌≡◌, ◌≢◌, refl, true, false, Option, none, some, [], Result, ok, ◌>>=◌, ℤ, pos,
}
use caddy_bifrost.Text.{Text, text, is_space, trim_left, trim_right, trim_space}
use caddy_bifrost.HostPort.{join_host_port}
use caddy_bifrost.Config.{TransportConfig}
use caddy_bifrost.Runtime.Transport.{TransportError, Url}
use caddy_bifrost.TransportModule.{
  FoundApp, with_server, Tunnel, provision_transport, module_round_trip,
}
use caddy_bifrost.TransportModule.Laws.{IsUpstream, module_round_trip-open_stream}
use caddy_bifrost.Runtime.Server.{
  not_ready, started, failed, absent, not_called, done, in_run, sending, stopped, Server,
  new_server, open_context, listen_first, signal_ready, take_ready, fail_start, after_run,
  send_error, begin_stop, start, listens, run_ready, run_returns, run_over, run_sends, select_ready,
  select_timeout, start_fails, stop_begins, stop_returns, Reach, here, next,
}
use caddy_bifrost.Runtime.Server.Safety.{failed_start_clean, run_error_lost}
use caddy_bifrost.Runtime.Server.Invariant.{NothingLeft}
use caddy_bifrost.Runtime.Server.Stopping.{stop_ends, stop_used_up}

-- The time limit passes, then `Run` returns without an error and `Start` fails.
abbrev timed_out : Server
timed_out = record new_server {
  main = failed not_ready;
  work = done;
  cancel_set = true;
  cancelled = true;
  listening = true;
  server_set = true;
}

timing_out : Reach new_server timed_out
unfolding open_context listen_first fail_start after_run
timing_out =
    next
      (next
        (next
          (next (next (next here (start refl)) (listens (ok tt) (ok tt) refl))
            (select_timeout refl))
          (run_returns none refl))
        (run_over none refl))
      (start_fails not_ready refl tt)

failed_start_clean_example : (timed_out.cancelled ≡ true) × NothingLeft timed_out
failed_start_clean_example = failed_start_clean timed_out not_ready timing_out refl

-- A server that is up, and whose `Run` then ends with an error.
abbrev broken : Server
broken = record new_server {
  main = started;
  work = sending (text "accept");
  cancel_set = true;
  listening = true;
  server_set = true;
}

breaking : Reach new_server broken
unfolding open_context listen_first signal_ready take_ready after_run
breaking =
    next
      (next
        (next (next (next (next here (start refl)) (listens (ok tt) (ok tt) refl)) (run_ready refl))
          (select_ready refl refl))
        (run_returns (some (text "accept")) refl))
      (run_over (some (text "accept")) refl)

abbrev broken_stopped : Server
broken_stopped = record broken {
  work = done;
  server_err = some (text "accept");
  stop = stopped;
  cancelled = true;
}

stopping_broken : Reach (send_error (text "accept") broken) broken_stopped
unfolding send_error begin_stop
stopping_broken = next (next here (stop_begins refl)) (stop_returns refl tt)

run_error_lost_example :
    (broken_stopped.server_err ≡ some (text "accept")) × (broken_stopped.logged ≡ [])
run_error_lost_example =
    run_error_lost broken broken_stopped (text "accept") breaking refl refl stopping_broken

abbrev broken_sent : Server
broken_sent = record broken { work = done; server_err = some (text "accept") }

sent : Reach new_server broken_sent
unfolding send_error
sent = next breaking (run_sends (text "accept") refl)

stopping_sent : Reach (begin_stop broken_sent) broken_stopped
unfolding begin_stop
stopping_sent = next here (stop_returns refl tt)

stop_ends_example : (broken_stopped.cancelled ≡ true) × NothingLeft broken_stopped
stop_ends_example = stop_ends broken_sent broken_stopped sent tt refl stopping_sent refl

-- `Stop`, then `Start`.
abbrev up_after_stop : Server
up_after_stop = record new_server {
  main = started;
  work = in_run;
  stop = stopped;
  cancel_set = true;
  listening = true;
  server_set = true;
}

starting_late : Reach (begin_stop new_server) up_after_stop
unfolding open_context listen_first signal_ready take_ready begin_stop
starting_late =
    next
      (next
        (next (next (next here (stop_returns refl tt)) (start refl)) (listens (ok tt) (ok tt) refl))
        (run_ready refl))
      (select_ready refl refl)

stop_used_up_example :
    (up_after_stop.cancelled ≡ false)
    × (up_after_stop.work ≢ absent)
    × (up_after_stop.stop ≢ not_called)
stop_used_up_example = stop_used_up new_server up_after_stop here refl refl starting_late refl

-- A transport that always dials port 80, on a tunnel whose streams answer with their endpoint.
abbrev echo : Option ℤ → Text → Result TransportError Text
echo timeout endpoint = ok endpoint

abbrev dialling : (Text → Result TransportError Text) → Url → Result TransportError Text
dialling dial url = dial (join_host_port url.host (text "80")) >>= λ c. ok c

abbrev edge_apps : Text → Result Text (FoundApp (Tunnel Text))
edge_apps name = ok (with_server (some echo))

abbrev edge_config : TransportConfig
edge_config = record { app = text " edge"; dial_timeout = pos 5 }

home-IsUpstream : IsUpstream (text "home") (text "80")
unfolding join_host_port trim_space trim_left trim_right is_space
home-IsUpstream = record {
  is_host = record { no_open = refl; no_close = refl };
  is_port = record { no_colon = refl; no_open = refl; no_close = refl };
  set = refl;
  trimmed = refl;
  whole = refl;
}

module_round_trip-open_stream_example :
    ((provision_transport edge_apps edge_config).1 ≡ ok tt)
    × (module_round_trip dialling
          (provision_transport edge_apps edge_config).0
          (record { scheme = []; host = text "home" })
        ≡ ok (text "home"))
module_round_trip-open_stream_example =
    module_round_trip-open_stream dialling (λ c url. ok c) edge_apps edge_config echo []
      (text "home") (text "80") refl home-IsUpstream (λ dial. refl)

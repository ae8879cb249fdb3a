-- ===== src/Passthrough/Proxy/Laws.antt =====
-- A stream of a server runtime that is not running.
use caddy_bifrost.Base.{◌≡◌, refl, ℕ, true, none, some, [], ◌∷◌}
use caddy_bifrost.Text.{strip_prefix, contains}
use caddy_bifrost.Passthrough.{Resolution, server_unavailable}
use caddy_bifrost.Passthrough.Stream.{classify}
use caddy_bifrost.Passthrough.Stream.Outcome.{rejection, stream-rejected}
use caddy_bifrost.Passthrough.Proxy.{not_running, proxy_stream_with_observer, passthrough_stream}

classify-not_running : classify (some not_running) ≡ server_unavailable
unfolding classify contains strip_prefix
classify-not_running = refl

-- A stream that comes to a server runtime which is not running: its connection is closed, and its
-- observer sees one rejection and nothing else, for the stream's endpoint and key, at that time, with
-- no bytes and with the reason that the server is unavailable.
pub not_running_rejected :
    (resolution : Resolution) (now : ℕ)
    → ((passthrough_stream true resolution none now).0 ≡ true)
      × ((passthrough_stream true resolution none now).2
          ≡ rejection resolution now server_unavailable ∷ [])
unfolding passthrough_stream proxy_stream_with_observer
not_running_rejected resolution now =
    (refl, rw classify-not_running at (stream-rejected resolution [] now not_running tt))

-- ===== src/App/Life.antt =====
-- app.go: `App.Start` and `App.Stop`, which pass the call on to the app's runtime. The process holds
-- the registry of client runtimes and whatever the server runtimes need; what a server runtime does
-- on these calls is a parameter here.
pub mod Reload
use caddy_bifrost.Base.{Option, none, some, Result, ok, err, map_err}
use caddy_bifrost.Text.{Text}
use caddy_bifrost.Runtime.Client.{ClientError}
use caddy_bifrost.Leases.{World, Lease, start_lease, stop_lease}
use caddy_bifrost.Runtime.Making.{NewServer}
use caddy_bifrost.App.{
  AppError, not_provisioned, server_call_failed, client_invalid, Provisioned, server_runtime,
  client_runtime,
}

pub record Process (S : Type 0) : Type 0 where
  pub leases : World
  pub servers : S

-- A call on an app: the process, the app's runtime and the error.
abbrev pub Called : Type 0 → Type 0
Called S = Process S × Option Provisioned × Result AppError (Unit {0})

module _ {S : Type 0} where
  lease_started : Process S → World × Lease × Result ClientError (Unit {0}) → Called S
  lease_started p (w, l, r) =
      (record p { leases = w }, some (client_runtime l), map_err client_invalid r)

  server_called : NewServer → Process S → S × Result Text (Unit {0}) → Called S
  server_called s p (servers, r) =
      (record p { servers = servers }, some (server_runtime s), map_err server_call_failed r)

  lease_stopped : Process S → World × Lease → Called S
  lease_stopped p (w, l) = (record p { leases = w }, some (client_runtime l), ok tt)

  module _ (call : NewServer → S → S × Result Text (Unit {0})) where
    -- `App.Start`.
    unfoldable pub start_app : Option Provisioned → Process S → Called S
    unfolding lease_started server_called
    start_app none p = (p, none, err not_provisioned)
    start_app (some (server_runtime s)) p = server_called s p (call s p.servers)
    start_app (some (client_runtime l)) p = lease_started p (start_lease l p.leases)

    -- `App.Stop`.
    unfoldable pub stop_app : Option Provisioned → Process S → Called S
    unfolding server_called lease_stopped
    stop_app none p = (p, none, ok tt)
    stop_app (some (server_runtime s)) p = server_called s p (call s p.servers)
    stop_app (some (client_runtime l)) p = lease_stopped p (stop_lease l p.leases)

-- ===== src/App/Life/Reload.antt =====
-- Caddy's reload of an app: the app of the new configuration is provisioned and started, then the
-- old one is stopped.
use caddy_bifrost.Base.{◌≡◌, refl, sym, ◌∙◌, ap, Option, none, some, Result, ok, err, map_err}
use caddy_bifrost.GoMap.{lookup}
use caddy_bifrost.Text.{Text}
use caddy_bifrost.Config.{ClientConfig}
use caddy_bifrost.Config.Client.{normalize_client}
use caddy_bifrost.Runtime.Client.{ClientError}
use caddy_bifrost.Leases.Keys.{Identity, identity_of, Identity-eq}
use caddy_bifrost.Leases.{World, Lease, start_lease}
use caddy_bifrost.Leases.Holding.{new_lease_sound, start_lease-Holds}
use caddy_bifrost.Leases.Reload.{reload_keeps}
use caddy_bifrost.Runtime.Making.{NewServer}
use caddy_bifrost.App.{
  App, AppError, client_invalid, Host, Provisioned, server_runtime, client_runtime, provision,
}
use caddy_bifrost.App.Laws.{RunsAs, provision-RunsAs}
use caddy_bifrost.App.Life.{Process, start_app, stop_app, lease_started, lease_stopped}

-- The runtime of an app with a client configuration.
record ClientRuntime (cfg : ClientConfig) (r : Provisioned) : Type 0 where
  lease : Lease
  runs : r ≡ client_runtime lease
  identity : lease.identity ≡ identity_of (normalize_client cfg)
  release : lease.release ≡ none

of_client :
    (host : Host) (a : App) (r : Provisioned) (cfg : ClientConfig)
    → a.client ≡ some cfg
    → RunsAs host a r
    → ClientRuntime cfg r
of_client host a (server_runtime s) cfg has runs = cc (runs.alone)
of_client host a (client_runtime l) cfg has (no_server, no_provider, no_observer, leased) =
    let (identity, release) = new_lease_sound cfg l (rw has at leased) in
    record { lease = l; runs = refl; identity = identity; release = release }

provision-ClientRuntime :
    (host : Host) (a : App) (r : Provisioned) (cfg : ClientConfig)
    → a.client ≡ some cfg
    → provision host a ≡ ok r
    → ClientRuntime cfg r
provision-ClientRuntime host a r cfg has made =
    of_client host a r cfg has (provision-RunsAs host a r made)

module _ {S : Type 0} (start stop : NewServer → S → S × Result Text (Unit {0})) where
  -- The start of the new app and the stop of the old one: the process, and the two errors.
  abbrev pub reload_app :
      Option Provisioned
      → Provisioned
      → Process S
      → Process S × Result AppError (Unit {0}) × Result AppError (Unit {0})
  reload_app old new p =
      let (p', new', started) = start_app start (some new) p in
      let (p'', old', stopped) = stop_app stop old p' in (p'', started, stopped)

  -- What a start that has succeeded says of the lease behind the app.
  lease_start_sound :
      (p p1 : Process S) (r1 : Option Provisioned)
      (t : World × Lease × Result ClientError (Unit {0}))
      → lease_started p t ≡ (p1, r1, ok tt)
      → (w : World) × (l : Lease) × (t ≡ (w, l, ok tt))
        × (p1 ≡ record p { leases = w })
        × (r1 ≡ some (client_runtime l))
  unfolding lease_started
  lease_start_sound p p1 r1 (w, l, ok u) h = (w, l, refl, cc, cc)
  lease_start_sound p p1 r1 (w, l, err e) h = cc

  leases_reload :
      (old new : Lease) (p p1 : Process S) (r1 : Option Provisioned) (j : Identity)
      → old.release ≡ none
      → new.release ≡ none
      → new.identity ≡ old.identity
      → start_app start (some (client_runtime old)) p ≡ (p1, r1, ok tt)
      → let q = reload_app r1 (client_runtime new) p1 in
        (q.0.leases.clients ≡ p1.leases.clients)
        × (lookup j q.0.leases.entries ≡ lookup j p1.leases.entries)
        × (q.0.servers ≡ p1.servers)
        × (q.1 ≡ ok tt)
        × (q.2 ≡ ok tt)
  unfolding start_app stop_app lease_started lease_stopped
  leases_reload old new p p1 r1 j old_free new_free same started =
      let (w, held, run, after, runs) =
        lease_start_sound p p1 r1 (start_lease old p.leases) started in
      let (holds, release) = start_lease-Holds old held p.leases w old_free run in
      let (clients, entries, left, taken, ok_too) =
        reload_keeps w held new holds.entry j (rw (same, release) refl) new_free
          (rw (same, holds.found) refl) holds.used in
      rw (after, runs) (clients, entries, refl, ap (map_err client_invalid) ok_too, refl)

  -- A reload of an app that runs a client, to a configuration that differs from the old one in what
  -- normalising takes away at most: once both are provisioned, the start of the new app and the stop of the old
  -- app succeed, no client runtime is made, started or stopped, the registry has the entries that
  -- it had, and no server is called.
  pub reload_app_keeps :
      (host host' : Host) (a a' : App) (r r' : Provisioned) (cfg cfg' : ClientConfig)
      (p p1 : Process S) (r1 : Option Provisioned) (j : Identity)
      → a.client ≡ some cfg
      → a'.client ≡ some cfg'
      → normalize_client cfg' ≡ normalize_client cfg
      → provision host a ≡ ok r
      → provision host' a' ≡ ok r'
      → start_app start (some r) p ≡ (p1, r1, ok tt)
      → let q = reload_app r1 r' p1 in
        (q.0.leases.clients ≡ p1.leases.clients)
        × (lookup j q.0.leases.entries ≡ lookup j p1.leases.entries)
        × (q.0.servers ≡ p1.servers)
        × (q.1 ≡ ok tt)
        × (q.2 ≡ ok tt)
  reload_app_keeps host host' a a' r r' cfg cfg' p p1 r1 j has has' same made made' started =
      let old = provision-ClientRuntime host a r cfg has made in
      let new = provision-ClientRuntime host' a' r' cfg' has' made' in
      rw new.runs (
        leases_reload old.lease new.lease p p1 r1 j old.release new.release
          (new.identity ∙ ap identity_of same ∙ sym old.identity) (rw old.runs at started))

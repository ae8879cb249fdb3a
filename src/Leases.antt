-- ===== src/Leases.antt =====
-- client_runtime.go: client runtimes shared between leases by a registry that counts references.
-- A pointer to a client runtime is a number, its place in the store. The closure that `acquire`
-- returns calls `release` at one identity, so it is kept as that identity.
mod Tests
pub mod Keys
pub mod Store
pub mod Taking
pub mod Counts
pub mod System
pub mod Reload
pub mod Holding
pub mod Fingerprint
use caddy_bifrost.Base.{
  ℕ, zero, suc, ◌+◌, ◌-◌, ◌≡◌, refl, Bool, true, false, Option, none, some, List, [], ◌∷◌, ltb,
  if◌then◌else◌, Result, ok, err, map_err,
}
use caddy_bifrost.Text.{Text}
use caddy_bifrost.GoMap.{GoMap, lookup, insert, delete}
use caddy_bifrost.Config.{ClientConfig, client_required}
use caddy_bifrost.Config.Client.{normalize_client, check_client, validate_client}
use caddy_bifrost.Runtime.Client.{
  Client, ClientError, invalid, new_client, start_client, stop_client,
}
use Keys.{Identity, identity_of, Identity-eq, Pointer-eq}

-- `clientRuntimeEntry`. The code tests `refs` for being above 0 once it has counted down from at
-- least 1, so the truncated difference serves.
pub record Entry : Type 0 where
  pub runtime : ℕ
  pub refs : ℕ

-- The registry's map, and the store of the client runtimes that its pointers lead to.
pub record World : Type 0 where
  pub entries : GoMap Identity Entry
  pub clients : GoMap ℕ Client
  pub next_client : ℕ

-- `clientRuntimeLease`, without its mutex and logger; `release` is the closure, if it is set.
pub record Lease : Type 0 where
  pub cfg : ClientConfig
  pub identity : Identity
  pub release : Option Identity

leased : ClientConfig → Result ClientError (Unit {0}) → Result ClientError Lease
leased n (ok valid) = ok (record { cfg = n; identity = identity_of n; release = none })
leased n (err e) = err e

-- `newClientRuntimeLease` with `normalizedClientRuntimeIdentity`: the caller's configuration is
-- copied first, so normalising it stays in the lease.
unfoldable pub new_lease : Option ClientConfig → Result ClientError Lease
unfolding leased
new_lease none = err (invalid client_required)
new_lease (some cfg) = let n = normalize_client cfg in leased n (map_err invalid (check_client n))

-- What `acquire` returns beside its error.
pub record Acquired : Type 0 where
  pub release : Identity
  pub reused : Bool
  pub refs : ℕ

-- Another lease of a runtime that is there: its entry counts up.
pub reuse : Identity → Entry → World → World
reuse k e w = record w { entries = insert k (record e { refs = e.refs + 1 }) w.entries }

-- A started client runtime, and its entry.
pub enter : Identity → Client → World → World
enter k c w = record {
  entries = insert k (record { runtime = w.next_client; refs = 1 }) w.entries;
  clients = insert w.next_client c w.clients;
  next_client = suc w.next_client;
}

acquire_new : Identity → Result ClientError Client → World → World × Result ClientError Acquired
acquire_new k (ok c) w = (enter k c w, ok (record { release = k; reused = false; refs = 1 }))
acquire_new k (err e) w = (w, err e)

acquire_entry :
    Identity
    → Option Entry
    → Result ClientError Client
    → World
    → World × Result ClientError Acquired
acquire_entry k (some e) made w =
    (reuse k e w, ok (record { release = k; reused = true; refs = e.refs + 1 }))
acquire_entry k none made w = acquire_new k made w

-- `clientRuntimeRegistry.acquire`. `made` is what the factory returns; it is looked at only where
-- the code calls the factory.
unfoldable pub acquire :
    Identity → Result ClientError Client → World → World × Result ClientError Acquired
unfolding acquire_entry acquire_new reuse enter
acquire k made w = acquire_entry k (lookup k w.entries) made w

pub drop_ref : Identity → Option Entry → World → World × Option ℕ
drop_ref k none w = (w, none)
drop_ref k (some e) w =
    if ltb 0 (e.refs - 1)
    then (record w { entries = insert k (record e { refs = e.refs - 1 }) w.entries }, none)
    else (record w { entries = delete k w.entries }, some e.runtime)

-- `clientRuntimeRegistry.release` while it holds the lock: the client that is left to stop.
unfoldable pub release_entry : Identity → World → World × Option ℕ
unfolding drop_ref
release_entry k w = drop_ref k (lookup k w.entries) w

-- `client.Stop()` through a pointer.
pub stop_at : ℕ → Option Client → World → World
stop_at p none w = w
stop_at p (some c) w = record w { clients = insert p (stop_client c) w.clients }

unfoldable pub stop_pointer : ℕ → World → World
unfolding stop_at
stop_pointer p w = stop_at p (lookup p w.clients) w

started : Result ClientError Client → Result ClientError Client
started (ok c) = ok (start_client c)
started (err e) = err e

keep_release :
    Lease → World × Result ClientError Acquired → World × Lease × Result ClientError (Unit {0})
keep_release l (w, ok a) = (w, record l { release = some a.release }, ok tt)
keep_release l (w, err e) = (w, l, err e)

-- The configuration of the lease is normalised in place only if the factory runs.
after_factory : Lease → Option Entry → ClientConfig → Lease
after_factory l (some e) n = l
after_factory l none n = record l { cfg = n }

start_unleased : Lease → World → World × Lease × Result ClientError (Unit {0})
unfolding keep_release after_factory started
start_unleased l w =
    let (n, made) = new_client l.cfg in
    keep_release (after_factory l (lookup l.identity w.entries) n)
      (acquire l.identity (started made) w)

start_held : Option Identity → Lease → World → World × Lease × Result ClientError (Unit {0})
start_held (some k) l w = (w, l, ok tt)
start_held none l w = start_unleased l w

-- `clientRuntimeLease.Start`, behind its test for nil; the lease's lock is held throughout.
unfoldable pub start_lease : Lease → World → World × Lease × Result ClientError (Unit {0})
unfolding start_held start_unleased
start_lease l w = start_held l.release l w

-- `clientRuntimeLease.Stop` while it holds the lease's lock: the closure that is left to call.
unfoldable pub take_release : Lease → Lease × Option Identity
take_release l = (record l { release = none }, l.release)

stop_after_release : World × Option ℕ → World
stop_after_release (w, none) = w
stop_after_release (w, some p) = stop_pointer p w

-- `clientRuntimeRegistry.release`, when nothing comes between its two halves.
unfoldable pub release_now : Identity → World → World
unfolding stop_after_release
release_now k w = stop_after_release (release_entry k w)

run_release : Option Identity → World → World
run_release none w = w
run_release (some k) w = release_now k w

-- `clientRuntimeLease.Stop`, when nothing comes between.
unfoldable pub stop_lease : Lease → World → World × Lease
unfolding run_release
stop_lease l w = let (l', release) = take_release l in (run_release release w, l')

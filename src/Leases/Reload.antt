-- ===== src/Leases/Reload.antt =====
-- A reload that keeps a client's configuration: the lease of the new configuration starts, then that
-- of the old one stops.
use caddy_bifrost.Base.{ℕ, ◌+◌, ◌≤◌, ◌≡◌, refl, none, some, arith, Result, ok}
use caddy_bifrost.GoMap.{lookup, insert, lookup-insert}
use caddy_bifrost.Runtime.Client.{ClientError}
use caddy_bifrost.Leases.Keys.{Identity, identity_eq_iff, Identity-eq}
use caddy_bifrost.Leases.{
  Entry, World, Lease, acquire, reuse, drop_ref, release_entry, start_lease, take_release,
  release_now, run_release, stop_lease,
}

module _ (w : World) (k : Identity) (e : Entry) (found : lookup k w.entries ≡ some e) where
  start_reuses :
      (l : Lease)
      → l.release ≡ none
      → l.identity ≡ k
      → start_lease l w ≡ (reuse k e w, record l { release = some k }, ok tt)
  unfolding start_lease acquire
  start_reuses l idle same = rw (idle, same, found) refl

  -- The entry counts down from what another lease left in it.
  release_keeps :
      (n : ℕ)
      → e.refs ≡ n + 1
      → 1 ≤ n
      → release_now k w ≡ record w { entries = insert k (record e { refs = n }) w.entries }
  unfolding release_now release_entry drop_ref
  release_keeps n counted others = rw (found, counted) (ground arith)

  reused : lookup k (reuse k e w).entries ≡ some (record e { refs = e.refs + 1 })
  unfolding reuse
  reused =
      ground
        (arith, identity_eq_iff k k, lookup-insert k k (record e { refs = e.refs + 1 }) w.entries)

  kept :
      (j : Identity) (between : Entry)
      → lookup j (insert k e (insert k between w.entries)) ≡ lookup j w.entries
  kept j between = ground (
    arith,
    found,
    identity_eq_iff k j,
    lookup-insert k j e (insert k between w.entries),
    lookup-insert k j between w.entries,
  )

-- The start of one lease and then the stop of another, with what the start returns.
abbrev pub reload : Lease → Lease → World → (World × Lease) × Lease × Result ClientError (Unit {0})
reload old new w = let (w', held, started) = start_lease new w in (stop_lease old w', held, started)

-- A reload that keeps the identity of a running client leaves the client alone: the new lease
-- starts, whatever the factory would return, and holds the runtime; the old one is released; no
-- client is started, stopped or made, and each identity has the entry that it had.
pub reload_keeps :
    (w : World) (old new : Lease) (e : Entry) (j : Identity)
    → old.release ≡ some new.identity
    → new.release ≡ none
    → lookup new.identity w.entries ≡ some e
    → 1 ≤ e.refs
    → let r = reload old new w in
      (r.0.0.clients ≡ w.clients)
      × (lookup j r.0.0.entries ≡ lookup j w.entries)
      × (r.0.1.release ≡ none)
      × (r.1.release ≡ some new.identity)
      × (r.2 ≡ ok tt)
unfolding stop_lease take_release run_release reuse
reload_keeps w old new e j holds idle found held =
    rw (start_reuses w new.identity e found new idle refl, holds)
      (rw
        (release_keeps (reuse new.identity e w) new.identity (record e { refs = e.refs + 1 })
          (reused w new.identity e found) e.refs refl held)
        (refl, kept w new.identity e found j (record e { refs = e.refs + 1 }), refl, refl, refl))

-- ===== src/Leases/Holding.antt =====
-- What a new lease is made from, and what a start of it leaves in the registry.
use caddy_bifrost.Base.{suc, ◌≤◌, ◌+◌, subst, ◌≡◌, refl, Option, none, some, arith, Result, ok, err}
use caddy_bifrost.GoMap.{lookup, insert, lookup-insert}
use caddy_bifrost.Config.{ClientConfig}
use caddy_bifrost.Config.Client.{normalize_client}
use caddy_bifrost.Runtime.Client.{Client, ClientError, new_client}
use caddy_bifrost.Leases.Keys.{Identity, identity_of, identity_eq_iff, Identity-eq, Pointer-eq}
use caddy_bifrost.Leases.{
  Entry, World, Lease, leased, new_lease, reuse, enter, acquire_new, acquire_entry, acquire,
  keep_release, after_factory, started, start_unleased, start_held, start_lease,
}

leased_sound :
    (n : ClientConfig) (r : Result ClientError (Unit {0})) (l : Lease)
    → leased n r ≡ ok l
    → (l.identity ≡ identity_of n) × (l.release ≡ none)
unfolding leased
leased_sound n (ok valid) l h = (cc, cc)
leased_sound n (err e) l h = cc

-- A lease is known by its normalised configuration.
pub new_lease_sound :
    (cfg : ClientConfig) (l : Lease)
    → new_lease (some cfg) ≡ ok l
    → (l.identity ≡ identity_of (normalize_client cfg)) × (l.release ≡ none)
unfolding new_lease
new_lease_sound cfg l h = leased_sound (normalize_client cfg) _ l h

-- The entry of an identity that is in use.
pub record Holds (k : Identity) (w : World) : Type 0 where
  pub entry : Entry
  pub found : lookup k w.entries ≡ some entry
  pub used : 1 ≤ entry.refs

inserted_Holds :
    (k : Identity) (e : Entry) (w : World)
    → 1 ≤ e.refs
    → Holds k (record w { entries = insert k e w.entries })
inserted_Holds k e w h = record {
  entry = e;
  found = ground (arith, identity_eq_iff k k, lookup-insert k k e w.entries);
  used = h;
}

-- A lease whose start has succeeded, and its entry.
abbrev Held : Identity → World × Lease × Result ClientError (Unit {0}) → Type 0
Held k (w, l, ok u) = Holds k w × (l.release ≡ some k)
Held k (w, l, err e) = Unit

acquire_entry-Held :
    (k : Identity) (o : Option Entry) (made : Result ClientError Client) (l : Lease) (w : World)
    → Held k (keep_release l (acquire_entry k o made w))
unfolding acquire_entry acquire_new reuse enter keep_release
acquire_entry-Held k (some e) made l w =
    (inserted_Holds k (record e { refs = e.refs + 1 }) w (omega arith), refl)
acquire_entry-Held k none (ok c) l w = (
  inserted_Holds k (record { runtime = w.next_client; refs = 1 })
      (record w { clients = insert w.next_client c w.clients; next_client = suc w.next_client })
      (omega arith),
  refl,
)
acquire_entry-Held k none (err e) l w = tt

start_held-Held :
    (o : Option Identity) (l : Lease) (w : World) → o ≡ none → Held l.identity (start_held o l w)
unfolding start_held start_unleased acquire
start_held-Held (some k) l w h = cc
start_held-Held none l w h =
    let (n, made) = new_client l.cfg in
    acquire_entry-Held l.identity (lookup l.identity w.entries) (started made)
      (after_factory l (lookup l.identity w.entries) n) w

-- A start that succeeds leaves an entry for the lease's identity, which the lease holds.
pub start_lease-Holds :
    (l l' : Lease) (w w' : World)
    → l.release ≡ none
    → start_lease l w ≡ (w', l', ok tt)
    → Holds l.identity w' × (l'.release ≡ some l.identity)
unfolding start_lease
start_lease-Holds l l' w w' idle h = subst (Held l.identity) h (start_held-Held l.release l w idle)

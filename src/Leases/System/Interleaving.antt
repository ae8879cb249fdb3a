-- ===== src/Leases/System/Interleaving.antt =====
-- What holds of leases and client runtimes after any interleaving of calls.
use caddy_bifrost.Base.{
  ℕ, ◌+◌, ◌<◌, ◌≡◌, refl, ap, subst, ◌⊎◌, inl, inr, Option, none, some, List, [], ◌∷◌, ◌++◌, arith,
  All, Option-cases, false, Result, ok, err,
}
use caddy_bifrost.GoMap.{lookup}
use caddy_bifrost.Config.{ClientConfig}
use caddy_bifrost.Config.Client.{normalize_client}
use caddy_bifrost.Runtime.Client.{Client, ClientError, new_client_cases, fresh_client, start_client}
use caddy_bifrost.Leases.Keys.{Identity, identity_eq_iff, Identity-eq, Pointer-eq}
use caddy_bifrost.Leases.{
  Entry, World, Lease, new_lease, leased, start_lease, start_held, start_unleased, take_release,
  acquire, reuse, enter,
}
use caddy_bifrost.Leases.Store.{StoreOk, ConfiguredFor, given, again, reuse-StoreOk, enter-StoreOk}
use caddy_bifrost.Leases.Taking.{release_entry-StoreOk, stop_pointer-StoreOk}
use caddy_bifrost.Leases.Counts.{
  refs_of, holds, holders, times, holders-middle, times-middle, refs_of-reuse, refs_of-enter,
  refs_of-release, refs_of-stop,
}
use caddy_bifrost.Leases.System.{
  System, initial, add_release, Step, create, start, take, release, stop, Reach, here, next,
}

-- A lease as its constructor leaves it, started or not.
pub record LeaseOk (l : Lease) : Type 0 where
  pub configured : ConfiguredFor l.identity l.cfg
  pub release : (l.release ≡ none) ⊎ (l.release ≡ some l.identity)

-- The registry counts exactly the releases that are still to come, and keeps its store in order.
pub record SystemOk (s : System) : Type 0 where
  pub store : StoreOk s.world s.stopping
  pub leases : All LeaseOk s.leases
  pub counted : (k : Identity) → refs_of s.world k ≡ holders k s.leases + times k s.releasing

abbrev no_identity : Identity
no_identity = record {
  connect = [];
  forward = [];
  token = [];
  tls_ca_file = [];
  tls_server_name = [];
  tls_insecure_skip_verify = false;
}

initial-SystemOk : SystemOk initial
unfolding lookup
initial-SystemOk = record {
  store = record {
    key = λ p. no_identity;
    entries = λ k. tt;
    clients = λ p. tt;
    bounded = λ p h. cc;
  };
  leases = tt;
  counted = λ k. refl;
}

pub All-middle :
    (pre post : List Lease) (l : Lease)
    → All LeaseOk (pre ++ l ∷ post)
    → LeaseOk l × ((m : Lease) → LeaseOk m → All LeaseOk (pre ++ m ∷ post))
All-middle [] post l (v, h) = (v, (λ m w. (w, h)))
All-middle (x ∷ pre) post l (v, h) =
    let (u, f) = All-middle pre post l h in (u, (λ m w. (v, f m w)))

-- What a start of a lease does to the store, the lease and the counts.
record StartOk (stopping : List ℕ) (l : Lease) (w : World)
    (r : World × Lease × Result ClientError (Unit {0})) : Type 0 where
  store : StoreOk r.0 stopping
  lease : LeaseOk r.1
  counted : (k : Identity) → refs_of r.0 k + holds k l.release ≡ refs_of w k + holds k r.1.release

module _ (stopping : List ℕ) (l : Lease) (w : World) (v : StoreOk w stopping) (u : LeaseOk l)
    (idle : l.release ≡ none) where
  -- The lease once it holds the runtime, with the configuration that the start leaves in it.
  held : ClientConfig → Lease
  held cfg = record l { cfg = cfg; release = some l.identity }

  held-LeaseOk : (cfg : ClientConfig) → ConfiguredFor l.identity cfg → LeaseOk (held cfg)
  unfolding held
  held-LeaseOk cfg h = record { configured = h; release = inr refl }

  renormalised : ConfiguredFor l.identity (normalize_client l.cfg)
  renormalised = again l.cfg u.configured

  start_failed :
      (e : ClientError) → StartOk stopping l w (w, record l { cfg = normalize_client l.cfg }, err e)
  start_failed e = record {
    store = v;
    lease = record { configured = renormalised; release = u.release };
    counted = λ k. refl;
  }

  start_reused :
      (e : Entry)
      → lookup l.identity w.entries ≡ some e
      → StartOk stopping l w (reuse l.identity e w, held l.cfg, ok tt)
  unfolding held
  start_reused e h = record {
    store = reuse-StoreOk w stopping v l.identity e h;
    lease = held-LeaseOk l.cfg u.configured;
    counted = λ k. ground (arith, idle, refs_of-reuse w l.identity k e h);
  }

  abbrev started_client : Client
  started_client = start_client (fresh_client (normalize_client l.cfg))

  start_entered :
      lookup l.identity w.entries ≡ none
      → StartOk stopping l w
          (enter l.identity started_client w, held (normalize_client l.cfg), ok tt)
  unfolding held start_client
  start_entered h = record {
    store = enter-StoreOk w stopping v l.identity started_client h (refl, refl, refl, renormalised);
    lease = held-LeaseOk (normalize_client l.cfg) renormalised;
    counted = λ k. ground (arith, idle, refs_of-enter w l.identity k started_client h);
  }

  start_idle : StartOk stopping l w (start_unleased l w)
  unfolding start_unleased acquire held
  start_idle = elim (Option-cases (lookup l.identity w.entries)) [
    | inr (e, found) ↦ rw (found, start_unleased, acquire) (start_reused e found)
    | inl missing ↦ elim (new_client_cases l.cfg) [
      | inl made ↦ rw (missing, made, start_unleased, acquire) (start_entered missing)
      | inr (e, failed) ↦ rw (missing, failed, start_unleased, acquire) (start_failed e)
    ]
  ]

start_held-StartOk :
    (stopping : List ℕ) (l : Lease) (w : World) (o : Option Identity)
    → StoreOk w stopping
    → LeaseOk l
    → l.release ≡ o
    → StartOk stopping l w (start_held o l w)
unfolding start_held
start_held-StartOk stopping l w none v u idle = start_idle stopping l w v u idle
start_held-StartOk stopping l w (some k) v u busy = record {
  store = v;
  lease = u;
  counted = λ j. refl;
}

start_lease-StartOk :
    (stopping : List ℕ) (l : Lease) (w : World)
    → StoreOk w stopping
    → LeaseOk l
    → StartOk stopping l w (start_lease l w)
unfolding start_lease
start_lease-StartOk stopping l w v u = start_held-StartOk stopping l w l.release v u refl

leased-LeaseOk :
    (n : ClientConfig) (r : Result ClientError (Unit {0})) (l : Lease)
    → leased n r ≡ ok l
    → LeaseOk l × (l.release ≡ none)
unfolding leased
leased-LeaseOk n (err e) l h = cc
leased-LeaseOk n (ok valid) l h =
    subst (λ m. LeaseOk m × (m.release ≡ none)) (cc h)
      (record { configured = given n refl; release = inl refl }, refl)

new_lease-LeaseOk :
    (cfg : ClientConfig) (l : Lease) → new_lease (some cfg) ≡ ok l → LeaseOk l × (l.release ≡ none)
unfolding new_lease
new_lease-LeaseOk cfg l h = leased-LeaseOk (normalize_client cfg) _ l h

times-add_release :
    (k : Identity) (o : Option Identity) (ks : List Identity)
    → times k (add_release o ks) ≡ holds k o + times k ks
times-add_release k none ks = omega arith
times-add_release k (some j) ks = omega arith

has_refs :
    (s : System) (k : Identity) (pre post : List Identity)
    → SystemOk s
    → s.releasing ≡ pre ++ k ∷ post
    → 0 < refs_of s.world k
has_refs s k pre post v at_k =
    ground (arith, v.counted k, ap (times k) at_k, times-middle k pre post k, identity_eq_iff k k)

pub Step-SystemOk : {s t : System} → Step s t → SystemOk s → SystemOk t
unfolding take_release
Step-SystemOk {s} (create cfg l made) v =
    let (u, idle) = new_lease-LeaseOk cfg l made in
    record {
      store = v.store;
      leases = (u, v.leases);
      counted = λ k. ground (arith, idle, v.counted k);
    }
Step-SystemOk {s} (start pre l post at_l) v =
    let (u, put) = All-middle pre post l (subst (All LeaseOk) at_l v.leases) in
    let r = start_lease-StartOk s.stopping l s.world v.store u in
    record {
      store = r.store;
      leases = put (start_lease l s.world).1 r.lease;
      counted = λ k. omega (
        arith,
        v.counted k,
        r.counted k,
        ap (holders k) at_l,
        holders-middle k pre post l,
        holders-middle k pre post (start_lease l s.world).1,
      );
    }
Step-SystemOk {s} (take pre l post at_l) v =
    let (u, put) = All-middle pre post l (subst (All LeaseOk) at_l v.leases) in
    let taken : Lease = record l { release = none } in
    record {
      store = v.store;
      leases = put taken (record { configured = u.configured; release = inl refl });
      counted = λ k. omega (
        arith,
        v.counted k,
        ap (holders k) at_l,
        holders-middle k pre post l,
        holders-middle k pre post taken,
        times-add_release k l.release s.releasing,
      );
    }
Step-SystemOk {s} (release pre k post at_k) v = record {
  store = release_entry-StoreOk s.world s.stopping k v.store;
  leases = v.leases;
  counted = λ j. omega (
    arith,
    v.counted j,
    refs_of-release s.world k j s.stopping v.store (has_refs s k pre post v at_k),
    ap (times j) at_k,
    times-middle j pre post k,
  );
}
Step-SystemOk {s} (stop pre p post at_p) v = record {
  store = stop_pointer-StoreOk s.world pre post p (subst (StoreOk s.world) at_p v.store);
  leases = v.leases;
  counted = λ k. omega (arith, v.counted k, refs_of-stop s.world p k);
}

pub Reach-SystemOk : {s t : System} → Reach s t → SystemOk s → SystemOk t
Reach-SystemOk here v = v
Reach-SystemOk (next r st) v = Step-SystemOk st (Reach-SystemOk r v)

-- From the start on, with no lease and no client runtime.
pub reached-SystemOk : {s : System} → Reach initial s → SystemOk s
reached-SystemOk r = Reach-SystemOk r initial-SystemOk

-- ===== src/Leases/Taking.antt =====
-- Taking an entry out of the registry, and stopping the runtime that it led to.
use caddy_bifrost.Base.{
  ℕ, ◌-◌, ◌<◌, ◌≡◌, refl, inl, inr, true, ◌||◌, Option, none, some, List, [], ◌∷◌, ◌++◌, arith,
  ◌==◌, Option-cases,
}
use caddy_bifrost.GoMap.{lookup, lookup-insert, lookup-delete}
use caddy_bifrost.Runtime.Client.{Client, stop_client}
use caddy_bifrost.Leases.Keys.{Identity, identity_eq_iff, Identity-eq, Pointer-eq}
use caddy_bifrost.Leases.{Entry, World, drop_ref, release_entry, stop_at, stop_pointer}
use caddy_bifrost.Leases.Store.{StoreOk, EntryOk, ClientOk, has_pointer}

-- The runtimes left to stop, with the one that a release hands over.
abbrev pub hand_over : Option ℕ → List ℕ → List ℕ
hand_over none ps = ps
hand_over (some p) ps = p ∷ ps

module _ (w : World) (stopping : List ℕ) (v : StoreOk w stopping) (k : Identity) (e : Entry)
    (present : lookup k w.entries ≡ some e) where
  dropped : World × Option ℕ
  unfolding drop_ref
  dropped = drop_ref k (some e) w

  drop-EntryOk :
      (j : Identity)
      → EntryOk v.key dropped.0 (hand_over dropped.1 stopping) j (lookup j dropped.0.entries)
  unfolding dropped
  drop-EntryOk j = elim (Option-cases (lookup j w.entries)) [
    | inl missing ↦ ground (
      arith,
      v.entries k,
      identity_eq_iff k j,
      lookup-insert k j (record e { refs = e.refs - 1 }) w.entries,
      lookup-delete k j w.entries,
    )
    | inr (f, found) ↦ ground (
      arith,
      v.entries k,
      v.entries j,
      identity_eq_iff k j,
      lookup-insert k j (record e { refs = e.refs - 1 }) w.entries,
      lookup-delete k j w.entries,
    )
  ]

  drop-ClientOk :
      (p : ℕ)
      → ClientOk v.key dropped.0 (hand_over dropped.1 stopping) p (lookup p dropped.0.clients)
  unfolding dropped
  drop-ClientOk p = elim (Option-cases (lookup p w.clients)) [
    | inl missing ↦ ground (arith, missing)
    | inr (c, found) ↦ ground (
      arith,
      v.clients p,
      v.entries k,
      identity_eq_iff k (v.key p),
      lookup-insert k (v.key p) (record e { refs = e.refs - 1 }) w.entries,
      lookup-delete k (v.key p) w.entries,
    )
  ]

  drop-bounded :
      (p : ℕ) → has_pointer (hand_over dropped.1 stopping) p ≡ true → p < dropped.0.next_client
  unfolding dropped
  drop-bounded p h = elim (Option-cases (lookup e.runtime w.clients)) [
    | inl missing ↦ ground (arith, v.entries k)
    | inr (c, found) ↦ ground (arith, v.clients e.runtime, v.bounded p)
  ]

  pub drop-StoreOk :
      StoreOk (drop_ref k (some e) w).0 (hand_over (drop_ref k (some e) w).1 stopping)
  unfolding dropped
  drop-StoreOk = record {
    key = v.key;
    entries = drop-EntryOk;
    clients = drop-ClientOk;
    bounded = drop-bounded;
  }

-- The critical section of `release` keeps the store in order.
pub release_entry-StoreOk :
    (w : World) (stopping : List ℕ) (k : Identity)
    → StoreOk w stopping
    → StoreOk (release_entry k w).0 (hand_over (release_entry k w).1 stopping)
unfolding release_entry drop_ref
release_entry-StoreOk w stopping k v = elim (Option-cases (lookup k w.entries)) [
  | inl missing ↦ rw (missing, release_entry) v
  | inr (e, found) ↦ rw (found, release_entry) (drop-StoreOk w stopping v k e found)
]

has_pointer-middle :
    (pre post : List ℕ) (p q : ℕ)
    → has_pointer (pre ++ p ∷ post) q ≡ ((p == q) || has_pointer (pre ++ post) q)
has_pointer-middle [] post p q = refl
has_pointer-middle (r ∷ pre) post p q = ground (arith, has_pointer-middle pre post p q)

module _ (w : World) (pre post : List ℕ) (p : ℕ) (v : StoreOk w (pre ++ p ∷ post)) where
  stop-EntryOk :
      (o : Option Client)
      → lookup p w.clients ≡ o
      → (j : Identity)
      → EntryOk v.key (stop_at p o w) (pre ++ post) j (lookup j (stop_at p o w).entries)
  unfolding stop_at stop_client
  stop-EntryOk none h j = elim (Option-cases (lookup j w.entries)) [
    | inl missing ↦ rw missing tt
    | inr (e, found) ↦ ground (arith, v.entries j, has_pointer-middle pre post p e.runtime)
  ]
  stop-EntryOk (some c) h j = elim (Option-cases (lookup j w.entries)) [
    | inl missing ↦ rw missing tt
    | inr (e, found) ↦ ground (
      arith,
      v.entries j,
      has_pointer-middle pre post p e.runtime,
      lookup-insert p e.runtime (stop_client c) w.clients,
    )
  ]

  stop-ClientOk :
      (o : Option Client)
      → lookup p w.clients ≡ o
      → (q : ℕ) → ClientOk v.key (stop_at p o w) (pre ++ post) q (lookup q (stop_at p o w).clients)
  unfolding stop_at stop_client
  stop-ClientOk none h q = elim (Option-cases (lookup q w.clients)) [
    | inl missing ↦ rw missing tt
    | inr (d, found) ↦ ground (arith, v.clients q, has_pointer-middle pre post p q)
  ]
  stop-ClientOk (some c) h q = elim (Option-cases (lookup q w.clients)) [
    | inl missing ↦ ground (arith, lookup-insert p q (stop_client c) w.clients)
    | inr (d, found) ↦ ground (
      arith,
      v.clients q,
      has_pointer-middle pre post p q,
      lookup-insert p q (stop_client c) w.clients,
    )
  ]

  stop-bounded :
      (o : Option Client) (q : ℕ)
      → has_pointer (pre ++ post) q ≡ true
      → q < (stop_at p o w).next_client
  unfolding stop_at
  stop-bounded none q h = ground (arith, v.bounded q, has_pointer-middle pre post p q)
  stop-bounded (some c) q h = ground (arith, v.bounded q, has_pointer-middle pre post p q)

  -- So does stopping a runtime that was handed over.
  pub stop_pointer-StoreOk : StoreOk (stop_pointer p w) (pre ++ post)
  unfolding stop_pointer
  stop_pointer-StoreOk = record {
    key = v.key;
    entries = stop-EntryOk (lookup p w.clients) refl;
    clients = stop-ClientOk (lookup p w.clients) refl;
    bounded = stop-bounded (lookup p w.clients);
  }

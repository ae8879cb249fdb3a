-- ===== src/Leases/Store.antt =====
-- The registry's map against the store of client runtimes: an entry leads to a runtime that runs
-- under its identity, and a runtime that runs has an entry or is about to be stopped.
use caddy_bifrost.Base.{
  ℕ, ◌+◌, ◌<◌, ◌≡◌, ◌≢◌, ◌⊎◌, inl, inr, Bool, true, false, Option, none, some, List, arith, ◌==◌,
  any, Option-cases, if◌then◌else◌,
}
use caddy_bifrost.GoMap.{lookup, lookup-insert}
use caddy_bifrost.Config.{ClientConfig}
use caddy_bifrost.Config.Client.{normalize_client}
use caddy_bifrost.Runtime.Client.{Client}
use caddy_bifrost.Leases.Keys.{Identity, identity_of, identity_eq_iff, Identity-eq, Pointer-eq}
use caddy_bifrost.Leases.{Entry, World, reuse, enter}

abbrev pub has_pointer : List ℕ → ℕ → Bool
has_pointer ps p = any (λ q. q == p) ps

-- The configuration with this identity, normalised any number of times over: a start that makes the
-- runtime normalises the lease's configuration once more, which may change it.
pub data ConfiguredFor (k : Identity) : ClientConfig → Type 0 where
  given : (cfg : ClientConfig) → identity_of cfg ≡ k → ConfiguredFor k cfg
  again : (cfg : ClientConfig) → ConfiguredFor k cfg → ConfiguredFor k (normalize_client cfg)

abbrev pub Runs : Option Client → Type 0
Runs none = ⊥
Runs (some c) = (c.started ≡ true) × (c.stop_once ≡ false)

-- `key` gives the identity that a runtime was made for.
abbrev pub EntryOk : (ℕ → Identity) → World → List ℕ → Identity → Option Entry → Type 0
EntryOk key w stopping k none = Unit
EntryOk key w stopping k (some e) =
    (0 < e.refs)
    × Runs (lookup e.runtime w.clients)
    × (key e.runtime ≡ k)
    × (has_pointer stopping e.runtime ≡ false)

abbrev pub Owns : ℕ → Option Entry → Type 0
Owns p none = ⊥
Owns p (some e) = e.runtime ≡ p

abbrev pub ClientOk : (ℕ → Identity) → World → List ℕ → ℕ → Option Client → Type 0
ClientOk key w stopping p none = Unit
ClientOk key w stopping p (some c) =
    (p < w.next_client)
    × ConfiguredFor (key p) c.cfg
    × (c.started ≡ true)
    × (c.cancelled ≡ c.stop_once)
    × ((c.stop_once ≡ true) ⊎ (has_pointer stopping p ≡ true) ⊎ Owns p (lookup (key p) w.entries))

-- `stopping` lists the runtimes that a `release` has taken out and not stopped yet.
pub record StoreOk (w : World) (stopping : List ℕ) : Type 0 where
  pub key : ℕ → Identity
  pub entries : (k : Identity) → EntryOk key w stopping k (lookup k w.entries)
  pub clients : (p : ℕ) → ClientOk key w stopping p (lookup p w.clients)
  pub bounded : (p : ℕ) → has_pointer stopping p ≡ true → p < w.next_client

module _ (w : World) (stopping : List ℕ) (v : StoreOk w stopping) where
  reuse-EntryOk :
      (k j : Identity) (e : Entry)
      → lookup k w.entries ≡ some e
      → EntryOk v.key (reuse k e w) stopping j (lookup j (reuse k e w).entries)
  unfolding reuse
  reuse-EntryOk k j e h = ground (
    arith,
    v.entries j,
    v.entries k,
    identity_eq_iff k j,
    lookup-insert k j (record e { refs = e.refs + 1 }) w.entries,
  )

  reuse-ClientOk :
      (k : Identity) (p : ℕ) (e : Entry)
      → lookup k w.entries ≡ some e
      → ClientOk v.key (reuse k e w) stopping p (lookup p (reuse k e w).clients)
  unfolding reuse
  reuse-ClientOk k p e h = elim (Option-cases (lookup p w.clients)) [
    | inl none_there ↦ rw none_there tt
    | inr (c, found) ↦ ground (
      arith,
      v.clients p,
      v.entries k,
      identity_eq_iff k (v.key p),
      lookup-insert k (v.key p) (record e { refs = e.refs + 1 }) w.entries,
    )
  ]

  pub reuse-StoreOk :
      (k : Identity) (e : Entry) → lookup k w.entries ≡ some e → StoreOk (reuse k e w) stopping
  unfolding reuse
  reuse-StoreOk k e h = record {
    key = v.key;
    entries = λ j. reuse-EntryOk k j e h;
    clients = λ p. reuse-ClientOk k p e h;
    bounded = v.bounded;
  }

  runtime-ne-next :
      (j : Identity) (e : Entry) → lookup j w.entries ≡ some e → e.runtime ≢ w.next_client
  runtime-ne-next j e h = elim (Option-cases (lookup e.runtime w.clients)) [
    | inl missing ↦ ground (arith, v.entries j)
    | inr (c, found) ↦ ground (arith, v.clients e.runtime)
  ]

  -- The runtime that the factory made.
  module _ (k : Identity) (c : Client) (absent : lookup k w.entries ≡ none)
      (made : (c.started ≡ true)
        × (c.cancelled ≡ false)
        × (c.stop_once ≡ false)
        × ConfiguredFor k c.cfg) where
    new_key : ℕ → Identity
    new_key p = if p == w.next_client then k else v.key p

    enter-EntryOk :
        (j : Identity) → EntryOk new_key (enter k c w) stopping j (lookup j (enter k c w).entries)
    unfolding enter new_key
    enter-EntryOk j = elim (Option-cases (lookup j w.entries)) [
      | inl missing ↦ ground (
        arith,
        v.bounded w.next_client,
        identity_eq_iff k j,
        lookup-insert k j (record { runtime = w.next_client; refs = 1 }) w.entries,
        lookup-insert w.next_client w.next_client c w.clients,
      )
      | inr (e, found) ↦ ground (
        arith,
        v.entries j,
        runtime-ne-next j e found,
        identity_eq_iff k j,
        lookup-insert k j (record { runtime = w.next_client; refs = 1 }) w.entries,
        lookup-insert w.next_client e.runtime c w.clients,
      )
    ]

    enter-ClientOk :
        (p : ℕ) → ClientOk new_key (enter k c w) stopping p (lookup p (enter k c w).clients)
    unfolding enter new_key
    enter-ClientOk p = elim (Option-cases (lookup p w.clients)) [
      | inl missing ↦ ground (
        arith,
        made,
        identity_eq_iff k k,
        lookup-insert k k (record { runtime = w.next_client; refs = 1 }) w.entries,
        lookup-insert w.next_client p c w.clients,
      )
      | inr (d, found) ↦ ground (
        arith,
        v.clients p,
        identity_eq_iff k (v.key p),
        lookup-insert k (v.key p) (record { runtime = w.next_client; refs = 1 }) w.entries,
        lookup-insert w.next_client p c w.clients,
      )
    ]

    pub enter-StoreOk : StoreOk (enter k c w) stopping
    unfolding enter
    enter-StoreOk = record {
      key = new_key;
      entries = enter-EntryOk;
      clients = enter-ClientOk;
      bounded = λ p h. ground (arith, v.bounded p);
    }

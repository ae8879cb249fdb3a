-- ===== src/Leases/Counts.antt =====
-- The reference count of an identity against the releases that are still to be called for it.
use caddy_bifrost.Base.{
  ℕ, ◌+◌, ◌-◌, ◌<◌, ◌≡◌, refl, inl, inr, Bool, true, false, Option, none, some, List, [], ◌∷◌, ◌++◌,
  arith, Option-cases,
}
use caddy_bifrost.GoMap.{lookup, lookup-insert, lookup-delete}
use caddy_bifrost.Leases.Keys.{Identity, identity_eq, identity_eq_iff, Identity-eq, Pointer-eq}
use caddy_bifrost.Leases.{
  Entry, World, Lease, reuse, enter, drop_ref, release_entry, stop_pointer, stop_at,
}
use caddy_bifrost.Runtime.Client.{Client}
use caddy_bifrost.Leases.Store.{StoreOk}

abbrev pub refs_in : Option Entry → ℕ
refs_in none = 0
refs_in (some e) = e.refs

-- The count that the registry keeps for an identity, 0 where it has no entry.
abbrev pub refs_of : World → Identity → ℕ
refs_of w k = refs_in (lookup k w.entries)

abbrev pub one_if : Bool → ℕ
one_if true = 1
one_if false = 0

abbrev pub holds : Identity → Option Identity → ℕ
holds k none = 0
holds k (some j) = one_if (identity_eq j k)

-- The leases whose release for this identity is set.
abbrev pub holders : Identity → List Lease → ℕ
holders k [] = 0
holders k (l ∷ ls) = holds k l.release + holders k ls

-- The releases for this identity that were taken from their leases and not called yet.
abbrev pub times : Identity → List Identity → ℕ
times k [] = 0
times k (j ∷ js) = one_if (identity_eq j k) + times k js

pub holders-middle :
    (k : Identity) (pre post : List Lease) (l : Lease)
    → holders k (pre ++ l ∷ post) ≡ holds k l.release + holders k (pre ++ post)
holders-middle k [] post l = refl
holders-middle k (m ∷ pre) post l = omega (arith, holders-middle k pre post l)

pub times-middle :
    (k : Identity) (pre post : List Identity) (j : Identity)
    → times k (pre ++ j ∷ post) ≡ one_if (identity_eq j k) + times k (pre ++ post)
times-middle k [] post j = refl
times-middle k (m ∷ pre) post j = omega (arith, times-middle k pre post j)

module _ (w : World) (k j : Identity) where
  pub refs_of-reuse :
      (e : Entry)
      → lookup k w.entries ≡ some e
      → refs_of (reuse k e w) j ≡ one_if (identity_eq k j) + refs_of w j
  unfolding reuse
  refs_of-reuse e h =
      ground
        (arith, identity_eq_iff k j, lookup-insert k j (record e { refs = e.refs + 1 }) w.entries)

  pub refs_of-enter :
      (c : Client)
      → lookup k w.entries ≡ none
      → refs_of (enter k c w) j ≡ one_if (identity_eq k j) + refs_of w j
  unfolding enter
  refs_of-enter c h = ground (
    arith,
    identity_eq_iff k j,
    lookup-insert k j (record { runtime = w.next_client; refs = 1 }) w.entries,
  )

  -- A release counts one down, unless there is no entry.
  pub refs_of-release :
      (stopping : List ℕ)
      → StoreOk w stopping
      → 0 < refs_of w k
      → one_if (identity_eq k j) + refs_of (release_entry k w).0 j ≡ refs_of w j
  unfolding release_entry drop_ref
  refs_of-release stopping v h = elim (Option-cases (lookup k w.entries)) [
    | inl missing ↦ ground (arith, missing)
    | inr (e, found) ↦ ground (
      arith,
      found,
      v.entries k,
      identity_eq_iff k j,
      lookup-insert k j (record e { refs = e.refs - 1 }) w.entries,
      lookup-delete k j w.entries,
    )
  ]

pub refs_of-stop : (w : World) (p : ℕ) (k : Identity) → refs_of (stop_pointer p w) k ≡ refs_of w k
unfolding stop_pointer stop_at
refs_of-stop w p k = elim (Option-cases (lookup p w.clients)) [
  | inl missing ↦ rw (missing, stop_at) refl
  | inr (c, found) ↦ rw (found, stop_at) refl
]

-- ===== src/Leases/System/Safety.antt =====
-- What the reference counts are for: a leased client runtime runs, and only such ones go on.
use caddy_bifrost.Base.{
  ℕ, ◌+◌, ◌<◌, ◌≡◌, ◌≢◌, refl, ap, subst, inl, inr, true, false, none, some, List, [], ◌∷◌, ◌++◌,
  arith, All, Option-cases,
}
use caddy_bifrost.GoMap.{lookup}
use caddy_bifrost.Runtime.Client.{Client, is_live}
use caddy_bifrost.Leases.Keys.{Identity, identity_eq_iff, Identity-eq, Pointer-eq}
use caddy_bifrost.Leases.{Entry, World, Lease}
use caddy_bifrost.Leases.Store.{has_pointer, ConfiguredFor}
use caddy_bifrost.Leases.Counts.{refs_of, holders, times, holders-middle}
use caddy_bifrost.Leases.System.{System, initial, Reach}
use caddy_bifrost.Leases.System.Interleaving.{SystemOk, LeaseOk, All-middle, reached-SystemOk}

-- After any interleaving of calls the registry's count for an identity is the number of leases
-- that hold its runtime and of releases taken from a lease and not called yet.
pub refs-counted :
    (s : System) (k : Identity)
    → Reach initial s
    → refs_of s.world k ≡ holders k s.leases + times k s.releasing
refs-counted s k r = (reached-SystemOk r).counted k

-- The runtime that runs for an identity, found through the registry.
pub record Running (w : World) (k : Identity) : Type 0 where
  pub entry : Entry
  pub client : Client
  pub registered : lookup k w.entries ≡ some entry
  pub stored : lookup entry.runtime w.clients ≡ some client
  pub live : is_live client ≡ true
  pub configured : ConfiguredFor k client.cfg

counted-Running :
    (s : System) (k : Identity) → SystemOk s → 0 < refs_of s.world k → Running s.world k
counted-Running s k v h = elim (Option-cases (lookup k s.world.entries)) [
  | inl missing ↦ absurd (ground (arith, missing))
  | inr (e, found) ↦ elim (Option-cases (lookup e.runtime s.world.clients)) [
    | inl lost ↦ absurd (ground (arith, v.store.entries k))
    | inr (c, stored) ↦ record {
      entry = e;
      client = c;
      registered = found;
      stored = stored;
      live = ground (arith, v.store.entries k, v.store.clients e.runtime);
      configured = ground (arith, v.store.entries k, v.store.clients e.runtime);
    }
  ]
]

-- After any interleaving of calls, whatever the configurations of the leases are: a lease that was
-- started and not stopped has a running client runtime, which the registry holds under the identity
-- of the lease; its configuration is the one with this identity, normalised any number of
-- times over, whichever lease started it and whatever other leases do meanwhile.
pub lease-Running :
    (s : System) (pre : List Lease) (l : Lease) (post : List Lease)
    → Reach initial s
    → s.leases ≡ pre ++ l ∷ post
    → l.release ≢ none
    → Running s.world l.identity
lease-Running s pre l post r at_l held =
    let v = reached-SystemOk r in
    let (u, put) = All-middle pre post l (subst (All LeaseOk) at_l v.leases) in
    counted-Running s l.identity v (
      ground (
        arith,
        held,
        u.release,
        v.counted l.identity,
        ap (holders l.identity) at_l,
        holders-middle l.identity pre post l,
        identity_eq_iff l.identity l.identity,
      ))

abbrev pub AllIdle : List Lease → Type 0
AllIdle ls = All (λ l. l.release ≡ none) ls

holders-idle : (k : Identity) (ls : List Lease) → AllIdle ls → holders k ls ≡ 0
holders-idle k [] h = refl
holders-idle k (l ∷ ls) (p, h) = ground (arith, p, holders-idle k ls h)

-- After any interleaving of calls, once no lease is held and no call is under way, the registry is
-- empty and no client runtime that was ever started is live.
pub idle-stopped :
    (s : System)
    → Reach initial s
    → AllIdle s.leases
    → s.releasing ≡ []
    → s.stopping ≡ []
    → ((k : Identity) → lookup k s.world.entries ≡ none)
      × ((p : ℕ) (c : Client) → lookup p s.world.clients ≡ some c → is_live c ≡ false)
idle-stopped s r idle none_releasing none_stopping =
    let v = reached-SystemOk r in
    let empty = λ (k : Identity). idle-unregistered k v in
    (
      empty,
      (λ p c stored. ground (
        arith,
        v.store.clients p,
        ap (λ ps. has_pointer ps p) none_stopping,
        empty (v.store.key p),
      )),
    )
  where
    idle-unregistered : (k : Identity) → SystemOk s → lookup k s.world.entries ≡ none
    idle-unregistered k v = elim (Option-cases (lookup k s.world.entries)) [
      | inl missing ↦ missing
      | inr (e, found) ↦ absurd (
          ground (
            arith,
            v.store.entries k,
            found,
            v.counted k,
            holders-idle k s.leases idle,
            ap (times k) none_releasing,
          ))
    ]

-- The one identity under which the registry leads to a runtime.
pub record InRegistry (w : World) (p : ℕ) (c : Client) : Type 0 where
  pub key : Identity
  pub entry : Entry
  pub registered : lookup key w.entries ≡ some entry
  pub leads : entry.runtime ≡ p
  pub counted : 0 < entry.refs
  pub configured : ConfiguredFor key c.cfg
  pub only : (k : Identity) (e : Entry) → lookup k w.entries ≡ some e → e.runtime ≡ p → k ≡ key

-- After any interleaving of calls, a client runtime that runs, and that no release has taken out, is
-- registered under one identity, with a count above 0, and under no other: none is lost to the
-- registry, and no two identities share one, so that two of them under one identity are one.
pub live-InRegistry :
    (s : System) (p : ℕ) (c : Client)
    → Reach initial s
    → lookup p s.world.clients ≡ some c
    → is_live c ≡ true
    → has_pointer s.stopping p ≡ false
    → InRegistry s.world p c
live-InRegistry s p c r at_p live stays =
    let v = reached-SystemOk r in
    elim (Option-cases (lookup (v.store.key p) s.world.entries)) [
      | inl missing ↦ absurd (ground (arith, missing, at_p, v.store.clients p))
      | inr (e, found) ↦ record {
        key = v.store.key p;
        entry = e;
        registered = found;
        leads = ground (arith, found, v.store.clients p);
        counted = ground (arith, found, v.store.entries (v.store.key p));
        configured = ground (arith, v.store.clients p);
        only = λ k f there same. only_key v k f there same;
      }
    ]
  where
    only_key :
        (v : SystemOk s) (k : Identity) (f : Entry)
        → lookup k s.world.entries ≡ some f
        → f.runtime ≡ p
        → k ≡ v.store.key p
    only_key v k f there same = ground (arith, there, v.store.entries k)

-- ===== src/Leases/System/Calls.antt =====
-- A call of `Stop` that nothing interrupts is a run of the steps that it is cut into.
use caddy_bifrost.Base.{ℕ, ◌≡◌, refl, Option, none, some, List, [], ◌∷◌, ◌++◌}
use caddy_bifrost.Leases.Keys.{Identity}
use caddy_bifrost.Leases.{
  Lease, take_release, release_entry, release_now, run_release, stop_after_release, stop_lease,
}
use caddy_bifrost.Leases.Taking.{hand_over}
use caddy_bifrost.Leases.System.{System, take, release, stop, Reach, here, next, add_release}

Reach-trans : {s t u : System} → Reach s t → Reach t u → Reach s u
Reach-trans r here = r
Reach-trans r (next q st) = next (Reach-trans r q) st

stopping_run :
    (s : System) (o : Option ℕ)
    → Reach
        (record s { stopping = hand_over o s.stopping })
        (record s { world = stop_after_release (s.world, o) })
unfolding stop_after_release
stopping_run s none = here
stopping_run s (some p) = next here (stop [] p s.stopping refl)

release_run :
    (s : System) (o : Option Identity)
    → Reach
        (record s { releasing = add_release o s.releasing })
        (record s { world = run_release o s.world })
unfolding run_release release_now
release_run s none = here
release_run s (some k) =
    let r = release_entry k s.world in
    Reach-trans (next here (release [] k s.releasing refl))
      (stopping_run (record s { world = r.0 }) r.1)

-- `Stop` of a lease, taken as one, is a run of the three steps that other calls may come between.
pub stop_lease-Reach :
    (s : System) (pre : List Lease) (l : Lease) (post : List Lease)
    → s.leases ≡ pre ++ l ∷ post
    → Reach s (record s {
      world = (stop_lease l s.world).0;
      leases = pre ++ (stop_lease l s.world).1 ∷ post;
    })
unfolding stop_lease take_release
stop_lease-Reach s pre l post at_l =
    let idle : Lease = record l { release = none } in
    Reach-trans (next here (take pre l post at_l))
      (release_run (record s { leases = pre ++ idle ∷ post }) l.release)

-- ===== src/Leases/System.antt =====
-- client_runtime.go: leases that several goroutines start and stop. Every critical section is one
-- step, so the steps of different calls interleave; what stands between the critical sections of
-- one call is a list of work left to do.
pub mod Interleaving
pub mod Safety
pub mod Configured
pub mod Calls
use caddy_bifrost.Base.{ℕ, ◌≡◌, Option, none, some, List, [], ◌∷◌, ◌++◌, Result, ok, err}
use caddy_bifrost.Config.{ClientConfig}
use caddy_bifrost.Leases.Keys.{Identity}
use caddy_bifrost.Leases.Taking.{hand_over}
use caddy_bifrost.Leases.{
  World, Lease, new_lease, start_lease, take_release, release_entry, stop_pointer,
}

-- `releasing`: the closures that calls of `Stop` have taken and not called yet. `stopping`: the
-- runtimes that calls of `release` have taken out and not stopped yet.
pub record System : Type 0 where
  pub world : World
  pub leases : List Lease
  pub releasing : List Identity
  pub stopping : List ℕ

abbrev pub initial : System
initial = record {
  world = record { entries = []; clients = []; next_client = 0 };
  leases = [];
  releasing = [];
  stopping = [];
}

abbrev pub add_release : Option Identity → List Identity → List Identity
add_release none ks = ks
add_release (some k) ks = k ∷ ks

-- A lease whose `Start` was called.
abbrev pub after_start : System → List Lease → Lease → List Lease → System
after_start s pre l post =
    let r = start_lease l s.world in record s { world = r.0; leases = pre ++ r.1 ∷ post }

abbrev pub after_take : System → List Lease → Lease → List Lease → System
after_take s pre l post =
    let r = take_release l in
    record s { leases = pre ++ r.0 ∷ post; releasing = add_release r.1 s.releasing }

abbrev pub after_release : System → List Identity → Identity → List Identity → System
after_release s pre k post =
    let r = release_entry k s.world in
    record s { world = r.0; releasing = pre ++ post; stopping = hand_over r.1 s.stopping }

abbrev pub after_stop : System → List ℕ → ℕ → List ℕ → System
after_stop s pre p post = record s { world = stop_pointer p s.world; stopping = pre ++ post }

-- The critical sections.
pub data Step (s : System) : System → Type 0 where
  create :
      (cfg : ClientConfig) (l : Lease)
      → new_lease (some cfg) ≡ ok l
      → Step s (record s { leases = l ∷ s.leases })
  start :
      (pre : List Lease) (l : Lease) (post : List Lease)
      → s.leases ≡ pre ++ l ∷ post
      → Step s (after_start s pre l post)
  take :
      (pre : List Lease) (l : Lease) (post : List Lease)
      → s.leases ≡ pre ++ l ∷ post
      → Step s (after_take s pre l post)
  release :
      (pre : List Identity) (k : Identity) (post : List Identity)
      → s.releasing ≡ pre ++ k ∷ post
      → Step s (after_release s pre k post)
  stop :
      (pre : List ℕ) (p : ℕ) (post : List ℕ)
      → s.stopping ≡ pre ++ p ∷ post
      → Step s (after_stop s pre p post)

pub data Reach (s : System) : System → Type 0 where
  here : Reach s s
  next : {t u : System} → Reach s t → Step t u → Reach s u

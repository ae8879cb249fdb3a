-- ===== src/Leases/Tests.antt =====
-- Runs of the registry on one lease, and the theorems at these runs.
use caddy_bifrost.Base.{arith, ℕ, ◌+◌, ◌≡◌, refl, subst, true, false, none, some, [], ◌∷◌, ok}
use caddy_bifrost.Text.{
  text, text_eq, is_space, trim_left, trim_right, trim_space, strip_prefix, contains, cut_last,
}
use caddy_bifrost.GoMap.{lookup, insert, delete}
use caddy_bifrost.HostPort.{split_host_port}
use caddy_bifrost.Config.{ClientConfig}
use caddy_bifrost.Config.Client.{normalize_client, normalize_connect_address, check_client}
use caddy_bifrost.Runtime.Client.{Client, is_live, new_client, start_client, stop_client}
use caddy_bifrost.Leases.Keys.{Identity, identity_of, identity_eq, Identity-eq, Pointer-eq}
use caddy_bifrost.Leases.{
  Lease, new_lease, start_lease, acquire, release_entry, stop_pointer, take_release, release_now,
  stop_lease,
}
use caddy_bifrost.Leases.Counts.{refs_of, holders, times}
use caddy_bifrost.Leases.Reload.{reload, reload_keeps}
use caddy_bifrost.Leases.System.{System, initial, create, start, Reach, here, next, after_start}
use caddy_bifrost.Leases.System.Safety.{
  refs-counted, Running, lease-Running, idle-stopped, InRegistry, live-InRegistry,
}
use caddy_bifrost.Leases.System.Configured.{lease-Configured}
use caddy_bifrost.Leases.System.Calls.{stop_lease-Reach}

abbrev home_config : ClientConfig
home_config = record {
  connect = text "edge:8443";
  token = text "secret";
  forward = text "localhost:80";
  tls_ca_file = [];
  tls_server_name = [];
  tls_insecure_skip_verify = false;
}

abbrev home : Identity
home = identity_of home_config

abbrev idle_lease : Lease
idle_lease = record { cfg = home_config; identity = home; release = none }

abbrev held_lease : Lease
held_lease = record { cfg = home_config; identity = home; release = some home }

-- Unfolds what a start computes with.
abbrev running : System
running = record {
  world = record {
    entries = (home, record { runtime = 0; refs = 1 }) ∷ [];
    clients =
        (0, record { cfg = home_config; started = true; cancelled = false; stop_once = false })
        ∷ [];
    next_client = 1;
  };
  leases = held_lease ∷ [];
  releasing = [];
  stopping = [];
}

made : new_lease (some home_config) ≡ ok idle_lease
unfolding new_lease normalize_client normalize_connect_address check_client trim_space trim_left
    trim_right is_space contains strip_prefix split_host_port cut_last text_eq
made = refl

start_lem : after_start (record initial { leases = idle_lease ∷ [] }) [] idle_lease [] ≡ running
unfolding start_lease new_client start_client normalize_client normalize_connect_address
    check_client trim_space trim_left trim_right is_space contains strip_prefix split_host_port
    cut_last text_eq acquire lookup insert delete identity_eq
start_lem = refl

running-reached : Reach initial running
running-reached =
    subst (Reach initial) start_lem
      (next (next here (create home_config idle_lease made)) (start [] idle_lease [] refl))

refs-counted_example :
    refs_of running.world home ≡ holders home running.leases + times home running.releasing
refs-counted_example = refs-counted running home running-reached

lease-Running_example : Running running.world home
lease-Running_example = lease-Running running [] held_lease [] running-reached refl (λ e. cc)

normal : normalize_client home_config ≡ home_config
unfolding normalize_client normalize_connect_address trim_space trim_left trim_right is_space
    contains strip_prefix split_host_port cut_last text_eq
normal = refl

lease-Configured_example :
    (v : Running running.world home) × (v.client.cfg ≡ home_config) × (home_config ≡ home_config)
lease-Configured_example =
    lease-Configured running [] held_lease [] home_config running-reached refl (λ e. cc) refl normal

live-InRegistry_example :
    InRegistry running.world 0
      (record { cfg = home_config; started = true; cancelled = false; stop_once = false })
unfolding lookup
live-InRegistry_example = live-InRegistry running 0 _ running-reached refl refl refl

-- The run goes on to the end: the lease is stopped.
abbrev stopped : System
stopped = record {
  world = record {
    entries = [];
    clients =
        (0, record { cfg = home_config; started = true; cancelled = true; stop_once = true }) ∷ [];
    next_client = 1;
  };
  leases = idle_lease ∷ [];
  releasing = [];
  stopping = [];
}

stop_lease-Reach_run : Reach running (record running {
  world = (stop_lease held_lease running.world).0;
  leases = (stop_lease held_lease running.world).1 ∷ [];
})
stop_lease-Reach_run = stop_lease-Reach running [] held_lease [] refl

stop_lem :
    ◌≡◌ {A = System}
      (record running {
        world = (stop_lease held_lease running.world).0;
        leases = (stop_lease held_lease running.world).1 ∷ [];
      })
      stopped
unfolding stop_lease take_release release_now release_entry stop_pointer stop_client lookup insert
    delete identity_eq text_eq
stop_lem = refl

Reach-append : {s t u : System} → Reach s t → Reach t u → Reach s u
Reach-append r here = r
Reach-append r (next q st) = next (Reach-append r q) st

stopped-reached : Reach initial stopped
stopped-reached =
    Reach-append running-reached
      (subst (Reach running) stop_lem (stop_lease-Reach running [] held_lease [] refl))

idle-stopped_example :
    ((k : Identity) → lookup k stopped.world.entries ≡ none)
    × ((p : ℕ) (c : Client) → lookup p stopped.world.clients ≡ some c → is_live c ≡ false)
idle-stopped_example = idle-stopped stopped stopped-reached (refl, tt) refl refl

-- The lease of a new configuration takes over from that of the old one.
reload_keeps_example :
    let r = reload held_lease idle_lease running.world in
    (r.0.0.clients ≡ running.world.clients)
    × (lookup home r.0.0.entries ≡ lookup home running.world.entries)
    × (r.0.1.release ≡ none)
    × (r.1.release ≡ some home)
    × (r.2 ≡ ok tt)
unfolding lookup identity_eq text_eq
reload_keeps_example =
    reload_keeps running.world held_lease idle_lease (record { runtime = 0; refs = 1 }) home refl
      refl refl (omega arith)

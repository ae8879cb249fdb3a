-- ===== src/Leases/System/Configured.antt =====
-- Leases whose configuration normalisation leaves as it is.
use caddy_bifrost.Base.{◌≡◌, ◌≢◌, sym, ◌∙◌, ap, subst, none, List, ◌∷◌, ◌++◌, All}
use caddy_bifrost.Config.{ClientConfig}
use caddy_bifrost.Config.Client.{normalize_client}
use caddy_bifrost.Leases.Keys.{Identity, identity_of}
use caddy_bifrost.Leases.{Lease}
use caddy_bifrost.Leases.Store.{ConfiguredFor, given, again}
use caddy_bifrost.Leases.System.{System, initial, Reach}
use caddy_bifrost.Leases.System.Interleaving.{LeaseOk, All-middle, reached-SystemOk}
use caddy_bifrost.Leases.System.Safety.{Running, lease-Running}

-- An identity holds every field of its configuration.
abbrev config_of : Identity → ClientConfig
config_of k = record {
  connect = k.connect;
  token = k.token;
  forward = k.forward;
  tls_ca_file = k.tls_ca_file;
  tls_server_name = k.tls_server_name;
  tls_insecure_skip_verify = k.tls_insecure_skip_verify;
}

ConfiguredFor-fixed :
    (k : Identity) (n cfg : ClientConfig)
    → identity_of n ≡ k
    → normalize_client n ≡ n
    → ConfiguredFor k cfg
    → cfg ≡ n
ConfiguredFor-fixed k n cfg h fixed (given _ same) = ap config_of (same ∙ sym h)
ConfiguredFor-fixed k n cfg h fixed (again before v) =
    ap normalize_client (ConfiguredFor-fixed k n before h fixed v) ∙ fixed

-- After any interleaving of calls, whatever the other leases are: a lease that was started and not
-- stopped, and for whose identity the configuration is one that normalisation leaves as it is, has a
-- running client runtime under its identity that is configured exactly as the lease is, whichever
-- lease started it.
pub lease-Configured :
    (s : System) (pre : List Lease) (l : Lease) (post : List Lease) (n : ClientConfig)
    → Reach initial s
    → s.leases ≡ pre ++ l ∷ post
    → l.release ≢ none
    → identity_of n ≡ l.identity
    → normalize_client n ≡ n
    → (v : Running s.world l.identity) × (v.client.cfg ≡ l.cfg) × (l.cfg ≡ n)
lease-Configured s pre l post n r at_l held same fixed =
    let (u, put) = All-middle pre post l (subst (All LeaseOk) at_l (reached-SystemOk r).leases) in
    let v = lease-Running s pre l post r at_l held in
    let as_lease = ConfiguredFor-fixed l.identity n l.cfg same fixed u.configured in
    (
      v,
      ConfiguredFor-fixed l.identity n v.client.cfg same fixed v.configured ∙ sym as_lease,
      as_lease,
    )

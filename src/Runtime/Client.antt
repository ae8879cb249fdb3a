-- ===== src/Runtime/Client.antt =====
-- internal/runtime/client.go: the client runtime. Its goroutine, which runs the tunnel library's
-- `RunClient` until its context is cancelled, is the two flags `started` and `cancelled`; `Life` has its
-- steps.
pub mod Handling
pub mod Life
pub mod Making
use caddy_bifrost.Base.{
  ◌⊎◌, inl, inr, ◌≡◌, refl, Bool, true, false, not, ◌&&◌, ◌||◌, arith, if◌then◌else◌, Result, ok,
  err,
}
use caddy_bifrost.Config.{ClientConfig, ConfigError}
use caddy_bifrost.Config.Client.{normalize_client, check_client}

-- The errors of the client runtime and of its leases.
pub data ClientError : Type 0 where
  not_configured : ClientError
  invalid : ConfigError → ClientError

-- `started`: `ctx` and `cancel` are set and the goroutine was launched. `stop_once`: the `sync.Once`
-- of `Stop` has run.
pub record Client : Type 0 where
  pub cfg : ClientConfig
  pub started : Bool
  pub cancelled : Bool
  pub stop_once : Bool

-- The goroutine may run.
abbrev pub is_live : Client → Bool
is_live c = c.started && not c.cancelled

-- A client runtime as its constructor leaves it.
abbrev pub fresh_client : ClientConfig → Client
fresh_client cfg = record { cfg = cfg; started = false; cancelled = false; stop_once = false }

created : ClientConfig → Result ConfigError (Unit {0}) → Result ClientError Client
created cfg (ok valid) = ok (fresh_client cfg)
created cfg (err e) = err (invalid e)

-- `NewClient`: the configuration that the caller holds is normalised in place.
unfoldable pub new_client : ClientConfig → ClientConfig × Result ClientError Client
unfolding created
new_client cfg = let n = normalize_client cfg in (n, created n (check_client n))

-- `Client.Start`, behind its test for nil.
unfoldable pub start_client : Client → Client
start_client c = record c { started = true; cancelled = false }

-- `Client.Stop`, behind its test for nil: only the first call cancels, and only what was started.
unfoldable pub stop_client : Client → Client
stop_client c =
    if c.stop_once then c else record c { stop_once = true; cancelled = c.started || c.cancelled }

-- A stopped client does not run, unless it was stopped before it was started.
pub stop_client-not_live : (c : Client) → c.stop_once ≡ false → is_live (stop_client c) ≡ false
unfolding stop_client
stop_client-not_live c h = ground arith

pub stop_client_idem : (c : Client) → stop_client (stop_client c) ≡ stop_client c
unfolding stop_client
stop_client_idem c = ground arith

created_cases :
    (cfg : ClientConfig) (r : Result ConfigError (Unit {0}))
    → (created cfg r ≡ ok (fresh_client cfg)) ⊎ ((e : ClientError) × (created cfg r ≡ err e))
unfolding created
created_cases cfg (ok valid) = inl refl
created_cases cfg (err e) = inr (invalid e, refl)

-- The configuration is normalised whether or not a runtime comes of it.
pub new_client_cases :
    (cfg : ClientConfig)
    → (new_client cfg ≡ (normalize_client cfg, ok (fresh_client (normalize_client cfg))))
      ⊎ ((e : ClientError) × (new_client cfg ≡ (normalize_client cfg, err e)))
unfolding new_client
new_client_cases cfg =
    elim (created_cases (normalize_client cfg) (check_client (normalize_client cfg))) [
      | inl made ↦ inl (ground (arith, made))
      | inr (e, failed) ↦ inr (e, ground (arith, failed))
    ]

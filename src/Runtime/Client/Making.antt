-- ===== src/Runtime/Client/Making.antt =====
-- internal/runtime/client.go: `NewClient` with its options, one of which sets the observer.
use caddy_bifrost.Base.{◌≡◌, Option, none, some, List, [], ◌∷◌, Result, ok, err}
use caddy_bifrost.Config.{ClientConfig}
use caddy_bifrost.Runtime.Metrics.Registration.{CaddyObserver}
use caddy_bifrost.Runtime.Client.{Client, ClientError, new_client}

-- `ClientOptions`.
pub record ClientOptions : Type 0 where
  pub observer : Option CaddyObserver

abbrev pub ClientOption : Type 0
ClientOption = ClientOptions → ClientOptions

-- `WithClientObserver`; `none` is a nil interface.
unfoldable pub with_client_observer : Option CaddyObserver → ClientOption
with_client_observer observer opts = record opts { observer = observer }

-- The loop of `NewClient`; `none` is a nil option.
unfoldable pub apply_client_options : ClientOptions → List (Option ClientOption) → ClientOptions
apply_client_options opts [] = opts
apply_client_options opts (none ∷ options) = apply_client_options opts options
apply_client_options opts (some option ∷ options) = apply_client_options (option opts) options

-- A client runtime with its observer.
abbrev pub Observed : Type 0
Observed = Client × Option CaddyObserver

attach : Option CaddyObserver → Result ClientError Client → Result ClientError Observed
attach observer (ok c) = ok (c, observer)
attach observer (err e) = err e

-- `NewClient`: the configuration that the caller holds, and the result.
unfoldable pub new_observed_client :
    ClientConfig → List (Option ClientOption) → ClientConfig × Result ClientError Observed
unfolding attach
new_observed_client cfg options =
    let (n, made) = new_client cfg in
    (n, attach (apply_client_options (record { observer = none }) options).observer made)

attach_sound :
    (observer : Option CaddyObserver) (r : Result ClientError Client) (c : Observed)
    → attach observer r ≡ ok c
    → (r ≡ ok c.0) × (c.1 ≡ observer)
unfolding attach
attach_sound observer (ok x) c h = (cc, cc)
attach_sound observer (err e) c h = cc

-- A client runtime is made as without options, and has the observer that its one option sets.
pub new_observed_client_sound :
    (cfg : ClientConfig) (observer : Option CaddyObserver) (c : Observed)
    → (new_observed_client cfg (some (with_client_observer observer) ∷ [])).1 ≡ ok c
    → ((new_client cfg).1 ≡ ok c.0) × (c.1 ≡ observer)
unfolding new_observed_client apply_client_options with_client_observer
new_observed_client_sound cfg observer c h = attach_sound observer (new_client cfg).1 c h

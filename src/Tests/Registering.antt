-- ===== src/Tests/Registering.antt =====
-- Tests of the metrics' registration.
use caddy_bifrost.Base.{ℕ, suc, ◌≡◌, refl, sym, ◌∙◌, Option, none, some, [], ◌∷◌, arith, ok, err}
use caddy_bifrost.Text.{Text, text, text_eq, text_eq_iff}
use caddy_bifrost.GoMap.{Text-eq, GoMap, lookup, insert, delete, lookup-insert, beq_refl}
use caddy_bifrost.Runtime.Metrics.Registration.{
  VecKind, VecOpts, vec, Registered, fresh, already, counter_vec, already_registered, CaddyObserver,
  register_vec, observer_in, new_caddy_observer,
}
use caddy_bifrost.Runtime.Metrics.Registration.Again.{Keeps, new_caddy_observer_again}

-- A registry that tells vectors apart by their name, as Prometheus does.
abbrev Names : Type 0
Names = ℕ × GoMap Text (VecKind × ℕ)

register_found : VecOpts → Names → Option (VecKind × ℕ) → Names × Registered
register_found opts r (some (kind, v)) = (r, already (vec kind v))
register_found opts (n, m) none = ((suc n, insert opts.name (opts.kind, n) m), fresh n)

register : VecOpts → Names → Names × Registered
unfolding register_found
register opts r = register_found opts r (lookup opts.name r.1)

abbrev Named : Names → VecOpts → ℕ → Type 0
Named r opts v = lookup opts.name r.1 ≡ some (opts.kind, v)

module _ (opts : VecOpts) where
  fresh-Named :
      (n : ℕ) (m : GoMap Text (VecKind × ℕ)) (v : ℕ) (o : Option (VecKind × ℕ))
      → (register_found opts (n, m) o).1 ≡ fresh v
      → Named (register_found opts (n, m) o).0 opts v
  unfolding register_found
  fresh-Named n m v (some (kind, u)) h = cc
  fresh-Named n m v none h =
      ground (arith, beq_refl opts.name, lookup-insert opts.name opts.name (opts.kind, n) m)

  already-Named :
      (r : Names) (v : ℕ) (o : Option (VecKind × ℕ))
      → lookup opts.name r.1 ≡ o
      → (register_found opts r o).1 ≡ already (vec opts.kind v)
      → Named (register_found opts r o).0 opts v
  unfolding register_found
  already-Named r v (some (kind, u)) e h = cc
  already-Named r v none e h = cc

  stays-Named :
      (other : VecOpts) (n : ℕ) (m : GoMap Text (VecKind × ℕ)) (v : ℕ) (o : Option (VecKind × ℕ))
      → lookup other.name m ≡ o
      → lookup opts.name m ≡ some (opts.kind, v)
      → Named (register_found other (n, m) o).0 opts v
  unfolding register_found
  stays-Named other n m v (some (kind, u)) e h = h
  stays-Named other n m v none e h = ground (
    arith,
    text_eq_iff other.name opts.name,
    lookup-insert other.name opts.name (other.kind, n) m,
  )

  again-Named :
      (r : Names) (v : ℕ) (o : Option (VecKind × ℕ))
      → lookup opts.name r.1 ≡ o
      → Named r opts v
      → (register_found opts r o).1 ≡ already (vec opts.kind v)
  unfolding register_found
  again-Named r v o e h = rw (sym e ∙ h) refl

register-Keeps : Keeps register
unfolding register
register-Keeps = record {
  Has = Named;
  made = λ {opts} {r} {v} h. fresh-Named opts r.0 r.1 v _ h;
  found = λ {opts} {r} {v} h. already-Named opts r v _ refl h;
  stays = λ other {opts} {r} {v} h. stays-Named opts other r.0 r.1 v _ refl h;
  again = λ {opts} {r} {v} h. again-Named opts r v _ refl h;
}

first_observer :
    (r : Names) × (o : CaddyObserver) × (new_caddy_observer register (some (0, []))
      ≡ (some r, ok o))
unfolding new_caddy_observer observer_in register_vec register register_found lookup insert delete
    text_eq
first_observer = (_, _, refl)

new_caddy_observer_again_example :
    (new_caddy_observer register (some first_observer.0)).1 ≡ ok first_observer.1
new_caddy_observer_again_example =
    new_caddy_observer_again register register-Keeps (0, []) first_observer.0 first_observer.1
      first_observer.2

another_kind_fails :
    (new_caddy_observer register (some (1, (text "active_sessions", (counter_vec, 0)) ∷ []))).1
    ≡ err already_registered
unfolding new_caddy_observer observer_in register_vec register register_found lookup insert delete
    text_eq
another_kind_fails = refl

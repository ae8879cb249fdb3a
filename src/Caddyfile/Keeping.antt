-- ===== src/Caddyfile/Keeping.antt =====
-- What the app's parser returns, whatever tokens it reads.
use caddy_bifrost.Base.{
  ℕ, zero, suc, ◌≡◌, refl, ◌||◌, Bool, true, false, is_some, if◌then◌else◌, none, some, ok, err,
  subst, sym,
}
use caddy_bifrost.Text.{text, text_eq}
use caddy_bifrost.Config.{ServerConfig, ClientConfig}
use caddy_bifrost.Config.Server.{normalize_server}
use caddy_bifrost.Config.Client.{normalize_client}
use caddy_bifrost.Config.Server.Normal.{ServerNormal, normalize_server-ServerNormal}
use caddy_bifrost.Caddyfile.{
  Dispenser, Numbers, Parsed, Filled, fill, value_of, and_then, after_line, unless_arg, on_line,
  each_line, single_arg, exactly_one_runtime,
}
use caddy_bifrost.Caddyfile.Server.{parse_server_body}
use caddy_bifrost.Caddyfile.Client.{parse_client_body}
use caddy_bifrost.Caddyfile.App.{
  Runtimes, new_server_config, new_client_config, each_segment, parse_client_case,
  parse_server_case, app_line, app_segment, parse_app,
}

-- At most one runtime, in normal form.
abbrev pub IsParsed : Runtimes → Type 0
IsParsed (none, none) = Unit
IsParsed (some s, none) = ServerNormal s
IsParsed (none, some c) = (written : ClientConfig) × (c ≡ normalize_client written)
IsParsed (some s, some c) = ⊥

and_then-ok :
    {D A B : Type 0} (p : Parsed D A) (rest : A → D → Parsed D B) (b : B)
    → (and_then p rest).1 ≡ ok b
    → (a : A) × (d : D) × ((rest a d).1 ≡ ok b)
and_then-ok (d, ok a) rest b h = (a, d, h)
and_then-ok (d, err e) rest b h = cc

normalized-ok :
    {D A : Type 0} (p : Parsed D A) (normalize : A → A) (b : A)
    → (and_then p (λ a d. (d, ok (normalize a)))).1 ≡ ok b
    → (a : A) × (b ≡ normalize a)
normalized-ok (d, ok a) normalize b h = (a, cc)
normalized-ok (d, err e) normalize b h = cc

module _ {S : Type 0} (P : S → Type 0) where
  on_line-keeps :
      {D : Type 0} (q : D × Bool) (line rest : D → S → Filled D S) (s : S)
      → P s
      → ((d : D) (s : S) → P s → P (line d s).1)
      → ((d : D) (s : S) → P s → P (rest d s).1)
      → P (on_line q line rest s).1
  on_line-keeps (d, false) line rest s h keeps later = h
  on_line-keeps {D = D} (d, true) line rest s h keeps later = after (line d s) (keeps d s h)
    where
      after : (p : Filled D S) → P p.1 → P (after_line p rest).1
      after (d, s, ok u) h = later d s h
      after (d, s, err e) h = h

  module _ {D : Type 0} (o : Dispenser D) (handle : ℕ → D → S → Filled D S)
      (keeps : (fuel : ℕ) (d : D) (s : S) → P s → P (handle fuel d s).1) where
    each_line-keeps :
        (fuel nesting : ℕ) (d : D) (s : S) → P s → P (each_line o fuel handle nesting d s).1
    unfolding each_line
    each_line-keeps zero nesting d s h = h
    each_line-keeps (suc fuel) nesting d s h =
        on_line-keeps (o.next_block nesting d) (handle fuel) (each_line o fuel handle nesting) s h
          (keeps fuel) (λ d s h. each_line-keeps fuel nesting d s h)

    each_segment-keeps : (fuel : ℕ) (d : D) (s : S) → P s → P (each_segment o fuel handle d s).1
    unfolding each_segment
    each_segment-keeps zero d s h = h
    each_segment-keeps (suc fuel) d s h =
        on_line-keeps (o.next d) (handle fuel) (each_segment o fuel handle) s h (keeps fuel)
          (λ d s h. each_segment-keeps fuel d s h)

unless_arg-keeps :
    {D S : Type 0} (P : S → Type 0) (q : D × Bool) (rest : D → S → Filled D S) (s : S)
    → P s
    → ((d : D) → P (rest d s).1)
    → P (unless_arg q rest s).1
unless_arg-keeps P (d, true) rest s h later = h
unless_arg-keeps P (d, false) rest s h later = later d

-- A runtime is filled in only where none is.
server-IsParsed :
    {D : Type 0} (d : D) (s : Runtimes) (p : Parsed D ServerConfig)
    → IsParsed s
    → ((cfg : ServerConfig) → p.1 ≡ ok cfg → ServerNormal cfg)
    → IsParsed
        (if is_some s.0 || is_some s.1
          then (d, s, err exactly_one_runtime)
          else fill p (λ cfg s. (some cfg, s.1)) s).1
server-IsParsed d (none, none) (d', ok cfg) h normal = normal cfg refl
server-IsParsed d (none, none) (d', err e) h normal = h
server-IsParsed d (some s, none) p h normal = h
server-IsParsed d (none, some c) p h normal = h
server-IsParsed d (some s, some c) p h normal = h

client-IsParsed :
    {D : Type 0} (d : D) (s : Runtimes) (p : Parsed D ClientConfig)
    → IsParsed s
    → ((cfg : ClientConfig)
        → p.1 ≡ ok cfg
        → (written : ClientConfig) × (cfg ≡ normalize_client written))
    → IsParsed
        (if is_some s.0 || is_some s.1
          then (d, s, err exactly_one_runtime)
          else fill p (λ cfg s. (s.0, some cfg)) s).1
client-IsParsed d (none, none) (d', ok cfg) h normal = normal cfg refl
client-IsParsed d (none, none) (d', err e) h normal = h
client-IsParsed d (some s, none) p h normal = h
client-IsParsed d (none, some c) p h normal = h
client-IsParsed d (some s, some c) p h normal = h

if-IsParsed :
    {D : Type 0} (b : Bool) (p q : Filled D Runtimes)
    → IsParsed p.1
    → IsParsed q.1
    → IsParsed (if b then p else q).1
if-IsParsed true p q h k = h
if-IsParsed false p q h k = k

module _ {D : Type 0} (o : Dispenser D) (numbers : Numbers) where
  server_case-ServerNormal :
      (fuel : ℕ) (d : D) (cfg : ServerConfig)
      → (parse_server_case o numbers fuel d).1 ≡ ok cfg
      → ServerNormal cfg
  unfolding parse_server_case
  server_case-ServerNormal fuel d cfg h =
      let (subject, d', h') = and_then-ok (single_arg o d) _ cfg h in
      let (written, same) =
        normalized-ok
          (value_of
            (parse_server_body o numbers fuel (o.nesting d') d' (new_server_config subject)))
          normalize_server cfg h' in
      subst ServerNormal (sym same) (normalize_server-ServerNormal written)

  client_case-normal :
      (fuel : ℕ) (d : D) (cfg : ClientConfig)
      → (parse_client_case o fuel d).1 ≡ ok cfg
      → (written : ClientConfig) × (cfg ≡ normalize_client written)
  unfolding parse_client_case
  client_case-normal fuel d cfg h =
      let (connect, d', h') = and_then-ok (single_arg o d) _ cfg h in
      normalized-ok
        (value_of (parse_client_body o fuel (o.nesting d') d' (new_client_config connect)))
        normalize_client cfg h'

  app_line-keeps :
      (fuel : ℕ) (d : D) (s : Runtimes) → IsParsed s → IsParsed (app_line o numbers fuel d s).1
  unfolding app_line
  app_line-keeps fuel d s h =
      if-IsParsed (text_eq (o.val d) (text "server")) _ _
        (server-IsParsed d s (parse_server_case o numbers fuel d) h
          (server_case-ServerNormal fuel d))
        (if-IsParsed (text_eq (o.val d) (text "client")) _ _
          (client-IsParsed d s (parse_client_case o fuel d) h (client_case-normal fuel d)) h)

  app_segment-keeps :
      (fuel : ℕ) (d : D) (s : Runtimes) → IsParsed s → IsParsed (app_segment o numbers fuel d s).1
  unfolding app_segment
  app_segment-keeps fuel d s h =
      unless_arg-keeps IsParsed (o.next_arg d) _ s h
        λ d. each_line-keeps IsParsed o (app_line o numbers) app_line-keeps fuel (o.nesting d) d s h

  returned :
      (p : Filled D Runtimes) (r : Runtimes) → IsParsed p.1 → (value_of p).1 ≡ ok r → IsParsed r
  returned (d, s, ok u) r h e = subst IsParsed (cc) h
  returned (d, s, err x) r h e = absurd (cc)

  -- Whatever tokens it reads, the app's parser returns at most one runtime, a server configuration
  -- in normal form or a client configuration that was normalised.
  pub parse_app-IsParsed :
      (fuel : ℕ) (d : D) (r : Runtimes) → (parse_app o numbers fuel d).1 ≡ ok r → IsParsed r
  unfolding parse_app
  parse_app-IsParsed fuel d r =
      returned (each_segment o fuel (app_segment o numbers) d (none, none)) r (
        each_segment-keeps IsParsed o (app_segment o numbers) app_segment-keeps fuel d (none, none)
          tt)

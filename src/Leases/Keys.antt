-- ===== src/Leases/Keys.antt =====
-- client_runtime.go: the identity under which runtimes are shared, a comparable Go struct.
use caddy_bifrost.Base.{◌≡◌, ◌↔◌, ℕ, Bool, true, false, not, ◌&&◌, arith, ◌==◌, ==_iff}
use caddy_bifrost.Text.{Text, text_eq, text_eq_iff}
use caddy_bifrost.GoMap.{Eq}
use caddy_bifrost.Config.{ClientConfig}

-- `clientRuntimeIdentity`.
pub record Identity : Type 0 where
  pub connect : Text
  pub forward : Text
  pub token : Text
  pub tls_ca_file : Text
  pub tls_server_name : Text
  pub tls_insecure_skip_verify : Bool

abbrev pub identity_of : ClientConfig → Identity
identity_of c = record {
  connect = c.connect;
  forward = c.forward;
  token = c.token;
  tls_ca_file = c.tls_ca_file;
  tls_server_name = c.tls_server_name;
  tls_insecure_skip_verify = c.tls_insecure_skip_verify;
}

abbrev bool_eq : Bool → Bool → Bool
bool_eq true b = b
bool_eq false b = not b

unfoldable pub identity_eq : Identity → Identity → Bool
identity_eq a b =
    text_eq a.connect b.connect
    && text_eq a.forward b.forward
    && text_eq a.token b.token
    && text_eq a.tls_ca_file b.tls_ca_file
    && text_eq a.tls_server_name b.tls_server_name
    && bool_eq a.tls_insecure_skip_verify b.tls_insecure_skip_verify

pub identity_eq_iff : (a b : Identity) → (identity_eq a b ≡ true) ↔ (a ≡ b)
unfolding identity_eq
identity_eq_iff a b = ground (
  arith,
  text_eq_iff a.connect b.connect,
  text_eq_iff a.forward b.forward,
  text_eq_iff a.token b.token,
  text_eq_iff a.tls_ca_file b.tls_ca_file,
  text_eq_iff a.tls_server_name b.tls_server_name,
)

instance abbrev pub Identity-eq : Eq Identity
Identity-eq = record { beq = identity_eq; beq_iff = identity_eq_iff }

-- Pointers are numbers.
instance abbrev pub Pointer-eq : Eq ℕ
Pointer-eq = record { beq = λ a b. a == b; beq_iff = ==_iff }

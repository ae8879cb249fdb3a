-- ===== src/Leases/Fingerprint.antt =====
-- client_runtime.go: `clientRuntimeIdentity.Fingerprint`, under which the log names a runtime. SHA-256
-- and `json.Marshal` belong to Go's library and are parameters; a byte is a number.
pub mod Laws
use caddy_bifrost.Base.{
  ℕ, suc, zero, ◌+◌, ◌-◌, ◌*◌, ◌/◌, ◌%◌, ◌<◌, ◌≤◌, ◌≡◌, refl, ◌⊎◌, inl, inr, Bool, List, [], ◌∷◌,
  ltb, arith, if◌then◌else◌, Result, ok, err, All, take, length,
}
use caddy_bifrost.Text.{Text, text}
use caddy_bifrost.Leases.Keys.{Identity}

-- The structure that is marshalled.
pub record Fields : Type 0 where
  pub connect : Text
  pub forward : Text
  pub token_fingerprint : Text
  pub tls_ca_file : Text
  pub tls_server_name : Text
  pub tls_insecure_skip_verify : Bool

hex_digit : ℕ → ℕ
hex_digit d = if ltb d 10 then b'0' + d else b'a' + (d - 10)

-- `hex.EncodeToString`.
unfoldable pub encode_hex : List ℕ → Text
unfolding hex_digit
encode_hex [] = []
encode_hex (n ∷ ns) = hex_digit (n / 16) ∷ hex_digit (n % 16) ∷ encode_hex ns

-- The structure of an identity, given the fingerprint of its token.
abbrev pub fields_of : Identity → Text → Fields
fields_of i token_fingerprint = record {
  connect = i.connect;
  forward = i.forward;
  token_fingerprint = token_fingerprint;
  tls_ca_file = i.tls_ca_file;
  tls_server_name = i.tls_server_name;
  tls_insecure_skip_verify = i.tls_insecure_skip_verify;
}

module _ (sha256 : List ℕ → List ℕ) (bytes : Text → List ℕ)
    (marshal : Fields → Result Text (List ℕ)) where
  -- `fingerprintSecret`.
  unfoldable pub fingerprint_secret : Text → Text
  fingerprint_secret secret = encode_hex (sha256 (bytes secret))

  pub sum_of : Result Text (List ℕ) → Text
  sum_of (err e) = text "invalid"
  sum_of (ok marshalled) = encode_hex (take 16 (sha256 marshalled))

  -- `Fingerprint`.
  unfoldable pub fingerprint : Identity → Text
  unfolding sum_of
  fingerprint i = sum_of (marshal (fields_of i (fingerprint_secret i.token)))

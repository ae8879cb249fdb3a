-- ===== src/Leases/Fingerprint/Laws.antt =====
-- Fingerprints of client runtimes: their form, and when two of them agree.
use caddy_bifrost.Base.{
  ℕ, suc, zero, ◌*◌, ◌/◌, ◌%◌, ◌<◌, ◌≤◌, ◌≡◌, refl, ap, ◌⊎◌, inl, inr, ◌↔◌, List, [], ◌∷◌, arith,
  Result, ok, err, All, take, length,
}
use caddy_bifrost.Text.{Text, text}
use caddy_bifrost.Leases.Keys.{Identity}
use caddy_bifrost.Leases.Fingerprint.{
  Fields, hex_digit, encode_hex, fingerprint_secret, sum_of, fingerprint, fields_of,
}

-- A lower-case hexadecimal digit.
abbrev pub IsHexDigit : ℕ → Type 0
IsHexDigit c = ((48 ≤ c) × (c ≤ 57)) ⊎ ((97 ≤ c) × (c ≤ 102))

hex_digit-IsHexDigit : (d : ℕ) → d < 16 → IsHexDigit (hex_digit d)
unfolding hex_digit
hex_digit-IsHexDigit d h = ground arith

encode_hex-digits : (ns : List ℕ) → All (λ n. n < 256) ns → All IsHexDigit (encode_hex ns)
unfolding encode_hex
encode_hex-digits [] h = tt
encode_hex-digits (n ∷ ns) (small, h) = (
  hex_digit-IsHexDigit (n / 16) (omega arith),
  (hex_digit-IsHexDigit (n % 16) (omega arith), encode_hex-digits ns h),
)

length-encode_hex : (ns : List ℕ) → length (encode_hex ns) ≡ 2 * length ns
unfolding encode_hex
length-encode_hex [] = refl
length-encode_hex (n ∷ ns) = ground (arith, length-encode_hex ns)

hex_digit_injective : (c d : ℕ) → c < 16 → d < 16 → hex_digit c ≡ hex_digit d → c ≡ d
unfolding hex_digit
hex_digit_injective c d small_c small_d h = ground arith

byte_of_digits : (m n : ℕ) → m / 16 ≡ n / 16 → m % 16 ≡ n % 16 → m ≡ n
byte_of_digits m n h l = omega arith

encode_hex_injective :
    (ms ns : List ℕ)
    → All (λ n. n < 256) ms
    → All (λ n. n < 256) ns
    → encode_hex ms ≡ encode_hex ns
    → ms ≡ ns
unfolding encode_hex
encode_hex_injective [] [] hm hn h = refl
encode_hex_injective [] (n ∷ ns) hm hn h = cc
encode_hex_injective (m ∷ ms) [] hm hn h = cc
encode_hex_injective (m ∷ ms) (n ∷ ns) (hm, hms) (hn, hns) h =
    let high = hex_digit_injective (m / 16) (n / 16) (omega arith) (omega arith) (cc) in
    let low = hex_digit_injective (m % 16) (n % 16) (omega arith) (omega arith) (cc) in
    let same = byte_of_digits m n high low in
    let rest = encode_hex_injective ms ns hms hns (cc) in cc

All-take : (P : ℕ → Type 0) (n : ℕ) (xs : List ℕ) → All P xs → All P (take n xs)
All-take P zero xs h = tt
All-take P (suc n) [] h = tt
All-take P (suc n) (x ∷ xs) (p, h) = (p, All-take P n xs h)

length-take : (n : ℕ) (xs : List ℕ) → n ≤ length xs → length (take n xs) ≡ n
length-take zero xs h = refl
length-take (suc n) [] h = omega arith
length-take (suc n) (x ∷ xs) h = ground (arith, length-take n xs)

-- What SHA-256 promises of its sums.
abbrev pub IsDigest : (List ℕ → List ℕ) → Type 0
IsDigest sha256 = (xs : List ℕ) → (length (sha256 xs) ≡ 32) × All (λ n. n < 256) (sha256 xs)

module _ (sha256 : List ℕ → List ℕ) (bytes : Text → List ℕ)
    (marshal : Fields → Result Text (List ℕ)) (digest : IsDigest sha256) where
  sum_of-Form :
      (r : Result Text (List ℕ))
      → (sum_of sha256 bytes marshal r ≡ text "invalid")
        ⊎ ((length (sum_of sha256 bytes marshal r) ≡ 32)
            × All IsHexDigit (sum_of sha256 bytes marshal r))
  unfolding sum_of
  sum_of-Form (err e) = inl refl
  sum_of-Form (ok m) =
      let (long, small) = digest m in
      let short = length-take 16 (sha256 m) (omega (arith, long)) in
      inr (
        omega (arith, length-encode_hex (take 16 (sha256 m)), short),
        encode_hex-digits (take 16 (sha256 m)) (All-take _ 16 (sha256 m) small),
      )

  -- A fingerprint is 32 lower-case hexadecimal digits, or the word that stands for a failure, given
  -- that SHA-256 sums are 32 bytes.
  pub fingerprint-Form :
      (i : Identity)
      → (fingerprint sha256 bytes marshal i ≡ text "invalid")
        ⊎ ((length (fingerprint sha256 bytes marshal i) ≡ 32)
            × All IsHexDigit (fingerprint sha256 bytes marshal i))
  unfolding fingerprint
  fingerprint-Form i =
      sum_of-Form (marshal (fields_of i (fingerprint_secret sha256 bytes marshal i.token)))

  same_sums :
      (m n : List ℕ)
      → encode_hex (take 16 (sha256 m)) ≡ encode_hex (take 16 (sha256 n))
      → take 16 (sha256 m) ≡ take 16 (sha256 n)
  same_sums m n h =
      encode_hex_injective (take 16 (sha256 m)) (take 16 (sha256 n))
        (All-take _ 16 (sha256 m) (digest m).1) (All-take _ 16 (sha256 n) (digest n).1) h

  -- Two identities that can be marshalled have the same fingerprint exactly when the first 16 bytes
  -- of the sums of what is marshalled agree, given that SHA-256 sums are 32 bytes. The token goes in as its own sum.
  pub fingerprint_iff :
      (i j : Identity) (m n : List ℕ)
      → marshal (fields_of i (encode_hex (sha256 (bytes i.token)))) ≡ ok m
      → marshal (fields_of j (encode_hex (sha256 (bytes j.token)))) ≡ ok n
      → (fingerprint sha256 bytes marshal i ≡ fingerprint sha256 bytes marshal j)
        ↔ (take 16 (sha256 m) ≡ take 16 (sha256 n))
  unfolding fingerprint sum_of fingerprint_secret
  fingerprint_iff i j m n hm hn = rw (hm, hn) (same_sums m n, λ h. ap encode_hex h)

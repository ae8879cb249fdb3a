-- ===== src/HostPort/Laws.antt =====
-- `join_host_port` and `split_host_port` are inverse on hosts without brackets.
use caddy_bifrost.Base.{
  ℕ, ◌≡◌, refl, false, none, some, [], ◌∷◌, ◌++◌, arith, ◌==◌, any-append, is_empty, Bool-cases,
  inl, inr,
}
use caddy_bifrost.Text.{Text, contains_rune, cut, cut_last}
use caddy_bifrost.HostPort.{
  bracketed_parts, split_bracketed, plain_parts, split_plain, split_host_port, join_host_port,
}

-- A cut at the first occurrence, where the part before has none.
pub cut-append : (s t : Text) (c : ℕ) → contains_rune s c ≡ false → cut (s ++ c ∷ t) c ≡ some (s, t)
unfolding cut
cut-append [] t c h = ground arith
cut-append (a ∷ s) t c h = ground (arith, cut-append s t c)

pub cut_last-none : (s : Text) (c : ℕ) → contains_rune s c ≡ false → cut_last s c ≡ none
unfolding cut_last
cut_last-none [] c h = refl
cut_last-none (a ∷ s) c h = ground (arith, cut_last-none s c)

-- A cut at the last occurrence, where the part behind has none.
pub cut_last-append :
    (s t : Text) (c : ℕ) → contains_rune t c ≡ false → cut_last (s ++ c ∷ t) c ≡ some (s, t)
unfolding cut_last
cut_last-append [] t c h = ground (arith, cut_last-none t c)
cut_last-append (a ∷ s) t c h = rw (cut_last-append s t c h) refl

-- A host or port that `net.JoinHostPort` can be undone on.
pub record IsHost (host : Text) : Type 0 where
  pub no_open : contains_rune host b'[' ≡ false
  pub no_close : contains_rune host b']' ≡ false

pub record IsPort (port : Text) : Type 0 where
  pub no_colon : contains_rune port b':' ≡ false
  pub no_open : contains_rune port b'[' ≡ false
  pub no_close : contains_rune port b']' ≡ false

split_bracketed-join :
    (host port : Text)
    → IsHost host
    → IsPort port
    → split_bracketed (host ++ b']' ∷ b':' ∷ port) ≡ some (host, port)
unfolding split_bracketed bracketed_parts
split_bracketed-join host port h p =
    rw (cut-append host (b':' ∷ port) b']' h.no_close, p.no_colon, h.no_open, p.no_open, p.no_close)
      refl

split_plain-join :
    (host port : Text)
    → contains_rune host b':' ≡ false
    → IsHost host
    → IsPort port
    → split_plain (host ++ b':' ∷ port) ≡ some (host, port)
unfolding split_plain plain_parts
split_plain-join host port c h p =
    rw
      (
        cut_last-append host port b':' p.no_colon,
        c,
        any-append (λ a. a == b'[') host (b':' ∷ port),
        any-append (λ a. a == b']') host (b':' ∷ port),
        h.no_open,
        h.no_close,
        p.no_open,
        p.no_close,
      )
      refl

-- `net.SplitHostPort` undoes `net.JoinHostPort`, for hosts with colons and without.
pub split-join :
    (host port : Text)
    → IsHost host
    → IsPort port
    → split_host_port (join_host_port host port) ≡ some (host, port)
unfolding split_host_port join_host_port
split-join host port h p = elim (Bool-cases (contains_rune host b':')) [
  | inl colon ↦ rw colon (split_bracketed-join host port h p)
  | inr plain ↦ rw plain (split_first host plain h)
]
  where
    split_first :
        (host : Text)
        → contains_rune host b':' ≡ false
        → IsHost host
        → split_host_port (host ++ b':' ∷ port) ≡ some (host, port)
    split_first [] c h = split_plain-join [] port c h p
    split_first (a ∷ host) c h = ground (arith, split_plain-join (a ∷ host) port c h p)

-- A text with no colon is refused.
pub split-none :
    (host : Text)
    → contains_rune host b':' ≡ false
    → contains_rune host b'[' ≡ false
    → split_host_port host ≡ none
unfolding split_host_port split_plain plain_parts
split-none [] h k = refl
split-none (c ∷ host) h k = ground (arith, cut_last-none (c ∷ host) b':' h)

pub is_empty-join : (host port : Text) → is_empty (join_host_port host port) ≡ false
unfolding join_host_port
is_empty-join [] port = refl
is_empty-join (a ∷ host) port = ground arith

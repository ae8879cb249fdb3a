-- ===== src/HostPort.antt =====
-- `net.SplitHostPort` and `net.JoinHostPort` of Go's package net. The callers in the program test
-- the error of `SplitHostPort` for nil only, so a failure is `none`.
pub mod Laws
use caddy_bifrost.Base.{
  ◌||◌, Option, none, some, [], ◌∷◌, ◌++◌, if◌then◌else◌, ◌==◌, ℕ, Bool, true, false,
}
use caddy_bifrost.Text.{Text, contains_rune, cut, cut_last}

-- The address `[host]:port`, given behind its first bracket: the first `]` is followed by the last
-- colon, and no other bracket stands anywhere.
bracketed_parts : Option (Text × Text) → Option (Text × Text)
bracketed_parts none = none
bracketed_parts (some (host, [])) = none
bracketed_parts (some (host, c ∷ port)) =
    if c == b':'
    then (if contains_rune port b':'
          || contains_rune host b'['
          || contains_rune port b'['
          || contains_rune port b']'
        then none
        else some (host, port))
    else none

split_bracketed : Text → Option (Text × Text)
unfolding bracketed_parts
split_bracketed rest = bracketed_parts (cut rest b']')

-- The address `host:port`, cut at its last colon.
plain_parts : Text → Option (Text × Text) → Option (Text × Text)
plain_parts address none = none
plain_parts address (some (host, port)) =
    if contains_rune host b':' || contains_rune address b'[' || contains_rune address b']'
    then none
    else some (host, port)

split_plain : Text → Option (Text × Text)
unfolding plain_parts
split_plain address = plain_parts address (cut_last address b':')

-- `net.SplitHostPort`. With no colon both halves below fail.
unfoldable pub split_host_port : Text → Option (Text × Text)
unfolding split_bracketed split_plain
split_host_port [] = none
split_host_port (c ∷ rest) = if c == b'[' then split_bracketed rest else split_plain (c ∷ rest)

-- `net.JoinHostPort`.
unfoldable pub join_host_port : Text → Text → Text
join_host_port host port =
    if contains_rune host b':' then b'[' ∷ (host ++ b']' ∷ b':' ∷ port) else host ++ b':' ∷ port

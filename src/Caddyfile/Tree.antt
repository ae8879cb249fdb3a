-- ===== src/Caddyfile/Tree.antt =====
-- A Caddyfile block as it is written: lines of a directive, its arguments and a block of its own,
-- which is empty where none is written.
use caddy_bifrost.Base.{ℕ, ◌+◌, List}
use caddy_bifrost.Text.{Text}

mutual
  pub data Line : Type 0 where
    line : Text → List Text → Lines → Line

  pub data Lines : Type 0 where
    nil : Lines
    cons : Line → Lines → Lines

-- The lines of a block and of all blocks in it.
abbrev mutual
  pub weight : Lines → ℕ
  weight nil = 0
  weight (cons l ls) = line_weight l + weight ls

  pub line_weight : Line → ℕ
  line_weight (line name args body) = 1 + weight body

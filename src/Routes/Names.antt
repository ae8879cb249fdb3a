-- ===== src/Routes/Names.antt =====
-- The spellings of a server name that are one key of the route table.
use caddy_bifrost.Base.{◌≡◌, refl, ap, ◌∙◌, false, none, ◌++◌}
use caddy_bifrost.Text.{Text, CaseTable, text, is_space, strip_suffix, trim_suffix, to_lower}
use caddy_bifrost.Text.Trim.{IsTrimmed, AllSpace, trim_space-around}
use caddy_bifrost.Text.Affix.{strip_suffix-append, IsTrimmed-snoc}
use caddy_bifrost.Routes.{normalize_server_name}

dot_not_space : is_space b'.' ≡ false
unfolding is_space
dot_not_space = refl

module _ (cases : CaseTable) (pre name post : Text) (before : AllSpace pre) (after : AllSpace post)
    (trimmed : IsTrimmed name) where
  -- Spaces around a name, and nothing else, are taken off; its letters are lowered.
  normalize_server_name-spaces :
      strip_suffix name (text ".") ≡ none
      → normalize_server_name cases (pre ++ (name ++ post)) ≡ to_lower cases name
  unfolding normalize_server_name
  normalize_server_name-spaces undotted =
      ap (λ n. to_lower cases (trim_suffix n (text ".")))
        (trim_space-around pre name post before after trimmed)
      ∙ rw undotted refl

  -- So is one final dot.
  normalize_server_name-dot :
      normalize_server_name cases (pre ++ ((name ++ text ".") ++ post)) ≡ to_lower cases name
  unfolding normalize_server_name
  normalize_server_name-dot =
      ap (λ n. to_lower cases (trim_suffix n (text ".")))
        (trim_space-around pre (name ++ text ".") post before after
          (IsTrimmed-snoc name b'.' trimmed dot_not_space))
      ∙ rw (strip_suffix-append name (text ".")) refl

  -- A name that has no final dot of its own keeps its key when it is written with spaces around it,
  -- with the dot of the DNS root behind it, or with both.
  pub normalize_server_name-spelling :
      strip_suffix name (text ".") ≡ none
      → (normalize_server_name cases (pre ++ (name ++ post)) ≡ to_lower cases name)
        × (normalize_server_name cases (pre ++ ((name ++ text ".") ++ post)) ≡ to_lower cases name)
  normalize_server_name-spelling undotted =
      (normalize_server_name-spaces undotted, normalize_server_name-dot)

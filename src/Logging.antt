-- ===== src/Logging.antt =====
-- internal/logging/slog.go: the handler that passes records of Go's slog on to zap. A value is its
-- kind and its content; slog's `Resolve` of a value is a parameter, and so is the test whether a
-- content is a `time.Duration`.
pub mod Groups
use caddy_bifrost.Base.{
  Bool, true, false, not, List, [], ◌∷◌, ◌++◌, map, is_empty, if◌then◌else◌, ℤ, pos, negsuc, ltb_ℤ,
}
use caddy_bifrost.Text.{Text, text, trim_space}

-- `slog.Kind`, as far as the handler tells kinds apart; also the constructor of zap that makes the
-- field, where `other_kind` is `zap.Any`.
pub data ValueKind : Type 0 where
  bool_kind duration_kind float64_kind int64_kind string_kind time_kind uint64_kind : ValueKind
  other_kind : ValueKind

pub record Value (C : Type 0) : Type 0 where
  pub kind : ValueKind
  pub content : C

pub record Attr (C : Type 0) : Type 0 where
  pub key : Text
  pub value : Value C

-- `slog.Record`.
pub record Record (C : Type 0) : Type 0 where
  pub level : ℤ
  pub message : Text
  pub attrs : List (Attr C)

-- The methods of zap's logger, and one call of them.
pub data ZapLevel : Type 0 where
  debug_level info_level warn_level error_level : ZapLevel

pub record LogEntry (C : Type 0) : Type 0 where
  pub level : ZapLevel
  pub message : Text
  pub fields : List (Attr C)

-- `zapHandler`.
pub record Handler (C : Type 0) : Type 0 where
  pub attrs : List (Attr C)
  pub groups : List Text

-- `strings.Join` of parts with dots.
unfoldable pub join_dots : List Text → Text
join_dots [] = []
join_dots (p ∷ []) = p
join_dots (p ∷ q ∷ ps) = p ++ (text "." ++ join_dots (q ∷ ps))

-- `record.Level >= slog.LevelError`, and so on: the levels are 8, 4, 0 and -4.
zap_level : ℤ → ZapLevel
zap_level level =
    if not (ltb_ℤ level (pos 8))
    then error_level
    else if not (ltb_ℤ level (pos 4))
    then warn_level
    else if not (ltb_ℤ (negsuc 3) level)
    then debug_level
    else info_level

module _ {C : Type 0} where
  -- The handler of `Slog`.
  abbrev pub new_handler : Handler C
  new_handler = record { attrs = []; groups = [] }

  -- `WithAttrs`.
  unfoldable pub with_attrs : List (Attr C) → Handler C → Handler C
  with_attrs attrs h = record h { attrs = h.attrs ++ attrs }

  -- `WithGroup`.
  unfoldable pub with_group : Text → Handler C → Handler C
  with_group name h =
      if is_empty (trim_space name) then h else record h { groups = h.groups ++ name ∷ [] }

  -- `key`.
  key_of : Handler C → Text → Text
  key_of h key = if is_empty h.groups then key else join_dots (h.groups ++ key ∷ [])

module _ {C : Type 0} (resolve : Value C → Value C) (is_duration : C → Bool) where
  any_kind : ValueKind → C → ValueKind
  any_kind other_kind content = if is_duration content then duration_kind else other_kind
  any_kind kind content = kind

  -- The field of a value that is resolved.
  unfoldable pub typed : Text → Value C → Attr C
  unfolding any_kind
  typed key v = record {
    key = key;
    value = record { kind = any_kind v.kind v.content; content = v.content };
  }

  -- `field`.
  field_of : Handler C → Attr C → Attr C
  unfolding typed key_of
  field_of h a = typed (key_of h a.key) (resolve a.value)

  -- `Handle`: the call of zap's logger.
  unfoldable pub handle : Handler C → Record C → LogEntry C
  unfolding zap_level field_of
  handle h r = record {
    level = zap_level r.level;
    message = r.message;
    fields = map (field_of h) h.attrs ++ map (field_of h) r.attrs;
  }

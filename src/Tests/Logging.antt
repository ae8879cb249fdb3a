-- ===== src/Tests/Logging.antt =====
-- Tests of the log handler.
use caddy_bifrost.Base.{◌≡◌, ◌≢◌, refl, false, List, [], ◌∷◌, ◌++◌, map, pos}
use caddy_bifrost.Text.{Text, text, is_space, trim_left, trim_right, trim_space}
use caddy_bifrost.Logging.{
  string_kind, Attr, Record, warn_level, join_dots, new_handler, with_attrs, with_group, handle,
}
use caddy_bifrost.Logging.Groups.{
  Derive, attrs, group, derive, added, open_groups, qualified, grouped, handle-grouped,
  handle_late_group,
}

abbrev text_attr : Text → Text → Attr Text
text_attr key value = record { key = key; value = record { kind = string_kind; content = value } }

abbrev started_record : Record Text
started_record = record {
  level = pos 4;
  message = text "started";
  attrs = text_attr (text "addr") (text ":8443") ∷ [];
}

-- A group, then an attribute.
abbrev named_logger : List (Derive Text)
named_logger = group (text "bifrost") ∷ attrs (text_attr (text "role") (text "server") ∷ []) ∷ []

handle-grouped_run :
    (handle (λ v. v) (λ c. false) (derive named_logger new_handler) started_record).fields
    ≡ grouped (λ v. v) (λ c. false) [] named_logger started_record.attrs
unfolding trim_space trim_left trim_right is_space
handle-grouped_run = handle-grouped (λ v. v) (λ c. false) named_logger started_record (refl, tt) tt

started_logged :
    handle (λ v. v) (λ c. false) (derive named_logger new_handler) started_record ≡ record {
      level = warn_level;
      message = text "started";
      fields =
          text_attr (text "bifrost.role") (text "server")
          ∷ text_attr (text "bifrost.addr") (text ":8443")
          ∷ [];
    }
unfolding handle join_dots with_group with_attrs trim_space trim_left trim_right is_space
started_logged = refl

-- A group, an attribute, and a group after it.
abbrev bifrost_logger : List (Derive Text)
bifrost_logger = group (text "bifrost") ∷ []

handle_late_group_example :
    let role = text_attr (text "role") (text "server") in
    let groups = open_groups bifrost_logger [] ++ text "tls" ∷ [] in
    ((handle
        (λ v. v)
        (λ c. false)
        (derive (bifrost_logger ++ attrs (role ∷ []) ∷ group (text "tls") ∷ []) new_handler)
        started_record).fields
      ≡ (map (qualified (λ v. v) (λ c. false) groups) (added bifrost_logger)
          ++ qualified (λ v. v) (λ c. false) groups role ∷ [])
        ++ map (qualified (λ v. v) (λ c. false) groups) started_record.attrs)
    × ((qualified (λ v. v) (λ c. false) groups role).key
        ≢ join_dots (open_groups bifrost_logger [] ++ text "role" ∷ []))
unfolding trim_space trim_left trim_right is_space
handle_late_group_example =
    handle_late_group (λ v. v) (λ c. false) bifrost_logger (text_attr (text "role") (text "server"))
      (text "tls") started_record refl

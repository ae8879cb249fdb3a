-- ===== src/Logging/Groups.antt =====
-- Which groups qualify the key of a field: what slog documents of groups, and what the handler does.
use caddy_bifrost.Base.{
  ◌≡◌, ◌≢◌, refl, sym, ◌∙◌, ap, Bool, true, false, List, [], ◌∷◌, ◌++◌, map, is_empty,
  if◌then◌else◌, arith, length, length-append, ◌<◌,
}
use mathlib.Core.List.{append-nil, append_assoc, map-append}
use caddy_bifrost.Text.{Text, text, trim_space}
use caddy_bifrost.Logging.{
  Value, Attr, Record, Handler, join_dots, new_handler, with_attrs, with_group, key_of, typed,
  field_of, handle,
}

-- The calls that derive a logger from another.
pub data Derive (C : Type 0) : Type 0 where
  attrs : List (Attr C) → Derive C
  group : Text → Derive C

abbrev pub derive : {C : Type 0} → List (Derive C) → Handler C → Handler C
derive [] h = h
derive (attrs more ∷ ds) h = derive ds (with_attrs more h)
derive (group name ∷ ds) h = derive ds (with_group name h)

-- The handler opens a group unless its name is blank.
abbrev pub opened : Text → List Text → List Text
opened name groups = if is_empty (trim_space name) then groups else groups ++ name ∷ []

abbrev pub open_groups : {C : Type 0} → List (Derive C) → List Text → List Text
open_groups [] groups = groups
open_groups (attrs more ∷ ds) groups = open_groups ds groups
open_groups (group name ∷ ds) groups = open_groups ds (opened name groups)

abbrev pub added : {C : Type 0} → List (Derive C) → List (Attr C)
added [] = []
added (attrs more ∷ ds) = more ++ added ds
added (group name ∷ ds) = added ds

-- slog opens a group unless its name is empty.
abbrev pub named_group : Text → List Text → List Text
named_group name groups = if is_empty name then groups else groups ++ name ∷ []

abbrev NoGroup : {C : Type 0} → List (Derive C) → Type 0
NoGroup [] = Unit
NoGroup (attrs more ∷ ds) = NoGroup ds
NoGroup (group name ∷ ds) = (is_empty name ≡ true) × NoGroup ds

-- No group is opened once there are attributes.
abbrev pub GroupsFirst : {C : Type 0} → List (Derive C) → Type 0
GroupsFirst [] = Unit
GroupsFirst (attrs more ∷ ds) = NoGroup ds
GroupsFirst (group name ∷ ds) = GroupsFirst ds

-- No name of a group is made of spaces alone: it is empty, or it is not blank.
abbrev pub PlainNames : {C : Type 0} → List (Derive C) → Type 0
PlainNames [] = Unit
PlainNames (attrs more ∷ ds) = PlainNames ds
PlainNames (group name ∷ ds) = (is_empty (trim_space name) ≡ is_empty name) × PlainNames ds

open_groups-append :
    {C : Type 0} (ds es : List (Derive C)) (groups : List Text)
    → open_groups (ds ++ es) groups ≡ open_groups es (open_groups ds groups)
open_groups-append [] es groups = refl
open_groups-append (attrs more ∷ ds) es groups = open_groups-append ds es groups
open_groups-append (group name ∷ ds) es groups = open_groups-append ds es (opened name groups)

added-append : {C : Type 0} (ds es : List (Derive C)) → added (ds ++ es) ≡ added ds ++ added es
added-append [] es = refl
added-append (attrs more ∷ ds) es =
    ap (λ rest. more ++ rest) (added-append ds es) ∙ sym (append_assoc more (added ds) (added es))
added-append (group name ∷ ds) es = added-append ds es

-- One more part makes a key longer.
longer_key :
    (groups : List Text) (name key : Text)
    → length (join_dots (groups ++ key ∷ []))
      < length (join_dots ((groups ++ name ∷ []) ++ key ∷ []))
unfolding join_dots
longer_key [] name key = omega (arith, length-append name (text "." ++ key))
longer_key (g ∷ []) name key =
    let shorter = longer_key [] name key in
    omega (
      arith,
      shorter,
      length-append g (text "." ++ key),
      length-append g (text "." ++ join_dots (name ∷ key ∷ [])),
    )
longer_key (g ∷ h ∷ groups) name key =
    let shorter = longer_key (h ∷ groups) name key in
    omega (
      arith,
      shorter,
      length-append g (text "." ++ join_dots (h ∷ groups ++ key ∷ [])),
      length-append g (text "." ++ join_dots ((h ∷ groups ++ name ∷ []) ++ key ∷ [])),
    )

module _ {C : Type 0} (resolve : Value C → Value C) (is_duration : C → Bool) where
  -- The field of an attribute that is qualified by groups.
  abbrev pub qualified : List Text → Attr C → Attr C
  qualified groups a =
      typed resolve is_duration (join_dots (groups ++ a.key ∷ [])) (resolve a.value)

  -- One field for each attribute, qualified by the groups that are open when the attribute is added:
  -- how slog documents groups. What it says of zero attributes and of attributes that are groups
  -- themselves is no part of this.
  abbrev pub grouped : List Text → List (Derive C) → List (Attr C) → List (Attr C)
  grouped groups [] last = map (qualified groups) last
  grouped groups (attrs more ∷ ds) last = map (qualified groups) more ++ grouped groups ds last
  grouped groups (group name ∷ ds) last = grouped (named_group name groups) ds last

  key-join :
      (groups : List Text) (key : Text)
      → (if is_empty groups then key else join_dots (groups ++ key ∷ []))
        ≡ join_dots (groups ++ key ∷ [])
  unfolding join_dots
  key-join [] key = refl
  key-join (g ∷ groups) key = refl

  fields-qualified :
      (h : Handler C) (more : List (Attr C))
      → map (field_of resolve is_duration h) more ≡ map (qualified h.groups) more
  unfolding field_of key_of
  fields-qualified h [] = refl
  fields-qualified h (a ∷ more) = rw (key-join h.groups a.key, fields-qualified h more) refl

  derive-groups :
      (ds : List (Derive C)) (h : Handler C) → (derive ds h).groups ≡ open_groups ds h.groups
  unfolding with_group with_attrs
  derive-groups [] h = refl
  derive-groups (attrs more ∷ ds) h = derive-groups ds (with_attrs more h)
  derive-groups (group name ∷ ds) h =
      derive-groups ds (with_group name h) ∙ ap (open_groups ds) (ground arith)

  derive-attrs : (ds : List (Derive C)) (h : Handler C) → (derive ds h).attrs ≡ h.attrs ++ added ds
  unfolding with_group with_attrs
  derive-attrs [] h = sym (append-nil h.attrs)
  derive-attrs (attrs more ∷ ds) h =
      derive-attrs ds (with_attrs more h) ∙ append_assoc h.attrs more (added ds)
  derive-attrs (group name ∷ ds) h =
      derive-attrs ds (with_group name h) ∙ ap (λ more. more ++ added ds) (ground arith)

  -- The handler qualifies every field of a record by all groups that are open when the record is
  -- handled, also an attribute that was added before some of them were opened.
  pub handle-derive :
      (ds : List (Derive C)) (r : Record C)
      → (handle resolve is_duration (derive ds new_handler) r).fields
        ≡ map (qualified (open_groups ds [])) (added ds)
          ++ map (qualified (open_groups ds [])) r.attrs
  unfolding handle
  handle-derive ds r =
      rw
        (
          fields-qualified (derive ds new_handler) (derive ds new_handler).attrs,
          fields-qualified (derive ds new_handler) r.attrs,
          derive-groups ds new_handler,
          derive-attrs ds new_handler,
        )
        refl

  ungrouped :
      (ds : List (Derive C)) (groups : List Text) (last : List (Attr C))
      → PlainNames ds
      → NoGroup ds
      → grouped groups ds last ≡ map (qualified groups) (added ds) ++ map (qualified groups) last
        × (open_groups ds groups ≡ groups)
  ungrouped [] groups last plain none = (refl, refl)
  ungrouped (attrs more ∷ ds) groups last plain none =
      let (same, kept) = ungrouped ds groups last plain none in
      (
        ap (λ fields. map (qualified groups) more ++ fields) same
            ∙ sym (
                append_assoc (map (qualified groups) more) (map (qualified groups) (added ds))
                  (map (qualified groups) last))
            ∙ ap (λ fields. fields ++ map (qualified groups) last)
                (sym (map-append (qualified groups) more (added ds))),
        kept,
      )
  ungrouped (group name ∷ ds) groups last (same_test, plain) (empty, none) =
      let (same, kept) = ungrouped ds groups last plain none in
      (rw empty same, rw (same_test, empty) kept)

  groups_first :
      (ds : List (Derive C)) (groups : List Text) (last : List (Attr C))
      → PlainNames ds
      → GroupsFirst ds
      → grouped groups ds last
        ≡ map (qualified (open_groups ds groups)) (added ds)
          ++ map (qualified (open_groups ds groups)) last
  groups_first [] groups last plain h = refl
  groups_first (attrs more ∷ ds) groups last plain h =
      let (same, kept) = ungrouped (attrs more ∷ ds) groups last plain h in rw kept same
  groups_first (group name ∷ ds) groups last (same_test, plain) h =
      rw same_test (groups_first ds (named_group name groups) last plain h)

  -- Where no group is opened once there are attributes, and no group's name is made of spaces alone,
  -- the handler logs one field for each attribute, those of the logger before those of the record,
  -- each qualified by the groups that were open when the attribute was added, as slog documents it of
  -- groups.
  pub handle-grouped :
      (ds : List (Derive C)) (r : Record C)
      → PlainNames ds
      → GroupsFirst ds
      → (handle resolve is_duration (derive ds new_handler) r).fields ≡ grouped [] ds r.attrs
  handle-grouped ds r plain h = handle-derive ds r ∙ sym (groups_first ds [] r.attrs plain h)

  -- A group with a name that is not blank, opened as the last call that derives a logger, right after
  -- an attribute was added: whatever the calls before, the handler qualifies every field by this
  -- group too, that of the attribute and those of earlier attributes included. The key of the
  -- attribute's field is then never its key under the groups that were open when it was added.
  pub handle_late_group :
      (ds : List (Derive C)) (a : Attr C) (name : Text) (r : Record C)
      → is_empty (trim_space name) ≡ false
      → let groups = open_groups ds [] ++ name ∷ [] in
        ((handle resolve is_duration
            (derive (ds ++ attrs (a ∷ []) ∷ group name ∷ []) new_handler)
            r).fields
          ≡ (map (qualified groups) (added ds) ++ qualified groups a ∷ [])
            ++ map (qualified groups) r.attrs)
        × ((qualified groups a).key ≢ join_dots (open_groups ds [] ++ a.key ∷ []))
  unfolding typed
  handle_late_group ds a name r named =
      let late : List (Derive C) = attrs (a ∷ []) ∷ group name ∷ [] in
      let groups : List Text = open_groups ds [] ++ name ∷ [] in
      let same_groups : open_groups (ds ++ late) [] ≡ groups =
        open_groups-append ds late [] ∙ rw named refl in
      (
        handle-derive (ds ++ late) r
            ∙ rw
                (
                  same_groups,
                  added-append ds late,
                  map-append (qualified groups) (added ds) (a ∷ []),
                )
                refl,
        (λ h. omega (arith, longer_key (open_groups ds []) name a.key, ap length h)),
      )

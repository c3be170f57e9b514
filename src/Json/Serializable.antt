-- ===== src/Json/Serializable.antt =====
-- Which values `jsonable` (athanore/graph/json.py) makes serializable.
use athanore.Prelude.{◌≡◌, refl, ap, ap₂, ◌↔◌, arith}
use athanore.Json.{
  Key, name, object, Value, null, boolean, integer, float, text, model, transition, edge_ref,
  dataclass, dict, list, tuple, other, Entries, end, entry, Values, nil, cons, jsonable,
  jsonable_entries, jsonable_items,
}

-- `json.dumps` takes texts, numbers, Booleans and `None` as keys, and raises on any other object.
abbrev pub IsJsonKey : Key → Type 0
IsJsonKey (object _) = ⊥
IsJsonKey _ = Unit

-- What `json.dumps` takes.
abbrev mutual
  pub IsJson : Value → Type 0
  IsJson null = Unit
  IsJson (boolean _) = Unit
  IsJson (integer _) = Unit
  IsJson (float _) = Unit
  IsJson (text _) = Unit
  IsJson (dict entries) = IsJsonEntries entries
  IsJson (list items) = IsJsonItems items
  IsJson (model _) = ⊥
  IsJson (transition _ _) = ⊥
  IsJson (edge_ref _) = ⊥
  IsJson (dataclass _) = ⊥
  IsJson (tuple _) = ⊥
  IsJson (other _) = ⊥

  pub IsJsonEntries : Entries → Type 0
  IsJsonEntries end = Unit
  IsJsonEntries (entry k v rest) = IsJsonKey k × IsJson v × IsJsonEntries rest

  pub IsJsonItems : Values → Type 0
  IsJsonItems nil = Unit
  IsJsonItems (cons v rest) = IsJson v × IsJsonItems rest

-- Every pydantic model inside dumps to JSON, as pydantic documents of `mode="json"`.
abbrev mutual
  pub DumpsJson : Value → Type 0
  DumpsJson (model dump) = IsJson dump
  DumpsJson (transition _ payload) = DumpsJson payload
  DumpsJson (dataclass fields) = DumpsJsonEntries fields
  DumpsJson (dict entries) = DumpsJsonEntries entries
  DumpsJson (list items) = DumpsJsonItems items
  DumpsJson (tuple items) = DumpsJsonItems items
  DumpsJson null = Unit
  DumpsJson (boolean _) = Unit
  DumpsJson (integer _) = Unit
  DumpsJson (float _) = Unit
  DumpsJson (text _) = Unit
  DumpsJson (edge_ref _) = Unit
  DumpsJson (other _) = Unit

  pub DumpsJsonEntries : Entries → Type 0
  DumpsJsonEntries end = Unit
  DumpsJsonEntries (entry k v rest) = DumpsJson v × DumpsJsonEntries rest

  pub DumpsJsonItems : Values → Type 0
  DumpsJsonItems nil = Unit
  DumpsJsonItems (cons v rest) = DumpsJson v × DumpsJsonItems rest

-- No dictionary inside has a key that is neither a text nor a scalar.
abbrev mutual
  pub HasJsonKeys : Value → Type 0
  HasJsonKeys (transition _ payload) = HasJsonKeys payload
  HasJsonKeys (dataclass fields) = HasJsonKeysEntries fields
  HasJsonKeys (dict entries) = HasJsonKeysEntries entries
  HasJsonKeys (list items) = HasJsonKeysItems items
  HasJsonKeys (tuple items) = HasJsonKeysItems items
  HasJsonKeys (model _) = Unit
  HasJsonKeys null = Unit
  HasJsonKeys (boolean _) = Unit
  HasJsonKeys (integer _) = Unit
  HasJsonKeys (float _) = Unit
  HasJsonKeys (text _) = Unit
  HasJsonKeys (edge_ref _) = Unit
  HasJsonKeys (other _) = Unit

  pub HasJsonKeysEntries : Entries → Type 0
  HasJsonKeysEntries end = Unit
  HasJsonKeysEntries (entry k v rest) = IsJsonKey k × HasJsonKeys v × HasJsonKeysEntries rest

  pub HasJsonKeysItems : Values → Type 0
  HasJsonKeysItems nil = Unit
  HasJsonKeysItems (cons v rest) = HasJsonKeys v × HasJsonKeysItems rest

mutual
  unfolding jsonable jsonable_entries jsonable_items

  fixed : (v : Value) → IsJson v → jsonable v ≡ v
  fixed null h = refl
  fixed (boolean b) h = refl
  fixed (integer n) h = refl
  fixed (float x) h = refl
  fixed (text s) h = refl
  fixed (dict entries) h = ap dict (fixed_entries entries h)
  fixed (list items) h = ap list (fixed_items items h)
  fixed (model dump) h = absurd h
  fixed (transition target payload) h = absurd h
  fixed (edge_ref target) h = absurd h
  fixed (dataclass fields) h = absurd h
  fixed (tuple items) h = absurd h
  fixed (other s) h = absurd h

  fixed_entries : (es : Entries) → IsJsonEntries es → jsonable_entries es ≡ es
  fixed_entries end h = refl
  fixed_entries (entry k v rest) h = ap₂ (entry k) (fixed v h.1) (fixed_entries rest h.2)

  fixed_items : (vs : Values) → IsJsonItems vs → jsonable_items vs ≡ vs
  fixed_items nil h = refl
  fixed_items (cons v rest) h = ap₂ cons (fixed v h.0) (fixed_items rest h.1)

mutual
  unfolding jsonable jsonable_entries jsonable_items

  coerced : (v : Value) → DumpsJson v → IsJson (jsonable v) ↔ HasJsonKeys v
  coerced null d = ground arith
  coerced (boolean b) d = ground arith
  coerced (integer n) d = ground arith
  coerced (float x) d = ground arith
  coerced (text s) d = ground arith
  coerced (model dump) d = (λ _. tt, λ _. d)
  coerced (transition target payload) d =
      (λ h. (coerced payload d).0 h.2.1, λ h. (tt, tt, (tt, (coerced payload d).1 h, tt)))
  coerced (edge_ref target) d = ground arith
  coerced (dataclass fields) d = coerced_entries fields d
  coerced (dict entries) d = coerced_entries entries d
  coerced (list items) d = coerced_items items d
  coerced (tuple items) d = coerced_items items d
  coerced (other s) d = ground arith

  coerced_entries :
      (es : Entries)
      → DumpsJsonEntries es
      → IsJsonEntries (jsonable_entries es) ↔ HasJsonKeysEntries es
  coerced_entries end d = (λ _. tt, λ _. tt)
  coerced_entries (entry k v rest) d = (
    λ h. (h.0, (coerced v d.0).0 h.1, (coerced_entries rest d.1).0 h.2),
    λ h. (h.0, (coerced v d.0).1 h.1, (coerced_entries rest d.1).1 h.2),
  )

  coerced_items :
      (vs : Values) → DumpsJsonItems vs → IsJsonItems (jsonable_items vs) ↔ HasJsonKeysItems vs
  coerced_items nil d = (λ _. tt, λ _. tt)
  coerced_items (cons v rest) d = (
    λ h. ((coerced v d.0).0 h.0, (coerced_items rest d.1).0 h.1),
    λ h. ((coerced v d.0).1 h.0, (coerced_items rest d.1).1 h.1),
  )

mutual
  unfolding jsonable jsonable_entries jsonable_items

  idem : (v : Value) → DumpsJson v → jsonable (jsonable v) ≡ jsonable v
  idem null d = refl
  idem (boolean b) d = refl
  idem (integer n) d = refl
  idem (float x) d = refl
  idem (text s) d = refl
  idem (model dump) d = fixed dump d
  idem (transition target payload) d =
      ap (λ p. dict (entry (name "target") (text target) (entry (name "payload") p end)))
        (idem payload d)
  idem (edge_ref target) d = refl
  idem (dataclass fields) d = ap dict (idem_entries fields d)
  idem (dict entries) d = ap dict (idem_entries entries d)
  idem (list items) d = ap list (idem_items items d)
  idem (tuple items) d = ap list (idem_items items d)
  idem (other s) d = refl

  idem_entries :
      (es : Entries)
      → DumpsJsonEntries es
      → jsonable_entries (jsonable_entries es) ≡ jsonable_entries es
  idem_entries end d = refl
  idem_entries (entry k v rest) d = ap₂ (entry k) (idem v d.0) (idem_entries rest d.1)

  idem_items :
      (vs : Values) → DumpsJsonItems vs → jsonable_items (jsonable_items vs) ≡ jsonable_items vs
  idem_items nil d = refl
  idem_items (cons v rest) d = ap₂ cons (idem v d.0) (idem_items rest d.1)

-- Where pydantic models dump to JSON, what `jsonable` returns is serializable exactly when no
-- dictionary inside the value has a key that is neither a text nor a number, Boolean or `None`:
-- keys are not coerced.
pub jsonable-IsJson : (v : Value) → DumpsJson v → IsJson (jsonable v) ↔ HasJsonKeys v
jsonable-IsJson = coerced

-- A value that is JSON already comes back unchanged, and where pydantic models dump to JSON a
-- second coercion changes nothing.
pub jsonable_idem :
    (v : Value) → DumpsJson v → (IsJson v → jsonable v ≡ v) × (jsonable (jsonable v) ≡ jsonable v)
jsonable_idem v d = (fixed v, idem v d)

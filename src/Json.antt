-- ===== src/Json.antt =====
-- athanore/graph/json.py, over the Python values that a node body returns.
pub mod Serializable
use Prim.Native.String
use athanore.Prelude.{ℕ, ◌≡◌, refl, String, Bool}
use athanore.Prelude.Int.{ℤ}

-- A key of a dictionary: a text, a number or Boolean or `None`, or any other hashable value, the
-- last two by their `repr`.
pub data Key : Type 0 where
  name : String → Key
  scalar : String → Key
  object : String → Key

-- The values that `jsonable` tells apart. A float is its bits. A pydantic model is what its
-- `model_dump(mode="json")` returns, a dataclass is the dictionary that `dataclasses.asdict`
-- returns, and what is none of these is its `str()`.
mutual
  pub data Value : Type 0 where
    null : Value
    boolean : Bool → Value
    integer : ℤ → Value
    float : ℕ → Value
    text : String → Value
    model : Value → Value
    transition : String → Value → Value
    edge_ref : String → Value
    dataclass : Entries → Value
    dict : Entries → Value
    list : Values → Value
    tuple : Values → Value
    other : String → Value

  pub data Entries : Type 0 where
    end : Entries
    entry : Key → Value → Entries → Entries

  pub data Values : Type 0 where
    nil : Values
    cons : Value → Values → Values

-- `repr` of an `EdgeRef`, which is its `str`.
abbrev pub edge_repr : String → String
edge_repr target = String.◌++◌ "<edge " (String.◌++◌ target ">")

unfoldable mutual
  pub jsonable : Value → Value
  jsonable null = null
  jsonable (boolean b) = boolean b
  jsonable (integer n) = integer n
  jsonable (float x) = float x
  jsonable (text s) = text s
  jsonable (model dump) = dump
  jsonable (transition target payload) =
      dict (entry (name "target") (text target) (entry (name "payload") (jsonable payload) end))
  jsonable (edge_ref target) = text (edge_repr target)
  jsonable (dataclass fields) = dict (jsonable_entries fields)
  jsonable (dict entries) = dict (jsonable_entries entries)
  jsonable (list items) = list (jsonable_items items)
  jsonable (tuple items) = list (jsonable_items items)
  jsonable (other s) = text s

  pub jsonable_entries : Entries → Entries
  jsonable_entries end = end
  jsonable_entries (entry k v rest) = entry k (jsonable v) (jsonable_entries rest)

  pub jsonable_items : Values → Values
  jsonable_items nil = nil
  jsonable_items (cons v rest) = cons (jsonable v) (jsonable_items rest)

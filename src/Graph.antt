-- ===== src/Graph.antt =====
-- athanore/graph: the graph model (model.py), what raises (GraphError of builder.py) and the names
-- that the submodules pass on. `Signature` and `Builder` are builder.py, `Validate` is validate.py.
pub mod Walk
pub mod Signature
pub mod Builder
pub mod Validate
mod Examples
use athanore.Prelude.{◌≡◌, refl, ◌⊎◌, inl, inr, ℕ, Bool, String, Option, none, some, List}
use athanore.Prelude.Int.{ℤ}
use athanore.Prelude.Dict.{Dict}

-- What a raise carries is what its message is formatted from. Only the constructors above `key`
-- are a `GraphError`; `key` is Python's `KeyError`, and `fuel` is the model's own: a loop that was
-- cut short.
pub data Error : Type 0 where
  variadic : String → Error
  duplicate : String → Error
  start_count : String → ℕ → Error
  bad_name : String → Error
  unknown_edge : String → String → Error
  join_without_payload : String → Error
  unreachable : String → List String → Error
  undeclared_edge : String → String → List String → Error
  ambiguous : String → List String → Error
  unframed_join : String → String → Error
  unknown_node : String → String → Error
  key : String → Error
  fuel : Error

-- What a call comes to: a value, or an exception.
pub data Result {ℓ} (Value : Type ℓ) : Type ℓ where
  ok : Value → Result Value
  raised : Error → Result Value

-- An exception ends the block.
infixl 10 ◌>>=◌ ◌>>◌
abbrev pub ◌>>=◌ {ℓ κ} :
    {Value : Type ℓ} {Next : Type κ} → Result Value → (Value → Result Next) → Result Next
call >>= next = elim call [ ok value ↦ next value | raised e ↦ raised e ]

abbrev pub ◌>>◌ {ℓ} : {Next : Type ℓ} → Result (Unit {0}) → Result Next → Result Next
check >> next = check >>= λ _. next

pub Result-cases {ℓ} :
    {A : Type ℓ} (r : Result A) → ((a : A) × (r ≡ ok a)) ⊎ ((e : Error) × (r ≡ raised e))
Result-cases (ok a) = inl (a, refl)
Result-cases (raised e) = inr (e, refl)

-- `inspect.Parameter.kind`
pub data Kind : Type 0 where
  positional_only positional_or_keyword var_positional keyword_only var_keyword : Kind

pub record Param : Type 0 where
  pub name : String
  pub kind : Kind

-- A node body as the builder sees it: its `__name__`, the parameters that `inspect.signature`
-- lists and the text that `inspect.getdoc` returns. What a call of it does is not part of a graph.
pub record Function : Type 0 where
  pub name : String
  pub params : List Param
  pub doc : Option String

-- `timeout` is a count of microseconds; a graph only carries it.
pub record Node : Type 0 where
  pub name : String
  pub fn : Function
  pub edges : List String
  pub payload_param : Option String
  pub start : Bool
  pub join : Bool
  pub priority : Option ℤ
  pub retries : Option ℤ
  pub timeout : Option ℕ
  pub label : String
  pub description : Option String
  pub generation : ℕ

pub record Graph : Type 0 where
  pub name : String
  pub nodes : Dict Node
  pub start : String

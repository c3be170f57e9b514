-- ===== src/Routing.antt =====
-- athanore/engine/routing.py: what the return value of a node body routes to.
pub mod Table
pub mod FanOut
mod Examples
use athanore.Prelude.{
  ℕ, ◌≡◌, String, Bool, true, false, ◌&&◌, Option, none, some, List, [], ◌∷◌, member, length,
  if◌then◌else◌,
}
use athanore.Graph.{undeclared_edge, ambiguous, Result, ok, raised, ◌>>=◌, ◌>>◌, Node}
use athanore.Json.{Value, null, transition, edge_ref, list, tuple, Values, nil, cons, jsonable}

-- `Transition` of athanore/graph/builder.py.
pub record Transition : Type 0 where
  pub target : String
  pub payload : Value

-- Whether the value is an `EdgeRef` or a `Transition`.
abbrev pub is_route : Value → Bool
is_route (transition target payload) = true
is_route (edge_ref target) = true
is_route _ = false

abbrev pub all_routes : Values → Bool
all_routes nil = true
all_routes (cons v rest) = is_route v && all_routes rest

abbrev pub is_fan_out_items : Values → Bool
is_fan_out_items nil = false
is_fan_out_items (cons v rest) = is_route v && all_routes rest

unfoldable pub is_fan_out : Value → Bool
is_fan_out (list items) = is_fan_out_items items
is_fan_out (tuple items) = is_fan_out_items items
is_fan_out _ = false

-- `_coerce(item) if isinstance(item, Transition) else Transition(item.name)`, over the items that
-- are routes.
pub branches : Values → List Transition
branches nil = []
branches (cons (transition target payload) rest) =
    record { target = target; payload = jsonable payload } ∷ branches rest
branches (cons (edge_ref target) rest) = record { target = target; payload = null } ∷ branches rest
branches (cons _ rest) = branches rest

pub explicit_items : Values → Option (List Transition)
explicit_items nil = some []
explicit_items (cons v rest) =
    if is_route v && all_routes rest then some (branches (cons v rest)) else none

unfoldable pub explicit : Value → Option (List Transition)
unfolding explicit_items branches
explicit (transition target payload) =
    some (record { target = target; payload = jsonable payload } ∷ [])
explicit (edge_ref target) = some (record { target = target; payload = null } ∷ [])
explicit (list items) = explicit_items items
explicit (tuple items) = explicit_items items
explicit _ = none

unfoldable pub implicit : String → List String → Value → Result (List Transition)
implicit node [] value = ok []
implicit node (e ∷ []) value = ok (record { target = e; payload = jsonable value } ∷ [])
implicit node (e ∷ f ∷ rest) value = raised (ambiguous node (e ∷ f ∷ rest))

unfoldable pub check_targets : String → List String → List Transition → Result (List Transition)
check_targets node edges [] = ok []
check_targets node edges (t ∷ ts) =
    if member t.target edges
    then (do rest ← check_targets node edges ts; ok (t ∷ rest))
    else raised (undeclared_edge node t.target edges)

abbrev pub or_implicit : Node → Value → Option (List Transition) → Result (List Transition)
or_implicit node value none = implicit node.name node.edges value
or_implicit node value (some ts) = ok ts

unfoldable pub interpret : Node → Value → Result (List Transition)
interpret node value = do
  ts ← or_implicit node value (explicit value)
  check_targets node.name node.edges ts

-- ===== src/Routing/Examples.antt =====
-- The routing table at a node with two successors, and coerced values.
use athanore.Prelude.{
  ◌<◌, ◌≡◌, refl, ◌↔◌, true, false, some, none, List, [], ◌∷◌, Memᴰ, All, length, member,
}
use athanore.Graph.{ok, raised, ambiguous, Node}
use athanore.Json.{
  Value, object, null, text, model, transition, edge_ref, dict, list, tuple, end, entry, Values,
  nil, cons, jsonable,
}
use athanore.Json.Serializable.{IsJson, HasJsonKeys, jsonable-IsJson, jsonable_idem}
use athanore.Routing.{Transition, is_fan_out, explicit, implicit, check_targets, interpret}
use athanore.Routing.Table.{Row, Branches, items_of, interpret_iff}
use athanore.Routing.FanOut.{interpret-is_fan_out}

-- async def review(merge, engineering)
abbrev review : Node
review = record {
  name = "review";
  fn = record { name = "review"; params = []; doc = none };
  edges = "merge" ∷ "engineering" ∷ [];
  payload_param = none;
  start = false;
  join = false;
  priority = none;
  retries = none;
  timeout = none;
  label = "review";
  description = none;
  generation = 1;
}

abbrev both : Value
both = tuple (cons (edge_ref "merge") (cons (transition "engineering" (tuple nil)) nil))

abbrev routed : List Transition
routed =
    record { target = "merge"; payload = null }
    ∷ record { target = "engineering"; payload = list nil }
    ∷ []

interpret-both : interpret review both ≡ ok routed
unfolding interpret explicit implicit check_targets jsonable member
interpret-both = refl

interpret-plain :
    interpret review (text "ship it") ≡ raised (ambiguous "review" ("merge" ∷ "engineering" ∷ []))
unfolding interpret explicit implicit check_targets
interpret-plain = refl

interpret_iff_example :
    (interpret review both ≡ ok routed)
    ↔ (Row review.edges both routed × All (λ t. Memᴰ t.target review.edges) routed)
interpret_iff_example = interpret_iff review both routed

interpret-is_fan_out_example : (is_fan_out both ≡ true) ↔ (
    (items : Values) × (items_of both ≡ some items) × Branches items routed × (0 < length routed))
interpret-is_fan_out_example = interpret-is_fan_out review both routed interpret-both

-- A tuple as a key is kept, so the result is not serializable.
abbrev keyed : Value
keyed = dict (entry (object "(1, 2)") (model (text "x")) end)

jsonable-IsJson_example : IsJson (jsonable keyed) ↔ HasJsonKeys keyed
jsonable-IsJson_example = jsonable-IsJson keyed (tt, tt)

jsonable_idem_example :
    (IsJson keyed → jsonable keyed ≡ keyed) × (jsonable (jsonable keyed) ≡ jsonable keyed)
jsonable_idem_example = jsonable_idem keyed (tt, tt)

-- ===== src/Routing/FanOut.antt =====
-- `is_fan_out` of athanore/engine/routing.py names the row of the table that `interpret` took.
use athanore.Prelude.{◌<◌, ◌≡◌, refl, ◌≢◌, ◌↔◌, String, true, some, List, length, arith, sym, ◌∙◌}
use athanore.Graph.{ok, Node}
use athanore.Json.{Value, list, tuple, Values, nil, cons}
use athanore.Routing.{Transition, all_routes, is_fan_out, is_fan_out_items, branches, interpret}
use athanore.Routing.Table.{
  Branches, no_branch, by_ref, by_transition, items_of, IsPlain, Row, one_transition, one_ref,
  fan_out, terminal, single, branches-Branches, Branches-all_routes, interpret_iff,
}

is_fan_out-list :
    (v : Value) (items : Values) → items_of v ≡ some items → is_fan_out v ≡ is_fan_out_items items
unfolding is_fan_out
is_fan_out-list (list items) xs e = ground arith
is_fan_out-list (tuple items) xs e = ground arith
is_fan_out-list _ xs e = cc

is_fan_out_cases : (v : Value) → is_fan_out v ≡ true → (items : Values) × (items_of v ≡ some items)
unfolding is_fan_out
is_fan_out_cases (list items) h = (items, refl)
is_fan_out_cases (tuple items) h = (items, refl)
is_fan_out_cases _ h = cc

items_of_fan_out : (items : Values) → is_fan_out_items items ≡ true → all_routes items ≡ true
items_of_fan_out nil h = refl
items_of_fan_out (cons v rest) h = h

fan_out_nonempty :
    {items : Values} {ts : List Transition}
    → Branches items ts
    → (is_fan_out_items items ≡ true) ↔ (0 < length ts)
fan_out_nonempty no_branch = ground arith
fan_out_nonempty (by_ref b) = (λ _. omega arith, λ _. (Branches-all_routes b).0)
fan_out_nonempty (by_transition b) = (λ _. omega arith, λ _. (Branches-all_routes b).0)

plain_no_fan_out : (v : Value) → IsPlain v → is_fan_out v ≢ true
plain_no_fan_out v p h =
    let (items, e) = is_fan_out_cases v h in
    p.not_list items (branches items) e
      (branches-Branches items (items_of_fan_out items (sym (is_fan_out-list v items e) ∙ h)))

of_Row :
    (edges : List String) (v : Value) (ts : List Transition)
    → Row edges v ts
    → is_fan_out v ≡ true
    → (items : Values) × (items_of v ≡ some items) × Branches items ts
unfolding is_fan_out
of_Row edges v ts (one_transition target payload e _) h = absurd (ground arith)
of_Row edges v ts (one_ref target e _) h = absurd (ground arith)
of_Row edges v ts (fan_out items e b) h = (items, e, b)
of_Row edges v ts (terminal plain _ _) h = absurd (plain_no_fan_out v plain h)
of_Row edges v ts (single _ plain _ _) h = absurd (plain_no_fan_out v plain h)

-- Where `interpret` returns transitions, `is_fan_out` says whether they are one for each item of a
-- list or tuple, at least one of them: a ref or a transition alone, an empty list and a plain
-- value are no fan-out, and a list of one is.
pub interpret-is_fan_out :
    (node : Node) (v : Value) (ts : List Transition)
    → interpret node v ≡ ok ts
    → (is_fan_out v ≡ true)
      ↔ ((items : Values) × (items_of v ≡ some items) × Branches items ts × (0 < length ts))
interpret-is_fan_out node v ts h = (
  λ fans.
      let (items, e, b) = of_Row node.edges v ts ((interpret_iff node v ts).0 h).0 fans in
      (items, e, b, (fan_out_nonempty b).0 (sym (is_fan_out-list v items e) ∙ fans)),
  λ (items, e, b, wide). is_fan_out-list v items e ∙ (fan_out_nonempty b).1 wide,
)

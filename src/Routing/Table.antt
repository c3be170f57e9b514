-- ===== src/Routing/Table.antt =====
-- The table of athanore/engine/routing.py as a relation, and `interpret` against it.
use athanore.Prelude.{
  ◌≡◌, refl, ◌≢◌, ◌⊎◌, inl, inr, ◌↔◌, String, true, false, ◌&&◌, Option, none, some, List, [], ◌∷◌,
  member_iff, Memᴰ, All, arith, Bool-cases, Option-cases, subst, ◌∙◌,
}
use athanore.Graph.{ok, Result-cases, Node}
use athanore.Json.{Value, null, transition, edge_ref, list, tuple, Values, nil, cons, jsonable}
use athanore.Routing.{
  Transition, is_route, all_routes, branches, explicit, explicit_items, implicit, check_targets,
  or_implicit, interpret,
}

-- One branch for each item, and every item is a ref or a transition.
pub data Branches : Values → List Transition → Type 0 where
  no_branch : Branches nil []
  by_ref :
      {target : String} {rest : Values} {ts : List Transition}
      → Branches rest ts
      → Branches (cons (edge_ref target) rest) (record { target = target; payload = null } ∷ ts)
  by_transition :
      {target : String} {payload : Value} {rest : Values} {ts : List Transition}
      → Branches rest ts
      → Branches
          (cons (transition target payload) rest)
          (record { target = target; payload = jsonable payload } ∷ ts)

-- The items of the list form.
abbrev pub items_of : Value → Option Values
items_of (list items) = some items
items_of (tuple items) = some items
items_of _ = none

-- A plain value asks for no routing: it is no ref, no transition, and no list of such.
pub record IsPlain (v : Value) : Type 0 where
  pub not_ref : (target : String) → v ≢ edge_ref target
  pub not_transition : (target : String) (payload : Value) → v ≢ transition target payload
  pub not_list :
      (items : Values) (ts : List Transition) → items_of v ≡ some items → ¬ Branches items ts

-- The rows of the table, before the check of the targets.
pub data Row (edges : List String) (v : Value) (ts : List Transition) : Type 0 where
  one_transition :
      (target : String) (payload : Value)
      → v ≡ transition target payload
      → ts ≡ record { target = target; payload = jsonable payload } ∷ []
      → Row edges v ts
  one_ref :
      (target : String)
      → v ≡ edge_ref target
      → ts ≡ record { target = target; payload = null } ∷ []
      → Row edges v ts
  fan_out : (items : Values) → items_of v ≡ some items → Branches items ts → Row edges v ts
  terminal : IsPlain v → edges ≡ [] → ts ≡ [] → Row edges v ts
  single :
      (e : String)
      → IsPlain v
      → edges ≡ e ∷ []
      → ts ≡ record { target = e; payload = jsonable v } ∷ []
      → Row edges v ts

pub branches-Branches : (vs : Values) → all_routes vs ≡ true → Branches vs (branches vs)
unfolding branches
branches-Branches nil h = no_branch
branches-Branches (cons (transition target payload) rest) h =
    by_transition (branches-Branches rest h)
branches-Branches (cons (edge_ref target) rest) h = by_ref (branches-Branches rest h)
branches-Branches (cons _ rest) h = cc

pub Branches-all_routes :
    {vs : Values} {ts : List Transition}
    → Branches vs ts
    → (all_routes vs ≡ true) × (ts ≡ branches vs)
unfolding branches
Branches-all_routes no_branch = (refl, refl)
Branches-all_routes (by_ref b) = let (a, e) = Branches-all_routes b in (a, cc)
Branches-all_routes (by_transition b) = let (a, e) = Branches-all_routes b in (a, cc)

explicit_items-cases :
    (vs : Values)
    → ((all_routes vs ≡ true) × (explicit_items vs ≡ some (branches vs)))
      ⊎ ((all_routes vs ≡ false) × (explicit_items vs ≡ none))
unfolding explicit_items branches
explicit_items-cases nil = inl (refl, refl)
explicit_items-cases (cons v rest) = elim (Bool-cases (is_route v && all_routes rest)) [
  | inl h ↦ inl (h, rw h)
  | inr h ↦ inr (h, rw h)
]

explicit_list :
    (v : Value) (items : Values) → items_of v ≡ some items → explicit v ≡ explicit_items items
unfolding explicit
explicit_list (list items) xs e = ground arith
explicit_list (tuple items) xs e = ground arith
explicit_list (transition _ _) xs e = cc
explicit_list (edge_ref _) xs e = cc
explicit_list _ xs e = cc

plain_route : (v : Value) → IsPlain v → is_route v ≡ false
plain_route (transition target payload) p = absurd (p.not_transition target payload refl)
plain_route (edge_ref target) p = absurd (p.not_ref target refl)
plain_route _ p = refl

explicit-none : (v : Value) → is_route v ≡ false → items_of v ≡ none → explicit v ≡ none
unfolding explicit
explicit-none (list items) h e = cc
explicit-none _ h e = ground arith

explicit_route :
    (v : Value) (edges : List String)
    → is_route v ≡ true
    → (us : List Transition) × (explicit v ≡ some us) × Row edges v us
unfolding explicit
explicit_route (transition target payload) edges h = (
  record { target = target; payload = jsonable payload } ∷ [],
  refl,
  one_transition target payload refl refl,
)
explicit_route (edge_ref target) edges h =
    (record { target = target; payload = null } ∷ [], refl, one_ref target refl refl)
explicit_route _ edges h = cc

not_list_of_all_routes :
    (v : Value) (items : Values)
    → items_of v ≡ some items
    → all_routes items ≡ false
    → (xs : Values) (ts : List Transition) → items_of v ≡ some xs
    → ¬ Branches xs ts
not_list_of_all_routes v items e h xs ts e' b =
    let (a, _) = Branches-all_routes b in
    let same : items ≡ xs = ground arith in let a' : all_routes items ≡ true = rw same a in cc

IsPlain-not_route :
    (v : Value)
    → is_route v ≡ false
    → ((items : Values) (ts : List Transition) → items_of v ≡ some items → ¬ Branches items ts)
    → IsPlain v
IsPlain-not_route v h no_list = record {
  not_ref = λ target e. let t : is_route v ≡ true = rw e refl in cc;
  not_transition = λ target payload e. let t : is_route v ≡ true = rw e refl in cc;
  not_list = no_list;
}

implicit-Row :
    (node : String) (edges : List String) (v : Value) (us : List Transition)
    → IsPlain v
    → implicit node edges v ≡ ok us
    → Row edges v us
unfolding implicit
implicit-Row node [] v us plain h = terminal plain refl (ground arith)
implicit-Row node (e ∷ []) v us plain h = single e plain refl (ground arith)
implicit-Row node (e ∷ f ∷ rest) v us plain h = absurd (ground arith)

-- The routing that is chosen, before its targets are checked.
choice-Row :
    (node : Node) (v : Value) (us : List Transition)
    → or_implicit node v (explicit v) ≡ ok us
    → Row node.edges v us
choice-Row node v us h = elim (Bool-cases (is_route v)) [
  | inl route ↦
      let (ts, e, row) = explicit_route v node.edges route in
      let same : ts ≡ us = ground arith in subst (Row node.edges v) same row
  | inr plain ↦ elim (Option-cases (items_of v)) [
    | inl no_items ↦
        let e = explicit-none v plain no_items in
        implicit-Row node.name node.edges v us
          (IsPlain-not_route v plain
            λ xs ts e' b. let c : items_of v ≡ none = no_items in absurd (ground arith))
          (ground arith)
    | inr (items, e) ↦
        let e' = explicit_list v items e in
        elim (explicit_items-cases items) [
          | inl (routes, chosen) ↦
              let same : branches items ≡ us = ground arith in
              fan_out items e (subst (Branches items) same (branches-Branches items routes))
          | inr (mixed, chosen) ↦
              implicit-Row node.name node.edges v us
                (IsPlain-not_route v plain (not_list_of_all_routes v items e mixed)) (ground arith)
        ]
  ]
]

plain-explicit : (v : Value) → IsPlain v → explicit v ≡ none
plain-explicit v p = elim (Option-cases (items_of v)) [
  | inl no_items ↦ explicit-none v (plain_route v p) no_items
  | inr (items, e) ↦ elim (explicit_items-cases items) [
    | inl (routes, chosen) ↦
        absurd (p.not_list items (branches items) e (branches-Branches items routes))
    | inr (mixed, chosen) ↦ explicit_list v items e ∙ chosen
  ]
]

Row-choice :
    (node : Node) (v : Value) (us : List Transition)
    → Row node.edges v us
    → or_implicit node v (explicit v) ≡ ok us
unfolding implicit
Row-choice node v us (one_transition target payload e eu) = rw (e, eu) (unfold explicit in refl)
Row-choice node v us (one_ref target e eu) = rw (e, eu) (unfold explicit in refl)
Row-choice node v us (fan_out items e b) =
    let (routes, chosen) = Branches-all_routes b in
    let e' = explicit_list v items e in ground (arith, explicit_items-cases items)
Row-choice node v us (terminal p e eu) = rw (plain-explicit v p, e, eu)
Row-choice node v us (single edge p e eu) = rw (plain-explicit v p, e, eu)

check_targets_sound :
    (node : String) (edges : List String) (us ts : List Transition)
    → check_targets node edges us ≡ ok ts
    → (us ≡ ts) × All (λ t. Memᴰ t.target edges) us
unfolding check_targets
check_targets_sound node edges [] ts h = ground arith
check_targets_sound node edges (t ∷ us) ts h = elim (Result-cases (check_targets node edges us)) [
  | inl (rest, e) ↦
      let (same, declared) = check_targets_sound node edges us rest e in
      let there = (member_iff t.target edges).0 (ground arith) in (ground arith, (there, declared))
  | inr (x, e) ↦ absurd (ground arith)
]

check_targets_complete :
    (node : String) (edges : List String) (ts : List Transition)
    → All (λ t. Memᴰ t.target edges) ts
    → check_targets node edges ts ≡ ok ts
unfolding check_targets
check_targets_complete node edges [] h = refl
check_targets_complete node edges (t ∷ ts) h =
    rw ((member_iff t.target edges).1 h.0) (rw (check_targets_complete node edges ts h.1))

-- `interpret` returns some transitions exactly when they are a row of the routing table and each
-- of them targets an edge that the node declares.
pub interpret_iff :
    (node : Node) (v : Value) (ts : List Transition)
    → (interpret node v ≡ ok ts) ↔ (Row node.edges v ts × All (λ t. Memᴰ t.target node.edges) ts)
unfolding interpret
interpret_iff node v ts = (
  λ h. elim (Result-cases (or_implicit node v (explicit v))) [
    | inl (us, e) ↦
        let (same, declared) =
          check_targets_sound node.name node.edges us ts (rw (e, interpret) at h) in
        (
          subst (Row node.edges v) same (choice-Row node v us e),
          subst (All λ t. Memᴰ t.target node.edges) same declared,
        )
    | inr (x, e) ↦ absurd (ground arith)
  ],
  λ (row, declared).
      rw (Row-choice node v ts row) (check_targets_complete node.name node.edges ts declared),
)

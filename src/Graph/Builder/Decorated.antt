-- ===== src/Graph/Builder/Decorated.antt =====
-- What the decorator of athanore/graph/builder.py leaves, for the functions of a workflow in turn.
use athanore.Prelude.{
  ◌≡◌, refl, sym, subst, ap, ap₂, ◌∙◌, inl, inr, ◌↔◌, String, false, ◌||◌, Option, List, [], ◌∷◌,
  ◌++◌, map, All, NoTwice, member, ◌==◌, eq_iff, Bool-cases, arith,
}
use athanore.Prelude.Dict.{Dict, lookup, insert, contains}
use athanore.Graph.{ok, Result-cases, Function, Node}
use athanore.Graph.Signature.{parse_signature}
use athanore.Graph.Builder.{
  GraphBuilder, new_builder, NodeOptions, make_node, add_node, decorate_all,
}

-- A decorated function with what its signature was parsed to.
abbrev pub Parsed : Type 0
Parsed = (NodeOptions × Function) × (List String × Option String)

abbrev pub entry : Parsed → String × Node
entry ((o, fn), parsed) = (fn.name, make_node o fn parsed)

abbrev pub names_of : List (NodeOptions × Function) → List String
names_of = map (λ p. p.1.name)

-- The nodes are the decorated functions in their order, each with what its signature says, under its
-- name, and no two functions have one name.
abbrev pub IsDecorated : List (NodeOptions × Function) → Dict Node → Type 0
IsDecorated functions nodes =
    (parsed : List Parsed) × (functions ≡ map (λ x. x.0) parsed)
    × All (λ x. parse_signature x.0.1 ≡ ok x.1) parsed
    × (nodes ≡ map entry parsed)
    × NoTwice (names_of functions)

insert-absent :
    (k : String) (n : Node) (d : Dict Node) → contains k d ≡ false → insert k n d ≡ d ++ (k, n) ∷ []
unfolding insert lookup
insert-absent k n [] h = refl
insert-absent k n ((j, m) ∷ d) h = ground (arith, insert-absent k n d)

contains-append :
    (k j : String) (n : Node) (d : Dict Node)
    → contains k (d ++ (j, n) ∷ []) ≡ (contains k d || j == k)
unfolding lookup
contains-append k j n [] = ground arith
contains-append k j n ((i, m) ∷ d) = ground (arith, contains-append k j n d)

-- None of the names is a key.
abbrev Absent : Dict Node → List String → Type 0
Absent d ks = All (λ k. contains k d ≡ false) ks

Absent-append :
    (j : String) (n : Node) (d : Dict Node) (ks : List String)
    → Absent (d ++ (j, n) ∷ []) ks ↔ (Absent d ks × (member j ks ≡ false))
unfolding member
Absent-append j n d [] = (λ h. (tt, refl), λ h. tt)
Absent-append j n d (k ∷ ks) =
    let rest = Absent-append j n d ks in
    let here = contains-append k j n d in
    (
      λ h. (
        (ground (arith, h.0), (rest.0 h.1).0),
        ground (arith, h.0, (rest.0 h.1).1, eq_iff j k, eq_iff k j),
      ),
      λ h.
          (ground (arith, h.0.0, h.1, eq_iff j k, eq_iff k j), rest.1 (h.0.1, ground (arith, h.1))),
    )

abbrev with_nodes : GraphBuilder → Dict Node → GraphBuilder
with_nodes b nodes = record b { nodes = b.nodes ++ nodes }

ok_injective : {b c : GraphBuilder} → ok b ≡ ok c → b ≡ c
ok_injective h = cc

append-nil : (d : Dict Node) → d ++ [] ≡ d
append-nil [] = refl
append-nil (x ∷ d) = ap (λ e. x ∷ e) (append-nil d)

append_assoc : (d e f : Dict Node) → (d ++ e) ++ f ≡ d ++ (e ++ f)
append_assoc [] e f = refl
append_assoc (x ∷ d) e f = ap (λ r. x ∷ r) (append_assoc d e f)

add_node_iff :
    (b : GraphBuilder) (o : NodeOptions) (fn : Function) (c : GraphBuilder)
    → (add_node b o fn ≡ ok c) ↔ (
        (contains fn.name b.nodes ≡ false)
        × (p : List String × Option String) × (parse_signature fn ≡ ok p)
        × (c ≡ with_nodes b (entry ((o, fn), p) ∷ [])))
unfolding add_node
add_node_iff b o fn c = (
  λ h. elim (Bool-cases (contains fn.name b.nodes)) [
    | inl there ↦ let bad = rw (add_node, there) at h in cc
    | inr new ↦ elim (Result-cases (parse_signature fn)) [
      | inr (e, failed) ↦ let bad = rw (add_node, new, failed) at h in cc
      | inl (p, parsed) ↦
          let k = ok_injective (rw (add_node, new, parsed) at h) in
          (
            new,
            p,
            parsed,
            sym k
                ∙ ap (λ d. record b { nodes = d })
                    (insert-absent fn.name (make_node o fn p) b.nodes new),
          )
    ]
  ],
  λ (new, p, parsed, e).
      rw (add_node, new, parsed)
        (ap (λ d. ok (record b { nodes = d }))
            (insert-absent fn.name (make_node o fn p) b.nodes new)
          ∙ ap ok (sym e)),
)

-- The functions are added to the builder, which has none of their names.
abbrev Adds : GraphBuilder → List (NodeOptions × Function) → GraphBuilder → Type 0
Adds b functions c =
    (parsed : List Parsed) × (functions ≡ map (λ x. x.0) parsed)
    × All (λ x. parse_signature x.0.1 ≡ ok x.1) parsed
    × (c ≡ with_nodes b (map entry parsed))
    × NoTwice (names_of functions)
    × Absent b.nodes (names_of functions)

decorated :
    (b : GraphBuilder) (functions : List (NodeOptions × Function)) (c : GraphBuilder)
    → decorate_all b functions ≡ ok c
    → Adds b functions c
unfolding decorate_all
decorated b [] c h = (
  [],
  refl,
  tt,
  sym (ok_injective h) ∙ ap (λ d. record b { nodes = d }) (sym (append-nil b.nodes)),
  tt,
  tt,
)
decorated b ((o, fn) ∷ functions) c h = elim (Result-cases (add_node b o fn)) [
  | inr (e, failed) ↦ let bad = rw (decorate_all, failed) at h in cc
  | inl (m, added) ↦
      let (new, p, parsed, e) = (add_node_iff b o fn m).0 added in
      let (ps, same, all, nodes, once, absent) =
        decorated m functions c (rw (decorate_all, added) at h) in
      let (old, apart) =
        (Absent-append fn.name (make_node o fn p) b.nodes (names_of functions)).0
          (subst (λ (v : GraphBuilder). Absent v.nodes (names_of functions)) e absent) in
      (
        ((o, fn), p) ∷ ps,
        ap (λ fs. (o, fn) ∷ fs) same,
        (parsed, all),
        nodes
            ∙ ap (λ v. with_nodes v (map entry ps)) e
            ∙ ap (λ d. record b { nodes = d })
                (append_assoc b.nodes (entry ((o, fn), p) ∷ []) (map entry ps)),
        (apart, once),
        (new, old),
      )
]

decorates :
    (b : GraphBuilder) (parsed : List Parsed)
    → All (λ x. parse_signature x.0.1 ≡ ok x.1) parsed
    → NoTwice (names_of (map (λ x. x.0) parsed))
    → Absent b.nodes (names_of (map (λ x. x.0) parsed))
    → decorate_all b (map (λ x. x.0) parsed) ≡ ok (with_nodes b (map entry parsed))
unfolding decorate_all
decorates b [] all once absent = ap (λ d. ok (record b { nodes = d })) (sym (append-nil b.nodes))
decorates b (((o, fn), p) ∷ ps) all once absent =
    let m = with_nodes b (entry ((o, fn), p) ∷ []) in
    let added = (add_node_iff b o fn m).1 (absent.0, p, all.0, refl) in
    rw (decorate_all, added)
      (decorates m ps all.1 once.1 (
          (Absent-append fn.name (make_node o fn p) b.nodes (names_of (map (λ x. x.0) ps))).1
            (absent.1, once.0))
        ∙ ap (λ d. ok (record b { nodes = d }))
            (append_assoc b.nodes (entry ((o, fn), p) ∷ []) (map entry ps)))

none-Absent : (ks : List String) → Absent [] ks
unfolding lookup
none-Absent [] = tt
none-Absent (k ∷ ks) = (refl, none-Absent ks)

-- Decorating the functions of a workflow one after the other leaves a builder exactly when no two of
-- them have one name and the signature of each is accepted; its nodes are then theirs, in their
-- order, each under its name with what its signature and its options say.
pub decorate_all_iff :
    (name : String) (functions : List (NodeOptions × Function)) (c : GraphBuilder)
    → (decorate_all (new_builder name) functions ≡ ok c)
      ↔ ((c.name ≡ name) × IsDecorated functions c.nodes)
unfolding new_builder
decorate_all_iff name functions c = (
  λ h.
      let (ps, same, all, e, once, absent) = decorated (new_builder name) functions c h in
      (
        ap (λ (v : GraphBuilder). v.name) e,
        (ps, same, all, ap (λ (v : GraphBuilder). v.nodes) e, once),
      ),
  λ (named, (ps, same, all, nodes, once)).
      ap (decorate_all (new_builder name)) same
      ∙ decorates (new_builder name) ps all (subst (λ fs. NoTwice (names_of fs)) same once)
          (none-Absent _)
      ∙ ap ok (ap₂ (λ n d. record { name = n; nodes = d }) (sym named) (sym nodes)),
)

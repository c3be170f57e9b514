-- ===== src/Graph/Validate/Finish.antt =====
-- The last step of `finalize` (athanore/graph/validate.py): unreached nodes, or the filled graph.
use athanore.Prelude.{
  ℕ, ◌≡◌, refl, ◌≢◌, ◌⊎◌, inl, inr, ◌↔◌, String, true, not, Option, none, some, List, [], ◌∷◌,
  filter, All, arith, List-cases, Option-cases, eq_iff,
}
use athanore.Prelude.Dict.{Dict, lookup, contains, keys}
use athanore.Graph.{ok, raised, unreachable, Node, Graph}
use athanore.Graph.Validate.{insert_sorted, sorted, fill, finish}

insert_sorted-ne-nil : (a : String) (xs : List String) → insert_sorted a xs ≢ []
unfolding insert_sorted
insert_sorted-ne-nil a [] = λ e. cc
insert_sorted-ne-nil a (x ∷ xs) = ground arith

sorted-eq-nil : (xs : List String) → (sorted xs ≡ []) ↔ (xs ≡ [])
unfolding sorted
sorted-eq-nil [] = (λ e. e, λ e. e)
sorted-eq-nil (x ∷ xs) = (λ e. absurd (insert_sorted-ne-nil x (sorted xs) e), λ e. cc)

abbrev pub Reached : Dict ℕ → List String → Type 0
Reached gens = All (λ k. contains k gens ≡ true)

unreached-eq-nil :
    (gens : Dict ℕ) (ks : List String)
    → (filter (λ k. not (contains k gens)) ks ≡ []) ↔ Reached gens ks
unreached-eq-nil gens [] = ground arith
unreached-eq-nil gens (k ∷ ks) = ground (arith, unreached-eq-nil gens ks)

-- The node with its depth filled in.
abbrev pub with_depth : Option Node → Option ℕ → Option Node
with_depth none d = none
with_depth (some n) none = none
with_depth (some n) (some d) = some (record n { generation = d })

-- What the filled nodes are, key by key.
abbrev pub IsFilled : Dict ℕ → Dict Node → Dict Node → Type 0
IsFilled gens nodes filled =
    (k : String) → lookup k filled ≡ with_depth (lookup k nodes) (lookup k gens)

fill_lem :
    (gens : Dict ℕ) (nodes : Dict Node)
    → Reached gens (keys nodes)
    → (filled : Dict Node) × (fill gens nodes ≡ ok filled) × IsFilled gens nodes filled
unfolding fill lookup
fill_lem gens [] r = ([], refl, λ k. refl)
fill_lem gens ((j, n) ∷ nodes) r =
    let (filled, ends, at) = fill_lem gens nodes r.1 in
    elim (Option-cases (lookup j gens)) [
      | inl absent ↦ absurd (ground arith)
      | inr (d, found) ↦ (
        (j, record n { generation = d }) ∷ filled,
        rw (found, fill) (rw ends),
        λ k. ground (arith, at k, eq_iff j k),
      )
    ]

-- Either every node was reached, and the result is the graph with the depths filled in; or the
-- result is the error that lists those that were not.
pub finish_cases :
    (g : Graph) (gens : Dict ℕ)
    → ((filled : Dict Node) × (finish g gens ≡ ok (record g { nodes = filled }))
        × Reached gens (keys g.nodes)
        × IsFilled gens g.nodes filled)
      ⊎ ((missing : List String) × (finish g gens ≡ raised (unreachable g.name missing))
          × ¬ Reached gens (keys g.nodes))
unfolding finish
finish_cases g gens =
    let left = filter (λ k. not (contains k gens)) (keys g.nodes) in
    elim (List-cases (sorted left)) [
      | inl e ↦
          let reached = (unreached-eq-nil gens (keys g.nodes)).0 ((sorted-eq-nil left).0 e) in
          let (filled, ends, at) = fill_lem gens g.nodes reached in
          inl (filled, rw (e, finish) (rw ends), reached, at)
      | inr (x, rest, e) ↦ inr (
        x ∷ rest,
        rw (e, finish),
        λ reached.
            let empty = (sorted-eq-nil left).1 ((unreached-eq-nil gens (keys g.nodes)).1 reached) in
            cc,
      )
    ]

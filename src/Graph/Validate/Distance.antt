-- ===== src/Graph/Validate/Distance.antt =====
-- `_generations` (athanore/graph/validate.py) computes the distances from the start node.
use mathlib.Core.Logic.{◌↔◌}
use athanore.Prelude.{
  ℕ, ◌+◌, ◌≤◌, ◌≡◌, refl, subst, inl, inr, String, true, some, List, [], ◌∷◌, length, length-map,
  member, arith, eq_iff, eq_refl,
}
use athanore.Prelude.Dict.{Dict, lookup, insert, contains, keys, contains-member}
use athanore.Graph.{ok, Node, Graph}
use athanore.Graph.Walk.{Edge, Walk, here, step, IsDistance}
use athanore.Graph.Validate.{generations_of}
use athanore.Graph.Validate.Loop.{Inv, unseen, unseen-insert, search_loop_lem}

unseen-nil : (ks : List String) → unseen ks [] ≡ length ks
unfolding lookup
unseen-nil [] = refl
unseen-nil (k ∷ ks) = omega (arith, unseen-nil ks)

module _ (g : Graph) (is_start : contains g.start g.nodes ≡ true)
    (closed_edges : (u v : String) → Edge g.nodes u v → contains v g.nodes ≡ true) where
  abbrev seed : Dict ℕ
  seed = (g.start, 0) ∷ []

  lookup-seed : (v : String) (k : ℕ) → lookup v seed ≡ some k → (g.start ≡ v) × (k ≡ 0)
  unfolding lookup
  lookup-seed v k h = ground (arith, eq_iff g.start v)

  seed-Inv :
      Inv g.nodes g.start closed_edges (record { generations = seed; pending = g.start ∷ [] })
  unfolding lookup member
  seed-Inv = record {
    lo = 0;
    rooted = simp eq_refl;
    known = λ v k h.
        let (e, _) = lookup-seed v k h in subst (λ w. contains w g.nodes ≡ true) e is_start;
    sound = λ v k h.
        let (e, z) = lookup-seed v k h in rw z (subst (λ w. Walk g.nodes g.start w 0) e here);
    closed = λ u v k h edge. inl (ground (arith, lookup-seed u k h, eq_iff g.start u));
    queue = (0, simp eq_refl, omega arith, tt);
    bounded = λ v k h. omega (arith, lookup-seed v k h);
  }

  enough : unseen (keys g.nodes) seed + 1 ≤ length g.nodes
  unfolding insert lookup
  enough = omega (
    arith,
    unseen-insert (keys g.nodes) [] g.start 0 (rw (← contains-member g.start g.nodes) is_start)
        refl,
    unseen-nil (keys g.nodes),
    length-map (λ (e : String × Node). e.0) g.nodes,
  )

  complete :
      (gens : Dict ℕ)
      → Inv g.nodes g.start closed_edges (record { generations = gens; pending = [] })
      → {v : String} {n : ℕ} → Walk g.nodes g.start v n
      → (j : ℕ) × (lookup v gens ≡ some j) × (j ≤ n)
  unfolding member
  complete gens inv here = (0, inv.rooted, omega arith)
  complete gens inv (step {u} {v} w edge) =
      let (j, at, le) = complete gens inv w in
      elim (inv.closed u v j at edge) [
        | inl waiting ↦ cc
        | inr (i, found, le') ↦ (i, found, omega arith)
      ]

  distance :
      (gens : Dict ℕ) (v : String) (k : ℕ)
      → Inv g.nodes g.start closed_edges (record { generations = gens; pending = [] })
      → (lookup v gens ≡ some k) ↔ IsDistance g.nodes g.start v k
  distance gens v k inv = (
    λ h. record {
      walk = inv.sound v k h;
      least = λ n w. let (j, at, le) = complete gens inv w in let e : k ≡ j = cc in omega arith;
    },
    λ dist.
        let (j, at, le) = complete gens inv dist.walk in
        let back = dist.least j (inv.sound v j at) in let e : k ≡ j = omega arith in rw e at,
  )

  pub generations_of_lem :
      (gens : Dict ℕ) × (generations_of g ≡ ok gens)
      × ((v : String) (k : ℕ) → (lookup v gens ≡ some k) ↔ IsDistance g.nodes g.start v k)
      × ((v : String) (n : ℕ) → Walk g.nodes g.start v n → contains v gens ≡ true)
  unfolding generations_of
  generations_of_lem =
      let (gens, ends, inv) =
        search_loop_lem g.nodes g.start closed_edges (length g.nodes) seed (g.start ∷ []) seed-Inv
          enough in
      (
        gens,
        ends,
        λ v k. distance gens v k inv,
        λ v n w. let (j, at, _) = complete gens inv w in rw at,
      )

  -- In a graph whose start is a node and whose edges lead to nodes, the breadth-first search
  -- returns, with no failing lookup, and gives a name the depth k exactly when k is the length of
  -- a shortest walk from the start to it.
  pub generations_of-IsDistance :
      (gens : Dict ℕ) × (generations_of g ≡ ok gens)
      × ((v : String) (k : ℕ) → (lookup v gens ≡ some k) ↔ IsDistance g.nodes g.start v k)
  generations_of-IsDistance = let (gens, ends, exact, _) = generations_of_lem in (gens, ends, exact)

-- ===== src/Graph/Validate/Loop.antt =====
-- The outer loop of `_generations` (athanore/graph/validate.py): its invariant, and its end.
use athanore.Prelude.{
  ℕ, zero, suc, ◌+◌, ◌≤◌, ◌≡◌, refl, ◌⊎◌, inl, inr, String, true, none, some, List, [], ◌∷◌, ◌++◌,
  Memᴰ, length, length-append, member, member_iff, arith, eq_iff, if◌then◌else◌, ◌==◌, Bool-cases,
  Option-cases,
}
use athanore.Prelude.Dict.{Dict, lookup, insert, contains, keys, lookup-insert, contains-member}
use athanore.Graph.{ok, Node}
use athanore.Graph.Walk.{Edge, Walk, step}
use athanore.Graph.Validate.{Search, scan_edges, expand, search_loop}
use athanore.Graph.Validate.Scan.{
  lookup-scan_edges, member-scan_edges, scan_edges_cases, Ascending, Below, scan_edges-Ascending,
}

-- The names without a depth.
abbrev pub unseen : List String → Dict ℕ → ℕ
unseen [] gens = 0
unseen (k ∷ ks) gens = (if contains k gens then 0 else 1) + unseen ks gens

unseen-insert_le :
    (ks : List String) (gens : Dict ℕ) (e : String) (d : ℕ)
    → unseen ks (insert e d gens) ≤ unseen ks gens
unseen-insert_le [] gens e d = omega arith
unseen-insert_le (k ∷ ks) gens e d =
    ground (arith, unseen-insert_le ks gens e d, lookup-insert e k d gens)

pub unseen-insert :
    (ks : List String) (gens : Dict ℕ) (e : String) (d : ℕ)
    → member e ks ≡ true
    → lookup e gens ≡ none
    → suc (unseen ks (insert e d gens)) ≤ unseen ks gens
unfolding member
unseen-insert [] gens e d m absent = cc
unseen-insert (k ∷ ks) gens e d m absent = ground (
  arith,
  unseen-insert ks gens e d,
  unseen-insert_le ks gens e d,
  lookup-insert e k d gens,
  eq_iff k e,
  eq_iff e k,
)

-- A queued name is a name that had no depth.
unseen-scan_edges :
    (ks : List String) (d : ℕ) (es : List String) (s : Search)
    → ((e : String) → Memᴰ e es → member e ks ≡ true)
    → let t = scan_edges d es s in
      unseen ks t.generations + length t.pending ≤ unseen ks s.generations + length s.pending
unfolding scan_edges
unseen-scan_edges ks d [] s closed = omega arith
unseen-scan_edges ks d (e ∷ es) s closed = elim (Option-cases (lookup e s.generations)) [
  | inl absent ↦
      rw (absent, scan_edges)
        (omega (
          arith,
          unseen-scan_edges ks d es
              (record {
                generations = insert e (d + 1) s.generations;
                pending = s.pending ++ e ∷ [];
              })
              (λ x m. closed x (Memᴰ.tail m)),
          unseen-insert ks s.generations e (d + 1) (closed e (Memᴰ.head refl)) absent,
          length-append s.pending (e ∷ []),
        ))
  | inr (k, found) ↦
      rw (found, scan_edges) (unseen-scan_edges ks d es s (λ x m. closed x (Memᴰ.tail m)))
]

some_of_contains :
    (k : String) (nodes : Dict Node)
    → contains k nodes ≡ true
    → (n : Node) × (lookup k nodes ≡ some n)
some_of_contains k nodes h = ground arith

module _ (nodes : Dict Node) (start : String)
    (closed_edges : (u v : String) → Edge nodes u v → contains v nodes ≡ true) where
  pub record Inv (s : Search) : Type 0 where
    pub lo : ℕ
    pub rooted : lookup start s.generations ≡ some 0
    pub known : (v : String) (k : ℕ) → lookup v s.generations ≡ some k → contains v nodes ≡ true
    pub sound : (v : String) (k : ℕ) → lookup v s.generations ≡ some k → Walk nodes start v k
    pub closed :
        (u v : String) (k : ℕ)
        → lookup u s.generations ≡ some k
        → Edge nodes u v
        → (member u s.pending ≡ true) ⊎ ((j : ℕ) × (lookup v s.generations ≡ some j) × (j ≤ k + 1))
    pub queue : Ascending s.generations lo s.pending
    pub bounded : Below s.generations (lo + 1)

  module _ (s : Search) (u : String) (rest : List String) (node : Node) (d : ℕ)
      (front : s.pending ≡ u ∷ rest) (is_node : lookup u nodes ≡ some node)
      (depth : lookup u s.generations ≡ some d) (tail : Ascending s.generations d rest) (v : Inv s)
      (deeper : v.lo ≤ d) where
    abbrev popped : Search
    popped = record { generations = s.generations; pending = rest }

    abbrev after : Search
    after = scan_edges d node.edges popped

    after_known :
        (w : String) (k : ℕ) → lookup w after.generations ≡ some k → contains w nodes ≡ true
    after_known w k h = ground (
      arith,
      lookup-scan_edges d node.edges popped w,
      v.known w k,
      λ (m : Memᴰ w node.edges). closed_edges u w (node, is_node, m),
      member_iff w node.edges,
    )

    after_sound : (w : String) (k : ℕ) → lookup w after.generations ≡ some k → Walk nodes start w k
    after_sound w k h = elim (scan_edges_cases d node.edges popped w k h) [
      | inl old ↦ v.sound w k old
      | inr (absent, m, e) ↦ rw e (step (v.sound u d depth) (node, is_node, m))
    ]

    after_target :
        (w : String)
        → Memᴰ w node.edges
        → (j : ℕ) × (lookup w after.generations ≡ some j) × (j ≤ d + 1)
    after_target w m = elim (Option-cases (lookup w s.generations)) [
      | inl absent ↦ (
        d + 1,
        ground (arith, lookup-scan_edges d node.edges popped w, member_iff w node.edges),
        omega arith,
      )
      | inr (j, found) ↦ (
        j,
        ground (arith, lookup-scan_edges d node.edges popped w),
        omega (arith, v.bounded w j found),
      )
    ]

    after_waiting :
        (x y : String) (k : ℕ)
        → lookup x s.generations ≡ some k
        → Edge nodes x y
        → member x (u ∷ rest) ≡ true
        → (member x after.pending ≡ true)
          ⊎ ((j : ℕ) × (lookup y after.generations ≡ some j) × (j ≤ k + 1))
    unfolding member
    after_waiting x y k old (n, at, m) waiting = elim (Bool-cases (u == x)) [
      | inl same ↦
          let e : u ≡ x = (eq_iff u x).0 same in
          let same_node : n ≡ node = cc in
          let same_depth : k ≡ d = cc in
          let (j, found, le) = after_target y (rw (← same_node) m) in inr (j, found, omega arith)
      | inr other ↦ inl (ground (arith, member-scan_edges d node.edges popped x))
    ]

    after_closed :
        (x y : String) (k : ℕ)
        → lookup x after.generations ≡ some k
        → Edge nodes x y
        → (member x after.pending ≡ true)
          ⊎ ((j : ℕ) × (lookup y after.generations ≡ some j) × (j ≤ k + 1))
    after_closed x y k h edge = elim (scan_edges_cases d node.edges popped x k h) [
      | inl old ↦ elim (v.closed x y k old edge) [
        | inl waiting ↦ after_waiting x y k old edge (rw (← front) waiting)
        | inr (j, at, le) ↦ inr (j, ground (arith, lookup-scan_edges d node.edges popped y), le)
      ]
      | inr (absent, m, e) ↦
          inl (ground (arith, member-scan_edges d node.edges popped x, member_iff x node.edges))
    ]

    after-Inv : Inv after
    after-Inv =
        let (below, asc) =
          scan_edges-Ascending d node.edges popped (λ w k h. omega (arith, v.bounded w k h)) tail in
        record {
          lo = d;
          rooted = ground (arith, v.rooted, lookup-scan_edges d node.edges popped start);
          known = after_known;
          sound = after_sound;
          closed = after_closed;
          queue = asc;
          bounded = below;
        }

  -- Enough rounds are given, so the loop returns, and no lookup of it fails.
  pub search_loop_lem :
      (f : ℕ) (gens : Dict ℕ) (pending : List String)
      → Inv (record { generations = gens; pending = pending })
      → unseen (keys nodes) gens + length pending ≤ f
      → (final : Dict ℕ) × (search_loop nodes f (record { generations = gens; pending = pending })
          ≡ ok final)
        × Inv (record { generations = final; pending = [] })
  unfolding search_loop expand
  search_loop_lem zero gens [] v h = (gens, refl, v)
  search_loop_lem zero gens (u ∷ rest) v h = absurd (omega arith)
  search_loop_lem (suc f) gens [] v h = (gens, refl, v)
  search_loop_lem (suc f) gens (u ∷ rest) v h =
      let s : Search = record { generations = gens; pending = u ∷ rest } in
      let (d, depth, le, tail) = v.queue in
      let (node, is_node) = some_of_contains u nodes (v.known u d depth) in
      let t = after s u rest node d refl is_node depth tail v le in
      let inv = after-Inv s u rest node d refl is_node depth tail v le in
      let fewer =
        unseen-scan_edges (keys nodes) d node.edges (record { generations = gens; pending = rest })
          (λ e m. rw (← contains-member e nodes) (closed_edges u e (node, is_node, m))) in
      let (final, ends, last) =
        search_loop_lem f t.generations t.pending inv (omega (arith, fewer)) in
      (final, rw is_node (rw depth ends), last)

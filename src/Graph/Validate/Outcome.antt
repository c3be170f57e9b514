-- ===== src/Graph/Validate/Outcome.antt =====
-- What `finalize` (athanore/graph/validate.py) is specified by, and its run, step by step.
use athanore.Prelude.{
  ℕ, ◌≡◌, refl, ◌⊎◌, inl, inr, String, Bool, true, false, none, some, List, [], ◌∷◌, length, All,
  All-Memᴰ, All-of_Memᴰ, member_iff, arith, Bool-cases,
}
use athanore.Prelude.Dict.{
  Dict, lookup, contains, keys, values, contains-member, mem-values_of_lookup,
}
use athanore.Graph.{
  Error, start_count, bad_name, unreachable, key, fuel, Result, ok, raised, Result-cases, ◌>>=◌,
  ◌>>◌, Node, Graph,
}
use athanore.Graph.Walk.{Edge, Walk, IsDistance}
use athanore.Graph.Builder.{GraphBuilder, starts, build}
use athanore.Graph.Builder.Built.{WellNamed, OnlyStart, starts_iff, lookup_of_mem-values}
use athanore.Graph.Validate.{
  matches_name, check_edges_of, check_edges, check_joins, generations_of, finish, finalize,
}
use athanore.Graph.Validate.Checks.{EdgesExist, Receives, check_edges_iff, check_joins_iff}
use athanore.Graph.Validate.Distance.{generations_of_lem}
use athanore.Graph.Validate.Finish.{Reached, finish_cases}

-- What a workflow has to be: each field is one of the rules that `finalize` documents.
pub record IsValid (b : GraphBuilder) (s : String) : Type 0 where
  pub named : matches_name b.name ≡ true
  pub one_start : OnlyStart b.nodes s
  pub edges : (u v : String) → Edge b.nodes u v → contains v b.nodes ≡ true
  pub joins : (k : String) (n : Node) → lookup k b.nodes ≡ some n → Receives n
  pub reached : (k : String) → contains k b.nodes ≡ true → (d : ℕ) × Walk b.nodes s k d

-- What the frozen graph is, node by node.
pub record IsFinal (b : GraphBuilder) (g : Graph) : Type 0 where
  pub same_name : g.name ≡ b.name
  pub valid : IsValid b g.start
  pub filled :
      (k : String) (n : Node)
      → lookup k b.nodes ≡ some n
      → (d : ℕ) × (lookup k g.nodes ≡ some (record n { generation = d }))
        × IsDistance b.nodes g.start k d
  pub absent : (k : String) → lookup k b.nodes ≡ none → lookup k g.nodes ≡ none

abbrev pub is_graph_error : Error → Bool
is_graph_error (key k) = false
is_graph_error fuel = false
is_graph_error _ = true

abbrev pub Outcome : GraphBuilder → Result Graph → Type 0
Outcome b r =
    ((g : Graph) × (r ≡ ok g) × IsFinal b g)
    ⊎ ((e : Error) × (r ≡ raised e) × (is_graph_error e ≡ true) × ((s : String) → ¬ IsValid b s))

pub check_edges_of_err :
    (nodes : Dict Node) (name : String) (es : List String) (e : Error)
    → check_edges_of nodes name es ≡ raised e
    → is_graph_error e ≡ true
unfolding check_edges_of
check_edges_of_err nodes name [] e h = cc
check_edges_of_err nodes name (x ∷ es) e h = ground (arith, check_edges_of_err nodes name es e)

check_edges_err :
    (nodes : Dict Node) (ns : List Node) (e : Error)
    → check_edges nodes ns ≡ raised e
    → is_graph_error e ≡ true
unfolding check_edges
check_edges_err nodes [] e h = cc
check_edges_err nodes (n ∷ ns) e h =
    ground (arith, check_edges_err nodes ns e, check_edges_of_err nodes n.name n.edges e)

check_joins_err : (ns : List Node) (e : Error) → check_joins ns ≡ raised e → is_graph_error e ≡ true
unfolding check_joins
check_joins_err [] e h = cc
check_joins_err (n ∷ ns) e h = ground (arith, check_joins_err ns e)

module _ (b : GraphBuilder) (w : WellNamed b.nodes) where
  -- The rules by lookups, and by the values that the checks walk.
  edges_to_values :
      ((u v : String) → Edge b.nodes u v → contains v b.nodes ≡ true)
      → All (EdgesExist b.nodes) (values b.nodes)
  edges_to_values h = All-of_Memᴰ (EdgesExist b.nodes) (values b.nodes) λ n m.
      All-of_Memᴰ (λ e. contains e b.nodes ≡ true) n.edges
        λ e at. h n.name e (n, lookup_of_mem-values b.nodes n w m, at)

  edges_of_values :
      All (EdgesExist b.nodes) (values b.nodes)
      → (u v : String) → Edge b.nodes u v
      → contains v b.nodes ≡ true
  edges_of_values h u v (n, at, m) =
      All-Memᴰ (λ e. contains e b.nodes ≡ true) n.edges
        (All-Memᴰ (EdgesExist b.nodes) (values b.nodes) h n (mem-values_of_lookup u b.nodes n at)) v
        m

  joins_to_values :
      ((k : String) (n : Node) → lookup k b.nodes ≡ some n → Receives n)
      → All Receives (values b.nodes)
  joins_to_values h =
      All-of_Memᴰ Receives (values b.nodes) λ n m. h n.name n (lookup_of_mem-values b.nodes n w m)

  joins_of_values :
      All Receives (values b.nodes)
      → (k : String) (n : Node) → lookup k b.nodes ≡ some n
      → Receives n
  joins_of_values h k n at =
      All-Memᴰ Receives (values b.nodes) h n (mem-values_of_lookup k b.nodes n at)

  depth_of :
      (gens : Dict ℕ)
      → Reached gens (keys b.nodes)
      → (k : String) → contains k b.nodes ≡ true
      → (d : ℕ) × (lookup k gens ≡ some d)
  depth_of gens reached k there =
      let m = (member_iff k (keys b.nodes)).0 (rw (← contains-member k b.nodes) there) in
      let seen = All-Memᴰ (λ j. contains j gens ≡ true) (keys b.nodes) reached k m in ground arith

  Reached-of_contains :
      (gens : Dict ℕ)
      → ((k : String) → contains k b.nodes ≡ true → contains k gens ≡ true)
      → Reached gens (keys b.nodes)
  Reached-of_contains gens h =
      All-of_Memᴰ (λ j. contains j gens ≡ true) (keys b.nodes)
        λ k m. h k (rw (contains-member k b.nodes) ((member_iff k (keys b.nodes)).1 m))

  same_start : {s t : String} → OnlyStart b.nodes s → OnlyStart b.nodes t → t ≡ s
  same_start {s} {t} p q =
      let e = (starts_iff b.nodes s w).1 p in let f = (starts_iff b.nodes t w).1 q in cc

  after_checks :
      (s : String)
      → OnlyStart b.nodes s
      → matches_name b.name ≡ true
      → ((u v : String) → Edge b.nodes u v → contains v b.nodes ≡ true)
      → ((k : String) (n : Node) → lookup k b.nodes ≡ some n → Receives n)
      → let g : Graph = record { name = b.name; nodes = b.nodes; start = s } in
        Outcome b (generations_of g >>= finish g)
  after_checks s only named edges joins =
      let g : Graph = record { name = b.name; nodes = b.nodes; start = s } in
      let (gens, ends, exact, walked) = generations_of_lem g only.there edges in
      rw ends (elim (finish_cases g gens) [
        | inl (filled, e, reached, at) ↦ inl (
          record g { nodes = filled },
          e,
          record {
            same_name = refl;
            valid = record {
              named = named;
              one_start = only;
              edges = edges;
              joins = joins;
              reached = λ k there.
                  let (d, found) = depth_of gens reached k there in (d, ((exact k d).0 found).walk);
            };
            filled = λ k n found.
                let (d, depth) = depth_of gens reached k (rw found) in
                (d, ground (arith, at k), (exact k d).0 depth);
            absent = λ k none. ground (arith, at k);
          },
        )
        | inr (missing, e, unreached) ↦ inr (
          unreachable b.name missing,
          e,
          refl,
          λ t v. unreached (
              Reached-of_contains gens λ k there.
                let (d, walk) = v.reached k there in
                walked k d (rw (same_start only v.one_start) at walk)),
        )
      ])

  after_build :
      (s : String)
      → OnlyStart b.nodes s
      → matches_name b.name ≡ true
      → let g : Graph = record { name = b.name; nodes = b.nodes; start = s } in
        Outcome b (do
          check_edges b.nodes (values b.nodes)
          check_joins (values b.nodes)
          generations_of g >>= finish g)
  after_build s only named = elim (Result-cases (check_edges b.nodes (values b.nodes))) [
    | inr (e, refused) ↦ rw refused (
        inr (
          e,
          refl,
          check_edges_err b.nodes (values b.nodes) e refused,
          λ t v.
              let passes = (check_edges_iff b.nodes (values b.nodes)).1 (edges_to_values v.edges) in
              cc,
        ))
    | inl (_, passed) ↦ elim (Result-cases (check_joins (values b.nodes))) [
      | inr (e, refused) ↦
          rw (passed, refused)
            (inr (
              e,
              refl,
              check_joins_err (values b.nodes) e refused,
              λ t v.
                  let passes = (check_joins_iff (values b.nodes)).1 (joins_to_values v.joins) in cc,
            ))
      | inl (_, passed') ↦
          rw (passed, passed')
            (after_checks s only named
              (edges_of_values ((check_edges_iff b.nodes (values b.nodes)).0 passed))
              (joins_of_values ((check_joins_iff (values b.nodes)).0 passed')))
    ]
  ]

  abbrev BuildOutcome : Type 0
  BuildOutcome =
      ((s : String) × (build b ≡ ok (record { name = b.name; nodes = b.nodes; start = s }))
        × OnlyStart b.nodes s)
      ⊎ ((n : ℕ) × (build b ≡ raised (start_count b.name n))
          × ((s : String) → ¬ OnlyStart b.nodes s))

  build_cases : (names : List String) → starts b.nodes ≡ names → BuildOutcome
  unfolding build
  build_cases [] e = inr (0, rw e, λ s o. let f = (starts_iff b.nodes s w).1 o in cc)
  build_cases (s ∷ []) e = inl (s, rw e, (starts_iff b.nodes s w).0 e)
  build_cases (s ∷ t ∷ rest) e =
      inr (length (s ∷ t ∷ rest), rw e, λ s o. let f = (starts_iff b.nodes s w).1 o in cc)

  pub finalize-Outcome : Outcome b (finalize b)
  unfolding finalize
  finalize-Outcome = elim (Bool-cases (matches_name b.name)) [
    | inr bad ↦ rw bad (inr (bad_name b.name, refl, refl, λ s v. let good = v.named in cc))
    | inl named ↦ elim (build_cases (starts b.nodes) refl) [
      | inr (n, e, several) ↦
          rw (named, e) (inr (start_count b.name n, refl, refl, λ s v. several s v.one_start))
      | inl (s, e, only) ↦ rw (named, e) (after_build s only named)
    ]
  ]

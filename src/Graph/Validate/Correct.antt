-- ===== src/Graph/Validate/Correct.antt =====
-- `finalize` (athanore/graph/validate.py) accepts exactly the valid builders, raises nothing but a
-- `GraphError`, and fills in the distances.
use athanore.Prelude.{◌≡◌, subst, inl, inr, ◌↔◌, String, true, arith}
use athanore.Graph.{Error, ok, raised, Graph}
use athanore.Graph.Builder.{GraphBuilder}
use athanore.Graph.Builder.Built.{Built, Built-WellNamed}
use athanore.Graph.Validate.{finalize}
use athanore.Graph.Validate.Outcome.{IsValid, IsFinal, is_graph_error, finalize-Outcome}

-- For a builder that the decorator left, `finalize` returns a graph exactly when the workflow is
-- valid: its name matches, one node is the start, every edge names a node, every join has a
-- payload slot, and every node is reached from the start.
pub finalize_accepts :
    {name : String} (b : GraphBuilder)
    → Built name b
    → ((g : Graph) × (finalize b ≡ ok g)) ↔ ((s : String) × IsValid b s)
finalize_accepts b built = (
  λ (g, e). elim (finalize-Outcome b (Built-WellNamed built)) [
    | inl (h, _, final) ↦ (h.start, final.valid)
    | inr (x, e', _, _) ↦ absurd (ground arith)
  ],
  λ (s, v). elim (finalize-Outcome b (Built-WellNamed built)) [
    | inl (g, e, _) ↦ (g, e)
    | inr (x, _, _, invalid) ↦ absurd (invalid s v)
  ],
)

-- The graph that `finalize` returns has the builder's name and nodes, each node unchanged but for
-- its generation, which is the length of a shortest walk to it from the start.
pub finalize-IsFinal :
    {name : String} (b : GraphBuilder) (g : Graph) → Built name b → finalize b ≡ ok g → IsFinal b g
finalize-IsFinal b g built e = elim (finalize-Outcome b (Built-WellNamed built)) [
  | inl (h, e', final) ↦ let same : h ≡ g = cc in subst (IsFinal b) same final
  | inr (x, e', _, _) ↦ absurd (ground arith)
]

-- What `finalize` raises is a `GraphError`: its search ends in the rounds given to it, and no
-- lookup of it raises a `KeyError`.
pub finalize_raises :
    {name : String} (b : GraphBuilder) (e : Error)
    → Built name b
    → finalize b ≡ raised e
    → is_graph_error e ≡ true
finalize_raises b e built h = elim (finalize-Outcome b (Built-WellNamed built)) [
  | inl (g, h', _) ↦ absurd (ground arith)
  | inr (x, h', known, _) ↦ let same : x ≡ e = cc in rw (← same) known
]

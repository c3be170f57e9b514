-- ===== src/Graph/Validate.antt =====
-- athanore/graph/validate.py: `finalize` and its checks.
pub mod Scan
pub mod Loop
pub mod Distance
pub mod Checks
pub mod Finish
pub mod Outcome
pub mod Correct
use Prim.Native.Char.{code}
use Prim.Native.String.{compare}
use text.Mathlib.Text.{is_le}
use athanore.Prelude.{
  ℕ, zero, suc, ◌+◌, String, Bool, true, false, not, ◌&&◌, ◌||◌, Option, none, some, List, [], ◌∷◌,
  ◌++◌, filter, length, leb, eqb, is_some, if◌then◌else◌,
}
use athanore.Prelude.Dict.{Dict, lookup, insert, contains, keys, values}
use athanore.Graph.{
  bad_name, unknown_edge, join_without_payload, unreachable, key, fuel, Result, ok, raised, ◌>>=◌,
  ◌>>◌, Node, Graph,
}
use athanore.Graph.Builder.{GraphBuilder, build}

-- [a-z]
abbrev pub is_lower : ℕ → Bool
is_lower c = leb b'a' c && leb c b'z'

-- [a-z0-9_]
abbrev pub is_word : ℕ → Bool
is_word c = is_lower c || leb b'0' c && leb c b'9' || eqb c b'_'

unfoldable pub all_word : String → Bool
all_word String.[] = true
all_word (String.◌∷◌ c s) = is_word (code c) && all_word s

-- NAME_RE.fullmatch
unfoldable pub matches_name : String → Bool
unfolding all_word
matches_name String.[] = false
matches_name (String.◌∷◌ c s) = is_lower (code c) && all_word s

pub check_edges_of : Dict Node → String → List String → Result (Unit {0})
check_edges_of nodes name [] = ok tt
check_edges_of nodes name (e ∷ es) =
    if contains e nodes then check_edges_of nodes name es else raised (unknown_edge name e)

unfoldable pub check_edges : Dict Node → List Node → Result (Unit {0})
unfolding check_edges_of
check_edges nodes [] = ok tt
check_edges nodes (n ∷ ns) = do check_edges_of nodes n.name n.edges; check_edges nodes ns

unfoldable pub check_joins : List Node → Result (Unit {0})
check_joins [] = ok tt
check_joins (n ∷ ns) =
    if n.join && not (is_some n.payload_param)
    then raised (join_without_payload n.name)
    else check_joins ns

-- The two variables of `_generations`: `pending` is the part of `queue` that the `for` loop has
-- not reached.
pub record Search : Type 0 where
  pub generations : Dict ℕ
  pub pending : List String

-- The inner loop, at a node of depth `d`. It writes only absent keys, so `generations[name]` is
-- `d` throughout.
pub scan_edges : ℕ → List String → Search → Search
scan_edges d [] s = s
scan_edges d (e ∷ es) s = scan_edges d es (
    if contains e s.generations
    then s
    else record { generations = insert e (d + 1) s.generations; pending = s.pending ++ e ∷ [] })

abbrev or_key {ℓ} : {A : Type ℓ} → String → Option A → Result A
or_key k none = raised (key k)
or_key k (some a) = ok a

-- One round of the outer loop.
pub expand : Dict Node → Search → String → List String → Result Search
expand nodes s name rest = do
  node ← or_key name (lookup name nodes)
  d ← or_key name (lookup name s.generations)
  ok (scan_edges d node.edges (record s { pending = rest }))

pub search_loop : Dict Node → ℕ → Search → Result (Dict ℕ)
search_loop nodes zero s = elim s.pending [ [] ↦ ok s.generations | _ ∷ _ ↦ raised fuel ]
search_loop nodes (suc f) s = elim s.pending [
  | [] ↦ ok s.generations
  | name ∷ rest ↦ expand nodes s name rest >>= search_loop nodes f
]

-- Each round takes a node off the queue and a node is queued once, so as many rounds as there are
-- nodes are enough.
unfoldable pub generations_of : Graph → Result (Dict ℕ)
unfolding search_loop expand scan_edges
generations_of g =
    search_loop g.nodes (length g.nodes)
      (record { generations = (g.start, 0) ∷ []; pending = g.start ∷ [] })

-- Python's `sorted` on texts, by code points.
pub insert_sorted : String → List String → List String
insert_sorted a [] = a ∷ []
insert_sorted a (b ∷ bs) = if is_le (compare a b) then a ∷ b ∷ bs else b ∷ insert_sorted a bs

pub sorted : List String → List String
unfolding insert_sorted
sorted [] = []
sorted (a ∷ rest) = insert_sorted a (sorted rest)

-- {name: replace(node, generation=generations[name]) for …}
pub fill : Dict ℕ → Dict Node → Result (Dict Node)
fill gens [] = ok []
fill gens ((name, node) ∷ rest) = do
  d ← or_key name (lookup name gens)
  filled ← fill gens rest
  ok ((name, record node { generation = d }) ∷ filled)

-- The last step of `finalize`: the check that every node was reached, and the filled graph.
unfoldable pub finish : Graph → Dict ℕ → Result Graph
unfolding fill sorted
finish g gens = elim (sorted (filter (λ k. not (contains k gens)) (keys g.nodes))) [
  | [] ↦ fill gens g.nodes >>= λ nodes. ok (record g { nodes = nodes })
  | missing ↦ raised (unreachable g.name missing)
]

unfoldable pub finalize : GraphBuilder → Result Graph
finalize b = if not (matches_name b.name) then raised (bad_name b.name) else do
  g ← build b
  check_edges g.nodes (values g.nodes)
  check_joins (values g.nodes)
  gens ← generations_of g
  finish g gens

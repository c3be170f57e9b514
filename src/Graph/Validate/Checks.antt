-- ===== src/Graph/Validate/Checks.antt =====
-- The two checks of athanore/graph/validate.py decide what they are named after.
use athanore.Prelude.{◌≡◌, ◌⊎◌, ◌↔◌, String, true, false, some, List, [], ◌∷◌, All, arith}
use athanore.Prelude.Dict.{Dict, contains}
use athanore.Graph.{ok, Node}
use athanore.Graph.Validate.{check_edges_of, check_edges, check_joins}

abbrev pub EdgesExist : Dict Node → Node → Type 0
EdgesExist nodes n = All (λ e. contains e nodes ≡ true) n.edges

abbrev pub Receives : Node → Type 0
Receives n = (n.join ≡ false) ⊎ ((p : String) × (n.payload_param ≡ some p))

check_edges_of_iff :
    (nodes : Dict Node) (name : String) (es : List String)
    → (check_edges_of nodes name es ≡ ok tt) ↔ All (λ e. contains e nodes ≡ true) es
unfolding check_edges_of
check_edges_of_iff nodes name [] = ground arith
check_edges_of_iff nodes name (e ∷ es) = ground (arith, check_edges_of_iff nodes name es)

pub check_edges_iff :
    (nodes : Dict Node) (ns : List Node)
    → (check_edges nodes ns ≡ ok tt) ↔ All (EdgesExist nodes) ns
unfolding check_edges
check_edges_iff nodes [] = ground arith
check_edges_iff nodes (n ∷ ns) =
    ground (arith, check_edges_iff nodes ns, check_edges_of_iff nodes n.name n.edges)

pub check_joins_iff : (ns : List Node) → (check_joins ns ≡ ok tt) ↔ All Receives ns
unfolding check_joins
check_joins_iff [] = ground arith
check_joins_iff (n ∷ ns) = ground (arith, check_joins_iff ns)

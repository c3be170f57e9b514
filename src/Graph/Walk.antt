-- ===== src/Graph/Walk.antt =====
-- The walks of a workflow graph, said without any search: the specification of the generations
-- that athanore/graph/validate.py computes.
use athanore.Prelude.{ℕ, zero, suc, ◌≤◌, ◌≡◌, String, some, Memᴰ}
use athanore.Prelude.Dict.{Dict, lookup}
use athanore.Graph.{Node}

-- The node `u` is there and declares the edge `v`.
abbrev pub Edge : Dict Node → String → String → Type 0
Edge nodes u v = (n : Node) × (lookup u nodes ≡ some n) × Memᴰ v n.edges

-- `v` is reached from `start` in so many steps.
pub data Walk (nodes : Dict Node) (start : String) : String → ℕ → Type 0 where
  here : Walk nodes start start zero
  step : {u v : String} {d : ℕ} → Walk nodes start u d → Edge nodes u v → Walk nodes start v (suc d)

-- The length of a shortest walk.
pub record IsDistance (nodes : Dict Node) (start v : String) (k : ℕ) : Type 0 where
  pub walk : Walk nodes start v k
  pub least : (n : ℕ) → Walk nodes start v n → k ≤ n

-- ===== src/System/Examples.antt =====
-- A run that is submitted and claimed.
use athanore.Prelude.{ℕ, ◌≡◌, refl, String, true, [], ◌∷◌, length, member}
use athanore.Prelude.Int.{pos}
use athanore.Prelude.Dict.{Dict, lookup}
use athanore.Graph.{Graph}
use athanore.Store.{sqlite, Db, empty_db}
use athanore.Store.Runs.{get_run}
use athanore.Store.Claim.{claim_ready, dispatch_order, claim_each, start_runs, announce}
use athanore.Ops.{Reply, find_graph, clean_title, start_node}
use athanore.Ops.Strip.{strip, strip_left, strip_right}
use athanore.Ops.RunOps.{submit, submitted}
use athanore.Ops.Commands.{submitting, perform}
use athanore.Ops.Machine.{RunMoves}
use athanore.Runner.FiresOnce.{FiresOnce}
use athanore.Runner.Outcome.{returned, end_attempt}
use athanore.Runner.Examples.{split, pipeline, before, task_row, both, describe}
use athanore.System.{ended, claimed, operated, Reachable, started, stepped}
use athanore.System.Invariants.{Step-RunMoves, IsStamped, Reachable-IsStamped, Reachable-FiresOnce}

abbrev graphs : Dict Graph
graphs = ("pipeline", pipeline) ∷ []

abbrev reply : Reply (Unit {0})
reply = record {
  value = tt;
  db = (submitted empty_db "r1" "pipeline" "Report" "" split 5).db;
  cancels = [];
  wakes = true;
}

abbrev mint : ℕ → String
mint i = "token"

abbrev hash : String → String
hash token = token

abbrev claimed_db : Db
claimed_db = (claim_ready mint hash reply.db 1 ("pipeline" ∷ []) 6).0

claimed_one : length (claim_ready mint hash reply.db 1 ("pipeline" ∷ []) 6).1 ≡ 1
unfolding claim_ready dispatch_order claim_each start_runs announce member submitted
claimed_one = refl

reached : Reachable graphs claimed_db
unfolding perform submit find_graph lookup clean_title strip strip_left strip_right start_node
    submitted
reached =
    stepped
      (stepped (started sqlite) (operated (submitting "r1" "pipeline" " Report" "") 5 reply refl))
      (claimed mint hash 1 ("pipeline" ∷ []) 6)

Step-RunMoves_example :
    RunMoves before.runs
      (end_attempt describe pipeline (pos 3) before task_row (returned both) 9).runs
Step-RunMoves_example =
    Step-RunMoves graphs before
      (end_attempt describe pipeline (pos 3) before task_row (returned both) 9)
      (ended describe pipeline (pos 3) task_row (returned both) 9)

Reachable-IsStamped_example : IsStamped (get_run claimed_db "r1")
Reachable-IsStamped_example = Reachable-IsStamped graphs claimed_db reached "r1"

Reachable-FiresOnce_example : FiresOnce claimed_db.tasks
Reachable-FiresOnce_example = Reachable-FiresOnce graphs claimed_db reached

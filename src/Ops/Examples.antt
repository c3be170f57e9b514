-- ===== src/Ops/Examples.antt =====
-- The pipeline of two stages under the operator's hand.
use athanore.Prelude.{◌≡◌, refl, true, false, none, some, [], ◌∷◌, arith}
use athanore.Prelude.Dict.{Dict, lookup}
use athanore.Graph.{Graph}
use athanore.Json.{null, text}
use athanore.Store.{failed, by_join, by_rerun, Lineage, TaskRow, ArrivalRow, Db}
use athanore.Store.Runs.{get_run}
use athanore.Store.Tasks.{get_task, last_for_node, list_for_run}
use athanore.Ops.{
  answered, refused, no_arrivals, Reply, find_graph, find_node, read_run, read_task, next_attempt,
  cancel_tasks, clean_title,
}
use athanore.Ops.Strip.{strip, strip_left, strip_right}
use athanore.Ops.RunOps.{cancel, cancelled_run}
use athanore.Ops.TaskOps.{rerun, rerun_task, retry, retried_task, move, moved_task}
use athanore.Ops.Cancel.{Stops, cancel-Stops}
use athanore.Ops.Requeue.{Retries, retry-Retries, AllNamed, Moved, move-Moved, Reruns, rerun-Reruns}
use athanore.Ops.Again.{retry-rerun}
use athanore.Runner.Examples.{split, stage, pipeline, run_row, task_row, before}

abbrev graphs : Dict Graph
graphs = ("pipeline", pipeline) ∷ []

cancel-Stops_example : Stops before "r1" (cancelled_run before "r1" 9)
unfolding cancel read_run get_run
cancel-Stops_example = cancel-Stops before "r1" 9 (cancelled_run before "r1" 9) refl

stops_the_task : (cancelled_run before "r1" 9).cancels ≡ 1 ∷ []
unfolding cancelled_run cancel_tasks list_for_run
stops_the_task = refl

abbrev stuck : TaskRow
stuck = record task_row { status = failed }

abbrev with_stuck : Db
with_stuck = record before { tasks = stuck ∷ [] }

retry-Retries_example : Retries with_stuck 1 (retried_task with_stuck run_row stuck 9)
unfolding retry read_task read_run get_run get_task find_graph find_node lookup
retry-Retries_example =
    retry-Retries graphs with_stuck 1 9 (retried_task with_stuck run_row stuck 9) (omega arith, tt)
      refl

pipeline_named : AllNamed graphs
unfolding lookup
pipeline_named = ((refl, refl, (refl, refl, tt)), tt)

move-Moved_example : Moved before 1 "split" 9 (moved_task before run_row task_row split "split" 9)
unfolding move read_task read_run get_run get_task find_graph find_node lookup
move-Moved_example =
    move-Moved graphs before 1 "split" 9 (moved_task before run_row task_row split "split" 9)
      pipeline_named (omega arith, tt) refl

abbrev work : Lineage
work = record { from = some 1; reason = by_rerun; arrivals = none }

abbrev rerun_reply : Reply TaskRow
rerun_reply = rerun_task before run_row split "split" (some task_row) (null, work) 9

rerun-Reruns_example : Reruns before "r1" "split" rerun_reply
unfolding rerun read_run get_run find_graph find_node lookup last_for_node
rerun-Reruns_example = rerun-Reruns graphs before "r1" "split" 9 rerun_reply refl

second_attempt : rerun_reply.value.attempt ≡ 2
unfolding rerun_task next_attempt list_for_run
second_attempt = refl

-- The join has failed, after its fan-out, the task 1, had brought in a branch.
abbrev failed_join : TaskRow
failed_join = record task_row {
  id = 3;
  node = "merge";
  status = failed;
  lineage = some (record { from = some 1; reason = by_join; arrivals = some (2 ∷ []) });
}

abbrev branch_in : ArrivalRow
branch_in = record {
  run_id = "r1";
  join_node = "merge";
  fanout_task = 1;
  index = 0;
  key = null;
  value = text "a";
  from_task = some 2;
  late = false;
  created = 7;
}

abbrev joined : Db
joined = record before { tasks = failed_join ∷ []; next_task = 4; arrivals = branch_in ∷ [] }

retry-rerun_example :
    (reply : Reply TaskRow) × (retry graphs joined 3 9 ≡ answered reply)
    × (reply.db.arrivals ≡ joined.arrivals)
    × (rerun graphs reply.db "r1" "merge" 10 ≡ refused (no_arrivals "merge" "r1"))
unfolding read_task read_run get_run get_task find_graph find_node lookup
retry-rerun_example =
    retry-rerun graphs joined run_row failed_join pipeline (stage "merge" [] true 1) 9 10
      (omega arith, tt) refl refl refl refl refl refl refl

stripped : clean_title "\t Write the report \n" ≡ answered "Write the report"
unfolding clean_title strip strip_left strip_right
stripped = refl

-- ===== src/Runner/Examples.antt =====
-- A stage that splits its work in two and routes both branches into a join.
use athanore.Prelude.{
  ℕ, suc, ◌+◌, ◌≡◌, refl, ◌⊎◌, Option, String, Bool, true, false, none, some, List, [], ◌∷◌, length,
  member, arith,
}
use athanore.Prelude.Int.{pos, pos_part, ◌≤ℤ◌}
use athanore.Prelude.Dict.{lookup}
use athanore.Graph.{Error, Node, Graph}
use athanore.Json.{Value, null, text, transition, list, nil, cons, jsonable}
use athanore.Routing.{interpret, is_fan_out, explicit, check_targets}
use athanore.Store.{running, in_progress, failed, dead_letter, RunRow, TaskRow, Db, empty_db}
use athanore.Store.Tasks.{get_task, finish, enqueue, set_status}
use athanore.Store.Runs.{get_run, set_run_status}
use athanore.Store.Joins.{arrive}
use athanore.Runner.{send_all, send, record_arrival, note_arrival, fire_join}
use athanore.Runner.Outcome.{
  Raised, other_exception, is_retryable, retry_budget, is_running_run, record_success, settle_run,
  retry_task, dead_letter_task, record_failure, returned, end_attempt,
}
use athanore.Runner.Verdict.{is_over_run, end_attempt-verdict}
use athanore.Runner.FiresOnce.{join_tasks, FiresOnce, end_attempt-FiresOnce}
use athanore.Runner.Exhausted.{fail_all, Exhausts, fail_all-Exhausts}
use athanore.Runner.Retry.{IsNextAttempt, record_failure-attempts}

abbrev pub stage : String → List String → Bool → ℕ → Node
stage name edges join generation = record {
  name = name;
  fn = record { name = name; params = []; doc = none };
  edges = edges;
  payload_param = none;
  start = false;
  join = join;
  priority = none;
  retries = none;
  timeout = none;
  label = name;
  description = none;
  generation = generation;
}

abbrev pub split : Node
split = stage "split" ("merge" ∷ []) false 0

abbrev pub pipeline : Graph
pipeline = record {
  name = "pipeline";
  nodes = ("split", split) ∷ ("merge", stage "merge" [] true 1) ∷ [];
  start = "split";
}

abbrev pub run_row : RunRow
run_row = record {
  id = "r1";
  workflow = "pipeline";
  title = "";
  description = "";
  status = running;
  output = null;
  position = pos 0;
  created = 0;
  updated = 0;
  finished = none;
}

abbrev pub task_row : TaskRow
task_row = record {
  id = 1;
  run_id = "r1";
  node = "split";
  attempt = 1;
  status = in_progress;
  payload = null;
  result = null;
  error = none;
  priority = pos 0;
  explicit = false;
  token_hash = none;
  stats = none;
  lineage = none;
  terminal = false;
  branch = [];
  created = 5;
  started = some 6;
  finished = none;
}

abbrev pub before : Db
before = record empty_db { runs = run_row ∷ []; tasks = task_row ∷ []; next_task = 2 }

abbrev pub both : Value
both = list (cons (transition "merge" (text "a")) (cons (transition "merge" (text "b")) nil))

abbrev pub describe : Error → String
describe e = "GraphError"

abbrev boom : Raised
boom = record { kind = other_exception; repr = "Boom()" }

end_attempt-verdict_example :
    let after = end_attempt describe pipeline (pos 3) before task_row (returned both) 9 in
    (get_run after "r1" ≡ get_run before "r1")
    ⊎ (("r1" ≡ task_row.run_id)
        × (is_running_run (get_run before "r1") ≡ true)
        × (is_over_run (get_run after "r1") ≡ true))
end_attempt-verdict_example =
    end_attempt-verdict describe pipeline (pos 3) before task_row (returned both) 9 "r1"

end_attempt-FiresOnce_example :
    FiresOnce (end_attempt describe pipeline (pos 3) before task_row (returned both) 9).tasks
end_attempt-FiresOnce_example =
    end_attempt-FiresOnce describe pipeline (pos 3) before task_row (returned both) 9
      (λ r j f. ground arith)

two_arrivals_fire :
    join_tasks "r1" "merge" 1
      (end_attempt describe pipeline (pos 3) before task_row (returned both) 9).tasks
    ≡ 1
unfolding end_attempt record_success settle_run send_all send record_arrival note_arrival fire_join
    arrive interpret explicit check_targets jsonable lookup finish is_fan_out member get_run
two_arrivals_fire = refl

record_failure-attempts_example :
    let after = record_failure before task_row (some split) (pos 3) boom 9 in
    ((is_retryable boom ≡ true)
      × (pos 2 ≤ℤ retry_budget (some split) (pos 3))
      × (length after.tasks ≡ 2)
      × ((t : TaskRow) × (get_task after 1 ≡ some t) × (t.status ≡ failed))
      × ((t : TaskRow) × (get_task after 2 ≡ some t) × IsNextAttempt task_row t))
    ⊎ (((is_retryable boom ≡ false) ⊎ (retry_budget (some split) (pos 3) ≤ℤ pos 1))
        × (length after.tasks ≡ 1)
        × ((t : TaskRow) × (get_task after 1 ≡ some t) × (t.status ≡ dead_letter))
        × (is_running_run (get_run after "r1") ≡ false))
unfolding get_task
record_failure-attempts_example =
    record_failure-attempts before task_row task_row (some split) (pos 3) boom 9 (omega arith, tt)
      refl

fail_all-Exhausts_example : Exhausts before task_row (some split) (pos 3) (
    fail_all
      (suc (pos_part (retry_budget (some split) (pos 3))))
      (some split)
      (pos 3)
      (λ n. boom)
      (λ n. n + 9)
      before
      (some task_row))
unfolding get_task
fail_all-Exhausts_example =
    fail_all-Exhausts (some split) (pos 3) (λ n. boom) (λ n. n + 9) before task_row task_row
      (omega arith, tt) refl

abbrev last_attempt : Option (Db × TaskRow) → ℕ
last_attempt none = 0
last_attempt (some (final, last)) = last.attempt

three_attempts :
    last_attempt (fail_all 4 (some split) (pos 3) (λ n. boom) (λ n. n + 9) before (some task_row))
    ≡ 3
unfolding fail_all record_failure retry_task dead_letter_task enqueue finish get_task get_run
    set_run_status set_status
three_attempts = refl

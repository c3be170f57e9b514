-- ===== src/Runner/Outcome.antt =====
-- athanore/engine/runner.py: `_record_success`, `_record_failure` and `_settle_run`, and the choice
-- between them that `run_attempt` makes; athanore/engine/errors.py: `is_retryable`.
use athanore.Prelude.{
  ℕ, ◌+◌, String, Bool, true, false, not, ◌&&◌, Option, none, some, List, [], ◌∷◌, map, length,
  if◌then◌else◌,
}
use athanore.Prelude.Int.{ℤ, pos, ltb_ℤ}
use athanore.Prelude.Dict.{Dict, lookup}
use athanore.Graph.{Error, unknown_node, key, fuel, Result, ok, raised, ◌>>=◌, Node, Graph}
use athanore.Json.{Value, Values, null, list, nil, cons, jsonable}
use athanore.Routing.{Transition, interpret, is_fan_out}
use athanore.Store.{
  completed, run_failed, is_running, done, failed, dead_letter, RunRow, by_retry, TaskRow, RunError,
  error_text, join_incomplete, task_enqueued, task_done, task_failed, task_dead_lettered,
  run_completed_event, run_failed_event, Db,
}
use athanore.Store.Runs.{get_run, set_run_status, update_run}
use athanore.Store.Tasks.{enqueue, finish, set_status, has_pending, terminal_tasks}
use athanore.Store.Joins.{incomplete}
use athanore.Runner.{is_null, emit, frame_summaries, send_all}

-- NON_RETRYABLE of athanore/engine/errors.py, with the subclasses of each.
pub data ExceptionKind : Type 0 where
  graph_error non_retryable other_exception : ExceptionKind

-- An exception that a body raised, and its `repr`.
pub record Raised : Type 0 where
  pub kind : ExceptionKind
  pub repr : String

abbrev pub is_retryable_kind : ExceptionKind → Bool
is_retryable_kind graph_error = false
is_retryable_kind non_retryable = false
is_retryable_kind other_exception = true

abbrev pub is_retryable : Raised → Bool
is_retryable exc = is_retryable_kind exc.kind

abbrev pub node_retries : Option Node → Option ℤ
node_retries none = none
node_retries (some node) = node.retries

abbrev pub retry_budget : Option Node → ℤ → ℤ
retry_budget node max_retries = elim (node_retries node) [
  | some retries ↦ retries
  | none ↦ max_retries
]

abbrev pub result_values : List TaskRow → Values
result_values [] = nil
result_values (t ∷ ts) = cons t.result (result_values ts)

abbrev pub output : List TaskRow → Value
output (t ∷ []) = t.result
output terminals = list (result_values terminals)

abbrev pub fail_run : Db → TaskRow → RunError → ℕ → Db
fail_run db task error now =
    emit (set_run_status db task.run_id run_failed (some now) now) task.run_id none
      (run_failed_event task.node task.id error) now

abbrev pub complete_run : Db → TaskRow → ℕ → Db
complete_run db task now =
    let terminals = terminal_tasks db task.run_id in
    emit (update_run db task.run_id completed (output terminals) now) task.run_id none
      (run_completed_event task.node task.id (output terminals) (map (λ t. t.id) terminals)) now

abbrev pub is_running_run : Option RunRow → Bool
is_running_run none = false
is_running_run (some run) = is_running run.status

unfoldable pub settle_run : Db → TaskRow → Bool → ℕ → Db
unfolding has_pending incomplete
settle_run db task terminal now =
    if not (is_running_run (get_run db task.run_id))
    then db
    else if has_pending db task.run_id
    then db
    else elim (incomplete db task.run_id) [
      | j ∷ js ↦
          fail_run db task (join_incomplete (map (λ i. (i.join_node, i.arrived, i.count)) (j ∷ js)))
            now
      | [] ↦ if not terminal then db else complete_run db task now
    ]

abbrev pub is_empty : List Transition → Bool
is_empty [] = true
is_empty (t ∷ ts) = false

unfoldable pub record_success : Dict Node → Db → TaskRow → Node → Value → ℕ → Result Db
unfolding interpret is_fan_out jsonable finish send_all settle_run
record_success nodes db task node value now = do
  transitions ← interpret node value
  sent ←
      send_all nodes (finish db task.id done (jsonable value) none (is_empty transitions) now) task
        transitions 0 (length transitions) (is_fan_out value) now
  ok (
      settle_run
        (emit sent task.run_id (some task.id)
          (task_done task.node task.attempt (map (λ t. t.target) transitions)
            (is_empty transitions))
          now)
        task (is_empty transitions) now)

abbrev pub emit_failed : Db → TaskRow → Raised → Bool → Option ℕ → ℕ → Db
emit_failed db task exc will_retry retry_task_id now =
    emit db task.run_id (some task.id)
      (task_failed task.node task.attempt exc.repr (is_retryable exc) will_retry retry_task_id) now

-- The part of `_record_failure` that enqueues the next attempt.
unfoldable pub retry_task : Db → TaskRow → Raised → ℕ → Db
unfolding enqueue
retry_task db task exc now =
    let (db', retry) =
      enqueue db task.run_id task.node task.payload task.priority task.explicit (task.attempt + 1)
        task.created (some (record { from = some task.id; reason = by_retry; arrivals = none }))
        task.branch in
    emit_failed
      (emit db' task.run_id (some retry.id)
        (task_enqueued task.node retry.attempt by_retry (some task.id) (not (is_null task.payload))
          (frame_summaries task.branch) none)
        now)
      task exc true (some retry.id) now

-- The part that gives up on the task, and the verdict on its run.
abbrev pub give_up : Db → TaskRow → Raised → ℕ → Db
give_up db task exc now =
    emit (set_status (emit_failed db task exc false none now) task.id dead_letter) task.run_id
      (some task.id) (task_dead_lettered task.node task.attempt exc.repr) now

unfoldable pub dead_letter_task : Db → TaskRow → Raised → ℕ → Db
unfolding set_status
dead_letter_task db task exc now =
    if is_running_run (get_run (give_up db task exc now) task.run_id)
    then fail_run (give_up db task exc now) task (error_text exc.repr) now
    else give_up db task exc now

abbrev pub will_retry : TaskRow → Option Node → ℤ → Raised → Bool
will_retry task node max_retries exc =
    is_retryable exc && ltb_ℤ (pos task.attempt) (retry_budget node max_retries)

-- Less the line of the work log, which has a transaction of its own.
unfoldable pub record_failure : Db → TaskRow → Option Node → ℤ → Raised → ℕ → Db
unfolding finish
record_failure db task node max_retries exc now =
    let ended = finish db task.id failed null (some exc.repr) false now in
    if will_retry task node max_retries exc
    then retry_task ended task exc now
    else dead_letter_task ended task exc now

-- How the call of the body ended.
pub data BodyEnd : Type 0 where
  returned : Value → BodyEnd
  threw : Raised → BodyEnd
  was_cancelled : BodyEnd

abbrev pub kind_of : Error → ExceptionKind
kind_of (key target) = other_exception
kind_of fuel = other_exception
kind_of _ = graph_error

-- What `_record_success` raises is the failure of the attempt; `describe` is its `repr`.
abbrev pub or_failure : (Error → String) → Db → TaskRow → Option Node → ℤ → Result Db → ℕ → Db
or_failure describe db task found max_retries (ok ended) now = ended
or_failure describe db task found max_retries (raised e) now =
    record_failure db task found max_retries (record { kind = kind_of e; repr = describe e }) now

abbrev pub after_body : (Error → String) → Graph → ℤ → Db → TaskRow → Node → BodyEnd → ℕ → Db
after_body describe graph max_retries db task found was_cancelled now = db
after_body describe graph max_retries db task found (threw exc) now =
    record_failure db task (some found) max_retries exc now
after_body describe graph max_retries db task found (returned value) now =
    or_failure describe db task (some found) max_retries
      (record_success graph.nodes db task found value now) now

-- `_load_node`, the body's end and what it writes.
unfoldable pub end_attempt : (Error → String) → Graph → ℤ → Db → TaskRow → BodyEnd → ℕ → Db
end_attempt describe graph max_retries db task body now = elim (lookup task.node graph.nodes) [
  | none ↦
      or_failure describe db task none max_retries (raised (unknown_node graph.name task.node)) now
  | some found ↦ after_body describe graph max_retries db task found body now
]

-- ===== src/Ops/TaskEdited.antt =====
-- The operations on a task of athanore/engine/ops.py, and so every operation, are sequences of the
-- edits of `TaskEdits`.
use athanore.Prelude.{
  ℕ, ◌≡◌, refl, inl, inr, String, Bool, true, false, not, Option, none, some, List, [], ◌∷◌,
  Bool-cases, Option-cases, if◌then◌else◌,
}
use athanore.Prelude.Dict.{Dict}
use athanore.Graph.{Node, Graph}
use athanore.Json.{Value}
use athanore.Store.{
  TaskStatus, ready, in_progress, waiting, done, failed, dead_letter, cancelled, is_pending,
  BranchFrame, Lineage, is_join, by_rerun, on_move, task_status_set, RunRow, TaskRow, ArrivalRow,
  CancelReason, Db,
}
use athanore.Store.Runs.{reopen_run}
use athanore.Store.Tasks.{set_status, enqueue, last_for_node}
use athanore.Store.Joins.{arrivals_at}
use athanore.Runner.{emit}
use athanore.Ops.{
  Answer, answered, has_ended, find_graph, find_node, read_run, read_task, cancel_task, enqueue_at,
  reopen,
}
use athanore.Ops.Answers.{Answers, bind-Answers, refuse_if-Answers, Answers-answered}
use athanore.Ops.TaskOps.{
  last_payload, last_id, replayed_fanout, replay, join_replay, rerun_work, announce_status,
  is_settable, rerun, rerun_task, retry, retried_task, move, moved_task, set_task_status,
}
use athanore.Ops.Commands.{
  Command, submitting, editing, reordering, pausing, resuming, cancelling, deleting, appending_log,
  rerunning, retrying, moving, setting_status, perform, forget-Answers,
}
use athanore.Ops.TaskEdits.{TaskEdit, and_after, untouched, write_task-TaskEdit}
use athanore.Ops.Edited.{
  Edits, added_row, cancel_task-TaskEdit, submit-Edits, edit-Edits, reorder-Edits, pause-Edits,
  resume-Edits, append_log-Edits, cancel-Edits, delete-Edits,
}

reopen-TaskEdit : (db : Db) (run : RunRow) (now : ℕ) → TaskEdit db (reopen db run now)
unfolding reopen reopen_run
reopen-TaskEdit db run now = elim (Bool-cases (has_ended run.status)) [
  | inr e ↦ rw (reopen, e) (untouched db db refl refl)
  | inl e ↦ rw (reopen, e) (untouched db _ refl refl)
]

enqueue_at-TaskEdit :
    (db : Db) (run_id : String) (target : Node) (payload : Value) (lineage : Lineage)
    (branch : List BranchFrame) (attempt now : ℕ)
    → is_join lineage.reason ≡ false
    → TaskEdit db (enqueue_at db run_id target payload lineage branch attempt now).0
unfolding enqueue_at enqueue
enqueue_at-TaskEdit db run_id target payload lineage branch attempt now other =
    added_row db _ _ lineage refl refl refl refl other

join_replay-Answers :
    (db : Db) (run_id : String) (target : Node) (last : Option TaskRow)
    → Answers (λ work. is_join work.1.reason ≡ false) (join_replay db run_id target last)
unfolding join_replay
join_replay-Answers db run_id target last = elim (Option-cases (replayed_fanout last)) [
  | inl e ↦ rw (join_replay, e) tt
  | inr (fanout, e) ↦
      rw (join_replay, e) (replayed fanout (arrivals_at db run_id target.name fanout))
]
  where
    replayed :
        (fanout : ℕ) (rows : List ArrivalRow)
        → Answers (λ work. is_join work.1.reason ≡ false) (replay run_id target.name fanout rows)
    replayed fanout [] = tt
    replayed fanout (a ∷ rows) = refl

rerun_work-Answers :
    (db : Db) (run_id : String) (target : Node) (last : Option TaskRow)
    → Answers (λ work. is_join work.1.reason ≡ false) (rerun_work db run_id target last)
rerun_work-Answers db run_id target last =
    if_join target.join _ (join_replay-Answers db run_id target last)
  where
    if_join :
        (b : Bool) (call : Answer (Value × Lineage))
        → Answers (λ work. is_join work.1.reason ≡ false) call
        → Answers
            (λ work. is_join work.1.reason ≡ false)
            (if b
              then call
              else answered (
                last_payload last,
                record { from = last_id last; reason = by_rerun; arrivals = none },
              ))
    if_join true call h = h
    if_join false call h = refl

rerun-Edits :
    (graphs : Dict Graph) (db : Db) (run_id node : String) (now : ℕ)
    → Edits db (rerun graphs db run_id node now)
unfolding rerun rerun_task
rerun-Edits graphs db run_id node now = bind-Answers _ (read_run db run_id) _ λ run found.
    bind-Answers _ (find_graph graphs run.workflow) _ λ graph known.
      bind-Answers _ (find_node graph node) _ λ target there.
        bind-Answers _ (rerun_work db run_id target (last_for_node db run_id node)) _ λ work e.
          and_after
            (enqueue_at-TaskEdit db run.id target work.0 work.1 _ _ now (
              Answers-answered (λ w. is_join w.1.reason ≡ false)
                (rerun_work db run_id target (last_for_node db run_id node)) work
                (rerun_work-Answers db run_id target (last_for_node db run_id node)) e))
            (reopen-TaskEdit _ run now)

retry-Edits :
    (graphs : Dict Graph) (db : Db) (task_id now : ℕ) → Edits db (retry graphs db task_id now)
unfolding retry retried_task enqueue
retry-Edits graphs db task_id now = bind-Answers _ (read_task db task_id) _ λ task here.
    refuse_if-Answers _ (is_pending task.status) _ _ λ stopped.
      bind-Answers _ (read_run db task.run_id) _ λ run found.
        bind-Answers _ (find_graph graphs run.workflow) _ λ graph known.
          bind-Answers _ (find_node graph task.node) _ λ target there.
            and_after (added_row db _ _ _ refl refl refl refl refl) (reopen-TaskEdit _ run now)

stopped-TaskEdit :
    (db : Db) (task : TaskRow) (reason : CancelReason) (now : ℕ) (b : Bool)
    → TaskEdit db (if b then cancel_task db task reason now else db)
stopped-TaskEdit db task reason now true = cancel_task-TaskEdit db task reason now
stopped-TaskEdit db task reason now false = untouched db db refl refl

move-Edits :
    (graphs : Dict Graph) (db : Db) (task_id : ℕ) (node : String) (now : ℕ)
    → Edits db (move graphs db task_id node now)
unfolding move moved_task
move-Edits graphs db task_id node now = bind-Answers _ (read_task db task_id) _ λ task here.
    bind-Answers _ (read_run db task.run_id) _ λ run found.
      bind-Answers _ (find_graph graphs run.workflow) _ λ graph known.
        bind-Answers _ (find_node graph node) _ λ target there.
          refuse_if-Answers _ target.join _ _ λ allowed.
            and_after (stopped-TaskEdit db task on_move now (is_pending task.status)) (
              and_after
                (enqueue_at-TaskEdit
                  (if is_pending task.status then cancel_task db task on_move now else db)
                  task.run_id target task.payload _ task.branch 1 now refl)
                (and_after (untouched _ _ refl refl) (reopen-TaskEdit _ run now)))

announce_status-TaskEdit :
    (db : Db) (task : TaskRow) (status : TaskStatus) (now : ℕ)
    → Answers (λ after. TaskEdit db after) (announce_status db task status now)
announce_status-TaskEdit db task ready now =
    bind-Answers (λ after. TaskEdit db after) (read_run db task.run_id)
      (λ run. answered (reopen db run now)) λ run found. reopen-TaskEdit db run now
announce_status-TaskEdit db task in_progress now = untouched db db refl refl
announce_status-TaskEdit db task waiting now = untouched db db refl refl
announce_status-TaskEdit db task done now = untouched db db refl refl
announce_status-TaskEdit db task failed now = untouched db db refl refl
announce_status-TaskEdit db task dead_letter now = untouched db db refl refl
announce_status-TaskEdit db task cancelled now = untouched db _ refl refl

set_task_status-Edits :
    (db : Db) (task_id : ℕ) (status : TaskStatus) (now : ℕ)
    → Edits db (set_task_status db task_id status now)
unfolding set_task_status set_status
set_task_status-Edits db task_id status now =
    refuse_if-Answers _ (not (is_settable status)) _ _ λ allowed.
      bind-Answers _ (read_task db task_id) _ λ task here.
        bind-Answers _ (read_task (set_status db task_id status) task_id) _ λ row read.
          bind-Answers _ (announce_status (written task) task status now) _ λ after e.
            and_after
              (write_task-TaskEdit db (written task) task_id _ (λ t. (refl, refl, refl, refl)) refl
                refl)
              (Answers-answered (TaskEdit (written task))
                (announce_status (written task) task status now) after
                (announce_status-TaskEdit (written task) task status now) e)
  where
    written : TaskRow → Db
    written task =
        emit (set_status db task_id status) task.run_id (some task_id)
          (task_status_set task.node task.status status) now

pub perform-Edits :
    (graphs : Dict Graph) (command : Command) (db : Db) (now : ℕ)
    → Answers (λ reply. TaskEdit db reply.db) (perform graphs command db now)
unfolding perform
perform-Edits graphs (submitting new_id workflow title description) db now =
    forget-Answers (TaskEdit db) _ (submit-Edits graphs db new_id workflow title description now)
perform-Edits graphs (editing run_id title description) db now =
    forget-Answers (TaskEdit db) _ (edit-Edits db run_id title description now)
perform-Edits graphs (reordering run_id direction index) db now =
    forget-Answers (TaskEdit db) _ (reorder-Edits db run_id direction index now)
perform-Edits graphs (pausing run_id) db now =
    forget-Answers (TaskEdit db) _ (pause-Edits db run_id now)
perform-Edits graphs (resuming run_id) db now =
    forget-Answers (TaskEdit db) _ (resume-Edits db run_id now)
perform-Edits graphs (cancelling run_id) db now =
    forget-Answers (TaskEdit db) _ (cancel-Edits db run_id now)
perform-Edits graphs (deleting run_id) db now =
    forget-Answers (TaskEdit db) _ (delete-Edits db run_id now)
perform-Edits graphs (appending_log run_id said) db now =
    forget-Answers (TaskEdit db) _ (append_log-Edits db run_id said now)
perform-Edits graphs (rerunning run_id node) db now =
    forget-Answers (TaskEdit db) _ (rerun-Edits graphs db run_id node now)
perform-Edits graphs (retrying task_id) db now =
    forget-Answers (TaskEdit db) _ (retry-Edits graphs db task_id now)
perform-Edits graphs (moving task_id node) db now =
    forget-Answers (TaskEdit db) _ (move-Edits graphs db task_id node now)
perform-Edits graphs (setting_status task_id status) db now =
    forget-Answers (TaskEdit db) _ (set_task_status-Edits db task_id status now)

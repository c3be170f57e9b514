-- ===== src/Ops/TaskDiagram.antt =====
-- The operations on a task of athanore/engine/ops.py move the runs along the state diagram of
-- `Machine`.
use athanore.Prelude.{
  ℕ, ◌≡◌, refl, sym, ◌∙◌, subst, ap, inl, inr, String, Bool, true, false, not, some, List,
  Bool-cases, if◌then◌else◌,
}
use athanore.Prelude.Dict.{Dict}
use athanore.Graph.{Graph}
use athanore.Store.{
  TaskStatus, ready, in_progress, waiting, done, failed, dead_letter, cancelled, is_pending,
  on_move, task_status_set, RunRow, TaskRow, Db, CancelReason,
}
use athanore.Store.Runs.{find_run, reopen_run}
use athanore.Store.Tasks.{set_status, enqueue, last_for_node}
use athanore.Ops.{
  answered, has_ended, find_graph, find_node, read_run, read_task, enqueue_at, reopen, cancel_task,
}
use athanore.Ops.Answers.{Answers, bind-Answers, refuse_if-Answers, Answers-answered}
use athanore.Runner.{emit}
use athanore.Ops.Machine.{reopens, RunMoves, RunMove-refl, write_run-RunMoves, find_run_id}
use athanore.Ops.TaskOps.{
  rerun_work, announce_status, is_settable, rerun, rerun_task, retry, retried_task, move,
  moved_task, set_task_status,
}
use athanore.Ops.Diagram.{Moves, read_run-found}

reopen-RunMoves :
    (db : Db) (run : RunRow) (now : ℕ)
    → find_run run.id db.runs ≡ some run
    → RunMoves db.runs (reopen db run now).runs
unfolding reopen reopen_run
reopen-RunMoves db run now found = elim (Bool-cases (has_ended run.status)) [
  | inr e ↦ rw (reopen, e) (λ r. RunMove-refl (find_run r db.runs))
  | inl e ↦
      rw (reopen, e)
        (write_run-RunMoves run.id _ db.runs run (λ r. refl) found (reopens e refl refl))
]

reopen-RunMoves_after :
    (before : List RunRow) (db : Db) (run : RunRow) (now : ℕ)
    → db.runs ≡ before
    → find_run run.id before ≡ some run
    → RunMoves before (reopen db run now).runs
reopen-RunMoves_after before db run now same found =
    subst (λ runs. RunMoves runs (reopen db run now).runs) same
      (reopen-RunMoves db run now (ap (find_run run.id) same ∙ found))

-- The run that was read, under its own id.
read_run-own :
    (db : Db) (run_id : String) (run : RunRow)
    → read_run db run_id ≡ answered run
    → find_run run.id db.runs ≡ some run
read_run-own db run_id run h =
    let found = read_run-found db run_id run h in
    subst (λ x. find_run x db.runs ≡ some run) (sym (find_run_id run_id db.runs run found)) found

pub rerun-Moves :
    (graphs : Dict Graph) (db : Db) (run_id node : String) (now : ℕ)
    → Moves db (rerun graphs db run_id node now)
unfolding rerun rerun_task enqueue_at enqueue
rerun-Moves graphs db run_id node now = bind-Answers _ (read_run db run_id) _ λ run found.
    bind-Answers _ (find_graph graphs run.workflow) _ λ graph known.
      bind-Answers _ (find_node graph node) _ λ target there.
        bind-Answers _ (rerun_work db run_id target (last_for_node db run_id node)) _
          λ work e. reopen-RunMoves _ run now (read_run-own db run_id run found)

pub retry-Moves :
    (graphs : Dict Graph) (db : Db) (task_id now : ℕ) → Moves db (retry graphs db task_id now)
unfolding retry retried_task enqueue
retry-Moves graphs db task_id now = bind-Answers _ (read_task db task_id) _ λ task here.
    refuse_if-Answers _ (is_pending task.status) _ _ λ stopped.
      bind-Answers _ (read_run db task.run_id) _ λ run found.
        bind-Answers _ (find_graph graphs run.workflow) _ λ graph known.
          bind-Answers _ (find_node graph task.node) _
            λ target there. reopen-RunMoves _ run now (read_run-own db task.run_id run found)

stopped-runs :
    (db : Db) (task : TaskRow) (reason : CancelReason) (now : ℕ) (b : Bool)
    → (if b then cancel_task db task reason now else db).runs ≡ db.runs
unfolding set_status
stopped-runs db task reason now true = refl
stopped-runs db task reason now false = refl

pub move-Moves :
    (graphs : Dict Graph) (db : Db) (task_id : ℕ) (node : String) (now : ℕ)
    → Moves db (move graphs db task_id node now)
unfolding move moved_task enqueue_at enqueue set_status
move-Moves graphs db task_id node now = bind-Answers _ (read_task db task_id) _ λ task here.
    bind-Answers _ (read_run db task.run_id) _ λ run found.
      bind-Answers _ (find_graph graphs run.workflow) _ λ graph known.
        bind-Answers _ (find_node graph node) _ λ target there.
          refuse_if-Answers _ target.join _ _ λ allowed.
            reopen-RunMoves_after db.runs _ run now
              (stopped-runs db task on_move now (is_pending task.status))
              (read_run-own db task.run_id run found)

announce_status-RunMoves :
    (db : Db) (task : TaskRow) (status : TaskStatus) (now : ℕ)
    → Answers (λ after. RunMoves db.runs after.runs) (announce_status db task status now)
announce_status-RunMoves db task ready now =
    bind-Answers (λ after. RunMoves db.runs after.runs) (read_run db task.run_id)
      (λ run. answered (reopen db run now))
      λ run found. reopen-RunMoves db run now (read_run-own db task.run_id run found)
announce_status-RunMoves db task in_progress now = λ r. RunMove-refl (find_run r db.runs)
announce_status-RunMoves db task waiting now = λ r. RunMove-refl (find_run r db.runs)
announce_status-RunMoves db task done now = λ r. RunMove-refl (find_run r db.runs)
announce_status-RunMoves db task failed now = λ r. RunMove-refl (find_run r db.runs)
announce_status-RunMoves db task dead_letter now = λ r. RunMove-refl (find_run r db.runs)
announce_status-RunMoves db task cancelled now = λ r. RunMove-refl (find_run r db.runs)

pub set_task_status-Moves :
    (db : Db) (task_id : ℕ) (status : TaskStatus) (now : ℕ)
    → Moves db (set_task_status db task_id status now)
unfolding set_task_status set_status
set_task_status-Moves db task_id status now =
    refuse_if-Answers _ (not (is_settable status)) _ _ λ allowed.
      bind-Answers _ (read_task db task_id) _ λ task here.
        bind-Answers _ (read_task (set_status db task_id status) task_id) _ λ row wrote.
          bind-Answers _ (announce_status (written task) task status now) _ λ after e.
            Answers-answered _ (announce_status (written task) task status now) after
              (announce_status-RunMoves (written task) task status now) e
  where
    written : TaskRow → Db
    written task =
        emit (set_status db task_id status) task.run_id (some task_id)
          (task_status_set task.node task.status status) now

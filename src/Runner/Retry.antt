-- ===== src/Runner/Retry.antt =====
-- `_record_failure` of athanore/engine/runner.py: the next attempt or the dead letter.
use athanore.Prelude.{
  ℕ, ◌+◌, ◌<◌, ◌≡◌, refl, ◌∙◌, ap, ◌⊎◌, inl, inr, true, false, Option, none, some, length,
  length-append, All, Bool-cases, eq_refl, arith,
}
use athanore.Prelude.Int.{ℤ, pos, ◌≤ℤ◌}
use athanore.Graph.{Node}
use athanore.Store.{ready, failed, dead_letter, run_failed, RunRow, TaskRow, Db}
use athanore.Store.Tasks.{find_task, get_task, finish, set_status}
use athanore.Store.Runs.{find_run, get_run, set_run_status}
use athanore.Store.Rows.{
  map_task, find_task-write_task, find_task-append, find_task-new, write_task-below,
  length-write_task, map_run, find_run-write_run,
}
use athanore.Runner.Outcome.{
  Raised, is_retryable, retry_budget, is_running_run, give_up, retry_task, dead_letter_task,
  will_retry, record_failure,
}
use athanore.Runner.Ended.{failed_db, Settles-tasks, dead_letter_task-Settles}

-- The row of the next attempt, as the failed one left it.
abbrev pub IsNextAttempt : TaskRow → TaskRow → Type 0
IsNextAttempt task t =
    (t.status ≡ ready)
    × (t.attempt ≡ task.attempt + 1)
    × (t.run_id ≡ task.run_id)
    × (t.node ≡ task.node)
    × (t.payload ≡ task.payload)
    × (t.branch ≡ task.branch)
    × (t.created ≡ task.created)

-- The failed attempt's row keeps its place, and no id is given twice.
failed_row :
    (db : Db) (task row : TaskRow) (exc : Raised) (now : ℕ)
    → get_task db task.id ≡ some row
    → (t : TaskRow) × (get_task (failed_db db task exc now) task.id ≡ some t) × (t.status ≡ failed)
unfolding get_task finish
failed_row db task row exc now here =
    (_, find_task-write_task task.id _ db.tasks (λ t. refl) ∙ ap (map_task _) here, refl)

failed_length :
    (db : Db) (task : TaskRow) (exc : Raised) (now : ℕ)
    → length (failed_db db task exc now).tasks ≡ length db.tasks
unfolding finish
failed_length db task exc now = length-write_task task.id _ db.tasks

pub failed_below :
    (db : Db) (task : TaskRow) (exc : Raised) (now : ℕ)
    → All (λ t. t.id < db.next_task) db.tasks
    → All (λ t. t.id < db.next_task) (failed_db db task exc now).tasks
unfolding finish
failed_below db task exc now below =
    write_task-below db.next_task task.id _ db.tasks (λ t. refl) below

retried :
    (db : Db) (task t : TaskRow) (exc : Raised) (now : ℕ)
    → All (λ t. t.id < db.next_task) db.tasks
    → get_task db task.id ≡ some t
    → let after = retry_task db task exc now in
      (length after.tasks ≡ length db.tasks + 1)
      × (get_task after task.id ≡ some t)
      × ((u : TaskRow) × (get_task after db.next_task ≡ some u) × IsNextAttempt task u)
unfolding get_task retry_task
retried db task t exc now below here = (
  length-append db.tasks _,
  find_task-append task.id db.tasks t _ here,
  (_, find_task-new db.next_task db.tasks _ below refl, (refl, refl, refl, refl, refl, refl, refl)),
)

failed_run_not_running :
    (o : Option RunRow) (now : ℕ)
    → is_running_run
        (map_run (λ r. record r { status = run_failed; updated = now; finished = some now }) o)
      ≡ false
failed_run_not_running none now = refl
failed_run_not_running (some r) now = refl

dead_letter_task_not_running :
    (db : Db) (task : TaskRow) (exc : Raised) (now : ℕ)
    → is_running_run (get_run (dead_letter_task db task exc now) task.run_id) ≡ false
unfolding dead_letter_task get_run set_run_status set_status
dead_letter_task_not_running db task exc now =
    elim (Bool-cases (is_running_run (get_run (give_up db task exc now) task.run_id))) [
      | inr e ↦ rw (dead_letter_task, e) e
      | inl e ↦
          rw (dead_letter_task, e)
            (ap is_running_run (
                find_run-write_run task.run_id task.run_id
                  (λ r. record r { status = run_failed; updated = now; finished = some now })
                  db.runs (λ r. refl))
              ∙ rw (eq_refl task.run_id)
                  (failed_run_not_running (find_run task.run_id db.runs) now))
    ]

given_up :
    (db : Db) (task t : TaskRow) (exc : Raised) (now : ℕ)
    → get_task db task.id ≡ some t
    → let after = dead_letter_task db task exc now in
      (length after.tasks ≡ length db.tasks)
      × ((u : TaskRow) × (get_task after task.id ≡ some u) × (u.status ≡ dead_letter))
      × (is_running_run (get_run after task.run_id) ≡ false)
unfolding get_task set_status
given_up db task t exc now here =
    let same = Settles-tasks (dead_letter_task-Settles db task exc now) in
    (
      ap length same ∙ length-write_task task.id _ db.tasks,
      (
        _,
        ap (find_task task.id) same
            ∙ find_task-write_task task.id _ db.tasks (λ t. refl)
            ∙ ap (map_task _) here,
        refl,
      ),
      dead_letter_task_not_running db task exc now,
    )

spent :
    (task : TaskRow) (found : Option Node) (max_retries : ℤ) (exc : Raised)
    → will_retry task found max_retries exc ≡ false
    → (is_retryable exc ≡ false) ⊎ (retry_budget found max_retries ≤ℤ pos task.attempt)
spent task found max_retries exc e = elim (Bool-cases (is_retryable exc)) [
  | inr final ↦ inl final
  | inl again ↦ inr (ground arith)
]

-- A failed attempt is either `failed` and followed by one new task, the next attempt, which the
-- budget still covers and the exception allows; or it is the dead letter, nothing is enqueued and
-- the run is not running any more. The first is so exactly when the exception is retryable and the
-- attempt is below the budget. It is required that the task is in the store and that the store
-- gives ids that are not taken.
pub record_failure-attempts :
    (db : Db) (task row : TaskRow) (found : Option Node) (max_retries : ℤ) (exc : Raised) (now : ℕ)
    → All (λ t. t.id < db.next_task) db.tasks
    → get_task db task.id ≡ some row
    → let after = record_failure db task found max_retries exc now in
      ((is_retryable exc ≡ true)
        × (pos (task.attempt + 1) ≤ℤ retry_budget found max_retries)
        × (length after.tasks ≡ length db.tasks + 1)
        × ((t : TaskRow) × (get_task after task.id ≡ some t) × (t.status ≡ failed))
        × ((t : TaskRow) × (get_task after db.next_task ≡ some t) × IsNextAttempt task t))
      ⊎ (((is_retryable exc ≡ false) ⊎ (retry_budget found max_retries ≤ℤ pos task.attempt))
          × (length after.tasks ≡ length db.tasks)
          × ((t : TaskRow) × (get_task after task.id ≡ some t) × (t.status ≡ dead_letter))
          × (is_running_run (get_run after task.run_id) ≡ false))
unfolding record_failure
record_failure-attempts db task row found max_retries exc now below here =
    let (t, there, status) = failed_row db task row exc now here in
    elim (Bool-cases (will_retry task found max_retries exc)) [
      | inl e ↦
          let retries : record_failure db task found max_retries exc now
              ≡ retry_task (failed_db db task exc now) task exc now =
            rw (record_failure, e) refl in
          let (longer, kept, next) =
            retried (failed_db db task exc now) task t exc now (failed_below db task exc now below)
              there in
          rw retries (
            inl (
              ground arith,
              ground arith,
              omega (arith, longer, failed_length db task exc now),
              (t, kept, status),
              next,
            ))
      | inr e ↦
          let ends : record_failure db task found max_retries exc now
              ≡ dead_letter_task (failed_db db task exc now) task exc now =
            rw (record_failure, e) refl in
          let (same, dead, over) = given_up (failed_db db task exc now) task t exc now there in
          rw ends (
            inr (
              spent task found max_retries exc e,
              same ∙ failed_length db task exc now,
              dead,
              over,
            ))
    ]

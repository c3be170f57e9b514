-- ===== src/Runner/Ended.antt =====
-- What `_record_success` and `_settle_run` of athanore/engine/runner.py write, in cases.
use athanore.Prelude.{
  ℕ, ◌≡◌, refl, subst, ◌⊎◌, inl, inr, Bool, true, false, Option, none, some, List, map, length,
  Bool-cases, List-cases,
}
use athanore.Prelude.Dict.{Dict}
use athanore.Graph.{raised, ok, Result-cases, Node}
use athanore.Prelude.Int.{ℤ}
use athanore.Json.{Value, null, jsonable}
use athanore.Routing.{Transition, interpret, is_fan_out}
use athanore.Store.{done, failed, task_done, TaskRow, RunError, Db}
use athanore.Store.Runs.{get_run, set_run_status, update_run}
use athanore.Store.Tasks.{finish, has_pending}
use athanore.Store.Joins.{incomplete}
use athanore.Runner.{emit, send_all}
use athanore.Runner.Outcome.{
  is_running_run, fail_run, complete_run, settle_run, is_empty, record_success, Raised, give_up,
  dead_letter_task, retry_task, will_retry, record_failure,
}

pub data Settles (db : Db) (task : TaskRow) (now : ℕ) : Db → Type 0 where
  stays : Settles db task now db
  fails :
      is_running_run (get_run db task.run_id) ≡ true
      → (error : RunError) → Settles db task now (fail_run db task error now)
  completes :
      is_running_run (get_run db task.run_id) ≡ true
      → Settles db task now (complete_run db task now)

pub settle_run-Settles :
    (db : Db) (task : TaskRow) (terminal : Bool) (now : ℕ)
    → Settles db task now (settle_run db task terminal now)
unfolding settle_run
settle_run-Settles db task terminal now =
    elim (Bool-cases (is_running_run (get_run db task.run_id))) [
      | inr e ↦ rw (settle_run, e) stays
      | inl e ↦ elim (Bool-cases (has_pending db task.run_id)) [
        | inl p ↦ rw (settle_run, e) (rw p stays)
        | inr p ↦ elim (List-cases (incomplete db task.run_id)) [
          | inr (j, js, short) ↦ rw (settle_run, e) (rw p (rw short (fails e _)))
          | inl complete ↦ elim (Bool-cases terminal) [
            | inl t ↦ rw (settle_run, e) (rw p (rw complete (rw t (completes e))))
            | inr t ↦ rw (settle_run, e) (rw p (rw complete (rw t stays)))
          ]
        ]
      ]
    ]

pub record_success-Settles :
    (nodes : Dict Node) (db ended : Db) (task : TaskRow) (node : Node) (value : Value) (now : ℕ)
    → record_success nodes db task node value now ≡ ok ended
    → (ts : List Transition) × (sent : Db) × (send_all nodes
          (finish db task.id done (jsonable value) none (is_empty ts) now)
          task
          ts
          0
          (length ts)
          (is_fan_out value)
          now
        ≡ ok sent)
      × Settles
          (emit sent task.run_id
            (some task.id)
            (task_done task.node task.attempt (map (λ t. t.target) ts) (is_empty ts))
            now)
          task
          now
          ended
unfolding record_success
record_success-Settles nodes db ended task node value now h =
    elim (Result-cases (interpret node value)) [
      | inr (x, e) ↦
          let stops : record_success nodes db task node value now ≡ raised x =
            rw (e, record_success) refl in
          cc
      | inl (ts, e) ↦
          elim (Result-cases (
            send_all nodes (finish db task.id done (jsonable value) none (is_empty ts) now) task ts
              0 (length ts) (is_fan_out value) now)) [
                | inr (x, f) ↦
                    let stops : record_success nodes db task node value now ≡ raised x =
                      rw (e, record_success) (rw f refl) in
                    cc
                | inl (sent, f) ↦
                    let announced =
                      emit sent task.run_id (some task.id)
                        (task_done task.node task.attempt (map (λ t. t.target) ts) (is_empty ts))
                        now in
                    let read : record_success nodes db task node value now
                        ≡ ok (settle_run announced task (is_empty ts) now) =
                      rw (e, record_success) (rw f refl) in
                    let wrote : settle_run announced task (is_empty ts) now ≡ ended = cc in
                    (
                      ts,
                      sent,
                      f,
                      subst (Settles announced task now) wrote
                          (settle_run-Settles announced task (is_empty ts) now),
                    )
              ]
    ]

pub Settles-tasks :
    {db : Db} {task : TaskRow} {now : ℕ} {after : Db}
    → Settles db task now after
    → after.tasks ≡ db.tasks
unfolding set_run_status update_run
Settles-tasks stays = refl
Settles-tasks (fails e error) = refl
Settles-tasks (completes e) = refl

pub dead_letter_task-Settles :
    (db : Db) (task : TaskRow) (exc : Raised) (now : ℕ)
    → Settles (give_up db task exc now) task now (dead_letter_task db task exc now)
unfolding dead_letter_task
dead_letter_task-Settles db task exc now =
    elim (Bool-cases (is_running_run (get_run (give_up db task exc now) task.run_id))) [
      | inl e ↦ rw (dead_letter_task, e) (fails e _)
      | inr e ↦ rw (dead_letter_task, e) stays
    ]

abbrev pub failed_db : Db → TaskRow → Raised → ℕ → Db
failed_db db task exc now = finish db task.id failed null (some exc.repr) false now

pub record_failure-Settles :
    (db : Db) (task : TaskRow) (found : Option Node) (max_retries : ℤ) (exc : Raised) (now : ℕ)
    → (record_failure db task found max_retries exc now
        ≡ retry_task (failed_db db task exc now) task exc now)
      ⊎ Settles
          (give_up (failed_db db task exc now) task exc now)
          task
          now
          (record_failure db task found max_retries exc now)
unfolding record_failure
record_failure-Settles db task found max_retries exc now =
    elim (Bool-cases (will_retry task found max_retries exc)) [
      | inl e ↦ inl (rw (record_failure, e) refl)
      | inr e ↦ inr (
          rw (record_failure, e)
            (dead_letter_task-Settles (failed_db db task exc now) task exc now))
    ]

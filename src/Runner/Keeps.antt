-- ===== src/Runner/Keeps.antt =====
-- What every write of an attempt's end (athanore/engine/runner.py) keeps, the end keeps.
use athanore.Prelude.{
  ℕ, ◌≡◌, refl, sym, subst, inl, inr, String, Option, none, some, List, length, Option-cases,
}
use athanore.Prelude.Int.{ℤ}
use athanore.Prelude.Dict.{Dict, lookup}
use athanore.Graph.{Error, ok, Result-cases, Node, Graph}
use athanore.Json.{Value}
use athanore.Routing.{Transition, is_fan_out}
use athanore.Store.{BranchFrame, TaskRow, Db}
use athanore.Store.Runs.{set_run_status, update_run}
use athanore.Store.Tasks.{write_task, finish, set_status}
use athanore.Store.Rows.{KeepsRow}
use athanore.Runner.Outcome.{
  Raised, give_up, retry_task, record_success, record_failure, BodyEnd, returned, threw,
  was_cancelled, after_body, end_attempt,
}
use athanore.Runner.Sent.{Sent, send_all_keeps}
use athanore.Runner.Ended.{
  Settles, stays, fails, completes, failed_db, record_success-Settles, record_failure-Settles,
}

Settles-next_task :
    {db : Db} {task : TaskRow} {now : ℕ} {after : Db}
    → Settles db task now after
    → (after.tasks ≡ db.tasks) × (after.next_task ≡ db.next_task)
unfolding set_run_status update_run
Settles-next_task stays = (refl, refl)
Settles-next_task (fails e error) = (refl, refl)
Settles-next_task (completes e) = (refl, refl)

module _ {ℓ} (P : Db → Type ℓ)
    (same : (db after : Db)
      → after.tasks ≡ db.tasks
      → after.next_task ≡ db.next_task
      → P db
      → P after)
    (writes : (db after : Db) (i : ℕ) (f : TaskRow → TaskRow)
      → KeepsRow f
      → after.tasks ≡ write_task i f db.tasks
      → after.next_task ≡ db.next_task
      → P db
      → P after)
    (sends : (db sent : Db) (task : TaskRow) (t : Transition) (frames : List BranchFrame) (now : ℕ)
      → Sent db task t frames now sent
      → P db
      → P sent)
    (retries : (db : Db) (task : TaskRow) (exc : Raised) (now : ℕ)
      → P db
      → P (retry_task db task exc now)) where
  settled :
      {db : Db} {task : TaskRow} {now : ℕ} {after : Db} → Settles db task now after → P db → P after
  settled {db} {task} {now} {after} s p =
      same db after (Settles-next_task s).0 (Settles-next_task s).1 p

  record_success_keeps :
      (nodes : Dict Node) (db ended : Db) (task : TaskRow) (node : Node) (value : Value) (now : ℕ)
      → record_success nodes db task node value now ≡ ok ended
      → P db
      → P ended
  unfolding finish
  record_success_keeps nodes db ended task node value now h p =
      let (ts, sent, sending, settles) =
        record_success-Settles nodes db ended task node value now h in
      let kept : P sent =
        send_all_keeps P task now (λ d e t frames c. sends d e task t frames now c) nodes _ sent ts
          0 (length ts) (is_fan_out value) sending
          (writes db _ task.id _ (λ t. (refl, refl, refl, refl)) refl refl p) in
      settled settles (same sent _ refl refl kept)

  give_up_keeps :
      (db : Db) (task : TaskRow) (exc : Raised) (now : ℕ) → P db → P (give_up db task exc now)
  unfolding set_status
  give_up_keeps db task exc now p =
      writes db _ task.id _ (λ t. (refl, refl, refl, refl)) refl refl p

  record_failure_keeps :
      (db : Db) (task : TaskRow) (found : Option Node) (max_retries : ℤ) (exc : Raised) (now : ℕ)
      → P db
      → P (record_failure db task found max_retries exc now)
  unfolding finish
  record_failure_keeps db task found max_retries exc now p =
      let kept : P (failed_db db task exc now) =
        writes db _ task.id _ (λ t. (refl, refl, refl, refl)) refl refl p in
      elim (record_failure-Settles db task found max_retries exc now) [
        | inl e ↦ subst P (sym e) (retries (failed_db db task exc now) task exc now kept)
        | inr settles ↦
            settled settles (give_up_keeps (failed_db db task exc now) task exc now kept)
      ]

  after_body_keeps :
      (describe : Error → String) (graph : Graph) (max_retries : ℤ) (db : Db) (task : TaskRow)
      (found : Node) (body : BodyEnd) (now : ℕ)
      → P db
      → P (after_body describe graph max_retries db task found body now)
  after_body_keeps describe graph max_retries db task found was_cancelled now p = p
  after_body_keeps describe graph max_retries db task found (threw exc) now p =
      record_failure_keeps db task (some found) max_retries exc now p
  after_body_keeps describe graph max_retries db task found (returned value) now p =
      elim (Result-cases (record_success graph.nodes db task found value now)) [
        | inl (ended, e) ↦ rw e (record_success_keeps graph.nodes db ended task found value now e p)
        | inr (x, e) ↦ rw e (record_failure_keeps db task (some found) max_retries _ now p)
      ]

  pub end_attempt_keeps :
      (describe : Error → String) (graph : Graph) (max_retries : ℤ) (db : Db) (task : TaskRow)
      (body : BodyEnd) (now : ℕ)
      → P db
      → P (end_attempt describe graph max_retries db task body now)
  unfolding end_attempt
  end_attempt_keeps describe graph max_retries db task body now p =
      elim (Option-cases (lookup task.node graph.nodes)) [
        | inl e ↦ rw (end_attempt, e) (record_failure_keeps db task none max_retries _ now p)
        | inr (found, e) ↦
            rw (end_attempt, e)
              (after_body_keeps describe graph max_retries db task found body now p)
      ]

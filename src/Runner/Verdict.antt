-- ===== src/Runner/Verdict.antt =====
-- What the end of an attempt does to the runs: `_settle_run` and the dead letters of
-- athanore/engine/runner.py.
use athanore.Prelude.{
  ℕ, ◌≡◌, refl, sym, ◌∙◌, subst, ap, ◌⊎◌, inl, inr, String, Bool, true, false, Option, none, some,
  List, length, Bool-cases, Option-cases, eq_iff, ◌==◌, is_some,
}
use athanore.Prelude.Int.{ℤ}
use athanore.Prelude.Dict.{Dict, lookup}
use athanore.Graph.{Error, ok, Result-cases, Node, Graph}
use athanore.Json.{Value}
use athanore.Routing.{Transition, is_fan_out}
use athanore.Store.{RunStatus, completed, run_failed, RunRow, BranchFrame, TaskRow, RunError, Db}
use athanore.Store.Runs.{find_run, get_run, write_run, set_run_status, update_run}
use athanore.Store.Rows.{find_run-write_run}
use athanore.Store.Tasks.{finish, set_status}
use athanore.Runner.{enqueue_transition, fire_join, note_arrival}
use athanore.Runner.Ended.{
  Settles, stays, fails, completes, record_success-Settles, record_failure-Settles,
}
use athanore.Runner.Sent.{Sent, queued, noted, fired_join, send_all_keeps}
use athanore.Runner.Outcome.{
  Raised, is_running_run, fail_run, complete_run, record_success, retry_task, record_failure,
  BodyEnd, returned, threw, was_cancelled, after_body, end_attempt,
}

abbrev pub is_over : RunStatus → Bool
is_over completed = true
is_over run_failed = true
is_over _ = false

abbrev pub is_over_run : Option RunRow → Bool
is_over_run none = false
is_over_run (some run) = is_over run.status

-- The runs before and after: untouched, or a running one is given its verdict.
pub record Ends (run_id : String) (before after : List RunRow) : Type 0 where
  pub write : RunRow → RunRow
  pub wrote : after ≡ write_run run_id write before
  pub was_running : is_running_run (find_run run_id before) ≡ true
  pub same_id : (run : RunRow) → (write run).id ≡ run.id
  pub over : (run : RunRow) → is_over (write run).status ≡ true
  pub stamped : (run : RunRow) → is_some (write run).finished ≡ true

Sent-runs :
    {db sent : Db} {task : TaskRow} {t : Transition} {frames : List BranchFrame} {now : ℕ}
    → Sent db task t frames now sent
    → sent.runs ≡ db.runs
unfolding enqueue_transition note_arrival fire_join
Sent-runs (queued target) = refl
Sent-runs (noted target frame) = refl
Sent-runs (fired_join target frame outer h) = refl

-- The runs are untouched, or a running one ended.
abbrev pub Settled : String → List RunRow → List RunRow → Type 0
Settled run_id before after = (after ≡ before) ⊎ Ends run_id before after

fail_run-Ends :
    (db : Db) (task : TaskRow) (error : RunError) (now : ℕ)
    → is_running_run (get_run db task.run_id) ≡ true
    → Ends task.run_id db.runs (fail_run db task error now).runs
unfolding set_run_status get_run
fail_run-Ends db task error now h = record {
  write = λ r. record r { status = run_failed; updated = now; finished = some now };
  wrote = refl;
  was_running = h;
  same_id = λ run. refl;
  over = λ run. refl;
  stamped = λ run. refl;
}

complete_run-Ends :
    (db : Db) (task : TaskRow) (now : ℕ)
    → is_running_run (get_run db task.run_id) ≡ true
    → Ends task.run_id db.runs (complete_run db task now).runs
unfolding update_run get_run
complete_run-Ends db task now h = record {
  write = λ r. record r { status = completed; output = _; updated = now; finished = some now };
  wrote = refl;
  was_running = h;
  same_id = λ run. refl;
  over = λ run. refl;
  stamped = λ run. refl;
}

Settles-Settled :
    {db : Db} {task : TaskRow} {now : ℕ} {after : Db}
    → Settles db task now after
    → Settled task.run_id db.runs after.runs
Settles-Settled stays = inl refl
Settles-Settled {db} {task} {now} (fails e error) = inr (fail_run-Ends db task error now e)
Settles-Settled {db} {task} {now} (completes e) = inr (complete_run-Ends db task now e)

record_success-Settled :
    (nodes : Dict Node) (db ended : Db) (task : TaskRow) (node : Node) (value : Value) (now : ℕ)
    → record_success nodes db task node value now ≡ ok ended
    → Settled task.run_id db.runs ended.runs
unfolding finish
record_success-Settled nodes db ended task node value now h =
    let (ts, sent, sends, settles) = record_success-Settles nodes db ended task node value now h in
    let same : sent.runs ≡ db.runs =
      send_all_keeps (λ d. d.runs ≡ db.runs) task now (λ d e t frames c kept. Sent-runs c ∙ kept)
        nodes _ sent ts 0 (length ts) (is_fan_out value) sends refl in
    subst (λ r. Settled task.run_id r ended.runs) same (Settles-Settled settles)

record_failure-Settled :
    (db : Db) (task : TaskRow) (found : Option Node) (max_retries : ℤ) (exc : Raised) (now : ℕ)
    → Settled task.run_id db.runs (record_failure db task found max_retries exc now).runs
unfolding finish retry_task set_status
record_failure-Settled db task found max_retries exc now =
    elim (record_failure-Settles db task found max_retries exc now) [
      | inl e ↦ inl (ap (λ d. d.runs) e)
      | inr settles ↦ Settles-Settled settles
    ]

pub end_attempt-Settled :
    (describe : Error → String) (graph : Graph) (max_retries : ℤ) (db : Db) (task : TaskRow)
    (body : BodyEnd) (now : ℕ)
    → Settled task.run_id db.runs (end_attempt describe graph max_retries db task body now).runs
unfolding end_attempt
end_attempt-Settled describe graph max_retries db task body now =
    elim (Option-cases (lookup task.node graph.nodes)) [
      | inl e ↦ rw (end_attempt, e) (record_failure-Settled db task none max_retries _ now)
      | inr (found, e) ↦ rw (end_attempt, e) (body_end found body)
    ]
  where
    body_end :
        (found : Node) (body : BodyEnd)
        → Settled task.run_id db.runs
            (after_body describe graph max_retries db task found body now).runs
    body_end found was_cancelled = inl refl
    body_end found (threw exc) = record_failure-Settled db task (some found) max_retries exc now
    body_end found (returned value) =
        elim (Result-cases (record_success graph.nodes db task found value now)) [
          | inl (ended, e) ↦
              rw e (record_success-Settled graph.nodes db ended task found value now e)
          | inr (x, e) ↦ rw e (record_failure-Settled db task (some found) max_retries _ now)
        ]

Settled-verdict :
    (run_id r : String) (before after : List RunRow)
    → Settled run_id before after
    → (find_run r after ≡ find_run r before)
      ⊎ ((r ≡ run_id)
          × (is_running_run (find_run r before) ≡ true)
          × (is_over_run (find_run r after) ≡ true))
Settled-verdict run_id r before after (inl same) = inl (ap (find_run r) same)
Settled-verdict run_id r before after (inr v) =
    let found = ap (find_run r) v.wrote ∙ find_run-write_run run_id r v.write before v.same_id in
    elim (Bool-cases (run_id == r)) [
      | inr other ↦ inl (found ∙ rw other refl)
      | inl this ↦
          let named : r ≡ run_id = sym ((eq_iff run_id r).0 this) in
          let ran =
            subst (λ x. is_running_run (find_run x before) ≡ true) (sym named) v.was_running in
          elim (Option-cases (find_run r before)) [
            | inl e ↦ let bad = rw e at ran in cc
            | inr (run, e) ↦ inr (named, ran, rw found (rw this (rw e (v.over run))))
          ]
    ]

-- However an attempt ends, every run keeps its row, but that the run of the task, if it is running,
-- may come to be `completed` or `failed`. So a run that has its verdict, or is paused or cancelled,
-- is not given another.
pub end_attempt-verdict :
    (describe : Error → String) (graph : Graph) (max_retries : ℤ) (db : Db) (task : TaskRow)
    (body : BodyEnd) (now : ℕ) (r : String)
    → let after = end_attempt describe graph max_retries db task body now in
      (get_run after r ≡ get_run db r)
      ⊎ ((r ≡ task.run_id)
          × (is_running_run (get_run db r) ≡ true)
          × (is_over_run (get_run after r) ≡ true))
unfolding get_run
end_attempt-verdict describe graph max_retries db task body now r =
    Settled-verdict task.run_id r db.runs _
      (end_attempt-Settled describe graph max_retries db task body now)

-- ===== src/Runner/Exhausted.antt =====
-- A task whose every attempt fails (athanore/engine/runner.py): its retries come to an end.
use athanore.Prelude.{
  ℕ, zero, suc, ◌+◌, ◌≤◌, ◌<◌, ◌≡◌, refl, sym, subst, ◌∙◌, ap, inl, inr, ◌⊎◌, true, false, Option,
  none, some, List, [], ◌∷◌, ◌++◌, length, All, Bool-cases, arith, if◌then◌else◌,
}
use athanore.Prelude.Int.{ℤ, pos, pos_part, ◌≤ℤ◌}
use athanore.Graph.{Node}
use athanore.Store.{dead_letter, TaskRow, Db}
use athanore.Store.Tasks.{get_task}
use athanore.Store.Runs.{get_run}
use athanore.Store.Rows.{find_task_id}
use athanore.Runner.Outcome.{
  Raised, retry_budget, is_running_run, retry_task, will_retry, record_failure,
}
use athanore.Runner.Ended.{failed_db}
use athanore.Runner.Retry.{failed_below, IsNextAttempt, record_failure-attempts}

-- Attempts that all fail, each with an exception and at a time of its own, until none is enqueued:
-- the store and the row of the last attempt, if there are at most `fuel` attempts.
unfoldable pub fail_all :
    ℕ → Option Node → ℤ → (ℕ → Raised) → (ℕ → ℕ) → Db → Option TaskRow → Option (Db × TaskRow)
unfolding record_failure get_task
fail_all zero found max_retries exc now db task = none
fail_all (suc fuel) found max_retries exc now db none = none
fail_all (suc fuel) found max_retries exc now db (some task) =
    let raised = exc task.attempt in
    let after = record_failure db task found max_retries raised (now task.attempt) in
    let rest = fail_all fuel found max_retries exc now after (get_task after db.next_task) in
    if will_retry task found max_retries raised then rest else some (after, task)

below-append :
    (n : ℕ) (ts : List TaskRow) (u : TaskRow)
    → All (λ t. t.id < n) ts
    → u.id ≡ n
    → All (λ t. t.id < n + 1) (ts ++ u ∷ [])
below-append n [] u below h = (omega arith, tt)
below-append n (t ∷ ts) u below h =
    let first = below.0 in (omega arith, below-append n ts u below.1 h)

retry-below :
    (db : Db) (task : TaskRow) (found : Option Node) (max_retries : ℤ) (exc : Raised) (now : ℕ)
    → will_retry task found max_retries exc ≡ true
    → All (λ t. t.id < db.next_task) db.tasks
    → let after = record_failure db task found max_retries exc now in
      All (λ t. t.id < after.next_task) after.tasks
unfolding record_failure retry_task
retry-below db task found max_retries exc now again below = rw again (
    below-append db.next_task (failed_db db task exc now).tasks _
      (failed_below db task exc now below) refl)

-- What is left when the attempts have come to an end.
abbrev pub Exhausts : Db → TaskRow → Option Node → ℤ → Option (Db × TaskRow) → Type 0
Exhausts db task found max_retries result =
    (final : Db) × (last : TaskRow) × (result ≡ some (final, last))
    × (length final.tasks + task.attempt ≡ length db.tasks + last.attempt)
    × ((last.attempt ≡ task.attempt) ⊎ (pos last.attempt ≤ℤ retry_budget found max_retries))
    × ((t : TaskRow) × (get_task final last.id ≡ some t) × (t.status ≡ dead_letter))
    × (is_running_run (get_run final task.run_id) ≡ false)

retried :
    (db : Db) (task row : TaskRow) (found : Option Node) (max_retries : ℤ) (exc : Raised) (now : ℕ)
    → All (λ t. t.id < db.next_task) db.tasks
    → get_task db task.id ≡ some row
    → will_retry task found max_retries exc ≡ true
    → let after = record_failure db task found max_retries exc now in
      (t : TaskRow) × (get_task after db.next_task ≡ some t)
      × IsNextAttempt task t
      × (length after.tasks ≡ length db.tasks + 1)
      × (pos (task.attempt + 1) ≤ℤ retry_budget found max_retries)
retried db task row found max_retries exc now below here again =
    elim (record_failure-attempts db task row found max_retries exc now below here) [
      | inl (_, covered, longer, _, (t, there, next)) ↦ (t, there, next, longer, covered)
      | inr (inl final, _, _, _) ↦ ground arith
      | inr (inr spent, _, _, _) ↦ ground arith
    ]

gave_up :
    (db : Db) (task row : TaskRow) (found : Option Node) (max_retries : ℤ) (exc : Raised) (now : ℕ)
    → All (λ t. t.id < db.next_task) db.tasks
    → get_task db task.id ≡ some row
    → will_retry task found max_retries exc ≡ false
    → let after = record_failure db task found max_retries exc now in
      (length after.tasks ≡ length db.tasks)
      × ((t : TaskRow) × (get_task after task.id ≡ some t) × (t.status ≡ dead_letter))
      × (is_running_run (get_run after task.run_id) ≡ false)
gave_up db task row found max_retries exc now below here ends =
    elim (record_failure-attempts db task row found max_retries exc now below here) [
      | inl (retryable, covered, _, _, _) ↦ ground arith
      | inr (_, same, dead, over) ↦ (same, dead, over)
    ]

-- The end of the next attempt's retries is that of this one's.
handed_on :
    (db after : Db) (task t : TaskRow) (found : Option Node) (max_retries : ℤ)
    (result : Option (Db × TaskRow))
    → t.attempt ≡ task.attempt + 1
    → t.run_id ≡ task.run_id
    → length after.tasks ≡ length db.tasks + 1
    → pos (task.attempt + 1) ≤ℤ retry_budget found max_retries
    → Exhausts after t found max_retries result
    → Exhausts db task found max_retries result
handed_on db after task t found max_retries result attempt run longer covered
      (final, last, ends, count, bound, dead, over) =
    (
      final,
      last,
      ends,
      omega (arith, count, longer, attempt),
      inr (elim bound [ inl same ↦ ground arith | inr within ↦ within ]),
      dead,
      ap (λ r. is_running_run (get_run final r)) (sym run) ∙ over,
    )

next_id : (db : Db) (id : ℕ) (t : TaskRow) → get_task db id ≡ some t → t.id ≡ id
unfolding get_task
next_id db id t there = find_task_id id db.tasks t there

fail_all-again :
    (fuel : ℕ) (found : Option Node) (max_retries : ℤ) (exc : ℕ → Raised) (now : ℕ → ℕ) (db : Db)
    (task t : TaskRow)
    → will_retry task found max_retries (exc task.attempt) ≡ true
    → let after = record_failure db task found max_retries (exc task.attempt) (now task.attempt) in
      get_task after db.next_task ≡ some t
      → fail_all (suc fuel) found max_retries exc now db (some task)
        ≡ fail_all fuel found max_retries exc now after (some t)
unfolding fail_all
fail_all-again fuel found max_retries exc now db task t again there =
    let after = record_failure db task found max_retries (exc task.attempt) (now task.attempt) in
    ap
      (λ b.
        if b
        then fail_all fuel found max_retries exc now after (get_task after db.next_task)
        else some (after, task))
      again
    ∙ ap (fail_all fuel found max_retries exc now after) there

exhausted_by :
    (fuel : ℕ) (found : Option Node) (max_retries : ℤ) (exc : ℕ → Raised) (now : ℕ → ℕ) (db : Db)
    (task row : TaskRow)
    → All (λ t. t.id < db.next_task) db.tasks
    → get_task db task.id ≡ some row
    → (let after = record_failure db task found max_retries (exc task.attempt) (now task.attempt) in
        (t : TaskRow)
        → All (λ t. t.id < after.next_task) after.tasks
        → get_task after t.id ≡ some t
        → t.attempt ≡ task.attempt + 1
        → pos (task.attempt + 1) ≤ℤ retry_budget found max_retries
        → Exhausts after t found max_retries
            (fail_all fuel found max_retries exc now after (some t)))
    → Exhausts db task found max_retries
        (fail_all (suc fuel) found max_retries exc now db (some task))
unfolding fail_all
exhausted_by fuel found max_retries exc now db task row below here rest =
    let raised = exc task.attempt in
    let at = now task.attempt in
    let after = record_failure db task found max_retries raised at in
    elim (Bool-cases (will_retry task found max_retries raised)) [
      | inr ends ↦
          let (same, dead, over) =
            gave_up db task row found max_retries raised at below here ends in
          (after, task, rw ends refl, ap (λ n. n + task.attempt) same, inl refl, dead, over)
      | inl again ↦
          let (t, there, (_, attempt, run, _, _, _, _), longer, covered) =
            retried db task row found max_retries raised at below here again in
          let id : t.id ≡ db.next_task = next_id after db.next_task t there in
          let found_again : get_task after t.id ≡ some t = ap (get_task after) id ∙ there in
          let ended =
            rest t (retry-below db task found max_retries raised at again below) found_again attempt
              covered in
          subst (Exhausts db task found max_retries)
            (sym (fail_all-again fuel found max_retries exc now db task t again there))
            (handed_on db after task t found max_retries _ attempt run longer covered ended)
    ]

exhausted :
    (fuel : ℕ) (found : Option Node) (max_retries : ℤ) (exc : ℕ → Raised) (now : ℕ → ℕ) (db : Db)
    (task row : TaskRow)
    → All (λ t. t.id < db.next_task) db.tasks
    → get_task db task.id ≡ some row
    → pos_part (retry_budget found max_retries) ≤ task.attempt + fuel
    → Exhausts db task found max_retries
        (fail_all (suc fuel) found max_retries exc now db (some task))
exhausted zero found max_retries exc now db task row below here enough =
    exhausted_by zero found max_retries exc now db task row below here
      (λ t lower there attempt covered. absurd (omega (arith, covered, enough)))
exhausted (suc fuel) found max_retries exc now db task row below here enough =
    exhausted_by (suc fuel) found max_retries exc now db task row below here
      (λ t lower there attempt covered.
        exhausted fuel found max_retries exc now _ t t lower there (omega (arith, attempt, enough)))

-- If each attempt of a task fails, the retries come to an end: with the retry budget as fuel, and
-- one more, there is a last attempt, whose row is the dead letter, and the run is not running any
-- more. The last attempt is the one that the task is, or it is within the budget, and the store has
-- one more task for each retry. It is required that the task is in the store and that the store
-- gives ids that are not taken. The claims in between are left out.
pub fail_all-Exhausts :
    (found : Option Node) (max_retries : ℤ) (exc : ℕ → Raised) (now : ℕ → ℕ) (db : Db)
    (task row : TaskRow)
    → All (λ t. t.id < db.next_task) db.tasks
    → get_task db task.id ≡ some row
    → Exhausts db task found max_retries (
        fail_all
          (suc (pos_part (retry_budget found max_retries)))
          found
          max_retries
          exc
          now
          db
          (some task))
fail_all-Exhausts found max_retries exc now db task row below here =
    exhausted (pos_part (retry_budget found max_retries)) found max_retries exc now db task row
      below here (omega arith)

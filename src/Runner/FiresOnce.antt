-- ===== src/Runner/FiresOnce.antt =====
-- A join (athanore/engine/runner.py and athanore/store/repos/joins.py) is dispatched once for each
-- fan-out.
use athanore.Prelude.{
  ℕ, ◌+◌, ◌≤◌, ◌≡◌, refl, sym, subst, String, true, false, List, [], ◌∷◌, ◌++◌, eq_iff, arith,
  if◌then◌else◌,
}
use athanore.Prelude.Int.{ℤ}
use athanore.Graph.{Error, Graph}
use athanore.Routing.{Transition}
use athanore.Store.{BranchFrame, TaskRow, Db}
use athanore.Store.Tasks.{write_task}
use athanore.Store.Joins.{fires, any_fires, fired}
use athanore.Store.Rows.{KeepsRow}
use athanore.Runner.Keeps.{end_attempt_keeps}
use athanore.Runner.{enqueue_transition, fire_join, note_arrival}
use athanore.Runner.Outcome.{Raised, retry_task, BodyEnd, end_attempt}
use athanore.Runner.Sent.{Sent, queued, noted, fired_join}

-- How many join tasks the fan-out has at the join.
abbrev pub join_tasks : String → String → ℕ → List TaskRow → ℕ
join_tasks run_id join_node fanout_task [] = 0
join_tasks run_id join_node fanout_task (t ∷ ts) =
    (if fires run_id join_node fanout_task t then 1 else 0)
    + join_tasks run_id join_node fanout_task ts

abbrev pub FiresOnce : List TaskRow → Type 0
FiresOnce tasks =
    (run_id join_node : String) (fanout_task : ℕ)
    → join_tasks run_id join_node fanout_task tasks ≤ 1

join_tasks-append :
    (r j : String) (f : ℕ) (ts : List TaskRow) (t : TaskRow)
    → join_tasks r j f (ts ++ t ∷ []) ≡ join_tasks r j f ts + (if fires r j f t then 1 else 0)
join_tasks-append r j f [] t = ground arith
join_tasks-append r j f (u ∷ ts) t = omega (arith, join_tasks-append r j f ts t)

join_tasks-write_task :
    (r j : String) (f : ℕ) (task_id : ℕ) (g : TaskRow → TaskRow) (ts : List TaskRow)
    → ((t : TaskRow) → fires r j f (g t) ≡ fires r j f t)
    → join_tasks r j f (write_task task_id g ts) ≡ join_tasks r j f ts
join_tasks-write_task r j f task_id g [] same = refl
join_tasks-write_task r j f task_id g (t ∷ ts) same =
    ground (arith, same t, join_tasks-write_task r j f task_id g ts)

none_fire :
    (r j : String) (f : ℕ) (ts : List TaskRow)
    → any_fires r j f ts ≡ false
    → join_tasks r j f ts ≡ 0
none_fire r j f [] h = refl
none_fire r j f (t ∷ ts) h = ground (arith, none_fire r j f ts)

pub append-FiresOnce :
    (ts : List TaskRow) (t : TaskRow)
    → FiresOnce ts
    → ((r j : String) (f : ℕ) → fires r j f t ≡ true → join_tasks r j f ts ≡ 0)
    → FiresOnce (ts ++ t ∷ [])
append-FiresOnce ts t once first r j f =
    ground (arith, join_tasks-append r j f ts t, once r j f, first r j f)

fires-KeepsRow :
    (g : TaskRow → TaskRow)
    → KeepsRow g
    → (t : TaskRow) (r j : String) (f : ℕ) → fires r j f (g t) ≡ fires r j f t
fires-KeepsRow g keeps t r j f =
    let (id, run_id, node, lineage) = keeps t in rw (run_id, node, lineage) refl

write_task-FiresOnce :
    (task_id : ℕ) (g : TaskRow → TaskRow) (ts : List TaskRow)
    → KeepsRow g
    → FiresOnce ts
    → FiresOnce (write_task task_id g ts)
write_task-FiresOnce task_id g ts keeps once r j f =
    rw (join_tasks-write_task r j f task_id g ts (λ t. fires-KeepsRow g keeps t r j f)) (once r j f)

Sent-FiresOnce :
    {db : Db} {task : TaskRow} {t : Transition} {frames : List BranchFrame} {now : ℕ} {sent : Db}
    → Sent db task t frames now sent
    → FiresOnce db.tasks
    → FiresOnce sent.tasks
unfolding enqueue_transition note_arrival fire_join fired
Sent-FiresOnce {db} (queued target) once = append-FiresOnce db.tasks _ once λ r j f h. ground arith
Sent-FiresOnce (noted target frame) once = once
Sent-FiresOnce {db} {task} (fired_join target frame outer first) once =
    append-FiresOnce db.tasks _ once λ r j f h. ground (
      arith,
      eq_iff task.run_id r,
      eq_iff target.name j,
      none_fire task.run_id target.name frame.fanout db.tasks first,
    )

retry_task-FiresOnce :
    (db : Db) (task : TaskRow) (exc : Raised) (now : ℕ)
    → FiresOnce db.tasks
    → FiresOnce (retry_task db task exc now).tasks
unfolding retry_task
retry_task-FiresOnce db task exc now once = append-FiresOnce db.tasks _ once λ r j f h. ground arith

-- If each fan-out has at most one join task at each join before an attempt ends, then so it has
-- after it, however it ends: a branch that arrives late, or again, does not dispatch the join.
pub end_attempt-FiresOnce :
    (describe : Error → String) (graph : Graph) (max_retries : ℤ) (db : Db) (task : TaskRow)
    (body : BodyEnd) (now : ℕ)
    → FiresOnce db.tasks
    → FiresOnce (end_attempt describe graph max_retries db task body now).tasks
end_attempt-FiresOnce =
    end_attempt_keeps (λ d. FiresOnce d.tasks) (λ db after tasks next. subst FiresOnce (sym tasks))
      (λ db after i g keeps tasks next once.
        subst FiresOnce (sym tasks) (write_task-FiresOnce i g db.tasks keeps once))
      (λ db sent task t frames now. Sent-FiresOnce) retry_task-FiresOnce

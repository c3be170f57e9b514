-- ===== src/Ops/Edited.antt =====
-- Each operation of athanore/engine/ops.py is a sequence of the edits of `TaskEdits`.
use athanore.Prelude.{
  ℕ, suc, ◌+◌, ◌<◌, ◌≤◌, All, map, ltb, if◌then◌else◌, ◌≡◌, refl, inl, inr, String, false, not,
  ◌||◌, ◌==◌, member, Option, none, some, List, [], ◌∷◌, ◌++◌, is_some, Bool-cases, Option-cases,
  arith,
}
use athanore.Prelude.Int.{ℤ}
use athanore.Prelude.Dict.{Dict}
use athanore.Graph.{Graph}
use athanore.Store.{
  Lineage, is_join, on_cancel, on_delete, RunRow, TaskRow, CancelReason, Dialect, sqlite,
  postgresql, Db,
}
use athanore.Store.Runs.{
  find_run, set_run_status, edit_run, insert_run, delete_run, one_above, next_id,
}
use athanore.Store.Rows.{All-weaken, All-filter}
use athanore.Store.Tasks.{set_status, enqueue}
use athanore.Store.Positions.{swap_position, move_position, swap_with, list_order}
use athanore.Store.Joins.{fires}
use athanore.Ops.{
  bad_direction, Answer, answered, Reply, has_ended, find_graph, start_node, clean_title, read_run,
  cancel_task, cancel_each, pending_tasks, cancel_tasks,
}
use athanore.Ops.Answers.{Answers, bind-Answers, refuse_if-Answers, Answers-answered}
use athanore.Ops.Strip.{strip}
use athanore.Ops.RunOps.{
  is_pausable, is_paused, is_direction, clean_given, if_new, is_other, place_run, reordered,
  both_or_neither, append_entry, submit, submitted, edit, write_edit, reorder, pause, resume,
  append_log, noted_entry, cancel, cancelled_run, after_delete, delete,
}
use athanore.Ops.TaskEdits.{TaskEdit, added, removed, and_after, untouched, write_task-TaskEdit}

abbrev pub Edits : {V : Type 0} → Db → Answer (Reply V) → Type 0
Edits db call = Answers (λ reply. TaskEdit db reply.db) call

-- A task of a lineage other than a join's is no join task.
pub not_fires :
    (row : TaskRow) (lineage : Lineage)
    → row.lineage ≡ some lineage
    → is_join lineage.reason ≡ false
    → (r j : String) (f : ℕ) → fires r j f row ≡ false
not_fires row lineage h other r j f = rw h (ground (arith, other))

pub added_row :
    (db after : Db) (row : TaskRow) (lineage : Lineage)
    → after.tasks ≡ db.tasks ++ row ∷ []
    → after.next_task ≡ db.next_task + 1
    → row.id ≡ db.next_task
    → row.lineage ≡ some lineage
    → is_join lineage.reason ≡ false
    → TaskEdit db after
added_row db after row lineage tasks next id said other =
    added row id (not_fires row lineage said other) tasks next

pub submit-Edits :
    (graphs : Dict Graph) (db : Db) (new_id workflow title description : String) (now : ℕ)
    → Edits db (submit graphs db new_id workflow title description now)
unfolding submit submitted insert_run enqueue
submit-Edits graphs db new_id workflow title description now =
    bind-Answers _ (find_graph graphs workflow) _ λ graph found.
      bind-Answers _ (clean_title title) _ λ clean cleaned.
        bind-Answers _ (start_node graph) _
          λ start starts. added_row db _ _ _ refl refl refl refl refl

pub edit-Edits :
    (db : Db) (run_id : String) (title description : Option String) (now : ℕ)
    → Edits db (edit db run_id title description now)
unfolding edit edit_run
edit-Edits db run_id title description now = bind-Answers _ (read_run db run_id) _ λ run found.
    bind-Answers _ (clean_given title) _
      λ clean cleaned. wrote_one run (if_new run.title clean) (if_new run.description description)
  where
    wrote_one :
        (run : RunRow) (title description : Option String)
        → Edits db (write_edit db run title description now)
    wrote_one run title description = elim (Bool-cases (is_some title || is_some description)) [
      | inr e ↦ rw e (untouched db db refl refl)
      | inl e ↦ rw e (
          bind-Answers _ (read_run (edit_run db run.id title description now) run.id) _
            λ row read. untouched db _ refl refl)
    ]

-- The tasks of a store, which an operation on the runs leaves alone.
abbrev SameTasks : Db → Db → Type 0
SameTasks db after = (after.tasks ≡ db.tasks) × (after.next_task ≡ db.next_task)

swap_with-SameTasks :
    (db : Db) (row : RunRow) (neighbour : Option RunRow)
    → SameTasks db (swap_with row neighbour db).0
swap_with-SameTasks db row none = (refl, refl)
swap_with-SameTasks db row (some neighbour) = (refl, refl)

swap_position-SameTasks :
    (db : Db) (run_id : String) (direction : ℤ) → SameTasks db (swap_position db run_id direction).0
unfolding swap_position
swap_position-SameTasks db run_id direction = elim (Option-cases (find_run run_id db.runs)) [
  | inl e ↦ rw (swap_position, e) (refl, refl)
  | inr (row, e) ↦ rw (swap_position, e) (swap_with-SameTasks db row _)
]

move_position-SameTasks :
    (db : Db) (run_id : String) (index : ℤ) → SameTasks db (move_position db run_id index).0
unfolding move_position
move_position-SameTasks db run_id index = elim (Bool-cases (member run_id (list_order db.runs))) [
  | inr e ↦ rw (move_position, e) (refl, refl)
  | inl e ↦ rw (move_position, e) (refl, refl)
]

place_run-SameTasks :
    (db : Db) (run_id : String) (direction index : Option ℤ)
    → Answers (λ placed. SameTasks db placed.0) (place_run db run_id direction index)
place_run-SameTasks db run_id (some direction) index =
    refuse_if-Answers (λ placed. SameTasks db placed.0) (not (is_direction direction))
      (bad_direction direction) (answered (swap_position db run_id direction))
      λ allowed. swap_position-SameTasks db run_id direction
place_run-SameTasks db run_id none (some index) = move_position-SameTasks db run_id index
place_run-SameTasks db run_id none none = tt

reordered-Edits :
    (db : Db) (run : RunRow) (placed : Db × Option ℤ) (now : ℕ)
    → SameTasks db placed.0
    → Edits db (reordered run placed now)
reordered-Edits db run (db', none) now same = tt
reordered-Edits db run (db', some position) now same =
    elim (Bool-cases (is_other position run.position)) [
      | inl e ↦ rw e (untouched db _ same.0 same.1)
      | inr e ↦ rw e (untouched db _ same.0 same.1)
    ]

pub reorder-Edits :
    (db : Db) (run_id : String) (direction index : Option ℤ) (now : ℕ)
    → Edits db (reorder db run_id direction index now)
unfolding reorder
reorder-Edits db run_id direction index now =
    refuse_if-Answers _ (both_or_neither direction index) _ _ λ allowed.
      bind-Answers _ (read_run db run_id) _ λ run found.
        bind-Answers _ (place_run db run_id direction index) _ λ placed e.
          reordered-Edits db run placed now (
            Answers-answered _ (place_run db run_id direction index) placed
              (place_run-SameTasks db run_id direction index) e)

pub pause-Edits : (db : Db) (run_id : String) (now : ℕ) → Edits db (pause db run_id now)
unfolding pause set_run_status
pause-Edits db run_id now = bind-Answers _ (read_run db run_id) _ λ run found.
    refuse_if-Answers _ (not (is_pausable run.status)) _ _ λ allowed.
      bind-Answers _ (read_run (set_run_status db run_id _ none now) run_id) _
        λ row read. untouched db _ refl refl

pub resume-Edits : (db : Db) (run_id : String) (now : ℕ) → Edits db (resume db run_id now)
unfolding resume set_run_status
resume-Edits db run_id now = bind-Answers _ (read_run db run_id) _ λ run found.
    refuse_if-Answers _ (not (is_paused run.status)) _ _ λ allowed.
      bind-Answers _ (read_run (set_run_status db run_id _ none now) run_id) _
        λ row read. untouched db _ refl refl

pub append_log-Edits :
    (db : Db) (run_id said : String) (now : ℕ) → Edits db (append_log db run_id said now)
unfolding append_log noted_entry append_entry
append_log-Edits db run_id said now =
    refuse_if-Answers _ (strip said == "") _ _
      λ allowed. bind-Answers _ (read_run db run_id) _ λ run found. untouched db _ refl refl

pub cancel_task-TaskEdit :
    (db : Db) (task : TaskRow) (reason : CancelReason) (now : ℕ)
    → TaskEdit db (cancel_task db task reason now)
unfolding set_status
cancel_task-TaskEdit db task reason now =
    write_task-TaskEdit db _ task.id _ (λ t. (refl, refl, refl, refl)) refl refl

cancel_each-TaskEdit :
    (db : Db) (ts : List TaskRow) (reason : CancelReason) (now : ℕ)
    → TaskEdit db (cancel_each db ts reason now)
cancel_each-TaskEdit db [] reason now = untouched db db refl refl
cancel_each-TaskEdit db (t ∷ ts) reason now =
    and_after (cancel_task-TaskEdit db t reason now)
      (cancel_each-TaskEdit (cancel_task db t reason now) ts reason now)

cancel_tasks-TaskEdit :
    (db : Db) (run_id : String) (reason : CancelReason) (now : ℕ)
    → TaskEdit db (cancel_tasks db run_id reason now).0
unfolding cancel_tasks
cancel_tasks-TaskEdit db run_id reason now =
    cancel_each-TaskEdit db (pending_tasks db run_id) reason now

pub cancel-Edits : (db : Db) (run_id : String) (now : ℕ) → Edits db (cancel db run_id now)
unfolding cancel cancelled_run set_run_status
cancel-Edits db run_id now = bind-Answers _ (read_run db run_id) _ λ run found.
    refuse_if-Answers _ (has_ended run.status) _ _
      λ allowed. and_after (cancel_tasks-TaskEdit db run_id on_cancel now) (untouched _ _ refl refl)

one_above-above : (ts : List TaskRow) → All (λ t. t.id < one_above (map (λ u. u.id) ts)) ts
one_above-above [] = tt
one_above-above (t ∷ ts) =
    let rest = one_above (map (λ u. u.id) ts) in
    let top = if ltb t.id rest then rest else suc t.id in
    let high : rest ≤ top = ground arith in
    (
      ground arith,
      All-weaken (λ v. v.id < rest) (λ v. v.id < top) ts (λ v h. omega (arith, high))
          (one_above-above ts),
    )

next_id-above :
    (dialect : Dialect) (ts : List TaskRow) (next : ℕ)
    → All (λ t. t.id < next) ts
    → All (λ t. t.id < next_id dialect (map (λ u. u.id) ts) next) ts
next_id-above postgresql ts next below = below
next_id-above sqlite ts next below = one_above-above ts

pub delete-Edits : (db : Db) (run_id : String) (now : ℕ) → Edits db (delete db run_id now)
unfolding delete
delete-Edits db run_id now = bind-Answers _ (read_run db run_id) _ λ run found.
    deleted run (cancel_tasks db run_id on_delete now).0 (cancel_tasks db run_id on_delete now).1
      (cancel_tasks-TaskEdit db run_id on_delete now)
  where
    deleted :
        (run : RunRow) (mid : Db) (ids : List ℕ)
        → TaskEdit db mid
        → Edits db (after_delete run ids (delete_run mid run_id) now)
    deleted run mid ids first = elim (Option-cases (find_run run_id mid.runs)) [
      | inl e ↦ rw (delete_run, e) tt
      | inr (row, e) ↦
          rw (delete_run, e)
            (and_after first (
              removed (λ t. not (t.run_id == run_id)) refl
                λ below. next_id-above mid.dialect _ mid.next_task (
                  All-filter (λ t. t.id < mid.next_task) (λ t. not (t.run_id == run_id)) mid.tasks
                    below)))
    ]

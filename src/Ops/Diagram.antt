-- ===== src/Ops/Diagram.antt =====
-- Each operation of athanore/engine/ops.py moves the runs along the state diagram of `Machine`.
use athanore.Prelude.{
  ℕ, ◌≡◌, refl, ◌∙◌, subst, ap, inl, inr, String, Bool, true, false, not, ◌||◌, ◌==◌, member,
  Option, none, some, List, [], ◌∷◌, filter, is_some, Bool-cases, Option-cases, arith,
}
use athanore.Prelude.Int.{ℤ}
use athanore.Prelude.Dict.{Dict}
use athanore.Graph.{Graph}
use athanore.Store.{on_cancel, on_delete, RunRow, TaskRow, Db, CancelReason}
use athanore.Store.Runs.{find_run, get_run, set_run_status, edit_run, delete_run, insert_run}
use athanore.Store.Tasks.{set_status, enqueue}
use athanore.Store.Positions.{swap_position, move_position, swap_with, list_order, moved_order}
use athanore.Ops.{
  bad_direction, already_ended, Answer, answered, Reply, has_ended, find_graph, start_node,
  clean_title, read_run, cancel_each, cancel_tasks, cancel_task, pending_tasks,
}
use athanore.Ops.Answers.{Answers, bind-Answers, refuse_if-Answers, Answers-answered}
use athanore.Ops.Strip.{strip}
use athanore.Ops.Machine.{
  pauses, resumes, cancels, RunMoves, RunMove-refl, write_run-RunMoves, SameStates,
  SameStates-RunMoves, write_run-SameStates, renumber-SameStates, append-RunMoves, filter-RunMoves,
}
use athanore.Ops.RunOps.{
  is_direction, clean_given, if_new, is_other, place_run, reordered, both_or_neither, append_entry,
  submit, submitted, edit, write_edit, reorder, pause, resume, append_log, noted_entry, cancel,
  cancelled_run, after_delete, delete,
}

abbrev pub Moves : {V : Type 0} → Db → Answer (Reply V) → Type 0
Moves db call = Answers (λ reply. RunMoves db.runs reply.db.runs) call

not-false : (b : Bool) → not b ≡ false → b ≡ true
not-false b h = ground arith

pub read_run-found :
    (db : Db) (run_id : String) (run : RunRow)
    → read_run db run_id ≡ answered run
    → find_run run_id db.runs ≡ some run
unfolding read_run get_run
read_run-found db run_id run h = elim (Option-cases (find_run run_id db.runs)) [
  | inl e ↦ let k = rw (read_run, e) at h in cc
  | inr (found, e) ↦ let k = rw (read_run, e) at h in e ∙ ap some cc
]

pub pause-Moves : (db : Db) (run_id : String) (now : ℕ) → Moves db (pause db run_id now)
unfolding pause set_run_status
pause-Moves db run_id now = bind-Answers _ (read_run db run_id) _ λ run found.
    refuse_if-Answers _ _ _ _ λ allowed.
      bind-Answers _ (read_run (set_run_status db run_id _ none now) run_id) _ λ row wrote.
        write_run-RunMoves run_id _ db.runs run (λ r. refl) (read_run-found db run_id run found)
          (pauses (not-false _ allowed) refl refl)

pub resume-Moves : (db : Db) (run_id : String) (now : ℕ) → Moves db (resume db run_id now)
unfolding resume set_run_status
resume-Moves db run_id now = bind-Answers _ (read_run db run_id) _ λ run found.
    refuse_if-Answers _ _ _ _ λ allowed.
      bind-Answers _ (read_run (set_run_status db run_id _ none now) run_id) _ λ row wrote.
        write_run-RunMoves run_id _ db.runs run (λ r. refl) (read_run-found db run_id run found)
          (resumes (not-false _ allowed) refl refl)

pub submit-Moves :
    (graphs : Dict Graph) (db : Db) (new_id workflow title description : String) (now : ℕ)
    → Moves db (submit graphs db new_id workflow title description now)
unfolding submit submitted insert_run enqueue
submit-Moves graphs db new_id workflow title description now =
    bind-Answers _ (find_graph graphs workflow) _ λ graph found.
      bind-Answers _ (clean_title title) _ λ clean cleaned.
        bind-Answers _ (start_node graph) _ λ start starts. append-RunMoves db.runs _ refl refl

pub edit-Moves :
    (db : Db) (run_id : String) (title description : Option String) (now : ℕ)
    → Moves db (edit db run_id title description now)
unfolding edit edit_run
edit-Moves db run_id title description now = bind-Answers _ (read_run db run_id) _ λ run found.
    bind-Answers _ (clean_given title) _
      λ clean cleaned. wrote run (if_new run.title clean) (if_new run.description description)
  where
    wrote :
        (run : RunRow) (title description : Option String)
        → Moves db (write_edit db run title description now)
    wrote run title description = elim (Bool-cases (is_some title || is_some description)) [
      | inr e ↦ rw e (λ r. RunMove-refl (find_run r db.runs))
      | inl e ↦ rw e (
          bind-Answers _ (read_run (edit_run db run.id title description now) run.id) _ λ row read.
            SameStates-RunMoves db.runs _
              (write_run-SameStates run.id _ db.runs (λ r. refl) (λ r. refl) λ r. refl))
    ]

swap_with-SameStates :
    (db : Db) (row : RunRow) (neighbour : Option RunRow)
    → SameStates db.runs (swap_with row neighbour db).0.runs
swap_with-SameStates db row none r = refl
swap_with-SameStates db row (some neighbour) r =
    write_run-SameStates neighbour.id _ _ (λ v. refl) (λ v. refl) (λ v. refl) r
    ∙ write_run-SameStates row.id _ db.runs (λ v. refl) (λ v. refl) (λ v. refl) r

swap_position-SameStates :
    (db : Db) (run_id : String) (direction : ℤ)
    → SameStates db.runs (swap_position db run_id direction).0.runs
unfolding swap_position
swap_position-SameStates db run_id direction r = elim (Option-cases (find_run run_id db.runs)) [
  | inl e ↦ rw (swap_position, e) refl
  | inr (row, e) ↦ rw (swap_position, e) (swap_with-SameStates db row _ r)
]

move_position-SameStates :
    (db : Db) (run_id : String) (index : ℤ)
    → SameStates db.runs (move_position db run_id index).0.runs
unfolding move_position
move_position-SameStates db run_id index r =
    elim (Bool-cases (member run_id (list_order db.runs))) [
      | inr e ↦ rw (move_position, e) refl
      | inl e ↦
          rw (move_position, e)
            (renumber-SameStates (moved_order run_id index (list_order db.runs)) db.runs r)
    ]

reordered-Moves :
    (db : Db) (run : RunRow) (placed : Db × Option ℤ) (now : ℕ)
    → SameStates db.runs placed.0.runs
    → Moves db (reordered run placed now)
reordered-Moves db run (db', none) now same = tt
reordered-Moves db run (db', some position) now same =
    elim (Bool-cases (is_other position run.position)) [
      | inl e ↦ rw e (SameStates-RunMoves db.runs db'.runs same)
      | inr e ↦ rw e (SameStates-RunMoves db.runs db'.runs same)
    ]

place_run-SameStates :
    (db : Db) (run_id : String) (direction index : Option ℤ)
    → Answers (λ placed. SameStates db.runs placed.0.runs) (place_run db run_id direction index)
place_run-SameStates db run_id (some direction) index =
    refuse_if-Answers (λ placed. SameStates db.runs placed.0.runs) (not (is_direction direction))
      (bad_direction direction) (answered (swap_position db run_id direction))
      λ allowed. swap_position-SameStates db run_id direction
place_run-SameStates db run_id none (some index) = move_position-SameStates db run_id index
place_run-SameStates db run_id none none = tt

pub reorder-Moves :
    (db : Db) (run_id : String) (direction index : Option ℤ) (now : ℕ)
    → Moves db (reorder db run_id direction index now)
unfolding reorder
reorder-Moves db run_id direction index now =
    refuse_if-Answers _ (both_or_neither direction index) _ _ λ allowed.
      bind-Answers _ (read_run db run_id) _ λ run found.
        bind-Answers _ (place_run db run_id direction index) _ λ placed e.
          reordered-Moves db run placed now (
            Answers-answered _ (place_run db run_id direction index) placed
              (place_run-SameStates db run_id direction index) e)

pub append_log-Moves :
    (db : Db) (run_id said : String) (now : ℕ) → Moves db (append_log db run_id said now)
unfolding append_log noted_entry append_entry
append_log-Moves db run_id said now = refuse_if-Answers _ (strip said == "") _ _ λ allowed.
    bind-Answers _ (read_run db run_id) _ λ run found. λ r. RunMove-refl (find_run r db.runs)

cancel_each-runs :
    (db : Db) (ts : List TaskRow) (reason : CancelReason) (now : ℕ)
    → (cancel_each db ts reason now).runs ≡ db.runs
unfolding set_status
cancel_each-runs db [] reason now = refl
cancel_each-runs db (t ∷ ts) reason now =
    cancel_each-runs (cancel_task db t reason now) ts reason now

cancel_tasks-runs :
    (db : Db) (run_id : String) (reason : CancelReason) (now : ℕ)
    → (cancel_tasks db run_id reason now).0.runs ≡ db.runs
unfolding cancel_tasks
cancel_tasks-runs db run_id reason now = cancel_each-runs db (pending_tasks db run_id) reason now

not-true : (b : Bool) → b ≡ false → not b ≡ true
not-true b h = ground arith

pub cancel-Moves : (db : Db) (run_id : String) (now : ℕ) → Moves db (cancel db run_id now)
unfolding cancel cancelled_run set_run_status
cancel-Moves db run_id now = bind-Answers _ (read_run db run_id) _ λ run found.
    refuse_if-Answers (λ reply. RunMoves db.runs reply.db.runs) (has_ended run.status)
      (already_ended run_id run.status) (answered (cancelled_run db run_id now))
      λ allowed. rw (cancel_tasks-runs db run_id on_cancel now) (
        write_run-RunMoves run_id _ db.runs run (λ r. refl) (read_run-found db run_id run found)
          (cancels allowed refl refl))

pub delete-Moves : (db : Db) (run_id : String) (now : ℕ) → Moves db (delete db run_id now)
unfolding delete
delete-Moves db run_id now = bind-Answers _ (read_run db run_id) _ λ run found.
    deleted run (cancel_tasks db run_id on_delete now).0 (cancel_tasks db run_id on_delete now).1
      (cancel_tasks-runs db run_id on_delete now)
  where
    deleted :
        (run : RunRow) (mid : Db) (ids : List ℕ)
        → mid.runs ≡ db.runs
        → Moves db (after_delete run ids (delete_run mid run_id) now)
    deleted run mid ids same = elim (Option-cases (find_run run_id mid.runs)) [
      | inl e ↦ rw (delete_run, e) tt
      | inr (row, e) ↦
          rw (delete_run, e)
            (subst (λ runs. RunMoves runs (filter (λ v. not (v.id == run_id)) mid.runs)) same
              (filter-RunMoves run_id mid.runs))
    ]

-- ===== src/Ops/RunOps.antt =====
-- athanore/engine/ops.py: the operations on a run, `submit` to `delete`.
use athanore.Prelude.{
  ℕ, ◌+◌, String, Bool, true, false, not, ◌||◌, Option, none, some, List, [], ◌∷◌, ◌++◌, eqb,
  is_some, ◌==◌, if◌then◌else◌,
}
use athanore.Prelude.Int.{ℤ, pos, negsuc, ltb_ℤ}
use athanore.Prelude.Dict.{Dict}
use athanore.Graph.{Node, Graph}
use athanore.Json.{Value, text, dict, entry, end, name}
use athanore.Store.{
  RunStatus, queued, running, paused, run_cancelled, RunRow, by_start, user, LogEntryRow, on_cancel,
  on_delete, task_enqueued, run_created, run_updated, run_reordered, run_paused, run_resumed,
  run_cancelled_event, run_deleted, log_appended, Db,
}
use athanore.Store.Runs.{set_run_status, insert_run, edit_run, delete_run}
use athanore.Store.Tasks.{enqueue}
use athanore.Store.Positions.{swap_position, move_position}
use athanore.Runner.{dispatch_key, emit}
use athanore.Ops.{
  no_run, empty_entry, not_pausable, not_paused, already_ended, not_one_of_two, bad_direction,
  Answer, answered, refused, ◌>>=◌, ◌>>◌, Reply, refuse_if, has_ended, find_graph, start_node,
  read_run, clean_title, current_node, cancel_tasks,
}
use athanore.Ops.Strip.{strip, prefix}

abbrev pub submission : String → String → Value
submission title description =
    dict (entry (name "title") (text title) (entry (name "description") (text description) end))

-- What `submit` writes. `new_id` is the id that is drawn.
unfoldable pub submitted : Db → String → String → String → String → Node → ℕ → Reply RunRow
unfolding insert_run enqueue
submitted db new_id workflow title description start now =
    let (inserted, run) = insert_run db new_id workflow title description now in
    let created = emit inserted run.id none (run_created workflow title run.position) now in
    let (priority, explicit) = dispatch_key start in
    let (queued_db, task) =
      enqueue created run.id start.name (submission title description) priority explicit 1 now
        (some (record { from = none; reason = by_start; arrivals = none })) [] in
    record {
      value = run;
      db =
          emit queued_db run.id (some task.id)
            (task_enqueued start.name task.attempt by_start none true [] none) now;
      cancels = [];
      wakes = true;
    }

unfoldable pub submit :
    Dict Graph → Db → String → String → String → String → ℕ → Answer (Reply RunRow)
unfolding find_graph clean_title start_node
submit graphs db new_id workflow title description now = do
  graph ← find_graph graphs workflow
  clean ← clean_title title
  start ← start_node graph
  answered (submitted db new_id workflow clean description start now)

abbrev pub if_new : String → Option String → Option String
if_new old none = none
if_new old (some new) = if new == old then none else some new

abbrev pub clean_given : Option String → Answer (Option String)
clean_given none = answered none
clean_given (some title) = do clean ← clean_title title; answered (some clean)

abbrev pub wrote_edit : Db → RunRow → Option String → Option String → ℕ → Answer (Reply RunRow)
wrote_edit db run title description now = do
  row ← read_run (edit_run db run.id title description now) run.id
  answered (record {
    value = row;
    db =
        emit (edit_run db run.id title description now) run.id none
          (run_updated title description none) now;
    cancels = [];
    wakes = false;
  })

-- The end of `edit`, with the fields that change.
abbrev pub write_edit : Db → RunRow → Option String → Option String → ℕ → Answer (Reply RunRow)
write_edit db run title description now =
    if is_some title || is_some description
    then wrote_edit db run title description now
    else answered (record { value = run; db = db; cancels = []; wakes = false })

unfoldable pub edit : Db → String → Option String → Option String → ℕ → Answer (Reply RunRow)
unfolding read_run clean_title edit_run
edit db run_id title description now = do
  run ← read_run db run_id
  clean ← clean_given title
  write_edit db run (if_new run.title clean) (if_new run.description description) now

-- direction not in (-1, 1)
abbrev pub is_direction : ℤ → Bool
is_direction (pos n) = eqb n 1
is_direction (negsuc n) = eqb n 0

abbrev pub place_run : Db → String → Option ℤ → Option ℤ → Answer (Db × Option ℤ)
place_run db run_id (some direction) index = do
  refuse_if (not (is_direction direction)) (bad_direction direction)
  answered (swap_position db run_id direction)
place_run db run_id none (some index) = answered (move_position db run_id index)
place_run db run_id none none = refused not_one_of_two

abbrev pub is_other : ℤ → ℤ → Bool
is_other a b = ltb_ℤ a b || ltb_ℤ b a

abbrev pub reordered : RunRow → Db × Option ℤ → ℕ → Answer (Reply ℤ)
reordered run (db, none) now = refused (no_run run.id)
reordered run (db, some position) now = answered (record {
  value = position;
  db =
      if is_other position run.position
      then emit db run.id none (run_reordered position run.position) now
      else db;
  cancels = [];
  wakes = false;
})

abbrev pub both_or_neither : Option ℤ → Option ℤ → Bool
both_or_neither none none = true
both_or_neither (some direction) (some index) = true
both_or_neither _ _ = false

unfoldable pub reorder : Db → String → Option ℤ → Option ℤ → ℕ → Answer (Reply ℤ)
unfolding read_run swap_position move_position
reorder db run_id direction index now = do
  refuse_if (both_or_neither direction index) not_one_of_two
  run ← read_run db run_id
  placed ← place_run db run_id direction index
  reordered run placed now

-- PAUSABLE
abbrev pub is_pausable : RunStatus → Bool
is_pausable queued = true
is_pausable running = true
is_pausable _ = false

abbrev pub is_paused : RunStatus → Bool
is_paused paused = true
is_paused _ = false

unfoldable pub pause : Db → String → ℕ → Answer (Reply RunRow)
unfolding read_run set_run_status
pause db run_id now = do
  run ← read_run db run_id
  refuse_if (not (is_pausable run.status)) (not_pausable run_id run.status)
  row ← read_run (set_run_status db run_id paused none now) run_id
  answered (record {
    value = row;
    db = emit (set_run_status db run_id paused none now) run_id none run_paused now;
    cancels = [];
    wakes = false;
  })

unfoldable pub resume : Db → String → ℕ → Answer (Reply RunRow)
unfolding read_run set_run_status
resume db run_id now = do
  run ← read_run db run_id
  refuse_if (not (is_paused run.status)) (not_paused run_id run.status)
  row ← read_run (set_run_status db run_id running none now) run_id
  answered (record {
    value = row;
    db = emit (set_run_status db run_id running none now) run_id none run_resumed now;
    cancels = [];
    wakes = true;
  })

-- `LogRepo.append`, of the entry of an operator.
unfoldable pub append_entry : Db → String → String → String → ℕ → Db × LogEntryRow
append_entry db run_id node said now =
    let row : LogEntryRow = record {
      id = db.next_log;
      run_id = run_id;
      task_id = none;
      node = node;
      author = user;
      kind = none;
      text = said;
      created = now;
    } in
    (record db { log = db.log ++ row ∷ []; next_log = db.next_log + 1 }, row)

-- The preview has PREVIEW_CHARS characters at most.
unfoldable pub noted_entry : Db → String → String → ℕ → Reply LogEntryRow
unfolding current_node append_entry prefix
noted_entry db run_id said now =
    let node = current_node db run_id in
    let (db', row) = append_entry db run_id node said now in
    record {
      value = row;
      db = emit db' run_id none (log_appended row.id user node (prefix 200 said)) now;
      cancels = [];
      wakes = false;
    }

unfoldable pub append_log : Db → String → String → ℕ → Answer (Reply LogEntryRow)
unfolding read_run strip
append_log db run_id said now = do
  refuse_if (strip said == "") empty_entry
  run ← read_run db run_id
  answered (noted_entry db run_id said now)

unfoldable pub cancelled_run : Db → String → ℕ → Reply (List ℕ)
unfolding cancel_tasks set_run_status
cancelled_run db run_id now =
    let (db', task_ids) = cancel_tasks db run_id on_cancel now in
    record {
      value = task_ids;
      db =
          emit (set_run_status db' run_id run_cancelled (some now) now) run_id none
            (run_cancelled_event task_ids) now;
      cancels = task_ids;
      wakes = true;
    }

unfoldable pub cancel : Db → String → ℕ → Answer (Reply (List ℕ))
unfolding read_run
cancel db run_id now = do
  run ← read_run db run_id
  refuse_if (has_ended run.status) (already_ended run_id run.status)
  answered (cancelled_run db run_id now)

abbrev pub after_delete : RunRow → List ℕ → Db × Bool → ℕ → Answer (Reply (Unit {0}))
after_delete run task_ids (db, false) now = refused (no_run run.id)
after_delete run task_ids (db, true) now = answered (record {
  value = tt;
  db = emit db run.id none (run_deleted run.workflow run.title) now;
  cancels = task_ids;
  wakes = true;
})

-- Two transactions, and between them the attempts are cancelled; nothing else is written between.
unfoldable pub delete : Db → String → ℕ → Answer (Reply (Unit {0}))
unfolding read_run cancel_tasks delete_run
delete db run_id now = do
  run ← read_run db run_id
  after_delete run (cancel_tasks db run_id on_delete now).1
      (delete_run (cancel_tasks db run_id on_delete now).0 run_id) now

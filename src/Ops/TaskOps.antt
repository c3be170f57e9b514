-- ===== src/Ops/TaskOps.antt =====
-- athanore/engine/ops.py: the operations on a task and on a node, `rerun` to `set_status`.
use athanore.Prelude.{
  ℕ, ◌+◌, String, Bool, true, false, not, Option, none, some, List, [], ◌∷◌, if◌then◌else◌,
}
use athanore.Prelude.Dict.{Dict}
use athanore.Graph.{Node, Graph}
use athanore.Json.{Value, null}
use athanore.Store.{
  TaskStatus, ready, cancelled, dead_letter, is_pending, RunRow, BranchFrame, Lineage, by_rerun,
  by_manual_retry, by_move, TaskRow, ArrivalRow, on_move, on_set_status, task_enqueued, task_moved,
  task_status_set, task_cancelled, Db,
}
use athanore.Store.Tasks.{enqueue, set_status, last_for_node}
use athanore.Store.Joins.{arrivals_at}
use athanore.Runner.{is_null, emit, frame_summaries, arrivals_payload, arrival_senders}
use athanore.Ops.{
  not_stopped, into_join, never_fired, no_arrivals, not_settable, Answer, answered, refused, ◌>>=◌,
  ◌>>◌, Reply, refuse_if, find_graph, find_node, read_run, read_task, next_attempt, enqueue_at,
  cancel_task, reopen,
}

abbrev pub lineage_from : TaskRow → Option ℕ
lineage_from task = elim task.lineage [ none ↦ none | some lineage ↦ lineage.from ]

abbrev pub replayed_fanout : Option TaskRow → Option ℕ
replayed_fanout none = none
replayed_fanout (some last) = lineage_from last

-- What a rerun enqueues: the payload, and the lineage of the task.
abbrev pub replay : String → String → ℕ → List ArrivalRow → Answer (Value × Lineage)
replay run_id join_node fanout [] = refused (no_arrivals join_node run_id)
replay run_id join_node fanout (a ∷ rest) = answered (
  arrivals_payload (a ∷ rest),
  record { from = some fanout; reason = by_rerun; arrivals = some (arrival_senders (a ∷ rest)) },
)

-- `_join_replay`
unfoldable pub join_replay : Db → String → Node → Option TaskRow → Answer (Value × Lineage)
unfolding arrivals_at
join_replay db run_id target last = elim (replayed_fanout last) [
  | none ↦ refused (never_fired target.name run_id)
  | some fanout ↦ replay run_id target.name fanout (arrivals_at db run_id target.name fanout)
]

abbrev pub last_payload : Option TaskRow → Value
last_payload none = null
last_payload (some last) = last.payload

abbrev pub last_branch : Option TaskRow → List BranchFrame
last_branch none = []
last_branch (some last) = last.branch

abbrev pub last_id : Option TaskRow → Option ℕ
last_id none = none
last_id (some last) = some last.id

abbrev pub rerun_work : Db → String → Node → Option TaskRow → Answer (Value × Lineage)
rerun_work db run_id target last =
    if target.join
    then join_replay db run_id target last
    else answered
        (last_payload last, record { from = last_id last; reason = by_rerun; arrivals = none })

unfoldable pub rerun_task :
    Db → RunRow → Node → String → Option TaskRow → Value × Lineage → ℕ → Reply TaskRow
unfolding next_attempt enqueue_at reopen
rerun_task db run target node last (payload, lineage) now =
    let (db', task) =
      enqueue_at db run.id target payload lineage (last_branch last) (next_attempt db run.id node)
        now in
    record { value = task; db = reopen db' run now; cancels = []; wakes = true }

unfoldable pub rerun : Dict Graph → Db → String → String → ℕ → Answer (Reply TaskRow)
unfolding read_run find_graph find_node last_for_node join_replay
rerun graphs db run_id node now = do
  run ← read_run db run_id
  graph ← find_graph graphs run.workflow
  target ← find_node graph node
  work ← rerun_work db run_id target (last_for_node db run_id node)
  answered (rerun_task db run target node (last_for_node db run_id node) work now)

-- The next attempt that `retry` enqueues, with the dispatch key and the time of the one it follows.
unfoldable pub retried_task : Db → RunRow → TaskRow → ℕ → Reply TaskRow
unfolding enqueue reopen
retried_task db run task now =
    let (db', again) =
      enqueue db task.run_id task.node task.payload task.priority task.explicit (task.attempt + 1)
        task.created
        (some (record { from = some task.id; reason = by_manual_retry; arrivals = none }))
        task.branch in
    record {
      value = again;
      db =
          reopen
            (emit db' task.run_id (some again.id)
              (task_enqueued task.node again.attempt by_manual_retry (some task.id)
                (not (is_null task.payload)) (frame_summaries task.branch) none)
              now)
            run now;
      cancels = [];
      wakes = true;
    }

unfoldable pub retry : Dict Graph → Db → ℕ → ℕ → Answer (Reply TaskRow)
unfolding read_task read_run find_graph find_node
retry graphs db task_id now = do
  task ← read_task db task_id
  refuse_if (is_pending task.status) (not_stopped task_id task.status)
  run ← read_run db task.run_id
  graph ← find_graph graphs run.workflow
  target ← find_node graph task.node
  answered (retried_task db run task now)

unfoldable pub moved_task : Db → RunRow → TaskRow → Node → String → ℕ → Reply TaskRow
unfolding set_status enqueue_at reopen
moved_task db run task target node now =
    let stopped = cancel_task db task on_move now in
    let (db', again) =
      enqueue_at (if is_pending task.status then stopped else db) task.run_id target task.payload
        (record { from = some task.id; reason = by_move; arrivals = none }) task.branch 1 now in
    record {
      value = again;
      db =
          reopen (emit db' task.run_id (some task.id) (task_moved task.node node again.id) now) run
            now;
      cancels = task.id ∷ [];
      wakes = true;
    }

unfoldable pub move : Dict Graph → Db → ℕ → String → ℕ → Answer (Reply TaskRow)
unfolding read_task read_run find_graph find_node
move graphs db task_id node now = do
  task ← read_task db task_id
  run ← read_run db task.run_id
  graph ← find_graph graphs run.workflow
  target ← find_node graph node
  refuse_if target.join (into_join node)
  answered (moved_task db run task target node now)

-- SETTABLE
abbrev pub is_settable : TaskStatus → Bool
is_settable ready = true
is_settable cancelled = true
is_settable dead_letter = true
is_settable _ = false

-- The statuses that do more: `ready` opens the run again, and `cancelled` says so in an event.
abbrev pub announce_status : Db → TaskRow → TaskStatus → ℕ → Answer Db
announce_status db task ready now = do run ← read_run db task.run_id; answered (reopen db run now)
announce_status db task cancelled now =
    answered
      (emit db task.run_id (some task.id) (task_cancelled task.node task.status on_set_status) now)
announce_status db task _ now = answered db

-- A text that is none of the statuses is refused as `done` is.
unfoldable pub set_task_status : Db → ℕ → TaskStatus → ℕ → Answer (Reply TaskRow)
unfolding read_task set_status read_run reopen
set_task_status db task_id status now = do
  refuse_if (not (is_settable status)) (not_settable status)
  task ← read_task db task_id
  row ← read_task (set_status db task_id status) task_id
  announced ←
      announce_status
        (emit (set_status db task_id status) task.run_id (some task_id)
          (task_status_set task.node task.status status) now)
        task status now
  answered (record { value = row; db = announced; cancels = task_id ∷ []; wakes = true })

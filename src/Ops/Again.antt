-- ===== src/Ops/Again.antt =====
-- What `retry`, `move` and `rerun` of athanore/engine/ops.py enqueue.
use athanore.Prelude.{
  ℕ, ◌+◌, ◌<◌, ◌≡◌, refl, ◌∙◌, ap, inl, inr, String, Bool, true, false, ◌&&◌, Option, none, some,
  List, [], ◌∷◌, ◌++◌, filter, ltb, ◌==◌, All, Bool-cases, eq_refl, arith, if◌then◌else◌,
}
use athanore.Prelude.Dict.{Dict}
use athanore.Graph.{Node, Graph}
use athanore.Store.{running, RunRow, TaskRow, is_pending, by_rerun, by_manual_retry, Db}
use athanore.Store.Runs.{find_run, get_run, reopen_run}
use athanore.Store.Rows.{All-filter, find_run-write_run}
use athanore.Store.Tasks.{enqueue, newest, last_for_node}
use athanore.Store.Joins.{is_of, in_index_order, arrivals_of, arrivals_at}
use athanore.Ops.{
  no_arrivals, answered, refused, Reply, has_ended, find_graph, find_node, read_run, read_task,
  reopen,
}
use athanore.Ops.Diagram.{read_run-found}
use athanore.Ops.TaskOps.{
  last_payload, last_id, replay, rerun, rerun_work, join_replay, retry, retried_task,
}

newest-below :
    (n : ℕ) (found : TaskRow) (ts : List TaskRow) (row : TaskRow)
    → found.id < n
    → All (λ t. t.id < n) ts
    → row.id ≡ n
    → newest (some found) (ts ++ row ∷ []) ≡ some row
newest-below n found [] row h below new = ground arith
newest-below n found (t ∷ ts) row h below new = elim (Bool-cases (ltb found.id t.id)) [
  | inl e ↦ rw (newest, e) (newest-below n t ts row below.0 below.1 new)
  | inr e ↦ rw (newest, e) (newest-below n found ts row h below.1 new)
]

newest-new :
    (n : ℕ) (ts : List TaskRow) (row : TaskRow)
    → All (λ t. t.id < n) ts
    → row.id ≡ n
    → newest none (ts ++ row ∷ []) ≡ some row
newest-new n [] row below new = refl
newest-new n (t ∷ ts) row below new = newest-below n t ts row below.0 below.1 new

filter-append :
    (p : TaskRow → Bool) (ts : List TaskRow) (row : TaskRow)
    → p row ≡ true
    → filter p (ts ++ row ∷ []) ≡ filter p ts ++ row ∷ []
filter-append p [] row h = rw h refl
filter-append p (t ∷ ts) row h = elim (Bool-cases (p t)) [
  | inl e ↦ rw e (ap (λ rest. t ∷ rest) (filter-append p ts row h))
  | inr e ↦ rw e (filter-append p ts row h)
]

-- The newest task of a node is the one that was enqueued last.
last_for_node-new :
    (db after : Db) (row : TaskRow)
    → All (λ t. t.id < db.next_task) db.tasks
    → after.tasks ≡ db.tasks ++ row ∷ []
    → row.id ≡ db.next_task
    → last_for_node after row.run_id row.node ≡ some row
unfolding last_for_node
last_for_node-new db after row below tasks new =
    let p : TaskRow → Bool = λ t. t.run_id == row.run_id && t.node == row.node in
    let named : p row ≡ true = ground (arith, eq_refl row.run_id, eq_refl row.node) in
    ap (newest none) (ap (filter p) tasks ∙ filter-append p db.tasks row named)
    ∙ newest-new db.next_task (filter p db.tasks) row
        (All-filter (λ t. t.id < db.next_task) p db.tasks below) new

pub reopen-tasks : (db : Db) (run : RunRow) (now : ℕ) → (reopen db run now).tasks ≡ db.tasks
unfolding reopen reopen_run
reopen-tasks db run now = elim (Bool-cases (has_ended run.status)) [
  | inl e ↦ rw (reopen, e) refl
  | inr e ↦ rw (reopen, e) refl
]

reopen-arrivals : (db : Db) (run : RunRow) (now : ℕ) → (reopen db run now).arrivals ≡ db.arrivals
unfolding reopen reopen_run
reopen-arrivals db run now = elim (Bool-cases (has_ended run.status)) [
  | inl e ↦ rw (reopen, e) refl
  | inr e ↦ rw (reopen, e) refl
]

-- The row that a retry enqueues.
abbrev again : Db → TaskRow → TaskRow
again db task =
    (enqueue db task.run_id task.node task.payload task.priority task.explicit (task.attempt + 1)
      task.created
      (some (record { from = some task.id; reason = by_manual_retry; arrivals = none }))
      task.branch).1

retried_task-last :
    (db : Db) (run : RunRow) (task : TaskRow) (now : ℕ)
    → All (λ t. t.id < db.next_task) db.tasks
    → last_for_node (retried_task db run task now).db task.run_id task.node ≡ some (again db task)
unfolding retried_task enqueue
retried_task-last db run task now below =
    last_for_node-new db (retried_task db run task now).db (again db task) below
      (reopen-tasks _ run now) refl

retried_task-replay :
    (db : Db) (run : RunRow) (task : TaskRow) (target : Node) (now : ℕ)
    → All (λ t. t.id < db.next_task) db.tasks
    → arrivals_of db task.run_id target.name task.id ≡ []
    → let after = (retried_task db run task now).db in
      join_replay after task.run_id target (last_for_node after task.run_id task.node)
      ≡ refused (no_arrivals target.name task.run_id)
unfolding join_replay retried_task enqueue arrivals_at
retried_task-replay db run task target now below gone =
    let after = (retried_task db run task now).db in
    let empty : arrivals_of after task.run_id target.name task.id ≡ [] =
      ap (filter (is_of task.run_id target.name task.id)) (reopen-arrivals _ run now) ∙ gone in
    ap (join_replay after task.run_id target) (retried_task-last db run task now below)
    ∙ ap (λ rows. replay task.run_id target.name task.id (in_index_order rows)) empty

find_run-reopen :
    (db : Db) (run : RunRow) (now : ℕ) (r : String) (found : RunRow)
    → find_run r db.runs ≡ some found
    → (again : RunRow) × (find_run r (reopen db run now).runs ≡ some again)
      × (again.workflow ≡ found.workflow)
      × (again.id ≡ found.id)
unfolding reopen reopen_run
find_run-reopen db run now r found h = elim (Bool-cases (has_ended run.status)) [
  | inr e ↦ (found, rw (reopen, e) h, refl, refl)
  | inl e ↦ elim (Bool-cases (run.id == r)) [
    | inr o ↦ (
      found,
      rw (reopen, e) (find_run-write_run run.id r _ db.runs (λ v. refl) ∙ rw o h),
      refl,
      refl,
    )
    | inl o ↦ (
      record found { status = running; updated = now; finished = none },
      rw (reopen, e) (find_run-write_run run.id r _ db.runs (λ v. refl) ∙ rw o (rw h refl)),
      refl,
      refl,
    )
  ]
]

read_run_of :
    (db : Db) (r : String) (run : RunRow)
    → find_run r db.runs ≡ some run
    → read_run db r ≡ answered run
unfolding read_run get_run
read_run_of db r run h = rw (read_run, h) refl

rerun_work-join :
    (db : Db) (run_id : String) (target : Node) (last : Option TaskRow)
    → target.join ≡ true
    → rerun_work db run_id target last ≡ join_replay db run_id target last
rerun_work-join db run_id target last join =
    ap
      (λ b.
        if b
        then join_replay db run_id target last
        else answered
            (last_payload last, record { from = last_id last; reason = by_rerun; arrivals = none }))
      join

-- A task of a join that is retried by hand is the newest of its node, and its lineage names the
-- task that it follows, where that of a join names the fan-out. So unless arrivals are stored under
-- that task's own id, `rerun` of the join on that store is refused for having none, though the ones
-- that the join was dispatched with are in the store.
pub retry-rerun :
    (graphs : Dict Graph) (db : Db) (run : RunRow) (task : TaskRow) (graph : Graph) (target : Node)
    (now later : ℕ)
    → All (λ t. t.id < db.next_task) db.tasks
    → read_task db task.id ≡ answered task
    → is_pending task.status ≡ false
    → read_run db task.run_id ≡ answered run
    → find_graph graphs run.workflow ≡ answered graph
    → find_node graph task.node ≡ answered target
    → target.join ≡ true
    → arrivals_of db task.run_id target.name task.id ≡ []
    → (reply : Reply TaskRow) × (retry graphs db task.id now ≡ answered reply)
      × (reply.db.arrivals ≡ db.arrivals)
      × (rerun graphs reply.db task.run_id task.node later
          ≡ refused (no_arrivals target.name task.run_id))
unfolding retry rerun retried_task enqueue
retry-rerun graphs db run task graph target now later below here idle found known there join gone =
    (
      retried_task db run task now,
      rw (here, idle, found, known, there) refl,
      reopen-arrivals _ run now,
      refused_again,
    )
  where
    refused_again :
        rerun graphs (retried_task db run task now).db task.run_id task.node later
        ≡ refused (no_arrivals target.name task.run_id)
    refused_again =
        let after = (retried_task db run task now).db in
        let (again_run, again_found, flow, id) =
          find_run-reopen _ run now task.run_id run (read_run-found db task.run_id run found) in
        let read = read_run_of after task.run_id again_run again_found in
        let known_again = ap (find_graph graphs) flow ∙ known in
        let work =
          rerun_work-join after task.run_id target (last_for_node after task.run_id task.node) join
          ∙ retried_task-replay db run task target now below gone in
        rw (read, known_again, there, work) refl

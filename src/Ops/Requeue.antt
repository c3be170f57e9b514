-- ===== src/Ops/Requeue.antt =====
-- The row that `retry`, `move` and `rerun` of athanore/engine/ops.py enqueue, and the one it is for.
use athanore.Prelude.{
  ℕ, ◌+◌, ◌<◌, ◌≤◌, ◌≡◌, refl, sym, ◌∙◌, ap, subst, inl, inr, String, Bool, true, false, some, List,
  [], ◌∷◌, ◌++◌, ◌≢◌, length, filter, leb, ltb, ◌==◌, All, Bool-cases, Option-cases, arith,
  if◌then◌else◌,
}
use athanore.Prelude.Sort.{sort_by, insert_by}
use athanore.Prelude.Dict.{Dict, lookup}
use athanore.Graph.{Node, Graph}
use athanore.Graph.Builder.Built.{WellNamed, name_of_lookup}
use athanore.Prelude.{length-append}
use athanore.Store.{ready, cancelled, RunRow, TaskRow, is_pending, on_move, Db}
use athanore.Store.Rows.{
  map_task, length-write_task, find_task-write_other, find_task_id, All-weaken,
  find_task-write_task, find_task-append, find_task-new, write_task-below,
}
use athanore.Store.Tasks.{find_task, get_task, set_status, enqueue, list_for_run, last_for_node}
use athanore.Ops.{
  answered, Reply, find_graph, find_node, read_run, read_task, cancel_task, highest_attempt,
  next_attempt, enqueue_at,
}
use athanore.Ops.Answers.{Answers, bind-Answers, refuse_if-Answers, Answers-answered}
use athanore.Ops.Machine.{find_run_id}
use athanore.Ops.Diagram.{read_run-found}
use athanore.Ops.Again.{reopen-tasks}
use athanore.Ops.TaskOps.{rerun, rerun_work, rerun_task, retry, retried_task, move, moved_task}

read_task-found :
    (db : Db) (task_id : ℕ) (task : TaskRow)
    → read_task db task_id ≡ answered task
    → find_task task_id db.tasks ≡ some task
unfolding read_task get_task
read_task-found db task_id task h = elim (Option-cases (find_task task_id db.tasks)) [
  | inl e ↦ let k = rw (read_task, e) at h in cc
  | inr (found, e) ↦ let k = rw (read_task, e) at h in e ∙ ap some cc
]

-- What a row passes on to the one that follows it.
abbrev pub Follows : TaskRow → TaskRow → Type 0
Follows task row =
    (row.status ≡ ready)
    × (row.run_id ≡ task.run_id)
    × (row.payload ≡ task.payload)
    × (row.branch ≡ task.branch)

abbrev pub Retries : Db → ℕ → Reply TaskRow → Type 0
Retries db task_id reply =
    (task : TaskRow) × (get_task db task_id ≡ some task)
    × (is_pending task.status ≡ false)
    × (reply.db.tasks ≡ db.tasks ++ reply.value ∷ [])
    × (get_task reply.db task_id ≡ some task)
    × (get_task reply.db db.next_task ≡ some reply.value)
    × Follows task reply.value
    × (reply.value.node ≡ task.node)
    × (reply.value.attempt ≡ task.attempt + 1)
    × (reply.value.created ≡ task.created)
    × (reply.value.priority ≡ task.priority)
    × (reply.value.explicit ≡ task.explicit)

retried_task-Retries :
    (db : Db) (task_id : ℕ) (task : TaskRow) (run : RunRow) (now : ℕ)
    → All (λ t. t.id < db.next_task) db.tasks
    → find_task task_id db.tasks ≡ some task
    → is_pending task.status ≡ false
    → Retries db task_id (retried_task db run task now)
unfolding retried_task enqueue get_task
retried_task-Retries db task_id task run now below here idle = (
  task,
  here,
  idle,
  reopen-tasks _ run now,
  ap (find_task task_id) (reopen-tasks _ run now) ∙ find_task-append task_id db.tasks task _ here,
  ap (find_task db.next_task) (reopen-tasks _ run now)
      ∙ find_task-new db.next_task db.tasks _ below refl,
  (refl, refl, refl, refl),
  refl,
  refl,
  refl,
  refl,
  refl,
)

retry-Answers :
    (graphs : Dict Graph) (db : Db) (task_id now : ℕ)
    → All (λ t. t.id < db.next_task) db.tasks
    → Answers (Retries db task_id) (retry graphs db task_id now)
unfolding retry
retry-Answers graphs db task_id now below =
    bind-Answers (Retries db task_id) (read_task db task_id) _ λ task here.
      refuse_if-Answers (Retries db task_id) (is_pending task.status) _ _ λ stopped.
        bind-Answers (Retries db task_id) (read_run db task.run_id) _ λ run found.
          bind-Answers (Retries db task_id) (find_graph graphs run.workflow) _ λ graph known.
            bind-Answers (Retries db task_id) (find_node graph task.node) _ λ target there.
              retried_task-Retries db task_id task run now below
                (read_task-found db task_id task here) stopped

-- A retry that is not refused is of a task that has stopped. It keeps every row of the table and adds
-- one, under the next id: one more attempt at the same node, with the payload, the branch, the
-- priority, the explicit flag and the time of creation of the task.
pub retry-Retries :
    (graphs : Dict Graph) (db : Db) (task_id now : ℕ) (reply : Reply TaskRow)
    → All (λ t. t.id < db.next_task) db.tasks
    → retry graphs db task_id now ≡ answered reply
    → Retries db task_id reply
retry-Retries graphs db task_id now reply below =
    Answers-answered (Retries db task_id) (retry graphs db task_id now) reply
      (retry-Answers graphs db task_id now below)

abbrev pub stopped_row : TaskRow → TaskRow
stopped_row t = if is_pending t.status then record t { status = cancelled } else t

-- The nodes of each graph are under their names, as `finalize` leaves them.
abbrev pub AllNamed : Dict Graph → Type 0
AllNamed graphs = All (λ p. WellNamed p.1.nodes) graphs

find_graph-WellNamed :
    (graphs : Dict Graph) (workflow : String) (graph : Graph)
    → AllNamed graphs
    → find_graph graphs workflow ≡ answered graph
    → WellNamed graph.nodes
unfolding find_graph lookup
find_graph-WellNamed [] workflow graph named h = cc
find_graph-WellNamed ((k, g) ∷ graphs) workflow graph named h = elim (Bool-cases (k == workflow)) [
  | inl e ↦ let same : g ≡ graph = cc in subst (λ x. WellNamed x.nodes) same named.0
  | inr e ↦ find_graph-WellNamed graphs workflow graph named.1 (rw (find_graph, lookup, e) at h)
]

find_node-name :
    (graph : Graph) (node : String) (target : Node)
    → WellNamed graph.nodes
    → find_node graph node ≡ answered target
    → target.name ≡ node
unfolding find_node
find_node-name graph node target named h = elim (Option-cases (lookup node graph.nodes)) [
  | inl e ↦ let k = rw (find_node, e) at h in cc
  | inr (found, e) ↦
      let k = rw (find_node, e) at h in
      name_of_lookup graph.nodes target node named (e ∙ ap some cc)
]

find_task-older :
    (i : ℕ) (ts : List TaskRow) (u : TaskRow)
    → i < u.id
    → find_task i (ts ++ u ∷ []) ≡ find_task i ts
find_task-older i [] u h = ground arith
find_task-older i (t ∷ ts) u h = ground (arith, find_task-older i ts u h)

abbrev pub Moved : Db → ℕ → String → ℕ → Reply TaskRow → Type 0
Moved db task_id node now reply =
    (task : TaskRow) × (get_task db task_id ≡ some task)
    × (get_task reply.db task_id ≡ some (stopped_row task))
    × (get_task reply.db db.next_task ≡ some reply.value)
    × Follows task reply.value
    × (reply.value.node ≡ node)
    × (reply.value.attempt ≡ 1)
    × (reply.value.created ≡ now)
    × (length reply.db.tasks ≡ length db.tasks + 1)
    × ((i : ℕ) → i ≢ task_id → i < db.next_task → get_task reply.db i ≡ get_task db i)
    × (reply.cancels ≡ task_id ∷ [])

stopped_tasks :
    (db : Db) (task : TaskRow) (now : ℕ)
    → find_task task.id db.tasks ≡ some task
    → All (λ t. t.id < db.next_task) db.tasks
    → let after = if is_pending task.status then cancel_task db task on_move now else db in
      (find_task task.id after.tasks ≡ some (stopped_row task))
      × All (λ t. t.id < db.next_task) after.tasks
      × (after.next_task ≡ db.next_task)
      × (length after.tasks ≡ length db.tasks)
      × ((i : ℕ) → i ≢ task.id → find_task i after.tasks ≡ find_task i db.tasks)
unfolding set_status
stopped_tasks db task now here below = elim (Bool-cases (is_pending task.status)) [
  | inr e ↦ rw e (here, below, refl, refl, λ i other. refl)
  | inl e ↦ rw e (
    find_task-write_task task.id _ db.tasks (λ t. refl) ∙ ap (map_task _) here,
    write_task-below db.next_task task.id _ db.tasks (λ t. refl) below,
    refl,
    length-write_task task.id _ db.tasks,
    λ i other. find_task-write_other i task.id _ db.tasks (λ t. refl) other,
  )
]

moved_task-Moved :
    (db : Db) (task : TaskRow) (run : RunRow) (target : Node) (node : String) (now : ℕ)
    → All (λ t. t.id < db.next_task) db.tasks
    → find_task task.id db.tasks ≡ some task
    → target.name ≡ node
    → Moved db task.id node now (moved_task db run task target node now)
unfolding moved_task enqueue_at enqueue get_task
moved_task-Moved db task run target node now below here named =
    let (stopped, under, next, size, others) = stopped_tasks db task now here below in
    (
      task,
      here,
      ap (find_task task.id) (reopen-tasks _ run now) ∙ find_task-append task.id _ _ _ stopped,
      ap (find_task db.next_task) (reopen-tasks _ run now)
          ∙ find_task-new db.next_task _ _ under next,
      (refl, refl, refl, refl),
      named,
      refl,
      refl,
      ap length (reopen-tasks _ run now) ∙ length-append _ _ ∙ ap (λ n. n + 1) size,
      λ i other old.
          ap (find_task i) (reopen-tasks _ run now)
          ∙ find_task-older i _ _ (subst (λ n. i < n) (sym next) old)
          ∙ others i other,
      refl,
    )

move-Answers :
    (graphs : Dict Graph) (db : Db) (task_id : ℕ) (node : String) (now : ℕ)
    → AllNamed graphs
    → All (λ t. t.id < db.next_task) db.tasks
    → Answers (Moved db task_id node now) (move graphs db task_id node now)
unfolding move
move-Answers graphs db task_id node now named below =
    bind-Answers (Moved db task_id node now) (read_task db task_id) _ λ task here.
      bind-Answers (Moved db task_id node now) (read_run db task.run_id) _ λ run found.
        bind-Answers (Moved db task_id node now) (find_graph graphs run.workflow) _ λ graph known.
          bind-Answers (Moved db task_id node now) (find_node graph node) _ λ target there.
            refuse_if-Answers (Moved db task_id node now) target.join _ _ λ allowed.
              let at = read_task-found db task_id task here in
              let same = find_task_id task_id db.tasks task at in
              subst (λ i. Moved db i node now (moved_task db run task target node now)) same
                (moved_task-Moved db task run target node now below
                  (ap (λ i. find_task i db.tasks) same ∙ at)
                  (find_node-name graph node target
                    (find_graph-WellNamed graphs run.workflow graph named known) there))

-- Where the nodes of the graphs are under their names, a move that is not refused adds exactly one
-- task, under the next id: a first attempt at the node that it is given, with the payload and branch
-- of the task but a time of creation of its own. The task itself is cancelled if it was pending, and
-- else keeps its row, as every other task does; its id is the one that is given to the scheduler.
pub move-Moved :
    (graphs : Dict Graph) (db : Db) (task_id : ℕ) (node : String) (now : ℕ) (reply : Reply TaskRow)
    → AllNamed graphs
    → All (λ t. t.id < db.next_task) db.tasks
    → move graphs db task_id node now ≡ answered reply
    → Moved db task_id node now reply
move-Moved graphs db task_id node now reply named below =
    Answers-answered (Moved db task_id node now) (move graphs db task_id node now) reply
      (move-Answers graphs db task_id node now named below)

highest_attempt-start :
    (n : ℕ) (ts : List TaskRow)
    → (n ≤ highest_attempt n ts) × All (λ t. t.attempt ≤ highest_attempt n ts) ts
highest_attempt-start n [] = (omega arith, tt)
highest_attempt-start n (t ∷ ts) =
    let (above, rest) = highest_attempt-start (if ltb n t.attempt then t.attempt else n) ts in
    (ground arith, (ground arith, rest))

-- Each task of the filtered list, in the list it was filtered from.
All-of_filter {κ} :
    (P : TaskRow → Type κ) (p : TaskRow → Bool) (ts : List TaskRow)
    → All P (filter p ts)
    → All (λ t. p t ≡ true → P t) ts
All-of_filter P p [] h = tt
All-of_filter P p (t ∷ ts) h = elim (Bool-cases (p t)) [
  | inl e ↦ let k = rw e at h in (λ yes. k.0, All-of_filter P p ts k.1)
  | inr e ↦ let k = rw e at h in (λ yes. let no = yes in cc, All-of_filter P p ts k)
]

All-of_insert_by {κ} :
    (P : TaskRow → Type κ) (leb_row : TaskRow → TaskRow → Bool) (t : TaskRow) (ts : List TaskRow)
    → All P (insert_by leb_row t ts)
    → P t × All P ts
All-of_insert_by P leb_row t [] h = (h.0, tt)
All-of_insert_by P leb_row t (u ∷ ts) h = elim (Bool-cases (leb_row t u)) [
  | inl e ↦ rw e at h
  | inr e ↦
      let k = rw e at h in
      let (first, rest) = All-of_insert_by P leb_row t ts k.1 in (first, (k.0, rest))
]

All-of_sort_by {κ} :
    (P : TaskRow → Type κ) (leb_row : TaskRow → TaskRow → Bool) (ts : List TaskRow)
    → All P (sort_by leb_row ts)
    → All P ts
All-of_sort_by P leb_row [] h = tt
All-of_sort_by P leb_row (t ∷ ts) h =
    let (first, rest) = All-of_insert_by P leb_row t (sort_by leb_row ts) h in
    (first, All-of_sort_by P leb_row ts rest)

next_attempt-above :
    (db : Db) (run_id node : String)
    → All
        (λ t.
          (t.run_id == run_id) ≡ true
          → (t.node == node) ≡ true
          → t.attempt < next_attempt db run_id node)
        db.tasks
unfolding next_attempt list_for_run
next_attempt-above db run_id node =
    let leb_row : TaskRow → TaskRow → Bool = λ t u. leb t.id u.id in
    let here = filter (λ t. t.run_id == run_id) db.tasks in
    let (zero, highest) =
      highest_attempt-start 0 (filter (λ t. t.node == node) (sort_by leb_row here)) in
    let n = highest_attempt 0 (filter (λ t. t.node == node) (sort_by leb_row here)) in
    All-weaken (λ t. (t.run_id == run_id) ≡ true → (t.node == node) ≡ true → t.attempt ≤ n) _
      db.tasks (λ t h r m. let below = h r m in omega arith)
      (All-of_filter (λ t. (t.node == node) ≡ true → t.attempt ≤ n) (λ t. t.run_id == run_id)
        db.tasks
        (All-of_sort_by _ leb_row here (
          All-of_filter (λ t. t.attempt ≤ n) (λ t. t.node == node) (sort_by leb_row here) highest)))

abbrev pub Reruns : Db → String → String → Reply TaskRow → Type 0
Reruns db run_id node reply =
    All
      (λ t. (t.run_id == run_id) ≡ true → (t.node == node) ≡ true → t.attempt < reply.value.attempt)
      db.tasks

rerun-Answers :
    (graphs : Dict Graph) (db : Db) (run_id node : String) (now : ℕ)
    → Answers (Reruns db run_id node) (rerun graphs db run_id node now)
unfolding rerun rerun_task enqueue_at enqueue
rerun-Answers graphs db run_id node now =
    bind-Answers (Reruns db run_id node) (read_run db run_id) _ λ run found.
      bind-Answers (Reruns db run_id node) (find_graph graphs run.workflow) _ λ graph known.
        bind-Answers (Reruns db run_id node) (find_node graph node) _ λ target there.
          bind-Answers (Reruns db run_id node)
            (rerun_work db run_id target (last_for_node db run_id node)) _
            λ work e.
              let same = find_run_id run_id db.runs run (read_run-found db run_id run found) in
              subst
                (λ r.
                  All
                    (λ t.
                      (t.run_id == run_id) ≡ true
                      → (t.node == node) ≡ true
                      → t.attempt < next_attempt db r node)
                    db.tasks)
                (sym same) (next_attempt-above db run_id node)

-- The attempt that a rerun enqueues is numbered above every attempt that its node has had in the
-- run.
pub rerun-Reruns :
    (graphs : Dict Graph) (db : Db) (run_id node : String) (now : ℕ) (reply : Reply TaskRow)
    → rerun graphs db run_id node now ≡ answered reply
    → Reruns db run_id node reply
rerun-Reruns graphs db run_id node now reply =
    Answers-answered (Reruns db run_id node) (rerun graphs db run_id node now) reply
      (rerun-Answers graphs db run_id node now)

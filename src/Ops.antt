-- ===== src/Ops.antt =====
-- athanore/engine/ops.py: what the operator's operations share. `RunOps` are the operations on a
-- run, `TaskOps` those on a task, `Commands` the class as a whole, and `Strip` is `str.strip`.
-- An operation is one transaction, and reads one time, `now`; one that is refused leaves the store
-- as it was. What it does to the live process after the commit is in its answer: the ids that it
-- gives to `Scheduler.cancel_attempts`, and whether it calls `notify`.
pub mod Strip
pub mod RunOps
pub mod TaskOps
pub mod Answers
pub mod Machine
pub mod Diagram
pub mod TaskDiagram
pub mod Commands
pub mod TaskEdits
pub mod Edited
pub mod TaskEdited
pub mod Cancel
pub mod Again
pub mod Requeue
mod Examples
use athanore.Prelude.{
  ℕ, ◌+◌, ◌≡◌, refl, ◌⊎◌, inl, inr, String, Bool, true, false, not, ◌||◌, Option, none, some, List,
  [], ◌∷◌, map, filter, member, ltb, ◌==◌, if◌then◌else◌,
}
use athanore.Prelude.Int.{ℤ}
use athanore.Prelude.Dict.{Dict, lookup}
use athanore.Graph.{Node, Graph}
use athanore.Json.{Value}
use athanore.Store.{
  RunStatus, completed, run_failed, run_cancelled, running, TaskStatus, in_progress, waiting,
  cancelled, is_pending, RunRow, BranchFrame, Lineage, Reason, TaskRow, CancelReason, EventData,
  task_enqueued, run_updated, task_cancelled, Db,
}
use athanore.Store.Runs.{get_run, reopen_run}
use athanore.Store.Tasks.{enqueue, get_task, set_status, list_for_run}
use athanore.Runner.{dispatch_key, is_null, emit, frame_summaries}
use athanore.Ops.Strip.{strip}

-- NotFound, UnknownWorkflow, UnknownNode, the Conflicts and the ValueErrors, each with what its
-- message is formatted from; `missing_start` is the `KeyError` of `start_node`.
pub data Refusal : Type 0 where
  no_run : String → Refusal
  no_task : ℕ → Refusal
  no_workflow : String → Refusal
  no_node : String → String → Refusal
  missing_start : String → Refusal
  empty_title empty_entry : Refusal
  not_pausable not_paused already_ended : String → RunStatus → Refusal
  not_stopped : ℕ → TaskStatus → Refusal
  into_join : String → Refusal
  never_fired no_arrivals : String → String → Refusal
  not_one_of_two : Refusal
  bad_direction : ℤ → Refusal
  not_settable : TaskStatus → Refusal

pub data Answer {ℓ} (Value : Type ℓ) : Type ℓ where
  answered : Value → Answer Value
  refused : Refusal → Answer Value

infixl 10 ◌>>=◌ ◌>>◌
abbrev pub ◌>>=◌ {ℓ κ} :
    {Value : Type ℓ} {Next : Type κ} → Answer Value → (Value → Answer Next) → Answer Next
call >>= next = elim call [ answered value ↦ next value | refused r ↦ refused r ]

abbrev pub ◌>>◌ {ℓ} : {Next : Type ℓ} → Answer (Unit {0}) → Answer Next → Answer Next
check >> next = check >>= λ _. next

pub record Reply (Value : Type 0) : Type 0 where
  pub value : Value
  pub db : Db
  pub cancels : List ℕ
  pub wakes : Bool

abbrev pub refuse_if : Bool → Refusal → Answer (Unit {0})
refuse_if true r = refused r
refuse_if false r = answered tt

-- LIVE_TASKS
abbrev pub is_live : TaskStatus → Bool
is_live in_progress = true
is_live waiting = true
is_live _ = false

-- TERMINAL_RUNS
abbrev pub has_ended : RunStatus → Bool
has_ended completed = true
has_ended run_failed = true
has_ended run_cancelled = true
has_ended _ = false

-- `_graph`
unfoldable pub find_graph : Dict Graph → String → Answer Graph
unfolding lookup
find_graph graphs workflow = elim (lookup workflow graphs) [
  | none ↦ refused (no_workflow workflow)
  | some graph ↦ answered graph
]

-- `_node`
unfoldable pub find_node : Graph → String → Answer Node
unfolding lookup
find_node graph node = elim (lookup node graph.nodes) [
  | none ↦ refused (no_node graph.name node)
  | some target ↦ answered target
]

-- `Graph.start_node`
unfoldable pub start_node : Graph → Answer Node
unfolding lookup
start_node graph = elim (lookup graph.start graph.nodes) [
  | none ↦ refused (missing_start graph.start)
  | some start ↦ answered start
]

-- `_run`
unfoldable pub read_run : Db → String → Answer RunRow
unfolding get_run
read_run db run_id = elim (get_run db run_id) [
  | none ↦ refused (no_run run_id)
  | some run ↦ answered run
]

-- `_task`
unfoldable pub read_task : Db → ℕ → Answer TaskRow
unfolding get_task
read_task db task_id = elim (get_task db task_id) [
  | none ↦ refused (no_task task_id)
  | some task ↦ answered task
]

unfoldable pub clean_title : String → Answer String
unfolding strip
clean_title title = do refuse_if (strip title == "") empty_title; answered (strip title)

abbrev pub distinct_nodes : List TaskRow → List String
distinct_nodes [] = []
distinct_nodes (t ∷ ts) =
    let nodes = distinct_nodes ts in if member t.node nodes then nodes else t.node ∷ nodes

-- The other than one are filed under USER_NODE.
abbrev pub only : List String → String
only (node ∷ []) = node
only _ = "user"

unfoldable pub current_node : Db → String → String
unfolding list_for_run member
current_node db run_id =
    only (distinct_nodes (filter (λ t. is_live t.status) (list_for_run db run_id)))

abbrev pub highest_attempt : ℕ → List TaskRow → ℕ
highest_attempt highest [] = highest
highest_attempt highest (t ∷ ts) =
    highest_attempt (if ltb highest t.attempt then t.attempt else highest) ts

unfoldable pub next_attempt : Db → String → String → ℕ
unfolding list_for_run
next_attempt db run_id node =
    highest_attempt 0 (filter (λ t. t.node == node) (list_for_run db run_id)) + 1

-- `_enqueue`, which says `from_task` and `arrivals` of the lineage in the event too.
unfoldable pub enqueue_at :
    Db → String → Node → Value → Lineage → List BranchFrame → ℕ → ℕ → Db × TaskRow
unfolding enqueue
enqueue_at db run_id target payload lineage branch attempt now =
    let (priority, explicit) = dispatch_key target in
    let (db', task) =
      enqueue db run_id target.name payload priority explicit attempt now (some lineage) branch in
    (
      emit db' run_id (some task.id)
          (task_enqueued target.name task.attempt lineage.reason lineage.from
            (not (is_null payload)) (frame_summaries branch) lineage.arrivals)
          now,
      task,
    )

-- `_cancel_task`
abbrev pub cancel_task : Db → TaskRow → CancelReason → ℕ → Db
cancel_task db task reason now =
    emit (set_status db task.id cancelled) task.run_id (some task.id)
      (task_cancelled task.node task.status reason) now

abbrev pub cancel_each : Db → List TaskRow → CancelReason → ℕ → Db
cancel_each db [] reason now = db
cancel_each db (t ∷ ts) reason now = cancel_each (cancel_task db t reason now) ts reason now

abbrev pub pending_tasks : Db → String → List TaskRow
pending_tasks db run_id = filter (λ t. is_pending t.status) (list_for_run db run_id)

-- `_cancel_tasks`
unfoldable pub cancel_tasks : Db → String → CancelReason → ℕ → Db × List ℕ
unfolding list_for_run set_status
cancel_tasks db run_id reason now =
    (cancel_each db (pending_tasks db run_id) reason now, map (λ t. t.id) (pending_tasks db run_id))

-- `_reopen`
unfoldable pub reopen : Db → RunRow → ℕ → Db
unfolding reopen_run
reopen db run now =
    if has_ended run.status
    then emit (reopen_run db run.id now) run.id none (run_updated none none (some running)) now
    else db

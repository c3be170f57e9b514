-- ===== src/Store/Claim.antt =====
-- athanore/store/repos/tasks.py: `claim_statement` and `TaskRepo.claim_ready`.
pub mod Choice
pub mod Order
use athanore.Prelude.{
  ℕ, zero, suc, String, Bool, true, false, not, ◌&&◌, ◌||◌, Option, none, some, List, [], ◌∷◌, map,
  filter, take, length, member, leb, eqb, ◌==◌, if◌then◌else◌,
}
use athanore.Prelude.Int.{ℤ, pos, neg_ℕ}
use athanore.Prelude.Sort.{sort_by, leb_lex}
use athanore.Store.{RunStatus, queued, running, TaskStatus, ready, in_progress, RunRow, TaskRow, Db}
use athanore.Store.Runs.{find_run, write_run}
use athanore.Store.Tasks.{find_task, write_task}

-- CLAIMABLE_RUNS
abbrev pub is_claimable : RunStatus → Bool
is_claimable queued = true
is_claimable running = true
is_claimable _ = false

abbrev pub is_ready : TaskStatus → Bool
is_ready ready = true
is_ready _ = false

abbrev pub is_claimable_run : List String → Option RunRow → Bool
is_claimable_run workflows none = false
is_claimable_run workflows (some run) = is_claimable run.status && member run.workflow workflows

-- The WHERE of the statement, on a task joined with its run.
abbrev pub is_eligible : Db → List String → TaskRow → Bool
is_eligible db workflows t =
    is_ready t.status && is_claimable_run workflows (find_run t.run_id db.runs)

abbrev pub position_of : Option RunRow → ℤ
position_of none = pos 0
position_of (some run) = run.position

-- The columns of the ORDER BY, a descending one by its negative. Where a `CASE` is NULL it is so in
-- the whole group, and any constant orders the group alike.
abbrev pub order_key : Db → TaskRow → List ℤ
order_key db t =
    position_of (find_run t.run_id db.runs)
    ∷ (if t.explicit then pos 0 else pos 1)
    ∷ (if t.explicit then t.priority else pos 0)
    ∷ (if t.explicit then pos 0 else t.priority)
    ∷ neg_ℕ t.created
    ∷ neg_ℕ t.id
    ∷ []

abbrev pub comes_before : Db → TaskRow → TaskRow → Bool
comes_before db t u = leb_lex (order_key db t) (order_key db u)

unfoldable pub dispatch_order : Db → List String → List TaskRow
dispatch_order db workflows = sort_by (comes_before db) (filter (is_eligible db workflows) db.tasks)

pub record ClaimedTask : Type 0 where
  pub task : TaskRow
  pub token : String
  pub run_started : Bool
  pub workflow : String

-- The row count of the claiming UPDATE is 1.
abbrev pub is_ready_task : Option TaskRow → Bool
is_ready_task none = false
is_ready_task (some t) = is_ready t.status

abbrev pub claim_row : (ℕ → String) → (String → String) → ℕ → TaskRow → TaskRow
claim_row mint hash now t = record t {
  status = if is_ready t.status then in_progress else t.status;
  started = if is_ready t.status then some now else t.started;
  token_hash = if is_ready t.status then some (hash (mint t.id)) else t.token_hash;
}

abbrev pub won_with : ℕ → String → Bool → List (ℕ × String) → List (ℕ × String)
won_with task_id token true won = (task_id, token) ∷ won
won_with task_id token false won = won

-- The loop over the selected ids. `mint` gives the token of an id, and `hash` is `token_hash`.
unfoldable pub claim_each :
    (ℕ → String) → (String → String) → ℕ → List ℕ → List TaskRow → List TaskRow × List (ℕ × String)
claim_each mint hash now [] tasks = (tasks, [])
claim_each mint hash now (i ∷ ids) tasks =
    let (tasks', won) =
      claim_each mint hash now ids (write_task i (claim_row mint hash now) tasks) in
    (tasks', won_with i (mint i) (is_ready_task (find_task i tasks)) won)

abbrev pub with_row : Option TaskRow → String → List (TaskRow × String) → List (TaskRow × String)
with_row none token rest = rest
with_row (some t) token rest = (t, token) ∷ rest

-- The claimed rows are read again, in the order of the claim.
abbrev pub claimed_rows : List TaskRow → List (ℕ × String) → List (TaskRow × String)
claimed_rows tasks [] = []
claimed_rows tasks ((i, token) ∷ won) = with_row (find_task i tasks) token (claimed_rows tasks won)

-- dict.fromkeys
abbrev pub distinct_runs : List String → List (TaskRow × String) → List String
distinct_runs seen [] = []
distinct_runs seen ((t, token) ∷ rest) =
    let new = t.run_id ∷ distinct_runs (t.run_id ∷ seen) rest in
    let old = distinct_runs seen rest in if member t.run_id seen then old else new

abbrev pub is_queued : RunStatus → Bool
is_queued queued = true
is_queued _ = false

abbrev pub is_queued_run : Option RunRow → Bool
is_queued_run none = false
is_queued_run (some run) = is_queued run.status

abbrev pub start_run : ℕ → RunRow → RunRow
start_run now run = record run {
  status = if is_queued run.status then running else run.status;
  updated = if is_queued run.status then now else run.updated;
}

abbrev pub started_with : String → Bool → List String → List String
started_with run_id true started = run_id ∷ started
started_with run_id false started = started

-- _start_runs
unfoldable pub start_runs : ℕ → List String → List RunRow → List RunRow × List String
start_runs now [] runs = (runs, [])
start_runs now (r ∷ run_ids) runs =
    let (runs', started) = start_runs now run_ids (write_run r (start_run now) runs) in
    (runs', started_with r (is_queued_run (find_run r runs)) started)

abbrev pub workflow_of : Option RunRow → String
workflow_of none = ""
workflow_of (some run) = run.workflow

-- The loop that flags the first claimed task of each run that this claim started.
unfoldable pub announce :
    List RunRow → List String → List String → List (TaskRow × String) → List ClaimedTask
unfolding member
announce runs started announced [] = []
announce runs started announced ((t, token) ∷ rest) =
    record {
      task = t;
      token = token;
      run_started = member t.run_id started && not (member t.run_id announced);
      workflow = workflow_of (find_run t.run_id runs);
    }
    ∷ announce runs started (t.run_id ∷ announced) rest

abbrev pub ids_of : List TaskRow → List ℕ
ids_of = map λ t. t.id

unfoldable pub claim_ready :
    (ℕ → String) → (String → String) → Db → ℕ → List String → ℕ → Db × List ClaimedTask
unfolding dispatch_order claim_each start_runs announce
claim_ready mint hash db limit workflows now =
    let (tasks, won) =
      claim_each mint hash now (ids_of (take limit (dispatch_order db workflows))) db.tasks in
    let rows = claimed_rows tasks won in
    let (runs, started) = start_runs now (distinct_runs [] rows) db.runs in
    (record db { tasks = tasks; runs = runs }, announce runs started [] rows)

-- ===== src/Store/Tasks.antt =====
-- athanore/store/repos/tasks.py: `TaskRepo` but for the claim and the sweep of a recovery.
use athanore.Prelude.{
  ℕ, ◌+◌, String, Bool, true, false, not, ◌&&◌, ◌||◌, Option, none, some, List, [], ◌∷◌, ◌++◌, map,
  filter, leb, ltb, eqb, ◌==◌, if◌then◌else◌,
}
use athanore.Prelude.Int.{ℤ}
use athanore.Prelude.Sort.{sort_by}
use athanore.Json.{Value, null}
use athanore.Store.{TaskStatus, ready, is_pending, BranchFrame, Lineage, TaskRow, Db}

-- The row that is inserted is returned.
unfoldable pub enqueue :
    Db
    → String
    → String
    → Value
    → ℤ
    → Bool
    → ℕ
    → ℕ
    → Option Lineage
    → List BranchFrame
    → Db × TaskRow
enqueue db run_id node payload priority explicit attempt created lineage branch =
    let row : TaskRow = record {
      id = db.next_task;
      run_id = run_id;
      node = node;
      attempt = attempt;
      status = ready;
      payload = payload;
      result = null;
      error = none;
      priority = priority;
      explicit = explicit;
      token_hash = none;
      stats = none;
      lineage = lineage;
      terminal = false;
      branch = branch;
      created = created;
      started = none;
      finished = none;
    } in
    (record db { tasks = db.tasks ++ row ∷ []; next_task = db.next_task + 1 }, row)

abbrev pub find_task : ℕ → List TaskRow → Option TaskRow
find_task task_id [] = none
find_task task_id (t ∷ ts) = if eqb t.id task_id then some t else find_task task_id ts

unfoldable pub get_task : Db → ℕ → Option TaskRow
get_task db task_id = find_task task_id db.tasks

-- UPDATE tasks SET … WHERE id = task_id
abbrev pub write_task : ℕ → (TaskRow → TaskRow) → List TaskRow → List TaskRow
write_task task_id f [] = []
write_task task_id f (t ∷ ts) = (if eqb t.id task_id then f t else t) ∷ write_task task_id f ts

unfoldable pub finish : Db → ℕ → TaskStatus → Value → Option String → Bool → ℕ → Db
finish db task_id status result error terminal now = record db {
  tasks =
      write_task task_id
        (λ t. record t {
          status = status;
          result = result;
          error = error;
          terminal = terminal;
          finished = some now;
        })
        db.tasks;
}

unfoldable pub set_status : Db → ℕ → TaskStatus → Db
set_status db task_id status = record db {
  tasks = write_task task_id (λ t. record t { status = status }) db.tasks;
}

abbrev pub any_pending : String → List TaskRow → Bool
any_pending run_id [] = false
any_pending run_id (t ∷ ts) = t.run_id == run_id && is_pending t.status || any_pending run_id ts

unfoldable pub has_pending : Db → String → Bool
has_pending db run_id = any_pending run_id db.tasks

abbrev pub branch_path : TaskRow → List ℕ
branch_path t = map (λ frame. frame.index) t.branch

-- `<` of two tuples, which is decided at the first place where they differ; a tuple is less than
-- what it is the beginning of.
abbrev pub ltb_path : List ℕ → List ℕ → Bool
ltb_path xs [] = false
ltb_path [] (y ∷ ys) = true
ltb_path (x ∷ xs) (y ∷ ys) = ltb x y || eqb x y && ltb_path xs ys

-- The order of `(branch_path(row), row.id)`.
abbrev pub comes_before : TaskRow → TaskRow → Bool
comes_before t u =
    ltb_path (branch_path t) (branch_path u)
    || not (ltb_path (branch_path u) (branch_path t)) && ltb t.id u.id

abbrev pub place : TaskRow → List TaskRow → List TaskRow
place t [] = t ∷ []
place t (u ∷ us) = if comes_before u t then u ∷ place t us else t ∷ u ∷ us

abbrev pub in_branch_order : List TaskRow → List TaskRow
in_branch_order [] = []
in_branch_order (t ∷ ts) = place t (in_branch_order ts)

unfoldable pub terminal_tasks : Db → String → List TaskRow
terminal_tasks db run_id = in_branch_order (filter (λ t. t.run_id == run_id && t.terminal) db.tasks)

unfoldable pub list_for_run : Db → String → List TaskRow
list_for_run db run_id = sort_by (λ t u. leb t.id u.id) (filter (λ t. t.run_id == run_id) db.tasks)

-- ORDER BY id DESC LIMIT 1
abbrev pub newest : Option TaskRow → List TaskRow → Option TaskRow
newest found [] = found
newest none (t ∷ ts) = newest (some t) ts
newest (some found) (t ∷ ts) = newest (some (if ltb found.id t.id then t else found)) ts

unfoldable pub last_for_node : Db → String → String → Option TaskRow
last_for_node db run_id node =
    newest none (filter (λ t. t.run_id == run_id && t.node == node) db.tasks)

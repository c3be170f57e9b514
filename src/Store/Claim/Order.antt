-- ===== src/Store/Claim/Order.antt =====
-- What `TaskRepo.claim_ready` of athanore/store/repos/tasks.py takes, and in which order.
use athanore.Prelude.{
  ℕ, ◌≤◌, length, length-map, ap, sym, ◌∙◌, arith, ℕ, suc, ◌≡◌, ◌≢◌, refl, sym, ◌∙◌, ap, inl, inr,
  String, Bool, true, some, List, [], ◌∷◌, map, filter, take, All, arith, Bool-cases,
}
use athanore.Prelude.Sort.{insert_by, sort_by, All-insert_by, All-sort_by, All-take}
use athanore.Store.{RunRow, TaskRow, Db}
use athanore.Store.Tasks.{find_task, write_task}
use athanore.Store.Rows.{
  All-filter, UniqueIds-filter, UniqueIds, All-weaken, All-both, All-find_task, map_task,
  find_task-write_task, find_task-write_other,
}
use athanore.Store.Claim.Choice.{IsChoice, dispatch_order-IsChoice}
use athanore.Store.Claim.{
  is_ready, is_eligible, comes_before, dispatch_order, ClaimedTask, claim_row, claim_each,
  claimed_rows, announce, ids_of, claim_ready,
}

module _ (before : TaskRow → TaskRow → Bool) where
  insert_by-UniqueIds :
      (t : TaskRow) (ts : List TaskRow)
      → All (λ u. u.id ≢ t.id) ts
      → UniqueIds ts
      → UniqueIds (insert_by before t ts)
  insert_by-UniqueIds t [] new u = (tt, tt)
  insert_by-UniqueIds t (v ∷ ts) new u = elim (Bool-cases (before t v)) [
    | inl e ↦ rw e (new, u)
    | inr e ↦ rw e (
      All-insert_by before (λ w. w.id ≢ v.id) t ts (λ same. new.0 (sym same)) u.0,
      insert_by-UniqueIds t ts new.1 u.1,
    )
  ]

  sort_by-UniqueIds : (ts : List TaskRow) → UniqueIds ts → UniqueIds (sort_by before ts)
  sort_by-UniqueIds [] u = tt
  sort_by-UniqueIds (t ∷ ts) u =
      insert_by-UniqueIds t (sort_by before ts) (All-sort_by before (λ v. v.id ≢ t.id) ts u.0)
        (sort_by-UniqueIds ts u.1)

UniqueIds-take : (n : ℕ) (ts : List TaskRow) → UniqueIds ts → UniqueIds (take n ts)
UniqueIds-take ℕ.zero ts u = tt
UniqueIds-take (suc n) [] u = tt
UniqueIds-take (suc n) (t ∷ ts) u = (All-take (λ v. v.id ≢ t.id) n ts u.0, UniqueIds-take n ts u.1)

-- A task of the selection: it is in the table, and ready.
abbrev IsChosen : List TaskRow → TaskRow → Type 0
IsChosen tasks t = (find_task t.id tasks ≡ some t) × (is_ready t.status ≡ true)

abbrev pub taken : ClaimedTask → TaskRow × String
taken c = (c.task, c.token)

abbrev pub claimed_with : (ℕ → String) → (String → String) → ℕ → TaskRow → TaskRow × String
claimed_with mint hash now t = (claim_row mint hash now t, mint t.id)

module _ (mint : ℕ → String) (hash : String → String) (now : ℕ) where
  IsChosen-write_task :
      (t : TaskRow) (ts tasks : List TaskRow)
      → All (λ u. u.id ≢ t.id) ts
      → All (IsChosen tasks) ts
      → All (IsChosen (write_task t.id (claim_row mint hash now) tasks)) ts
  IsChosen-write_task t ts tasks new chosen =
      All-weaken _ (IsChosen (write_task t.id (claim_row mint hash now) tasks)) ts
        (λ u h. (
          find_task-write_other u.id t.id (claim_row mint hash now) tasks (λ v. refl) h.0 ∙ h.1.0,
          h.1.1,
        ))
        (All-both (λ u. u.id ≢ t.id) (IsChosen tasks) ts new chosen)

  claim_each-won :
      (ts tasks : List TaskRow)
      → UniqueIds ts
      → All (IsChosen tasks) ts
      → (claim_each mint hash now (ids_of ts) tasks).1 ≡ map (λ t. (t.id, mint t.id)) ts
  unfolding claim_each
  claim_each-won [] tasks u c = refl
  claim_each-won (t ∷ ts) tasks u c =
      rw (c.0.0, c.0.1)
        (ap (λ won. (t.id, mint t.id) ∷ won)
          (claim_each-won ts (write_task t.id (claim_row mint hash now) tasks) u.1
            (IsChosen-write_task t ts tasks u.0 c.1)))

  claim_each-other :
      (i : ℕ) (ts tasks : List TaskRow)
      → All (λ u. u.id ≢ i) ts
      → find_task i (claim_each mint hash now (ids_of ts) tasks).0 ≡ find_task i tasks
  unfolding claim_each
  claim_each-other i [] tasks new = refl
  claim_each-other i (t ∷ ts) tasks new =
      claim_each-other i ts (write_task t.id (claim_row mint hash now) tasks) new.1
      ∙ find_task-write_other i t.id (claim_row mint hash now) tasks (λ v. refl)
          (λ same. new.0 (sym same))

  claimed_rows-claim_each :
      (ts tasks : List TaskRow)
      → UniqueIds ts
      → All (IsChosen tasks) ts
      → claimed_rows
          (claim_each mint hash now (ids_of ts) tasks).0
          (map (λ t. (t.id, mint t.id)) ts)
        ≡ map (claimed_with mint hash now) ts
  unfolding claim_each
  claimed_rows-claim_each [] tasks u c = refl
  claimed_rows-claim_each (t ∷ ts) tasks u c =
      let tasks' = write_task t.id (claim_row mint hash now) tasks in
      let found =
        claim_each-other t.id ts tasks' u.0
        ∙ find_task-write_task t.id (claim_row mint hash now) tasks (λ v. refl)
        ∙ ap (map_task (claim_row mint hash now)) c.0.0 in
      rw found (
        ap (λ rest. (claim_row mint hash now t, mint t.id) ∷ rest)
          (claimed_rows-claim_each ts tasks' u.1 (IsChosen-write_task t ts tasks u.0 c.1)))

  rows_of_claim :
      (ts tasks : List TaskRow)
      → UniqueIds ts
      → All (IsChosen tasks) ts
      → (let (tasks', won) = claim_each mint hash now (ids_of ts) tasks in claimed_rows tasks' won)
        ≡ map (claimed_with mint hash now) ts
  rows_of_claim ts tasks u c =
      ap (claimed_rows (claim_each mint hash now (ids_of ts) tasks).0) (claim_each-won ts tasks u c)
      ∙ claimed_rows-claim_each ts tasks u c

announce-tasks :
    (runs : List RunRow) (started announced : List String) (rows : List (TaskRow × String))
    → map taken (announce runs started announced rows) ≡ rows
unfolding announce
announce-tasks runs started announced [] = refl
announce-tasks runs started announced ((t, token) ∷ rows) =
    ap (λ rest. (t, token) ∷ rest) (announce-tasks runs started (t.run_id ∷ announced) rows)

is_eligible-is_ready :
    (db : Db) (workflows : List String) (ts : List TaskRow)
    → All (λ t. is_ready t.status ≡ true) (filter (is_eligible db workflows) ts)
is_eligible-is_ready db workflows [] = tt
is_eligible-is_ready db workflows (t ∷ ts) = elim (Bool-cases (is_eligible db workflows t)) [
  | inl e ↦ rw e (ground (arith, e), is_eligible-is_ready db workflows ts)
  | inr e ↦ rw e (is_eligible-is_ready db workflows ts)
]

dispatch_order-IsChosen :
    (db : Db) (limit : ℕ) (workflows : List String)
    → UniqueIds db.tasks
    → UniqueIds (take limit (dispatch_order db workflows))
      × All (IsChosen db.tasks) (take limit (dispatch_order db workflows))
unfolding dispatch_order
dispatch_order-IsChosen db limit workflows u =
    let eligible = filter (is_eligible db workflows) db.tasks in
    let chosen =
      All-both (λ t. find_task t.id db.tasks ≡ some t) (λ t. is_ready t.status ≡ true) eligible
        (All-filter _ (is_eligible db workflows) db.tasks (All-find_task db.tasks u))
        (is_eligible-is_ready db workflows db.tasks) in
    (
      UniqueIds-take limit _ (
          sort_by-UniqueIds (comes_before db) eligible
            (UniqueIds-filter (is_eligible db workflows) db.tasks u)),
      All-take _ limit _ (All-sort_by (comes_before db) _ eligible chosen),
    )

-- Where the ids of the table are distinct, a claim takes the first `limit` tasks of the dispatch
-- order, in that order, each with the row that the claim writes and a token of its own.
pub claim_ready-takes :
    (mint : ℕ → String) (hash : String → String) (db : Db) (limit : ℕ) (workflows : List String)
    (now : ℕ)
    → UniqueIds db.tasks
    → map taken (claim_ready mint hash db limit workflows now).1
      ≡ map (claimed_with mint hash now) (take limit (dispatch_order db workflows))
unfolding claim_ready
claim_ready-takes mint hash db limit workflows now u =
    let (unique, chosen) = dispatch_order-IsChosen db limit workflows u in
    announce-tasks _ _ [] _
    ∙ rows_of_claim mint hash now (take limit (dispatch_order db workflows)) db.tasks unique chosen

-- Where the ids of the table are distinct, a claim takes at most `limit` tasks, each eligible; each
-- eligible task that it leaves comes after all that it takes, and one is left only where `limit` are
-- taken. The order is by the position of the run in the list, then the tasks of an explicit priority
-- before the others, then the smaller priority, then the newer task, then the higher id.
pub claim_ready-first :
    (mint : ℕ → String) (hash : String → String) (db : Db) (limit : ℕ) (workflows : List String)
    (now : ℕ)
    → UniqueIds db.tasks
    → (chosen : List TaskRow) × (map taken (claim_ready mint hash db limit workflows now).1
        ≡ map (claimed_with mint hash now) chosen)
      × IsChoice db workflows limit chosen
claim_ready-first mint hash db limit workflows now u = (
  take limit (dispatch_order db workflows),
  claim_ready-takes mint hash db limit workflows now u,
  dispatch_order-IsChoice db workflows limit,
)

pub length-claim_ready :
    (mint : ℕ → String) (hash : String → String) (db : Db) (limit : ℕ) (workflows : List String)
    (now : ℕ)
    → UniqueIds db.tasks
    → length (claim_ready mint hash db limit workflows now).1 ≤ limit
length-claim_ready mint hash db limit workflows now u =
    let (chosen, same, (below, _, _)) = claim_ready-first mint hash db limit workflows now u in
    let size =
      sym (length-map taken (claim_ready mint hash db limit workflows now).1)
      ∙ ap length same
      ∙ length-map (claimed_with mint hash now) chosen in
    omega arith

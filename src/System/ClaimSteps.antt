-- ===== src/System/ClaimSteps.antt =====
-- What a claim and a sweep (athanore/store/repos/tasks.py) do to the tables, as the edits and moves
-- that the operations are made of.
use athanore.Prelude.{
  ℕ, ◌≡◌, refl, ◌∙◌, ap, ◌⊎◌, inl, inr, String, Bool, true, false, Option, none, some, List, [],
  ◌∷◌, map, take, Bool-cases, if◌then◌else◌, ◌==◌,
}
use athanore.Store.{RunRow, TaskRow, Db}
use athanore.Store.Runs.{find_run, write_run}
use athanore.Store.Tasks.{write_task}
use athanore.Store.Rows.{map_run, find_run-write_run}
use athanore.Store.Claim.{
  is_queued, claim_row, claim_each, start_run, start_runs, claim_ready, dispatch_order, ids_of,
  claimed_rows, distinct_runs,
}
use athanore.Store.Sweep.{is_swept, as_ready, sweep, reset_for_recovery}
use athanore.Ops.Machine.{RunMove, stays, starts, RunMoves, RunMove-refl}
use athanore.Ops.TaskEdits.{TaskEdit, wrote, and_after, untouched, write_task-TaskEdit}

start_run_twice : (now : ℕ) (run : RunRow) → start_run now (start_run now run) ≡ start_run now run
start_run_twice now run = elim (Bool-cases (is_queued run.status)) [
  | inl e ↦ rw e refl
  | inr e ↦ rw e (rw e refl)
]

map_run_twice :
    (now : ℕ) (found : Option RunRow)
    → map_run (start_run now) (map_run (start_run now) found) ≡ map_run (start_run now) found
map_run_twice now none = refl
map_run_twice now (some run) = ap some (start_run_twice now run)

-- A run is left as it is, or started.
abbrev Started : ℕ → Option RunRow → Option RunRow → Type 0
Started now before after = (after ≡ before) ⊎ (after ≡ map_run (start_run now) before)

write_run-Started :
    (now : ℕ) (i r : String) (runs : List RunRow)
    → Started now (find_run r runs) (find_run r (write_run i (start_run now) runs))
write_run-Started now i r runs =
    let after = find_run-write_run i r (start_run now) runs (λ run. refl) in
    elim (Bool-cases (i == r)) [ inl e ↦ inr (after ∙ rw e refl) | inr e ↦ inl (after ∙ rw e refl) ]

Started-then :
    (now : ℕ) (before mid after : Option RunRow)
    → Started now before mid
    → Started now mid after
    → Started now before after
Started-then now before mid after (inl e) (inl f) = inl (f ∙ e)
Started-then now before mid after (inl e) (inr f) = inr (f ∙ ap (map_run (start_run now)) e)
Started-then now before mid after (inr e) (inl f) = inr (f ∙ e)
Started-then now before mid after (inr e) (inr f) =
    inr (f ∙ ap (map_run (start_run now)) e ∙ map_run_twice now before)

start_runs-Started :
    (now : ℕ) (ids : List String) (runs : List RunRow) (r : String)
    → Started now (find_run r runs) (find_run r (start_runs now ids runs).0)
unfolding start_runs
start_runs-Started now [] runs r = inl refl
start_runs-Started now (i ∷ ids) runs r =
    Started-then now _ _ _ (write_run-Started now i r runs)
      (start_runs-Started now ids (write_run i (start_run now) runs) r)

start_run-RunMove : (now : ℕ) (run : RunRow) → RunMove (some run) (some (start_run now run))
start_run-RunMove now run = elim (Bool-cases (is_queued run.status)) [
  | inl e ↦ starts e (rw e refl) refl
  | inr e ↦ stays (rw e refl) refl
]

Started-RunMove :
    (now : ℕ) (before after : Option RunRow) → Started now before after → RunMove before after
Started-RunMove now before after (inl e) = rw e (RunMove-refl before)
Started-RunMove now none after (inr e) = rw e (RunMove-refl none)
Started-RunMove now (some run) after (inr e) = rw e (start_run-RunMove now run)

pub claim_ready-RunMoves :
    (mint : ℕ → String) (hash : String → String) (db : Db) (limit : ℕ) (workflows : List String)
    (now : ℕ)
    → RunMoves db.runs (claim_ready mint hash db limit workflows now).0.runs
unfolding claim_ready
claim_ready-RunMoves mint hash db limit workflows now r =
    let (tasks, won) =
      claim_each mint hash now (ids_of (take limit (dispatch_order db workflows))) db.tasks in
    Started-RunMove now _ _
      (start_runs-Started now (distinct_runs [] (claimed_rows tasks won)) db.runs r)

claim_each-TaskEdit :
    (mint : ℕ → String) (hash : String → String) (now : ℕ) (ids : List ℕ) (db : Db)
    → TaskEdit db (record db { tasks = (claim_each mint hash now ids db.tasks).0 })
unfolding claim_each
claim_each-TaskEdit mint hash now [] db = untouched db _ refl refl
claim_each-TaskEdit mint hash now (i ∷ ids) db =
    let written : Db = record db { tasks = write_task i (claim_row mint hash now) db.tasks } in
    and_after
      (write_task-TaskEdit db written i (claim_row mint hash now) (λ t. (refl, refl, refl, refl))
        refl refl)
      (claim_each-TaskEdit mint hash now ids written)

pub claim_ready-TaskEdit :
    (mint : ℕ → String) (hash : String → String) (db : Db) (limit : ℕ) (workflows : List String)
    (now : ℕ)
    → TaskEdit db (claim_ready mint hash db limit workflows now).0
unfolding claim_ready
claim_ready-TaskEdit mint hash db limit workflows now =
    and_after
      (claim_each-TaskEdit mint hash now (ids_of (take limit (dispatch_order db workflows))) db)
      (untouched _ _ refl refl)

sweep-map :
    (p : TaskRow → Bool) (ts : List TaskRow)
    → sweep p ts ≡ map (λ t. if p t then as_ready t else t) ts
sweep-map p [] = refl
sweep-map p (t ∷ ts) = ap (λ rest. (if p t then as_ready t else t) ∷ rest) (sweep-map p ts)

if_swept :
    (b : Bool) (t : TaskRow)
    → let after = if b then as_ready t else t in
      (after.id ≡ t.id)
      × (after.run_id ≡ t.run_id)
      × (after.node ≡ t.node)
      × (after.lineage ≡ t.lineage)
if_swept true t = (refl, refl, refl, refl)
if_swept false t = (refl, refl, refl, refl)

pub reset_for_recovery-TaskEdit :
    (db : Db) (workflows : Option (List String)) (exclude : List ℕ)
    → TaskEdit db (reset_for_recovery db workflows exclude).0
unfolding reset_for_recovery
reset_for_recovery-TaskEdit db workflows exclude =
    let p = is_swept workflows exclude db.runs in
    wrote (λ t. if p t then as_ready t else t) (λ t. if_swept (p t) t) (sweep-map p db.tasks) refl

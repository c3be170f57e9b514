-- ===== src/Store/Sweep.antt =====
-- athanore/store/repos/tasks.py: `TaskRepo.reset_for_recovery`, the first step of a recovery.
use athanore.Prelude.{
  ℕ, ◌≡◌, refl, ap, ap₂, inl, inr, String, Bool, true, false, not, ◌&&◌, ◌||◌, Option, none, some,
  List, [], ◌∷◌, filter, member, leb, eqb, ◌==◌, Bool-cases, if◌then◌else◌,
}
use mathlib.Core.List.Memᴰ
use athanore.Prelude.{
  Memᴰ, Memᴰ-cons, member_iff, eq_iff, mem-filter, map, arith, length, suc, sym, subst, ◌↔◌, ◌⊎◌,
  ◌∙◌,
}
use athanore.Prelude.Sort.{sort_by, IsOrdered, mem-sort_by, sort_by-IsOrdered}
use athanore.Store.{TaskStatus, ready, in_progress, waiting, RunRow, TaskRow, Db}
use athanore.Store.Tasks.{find_task, get_task}

-- INTERRUPTED
abbrev pub is_interrupted : TaskStatus → Bool
is_interrupted in_progress = true
is_interrupted waiting = true
is_interrupted _ = false

-- run_id IN (SELECT id FROM runs WHERE workflow IN workflows)
abbrev pub is_run_of : String → List String → List RunRow → Bool
is_run_of run_id workflows [] = false
is_run_of run_id workflows (r ∷ rs) =
    r.id == run_id && member r.workflow workflows || is_run_of run_id workflows rs

abbrev pub is_selected : Option (List String) → List RunRow → TaskRow → Bool
is_selected none runs t = true
is_selected (some workflows) runs t = is_run_of t.run_id workflows runs

abbrev pub is_excluded : ℕ → List ℕ → Bool
is_excluded i [] = false
is_excluded i (j ∷ js) = eqb j i || is_excluded i js

-- The WHERE of the statement.
abbrev pub is_swept : Option (List String) → List ℕ → List RunRow → TaskRow → Bool
is_swept workflows exclude runs t =
    is_interrupted t.status && is_selected workflows runs t && not (is_excluded t.id exclude)

abbrev pub as_ready : TaskRow → TaskRow
as_ready t = record t { status = ready; started = none; token_hash = none }

abbrev pub sweep : (TaskRow → Bool) → List TaskRow → List TaskRow
sweep p [] = []
sweep p (t ∷ ts) = (if p t then as_ready t else t) ∷ sweep p ts

abbrev pub sorted_ids : List TaskRow → List ℕ
sorted_ids ts = sort_by leb (map (λ t. t.id) ts)

-- The ids that are returned are those of the rows that were reset.
unfoldable pub reset_for_recovery : Db → Option (List String) → List ℕ → Db × List ℕ
reset_for_recovery db workflows exclude =
    let p = is_swept workflows exclude db.runs in
    (record db { tasks = sweep p db.tasks }, sorted_ids (filter p db.tasks))

filter-sweep :
    (workflows : Option (List String)) (exclude : List ℕ) (runs : List RunRow) (ts : List TaskRow)
    → let p = is_swept workflows exclude runs in
      (filter p (sweep p ts) ≡ []) × (sweep p (sweep p ts) ≡ sweep p ts)
filter-sweep workflows exclude runs [] = (refl, refl)
filter-sweep workflows exclude runs (t ∷ ts) =
    let (none_left, same) = filter-sweep workflows exclude runs ts in
    elim (Bool-cases (is_swept workflows exclude runs t)) [
      | inl e ↦ rw e (none_left, ap (λ us. as_ready t ∷ us) same)
      | inr e ↦ rw e (rw e (none_left, ap (λ us. t ∷ us) same))
    ]

-- A task that the sweep is for.
abbrev InScope : Option (List String) → List RunRow → TaskRow → Type 0
InScope none runs t = Unit
InScope (some workflows) runs t =
    (run : RunRow) × Memᴰ run runs × (run.id ≡ t.run_id) × Memᴰ run.workflow workflows

abbrev pub ToReset : Option (List String) → List ℕ → List RunRow → TaskRow → Type 0
ToReset workflows exclude runs t =
    ((t.status ≡ in_progress) ⊎ (t.status ≡ waiting))
    × InScope workflows runs t
    × ¬ Memᴰ t.id exclude

is_interrupted_iff :
    (s : TaskStatus) → (is_interrupted s ≡ true) ↔ ((s ≡ in_progress) ⊎ (s ≡ waiting))
is_interrupted_iff in_progress = (λ h. inl refl, λ h. refl)
is_interrupted_iff waiting = (λ h. inr refl, λ h. refl)
is_interrupted_iff s = (λ h. ground arith, λ h. ground arith)

is_run_of_iff :
    (run_id : String) (workflows : List String) (runs : List RunRow)
    → (is_run_of run_id workflows runs ≡ true)
      ↔ ((run : RunRow) × Memᴰ run runs × (run.id ≡ run_id) × Memᴰ run.workflow workflows)
is_run_of_iff run_id workflows [] = (λ h. cc, λ (run, m, _, _). absurd (Memᴰ.not-nil m))
is_run_of_iff run_id workflows (r ∷ rs) = (
  λ h. elim (Bool-cases (r.id == run_id && member r.workflow workflows)) [
    | inl e ↦ (
      r,
      Memᴰ.head refl,
      ground (arith, eq_iff r.id run_id),
      (member_iff r.workflow workflows).0 (ground arith),
    )
    | inr e ↦
        let (run, m, same, listed) = (is_run_of_iff run_id workflows rs).0 (ground arith) in
        (run, Memᴰ.tail m, same, listed)
  ],
  λ (run, m, same, listed). elim (Memᴰ.cases_cons m) [
    | inl e ↦
        let id = (eq_iff r.id run_id).1 (ap (λ (v : RunRow). v.id) (sym e) ∙ same) in
        let named =
          (member_iff r.workflow workflows).1
            (subst (λ (v : RunRow). Memᴰ v.workflow workflows) e listed) in
        ground arith
    | inr rest ↦
        let found = (is_run_of_iff run_id workflows rs).1 (run, rest, same, listed) in ground arith
  ],
)

is_excluded_iff : (i : ℕ) (ids : List ℕ) → (is_excluded i ids ≡ true) ↔ Memᴰ i ids
is_excluded_iff i [] = (λ h. cc, λ m. absurd (Memᴰ.not-nil m))
is_excluded_iff i (j ∷ js) = ground (arith, is_excluded_iff i js, Memᴰ-cons i j js)

is_selected_iff :
    (workflows : Option (List String)) (runs : List RunRow) (t : TaskRow)
    → (is_selected workflows runs t ≡ true) ↔ InScope workflows runs t
is_selected_iff none runs t = (λ h. tt, λ h. refl)
is_selected_iff (some workflows) runs t = is_run_of_iff t.run_id workflows runs

is_swept_iff :
    (workflows : Option (List String)) (exclude : List ℕ) (runs : List RunRow) (t : TaskRow)
    → (is_swept workflows exclude runs t ≡ true) ↔ ToReset workflows exclude runs t
is_swept_iff workflows exclude runs t = ground (
  arith,
  is_interrupted_iff t.status,
  is_selected_iff workflows runs t,
  is_excluded_iff t.id exclude,
)

find_task-sweep :
    (p : TaskRow → Bool) (i : ℕ) (ts : List TaskRow) (t : TaskRow)
    → find_task i ts ≡ some t
    → find_task i (sweep p ts) ≡ some (if p t then as_ready t else t)
find_task-sweep p i [] t h = cc
find_task-sweep p i (u ∷ ts) t h =
    let same : (if p u then as_ready u else u).id ≡ u.id = swept_id (p u) u in
    elim (Bool-cases (eqb u.id i)) [
      | inl e ↦
          let here : u ≡ t = some_injective (rw e at h) in
          rw (same, e) (ap (λ v. some (if p v then as_ready v else v)) here)
      | inr e ↦ rw (same, e) (find_task-sweep p i ts t (rw e at h))
    ]
  where
    swept_id : (b : Bool) (v : TaskRow) → (if b then as_ready v else v).id ≡ v.id
    swept_id true v = refl
    swept_id false v = refl

    some_injective : {v w : TaskRow} → some v ≡ some w → v ≡ w
    some_injective h = cc

length-sweep : (p : TaskRow → Bool) (ts : List TaskRow) → length (sweep p ts) ≡ length ts
length-sweep p [] = refl
length-sweep p (t ∷ ts) = ap suc (length-sweep p ts)

-- What a recovery's sweep does to the table, and the ids that it answers.
abbrev pub Resets : Db → Option (List String) → List ℕ → Db × List ℕ → Type 0
Resets db workflows exclude (after, ids) =
    ((i : ℕ) (t : TaskRow)
      → get_task db i ≡ some t
      → (ToReset workflows exclude db.runs t
          × (get_task after i
              ≡ some (record t { status = ready; started = none; token_hash = none })))
        ⊎ ((¬ ToReset workflows exclude db.runs t) × (get_task after i ≡ some t)))
    × (length after.tasks ≡ length db.tasks)
    × ((i : ℕ)
        → Memᴰ i ids
          ↔ ((t : TaskRow) × Memᴰ t db.tasks × (t.id ≡ i) × ToReset workflows exclude db.runs t))
    × IsOrdered leb ids

sorted_ids_iff :
    (workflows : Option (List String)) (exclude : List ℕ) (runs : List RunRow) (ts : List TaskRow)
    (i : ℕ)
    → Memᴰ i (sorted_ids (filter (is_swept workflows exclude runs) ts))
      ↔ ((t : TaskRow) × Memᴰ t ts × (t.id ≡ i) × ToReset workflows exclude runs t)
sorted_ids_iff workflows exclude runs ts i =
    let p = is_swept workflows exclude runs in
    let sorted = mem-sort_by leb i (map (λ t. t.id) (filter p ts)) in
    (
      λ m.
          let (t, there, same) = Memᴰ.of_map (λ (t : TaskRow). t.id) (filter p ts) (sorted.0 m) in
          let (here, swept) = (mem-filter p t ts).0 there in
          (t, here, same, (is_swept_iff workflows exclude runs t).0 swept),
      λ (t, here, same, reset). sorted.1 (
          subst (λ k. Memᴰ k (map (λ v. v.id) (filter p ts))) same
            (Memᴰ.map (λ (v : TaskRow). v.id)
              ((mem-filter p t ts).1 (here, (is_swept_iff workflows exclude runs t).1 reset)))),
    )

reset_for_recovery-Resets :
    (db : Db) (workflows : Option (List String)) (exclude : List ℕ)
    → Resets db workflows exclude (reset_for_recovery db workflows exclude)
unfolding reset_for_recovery get_task
reset_for_recovery-Resets db workflows exclude =
    let p = is_swept workflows exclude db.runs in
    (
      λ i t here.
          let found = find_task-sweep p i db.tasks t here in
          elim (Bool-cases (p t)) [
            | inl e ↦ inl ((is_swept_iff workflows exclude db.runs t).0 e, found ∙ rw e refl)
            | inr e ↦ inr (
              λ reset. let yes = (is_swept_iff workflows exclude db.runs t).1 reset in cc,
              found ∙ rw e refl,
            )
          ],
      length-sweep p db.tasks,
      sorted_ids_iff workflows exclude db.runs db.tasks,
      sort_by-IsOrdered leb (λ a b. ground arith) (λ a b c h k. ground arith)
          (map (λ t. t.id) (filter p db.tasks)),
    )

-- A sweep resets exactly the tasks that are in progress or waiting, of a run of one of the workflows
-- if any are given, and not excluded: such a row is set to `ready` and loses its start and its token,
-- every other one is as it was. The ids that are answered are those of these tasks, in order. A
-- second sweep finds nothing to reset and changes nothing.
pub reset_for_recovery_twice :
    (db : Db) (workflows : Option (List String)) (exclude : List ℕ)
    → let after = (reset_for_recovery db workflows exclude).0 in
      Resets db workflows exclude (reset_for_recovery db workflows exclude)
      × (reset_for_recovery after workflows exclude ≡ (after, []))
unfolding reset_for_recovery
reset_for_recovery_twice db workflows exclude =
    let (none_left, same) = filter-sweep workflows exclude db.runs db.tasks in
    (
      reset_for_recovery-Resets db workflows exclude,
      ap₂ (λ ts ids. (record db { tasks = ts }, ids)) same (ap sorted_ids none_left),
    )

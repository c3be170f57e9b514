-- ===== src/Ops/Machine.antt =====
-- The states of a run, and the moves between them that athanore/engine/ops.py, the claim of
-- athanore/store/repos/tasks.py and the verdicts of athanore/engine/runner.py make.
use athanore.Prelude.{
  ℕ, ◌≡◌, refl, subst, inl, inr, String, true, false, Option, none, some, List, [], ◌∷◌, ◌++◌,
  filter, not, is_some, eq_iff, Bool-cases, Option-cases, arith, ◌==◌, if◌then◌else◌,
}
use athanore.Store.{RunStatus, queued, running, paused, run_cancelled, is_running, RunRow}
use athanore.Store.Runs.{find_run, write_run}
use athanore.Store.Rows.{find_run-write_run}
use athanore.Store.Claim.{is_queued}
use athanore.Store.Positions.{place_from, renumber}
use athanore.Ops.{has_ended}
use athanore.Ops.RunOps.{is_pausable, is_paused}

-- The row of one run before and after a step, or its absence.
pub data RunMove : Option RunRow → Option RunRow → Type 0 where
  absent : RunMove none none
  stays :
      {before after : RunRow}
      → after.status ≡ before.status
      → after.finished ≡ before.finished
      → RunMove (some before) (some after)
  creates :
      {after : RunRow} → after.status ≡ queued → after.finished ≡ none → RunMove none (some after)
  removes : {before : RunRow} → RunMove (some before) none
  starts :
      {before after : RunRow}
      → is_queued before.status ≡ true
      → after.status ≡ running
      → after.finished ≡ before.finished
      → RunMove (some before) (some after)
  pauses :
      {before after : RunRow}
      → is_pausable before.status ≡ true
      → after.status ≡ paused
      → after.finished ≡ before.finished
      → RunMove (some before) (some after)
  resumes :
      {before after : RunRow}
      → is_paused before.status ≡ true
      → after.status ≡ running
      → after.finished ≡ before.finished
      → RunMove (some before) (some after)
  ends :
      {before after : RunRow}
      → is_running before.status ≡ true
      → has_ended after.status ≡ true
      → is_some after.finished ≡ true
      → RunMove (some before) (some after)
  cancels :
      {before after : RunRow}
      → has_ended before.status ≡ false
      → after.status ≡ run_cancelled
      → is_some after.finished ≡ true
      → RunMove (some before) (some after)
  reopens :
      {before after : RunRow}
      → has_ended before.status ≡ true
      → after.status ≡ running
      → after.finished ≡ none
      → RunMove (some before) (some after)

abbrev pub RunMoves : List RunRow → List RunRow → Type 0
RunMoves before after = (r : String) → RunMove (find_run r before) (find_run r after)

pub RunMove-refl : (found : Option RunRow) → RunMove found found
RunMove-refl none = absent
RunMove-refl (some run) = stays refl refl

pub write_run-RunMoves :
    (run_id : String) (f : RunRow → RunRow) (runs : List RunRow) (run : RunRow)
    → ((r : RunRow) → (f r).id ≡ r.id)
    → find_run run_id runs ≡ some run
    → RunMove (some run) (some (f run))
    → RunMoves runs (write_run run_id f runs)
write_run-RunMoves run_id f runs run same found move r =
    let after = find_run-write_run run_id r f runs same in
    elim (Bool-cases (run_id == r)) [
      | inr other ↦ rw after (rw other (RunMove-refl (find_run r runs)))
      | inl this ↦
          let named = (eq_iff run_id r).0 this in
          let here : find_run r runs ≡ some run =
            subst (λ x. find_run x runs ≡ some run) named found in
          rw after (rw this (rw here move))
    ]

-- What a run shows of its state.
abbrev pub state_of : Option RunRow → Option (RunStatus × Option ℕ)
state_of none = none
state_of (some run) = some (run.status, run.finished)

abbrev pub SameStates : List RunRow → List RunRow → Type 0
SameStates before after = (r : String) → state_of (find_run r after) ≡ state_of (find_run r before)

state_of-RunMove :
    (before after : Option RunRow) → state_of after ≡ state_of before → RunMove before after
state_of-RunMove none none h = absent
state_of-RunMove none (some run) h = cc
state_of-RunMove (some run) none h = cc
state_of-RunMove (some run) (some run') h =
    let status : run'.status ≡ run.status = cc in
    let finished : run'.finished ≡ run.finished = cc in stays status finished

pub SameStates-RunMoves :
    (before after : List RunRow) → SameStates before after → RunMoves before after
SameStates-RunMoves before after same r =
    state_of-RunMove (find_run r before) (find_run r after) (same r)

pub write_run-SameStates :
    (run_id : String) (f : RunRow → RunRow) (runs : List RunRow)
    → ((r : RunRow) → (f r).id ≡ r.id)
    → ((r : RunRow) → (f r).status ≡ r.status)
    → ((r : RunRow) → (f r).finished ≡ r.finished)
    → SameStates runs (write_run run_id f runs)
write_run-SameStates run_id f [] same status finished r = refl
write_run-SameStates run_id f (run ∷ runs) same status finished r =
    let rest = write_run-SameStates run_id f runs same status finished r in
    ground (arith, same run, status run, finished run)

pub renumber-SameStates :
    (ids : List String) (runs : List RunRow) → SameStates runs (renumber ids runs)
renumber-SameStates ids [] r = refl
renumber-SameStates ids (run ∷ runs) r = elim (Option-cases (place_from 1 run.id ids)) [
  | inl e ↦ rw e (ground (arith, renumber-SameStates ids runs r))
  | inr (place, e) ↦ rw e (ground (arith, renumber-SameStates ids runs r))
]

pub append-RunMoves :
    (runs : List RunRow) (row : RunRow)
    → row.status ≡ queued
    → row.finished ≡ none
    → RunMoves runs (runs ++ row ∷ [])
append-RunMoves [] row status finished r = elim (Bool-cases (row.id == r)) [
  | inl e ↦ rw e (creates status finished)
  | inr e ↦ rw e absent
]
append-RunMoves (run ∷ runs) row status finished r = elim (Bool-cases (run.id == r)) [
  | inl e ↦ rw e (RunMove-refl (some run))
  | inr e ↦ rw e (append-RunMoves runs row status finished r)
]

find_run-filter :
    (run_id r : String) (runs : List RunRow)
    → find_run r (filter (λ v. not (v.id == run_id)) runs)
      ≡ (if run_id == r then none else find_run r runs)
find_run-filter run_id r [] = ground arith
find_run-filter run_id r (run ∷ runs) =
    ground
      (arith, eq_iff run.id r, eq_iff run_id r, eq_iff run.id run_id, find_run-filter run_id r runs)

removes-RunMove : (found : Option RunRow) → RunMove found none
removes-RunMove none = absent
removes-RunMove (some run) = removes

pub filter-RunMoves :
    (run_id : String) (runs : List RunRow) → RunMoves runs (filter (λ v. not (v.id == run_id)) runs)
filter-RunMoves run_id runs r = elim (Bool-cases (run_id == r)) [
  | inl e ↦ rw (find_run-filter run_id r runs) (rw e (removes-RunMove (find_run r runs)))
  | inr e ↦ rw (find_run-filter run_id r runs) (rw e (RunMove-refl (find_run r runs)))
]

pub find_run_id :
    (r : String) (runs : List RunRow) (run : RunRow) → find_run r runs ≡ some run → run.id ≡ r
find_run_id r [] run h = cc
find_run_id r (v ∷ runs) run h = elim (Bool-cases (v.id == r)) [
  | inl e ↦ let k = rw e at h in let named = (eq_iff v.id r).0 e in cc
  | inr e ↦ let k = rw e at h in find_run_id r runs run k
]

-- ===== src/Scheduler/Ledger/Asked.antt =====
-- `Scheduler.cancel_attempts` of athanore/engine/scheduler.py, and what `_reap` leaves.
use athanore.Prelude.{
  ℕ, ◌≡◌, refl, sym, ◌∙◌, ap, ap₂, inl, inr, Bool, true, false, not, ◌&&◌, ◌||◌, Option, none, some,
  List, [], ◌∷◌, filter, get_elem?, get_elem?-set, eqb, Bool-cases, Option-cases, arith,
  if◌then◌else◌,
}
use athanore.Scheduler.Ledger.{
  Job, Ledger, find_job, is_finished_job, keeps_id, is_job, cancel_job, put_at, ask,
  cancel_attempts,
}

-- The scheduler has an attempt of the task that is still running.
abbrev pub runs : Ledger → ℕ → Bool
runs l id = keeps_id l.jobs (find_job id l.attempts)

-- One of the tasks has this `asyncio.Task`, and it is running.
abbrev pub is_asked : Ledger → ℕ → List ℕ → Bool
is_asked l h [] = false
is_asked l h (id ∷ ids) = runs l id && is_job h (find_job id l.attempts) || is_asked l h ids

put_at-get_elem? :
    (jobs : List Job) (h k : ℕ)
    → get_elem? (put_at jobs h (cancel_job (get_elem? jobs h))) k
      ≡ (if eqb h k then cancel_job (get_elem? jobs k) else get_elem? jobs k)
put_at-get_elem? jobs h k = elim (Option-cases (get_elem? jobs h)) [
  | inl e ↦ rw e (elim (Bool-cases (eqb h k)) [
    | inl same ↦
        let equal : h ≡ k = ground arith in
        let gone : get_elem? jobs k ≡ none = ap (get_elem? jobs) (sym equal) ∙ e in
        rw (same, gone) refl
    | inr other ↦ rw other refl
  ])
  | inr (job, e) ↦ rw e (elim (Bool-cases (eqb h k)) [
    | inl same ↦
        let equal : h ≡ k = ground arith in
        let here : get_elem? jobs k ≡ some job = ap (get_elem? jobs) (sym equal) ∙ e in
        get_elem?-set jobs h k (record job { cancelling = true }) ∙ rw (same, here) refl
    | inr other ↦ get_elem?-set jobs h k (record job { cancelling = true }) ∙ rw other refl
  ])
]

cancel_job-is_finished : (job : Option Job) → is_finished_job (cancel_job job) ≡ is_finished_job job
cancel_job-is_finished none = refl
cancel_job-is_finished (some job) = refl

cancel_job_twice : (job : Option Job) → cancel_job (cancel_job job) ≡ cancel_job job
cancel_job_twice none = refl
cancel_job_twice (some job) = refl

-- The ledger after the cancellation of one attempt.
abbrev asked_one : Ledger → ℕ → Ledger
asked_one l id = if runs l id then ask l (find_job id l.attempts) else l

ask-jobs :
    (l : Ledger) (b : Bool) (found : Option ℕ) (h : ℕ)
    → get_elem? (if b then ask l found else l).jobs h
      ≡ (if b && is_job h found then cancel_job (get_elem? l.jobs h) else get_elem? l.jobs h)
ask-jobs l false found h = refl
ask-jobs l true none h = refl
ask-jobs l true (some k) h = put_at-get_elem? l.jobs k h

ask-same :
    (l : Ledger) (b : Bool) (found : Option ℕ)
    → ((if b then ask l found else l).attempts ≡ l.attempts)
      × ((if b then ask l found else l).live ≡ l.live)
ask-same l false found = (refl, refl)
ask-same l true none = (refl, refl)
ask-same l true (some k) = (refl, refl)

is_finished-if :
    (b : Bool) (job : Option Job)
    → is_finished_job (if b then cancel_job job else job) ≡ is_finished_job job
is_finished-if true job = cancel_job-is_finished job
is_finished-if false job = refl

keeps_id-asked_one :
    (l : Ledger) (id : ℕ) (found : Option ℕ)
    → keeps_id (asked_one l id).jobs found ≡ keeps_id l.jobs found
keeps_id-asked_one l id none = refl
keeps_id-asked_one l id (some h) = ap not (
    ap is_finished_job (ask-jobs l (runs l id) (find_job id l.attempts) h)
    ∙ is_finished-if (runs l id && is_job h (find_job id l.attempts)) (get_elem? l.jobs h))

runs-asked_one : (l : Ledger) (id i : ℕ) → runs (asked_one l id) i ≡ runs l i
runs-asked_one l id i =
    keeps_id-asked_one l id (find_job i (asked_one l id).attempts)
    ∙ ap (λ d. keeps_id l.jobs (find_job i d)) (ask-same l (runs l id) (find_job id l.attempts)).0

is_asked-asked_one :
    (l : Ledger) (id h : ℕ) (ids : List ℕ) → is_asked (asked_one l id) h ids ≡ is_asked l h ids
is_asked-asked_one l id h [] = refl
is_asked-asked_one l id h (i ∷ ids) =
    ap₂ (λ a b. a || b)
      (ap₂ (λ a b. a && b) (runs-asked_one l id i)
        (ap (λ d. is_job h (find_job i d)) (ask-same l (runs l id) (find_job id l.attempts)).0))
      (is_asked-asked_one l id h ids)

filter-runs :
    (l : Ledger) (id : ℕ) (ids : List ℕ) → filter (runs (asked_one l id)) ids ≡ filter (runs l) ids
filter-runs l id [] = refl
filter-runs l id (i ∷ ids) =
    ap₂ (λ b rest. if b then i ∷ rest else rest) (runs-asked_one l id i) (filter-runs l id ids)

-- What a cancellation of these tasks' attempts leaves.
abbrev pub Asks : Ledger → List ℕ → Ledger × List ℕ → Type 0
Asks l ids (after, cancelled) =
    (cancelled ≡ filter (runs l) ids)
    × (after.attempts ≡ l.attempts)
    × (after.live ≡ l.live)
    × ((h : ℕ)
        → get_elem? after.jobs h
          ≡ (if is_asked l h ids then cancel_job (get_elem? l.jobs h) else get_elem? l.jobs h))

if_twice :
    (a b : Bool) (job : Option Job)
    → (if a
        then cancel_job (if b then cancel_job job else job)
        else if b
        then cancel_job job
        else job)
      ≡ (if b || a then cancel_job job else job)
if_twice true true job = cancel_job_twice job
if_twice true false job = refl
if_twice false true job = refl
if_twice false false job = refl

-- `cancel_attempts` answers those of the ids, in their order, that the scheduler has a running
-- attempt of; it asks for the cancellation of exactly these attempts, and changes nothing else: an
-- attempt that has ended, or a task that this process does not run, is skipped.
pub cancel_attempts-Asks : (l : Ledger) (ids : List ℕ) → Asks l ids (cancel_attempts l ids)
unfolding cancel_attempts
cancel_attempts-Asks l [] = (refl, refl, refl, λ h. refl)
cancel_attempts-Asks l (id ∷ ids) =
    let mid = asked_one l id in
    let (names, attempts, live, jobs) = cancel_attempts-Asks mid ids in
    let same = ask-same l (runs l id) (find_job id l.attempts) in
    (
      ap (λ rest. if runs l id then id ∷ rest else rest) (names ∙ filter-runs l id ids),
      attempts ∙ same.0,
      live ∙ same.1,
      λ h.
          jobs h
          ∙ ap₂ (λ a job. if a then cancel_job job else job) (is_asked-asked_one l id h ids)
              (ask-jobs l (runs l id) (find_job id l.attempts) h)
          ∙ if_twice (is_asked l h ids) (runs l id && is_job h (find_job id l.attempts))
              (get_elem? l.jobs h),
    )

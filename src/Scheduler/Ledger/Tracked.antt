-- ===== src/Scheduler/Ledger/Tracked.antt =====
-- What the ledger of athanore/engine/scheduler.py keeps: the attempt that an operator would cancel is
-- one that is live.
use athanore.Prelude.{
  ℕ, ◌+◌, ◌<◌, ◌≤◌, ◌≡◌, ◌≢◌, refl, sym, ◌∙◌, ap, subst, inl, inr, Bool, true, false, Option, none,
  some, List, [], ◌∷◌, ◌++◌, length, length-append, length-set, get_elem?, All, eqb, Bool-cases,
  arith, if◌then◌else◌,
}
use athanore.Scheduler.{Attempt}
use athanore.Scheduler.Ledger.{
  Job, Ledger, new_ledger, find_entry, drop_entry, find_job, is_finished, keeps_id, spawn_attempt,
  is_job, reap_one, reap_each, reap, cancel_job, put_at, ask, cancel_attempts, finish_job,
  LedgerCall, spawns, finishes, reaps, cancels, call, calls,
}
use athanore.Scheduler.Ledger.Lookups.{
  find_entry-old, find_entry-new, find_entry-drop_entry, find_job-put_job, find_job-drop_job,
}

-- The attempt that `_attempts` has for a task is live, and is of that task.
abbrev pub Tracks : List (ℕ × Attempt) → List (ℕ × ℕ) → Type 0
Tracks live attempts =
    (id h : ℕ)
    → find_job id attempts ≡ some h
    → (e : Attempt) × (find_entry h live ≡ some e) × (e.task_id ≡ id)

abbrev pub Distinct : List (ℕ × Attempt) → Type 0
Distinct [] = Unit
Distinct (p ∷ live) = All (λ q. q.0 ≢ p.0) live × Distinct live

abbrev pub IsLedger : Ledger → Type 0
IsLedger l = Tracks l.live l.attempts × All (λ p. p.0 < length l.jobs) l.live × Distinct l.live

All-append {κ} :
    (P : ℕ × Attempt → Type κ) (live : List (ℕ × Attempt)) (p : ℕ × Attempt)
    → All P live
    → P p
    → All P (live ++ p ∷ [])
All-append P [] p h k = (k, tt)
All-append P (q ∷ live) p h k = (h.0, All-append P live p h.1 k)

All-raise :
    (m n : ℕ) (live : List (ℕ × Attempt))
    → m ≤ n
    → All (λ p. p.0 < m) live
    → All (λ p. p.0 < n) live
All-raise m n [] low h = tt
All-raise m n (p ∷ live) low h = let here = h.0 in (omega arith, All-raise m n live low h.1)

Distinct-append :
    (n : ℕ) (e : Attempt) (live : List (ℕ × Attempt))
    → All (λ p. p.0 < n) live
    → Distinct live
    → Distinct (live ++ (n, e) ∷ [])
Distinct-append n e [] low d = (tt, tt)
Distinct-append n e (p ∷ live) low d =
    let here = low.0 in
    (
      All-append (λ q. q.0 ≢ p.0) live (n, e) d.0 (λ same. omega arith),
      Distinct-append n e live low.1 d.1,
    )

All-drop_entry {κ} :
    (P : ℕ × Attempt → Type κ) (h : ℕ) (live : List (ℕ × Attempt))
    → All P live
    → All P (drop_entry h live)
All-drop_entry P h [] all = tt
All-drop_entry P h ((k, e) ∷ live) all = elim (Bool-cases (eqb k h)) [
  | inl same ↦ rw same (All-drop_entry P h live all.1)
  | inr other ↦ rw other (all.0, All-drop_entry P h live all.1)
]

Distinct-drop_entry :
    (h : ℕ) (live : List (ℕ × Attempt)) → Distinct live → Distinct (drop_entry h live)
Distinct-drop_entry h [] d = tt
Distinct-drop_entry h ((k, e) ∷ live) d = elim (Bool-cases (eqb k h)) [
  | inl same ↦ rw same (Distinct-drop_entry h live d.1)
  | inr other ↦ rw other (All-drop_entry (λ q. q.0 ≢ k) h live d.0, Distinct-drop_entry h live d.1)
]

spawn_attempt-Tracks :
    (l : Ledger) (e : Attempt)
    → IsLedger l
    → Tracks (spawn_attempt l e).live (spawn_attempt l e).attempts
unfolding spawn_attempt
spawn_attempt-Tracks l e (tracks, low, distinct) id h found =
    elim (Bool-cases (keeps_id l.jobs (find_job e.task_id l.attempts))) [
      | inl keeps ↦ old (rw keeps at found)
      | inr takes ↦
          let read =
            sym (find_job-put_job e.task_id id (length l.jobs) l.attempts) ∙ rw takes at found in
          elim (Bool-cases (eqb e.task_id id)) [
            | inl same ↦
                let here : length l.jobs ≡ h = some_injective (rw same at read) in
                let named : e.task_id ≡ id = ground arith in
                (
                  e,
                  ap (λ n. find_entry n (l.live ++ (length l.jobs, e) ∷ [])) (sym here)
                      ∙ find_entry-new (length l.jobs) e l.live low,
                  named,
                )
            | inr other ↦ old (rw other at read)
          ]
    ]
  where
    some_injective : {m n : ℕ} → some m ≡ some n → m ≡ n
    some_injective p = cc

    old :
        find_job id l.attempts ≡ some h
        → (f : Attempt) × (find_entry h (l.live ++ (length l.jobs, e) ∷ []) ≡ some f)
          × (f.task_id ≡ id)
    old before =
        let (f, at, named) = tracks id h before in
        (f, find_entry-old h (length l.jobs) e f l.live at, named)

reap_one-Tracks :
    (l : Ledger) (h : ℕ) (e : Attempt)
    → Tracks l.live l.attempts
    → find_entry h l.live ≡ some e
    → Tracks (reap_one l h e).live (reap_one l h e).attempts
reap_one-Tracks l h e tracks here id k found =
    elim (Bool-cases (is_job h (find_job e.task_id l.attempts))) [
      | inl mine ↦
          let read = sym (find_job-drop_job e.task_id id l.attempts) ∙ rw mine at found in
          elim (Bool-cases (eqb e.task_id id)) [
            | inl same ↦ let none_left = rw same at read in cc
            | inr other ↦ kept (rw other at read) λ named. let no = other in ground arith
          ]
      | inr other ↦ kept (rw other at found) λ named.
          let seen : find_job e.task_id l.attempts ≡ some k =
            ap (λ i. find_job i l.attempts) named ∙ rw other at found in
          λ same.
            let is_mine : is_job h (find_job e.task_id l.attempts) ≡ true =
              ap (is_job h) seen ∙ ground arith in
            cc
    ]
  where
    kept :
        find_job id l.attempts ≡ some k
        → (e.task_id ≡ id → k ≢ h)
        → (f : Attempt) × (find_entry k (drop_entry h l.live) ≡ some f) × (f.task_id ≡ id)
    kept before apart =
        let (f, at, named) = tracks id k before in
        elim (Bool-cases (eqb h k)) [
          | inr differs ↦ (f, find_entry-drop_entry h k l.live ∙ rw differs at, named)
          | inl same ↦
              let equal : k ≡ h = ground arith in
              let both : some f ≡ some e = sym at ∙ ap (λ n. find_entry n l.live) equal ∙ here in
              let task : e.task_id ≡ id = cc in elim (apart task equal) [ ]
        ]

reap_one-IsLedger :
    (l : Ledger) (h : ℕ) (e : Attempt)
    → IsLedger l
    → find_entry h l.live ≡ some e
    → IsLedger (reap_one l h e)
reap_one-IsLedger l h e (tracks, low, distinct) here = (
  reap_one-Tracks l h e tracks here,
  All-drop_entry (λ p. p.0 < length l.jobs) h l.live low,
  Distinct-drop_entry h l.live distinct,
)

-- The copy that is walked still agrees with what is live.
abbrev InLive : List (ℕ × Attempt) → List (ℕ × Attempt) → Type 0
InLive live snapshot = All (λ p. find_entry p.0 live ≡ some p.1) snapshot

InLive-drop_entry :
    (live rest : List (ℕ × Attempt)) (h : ℕ)
    → All (λ q. q.0 ≢ h) rest
    → InLive live rest
    → InLive (drop_entry h live) rest
InLive-drop_entry live [] h other at = tt
InLive-drop_entry live (p ∷ rest) h other at =
    let apart = other.0 in
    let differs : eqb h p.0 ≡ false = ground arith in
    (find_entry-drop_entry h p.0 live ∙ rw differs at.0, InLive-drop_entry live rest h other.1 at.1)

InLive-self : (live : List (ℕ × Attempt)) → Distinct live → InLive live live
InLive-self [] d = tt
InLive-self (p ∷ live) d = (ground arith, below live d.0 (InLive-self live d.1))
  where
    below :
        (rest : List (ℕ × Attempt))
        → All (λ q. q.0 ≢ p.0) rest
        → InLive live rest
        → InLive (p ∷ live) rest
    below [] other at = tt
    below (q ∷ rest) other at =
        let apart = other.0 in
        let differs : eqb p.0 q.0 ≡ false = ground arith in
        (rw differs at.0, below rest other.1 at.1)

reap_each-IsLedger :
    (l : Ledger) (snapshot : List (ℕ × Attempt))
    → IsLedger l
    → Distinct snapshot
    → InLive l.live snapshot
    → IsLedger (reap_each l snapshot).0
unfolding reap_each
reap_each-IsLedger l [] v d at = v
reap_each-IsLedger l ((h, e) ∷ rest) v d at = elim (Bool-cases (is_finished l.jobs h)) [
  | inr runs ↦ rw (reap_each, runs) (reap_each-IsLedger l rest v d.1 at.1)
  | inl ended ↦
      rw (reap_each, ended)
        (reap_each-IsLedger (reap_one l h e) rest (reap_one-IsLedger l h e v at.0) d.1
          (InLive-drop_entry l.live rest h d.0 at.1))
]

length-put_at :
    (jobs : List Job) (h : ℕ) (job : Option Job) → length (put_at jobs h job) ≡ length jobs
length-put_at jobs h none = refl
length-put_at jobs h (some job) = length-set jobs h job

put_at-IsLedger :
    (l : Ledger) (h : ℕ) (job : Option Job)
    → IsLedger l
    → IsLedger (record l { jobs = put_at l.jobs h job })
put_at-IsLedger l h job (tracks, low, distinct) = (
  tracks,
  subst (λ n. All (λ p. p.0 < n) l.live) (sym (length-put_at l.jobs h job)) low,
  distinct,
)

ask-IsLedger :
    (l : Ledger) (b : Bool) (found : Option ℕ)
    → IsLedger l
    → IsLedger (if b then ask l found else l)
ask-IsLedger l false found v = v
ask-IsLedger l true none v = v
ask-IsLedger l true (some h) v = put_at-IsLedger l h (cancel_job (get_elem? l.jobs h)) v

cancel_attempts-IsLedger :
    (l : Ledger) (ids : List ℕ) → IsLedger l → IsLedger (cancel_attempts l ids).0
unfolding cancel_attempts
cancel_attempts-IsLedger l [] v = v
cancel_attempts-IsLedger l (id ∷ ids) v =
    cancel_attempts-IsLedger
      (if keeps_id l.jobs (find_job id l.attempts) then ask l (find_job id l.attempts) else l) ids
      (ask-IsLedger l (keeps_id l.jobs (find_job id l.attempts)) (find_job id l.attempts) v)

spawn_attempt-IsLedger : (l : Ledger) (e : Attempt) → IsLedger l → IsLedger (spawn_attempt l e)
unfolding spawn_attempt
spawn_attempt-IsLedger l e v =
    let (tracks, low, distinct) = v in
    let size = length-append l.jobs (record { finished = false; cancelling = false } ∷ []) in
    (
      spawn_attempt-Tracks l e v,
      subst (λ n. All (λ p. p.0 < n) (l.live ++ (length l.jobs, e) ∷ [])) (sym size)
          (All-append (λ p. p.0 < length l.jobs + 1) l.live (length l.jobs, e)
            (All-raise (length l.jobs) (length l.jobs + 1) l.live (omega arith) low) (omega arith)),
      Distinct-append (length l.jobs) e l.live low distinct,
    )

call-IsLedger : (l : Ledger) (c : LedgerCall) → IsLedger l → IsLedger (call l c)
unfolding call reap
call-IsLedger l (spawns e) v = spawn_attempt-IsLedger l e v
call-IsLedger l (finishes h) v = put_at-IsLedger l h (finish_job (get_elem? l.jobs h)) v
call-IsLedger l reaps v = reap_each-IsLedger l l.live v v.2 (InLive-self l.live v.2)
call-IsLedger l (cancels ids) v = cancel_attempts-IsLedger l ids v

calls-IsLedger : (l : Ledger) (cs : List LedgerCall) → IsLedger l → IsLedger (calls l cs)
unfolding calls
calls-IsLedger l [] v = v
calls-IsLedger l (c ∷ cs) v = calls-IsLedger (call l c) cs (call-IsLedger l c v)

-- After any history of spawning, finishing, reaping and cancelling, the attempt that the scheduler
-- has under a task's id is live and is an attempt of that task, and each live attempt is an
-- `asyncio.Task` of its own.
pub calls-Tracks :
    (cs : List LedgerCall)
    → let l = calls new_ledger cs in Tracks l.live l.attempts × Distinct l.live
calls-Tracks cs =
    let v = calls-IsLedger new_ledger cs ((λ id h found. let no = found in cc), tt, tt) in
    (v.0, v.2)

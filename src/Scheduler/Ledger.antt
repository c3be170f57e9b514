-- ===== src/Scheduler/Ledger.antt =====
-- athanore/engine/scheduler.py: the attempts in flight, `_live` and `_attempts`, with `_spawn`,
-- `_reap` and `cancel_attempts`. An `asyncio.Task` is its index in `jobs`.
pub mod Lookups
pub mod Tracked
pub mod Asked
use athanore.Prelude.{
  ℕ, ◌+◌, String, Bool, true, false, not, ◌&&◌, Option, none, some, List, [], ◌∷◌, ◌++◌, map,
  length, get_elem?, set, eqb, is_some, ◌==◌, if◌then◌else◌,
}
use athanore.Scheduler.{Attempt}

-- An `asyncio.Task`: whether it is done, and whether its cancellation was asked for.
pub record Job : Type 0 where
  pub finished : Bool
  pub cancelling : Bool

pub record Ledger : Type 0 where
  pub jobs : List Job
  pub live : List (ℕ × Attempt)
  pub attempts : List (ℕ × ℕ)

abbrev pub new_ledger : Ledger
new_ledger = record { jobs = []; live = []; attempts = [] }

abbrev pub find_entry : ℕ → List (ℕ × Attempt) → Option Attempt
find_entry h [] = none
find_entry h ((k, e) ∷ live) = if eqb k h then some e else find_entry h live

abbrev pub drop_entry : ℕ → List (ℕ × Attempt) → List (ℕ × Attempt)
drop_entry h [] = []
drop_entry h ((k, e) ∷ live) =
    let rest = drop_entry h live in if eqb k h then rest else (k, e) ∷ rest

abbrev pub find_job : ℕ → List (ℕ × ℕ) → Option ℕ
find_job id [] = none
find_job id ((j, h) ∷ d) = if eqb j id then some h else find_job id d

abbrev pub put_job : ℕ → ℕ → List (ℕ × ℕ) → List (ℕ × ℕ)
put_job id h [] = (id, h) ∷ []
put_job id h ((j, k) ∷ d) = if eqb j id then (id, h) ∷ d else (j, k) ∷ put_job id h d

abbrev pub drop_job : ℕ → List (ℕ × ℕ) → List (ℕ × ℕ)
drop_job id [] = []
drop_job id ((j, h) ∷ d) = let rest = drop_job id d in if eqb j id then rest else (j, h) ∷ rest

abbrev pub is_finished_job : Option Job → Bool
is_finished_job none = false
is_finished_job (some job) = job.finished

abbrev pub is_finished : List Job → ℕ → Bool
is_finished jobs h = is_finished_job (get_elem? jobs h)

-- An attempt that is still running this task keeps the id.
abbrev pub keeps_id : List Job → Option ℕ → Bool
keeps_id jobs none = false
keeps_id jobs (some h) = not (is_finished jobs h)

unfoldable pub spawn_attempt : Ledger → Attempt → Ledger
spawn_attempt l e =
    let h = length l.jobs in
    record {
      jobs = l.jobs ++ record { finished = false; cancelling = false } ∷ [];
      live = l.live ++ (h, e) ∷ [];
      attempts =
          if keeps_id l.jobs (find_job e.task_id l.attempts)
          then l.attempts
          else put_job e.task_id h l.attempts;
    }

abbrev pub is_job : ℕ → Option ℕ → Bool
is_job h none = false
is_job h (some k) = eqb k h

abbrev pub reap_one : Ledger → ℕ → Attempt → Ledger
reap_one l h e = record l {
  live = drop_entry h l.live;
  attempts =
      if is_job h (find_job e.task_id l.attempts)
      then drop_job e.task_id l.attempts
      else l.attempts;
}

-- The loop of `_reap` over a copy of `_live`, with the leases that it gives back.
unfoldable pub reap_each : Ledger → List (ℕ × Attempt) → Ledger × List ℕ
reap_each l [] = (l, [])
reap_each l ((h, e) ∷ rest) =
    let ended = is_finished l.jobs h in
    let (l', leases) = reap_each (if ended then reap_one l h e else l) rest in
    (l', if ended then e.lease ∷ leases else leases)

unfoldable pub reap : Ledger → Ledger × List ℕ
unfolding reap_each
reap l = reap_each l l.live

abbrev pub cancel_job : Option Job → Option Job
cancel_job none = none
cancel_job (some job) = some (record job { cancelling = true })

abbrev pub put_at : List Job → ℕ → Option Job → List Job
put_at jobs h none = jobs
put_at jobs h (some job) = set jobs h job

abbrev pub ask : Ledger → Option ℕ → Ledger
ask l none = l
ask l (some h) = record l { jobs = put_at l.jobs h (cancel_job (get_elem? l.jobs h)) }

unfoldable pub cancel_attempts : Ledger → List ℕ → Ledger × List ℕ
cancel_attempts l [] = (l, [])
cancel_attempts l (id ∷ ids) =
    let found = find_job id l.attempts in
    let runs = keeps_id l.jobs found in
    let (l', cancelled) = cancel_attempts (if runs then ask l found else l) ids in
    (l', if runs then id ∷ cancelled else cancelled)

-- The task ids of `_attempts`, in the order of their keys.
abbrev pub in_flight : Ledger → List ℕ
in_flight l = map (λ p. p.0) l.attempts

-- What asyncio does when the body of an attempt has ended.
abbrev pub finish_job : Option Job → Option Job
finish_job none = none
finish_job (some job) = some (record job { finished = true })

pub data LedgerCall : Type 0 where
  spawns : Attempt → LedgerCall
  finishes : ℕ → LedgerCall
  reaps : LedgerCall
  cancels : List ℕ → LedgerCall

unfoldable pub call : Ledger → LedgerCall → Ledger
unfolding spawn_attempt reap cancel_attempts
call l (spawns e) = spawn_attempt l e
call l (finishes h) = record l { jobs = put_at l.jobs h (finish_job (get_elem? l.jobs h)) }
call l reaps = (reap l).0
call l (cancels ids) = (cancel_attempts l ids).0

unfoldable pub calls : Ledger → List LedgerCall → Ledger
unfolding call
calls l [] = l
calls l (c ∷ cs) = calls (call l c) cs

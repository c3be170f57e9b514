-- ===== src/System/Invariants.antt =====
-- What every step of the engine keeps: the state diagram of a run, its time of finishing, the ids of
-- tasks and the one dispatch of a join for each fan-out.
use athanore.Prelude.{
  ℕ, ◌≡◌, refl, sym, subst, inl, inr, String, true, Option, none, some, List, is_some, Option-cases,
  arith,
}
use athanore.Prelude.Dict.{Dict}
use athanore.Graph.{Error, Graph}
use athanore.Prelude.Int.{ℤ}
use athanore.Routing.{Transition}
use athanore.Store.{RunStatus, BranchFrame, RunRow, TaskRow, Db}
use athanore.Store.Runs.{find_run, get_run}
use athanore.Runner.{enqueue_transition, fire_join, note_arrival}
use athanore.Runner.Sent.{Sent, queued, noted, fired_join}
use athanore.Runner.Outcome.{BodyEnd, Raised, retry_task, end_attempt}
use athanore.Runner.Keeps.{end_attempt_keeps}
use athanore.Runner.FiresOnce.{FiresOnce, end_attempt-FiresOnce}
use athanore.Runner.Verdict.{is_over, Settled, end_attempt-Settled}
use athanore.Ops.{has_ended, answered, Reply}
use athanore.Ops.Answers.{Answers-answered}
use athanore.Ops.Machine.{
  RunMove, absent, stays, creates, removes, starts, pauses, resumes, ends, cancels, reopens,
  RunMoves, RunMove-refl, write_run-RunMoves,
}
use athanore.Ops.Commands.{Command, perform, perform-RunMoves}
use athanore.Ops.TaskEdits.{
  TaskEdit, IdsKept, added-IdsKept, write_task-TaskEdit, untouched, TaskEdit-IdsKept,
  TaskEdit-FiresOnce,
}
use athanore.Ops.TaskEdited.{perform-Edits}
use athanore.Store.Sweep.{reset_for_recovery}
use athanore.System.{Step, ended, claimed, recovered, operated, Reachable, started, stepped}
use athanore.System.ClaimSteps.{
  claim_ready-RunMoves, claim_ready-TaskEdit, reset_for_recovery-TaskEdit,
}

is_over-has_ended : (s : RunStatus) → is_over s ≡ true → has_ended s ≡ true
is_over-has_ended s h = ground arith

Settled-RunMoves :
    (run_id : String) (before after : List RunRow)
    → Settled run_id before after
    → RunMoves before after
Settled-RunMoves run_id before after (inl same) =
    subst (RunMoves before) (sym same) λ r. RunMove-refl (find_run r before)
Settled-RunMoves run_id before after (inr v) = elim (Option-cases (find_run run_id before)) [
  | inl gone ↦ let ran = v.was_running in let bad = rw gone at ran in cc
  | inr (run, found) ↦
      let ran = v.was_running in
      subst (RunMoves before) (sym v.wrote) (
        write_run-RunMoves run_id v.write before run v.same_id found
          (ends (rw found at ran) (is_over-has_ended _ (v.over run)) (v.stamped run)))
]

recovery-RunMoves :
    (db : Db) (workflows : Option (List String)) (exclude : List ℕ)
    → RunMoves db.runs (reset_for_recovery db workflows exclude).0.runs
unfolding reset_for_recovery
recovery-RunMoves db workflows exclude r = RunMove-refl (find_run r db.runs)

-- Whatever step the engine takes, each run moves along the state diagram by one move at most: it is
-- created queued; it goes from queued to running, from queued or running to paused and from paused
-- to running; it ends from running, or is cancelled before it has ended; it is opened again only
-- after it has ended; or it is deleted.
pub Step-RunMoves :
    (graphs : Dict Graph) (db after : Db) → Step graphs db after → RunMoves db.runs after.runs
Step-RunMoves graphs db after (ended describe graph max_retries task body now) =
    Settled-RunMoves task.run_id db.runs _
      (end_attempt-Settled describe graph max_retries db task body now)
Step-RunMoves graphs db after (claimed mint hash limit workflows now) =
    claim_ready-RunMoves mint hash db limit workflows now
Step-RunMoves graphs db after (recovered workflows exclude) = recovery-RunMoves db workflows exclude
Step-RunMoves graphs db after (operated command now reply e) =
    perform-RunMoves graphs command db now reply e

abbrev pub IsStamped : Option RunRow → Type 0
IsStamped none = Unit
IsStamped (some run) = is_some run.finished ≡ has_ended run.status

RunMove-IsStamped :
    (before after : Option RunRow) → RunMove before after → IsStamped before → IsStamped after
RunMove-IsStamped before after absent h = tt
RunMove-IsStamped before after (stays status finished) h = ground arith
RunMove-IsStamped before after (creates status finished) h = ground arith
RunMove-IsStamped before after removes h = tt
RunMove-IsStamped before after (starts was status finished) h = ground arith
RunMove-IsStamped before after (pauses was status finished) h = ground arith
RunMove-IsStamped before after (resumes was status finished) h = ground arith
RunMove-IsStamped before after (ends was status finished) h = ground arith
RunMove-IsStamped before after (cancels was status finished) h = ground arith
RunMove-IsStamped before after (reopens was status finished) h = ground arith

-- In every store that the engine reaches, a run has a time of finishing exactly if it has ended:
-- completed, failed or cancelled.
pub Reachable-IsStamped :
    (graphs : Dict Graph) (db : Db) → Reachable graphs db → (r : String) → IsStamped (get_run db r)
unfolding get_run
Reachable-IsStamped graphs db (started dialect) r = tt
Reachable-IsStamped graphs db (stepped {db = before} reached step) r =
    RunMove-IsStamped _ _ (Step-RunMoves graphs before db step r)
      (Reachable-IsStamped graphs before reached r)

Sent-IdsKept :
    (db sent : Db) (task : TaskRow) (t : Transition) (frames : List BranchFrame) (now : ℕ)
    → Sent db task t frames now sent
    → IdsKept db
    → IdsKept sent
unfolding enqueue_transition note_arrival fire_join
Sent-IdsKept db sent task t frames now (queued target) kept =
    added-IdsKept db sent _ refl refl refl kept
Sent-IdsKept db sent task t frames now (noted target frame) kept = kept
Sent-IdsKept db sent task t frames now (fired_join target frame outer first) kept =
    added-IdsKept db sent _ refl refl refl kept

retry_task-IdsKept :
    (db : Db) (task : TaskRow) (exc : Raised) (now : ℕ)
    → IdsKept db
    → IdsKept (retry_task db task exc now)
unfolding retry_task
retry_task-IdsKept db task exc now kept =
    added-IdsKept db (retry_task db task exc now) _ refl refl refl kept

end_attempt-IdsKept :
    (describe : Error → String) (graph : Graph) (max_retries : ℤ) (db : Db) (task : TaskRow)
    (body : BodyEnd) (now : ℕ)
    → IdsKept db
    → IdsKept (end_attempt describe graph max_retries db task body now)
end_attempt-IdsKept =
    end_attempt_keeps IdsKept
      (λ db after tasks next. TaskEdit-IdsKept (untouched db after tasks next))
      (λ db after i f keeps tasks next.
        TaskEdit-IdsKept (write_task-TaskEdit db after i f keeps tasks next))
      Sent-IdsKept retry_task-IdsKept

command_edit :
    (graphs : Dict Graph) (db : Db) (command : Command) (now : ℕ) (reply : Reply (Unit {0}))
    → perform graphs command db now ≡ answered reply
    → TaskEdit db reply.db
command_edit graphs db command now reply =
    Answers-answered (λ r. TaskEdit db r.db) (perform graphs command db now) reply
      (perform-Edits graphs command db now)

Step-IdsKept :
    (graphs : Dict Graph) (db after : Db) → Step graphs db after → IdsKept db → IdsKept after
Step-IdsKept graphs db after (ended describe graph max_retries task body now) kept =
    end_attempt-IdsKept describe graph max_retries db task body now kept
Step-IdsKept graphs db after (claimed mint hash limit workflows now) kept =
    TaskEdit-IdsKept (claim_ready-TaskEdit mint hash db limit workflows now) kept
Step-IdsKept graphs db after (recovered workflows exclude) kept =
    TaskEdit-IdsKept (reset_for_recovery-TaskEdit db workflows exclude) kept
Step-IdsKept graphs db after (operated command now reply e) kept =
    TaskEdit-IdsKept (command_edit graphs db command now reply e) kept

-- In every store that the engine reaches, no two tasks have one id, and each id is below the next
-- one to be given.
pub Reachable-IdsKept : (graphs : Dict Graph) (db : Db) → Reachable graphs db → IdsKept db
Reachable-IdsKept graphs db (started dialect) = (tt, tt)
Reachable-IdsKept graphs db (stepped {db = before} reached step) =
    Step-IdsKept graphs before db step (Reachable-IdsKept graphs before reached)

Step-FiresOnce :
    (graphs : Dict Graph) (db after : Db)
    → Step graphs db after
    → FiresOnce db.tasks
    → FiresOnce after.tasks
Step-FiresOnce graphs db after (ended describe graph max_retries task body now) once =
    end_attempt-FiresOnce describe graph max_retries db task body now once
Step-FiresOnce graphs db after (claimed mint hash limit workflows now) once =
    TaskEdit-FiresOnce (claim_ready-TaskEdit mint hash db limit workflows now) once
Step-FiresOnce graphs db after (recovered workflows exclude) once =
    TaskEdit-FiresOnce (reset_for_recovery-TaskEdit db workflows exclude) once
Step-FiresOnce graphs db after (operated command now reply e) once =
    TaskEdit-FiresOnce (command_edit graphs db command now reply e) once

-- In every store that the engine reaches, each fan-out has at most one task that its arrivals
-- dispatched at each join, whatever is rerun, retried, moved, deleted or recovered in between.
pub Reachable-FiresOnce : (graphs : Dict Graph) (db : Db) → Reachable graphs db → FiresOnce db.tasks
Reachable-FiresOnce graphs db (started dialect) = λ r j f. omega arith
Reachable-FiresOnce graphs db (stepped {db = before} reached step) =
    Step-FiresOnce graphs before db step (Reachable-FiresOnce graphs before reached)

-- ===== src/Ops/Commands.antt =====
-- The class `Ops` of athanore/engine/ops.py as one operation: a command, and what it does.
use athanore.Prelude.{ℕ, ◌≡◌, String, Option}
use athanore.Prelude.Int.{ℤ}
use athanore.Prelude.Dict.{Dict}
use athanore.Graph.{Graph}
use athanore.Store.{TaskStatus, Db}
use athanore.Ops.{Answer, answered, refused, Reply}
use athanore.Ops.RunOps.{submit, edit, reorder, pause, resume, append_log, cancel, delete}
use athanore.Ops.TaskOps.{rerun, retry, move, set_task_status}
use athanore.Ops.Answers.{Answers, Answers-answered}
use athanore.Ops.Machine.{RunMoves}
use athanore.Ops.Diagram.{
  submit-Moves, edit-Moves, reorder-Moves, pause-Moves, resume-Moves, append_log-Moves,
  cancel-Moves, delete-Moves,
}
use athanore.Ops.TaskDiagram.{rerun-Moves, retry-Moves, move-Moves, set_task_status-Moves}

-- `submitting` has the id that is drawn first.
pub data Command : Type 0 where
  submitting : String → String → String → String → Command
  editing : String → Option String → Option String → Command
  reordering : String → Option ℤ → Option ℤ → Command
  pausing resuming cancelling deleting : String → Command
  appending_log : String → String → Command
  rerunning : String → String → Command
  retrying : ℕ → Command
  moving : ℕ → String → Command
  setting_status : ℕ → TaskStatus → Command

-- What the operation leaves, less what it returns.
abbrev pub forget : {V : Type 0} → Answer (Reply V) → Answer (Reply (Unit {0}))
forget (answered reply) =
    answered (record { value = tt; db = reply.db; cancels = reply.cancels; wakes = reply.wakes })
forget (refused r) = refused r

unfoldable pub perform : Dict Graph → Command → Db → ℕ → Answer (Reply (Unit {0}))
unfolding submit edit reorder pause resume append_log cancel delete rerun retry move set_task_status
perform graphs (submitting new_id workflow title description) db now =
    forget (submit graphs db new_id workflow title description now)
perform graphs (editing run_id title description) db now =
    forget (edit db run_id title description now)
perform graphs (reordering run_id direction index) db now =
    forget (reorder db run_id direction index now)
perform graphs (pausing run_id) db now = forget (pause db run_id now)
perform graphs (resuming run_id) db now = forget (resume db run_id now)
perform graphs (cancelling run_id) db now = forget (cancel db run_id now)
perform graphs (deleting run_id) db now = forget (delete db run_id now)
perform graphs (appending_log run_id said) db now = forget (append_log db run_id said now)
perform graphs (rerunning run_id node) db now = forget (rerun graphs db run_id node now)
perform graphs (retrying task_id) db now = forget (retry graphs db task_id now)
perform graphs (moving task_id node) db now = forget (move graphs db task_id node now)
perform graphs (setting_status task_id status) db now =
    forget (set_task_status db task_id status now)

pub forget-Answers {κ} :
    {V : Type 0} (P : Db → Type κ) (call : Answer (Reply V))
    → Answers (λ reply. P reply.db) call
    → Answers (λ reply. P reply.db) (forget call)
forget-Answers P (answered reply) h = h
forget-Answers P (refused r) h = h

perform-Moves :
    (graphs : Dict Graph) (command : Command) (db : Db) (now : ℕ)
    → Answers (λ reply. RunMoves db.runs reply.db.runs) (perform graphs command db now)
unfolding perform
perform-Moves graphs (submitting new_id workflow title description) db now =
    forget-Answers (λ d. RunMoves db.runs d.runs) _
      (submit-Moves graphs db new_id workflow title description now)
perform-Moves graphs (editing run_id title description) db now =
    forget-Answers (λ d. RunMoves db.runs d.runs) _ (edit-Moves db run_id title description now)
perform-Moves graphs (reordering run_id direction index) db now =
    forget-Answers (λ d. RunMoves db.runs d.runs) _ (reorder-Moves db run_id direction index now)
perform-Moves graphs (pausing run_id) db now =
    forget-Answers (λ d. RunMoves db.runs d.runs) _ (pause-Moves db run_id now)
perform-Moves graphs (resuming run_id) db now =
    forget-Answers (λ d. RunMoves db.runs d.runs) _ (resume-Moves db run_id now)
perform-Moves graphs (cancelling run_id) db now =
    forget-Answers (λ d. RunMoves db.runs d.runs) _ (cancel-Moves db run_id now)
perform-Moves graphs (deleting run_id) db now =
    forget-Answers (λ d. RunMoves db.runs d.runs) _ (delete-Moves db run_id now)
perform-Moves graphs (appending_log run_id said) db now =
    forget-Answers (λ d. RunMoves db.runs d.runs) _ (append_log-Moves db run_id said now)
perform-Moves graphs (rerunning run_id node) db now =
    forget-Answers (λ d. RunMoves db.runs d.runs) _ (rerun-Moves graphs db run_id node now)
perform-Moves graphs (retrying task_id) db now =
    forget-Answers (λ d. RunMoves db.runs d.runs) _ (retry-Moves graphs db task_id now)
perform-Moves graphs (moving task_id node) db now =
    forget-Answers (λ d. RunMoves db.runs d.runs) _ (move-Moves graphs db task_id node now)
perform-Moves graphs (setting_status task_id status) db now =
    forget-Answers (λ d. RunMoves db.runs d.runs) _ (set_task_status-Moves db task_id status now)

-- An operation that is not refused moves each run along the state diagram by one step at most: it
-- creates a run queued, pauses a queued or running one, resumes a paused one, cancels one that has
-- not ended, opens an ended one again or deletes one; every other run keeps its status.
pub perform-RunMoves :
    (graphs : Dict Graph) (command : Command) (db : Db) (now : ℕ) (reply : Reply (Unit {0}))
    → perform graphs command db now ≡ answered reply
    → RunMoves db.runs reply.db.runs
perform-RunMoves graphs command db now reply =
    Answers-answered (λ r. RunMoves db.runs r.db.runs) (perform graphs command db now) reply
      (perform-Moves graphs command db now)

-- ===== src/System.antt =====
-- The engine as a whole: the steps that athanore/engine/runner.py, athanore/engine/ops.py, the claim
-- and the sweep of athanore/store/repos/tasks.py take on one store, in any order. Each step is one
-- transaction, and transactions are serial, so an interleaving of the attempts, the operator, the
-- dispatch loop and a recovery is a sequence of steps.
pub mod ClaimSteps
pub mod Invariants
mod Examples
use athanore.Prelude.{ℕ, ◌≡◌, String, Option, List}
use athanore.Prelude.Int.{ℤ}
use athanore.Prelude.Dict.{Dict}
use athanore.Graph.{Error, Graph}
use athanore.Store.{TaskRow, Dialect, Db, empty_store}
use athanore.Store.Claim.{claim_ready}
use athanore.Store.Sweep.{reset_for_recovery}
use athanore.Runner.Outcome.{BodyEnd, end_attempt}
use athanore.Ops.{answered, Reply}
use athanore.Ops.Commands.{Command, perform}

-- An attempt ends with any row as the one that it read when it was claimed.
pub data Step (graphs : Dict Graph) : Db → Db → Type 0 where
  ended :
      {db : Db} (describe : Error → String) (graph : Graph) (max_retries : ℤ) (task : TaskRow)
      (body : BodyEnd) (now : ℕ)
      → Step graphs db (end_attempt describe graph max_retries db task body now)
  claimed :
      {db : Db} (mint : ℕ → String) (hash : String → String) (limit : ℕ) (workflows : List String)
      (now : ℕ)
      → Step graphs db (claim_ready mint hash db limit workflows now).0
  recovered :
      {db : Db} (workflows : Option (List String)) (exclude : List ℕ)
      → Step graphs db (reset_for_recovery db workflows exclude).0
  operated :
      {db : Db} (command : Command) (now : ℕ) (reply : Reply (Unit {0}))
      → perform graphs command db now ≡ answered reply
      → Step graphs db reply.db

-- What a new store comes to.
pub data Reachable (graphs : Dict Graph) : Db → Type 0 where
  started : (dialect : Dialect) → Reachable graphs (empty_store dialect)
  stepped : {db after : Db} → Reachable graphs db → Step graphs db after → Reachable graphs after

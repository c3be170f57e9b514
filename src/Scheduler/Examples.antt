-- ===== src/Scheduler/Examples.antt =====
-- A pool of two slots over three ready tasks, and a row that is given out again while its attempt
-- still runs.
use athanore.Prelude.{ℕ, ◌≡◌, refl, false, List, [], ◌∷◌, map, arith}
use athanore.Store.Examples.{listed, mint, hash, listed_ids}
use athanore.Pools.{PoolState, new_pool_state, drain_readmits}
use athanore.Pools.Conserve.{Inv}
use athanore.Scheduler.{Attempt, dispatch_pool}
use athanore.Scheduler.Dispatch.{Dispatched, dispatch_pool-Dispatched}
use athanore.Scheduler.Ledger.{
  Ledger, new_ledger, spawns, finishes, reaps, cancels, LedgerCall, spawn_attempt, cancel_attempts,
  calls, in_flight,
}
use athanore.Scheduler.Ledger.Tracked.{Tracks, Distinct, calls-Tracks}
use athanore.Scheduler.Ledger.Asked.{Asks, cancel_attempts-Asks}

abbrev two_slots : PoolState
two_slots = new_pool_state (record { name = "default"; capacity = 2 })

two_slots-Inv : Inv two_slots
unfolding new_pool_state
two_slots-Inv = record { counted = refl; bounded = omega arith }

dispatch_pool-Dispatched_example :
    Dispatched false
      (drain_readmits two_slots).0
      listed
      ("pipeline" ∷ [])
      (dispatch_pool mint hash false two_slots listed ("pipeline" ∷ []) 9)
dispatch_pool-Dispatched_example =
    dispatch_pool-Dispatched mint hash false two_slots listed ("pipeline" ∷ []) 9 two_slots-Inv
      listed_ids

two_spawned :
    map
      (λ a. a.task_id)
      (dispatch_pool mint hash false two_slots listed ("pipeline" ∷ []) 9).spawned
    ≡ 3 ∷ 2 ∷ []
unfolding dispatch_pool new_pool_state drain_readmits
two_spawned = refl

abbrev attempt : ℕ → Attempt
attempt lease = record { task_id = 7; lease = lease; workflow = "pipeline" }

abbrev history : List LedgerCall
history = spawns (attempt 0) ∷ spawns (attempt 1) ∷ cancels (7 ∷ []) ∷ finishes 0 ∷ reaps ∷ []

calls-Tracks_example :
    let l = calls new_ledger history in Tracks l.live l.attempts × Distinct l.live
calls-Tracks_example = calls-Tracks history

-- The younger attempt of the task is live, and has no entry.
none_in_flight : in_flight (calls new_ledger history) ≡ []
unfolding calls
none_in_flight = refl

abbrev one_spawned : Ledger
one_spawned = spawn_attempt new_ledger (attempt 0)

cancel_attempts-Asks_example :
    Asks one_spawned (7 ∷ 8 ∷ []) (cancel_attempts one_spawned (7 ∷ 8 ∷ []))
cancel_attempts-Asks_example = cancel_attempts-Asks one_spawned (7 ∷ 8 ∷ [])

-- ===== src/Scheduler.antt =====
-- athanore/engine/scheduler.py: one turn of a pool, `_dispatch_pool`, and the attempts that it
-- spawns.
pub mod Reserve
pub mod Slots
pub mod Dispatch
pub mod Ledger
mod Examples
use athanore.Prelude.{
  ℕ, zero, suc, ◌-◌, String, Bool, true, false, Option, none, some, List, [], ◌∷◌, drop, length,
  get_elem?, set, leb, if◌then◌else◌,
}
use athanore.Store.{Db}
use athanore.Store.Claim.{ClaimedTask, claim_ready}
use athanore.Pools.{Lease, PoolState, free, try_acquire, release_lease, drain_readmits, after}

-- `_Attempt`, less the `asyncio.Task`; the lease is its index in the pool.
pub record Attempt : Type 0 where
  pub task_id : ℕ
  pub lease : ℕ
  pub workflow : String

-- The loop that reserves `n` slots.
unfoldable pub reserve : ℕ → PoolState → PoolState × List ℕ
unfolding try_acquire
reserve zero s = (s, [])
reserve (suc n) s =
    let (s', leases) = reserve n (try_acquire s none).0 in
    elim (try_acquire s none).1 [ none ↦ (s, []) | some lease ↦ (s', lease ∷ leases) ]

abbrev pub name_lease : Option Lease → ℕ → Option Lease
name_lease none task_id = none
name_lease (some lease) task_id = some (record lease { task_id = some task_id })

abbrev pub set_lease : PoolState → ℕ → Option Lease → PoolState
set_lease s i none = s
set_lease s i (some lease) = record s { leases = set s.leases i lease }

-- `_spawn`, which names the task in the lease.
unfoldable pub spawn : PoolState → ClaimedTask → ℕ → PoolState × Attempt
spawn s claimed lease = (
  set_lease s lease (name_lease (get_elem? s.leases lease) claimed.task.id),
  record { task_id = claimed.task.id; lease = lease; workflow = claimed.workflow },
)

-- for one, lease in zip(claimed, leases)
unfoldable pub spawn_all : PoolState → List ClaimedTask → List ℕ → PoolState × List Attempt
unfolding spawn
spawn_all s [] leases = (s, [])
spawn_all s (c ∷ claimed) [] = (s, [])
spawn_all s (c ∷ claimed) (lease ∷ leases) =
    let (s', attempts) = spawn_all (spawn s c lease).0 claimed leases in
    (s', (spawn s c lease).1 ∷ attempts)

unfoldable pub release_all : PoolState → List ℕ → PoolState
unfolding release_lease
release_all s [] = s
release_all s (lease ∷ leases) = release_all (after s (release_lease s lease)) leases

pub record Turn : Type 0 where
  pub pool : PoolState
  pub db : Db
  pub spawned : List Attempt

-- The turn of a claim that raises, and of one that does not.
abbrev pub claim_turn :
    (ℕ → String) → (String → String) → Bool → PoolState × List ℕ → Db → List String → ℕ → Turn
claim_turn mint hash true (s, leases) db workflows now = record {
  pool = release_all s leases;
  db = db;
  spawned = [];
}
claim_turn mint hash false (s, leases) db workflows now =
    let (db', claimed) = claim_ready mint hash db (length leases) workflows now in
    let (s', attempts) = spawn_all s claimed leases in
    record { pool = release_all s' (drop (length claimed) leases); db = db'; spawned = attempts }

abbrev pub has_none : List String → Bool
has_none [] = true
has_none (w ∷ workflows) = false

-- `_dispatch_pool`, of a pool that these workflows are bound to. `raises` says whether the
-- transaction of the claim fails.
unfoldable pub dispatch_pool :
    (ℕ → String) → (String → String) → Bool → PoolState → Db → List String → ℕ → Turn
unfolding drain_readmits reserve spawn_all release_all claim_ready
dispatch_pool mint hash raises pool db workflows now =
    let s = (drain_readmits pool).0 in
    let idle : Turn = record { pool = s; db = db; spawned = [] } in
    let turn = claim_turn mint hash raises (reserve (free s) s) db workflows now in
    if leb (free s) 0 then idle else if has_none workflows then idle else turn

-- ===== src/Pools.antt =====
-- athanore/engine/pools.py: `PoolState`, its leases and its re-admit queue. `Pool` and the
-- registry are modules below. The objects that callers share are kept in the state: a lease is its
-- index in `leases`, a future its index in `futures`.
pub mod Conserve
pub mod Drain
pub mod Queue
pub mod Registry
pub mod Naming
mod Examples
use athanore.Prelude.{
  ℕ, zero, suc, ◌+◌, ◌-◌, ◌≡◌, String, Bool, true, false, Option, none, some, List, [], ◌∷◌, ◌++◌,
  length, get_elem?, set, leb, ◌==◌, if◌then◌else◌,
}

pub record Pool : Type 0 where
  pub name : String
  pub capacity : ℕ

-- `Lease`, less its reference to the pool that keeps it.
pub record Lease : Type 0 where
  pub task_id : Option ℕ
  pub released : Bool

-- An `asyncio.Future[Lease]`.
pub data Future : Type 0 where
  pending cancelled : Future
  delivered : ℕ → Future

abbrev pub is_done : Option Future → Bool
is_done (some pending) = false
is_done _ = true

-- The loop clock is a count of microseconds.
pub record Waiter : Type 0 where
  pub task_id : ℕ
  pub future : ℕ
  pub enqueued_at : ℕ

pub record PoolState : Type 0 where
  pub pool : Pool
  pub leased : ℕ
  pub readmit : List Waiter
  pub leases : List Lease
  pub futures : List Future

unfoldable pub new_pool_state : Pool → PoolState
new_pool_state p = record { pool = p; leased = 0; readmit = []; leases = []; futures = [] }

-- max(capacity - leased, 0), which is what `-` on ℕ is.
abbrev pub free : PoolState → ℕ
free s = s.pool.capacity - s.leased

-- The pool after the call, and the lease that is returned.
unfoldable pub try_acquire : PoolState → Option ℕ → PoolState × Option ℕ
try_acquire s task_id = if leb (free s) 0 then (s, none) else (
  record s {
    leased = s.leased + 1;
    leases = s.leases ++ record { task_id = task_id; released = false } ∷ [];
  },
  some (length s.leases),
)

-- Python's exceptions of this module. `over_released` is the `RuntimeError`, which the source
-- marks unreachable.
pub data PoolError : Type 0 where
  wrong_pool : String → String → PoolError
  over_released : String → PoolError

pub data Answer {ℓ} (Value : Type ℓ) : Type ℓ where
  returns : Value → Answer Value
  refuses : PoolError → Answer Value

-- `Lease.release` on the lease at this index. An index out of range is no lease of this pool.
unfoldable pub release_lease : PoolState → ℕ → Answer PoolState
release_lease s i = elim (get_elem? s.leases i) [
  | none ↦ returns s
  | some lease ↦
      if lease.released
      then returns s
      else if leb s.leased 0
      then refuses (over_released s.pool.name)
      else returns (record s {
        leases = set s.leases i (record lease { released = true });
        leased = s.leased - 1;
      })
]

-- `PoolState.release`, of the lease at this index of the pool of this name.
pub release : PoolState → String → ℕ → Answer PoolState
release s owner i =
    if owner == s.pool.name then release_lease s i else refuses (wrong_pool owner s.pool.name)

-- The future that is returned is the last one.
pub request_readmit : PoolState → ℕ → ℕ → PoolState
request_readmit s task_id now = record s {
  readmit =
      s.readmit ++ record { task_id = task_id; future = length s.futures; enqueued_at = now } ∷ [];
  futures = s.futures ++ pending ∷ [];
}

-- `Future.cancel`, which asyncio calls: a future that is done stays as it is.
pub cancel_future : PoolState → ℕ → PoolState
cancel_future s i =
    if is_done (get_elem? s.futures i) then s else record s { futures = set s.futures i cancelled }

-- The loop of `drain_readmits` over the queue `ws`, with the leases handed over so far.
unfoldable pub drain : PoolState → List Waiter → List ℕ → PoolState × List ℕ
drain s [] handed = (record s { readmit = [] }, handed)
drain s (w ∷ ws) handed = elim (leb (free s) 0) [
  | true ↦ (record s { readmit = w ∷ ws }, handed)
  | false ↦ elim (is_done (get_elem? s.futures w.future)) [
    | true ↦ drain s ws handed
    | false ↦ elim (try_acquire s (some w.task_id)).1 [
      | none ↦ (record s { readmit = ws }, handed)
      | some lease ↦
          let s' = (try_acquire s (some w.task_id)).0 in
          drain (record s' { futures = set s'.futures w.future (delivered lease) }) ws
            (handed ++ lease ∷ [])
    ]
  ]
]

unfoldable pub drain_readmits : PoolState → PoolState × List ℕ
unfolding drain try_acquire
drain_readmits s = drain s s.readmit []

-- The calls that the scheduler, the runner and asyncio make on one pool.
pub data Call : Type 0 where
  acquires : Option ℕ → Call
  releases : ℕ → Call
  requests : ℕ → ℕ → Call
  cancels : ℕ → Call
  drains : Call

-- A call that raises leaves the pool as it was.
abbrev pub after : PoolState → Answer PoolState → PoolState
after s (returns t) = t
after s (refuses e) = s

pub step : PoolState → Call → PoolState
unfolding try_acquire release release_lease request_readmit cancel_future drain_readmits
step s (acquires task_id) = (try_acquire s task_id).0
step s (releases i) = after s (release s s.pool.name i)
step s (requests task_id now) = request_readmit s task_id now
step s (cancels i) = cancel_future s i
step s drains = (drain_readmits s).0

pub run : PoolState → List Call → PoolState
run s [] = s
run s (c ∷ cs) = run (step s c) cs

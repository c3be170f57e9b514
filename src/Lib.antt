-- ===== src/Lib.antt =====
-- A model of athanore, a durable workflow engine, and of what makes its parts correct.
--
-- A workflow is a graph whose nodes are async functions: a node's parameters are its edges and its
-- return value is its routing. The engine keeps runs and tasks in a database, claims ready tasks
-- into the free slots of named pools, calls the body of each, and writes the outcome of the call in
-- one transaction.
--
-- Graph: athanore/graph/model.py, builder.py and validate.py. `Signature` is `parse_signature`,
--   `Builder` is `GraphBuilder` and `Validate` is `finalize` with its three checks and its
--   breadth-first search; `Walk` holds the walks of a graph that the search is measured against. An
--   exception is a value of `Error`. The search runs on as many rounds as the graph has nodes, since
--   a round takes a node off the queue and a node is queued once; the constructor `fuel` marks a
--   search that was cut short.
-- Json: `jsonable` of athanore/graph/json.py, over the values that a body may return. What a pydantic
--   model dumps to, and the `str` of a value of another class, are given with the value.
-- Routing: athanore/engine/routing.py, from a return value to the transitions to enqueue. `Table` is
--   the routing table as a relation, `FanOut` is `is_fan_out`.
-- Pools: athanore/engine/pools.py. `PoolState` keeps its leases and its waiters' futures, each by its
--   index, in place of the objects that callers share. `Naming` is the check of a pool that a user
--   writes, `Registry` is `PoolRegistry`; `Conserve`, `Drain` and `Queue` are about capacity, the order
--   of the re-admit queue and its futures.
-- Store: the rows of athanore/store/rows.py; `Tasks`, `Runs`, `Positions`, `Joins`, `Claim` and
--   `Sweep` are the queries of athanore/store/repos on tables that are lists of rows, oldest first.
--   `Claim` is `claim_ready`, with its ORDER BY as a sort by a list of keys; `Positions` is the order
--   of the run list. Writing a row is what the statement says; the database itself is not modelled,
--   and a transaction is one function. `Dialect` is the backend: it decides which id a table
--   gives after rows are deleted. Tokens, their hashes and the ids of runs are given.
-- Runner: athanore/engine/runner.py, the outcome of an attempt. `Runner` sends transitions on and
--   records arrivals at joins, `Outcome` is `_record_success`, `_settle_run` and `_record_failure`;
--   `Sent` and `Ended` are their cases, `Exhausted` is a task whose attempts all fail, on as much
--   fuel as its retry budget.
--
-- Ops: athanore/engine/ops.py, the twelve operations of an operator. Each answers a value, the store
--   it leaves and what it does to the live process after its commit, or a refusal; `RunOps` and
--   `TaskOps` are the operations, `Commands` is the class `Ops` as one operation. `Machine` is the
--   state diagram of a run, `TaskEdits` what can happen to the table of tasks.
-- Scheduler: athanore/engine/scheduler.py. `Scheduler` is the turn of a pool, `_dispatch_pool`, over
--   the pool and the store; `Ledger` keeps the attempts in flight, each `asyncio.Task` by its index.
-- Events: athanore/events/bus.py with the globs of names.py. A subscription is its index in
--   `objects`, `serve_all` any sequence of what subscribers and the store do with one bus; `Complete`
--   and `Isolation` are about what a reader is told. `str.split` and `fnmatchcase` are given. An event's payload is the
--   JSON text of the table, not the `EventData` of `Store`.
-- System: the steps of the engine on one store in any order: attempts that end, claims, recoveries
--   and operations. Transactions are serial, so an interleaving of them is a sequence of steps.
--
-- The scheduler takes slots from `Pools` and claims tasks by `Store.Claim`, the end of a claimed task
-- is `Outcome.end_attempt`, which asks `Routing` for the transitions and `Graph` for the targets, and
-- writes to `Store`, as the operations of `Ops` do.
--
-- Numbers are natural numbers and signed integers without bounds, as Python's are; database columns
-- of integers are taken to hold them. Times are counts of microseconds, and a transaction reads one
-- time. Not modelled: the timed loop of the scheduler, the services that a body calls while it
-- runs, recovery but for its sweep of the tasks, requests to people, `wait_for`
-- of the event bus, the HTTP API, the command line, plugins and agents.
pub mod Prelude
pub mod Graph
pub mod Events
pub mod Json
pub mod Ops
pub mod Pools
pub mod Routing
pub mod Runner
pub mod Scheduler
pub mod Store
pub mod System

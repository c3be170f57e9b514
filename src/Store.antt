-- ===== src/Store.antt =====
-- athanore/store/rows.py and tables.py: the rows of `runs`, `tasks` and `join_arrivals`, and the
-- events that a unit of work gathers. A table is the list of its rows, oldest first. `Tasks`, `Runs`,
-- `Joins` and `Sweep` are the repositories of athanore/store/repos.
pub mod Tasks
pub mod Runs
pub mod Rows
pub mod Joins
pub mod Sweep
pub mod Claim
pub mod Positions
pub mod Examples
use athanore.Prelude.{ℕ, String, Bool, true, false, Option, List, []}
use athanore.Prelude.Int.{ℤ}
use athanore.Json.{Value}

pub data RunStatus : Type 0 where
  queued running paused completed run_failed run_cancelled : RunStatus

pub data TaskStatus : Type 0 where
  ready in_progress waiting done failed dead_letter cancelled : TaskStatus

abbrev pub is_running : RunStatus → Bool
is_running running = true
is_running _ = false

-- PENDING
abbrev pub is_pending : TaskStatus → Bool
is_pending ready = true
is_pending in_progress = true
is_pending waiting = true
is_pending _ = false

-- A time is a count of microseconds.
pub record RunRow : Type 0 where
  pub id : String
  pub workflow : String
  pub title : String
  pub description : String
  pub status : RunStatus
  pub output : Value
  pub position : ℤ
  pub created : ℕ
  pub updated : ℕ
  pub finished : Option ℕ

pub record BranchFrame : Type 0 where
  pub fanout : ℕ
  pub index : ℕ
  pub count : ℕ
  pub key : Value

-- LINEAGE_REASON: the engine's own reasons, then the operator's.
pub data Reason : Type 0 where
  by_transition by_retry by_join by_start by_rerun by_manual_retry by_move : Reason

abbrev pub is_join : Reason → Bool
is_join by_join = true
is_join _ = false

-- The dictionary that a task's `lineage` holds: `from`, `reason` and `arrivals`.
pub record Lineage : Type 0 where
  pub from : Option ℕ
  pub reason : Reason
  pub arrivals : Option (List ℕ)

pub record TaskRow : Type 0 where
  pub id : ℕ
  pub run_id : String
  pub node : String
  pub attempt : ℕ
  pub status : TaskStatus
  pub payload : Value
  pub result : Value
  pub error : Option String
  pub priority : ℤ
  pub explicit : Bool
  pub token_hash : Option String
  pub stats : Option Value
  pub lineage : Option Lineage
  pub terminal : Bool
  pub branch : List BranchFrame
  pub created : ℕ
  pub started : Option ℕ
  pub finished : Option ℕ

pub record ArrivalRow : Type 0 where
  pub run_id : String
  pub join_node : String
  pub fanout_task : ℕ
  pub index : ℕ
  pub key : Value
  pub value : Value
  pub from_task : Option ℕ
  pub late : Bool
  pub created : ℕ

pub data LogAuthor : Type 0 where
  agent engine user : LogAuthor

pub data LogKind : Type 0 where
  deliverable note stats failure : LogKind

pub record LogEntryRow : Type 0 where
  pub id : ℕ
  pub run_id : String
  pub task_id : Option ℕ
  pub node : String
  pub author : LogAuthor
  pub kind : Option LogKind
  pub text : String
  pub created : ℕ

-- What `frame_summaries` leaves of a frame.
pub record FrameSummary : Type 0 where
  pub fanout : ℕ
  pub index : ℕ
  pub count : ℕ

-- Why a run failed: an error text, or what the text with the code `join_incomplete` is formatted
-- from, which is each join with its arrivals and its count.
pub data RunError : Type 0 where
  error_text : String → RunError
  join_incomplete : List (String × ℕ × ℕ) → RunError

-- The `reason` of `task.cancelled`.
pub data CancelReason : Type 0 where
  on_cancel on_delete on_move on_set_status : CancelReason

-- The payloads of athanore/events/payloads.py that an outcome or an
-- operator's operation emits; each has one event name.
pub data EventData : Type 0 where
  task_enqueued :
      String → ℕ → Reason → Option ℕ → Bool → List FrameSummary → Option (List ℕ) → EventData
  task_done : String → ℕ → List String → Bool → EventData
  task_failed : String → ℕ → String → Bool → Bool → Option ℕ → EventData
  task_dead_lettered : String → ℕ → String → EventData
  join_arrived : String → ℕ → ℕ → ℕ → ℕ → Bool → EventData
  run_completed_event : String → ℕ → Value → List ℕ → EventData
  run_failed_event : String → ℕ → RunError → EventData
  run_created : String → String → ℤ → EventData
  run_updated : Option String → Option String → Option RunStatus → EventData
  run_reordered : ℤ → ℤ → EventData
  run_paused run_resumed : EventData
  run_cancelled_event : List ℕ → EventData
  run_deleted : String → String → EventData
  log_appended : ℕ → LogAuthor → String → String → EventData
  task_cancelled : String → TaskStatus → CancelReason → EventData
  task_moved : String → String → ℕ → EventData
  task_status_set : String → TaskStatus → TaskStatus → EventData

pub record Event : Type 0 where
  pub run_id : String
  pub task_id : Option ℕ
  pub data_of : EventData
  pub created : ℕ

-- The two backends, SQLITE and POSTGRESQL.
pub data Dialect : Type 0 where
  sqlite postgresql : Dialect

-- `next_task` and `next_log` are the ids that the tables give next.
pub record Db : Type 0 where
  pub dialect : Dialect
  pub runs : List RunRow
  pub tasks : List TaskRow
  pub next_task : ℕ
  pub arrivals : List ArrivalRow
  pub log : List LogEntryRow
  pub next_log : ℕ
  pub events : List Event

abbrev pub empty_store : Dialect → Db
empty_store dialect = record {
  dialect = dialect;
  runs = [];
  tasks = [];
  next_task = 1;
  arrivals = [];
  log = [];
  next_log = 1;
  events = [];
}

abbrev pub empty_db : Db
empty_db = empty_store sqlite

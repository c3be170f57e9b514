-- ===== src/Runner.antt =====
-- athanore/engine/runner.py: what the end of an attempt writes, each outcome in one transaction.
-- `Outcome` is the end of the attempt, this file what it sends on.
-- A transaction reads one time, `now`. A transaction that raises leaves the store as it was.
pub mod Outcome
pub mod Sent
pub mod Ended
pub mod Verdict
pub mod FiresOnce
pub mod Keeps
pub mod Retry
pub mod Exhausted
pub mod Examples
use athanore.Prelude.{
  ℕ, zero, suc, ◌+◌, String, Bool, true, false, not, ◌&&◌, Option, none, some, List, [], ◌∷◌, ◌++◌,
  map, length, ltb, leb, eqb, is_some, if◌then◌else◌,
}
use athanore.Prelude.Int.{ℤ, pos, neg_ℕ, ltb_ℤ}
use athanore.Prelude.Dict.{Dict, lookup}
use athanore.Graph.{
  Error, unframed_join, unknown_node, key, fuel, Result, ok, raised, ◌>>=◌, Node, Graph,
}
use athanore.Json.{Value, Values, null, integer, list, nil, cons, dict, entry, end, name, jsonable}
use athanore.Routing.{Transition, interpret, is_fan_out}
use athanore.Store.{
  RunStatus, completed, run_failed, is_running, done, failed, dead_letter, RunRow, BranchFrame,
  Reason, by_transition, by_retry, by_join, Lineage, TaskRow, ArrivalRow, FrameSummary, RunError,
  error_text, join_incomplete, EventData, task_enqueued, task_done, task_failed, task_dead_lettered,
  join_arrived, run_completed_event, run_failed_event, Event, Db,
}
use athanore.Store.Runs.{get_run, set_run_status, update_run}
use athanore.Store.Tasks.{enqueue, finish, set_status, has_pending, terminal_tasks}
use athanore.Store.Joins.{Arrival, IncompleteJoin, arrive, arrivals_at, incomplete}

abbrev pub dispatch_key : Node → ℤ × Bool
dispatch_key target = elim target.priority [
  | some priority ↦ (priority, true)
  | none ↦ (neg_ℕ target.generation, false)
]

abbrev pub is_null : Value → Bool
is_null null = true
is_null _ = false

abbrev pub emit : Db → String → Option ℕ → EventData → ℕ → Db
emit db run_id task_id data_of now = record db {
  events =
      db.events
      ++ record { run_id = run_id; task_id = task_id; data_of = data_of; created = now } ∷ [];
}

abbrev pub frame_summaries : List BranchFrame → List FrameSummary
frame_summaries =
    map λ frame. record { fanout = frame.fanout; index = frame.index; count = frame.count }

abbrev pub child_frames : TaskRow → Transition → ℕ → ℕ → Bool → List BranchFrame
child_frames task transition index count fanning_out =
    if fanning_out
    then task.branch
      ++ record {
        fanout = task.id;
        index = index;
        count = count;
        key = jsonable transition.payload;
      }
        ∷ []
    else task.branch

unfoldable pub enqueue_transition : Db → TaskRow → Node → Transition → List BranchFrame → ℕ → Db
unfolding enqueue
enqueue_transition db task target transition frames now =
    let (priority, explicit) = dispatch_key target in
    let (db', child) =
      enqueue db task.run_id target.name transition.payload priority explicit 1 now
        (some (record { from = some task.id; reason = by_transition; arrivals = none })) frames in
    emit db' task.run_id (some child.id)
      (task_enqueued target.name child.attempt by_transition (some task.id)
        (not (is_null transition.payload)) (frame_summaries frames) none)
      now

-- frames[:-1] and frames[-1]
abbrev pub split_last : List BranchFrame → Option (List BranchFrame × BranchFrame)
split_last [] = none
split_last (f ∷ fs) = elim (split_last fs) [
  | none ↦ some ([], f)
  | some (outer, top) ↦ some (f ∷ outer, top)
]

abbrev pub from_task_value : Option ℕ → Value
from_task_value none = null
from_task_value (some task_id) = integer (pos task_id)

abbrev pub arrival_entries : List ArrivalRow → Values
arrival_entries [] = nil
arrival_entries (a ∷ arrivals) =
    cons
      (dict (
        entry (name "index") (integer (pos a.index)) (
          entry (name "key") a.key (
            entry (name "value") a.value
              (entry (name "from_task") (from_task_value a.from_task) end)))))
      (arrival_entries arrivals)

abbrev pub arrivals_payload : List ArrivalRow → Value
arrivals_payload arrivals = list (arrival_entries arrivals)

abbrev pub arrival_senders : List ArrivalRow → List ℕ
arrival_senders [] = []
arrival_senders (a ∷ arrivals) = elim a.from_task [
  | some task_id ↦ task_id ∷ arrival_senders arrivals
  | none ↦ arrival_senders arrivals
]

-- The part of `_record_arrival` that dispatches the join.
unfoldable pub fire_join : Db → TaskRow → Node → BranchFrame → List BranchFrame → ℕ → Db
unfolding enqueue arrivals_at
fire_join db task target frame outer now =
    let rows = arrivals_at db task.run_id target.name frame.fanout in
    let senders = arrival_senders rows in
    let (priority, explicit) = dispatch_key target in
    let (db', child) =
      enqueue db task.run_id target.name (arrivals_payload rows) priority explicit 1 now
        (some (record { from = some frame.fanout; reason = by_join; arrivals = some senders }))
        outer in
    emit db' task.run_id (some child.id)
      (task_enqueued target.name child.attempt by_join (some frame.fanout) true
        (frame_summaries outer) (some senders))
      now

-- The part of `_record_arrival` that records the branch, which also says where the fan-out stands.
unfoldable pub note_arrival : Db → TaskRow → Node → Transition → BranchFrame → ℕ → Db × Arrival
unfolding arrive
note_arrival db task target transition frame now =
    let (db', arrival) =
      arrive db
        (record {
          run_id = task.run_id;
          join_node = target.name;
          fanout_task = frame.fanout;
          index = frame.index;
          key = frame.key;
          value = transition.payload;
          from_task = some task.id;
          late = false;
          created = now;
        })
        frame.count now in
    (
      emit db' task.run_id (some task.id)
          (join_arrived target.name frame.fanout frame.index arrival.count arrival.arrived
            arrival.late)
          now,
      arrival,
    )

abbrev pub is_short : Arrival → Bool
is_short arrival = if arrival.late then true else ltb arrival.arrived arrival.count

unfoldable pub record_arrival : Db → TaskRow → Node → Transition → List BranchFrame → ℕ → Result Db
record_arrival db task target transition frames now = elim (split_last frames) [
  | none ↦ raised (unframed_join task.node target.name)
  | some (outer, frame) ↦
      let (db', arrival) = note_arrival db task target transition frame now in
      if is_short arrival then ok db' else ok (fire_join db' task target frame outer now)
]

-- One pass of the loop of `_record_success`.
unfoldable pub send : Dict Node → Db → TaskRow → Transition → List BranchFrame → ℕ → Result Db
unfolding lookup
send nodes db task transition frames now = elim (lookup transition.target nodes) [
  | none ↦ raised (key transition.target)
  | some target ↦
      if target.join
      then record_arrival db task target transition frames now
      else ok (enqueue_transition db task target transition frames now)
]

unfoldable pub send_all : Dict Node → Db → TaskRow → List Transition → ℕ → ℕ → Bool → ℕ → Result Db
send_all nodes db task [] index count fanning_out now = ok db
send_all nodes db task (t ∷ ts) index count fanning_out now = do
  sent ← send nodes db task t (child_frames task t index count fanning_out) now
  send_all nodes sent task ts (index + 1) count fanning_out now

-- ===== src/Store/Runs.antt =====
-- athanore/store/repos/runs.py: `RunRepo` but for the order of the list.
use athanore.Prelude.{
  ℕ, String, Bool, true, false, not, Option, none, some, List, [], ◌∷◌, ◌++◌, filter, map, suc, ltb,
  ◌==◌, if◌then◌else◌,
}
use athanore.Prelude.Int.{ℤ, pos, ltb_ℤ, suc_ℤ}
use athanore.Json.{Value, null}
use athanore.Store.{RunStatus, queued, running, Dialect, sqlite, postgresql, RunRow, Db}

abbrev pub find_run : String → List RunRow → Option RunRow
find_run run_id [] = none
find_run run_id (r ∷ rs) = if r.id == run_id then some r else find_run run_id rs

unfoldable pub get_run : Db → String → Option RunRow
get_run db run_id = find_run run_id db.runs

abbrev pub write_run : String → (RunRow → RunRow) → List RunRow → List RunRow
write_run run_id f [] = []
write_run run_id f (r ∷ rs) = (if r.id == run_id then f r else r) ∷ write_run run_id f rs

abbrev pub or_kept : Option ℕ → Option ℕ → Option ℕ
or_kept none kept = kept
or_kept (some finished) kept = some finished

-- A `finished` of `None` leaves the column alone.
unfoldable pub set_run_status : Db → String → RunStatus → Option ℕ → ℕ → Db
set_run_status db run_id status finished now = record db {
  runs =
      write_run run_id
        (λ r. record r { status = status; updated = now; finished = or_kept finished r.finished })
        db.runs;
}

-- update(run_id, status=…, output=…, finished=…)
unfoldable pub update_run : Db → String → RunStatus → Value → ℕ → Db
update_run db run_id status output now = record db {
  runs =
      write_run run_id
        (λ r. record r { status = status; output = output; updated = now; finished = some now })
        db.runs;
}

abbrev pub max_position : ℤ → List RunRow → ℤ
max_position highest [] = highest
max_position highest (r ∷ rs) =
    max_position (if ltb_ℤ highest r.position then r.position else highest) rs

-- COALESCE(MAX(position), 0) + 1
abbrev pub next_position : List RunRow → ℤ
next_position [] = pos 1
next_position (r ∷ rs) = suc_ℤ (max_position r.position rs)

-- `new_id` is the ULID that is drawn.
unfoldable pub insert_run : Db → String → String → String → String → ℕ → Db × RunRow
insert_run db new_id workflow title description now =
    let row : RunRow = record {
      id = new_id;
      workflow = workflow;
      title = title;
      description = description;
      status = queued;
      output = null;
      position = next_position db.runs;
      created = now;
      updated = now;
      finished = none;
    } in
    (record db { runs = db.runs ++ row ∷ [] }, row)

abbrev pub or_text : Option String → String → String
or_text none text = text
or_text (some new) text = new

-- update(run_id, title=…, description=…), of the fields that are given
unfoldable pub edit_run : Db → String → Option String → Option String → ℕ → Db
edit_run db run_id title description now = record db {
  runs =
      write_run run_id
        (λ r. record r {
          title = or_text title r.title;
          description = or_text description r.description;
          updated = now;
        })
        db.runs;
}

-- update(run_id, status=running, finished=None)
unfoldable pub reopen_run : Db → String → ℕ → Db
reopen_run db run_id now = record db {
  runs =
      write_run run_id (λ r. record r { status = running; updated = now; finished = none }) db.runs;
}

-- One more than the highest id.
abbrev pub one_above : List ℕ → ℕ
one_above [] = 1
one_above (i ∷ ids) = let rest = one_above ids in if ltb i rest then rest else suc i

-- The id that a table gives after some of its rows are deleted. PostgreSQL draws it from a sequence;
-- SQLite, where these tables have no AUTOINCREMENT, takes the one after the highest that is left, so
-- that it gives the ids of deleted rows again.
abbrev pub next_id : Dialect → List ℕ → ℕ → ℕ
next_id postgresql ids next = next
next_id sqlite ids next = one_above ids

-- The cascades take the tasks, the log entries and the arrivals with the run; the events go by the
-- second statement.
unfoldable pub delete_run : Db → String → Db × Bool
delete_run db run_id = elim (find_run run_id db.runs) [
  | none ↦ (db, false)
  | some row ↦
      let tasks = filter (λ t. not (t.run_id == run_id)) db.tasks in
      let log = filter (λ e. not (e.run_id == run_id)) db.log in
      (
        record db {
          runs = filter (λ r. not (r.id == run_id)) db.runs;
          tasks = tasks;
          next_task = next_id db.dialect (map (λ t. t.id) tasks) db.next_task;
          next_log = next_id db.dialect (map (λ e. e.id) log) db.next_log;
          arrivals = filter (λ a. not (a.run_id == run_id)) db.arrivals;
          log = log;
          events = filter (λ e. not (e.run_id == run_id)) db.events;
        },
        true,
      )
]

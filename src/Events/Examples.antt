-- ===== src/Events/Examples.antt =====
-- A bus with a reader of `run.*` whose queue holds two events, and a reader of everything.
use athanore.Prelude.{
  ◌≡◌, refl, String, true, false, ◌||◌, none, some, List, [], ◌∷◌, ◌++◌, get_elem?, ℕ, ◌==◌,
  if◌then◌else◌,
}
use athanore.Events.{
  Globs, Event, Subscription, EventBus, new_bus, close, BusCall, subscribes, publishes, closes,
  gets, serve, publish, serve_all,
}
use athanore.Events.Registered.{count, close_twice}
use athanore.Events.Isolation.{serve_all-isolated}
use athanore.Events.Complete.{sent, taken, serve_all-taken}

abbrev segments : String → List String
segments name =
    if name == "run.*"
    then "run" ∷ "*" ∷ []
    else if name == "run.created"
    then "run" ∷ "created" ∷ []
    else if name == "task.started"
    then "task" ∷ "started" ∷ []
    else name ∷ []

abbrev globs : Globs
globs = record { split = segments; fnmatchcase = λ name pattern. pattern == "*" || pattern == name }

abbrev event : String → ℕ → Event
event name at = record {
  id = some at;
  run_id = some "run-1";
  task_id = none;
  name = name;
  data_of = "{}";
  created = at;
}

abbrev past : List BusCall
past = subscribes (some ("run.*" ∷ [])) 2 ∷ publishes (event "run.created" 1) ∷ []

abbrev calls : List BusCall
calls =
    publishes (event "task.started" 2)
    ∷ subscribes none 0
    ∷ publishes (event "run.created" 3)
    ∷ gets 0
    ∷ publishes (event "run.created" 4)
    ∷ closes 0
    ∷ publishes (event "run.created" 5)
    ∷ []

abbrev reader : Subscription
reader = record {
  patterns = some ("run.*" ∷ []);
  maxsize = 2;
  queue = event "run.created" 1 ∷ [];
  overflowed = false;
  closed = false;
}

abbrev reader_after : Subscription
reader_after = record {
  patterns = some ("run.*" ∷ []);
  maxsize = 2;
  queue = event "run.created" 3 ∷ event "run.created" 4 ∷ [];
  overflowed = false;
  closed = true;
}

serve_all-taken_example :
    taken globs 0 (serve_all globs new_bus past) calls ++ reader_after.queue
    ≡ reader.queue ++ sent globs 0 reader.patterns reader.closed calls
unfolding serve_all serve publish close
serve_all-taken_example = serve_all-taken globs past calls 0 reader reader_after refl refl refl

sent_here :
    sent globs 0 reader.patterns reader.closed calls
    ≡ event "run.created" 3 ∷ event "run.created" 4 ∷ []
sent_here = refl

-- A third event does not fit: the reader is told that it lost one.
overflow_here :
    get_elem?
      (serve_all globs new_bus (
        past ++ publishes (event "run.created" 2) ∷ publishes (event "run.created" 3) ∷ [])).objects
      0
    ≡ some (record reader {
      queue = event "run.created" 1 ∷ event "run.created" 2 ∷ [];
      overflowed = true;
    })
unfolding serve_all serve publish close
overflow_here = refl

abbrev others_too : List BusCall
others_too =
    publishes (event "task.started" 2)
    ∷ publishes (event "run.created" 3)
    ∷ gets 0
    ∷ publishes (event "run.created" 4)
    ∷ closes 0
    ∷ subscribes none 1
    ∷ publishes (event "run.created" 5)
    ∷ closes 1
    ∷ []

serve_all-isolated_example :
    get_elem? (serve_all globs (serve_all globs new_bus past) calls).objects 0
    ≡ get_elem? (serve_all globs (serve_all globs new_bus past) others_too).objects 0
unfolding serve_all serve publish close
serve_all-isolated_example = serve_all-isolated globs past calls others_too 0 reader refl refl

close_twice_example :
    let b = serve_all globs new_bus past in
    (after : EventBus) × (close b 0 ≡ some after)
    × (count 0 after.subscriptions ≡ 0)
    × (close after 0 ≡ some after)
close_twice_example = close_twice globs past 0

-- ===== src/Events.antt =====
-- athanore/events/bus.py: the event bus, with `matches` of athanore/events/names.py. The objects
-- that the bus and its readers share are keep_first in `objects`: a subscription is its index there. A
-- `maxsize` of 0 is a queue without a bound, as it is for `asyncio.Queue`.
pub mod Registered
pub mod Complete
pub mod Isolation
mod Examples
use athanore.Prelude.{
  ℕ, zero, suc, String, Bool, true, false, not, ◌&&◌, ◌||◌, Option, none, some, List, [], ◌∷◌, ◌++◌,
  length, get_elem?, eqb, leb, if◌then◌else◌,
}

-- What the globs take from Python: `str.split(".")` and `fnmatch.fnmatchcase(name, pattern)`.
pub record Globs : Type 0 where
  pub split : String → List String
  pub fnmatchcase : String → String → Bool

-- `data` is the JSON text that the store keeps, `created` a count of microseconds.
pub record Event : Type 0 where
  pub id : Option ℕ
  pub run_id : Option String
  pub task_id : Option ℕ
  pub name : String
  pub data_of : String
  pub created : ℕ

abbrev pub match_segments : Globs → List String → List String → Bool
match_segments g [] [] = true
match_segments g [] (name ∷ names) = false
match_segments g (pattern ∷ patterns) [] = false
match_segments g (pattern ∷ patterns) (name ∷ names) =
    g.fnmatchcase name pattern && match_segments g patterns names

abbrev pub matches : Globs → String → String → Bool
matches g pattern name = match_segments g (g.split pattern) (g.split name)

pub record Subscription : Type 0 where
  pub patterns : Option (List String)
  pub maxsize : ℕ
  pub queue : List Event
  pub overflowed : Bool
  pub closed : Bool

abbrev pub any_matches : Globs → List String → String → Bool
any_matches g [] name = false
any_matches g (pattern ∷ patterns) name = matches g pattern name || any_matches g patterns name

-- `Subscription.matches`.
abbrev pub selects : Globs → Option (List String) → String → Bool
selects g none name = true
selects g (some patterns) name = any_matches g patterns name

pub record EventBus : Type 0 where
  pub objects : List Subscription
  pub subscriptions : List ℕ

abbrev pub new_bus : EventBus
new_bus = record { objects = []; subscriptions = [] }

-- A write to the object at this index.
abbrev pub change_at : (Subscription → Subscription) → List Subscription → ℕ → List Subscription
change_at f [] i = []
change_at f (s ∷ objects) zero = f s ∷ objects
change_at f (s ∷ objects) (suc i) = s ∷ change_at f objects i

abbrev pub subscribe : EventBus → Option (List String) → ℕ → EventBus × ℕ
subscribe b patterns maxsize = (
  record {
    objects =
        b.objects
        ++ record {
          patterns = patterns;
          maxsize = maxsize;
          queue = [];
          overflowed = false;
          closed = false;
        }
          ∷ [];
    subscriptions = b.subscriptions ++ length b.objects ∷ [];
  },
  length b.objects,
)

-- `asyncio.Queue.full`.
abbrev pub is_full : Subscription → Bool
is_full s = not (eqb s.maxsize 0) && leb s.maxsize (length s.queue)

-- The body of the loop of `publish`.
abbrev pub offer : Globs → Event → Subscription → Subscription
offer g e s =
    if s.closed || not (selects g s.patterns e.name)
    then s
    else if is_full s
    then record s { overflowed = true }
    else record s { queue = s.queue ++ e ∷ [] }

abbrev pub publish_each : Globs → Event → List Subscription → List ℕ → List Subscription
publish_each g e objects [] = objects
publish_each g e objects (i ∷ rest) = publish_each g e (change_at (offer g e) objects i) rest

unfoldable pub publish : Globs → EventBus → Event → EventBus
publish g b e = record b { objects = publish_each g e b.objects b.subscriptions }

-- `list.remove`, or its `ValueError`.
abbrev pub keep_first : ℕ → Option (List ℕ) → Option (List ℕ)
keep_first i none = none
keep_first i (some rest) = some (i ∷ rest)

abbrev pub remove_from : ℕ → List ℕ → Option (List ℕ)
remove_from i [] = none
remove_from i (j ∷ js) =
    let rest = remove_from i js in if eqb j i then some js else keep_first j rest

abbrev pub is_open : Option Subscription → Bool
is_open none = false
is_open (some s) = not s.closed

abbrev pub mark_closed : Subscription → Subscription
mark_closed s = if s.closed then s else record s { closed = true }

abbrev pub detached : List Subscription → Option (List ℕ) → Option EventBus
detached objects none = none
detached objects (some rest) = some (record { objects = objects; subscriptions = rest })

-- `Subscription.close`, with `EventBus._detach`; `none` is the `ValueError` of a subscription that
-- the bus does not have.
unfoldable pub close : EventBus → ℕ → Option EventBus
close b i =
    if is_open (get_elem? b.objects i)
    then detached (change_at mark_closed b.objects i) (remove_from i b.subscriptions)
    else some b

abbrev pub front : List Event → Option Event
front [] = none
front (e ∷ queue) = some e

abbrev pub rest_of : List Event → List Event
rest_of [] = []
rest_of (e ∷ queue) = queue

abbrev pub front_of : Option Subscription → Option Event
front_of none = none
front_of (some s) = front s.queue

abbrev pub pop : Subscription → Subscription
pop s = record s { queue = rest_of s.queue }

-- A reader's `queue.get()`, with what it answers; `none` is a reader that goes on waiting.
abbrev pub get_next : EventBus → ℕ → EventBus × Option Event
get_next b i = (record b { objects = change_at pop b.objects i }, front_of (get_elem? b.objects i))

-- What subscribers and the store do with one bus.
pub data BusCall : Type 0 where
  subscribes : Option (List String) → ℕ → BusCall
  publishes : Event → BusCall
  closes : ℕ → BusCall
  gets : ℕ → BusCall

abbrev pub or_same : EventBus → Option EventBus → EventBus
or_same b none = b
or_same b (some after) = after

unfoldable pub serve : Globs → EventBus → BusCall → EventBus
unfolding publish close
serve g b (subscribes patterns maxsize) = (subscribe b patterns maxsize).0
serve g b (publishes e) = publish g b e
serve g b (closes i) = or_same b (close b i)
serve g b (gets i) = (get_next b i).0

unfoldable pub serve_all : Globs → EventBus → List BusCall → EventBus
unfolding serve
serve_all g b [] = b
serve_all g b (c ∷ cs) = serve_all g (serve g b c) cs

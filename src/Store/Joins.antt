-- ===== src/Store/Joins.antt =====
-- athanore/store/repos/joins.py: `JoinRepo`.
pub mod Arrivals
use Prim.Native.String.{compare}
use text.Mathlib.Text.{is_lt}
use athanore.Prelude.{
  ℕ, ◌+◌, String, Bool, false, ◌&&◌, ◌||◌, Option, none, some, List, [], ◌∷◌, filter, length, ltb,
  leb, eqb, ◌==◌, if◌then◌else◌,
}
use athanore.Store.{BranchFrame, is_join, Lineage, TaskRow, ArrivalRow, Db}

pub record Arrival : Type 0 where
  pub arrived : ℕ
  pub count : ℕ
  pub late : Bool

pub record IncompleteJoin : Type 0 where
  pub join_node : String
  pub fanout_task : ℕ
  pub arrived : ℕ
  pub count : ℕ

abbrev pub is_number : Option ℕ → ℕ → Bool
is_number none n = false
is_number (some m) n = eqb m n

abbrev pub is_dispatch : ℕ → Option Lineage → Bool
is_dispatch fanout_task none = false
is_dispatch fanout_task (some lineage) =
    is_join lineage.reason && is_number lineage.from fanout_task

-- The task is the join task of this fan-out at this join.
abbrev pub fires : String → String → ℕ → TaskRow → Bool
fires run_id join_node fanout_task t =
    t.run_id == run_id && t.node == join_node && is_dispatch fanout_task t.lineage

abbrev pub any_fires : String → String → ℕ → List TaskRow → Bool
any_fires run_id join_node fanout_task [] = false
any_fires run_id join_node fanout_task (t ∷ ts) =
    fires run_id join_node fanout_task t || any_fires run_id join_node fanout_task ts

unfoldable pub fired : Db → String → String → ℕ → Bool
fired db run_id join_node fanout_task = any_fires run_id join_node fanout_task db.tasks

-- The arrival is of this fan-out at this join.
abbrev pub is_of : String → String → ℕ → ArrivalRow → Bool
is_of run_id join_node fanout_task a =
    a.run_id == run_id && a.join_node == join_node && eqb a.fanout_task fanout_task

-- The columns of `KEY` agree.
abbrev pub same_key : ArrivalRow → ArrivalRow → Bool
same_key a b = is_of b.run_id b.join_node b.fanout_task a && eqb a.index b.index

-- INSERT … ON CONFLICT (run_id, join_node, fanout_task, index) DO UPDATE
abbrev pub upsert : ArrivalRow → List ArrivalRow → List ArrivalRow
upsert a [] = a ∷ []
upsert a (b ∷ bs) = if same_key b a then a ∷ bs else b ∷ upsert a bs

abbrev pub arrivals_of : Db → String → String → ℕ → List ArrivalRow
arrivals_of db run_id join_node fanout_task =
    filter (is_of run_id join_node fanout_task) db.arrivals

unfoldable pub arrived : Db → String → String → ℕ → ℕ
arrived db run_id join_node fanout_task = length (arrivals_of db run_id join_node fanout_task)

-- The arrival as the caller gives it, `late` and `created` decided here.
unfoldable pub arrive : Db → ArrivalRow → ℕ → ℕ → Db × Arrival
unfolding fired arrived
arrive db a count now =
    let late = fired db a.run_id a.join_node a.fanout_task in
    let db' : Db = record db {
      arrivals = upsert (record a { late = late; created = now }) db.arrivals;
    } in
    (
      db',
      record {
        arrived = arrived db' a.run_id a.join_node a.fanout_task;
        count = count;
        late = late;
      },
    )

abbrev pub by_index : ArrivalRow → List ArrivalRow → List ArrivalRow
by_index a [] = a ∷ []
by_index a (b ∷ bs) = if ltb b.index a.index then b ∷ by_index a bs else a ∷ b ∷ bs

abbrev pub in_index_order : List ArrivalRow → List ArrivalRow
in_index_order [] = []
in_index_order (a ∷ arrivals) = by_index a (in_index_order arrivals)

unfoldable pub arrivals_at : Db → String → String → ℕ → List ArrivalRow
arrivals_at db run_id join_node fanout_task =
    in_index_order (arrivals_of db run_id join_node fanout_task)

-- GROUP BY join_node, fanout_task ORDER BY the same
pub record Group : Type 0 where
  pub join_node : String
  pub fanout_task : ℕ
  pub arrived : ℕ

abbrev pub in_group : ArrivalRow → Group → Bool
in_group a g = a.join_node == g.join_node && eqb a.fanout_task g.fanout_task

abbrev pub before_group : ArrivalRow → Group → Bool
before_group a g =
    is_lt (compare a.join_node g.join_node)
    || a.join_node == g.join_node && ltb a.fanout_task g.fanout_task

abbrev pub count_in : ArrivalRow → List Group → List Group
count_in a [] = record { join_node = a.join_node; fanout_task = a.fanout_task; arrived = 1 } ∷ []
count_in a (g ∷ gs) =
    let rest = count_in a gs in
    if in_group a g
    then record g { arrived = g.arrived + 1 } ∷ gs
    else if before_group a g
    then record { join_node = a.join_node; fanout_task = a.fanout_task; arrived = 1 } ∷ g ∷ gs
    else g ∷ rest

abbrev pub groups : String → List ArrivalRow → List Group
groups run_id [] = []
groups run_id (a ∷ arrivals) =
    let rest = groups run_id arrivals in if a.run_id == run_id then count_in a rest else rest

-- widths[fanout] = count, of every frame in turn: the last one stays.
abbrev pub frame_width : ℕ → List BranchFrame → Option ℕ → Option ℕ
frame_width fanout [] width = width
frame_width fanout (frame ∷ frames) width =
    frame_width fanout frames (if eqb frame.fanout fanout then some frame.count else width)

-- _fanout_widths(run_id).get(fanout)
abbrev pub fanout_width : String → ℕ → List TaskRow → Option ℕ → Option ℕ
fanout_width run_id fanout [] width = width
fanout_width run_id fanout (t ∷ ts) width =
    fanout_width run_id fanout ts
      (if t.run_id == run_id then frame_width fanout t.branch width else width)

abbrev pub if_short : Group → Option ℕ → List IncompleteJoin → List IncompleteJoin
if_short g none rest = rest
if_short g (some count) rest =
    if leb count g.arrived
    then rest
    else record {
      join_node = g.join_node;
      fanout_task = g.fanout_task;
      arrived = g.arrived;
      count = count;
    }
      ∷ rest

abbrev pub short_of : String → List TaskRow → List Group → List IncompleteJoin
short_of run_id tasks [] = []
short_of run_id tasks (g ∷ gs) =
    if_short g (fanout_width run_id g.fanout_task tasks none) (short_of run_id tasks gs)

unfoldable pub incomplete : Db → String → List IncompleteJoin
incomplete db run_id = short_of run_id db.tasks (groups run_id db.arrivals)

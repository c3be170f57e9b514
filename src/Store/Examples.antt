-- ===== src/Store/Examples.antt =====
-- A fan-out of three, of which the third branch has arrived and the first arrives; and a task that a
-- crash left waiting.
use athanore.Prelude.{
  if◌then◌else◌, some, List, ℕ, ◌+◌, ◌≡◌, refl, String, true, false, none, some, [], ◌∷◌, map, take,
  length, member, eqb, arith,
}
use athanore.Store.Rows.{UniqueIds}
use athanore.Store.Runs.{get_run}
use athanore.Store.Claim.{claim_ready, dispatch_order}
use athanore.Store.Claim.Choice.{IsChoice}
use athanore.Store.Claim.Order.{taken, claimed_with, claim_ready-takes, claim_ready-first}
use athanore.Store.Positions.{swap_position, move_position, clamp, list_order}
use athanore.Store.Positions.Renumbered.{Placed, move_position-Placed}
use athanore.Json.{null, text}
use athanore.Prelude.Int.{ℤ, pos, negsuc}
use athanore.Store.{queued, ready, waiting, RunRow, ArrivalRow, TaskRow, Db, empty_db}
use athanore.Store.Sweep.{reset_for_recovery, Resets, reset_for_recovery_twice}
use athanore.Store.Joins.{arrive, arrived, fired, arrivals_at}
use athanore.Store.Joins.Arrivals.{UniqueKeys, Ascending, find_at, arrive-arrivals_at}

abbrev branch : ℕ → String → ArrivalRow
branch index value = record {
  run_id = "r1";
  join_node = "merge";
  fanout_task = 1;
  index = index;
  key = null;
  value = text value;
  from_task = some 2;
  late = false;
  created = 7;
}

abbrev one_in : Db
one_in = record empty_db { next_task = 4; arrivals = branch 2 "c" ∷ [] }

arrive-arrivals_at_example :
    let after = (arrive one_in (branch 0 "a") 3 9).0 in
    let rows = arrivals_at after "r1" "merge" 1 in
    UniqueKeys after.arrivals
    × Ascending 0 rows
    × ((i : ℕ)
        → find_at i rows ≡ (
            if eqb 0 i
            then some (record (branch 0 "a") { late = fired one_in "r1" "merge" 1; created = 9 })
            else find_at i (arrivals_at one_in "r1" "merge" 1)))
    × ((arrive one_in (branch 0 "a") 3 9).1.arrived ≡ length rows)
arrive-arrivals_at_example = arrive-arrivals_at one_in (branch 0 "a") 3 9 (refl, tt)

two_arrived : (arrive one_in (branch 0 "a") 3 9).1.arrived ≡ 2
unfolding arrive arrived fired
two_arrived = refl

abbrev parked : TaskRow
parked = record {
  id = 3;
  run_id = "r1";
  node = "review";
  attempt = 1;
  status = waiting;
  payload = null;
  result = null;
  error = none;
  priority = pos 0;
  explicit = false;
  token_hash = some "9f86d081";
  stats = none;
  lineage = none;
  terminal = false;
  branch = [];
  created = 5;
  started = some 6;
  finished = none;
}

abbrev crashed : Db
crashed = record one_in { tasks = parked ∷ [] }

reset_for_recovery_twice_example :
    let after = (reset_for_recovery crashed none (4 ∷ [])).0 in
    Resets crashed none (4 ∷ []) (reset_for_recovery crashed none (4 ∷ []))
    × (reset_for_recovery after none (4 ∷ []) ≡ (after, []))
reset_for_recovery_twice_example = reset_for_recovery_twice crashed none (4 ∷ [])

one_reset : (reset_for_recovery crashed none (4 ∷ [])).1 ≡ 3 ∷ []
unfolding reset_for_recovery
one_reset = refl

abbrev run_at : String → ℤ → RunRow
run_at id position = record {
  id = id;
  workflow = "pipeline";
  title = id;
  description = "";
  status = queued;
  output = null;
  position = position;
  created = 0;
  updated = 0;
  finished = none;
}

abbrev pub listed : Db
listed = record empty_db {
  runs = run_at "a" (pos 1) ∷ run_at "b" (pos 2) ∷ run_at "c" (pos 2) ∷ [];
  tasks =
      record parked { id = 1; run_id = "b"; status = ready }
      ∷ record parked { id = 2; run_id = "a"; status = ready }
      ∷ record parked { id = 3; run_id = "a"; status = ready; priority = pos 4; explicit = true }
      ∷ [];
  next_task = 4;
}

abbrev pub mint : ℕ → String
mint task_id = "token"

abbrev pub hash : String → String
hash token = token

pub listed_ids : UniqueIds listed.tasks
listed_ids = (
  ((λ e. ground (arith, e)), ((λ e. ground (arith, e)), tt)),
  (((λ e. ground (arith, e)), tt), (tt, tt)),
)

claim_ready-takes_example :
    map taken (claim_ready mint hash listed 2 ("pipeline" ∷ []) 9).1
    ≡ map (claimed_with mint hash 9) (take 2 (dispatch_order listed ("pipeline" ∷ [])))
claim_ready-takes_example = claim_ready-takes mint hash listed 2 ("pipeline" ∷ []) 9 listed_ids

claim_ready-first_example :
    (chosen : List TaskRow) × (map taken (claim_ready mint hash listed 2 ("pipeline" ∷ []) 9).1
      ≡ map (claimed_with mint hash 9) chosen)
    × IsChoice listed ("pipeline" ∷ []) 2 chosen
claim_ready-first_example = claim_ready-first mint hash listed 2 ("pipeline" ∷ []) 9 listed_ids

explicit_first : map (λ t. t.id) (dispatch_order listed ("pipeline" ∷ [])) ≡ 3 ∷ 2 ∷ 1 ∷ []
unfolding dispatch_order member
explicit_first = refl

move_position-Placed_example :
    let (after, answer) = move_position listed "c" (negsuc 4) in
    (answer ≡ some (pos (1 + clamp (negsuc 4) 2))) × Placed listed "c" (negsuc 4) 2 after
unfolding get_run member
move_position-Placed_example =
    move_position-Placed listed "c" (negsuc 4) (run_at "c" (pos 2)) 2 (refl, (refl, (refl, tt)))
      refl refl

two_swapped : list_order (swap_position listed "a" (pos 1)).0.runs ≡ "b" ∷ "a" ∷ "c" ∷ []
unfolding swap_position
two_swapped = refl

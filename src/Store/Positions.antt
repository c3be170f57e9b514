-- ===== src/Store/Positions.antt =====
-- athanore/store/repos/runs.py: the order of the run list, `swap_position`, `move_position` and
-- `compact_positions`.
pub mod Places
pub mod Renumbered
use Prim.Native.String.{compare}
use text.Mathlib.Text.{is_lt}
use athanore.Prelude.{
  ℕ, zero, suc, ◌+◌, String, Bool, false, not, ◌&&◌, ◌||◌, Option, none, some, List, [], ◌∷◌, map,
  filter, length, member, leb, ◌==◌, if◌then◌else◌,
}
use athanore.Prelude.Int.{ℤ, pos, negsuc, ltb_ℤ}
use athanore.Prelude.Sort.{sort_by}
use athanore.Store.{RunRow, Db}
use athanore.Store.Runs.{find_run, write_run}

-- a <= b, of two texts.
abbrev pub leb_text : String → String → Bool
leb_text a b = not (is_lt (compare b a))

-- ORDER BY position, id
abbrev pub leb_place : RunRow → RunRow → Bool
leb_place r s =
    ltb_ℤ r.position s.position || not (ltb_ℤ s.position r.position) && leb_text r.id s.id

abbrev pub is_above : RunRow → RunRow → Bool
is_above row r =
    ltb_ℤ r.position row.position
    || not (ltb_ℤ row.position r.position) && is_lt (compare r.id row.id)

abbrev pub first {ℓ} : {A : Type ℓ} → List A → Option A
first [] = none
first (x ∷ xs) = some x

abbrev pub neighbour_above : RunRow → List RunRow → Option RunRow
neighbour_above row runs = first (sort_by (λ r s. leb_place s r) (filter (is_above row) runs))

abbrev pub neighbour_below : RunRow → List RunRow → Option RunRow
neighbour_below row runs = first (sort_by leb_place (filter (λ r. is_above r row) runs))

abbrev pub is_up : ℤ → Bool
is_up direction = ltb_ℤ direction (pos 0)

abbrev pub put_position : String → ℤ → List RunRow → List RunRow
put_position run_id position runs = write_run run_id (λ r. record r { position = position }) runs

abbrev pub swap_with : RunRow → Option RunRow → Db → Db × ℤ
swap_with row none db = (db, row.position)
swap_with row (some neighbour) db = (
  record db {
    runs = put_position neighbour.id row.position (put_position row.id neighbour.position db.runs);
  },
  neighbour.position,
)

-- Of a `direction` that is -1 or 1, as the caller has checked.
unfoldable pub swap_position : Db → String → ℤ → Db × Option ℤ
swap_position db run_id direction = elim (find_run run_id db.runs) [
  | none ↦ (db, none)
  | some row ↦
      let above = neighbour_above row db.runs in
      let below = neighbour_below row db.runs in
      let (db', position) = swap_with row (if is_up direction then above else below) db in
      (db', some position)
]

abbrev pub list_order : List RunRow → List String
list_order runs = map (λ r. r.id) (sort_by leb_place runs)

-- ids.remove(run_id)
abbrev pub remove_id : String → List String → List String
remove_id run_id [] = []
remove_id run_id (i ∷ ids) = if i == run_id then ids else i ∷ remove_id run_id ids

-- ids.insert(target, run_id)
abbrev pub insert_at : ℕ → String → List String → List String
insert_at zero run_id ids = run_id ∷ ids
insert_at (suc n) run_id [] = run_id ∷ []
insert_at (suc n) run_id (i ∷ ids) = i ∷ insert_at n run_id ids

-- max(0, min(index, n))
abbrev pub clamp : ℤ → ℕ → ℕ
clamp (negsuc m) n = 0
clamp (pos m) n = if leb m n then m else n

-- The place of each id, from 1.
abbrev pub place_from : ℕ → String → List String → Option ℕ
place_from n run_id [] = none
place_from n run_id (i ∷ ids) = if i == run_id then some n else place_from (suc n) run_id ids

abbrev pub put_place : Option ℕ → RunRow → RunRow
put_place none r = r
put_place (some place) r = record r { position = pos place }

-- The UPDATE of `_renumber`; a row that has its place already is written as it is.
abbrev pub renumber : List String → List RunRow → List RunRow
renumber ids = map λ r. put_place (place_from 1 r.id ids) r

abbrev pub has_moved : ℤ → Option ℕ → Bool
has_moved position none = false
has_moved position (some place) = ltb_ℤ position (pos place) || ltb_ℤ (pos place) position

-- How many rows `_renumber` changes.
abbrev pub count_moved : List String → List RunRow → ℕ
count_moved ids [] = 0
count_moved ids (r ∷ runs) =
    (if has_moved r.position (place_from 1 r.id ids) then 1 else 0) + count_moved ids runs

abbrev pub to_ℤ : Option ℕ → Option ℤ
to_ℤ none = none
to_ℤ (some n) = some (pos n)

abbrev pub moved_order : String → ℤ → List String → List String
moved_order run_id index ids =
    insert_at (clamp index (length (remove_id run_id ids))) run_id (remove_id run_id ids)

unfoldable pub move_position : Db → String → ℤ → Db × Option ℤ
unfolding member
move_position db run_id index =
    let ids = list_order db.runs in
    let moved = moved_order run_id index ids in
    if member run_id ids
    then (record db { runs = renumber moved db.runs }, to_ℤ (place_from 1 run_id moved))
    else (db, none)

unfoldable pub compact_positions : Db → Db × ℕ
compact_positions db =
    let ids = list_order db.runs in
    (record db { runs = renumber ids db.runs }, count_moved ids db.runs)

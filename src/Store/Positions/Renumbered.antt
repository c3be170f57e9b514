-- ===== src/Store/Positions/Renumbered.antt =====
-- What `RunRepo.move_position` of athanore/store/repos/runs.py makes of the positions.
use athanore.Prelude.{
  NoTwice, ℕ, zero, suc, ◌+◌, ◌≤◌, ◌≡◌, refl, sym, ◌∙◌, ap, inl, inr, String, true, false, ◌||◌,
  Option, none, some, List, [], ◌∷◌, map, length, member, ◌==◌, eq_iff, eq_refl, Bool-cases,
  Option-cases, arith,
}
use athanore.Prelude.Int.{ℤ, pos, negsuc, ltb_ℤ}
use athanore.Prelude.Sort.{insert_by, sort_by, length-sort_by}
use athanore.Store.{RunRow, Db}
use athanore.Store.Runs.{find_run, get_run}
use athanore.Store.Rows.{map_run}
use athanore.Store.Positions.{
  leb_place, list_order, remove_id, insert_at, clamp, place_from, put_place, renumber, to_ℤ,
  moved_order, move_position,
}
use athanore.Store.Positions.Places.{
  comes, comes-moved_order, place_from-comes, place_from-above, place_from-distinct,
  place_from-member, length-remove_id, moved_order-member, length-moved_order, member-insert_by,
  find_run-list_order,
}

put_place-id : (place : Option ℕ) (r : RunRow) → (put_place place r).id ≡ r.id
put_place-id none r = refl
put_place-id (some place) r = refl

find_run-renumber :
    (x : String) (ids : List String) (runs : List RunRow)
    → find_run x (renumber ids runs) ≡ map_run (put_place (place_from 1 x ids)) (find_run x runs)
find_run-renumber x ids [] = refl
find_run-renumber x ids (r ∷ runs) =
    let id = put_place-id (place_from 1 r.id ids) r in
    elim (Bool-cases (r.id == x)) [
      | inl e ↦
          let same = (eq_iff r.id x).0 e in
          rw (id, e) (ap (λ i. some (put_place (place_from 1 i ids) r)) same)
      | inr e ↦ rw (id, e) (find_run-renumber x ids runs)
    ]

remove_id-NoTwice :
    (r : String) (ids : List String) → NoTwice ids → member r (remove_id r ids) ≡ false
unfolding member
remove_id-NoTwice r [] u = refl
remove_id-NoTwice r (i ∷ ids) u = elim (Bool-cases (i == r)) [
  | inl e ↦ rw e (ap (λ x. member x ids) (sym ((eq_iff i r).0 e)) ∙ u.0)
  | inr e ↦ rw e (ground (arith, remove_id-NoTwice r ids u.1))
]

insert_by-NoTwice :
    (r : RunRow) (rs : List RunRow)
    → member r.id (map (λ v. v.id) rs) ≡ false
    → NoTwice (map (λ v. v.id) rs)
    → NoTwice (map (λ v. v.id) (insert_by leb_place r rs))
unfolding member
insert_by-NoTwice r [] new u = (refl, tt)
insert_by-NoTwice r (v ∷ rs) new u = elim (Bool-cases (leb_place r v)) [
  | inl e ↦ rw e (new, u)
  | inr e ↦
      let apart : (r.id == v.id) ≡ false = ground (arith, eq_iff r.id v.id, eq_iff v.id r.id) in
      rw e (member-insert_by v.id r rs ∙ rw apart u.0, insert_by-NoTwice r rs (ground arith) u.1)
]

member-sort_by :
    (x : String) (rs : List RunRow)
    → member x (map (λ v. v.id) (sort_by leb_place rs)) ≡ member x (map (λ v. v.id) rs)
unfolding member
member-sort_by x [] = refl
member-sort_by x (r ∷ rs) =
    member-insert_by x r (sort_by leb_place rs) ∙ ap (λ b. r.id == x || b) (member-sort_by x rs)

list_order-NoTwice : (rs : List RunRow) → NoTwice (map (λ v. v.id) rs) → NoTwice (list_order rs)
list_order-NoTwice [] u = tt
list_order-NoTwice (r ∷ rs) u =
    insert_by-NoTwice r (sort_by leb_place rs) (member-sort_by r.id rs ∙ u.0)
      (list_order-NoTwice rs u.1)

place_from-insert_at :
    (n c : ℕ) (r : String) (ids : List String)
    → member r ids ≡ false
    → c ≤ length ids
    → place_from n r (insert_at c r ids) ≡ some (n + c)
unfolding member
place_from-insert_at n zero r [] new low = ground (arith, eq_refl r)
place_from-insert_at n zero r (i ∷ ids) new low = ground (arith, eq_refl r)
place_from-insert_at n (suc c) r [] new low = ground arith
place_from-insert_at n (suc c) r (i ∷ ids) new low =
    ground (arith, place_from-insert_at (suc n) c r ids)

clamp-below : (index : ℤ) (n : ℕ) → clamp index n ≤ n
clamp-below (negsuc m) n = omega arith
clamp-below (pos m) n = ground arith

length-list_order : (runs : List RunRow) → length (list_order runs) ≡ length runs
length-list_order runs = length-map (sort_by leb_place runs) ∙ length-sort_by leb_place runs
  where
    length-map : (rs : List RunRow) → length (map (λ r. r.id) rs) ≡ length rs
    length-map [] = refl
    length-map (r ∷ rs) = ap suc (length-map rs)

pos_injective : (l k : ℕ) → pos l ≡ pos k → l ≡ k
pos_injective l k h = cc

-- The state of the list after a move to `index`.
abbrev pub Placed : Db → String → ℤ → ℕ → Db → Type 0
Placed db run_id index n after =
    ((run : RunRow) × (get_run after run_id ≡ some run) × (run.position ≡ pos (1 + clamp index n)))
    × ((x y : String) (run other : RunRow)
        → (run_id == x) ≡ false
        → (run_id == y) ≡ false
        → (x == y) ≡ false
        → comes x y (list_order db.runs) ≡ true
        → get_run after x ≡ some run
        → get_run after y ≡ some other
        → ltb_ℤ run.position other.position ≡ true)
    × ((x : String) (run : RunRow)
        → get_run after x ≡ some run
        → (k : ℕ) × (run.position ≡ pos k) × (1 ≤ k) × (k ≤ length db.runs))
    × ((x y : String) (run other : RunRow)
        → get_run after x ≡ some run
        → get_run after y ≡ some other
        → run.position ≡ other.position
        → x ≡ y)

placed_at :
    (x : String) (ids : List String) (runs : List RunRow) (run : RunRow)
    → ((v : String) → member v (list_order runs) ≡ true → member v ids ≡ true)
    → find_run x (renumber ids runs) ≡ some run
    → (k : ℕ) × (place_from 1 x ids ≡ some k) × (run.position ≡ pos k)
placed_at x ids runs run all h =
    let read = sym (find_run-renumber x ids runs) ∙ h in
    elim (Option-cases (find_run x runs)) [
      | inl e ↦ let bad = rw e at read in cc
      | inr (old, e) ↦
          let (k, found) = place_from-member 1 x ids (all x (find_run-list_order x runs old e)) in
          let here : map_run (put_place (some k)) (some old) ≡ some run =
            sym (ap (λ p. map_run (put_place p) (some old)) found)
            ∙ sym (ap (map_run (put_place (place_from 1 x ids))) e)
            ∙ read in
          (k, found, cc)
    ]

moved_run :
    (x : String) (ids : List String) (runs : List RunRow) (old : RunRow) (k : ℕ)
    → find_run x runs ≡ some old
    → place_from 1 x ids ≡ some k
    → (run : RunRow) × (find_run x (renumber ids runs) ≡ some run) × (run.position ≡ pos k)
moved_run x ids runs old k here place = (
  put_place (some k) old,
  find_run-renumber x ids runs
      ∙ ap (map_run (put_place (place_from 1 x ids))) here
      ∙ ap (λ p. some (put_place p old)) place,
  refl,
)

-- Where the ids of the runs are distinct and the run is there, `move_position` writes the place of
-- `index`, counted from 1 and clamped to the list, as the position of the run, and answers it. The
-- other runs keep their order among them, and every run has a position from 1 to the number of runs,
-- no two the same.
pub move_position-Placed :
    (db : Db) (run_id : String) (index : ℤ) (run : RunRow) (n : ℕ)
    → NoTwice (map (λ r. r.id) db.runs)
    → get_run db run_id ≡ some run
    → length db.runs ≡ suc n
    → let (after, answer) = move_position db run_id index in
      (answer ≡ some (pos (1 + clamp index n))) × Placed db run_id index n after
unfolding move_position get_run
move_position-Placed db run_id index run n unique here count =
    let ids = list_order db.runs in
    let moved = moved_order run_id index ids in
    let there : member run_id ids ≡ true = find_run-list_order run_id db.runs run here in
    let size : length moved ≡ length db.runs =
      length-moved_order run_id index ids there ∙ length-list_order db.runs in
    let rest : length (remove_id run_id ids) ≡ n =
      let shorter = length-remove_id run_id ids there in
      let whole = length-list_order db.runs in omega arith in
    let all : (v : String) → member v ids ≡ true → member v moved ≡ true =
      λ v. moved_order-member run_id v index ids in
    let at =
      place_from-insert_at 1 (clamp index (length (remove_id run_id ids))) run_id
        (remove_id run_id ids) (remove_id-NoTwice run_id ids (list_order-NoTwice db.runs unique))
        (clamp-below index (length (remove_id run_id ids))) in
    let clamped = at ∙ ap (λ m. some (1 + clamp index m)) rest in
    rw (move_position, there)
      (
        ap to_ℤ clamped,
        (
          moved_run run_id moved db.runs run (1 + clamp index n) here clamped,
          λ x y r s other apart differ first h g.
              let (k, found, position) = placed_at x moved db.runs r all h in
              let (l, next, place) = placed_at y moved db.runs s all g in
              let below =
                place_from-comes 1 x y moved k l differ
                  (comes-moved_order run_id x y index ids other apart ∙ first) found next in
              rw (position, place) (ground arith),
          λ x r h.
              let (k, found, position) = placed_at x moved db.runs r all h in
              let (low, high) = place_from-above 1 x moved k found in
              (k, position, low, omega arith),
          λ x y r s h g same.
              let (k, found, position) = placed_at x moved db.runs r all h in
              let (l, other, place) = placed_at y moved db.runs s all g in
              let equal : l ≡ k = pos_injective l k (sym place ∙ sym same ∙ position) in
              place_from-distinct 1 x y moved k found (other ∙ ap some equal),
        ),
      )

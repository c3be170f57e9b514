-- ===== src/Store/Positions/Places.antt =====
-- Places in a list of ids, as `RunRepo.move_position` of athanore/store/repos/runs.py counts them.
use athanore.Prelude.{
  ℕ, zero, suc, ◌+◌, ◌≤◌, ◌<◌, ◌≡◌, refl, sym, ◌∙◌, ap, inl, inr, String, Bool, true, false,
  if◌then◌else◌, ◌||◌, some, List, [], ◌∷◌, map, length, member, ◌==◌, eq_iff, Bool-cases, arith,
}
use athanore.Prelude.Int.{ℤ}
use athanore.Prelude.Sort.{insert_by, sort_by}
use athanore.Store.{RunRow}
use athanore.Store.Runs.{find_run}
use athanore.Store.Positions.{leb_place, list_order, remove_id, insert_at, place_from, moved_order}

pub place_from-above :
    (n : ℕ) (x : String) (ids : List String) (k : ℕ)
    → place_from n x ids ≡ some k
    → (n ≤ k) × (k < n + length ids)
place_from-above n x [] k h = cc
place_from-above n x (i ∷ ids) k h = elim (Bool-cases (i == x)) [
  | inl e ↦
      let here = rw (place_from, e) at h in let same : n ≡ k = cc in (omega arith, omega arith)
  | inr e ↦
      let (above, below) = place_from-above (suc n) x ids k (rw (place_from, e) at h) in
      (omega arith, omega arith)
]

-- No two ids have one place.
pub place_from-distinct :
    (n : ℕ) (x y : String) (ids : List String) (k : ℕ)
    → place_from n x ids ≡ some k
    → place_from n y ids ≡ some k
    → x ≡ y
place_from-distinct n x y [] k h g = cc
place_from-distinct n x y (i ∷ ids) k h g = elim (Bool-cases (i == x)) [
  | inl e ↦ elim (Bool-cases (i == y)) [
    | inl f ↦ sym ((eq_iff i x).0 e) ∙ (eq_iff i y).0 f
    | inr f ↦
        let here = rw (place_from, e) at h in
        let same : n ≡ k = cc in
        let (above, below) = place_from-above (suc n) y ids k (rw (place_from, f) at g) in
        ground arith
  ]
  | inr e ↦ elim (Bool-cases (i == y)) [
    | inl f ↦
        let here = rw (place_from, f) at g in
        let same : n ≡ k = cc in
        let (above, below) = place_from-above (suc n) x ids k (rw (place_from, e) at h) in
        ground arith
    | inr f ↦
        place_from-distinct (suc n) x y ids k (rw (place_from, e) at h) (rw (place_from, f) at g)
  ]
]

pub place_from-member :
    (n : ℕ) (x : String) (ids : List String)
    → member x ids ≡ true
    → (k : ℕ) × (place_from n x ids ≡ some k)
unfolding member
place_from-member n x [] h = cc
place_from-member n x (i ∷ ids) h = elim (Bool-cases (i == x)) [
  | inl e ↦ (n, rw (place_from, e) refl)
  | inr e ↦
      let (k, found) = place_from-member (suc n) x ids (ground arith) in
      (k, rw (place_from, e) found)
]

pub member-insert_at :
    (c : ℕ) (r x : String) (ids : List String)
    → member x (insert_at c r ids) ≡ (r == x || member x ids)
unfolding member
member-insert_at zero r x ids = refl
member-insert_at (suc c) r x [] = refl
member-insert_at (suc c) r x (i ∷ ids) = ground (arith, member-insert_at c r x ids)

pub member-remove_id :
    (r x : String) (ids : List String)
    → (r == x) ≡ false
    → member x (remove_id r ids) ≡ member x ids
unfolding member
member-remove_id r x [] other = refl
member-remove_id r x (i ∷ ids) other =
    ground (arith, eq_iff i r, eq_iff i x, eq_iff r x, member-remove_id r x ids other)

pub length-insert_at :
    (c : ℕ) (r : String) (ids : List String) → length (insert_at c r ids) ≡ suc (length ids)
length-insert_at zero r ids = refl
length-insert_at (suc c) r [] = refl
length-insert_at (suc c) r (i ∷ ids) = ap suc (length-insert_at c r ids)

pub length-remove_id :
    (r : String) (ids : List String)
    → member r ids ≡ true
    → suc (length (remove_id r ids)) ≡ length ids
unfolding member
length-remove_id r [] h = cc
length-remove_id r (i ∷ ids) h = ground (arith, length-remove_id r ids)

pub moved_order-member :
    (r x : String) (index : ℤ) (ids : List String)
    → member x ids ≡ true
    → member x (moved_order r index ids) ≡ true
moved_order-member r x index ids h = elim (Bool-cases (r == x)) [
  | inl e ↦ member-insert_at _ r x (remove_id r ids) ∙ rw e refl
  | inr e ↦ member-insert_at _ r x (remove_id r ids) ∙ rw e (member-remove_id r x ids e ∙ h)
]

pub length-moved_order :
    (r : String) (index : ℤ) (ids : List String)
    → member r ids ≡ true
    → length (moved_order r index ids) ≡ length ids
length-moved_order r index ids h = length-insert_at _ r (remove_id r ids) ∙ length-remove_id r ids h

pub member-insert_by :
    (x : String) (r : RunRow) (rs : List RunRow)
    → member x (map (λ v. v.id) (insert_by leb_place r rs))
      ≡ (r.id == x || member x (map (λ v. v.id) rs))
unfolding member
member-insert_by x r [] = refl
member-insert_by x r (v ∷ rs) = elim (Bool-cases (leb_place r v)) [
  | inl e ↦ rw e refl
  | inr e ↦ rw e (ground (arith, member-insert_by x r rs))
]

-- Every run is in the list.
pub find_run-list_order :
    (x : String) (runs : List RunRow) (run : RunRow)
    → find_run x runs ≡ some run
    → member x (list_order runs) ≡ true
unfolding member
find_run-list_order x [] run h = cc
find_run-list_order x (r ∷ runs) run h =
    member-insert_by x r (sort_by leb_place runs) ∙ elim (Bool-cases (r.id == x)) [
      | inl e ↦ rw e refl
      | inr e ↦ rw e (find_run-list_order x runs run (rw e at h))
    ]

-- The one text comes before the other in the list.
abbrev pub comes : String → String → List String → Bool
comes x y [] = false
comes x y (i ∷ ids) =
    let rest = comes x y ids in if i == x then member y ids else if i == y then false else rest

comes-remove_id :
    (r x y : String) (ids : List String)
    → (r == x) ≡ false
    → (r == y) ≡ false
    → comes x y (remove_id r ids) ≡ comes x y ids
comes-remove_id r x y [] other apart = refl
comes-remove_id r x y (i ∷ ids) other apart = elim (Bool-cases (i == r)) [
  | inl e ↦
      let same = (eq_iff i r).0 e in
      let not_x : (i == x) ≡ false = ap (λ v. v == x) same ∙ other in
      let not_y : (i == y) ≡ false = ap (λ v. v == y) same ∙ apart in rw (e, not_x, not_y) refl
  | inr e ↦
      rw e (ground (arith, member-remove_id r y ids apart, comes-remove_id r x y ids other apart))
]

comes-insert_at :
    (c : ℕ) (r x y : String) (ids : List String)
    → (r == x) ≡ false
    → (r == y) ≡ false
    → comes x y (insert_at c r ids) ≡ comes x y ids
comes-insert_at zero r x y ids other apart = rw (other, apart) refl
comes-insert_at (suc c) r x y [] other apart = rw (other, apart) refl
comes-insert_at (suc c) r x y (i ∷ ids) other apart =
    ground (arith, member-insert_at c r y ids, comes-insert_at c r x y ids other apart)

pub comes-moved_order :
    (r x y : String) (index : ℤ) (ids : List String)
    → (r == x) ≡ false
    → (r == y) ≡ false
    → comes x y (moved_order r index ids) ≡ comes x y ids
comes-moved_order r x y index ids other apart =
    comes-insert_at _ r x y (remove_id r ids) other apart ∙ comes-remove_id r x y ids other apart

pub place_from-comes :
    (n : ℕ) (x y : String) (ids : List String) (k l : ℕ)
    → (x == y) ≡ false
    → comes x y ids ≡ true
    → place_from n x ids ≡ some k
    → place_from n y ids ≡ some l
    → k < l
place_from-comes n x y [] k l apart h f g = cc
place_from-comes n x y (i ∷ ids) k l apart h f g = elim (Bool-cases (i == x)) [
  | inl e ↦
      let not_y : (i == y) ≡ false = ap (λ v. v == y) ((eq_iff i x).0 e) ∙ apart in
      let here = rw (place_from, e) at f in
      let same : n ≡ k = cc in
      let (above, below) = place_from-above (suc n) y ids l (rw (place_from, not_y) at g) in
      omega arith
  | inr e ↦ elim (Bool-cases (i == y)) [
    | inl d ↦ let bad = rw (comes, e, d) at h in cc
    | inr d ↦
        place_from-comes (suc n) x y ids k l apart (rw (comes, e, d) at h) (rw (place_from, e) at f)
          (rw (place_from, d) at g)
  ]
]

-- ===== src/Store/Joins/Arrivals.antt =====
-- `JoinRepo.arrive` and `arrivals` of athanore/store/repos/joins.py.
use athanore.Prelude.{
  ℕ, suc, ◌≤◌, ◌≡◌, refl, sym, ap, ◌∙◌, inl, inr, String, Bool, true, false, ◌||◌, Option, none,
  some, if◌then◌else◌, List, [], ◌∷◌, filter, length, ltb, eqb, eq_iff, eq_refl, arith, Bool-cases,
}
use athanore.Store.{ArrivalRow, Db}
use athanore.Store.Joins.{
  is_of, same_key, upsert, fired, arrive, by_index, in_index_order, arrivals_at,
}

abbrev has_key : ArrivalRow → List ArrivalRow → Bool
has_key a [] = false
has_key a (b ∷ bs) = same_key b a || has_key a bs

-- The unique constraint of the table.
abbrev pub UniqueKeys : List ArrivalRow → Type 0
UniqueKeys [] = Unit
UniqueKeys (a ∷ arrivals) = (has_key a arrivals ≡ false) × UniqueKeys arrivals

abbrev pub has_index : ℕ → List ArrivalRow → Bool
has_index i [] = false
has_index i (a ∷ arrivals) = eqb a.index i || has_index i arrivals

-- Each index is above the last one, and all are at least `lo`.
abbrev pub Ascending : ℕ → List ArrivalRow → Type 0
Ascending lo [] = Unit
Ascending lo (a ∷ arrivals) = (lo ≤ a.index) × Ascending (suc a.index) arrivals

record SameKey (a b : ArrivalRow) : Type 0 where
  run_id : a.run_id ≡ b.run_id
  join_node : a.join_node ≡ b.join_node
  fanout_task : a.fanout_task ≡ b.fanout_task
  index : a.index ≡ b.index

SameKey-of_same_key : (a b : ArrivalRow) → same_key a b ≡ true → SameKey a b
SameKey-of_same_key a b h = record {
  run_id = ground (arith, eq_iff a.run_id b.run_id);
  join_node = ground (arith, eq_iff a.join_node b.join_node);
  fanout_task = ground arith;
  index = ground arith;
}

same_key_cong : (a b c : ArrivalRow) → same_key a b ≡ true → same_key a c ≡ same_key b c
same_key_cong a b c h =
    let k = SameKey-of_same_key a b h in rw (k.run_id, k.join_node, k.fanout_task, k.index) refl

same_key_sym : (a b : ArrivalRow) → same_key a b ≡ same_key b a
same_key_sym a b = ground (
  arith,
  eq_iff a.run_id b.run_id,
  eq_iff b.run_id a.run_id,
  eq_iff a.join_node b.join_node,
  eq_iff b.join_node a.join_node,
)

has_key-upsert :
    (a b : ArrivalRow) (bs : List ArrivalRow)
    → has_key b (upsert a bs) ≡ (same_key a b || has_key b bs)
has_key-upsert a b [] = refl
has_key-upsert a b (c ∷ bs) = elim (Bool-cases (same_key c a)) [
  | inl e ↦ rw e (ground (arith, same_key_cong c a b e))
  | inr e ↦ rw e (ground (arith, has_key-upsert a b bs))
]

has_key_cong :
    (a b : ArrivalRow) (bs : List ArrivalRow) → same_key a b ≡ true → has_key a bs ≡ has_key b bs
has_key_cong a b [] h = refl
has_key_cong a b (c ∷ bs) h =
    ground (arith, same_key_sym c a, same_key_sym c b, same_key_cong a b c h, has_key_cong a b bs h)

upsert-UniqueKeys :
    (a : ArrivalRow) (bs : List ArrivalRow) → UniqueKeys bs → UniqueKeys (upsert a bs)
upsert-UniqueKeys a [] u = (refl, tt)
upsert-UniqueKeys a (b ∷ bs) u = elim (Bool-cases (same_key b a)) [
  | inl e ↦ rw e (ground (arith, has_key_cong b a bs e), u.1)
  | inr e ↦
      rw e (ground (arith, has_key-upsert a b bs, same_key_sym a b), upsert-UniqueKeys a bs u.1)
]

length-by_index : (a : ArrivalRow) (bs : List ArrivalRow) → length (by_index a bs) ≡ suc (length bs)
length-by_index a [] = refl
length-by_index a (b ∷ bs) = ground (arith, length-by_index a bs)

length-in_index_order : (bs : List ArrivalRow) → length (in_index_order bs) ≡ length bs
length-in_index_order [] = refl
length-in_index_order (b ∷ bs) =
    length-by_index b (in_index_order bs) ∙ ground (arith, length-in_index_order bs)

has_index-by_index :
    (i : ℕ) (a : ArrivalRow) (bs : List ArrivalRow)
    → has_index i (by_index a bs) ≡ (eqb a.index i || has_index i bs)
has_index-by_index i a [] = refl
has_index-by_index i a (b ∷ bs) = ground (arith, has_index-by_index i a bs)

has_index-in_index_order :
    (i : ℕ) (bs : List ArrivalRow) → has_index i (in_index_order bs) ≡ has_index i bs
has_index-in_index_order i [] = refl
has_index-in_index_order i (b ∷ bs) =
    ground (arith, has_index-by_index i b (in_index_order bs), has_index-in_index_order i bs)

by_index-Ascending :
    (lo : ℕ) (a : ArrivalRow) (bs : List ArrivalRow)
    → lo ≤ a.index
    → has_index a.index bs ≡ false
    → Ascending lo bs
    → Ascending lo (by_index a bs)
by_index-Ascending lo a [] h new asc = (h, tt)
by_index-Ascending lo a (b ∷ bs) h new asc = elim (Bool-cases (ltb b.index a.index)) [
  | inl e ↦ rw e (asc.0, by_index-Ascending (suc b.index) a bs (ground arith) (ground arith) asc.1)
  | inr e ↦ rw e (h, (ground arith, asc.1))
]

-- In a table with unique keys the arrivals of one fan-out at one join have different indices.
filter_new :
    (r j : String) (f : ℕ) (a : ArrivalRow) (bs : List ArrivalRow)
    → is_of r j f a ≡ true
    → has_key a bs ≡ false
    → has_index a.index (filter (is_of r j f) bs) ≡ false
filter_new r j f a [] m h = refl
filter_new r j f a (b ∷ bs) m h = elim (Bool-cases (is_of r j f b)) [
  | inr e ↦ rw e (filter_new r j f a bs m (ground arith))
  | inl e ↦ rw e (
      ground (
        arith,
        filter_new r j f a bs m,
        eq_iff a.run_id r,
        eq_iff b.run_id r,
        eq_iff a.join_node j,
        eq_iff b.join_node j,
        eq_iff b.run_id a.run_id,
        eq_iff b.join_node a.join_node,
      ))
]

in_index_order-Ascending :
    (r j : String) (f : ℕ) (bs : List ArrivalRow)
    → UniqueKeys bs
    → Ascending 0 (in_index_order (filter (is_of r j f) bs))
in_index_order-Ascending r j f [] u = tt
in_index_order-Ascending r j f (b ∷ bs) u = elim (Bool-cases (is_of r j f b)) [
  | inr e ↦ rw e (in_index_order-Ascending r j f bs u.1)
  | inl e ↦ rw e (
      by_index-Ascending 0 b (in_index_order (filter (is_of r j f) bs)) (omega arith)
        (has_index-in_index_order b.index (filter (is_of r j f) bs) ∙ filter_new r j f b bs e u.0)
        (in_index_order-Ascending r j f bs u.1))
]

same_key-is_of :
    (r j : String) (f : ℕ) (a b : ArrivalRow) → same_key b a ≡ true → is_of r j f b ≡ is_of r j f a
same_key-is_of r j f a b h =
    let k = SameKey-of_same_key b a h in rw (k.run_id, k.join_node, k.fanout_task) refl

-- The arrival of the branch of this index.
abbrev pub find_at : ℕ → List ArrivalRow → Option ArrivalRow
find_at i [] = none
find_at i (a ∷ arrivals) = if eqb a.index i then some a else find_at i arrivals

find_at-by_index :
    (i : ℕ) (a : ArrivalRow) (bs : List ArrivalRow)
    → has_index a.index bs ≡ false
    → find_at i (by_index a bs) ≡ (if eqb a.index i then some a else find_at i bs)
find_at-by_index i a [] new = refl
find_at-by_index i a (b ∷ bs) new = ground (arith, find_at-by_index i a bs)

find_at-in_index_order :
    (r j : String) (f i : ℕ) (bs : List ArrivalRow)
    → UniqueKeys bs
    → find_at i (in_index_order (filter (is_of r j f) bs)) ≡ find_at i (filter (is_of r j f) bs)
find_at-in_index_order r j f i [] u = refl
find_at-in_index_order r j f i (b ∷ bs) u =
    let rest = find_at-in_index_order r j f i bs u.1 in
    elim (Bool-cases (is_of r j f b)) [
      | inr e ↦ rw e rest
      | inl e ↦ rw e (
          find_at-by_index i b (in_index_order (filter (is_of r j f) bs)) (
            has_index-in_index_order b.index (filter (is_of r j f) bs)
            ∙ filter_new r j f b bs e u.0)
          ∙ ap (λ o. if eqb b.index i then some b else o) rest)
    ]

other_index :
    (r j : String) (f : ℕ) (a b : ArrivalRow)
    → is_of r j f a ≡ true
    → is_of r j f b ≡ true
    → same_key b a ≡ false
    → eqb b.index a.index ≡ false
other_index r j f a b m g other = ground (
  arith,
  eq_iff a.run_id r,
  eq_iff b.run_id r,
  eq_iff a.join_node j,
  eq_iff b.join_node j,
  eq_iff b.run_id a.run_id,
  eq_iff b.join_node a.join_node,
)

find_at-upsert :
    (r j : String) (f i : ℕ) (a : ArrivalRow) (bs : List ArrivalRow)
    → is_of r j f a ≡ true
    → find_at i (filter (is_of r j f) (upsert a bs))
      ≡ (if eqb a.index i then some a else find_at i (filter (is_of r j f) bs))
find_at-upsert r j f i a [] m = rw m refl
find_at-upsert r j f i a (b ∷ bs) m = elim (Bool-cases (same_key b a)) [
  | inl e ↦
      let k = SameKey-of_same_key b a e in
      rw e (rw (same_key-is_of r j f a b e) (rw m (ground (arith, k.index))))
  | inr e ↦ rw e (elim (Bool-cases (is_of r j f b)) [
    | inl g ↦ rw g (ground (arith, other_index r j f a b m g e, find_at-upsert r j f i a bs m))
    | inr g ↦ rw g (find_at-upsert r j f i a bs m)
  ])
]

-- In a table whose keys are unique, an arrival keeps them so. Afterwards the arrivals of its fan-out
-- at its join come back in the order of their indices, each index once. Under the index of the
-- arrival is the arrival, which replaces an earlier one of the same branch; under every other index
-- is what was there. The count that is answered is the number of those branches.
pub arrive-arrivals_at :
    (db : Db) (a : ArrivalRow) (count now : ℕ)
    → UniqueKeys db.arrivals
    → let after = (arrive db a count now).0 in
      let rows = arrivals_at after a.run_id a.join_node a.fanout_task in
      let late = fired db a.run_id a.join_node a.fanout_task in
      UniqueKeys after.arrivals
      × Ascending 0 rows
      × ((i : ℕ)
          → find_at i rows ≡ (
              if eqb a.index i
              then some (record a { late = late; created = now })
              else find_at i (arrivals_at db a.run_id a.join_node a.fanout_task)))
      × ((arrive db a count now).1.arrived ≡ length rows)
unfolding arrive arrivals_at
arrive-arrivals_at db a count now u =
    let row : ArrivalRow = record a {
      late = fired db a.run_id a.join_node a.fanout_task;
      created = now;
    } in
    let kept = upsert-UniqueKeys row db.arrivals u in
    let here : is_of a.run_id a.join_node a.fanout_task row ≡ true =
      ground (arith, eq_refl a.run_id, eq_refl a.join_node) in
    (
      kept,
      in_index_order-Ascending a.run_id a.join_node a.fanout_task _ kept,
      λ i.
          find_at-in_index_order a.run_id a.join_node a.fanout_task i _ kept
          ∙ find_at-upsert a.run_id a.join_node a.fanout_task i row db.arrivals here
          ∙ ap (λ o. if eqb a.index i then some row else o)
              (sym (find_at-in_index_order a.run_id a.join_node a.fanout_task i db.arrivals u)),
      sym (length-in_index_order _),
    )

-- ===== src/Store/Claim/Choice.antt =====
-- The dispatch order of `claim_statement` (athanore/store/repos/tasks.py), by its columns.
use mathlib.Core.List.Memᴰ
use athanore.Prelude.{
  ℕ, suc, ◌≤◌, ◌<◌, ◌≡◌, refl, ap, ◌⊎◌, inl, inr, String, Bool, true, false, List, [], ◌∷◌, filter,
  take, drop, length, All, ltb, mem-filter, Memᴰ, All-Memᴰ, All-of_Memᴰ, if◌then◌else◌, arith,
  Bool-cases,
}
use athanore.Prelude.Int.{ℤ, pos, negsuc, neg_ℕ, ltb_ℤ}
use athanore.Prelude.Sort.{
  sort_by, leb_lex, mem-sort_by, leb_lex_total, leb_lex_trans, sort_by-IsOrdered, All-take,
  take-drop-IsOrdered,
}
use athanore.Store.{TaskRow, Db}
use athanore.Store.Runs.{find_run}
use athanore.Store.Rows.{All-weaken}
use athanore.Store.Claim.{position_of, is_eligible, order_key, comes_before, dispatch_order}

length-take_below : (n : ℕ) (ts : List TaskRow) → length (take n ts) ≤ n
length-take_below ℕ.zero ts = omega arith
length-take_below (suc n) [] = omega arith
length-take_below (suc n) (t ∷ ts) = let rest = length-take_below n ts in ground arith

comes_before-total :
    (db : Db) (t u : TaskRow) → (comes_before db t u ≡ true) ⊎ (comes_before db u t ≡ true)
comes_before-total db t u = leb_lex_total (order_key db t) (order_key db u)

-- The first difference of two columns decides, and where there is none the rest does.
abbrev pub Above : ℤ → ℤ → Type 0 → Type 0
Above a b rest = (ltb_ℤ a b ≡ true) ⊎ ((a ≡ b) × rest)

abbrev pub Newer : TaskRow → TaskRow → Type 0
Newer t u = (u.created < t.created) ⊎ ((u.created ≡ t.created) × (u.id ≤ t.id))

-- The order of the claim, in the terms of the columns: the run that is higher in the list first;
-- then the tasks of an explicit priority; then the smaller priority; then the newer task; and of
-- two of one time the one of the higher id.
abbrev pub Precedes : Db → TaskRow → TaskRow → Type 0
Precedes db t u =
    Above (position_of (find_run t.run_id db.runs)) (position_of (find_run u.run_id db.runs)) (
      ((t.explicit ≡ true) × (u.explicit ≡ false))
      ⊎ ((t.explicit ≡ u.explicit) × Above t.priority u.priority (Newer t u)))

neither_below : (a b : ℤ) → ltb_ℤ a b ≡ false → ltb_ℤ b a ≡ false → a ≡ b
neither_below (pos m) (pos n) h k = ap pos (ground arith)
neither_below (pos m) (negsuc n) h k = ground arith
neither_below (negsuc m) (pos n) h k = ground arith
neither_below (negsuc m) (negsuc n) h k = ap negsuc (ground arith)

neg_ℕ-above : (m n : ℕ) → ltb_ℤ (neg_ℕ m) (neg_ℕ n) ≡ ltb n m
neg_ℕ-above ℕ.zero ℕ.zero = ground arith
neg_ℕ-above ℕ.zero (suc n) = ground arith
neg_ℕ-above (suc m) ℕ.zero = ground arith
neg_ℕ-above (suc m) (suc n) = ground arith

above_lex :
    (a b : ℤ) (xs ys : List ℤ) (Rest : Type 0)
    → leb_lex (a ∷ xs) (b ∷ ys) ≡ true
    → (leb_lex xs ys ≡ true → Rest)
    → Above a b Rest
above_lex a b xs ys Rest h rest = elim (Bool-cases (ltb_ℤ a b)) [
  | inl e ↦ inl e
  | inr e ↦ elim (Bool-cases (ltb_ℤ b a)) [
    | inl g ↦ ground arith
    | inr g ↦ inr (neither_below a b e g, rest (ground arith))
  ]
]

Newer-of_lex :
    (t u : TaskRow)
    → leb_lex (neg_ℕ t.created ∷ neg_ℕ t.id ∷ []) (neg_ℕ u.created ∷ neg_ℕ u.id ∷ []) ≡ true
    → Newer t u
Newer-of_lex t u h = ground (
  arith,
  h,
  neg_ℕ-above t.created u.created,
  neg_ℕ-above u.created t.created,
  neg_ℕ-above t.id u.id,
  neg_ℕ-above u.id t.id,
)

explicit_lex :
    (te ue : Bool) (p q : ℤ) (ts us : List ℤ) (Rest : Type 0)
    → leb_lex
        ((if te then pos 0 else pos 1) ∷ (if te then p else pos 0) ∷ (if te then pos 0 else p) ∷ ts)
        ((if ue then pos 0 else pos 1) ∷ (if ue then q else pos 0) ∷ (if ue then pos 0 else q) ∷ us)
      ≡ true
    → (leb_lex ts us ≡ true → Rest)
    → ((te ≡ true) × (ue ≡ false)) ⊎ ((te ≡ ue) × Above p q Rest)
explicit_lex true false p q ts us Rest h rest = inl (refl, refl)
explicit_lex false true p q ts us Rest h rest = cc
explicit_lex true true p q ts us Rest h rest =
    inr (refl, above_lex p q (pos 0 ∷ ts) (pos 0 ∷ us) Rest h rest)
explicit_lex false false p q ts us Rest h rest = inr (refl, above_lex p q ts us Rest h rest)

abbrev age_key : TaskRow → List ℤ
age_key t = neg_ℕ t.created ∷ neg_ℕ t.id ∷ []

abbrev group_key : TaskRow → List ℤ
group_key t =
    (if t.explicit then pos 0 else pos 1)
    ∷ (if t.explicit then t.priority else pos 0)
    ∷ (if t.explicit then pos 0 else t.priority)
    ∷ age_key t

comes_before-Precedes : (db : Db) (t u : TaskRow) → comes_before db t u ≡ true → Precedes db t u
comes_before-Precedes db t u h =
    above_lex (position_of (find_run t.run_id db.runs)) (position_of (find_run u.run_id db.runs))
      (group_key t) (group_key u) _ h
      λ same.
        explicit_lex t.explicit u.explicit t.priority u.priority (age_key t) (age_key u) _ same
          (Newer-of_lex t u)

mem-take :
    (n : ℕ) (u : TaskRow) (ts : List TaskRow)
    → Memᴰ u ts
    → Memᴰ u (take n ts) ⊎ (Memᴰ u (drop n ts) × (length (take n ts) ≡ n))
mem-take ℕ.zero u ts m = inr (m, refl)
mem-take (suc n) u [] m = absurd (Memᴰ.not-nil m)
mem-take (suc n) u (t ∷ ts) (Memᴰ.head e) = inl (Memᴰ.head e)
mem-take (suc n) u (t ∷ ts) (Memᴰ.tail m) = elim (mem-take n u ts m) [
  | inl taken ↦ inl (Memᴰ.tail taken)
  | inr (left, full) ↦ inr (left, ap suc full)
]

-- What a claim chooses: eligible tasks of the table, at most `limit` of them, and each other
-- eligible task comes after all of them and is left only where there are `limit`.
abbrev pub IsChoice : Db → List String → ℕ → List TaskRow → Type 0
IsChoice db workflows limit chosen =
    (length chosen ≤ limit)
    × All (λ t. Memᴰ t db.tasks × (is_eligible db workflows t ≡ true)) chosen
    × ((u : TaskRow)
        → Memᴰ u db.tasks
        → is_eligible db workflows u ≡ true
        → Memᴰ u chosen ⊎ (All (λ t. Precedes db t u) chosen × (length chosen ≡ limit)))

pub dispatch_order-IsChoice :
    (db : Db) (workflows : List String) (limit : ℕ)
    → IsChoice db workflows limit (take limit (dispatch_order db workflows))
unfolding dispatch_order
dispatch_order-IsChoice db workflows limit =
    let p = is_eligible db workflows in
    let before = comes_before db in
    let order = sort_by before (filter p db.tasks) in
    let ordered = take-drop-IsOrdered before limit order (
      sort_by-IsOrdered before (comes_before-total db)
        (λ s v w. leb_lex_trans (order_key db s) (order_key db v) (order_key db w))
        (filter p db.tasks)) in
    (
      length-take_below limit order,
      All-take _ limit order (
          All-of_Memᴰ _ order
            λ t m. (mem-filter p t db.tasks).0 ((mem-sort_by before t (filter p db.tasks)).0 m)),
      λ u m e.
          elim (mem-take limit u order
            ((mem-sort_by before u (filter p db.tasks)).1 ((mem-filter p u db.tasks).1 (m, e)))) [
              | inl taken ↦ inl taken
              | inr (left, full) ↦ inr (
                All-weaken (λ t. All (λ v. before t v ≡ true) (drop limit order))
                    (λ t. Precedes db t u) (take limit order)
                    (λ t after.
                      comes_before-Precedes db t u
                        (All-Memᴰ (λ v. before t v ≡ true) (drop limit order) after u left))
                    ordered,
                full,
              )
            ],
    )

-- ===== src/Scheduler/Reserve.antt =====
-- The slots that a turn of a pool (athanore/engine/scheduler.py) reserves, fills and gives back.
use athanore.Prelude.{
  ℕ, zero, suc, ◌+◌, ◌≤◌, ◌<◌, ◌≡◌, ◌≢◌, refl, sym, ◌∙◌, ap, subst, false, none, some, List, [],
  ◌∷◌, ◌++◌, length, length-append, get_elem?, get_elem?-concat, All, leb, arith,
}
use athanore.Pools.{Lease, PoolState, free}
use athanore.Pools.Conserve.{Inv, try_acquire-Inv, try_acquire_room}
use athanore.Scheduler.{reserve}

-- The leases at these indexes are out, and the indexes differ.
abbrev pub AreOut : List Lease → List ℕ → Type 0
AreOut leases [] = Unit
AreOut leases (i ∷ ids) =
    ((l : Lease) × (get_elem? leases i ≡ some l) × (l.released ≡ false))
    × All (λ j. j ≢ i) ids
    × AreOut leases ids

All-above : (i n : ℕ) (ids : List ℕ) → i < n → All (λ j. n ≤ j) ids → All (λ j. j ≢ i) ids
All-above i n [] low h = tt
All-above i n (j ∷ ids) low h = let here = h.0 in ((λ same. omega arith), All-above i n ids low h.1)

All-lower : (m n : ℕ) (ids : List ℕ) → m ≤ n → All (λ j. n ≤ j) ids → All (λ j. m ≤ j) ids
All-lower m n [] low h = tt
All-lower m n (j ∷ ids) low h = let here = h.0 in (omega arith, All-lower m n ids low h.1)

-- A reservation within the free slots: each slot has a lease, they are new, and the old leases are
-- as they were.
abbrev pub Reserved : ℕ → PoolState → PoolState × List ℕ → Type 0
Reserved n s (t, ids) =
    (length ids ≡ n)
    × (t.leased ≡ s.leased + n)
    × (t.pool ≡ s.pool)
    × Inv t
    × All (λ j. length s.leases ≤ j) ids
    × AreOut t.leases ids
    × ((i : ℕ) → i < length s.leases → get_elem? t.leases i ≡ get_elem? s.leases i)

-- The pool with one more lease.
abbrev one_more : PoolState → PoolState
one_more s = record s {
  leased = s.leased + 1;
  leases = s.leases ++ record { task_id = none; released = false } ∷ [];
}

reserve-suc :
    (n : ℕ) (s : PoolState)
    → leb (free s) 0 ≡ false
    → reserve (suc n) s ≡ ((reserve n (one_more s)).0, length s.leases ∷ (reserve n (one_more s)).1)
unfolding reserve
reserve-suc n s room = let got = try_acquire_room s none room in rw (reserve, got) (rw got refl)

one_more-Reserved :
    (n : ℕ) (s t : PoolState) (ids : List ℕ)
    → Reserved n (one_more s) (t, ids)
    → Reserved (suc n) s (t, length s.leases ∷ ids)
one_more-Reserved n s t ids (size, leased, pool, inv, above, out, old) =
    let longer = length-append s.leases (record { task_id = none; released = false } ∷ []) in
    let grown : length (one_more s).leases ≡ length s.leases + 1 = longer in
    let higher : All (λ j. length s.leases + 1 ≤ j) ids =
      subst (λ n. All (λ j. n ≤ j) ids) grown above in
    let mine =
      get_elem?-concat s.leases (record { task_id = none; released = false }) (length s.leases) in
    (
      ap suc size,
      omega arith,
      pool,
      inv,
      (omega arith, All-lower (length s.leases) (length s.leases + 1) ids (omega arith) higher),
      (
        (
          record { task_id = none; released = false },
          old (length s.leases) (omega arith) ∙ mine ∙ ground arith,
          refl,
        ),
        All-above (length s.leases) (length s.leases + 1) ids (omega arith) higher,
        out,
      ),
      λ i low.
          let before = get_elem?-concat s.leases (record { task_id = none; released = false }) i in
          old i (omega arith) ∙ before ∙ ground arith,
    )

pub reserve-Reserved : (n : ℕ) (s : PoolState) → n ≤ free s → Inv s → Reserved n s (reserve n s)
unfolding reserve
reserve-Reserved zero s room v = (refl, omega arith, refl, v, tt, tt, λ i low. refl)
reserve-Reserved (suc n) s room v =
    let full : leb (free s) 0 ≡ false = ground arith in
    let kept : Inv (one_more s) =
      subst Inv (ap (λ p. p.0) (try_acquire_room s none full)) (try_acquire-Inv s none v) in
    subst (Reserved (suc n) s) (sym (reserve-suc n s full))
      (one_more-Reserved n s _ _ (reserve-Reserved n (one_more s) (omega arith) kept))

-- ===== src/Pools/Conserve.antt =====
-- No history of calls on a pool (athanore/engine/pools.py) makes capacity up or loses it.
use athanore.Prelude.{
  ℕ, zero, suc, ◌+◌, ◌-◌, ◌≤◌, ◌<◌, ◌≡◌, refl, ◌⊎◌, inl, inr, true, false, Option, some, List, [],
  ◌∷◌, ◌++◌, length, get_elem?, set, get_elem?-set, leb, arith, eq_refl, if◌then◌else◌,
  Option-cases, Bool-cases,
}
use athanore.Pools.{
  Pool, Lease, delivered, is_done, Waiter, PoolState, new_pool_state, free, try_acquire, returns,
  release_lease, release, drain, Call, acquires, releases, requests, cancels, drains, after, step,
  run,
}

-- The leases that are not given back.
abbrev pub held : List Lease → ℕ
held [] = 0
held (l ∷ ls) = (if l.released then 0 else 1) + held ls

held-append : (xs : List Lease) (l : Lease) → held (xs ++ l ∷ []) ≡ held xs + held (l ∷ [])
held-append [] l = omega arith
held-append (x ∷ xs) l = omega (arith, held-append xs l)

pub held-set :
    (ls : List Lease) (i : ℕ) (l : Lease)
    → get_elem? ls i ≡ some l
    → l.released ≡ false
    → held (set ls i (record l { released = true })) + 1 ≡ held ls
held-set [] i l h r = cc
held-set (x ∷ ls) zero l h r = ground arith
held-set (x ∷ ls) (suc i) l h r = ground (arith, held-set ls i l)

-- The counter is the number of leases that are out, and it is within the capacity.
pub record Inv (s : PoolState) : Type 0 where
  pub counted : s.leased ≡ held s.leases
  pub bounded : s.leased ≤ s.pool.capacity

pub try_acquire-Inv : (s : PoolState) (task_id : Option ℕ) → Inv s → Inv (try_acquire s task_id).0
unfolding try_acquire
try_acquire-Inv s task_id v =
    ground (arith, held-append s.leases (record { task_id = task_id; released = false }))

pub release_lease-Inv : (s : PoolState) (i : ℕ) → Inv s → Inv (after s (release_lease s i))
unfolding release_lease
release_lease-Inv s i v = elim (Option-cases (get_elem? s.leases i)) [
  | inl e ↦ rw (e, release_lease) v
  | inr (l, e) ↦ rw (e, release_lease) (ground (arith, held-set s.leases i l))
]

-- The pool after the front waiter is served.
abbrev pub grant : PoolState → Waiter → PoolState
grant s w = record s {
  leased = s.leased + 1;
  leases = s.leases ++ record { task_id = some w.task_id; released = false } ∷ [];
  futures = set s.futures w.future (delivered (length s.leases));
}

pub try_acquire_room :
    (s : PoolState) (task_id : Option ℕ)
    → leb (free s) 0 ≡ false
    → try_acquire s task_id ≡ (
      record s {
        leased = s.leased + 1;
        leases = s.leases ++ record { task_id = task_id; released = false } ∷ [];
      },
      some (length s.leases),
    )
unfolding try_acquire
try_acquire_room s task_id room = rw room

-- One round of the loop of `drain_readmits`: the pool is full, or the waiter is dropped, or served.
pub drain_round :
    (s : PoolState) (w : Waiter) (ws : List Waiter) (handed : List ℕ)
    → ((free s ≡ 0) × (drain s (w ∷ ws) handed ≡ (record s { readmit = w ∷ ws }, handed)))
      ⊎ ((0 < free s)
          × (is_done (get_elem? s.futures w.future) ≡ true)
          × (drain s (w ∷ ws) handed ≡ drain s ws handed))
      ⊎ ((0 < free s)
          × (is_done (get_elem? s.futures w.future) ≡ false)
          × (drain s (w ∷ ws) handed ≡ drain (grant s w) ws (handed ++ length s.leases ∷ [])))
unfolding drain
drain_round s w ws handed = elim (Bool-cases (leb (free s) 0)) [
  | inl full ↦ inl (ground arith, rw (full, drain))
  | inr room ↦ elim (Bool-cases (is_done (get_elem? s.futures w.future))) [
    | inl done ↦ inr (inl (ground arith, done, rw (room, drain) (rw done)))
    | inr waits ↦ inr (
        inr (
          ground arith,
          waits,
          rw (room, drain)
              (rw waits
                (let grants = try_acquire_room s (some w.task_id) room in rw grants (rw grants))),
        ))
  ]
]

grant-Inv : (s : PoolState) (w : Waiter) → 0 < free s → Inv s → Inv (grant s w)
grant-Inv s w room v =
    ground (arith, held-append s.leases (record { task_id = some w.task_id; released = false }))

pub drain-Inv :
    (s : PoolState) (ws : List Waiter) (handed : List ℕ) → Inv s → Inv (drain s ws handed).0
drain-Inv s [] handed v = unfold drain in record { counted = v.counted; bounded = v.bounded }
drain-Inv s (w ∷ ws) handed v = elim (drain_round s w ws handed) [
  | inl (_, e) ↦ rw e (record { counted = v.counted; bounded = v.bounded })
  | inr (inl (_, _, e)) ↦ rw e (drain-Inv s ws handed v)
  | inr (inr (room, _, e)) ↦ rw e (drain-Inv (grant s w) ws _ (grant-Inv s w room v))
]

-- Every call keeps the counter equal to the leases that are out, and within the capacity.
step-Inv : (s : PoolState) (c : Call) → Inv s → Inv (step s c)
unfolding step
step-Inv s (acquires task_id) v = try_acquire-Inv s task_id v
step-Inv s (releases i) v = simp eq_refl (release_lease-Inv s i v)
step-Inv s (requests task_id now) v = record { counted = v.counted; bounded = v.bounded }
step-Inv s (cancels i) v = ground arith
step-Inv s drains v = drain-Inv s s.readmit [] v

run-Inv : (s : PoolState) (cs : List Call) → Inv s → Inv (run s cs)
unfolding run
run-Inv s [] v = v
run-Inv s (c ∷ cs) v = run-Inv (step s c) cs (step-Inv s c v)

-- After any history of calls on a fresh pool, the counter is the number of leases that are out,
-- and it is at most the capacity.
pub run-new_pool_state :
    (p : Pool) (cs : List Call)
    → let s = run (new_pool_state p) cs in (s.leased ≡ held s.leases) × (s.leased ≤ s.pool.capacity)
unfolding new_pool_state
run-new_pool_state p cs =
    let v = run-Inv (new_pool_state p) cs (record { counted = refl; bounded = omega arith }) in
    (v.counted, v.bounded)

-- In a pool whose counter is the number of its leases that are out, and within the capacity, a
-- release of one of its leases never raises `RuntimeError`, it gives back one slot if the lease is
-- out, and a second release of the lease changes nothing.
pub release_twice :
    (s : PoolState) (i : ℕ) (l : Lease)
    → Inv s
    → get_elem? s.leases i ≡ some l
    → (t : PoolState) × (release s s.pool.name i ≡ returns t)
      × (t.leased + (if l.released then 0 else 1) ≡ s.leased)
      × (release t t.pool.name i ≡ returns t)
unfolding release release_lease
release_twice s i l v e = elim (Bool-cases l.released) [
  | inl gone ↦
      (s, ground (arith, eq_refl s.pool.name), ground arith, ground (arith, eq_refl s.pool.name))
  | inr out ↦ (
    record s { leases = set s.leases i (record l { released = true }); leased = s.leased - 1 },
    ground (arith, eq_refl s.pool.name, held-set s.leases i l),
    ground (arith, held-set s.leases i l),
    ground (arith, eq_refl s.pool.name, get_elem?-set s.leases i i (record l { released = true })),
  )
]

-- ===== src/Scheduler/Dispatch.antt =====
-- One turn of a pool, `_dispatch_pool` of athanore/engine/scheduler.py.
use athanore.Prelude.{
  ℕ, zero, suc, ◌+◌, ◌≤◌, ◌≡◌, ◌≢◌, refl, sym, ◌∙◌, ap, inl, inr, String, Bool, true, false, Option,
  none, some, List, [], ◌∷◌, map, filter, take, drop, length, member, All, take-nil, leb,
  Bool-cases, arith, if◌then◌else◌,
}
use athanore.Prelude.Sort.{sort_by}
use athanore.Store.{RunRow, TaskRow, Db}
use athanore.Store.Runs.{find_run}
use athanore.Store.Rows.{UniqueIds}
use athanore.Store.Claim.{
  is_claimable_run, is_eligible, comes_before, ClaimedTask, claim_ready, dispatch_order, ids_of,
}
use athanore.Store.Claim.Order.{taken, claimed_with, claim_ready-takes, length-claim_ready}
use athanore.Pools.{PoolState, free, drain_readmits}
use athanore.Pools.Conserve.{Inv, drain-Inv}
use athanore.Scheduler.{
  Attempt, Turn, reserve, spawn_all, release_all, claim_turn, dispatch_pool, has_none,
}
use athanore.Scheduler.Reserve.{Reserved, reserve-Reserved}
use athanore.Scheduler.Slots.{Filled, spawn_all-Spawned, Released, release_all-Released}

ids_of-claimed_with :
    (mint : ℕ → String) (hash : String → String) (now : ℕ) (ts : List TaskRow)
    → map (λ p. p.0.id) (map (claimed_with mint hash now) ts) ≡ ids_of ts
ids_of-claimed_with mint hash now [] = refl
ids_of-claimed_with mint hash now (t ∷ ts) =
    ap (λ rest. t.id ∷ rest) (ids_of-claimed_with mint hash now ts)

ids_of-taken :
    (claimed : List ClaimedTask)
    → map (λ p. p.0.id) (map taken claimed) ≡ map (λ c. c.task.id) claimed
ids_of-taken [] = refl
ids_of-taken (c ∷ claimed) = ap (λ rest. c.task.id ∷ rest) (ids_of-taken claimed)

none_claimable : (run : Option RunRow) → is_claimable_run [] run ≡ false
unfolding member
none_claimable none = refl
none_claimable (some run) = ground arith

none_eligible : (db : Db) (ts : List TaskRow) → filter (is_eligible db []) ts ≡ []
none_eligible db [] = refl
none_eligible db (t ∷ ts) =
    let no : is_eligible db [] t ≡ false =
      ground (arith, none_claimable (find_run t.run_id db.runs)) in
    rw no (none_eligible db ts)

dispatch_order-none : (db : Db) → dispatch_order db [] ≡ []
unfolding dispatch_order
dispatch_order-none db = ap (sort_by (comes_before db)) (none_eligible db db.tasks)

-- The ids of the tasks that a turn spawns an attempt of.
abbrev pub due : Bool → ℕ → Db → List String → List ℕ
due true n db workflows = []
due false n db workflows = ids_of (take n (dispatch_order db workflows))

-- What a turn does from the pool `s`, after the queue of those who wait to come back.
abbrev pub Dispatched : Bool → PoolState → Db → List String → Turn → Type 0
Dispatched raises s db workflows turn =
    (map (λ a. a.task_id) turn.spawned ≡ due raises (free s) db workflows)
    × Filled turn.pool.leases turn.spawned
    × (turn.pool.leased ≡ s.leased + length turn.spawned)
    × Inv turn.pool

length-map_ids :
    (attempts : List Attempt) → length (map (λ a. a.task_id) attempts) ≡ length attempts
length-map_ids [] = refl
length-map_ids (a ∷ attempts) = ap suc (length-map_ids attempts)

length-map_claimed :
    (claimed : List ClaimedTask) → length (map (λ c. c.task.id) claimed) ≡ length claimed
length-map_claimed [] = refl
length-map_claimed (c ∷ claimed) = ap suc (length-map_claimed claimed)

length-drop_ids : (n : ℕ) (ids : List ℕ) → n ≤ length ids → length (drop n ids) + n ≡ length ids
length-drop_ids zero ids low = omega arith
length-drop_ids (suc n) [] low = ground arith
length-drop_ids (suc n) (i ∷ ids) low = ground (arith, length-drop_ids n ids)

Filled-same :
    (s t : PoolState) (left : List ℕ) (attempts : List Attempt)
    → All (λ a. All (λ j. j ≢ a.lease) left) attempts
    → Released s left t
    → Filled s.leases attempts
    → Filled t.leases attempts
Filled-same s t left [] apart released filled = tt
Filled-same s t left (a ∷ attempts) apart released filled =
    let (inv, leased, pool, old) = released in
    (old a.lease apart.0 ∙ filled.0, Filled-same s t left attempts apart.1 released filled.1)

claims-Dispatched :
    (mint : ℕ → String) (hash : String → String) (s t : PoolState) (leases : List ℕ) (db : Db)
    (workflows : List String) (now : ℕ)
    → UniqueIds db.tasks
    → Reserved (free s) s (t, leases)
    → Dispatched false s db workflows (claim_turn mint hash false (t, leases) db workflows now)
claims-Dispatched mint hash s t leases db workflows now unique
      (size, leased, pool, inv, above, out, old) =
    let claimed = (claim_ready mint hash db (length leases) workflows now).1 in
    let chosen = take (length leases) (dispatch_order db workflows) in
    let fits = (length-claim_ready mint hash db (length leases) workflows now unique) in
    let (inv', leased', pool', ids, filled, apart, left, others) =
      spawn_all-Spawned t claimed leases inv out fits in
    let spare = drop (length claimed) leases in
    let filled_pool = (spawn_all t claimed leases).0 in
    let attempts = (spawn_all t claimed leases).1 in
    let released = release_all-Released filled_pool spare inv' left in
    let (inv'', leased'', pool'', kept) = released in
    let spare_count = length-drop_ids (length claimed) leases fits in
    let spawned_count : length attempts ≡ length claimed =
      sym (length-map_ids attempts) ∙ ap length ids ∙ length-map_claimed claimed in
    (
      ids
          ∙ sym (ids_of-taken claimed)
          ∙ ap (map (λ p. p.0.id))
              (claim_ready-takes mint hash db (length leases) workflows now unique)
          ∙ ids_of-claimed_with mint hash now chosen
          ∙ ap (λ n. ids_of (take n (dispatch_order db workflows))) size,
      Filled-same filled_pool (release_all filled_pool spare) spare attempts apart released filled,
      omega arith,
      inv'',
    )

raises-Dispatched :
    (mint : ℕ → String) (hash : String → String) (s t : PoolState) (leases : List ℕ) (db : Db)
    (workflows : List String) (now : ℕ)
    → Reserved (free s) s (t, leases)
    → Dispatched true s db workflows (claim_turn mint hash true (t, leases) db workflows now)
raises-Dispatched mint hash s t leases db workflows now (size, leased, pool, inv, above, out, old) =
    let (inv', leased', pool', kept) = release_all-Released t leases inv out in
    (refl, tt, omega arith, inv')

idle-Dispatched :
    (raises : Bool) (s : PoolState) (db : Db) (workflows : List String)
    → Inv s
    → due raises (free s) db workflows ≡ []
    → Dispatched raises s db workflows (record { pool = s; db = db; spawned = [] })
idle-Dispatched raises s db workflows v none_due = (sym none_due, tt, omega arith, v)

due-full :
    (raises : Bool) (n : ℕ) (db : Db) (workflows : List String)
    → n ≡ 0
    → due raises n db workflows ≡ []
due-full true n db workflows h = refl
due-full false n db workflows h = ap (λ m. ids_of (take m (dispatch_order db workflows))) h

due-none : (raises : Bool) (n : ℕ) (db : Db) → due raises n db [] ≡ []
due-none true n db = refl
due-none false n db =
    ap (λ ts. ids_of (take n ts)) (dispatch_order-none db) ∙ ap ids_of (take-nil n)

turn-Dispatched :
    (mint : ℕ → String) (hash : String → String) (raises : Bool) (s : PoolState) (db : Db)
    (workflows : List String) (now : ℕ)
    → UniqueIds db.tasks
    → Inv s
    → Dispatched raises s db workflows
        (claim_turn mint hash raises (reserve (free s) s) db workflows now)
turn-Dispatched mint hash true s db workflows now unique v =
    raises-Dispatched mint hash s (reserve (free s) s).0 (reserve (free s) s).1 db workflows now
      (reserve-Reserved (free s) s (omega arith) v)
turn-Dispatched mint hash false s db workflows now unique v =
    claims-Dispatched mint hash s (reserve (free s) s).0 (reserve (free s) s).1 db workflows now
      unique (reserve-Reserved (free s) s (omega arith) v)

-- In a pool whose counter is the number of its leases that are out, over a store whose task ids are
-- distinct, a turn first drains the queue of those who wait to come back; then it spawns one attempt
-- of each of the first tasks of the dispatch order of the workflows, as many as there are free
-- slots, or none if the claim fails. Each attempt has a lease of its own that is out and names its
-- task, and every other slot that was reserved is given back.
pub dispatch_pool-Dispatched :
    (mint : ℕ → String) (hash : String → String) (raises : Bool) (pool : PoolState) (db : Db)
    (workflows : List String) (now : ℕ)
    → Inv pool
    → UniqueIds db.tasks
    → Dispatched raises
        (drain_readmits pool).0
        db
        workflows
        (dispatch_pool mint hash raises pool db workflows now)
unfolding dispatch_pool drain_readmits
dispatch_pool-Dispatched mint hash raises pool db workflows now v unique =
    turn (drain_readmits pool).0 workflows (drain-Inv pool pool.readmit [] v)
  where
    turn :
        (s : PoolState) (workflows : List String)
        → Inv s
        → Dispatched raises s db workflows (
            if leb (free s) 0
            then record { pool = s; db = db; spawned = [] }
            else if has_none workflows
            then record { pool = s; db = db; spawned = [] }
            else claim_turn mint hash raises (reserve (free s) s) db workflows now)
    turn s [] w = elim (Bool-cases (leb (free s) 0)) [
      | inl e ↦ rw e (idle-Dispatched raises s db [] w (due-none raises (free s) db))
      | inr e ↦ rw e (idle-Dispatched raises s db [] w (due-none raises (free s) db))
    ]
    turn s (x ∷ workflows) w = elim (Bool-cases (leb (free s) 0)) [
      | inl e ↦ rw e (
          idle-Dispatched raises s db (x ∷ workflows) w
            (due-full raises (free s) db (x ∷ workflows) (ground arith)))
      | inr e ↦ rw e (turn-Dispatched mint hash raises s db (x ∷ workflows) now unique w)
    ]

-- ===== src/Scheduler/Slots.antt =====
-- The slots that a turn of a pool (athanore/engine/scheduler.py) fills and those it gives back.
use athanore.Prelude.{
  ℕ, zero, suc, ◌+◌, ◌-◌, ◌≤◌, ◌≡◌, ◌≢◌, refl, sym, ◌∙◌, ap, subst, true, false, some, List, [],
  ◌∷◌, map, drop, length, get_elem?, set, get_elem?-set, All, leb, arith,
}
use athanore.Store.Claim.{ClaimedTask}
use athanore.Pools.{Lease, PoolState, release_lease, after}
use athanore.Pools.Conserve.{Inv, held, held-set, release_lease-Inv}
use athanore.Scheduler.{Attempt, spawn, spawn_all, release_all}
use athanore.Scheduler.Reserve.{AreOut}

AreOut-same :
    (before after : List Lease) (ids : List ℕ)
    → All (λ j. get_elem? after j ≡ get_elem? before j) ids
    → AreOut before ids
    → AreOut after ids
AreOut-same before after [] same out = tt
AreOut-same before after (i ∷ ids) same out =
    let (l, at, held_out) = out.0 in
    ((l, same.0 ∙ at, held_out), out.1, AreOut-same before after ids same.1 out.2)

All-other :
    (ls : List Lease) (i : ℕ) (v : Lease) (ids : List ℕ)
    → All (λ j. j ≢ i) ids
    → All (λ j. get_elem? (set ls i v) j ≡ get_elem? ls j) ids
All-other ls i v [] other = tt
All-other ls i v (j ∷ ids) other =
    let apart = other.0 in (ground (arith, get_elem?-set ls i j v), All-other ls i v ids other.1)

held-same :
    (ls : List Lease) (i : ℕ) (l v : Lease)
    → get_elem? ls i ≡ some l
    → v.released ≡ l.released
    → held (set ls i v) ≡ held ls
held-same [] i l v h same = cc
held-same (x ∷ ls) zero l v h same = ground arith
held-same (x ∷ ls) (suc i) l v h same = ground (arith, held-same ls i l v)

-- One lease of those that are out is given back.
abbrev given_back : PoolState → ℕ → Lease → PoolState
given_back s i l = record s {
  leases = set s.leases i (record l { released = true });
  leased = s.leased - 1;
}

release_lease_out :
    (s : PoolState) (i : ℕ) (l : Lease)
    → Inv s
    → get_elem? s.leases i ≡ some l
    → l.released ≡ false
    → (after s (release_lease s i) ≡ given_back s i l) × (1 ≤ s.leased)
unfolding release_lease
release_lease_out s i l v at out =
    let counted = held-set s.leases i l at out in
    let positive : 1 ≤ s.leased = let count = v.counted in omega arith in
    let room : leb s.leased 0 ≡ false = ground arith in
    (rw (at, release_lease) (rw out (rw room refl)), positive)

abbrev pub Released : PoolState → List ℕ → PoolState → Type 0
Released s ids t =
    Inv t
    × (t.leased + length ids ≡ s.leased)
    × (t.pool ≡ s.pool)
    × ((i : ℕ) → All (λ j. j ≢ i) ids → get_elem? t.leases i ≡ get_elem? s.leases i)

pub release_all-Released :
    (s : PoolState) (ids : List ℕ)
    → Inv s
    → AreOut s.leases ids
    → Released s ids (release_all s ids)
unfolding release_all
release_all-Released s [] v out = (v, omega arith, refl, λ i other. refl)
release_all-Released s (i ∷ ids) v out =
    let (l, at, held_out) = out.0 in
    let (read, positive) = release_lease_out s i l v at held_out in
    let mid = given_back s i l in
    let kept : Inv mid = subst Inv read (release_lease-Inv s i v) in
    let rest = release_all-Released mid ids kept (
      AreOut-same s.leases mid.leases ids
        (All-other s.leases i (record l { released = true }) ids out.1) out.2) in
    let (inv, leased, pool, old) = rest in
    let done : Released s (i ∷ ids) (release_all mid ids) = (
      inv,
      omega arith,
      pool,
      λ j other.
          let apart = other.0 in
          old j other.1 ∙ ground (arith, get_elem?-set s.leases i j (record l { released = true })),
    ) in
    subst (λ m. Released s (i ∷ ids) (release_all m ids)) (sym read) done

-- What the leases of the attempts say.
abbrev pub Filled : List Lease → List Attempt → Type 0
Filled leases attempts =
    All
      (λ a. get_elem? leases a.lease ≡ some (record { task_id = some a.task_id; released = false }))
      attempts

abbrev pub Spawned : PoolState → List ClaimedTask → List ℕ → PoolState × List Attempt → Type 0
Spawned s claimed leases (t, attempts) =
    Inv t
    × (t.leased ≡ s.leased)
    × (t.pool ≡ s.pool)
    × (map (λ a. a.task_id) attempts ≡ map (λ c. c.task.id) claimed)
    × Filled t.leases attempts
    × All (λ a. All (λ j. j ≢ a.lease) (drop (length claimed) leases)) attempts
    × AreOut t.leases (drop (length claimed) leases)
    × ((i : ℕ) → All (λ j. j ≢ i) leases → get_elem? t.leases i ≡ get_elem? s.leases i)

All-drop-ids : (P : ℕ → Type 0) (n : ℕ) (ids : List ℕ) → All P ids → All P (drop n ids)
All-drop-ids P zero ids h = h
All-drop-ids P (suc n) [] h = tt
All-drop-ids P (suc n) (i ∷ ids) h = All-drop-ids P n ids h.1

pub spawn_all-Spawned :
    (s : PoolState) (claimed : List ClaimedTask) (leases : List ℕ)
    → Inv s
    → AreOut s.leases leases
    → length claimed ≤ length leases
    → Spawned s claimed leases (spawn_all s claimed leases)
unfolding spawn_all spawn
spawn_all-Spawned s [] leases v out fits = (v, refl, refl, refl, tt, tt, out, λ i other. refl)
spawn_all-Spawned s (c ∷ claimed) [] v out fits = ground arith
spawn_all-Spawned s (c ∷ claimed) (i ∷ leases) v out fits =
    let (l, at, held_out) = out.0 in
    let named : Lease = record l { task_id = some c.task.id } in
    let mid : PoolState = record s { leases = set s.leases i named } in
    let read : (spawn s c i).0 ≡ mid = rw (spawn, at) refl in
    let kept : Inv mid = record {
      counted = v.counted ∙ sym (held-same s.leases i l named at refl);
      bounded = v.bounded;
    } in
    let rest =
      spawn_all-Spawned mid claimed leases kept
        (AreOut-same s.leases mid.leases leases (All-other s.leases i named leases out.1) out.2)
        (omega arith) in
    let (inv, leased, pool, ids, filled, apart, left, old) = rest in
    let mine : get_elem? mid.leases i
        ≡ some (record { task_id = some c.task.id; released = false }) =
      ground (arith, get_elem?-set s.leases i i named) in
    let finished : Spawned s (c ∷ claimed) (i ∷ leases)
        ((spawn_all mid claimed leases).0, (spawn s c i).1 ∷ (spawn_all mid claimed leases).1) =
      (
        inv,
        leased,
        pool,
        ap (λ rest. c.task.id ∷ rest) ids,
        (old i out.1 ∙ mine, filled),
        (All-drop-ids (λ j. j ≢ i) (length claimed) leases out.1, apart),
        left,
        λ j other.
            let differs = other.0 in
            old j other.1 ∙ ground (arith, get_elem?-set s.leases i j named),
      ) in
    subst
      (λ m.
        Spawned s (c ∷ claimed) (i ∷ leases)
          ((spawn_all m claimed leases).0, (spawn s c i).1 ∷ (spawn_all m claimed leases).1))
      (sym read) finished

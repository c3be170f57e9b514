-- ===== src/Pools/Drain.antt =====
-- `drain_readmits` of athanore/engine/pools.py serves the queue in its order.
use athanore.Prelude.{
  ℕ, suc, ◌+◌, ◌≤◌, ◌<◌, ◌≡◌, refl, sym, ◌∙◌, ◌⊎◌, inl, inr, false, not, some, List, [], ◌∷◌, ◌++◌,
  length, length-append, get_elem?, set, get_elem?-set, get_elem?-concat, lt-length_of_get_elem?,
  arith, filter, All, take, drop, take-nil, drop-nil,
}
use athanore.Pools.{
  Lease, Future, delivered, is_done, Waiter, PoolState, free, drain, drain_readmits,
}
use athanore.Pools.Conserve.{grant, drain_round}

-- The waiters of a queue that still wait.
abbrev pub live : List Future → List Waiter → List Waiter
live fs = filter (λ w. not (is_done (get_elem? fs w.future)))

-- The waiter's future holds a lease that is out, and is its own.
abbrev pub HasLease : PoolState → Waiter → Type 0
HasLease s w =
    (i : ℕ) × (get_elem? s.futures w.future ≡ some (delivered i))
    × (get_elem? s.leases i ≡ some (record { task_id = some w.task_id; released = false }))

-- Each waiter has a future of its own: their indices grow along the queue.
abbrev pub Distinct : ℕ → List Waiter → Type 0
Distinct lo [] = Unit
Distinct lo (w ∷ ws) = (lo ≤ w.future) × Distinct (suc w.future) ws

pub Distinct-weaken : (lo hi : ℕ) (ws : List Waiter) → lo ≤ hi → Distinct hi ws → Distinct lo ws
Distinct-weaken lo hi [] h d = tt
Distinct-weaken lo hi (w ∷ ws) h d = (omega arith, d.1)

live-set :
    (fs : List Future) (i : ℕ) (f : Future) (lo : ℕ) (ws : List Waiter)
    → i < lo
    → Distinct lo ws
    → live (set fs i f) ws ≡ live fs ws
live-set fs i f lo [] h d = refl
live-set fs i f lo (w ∷ ws) h d =
    ground (arith, live-set fs i f (suc w.future) ws, get_elem?-set fs i w.future f)

-- What a drain leaves alone: the futures below the queue's, and the leases that were there.
record Keeps (s t : PoolState) (lo : ℕ) : Type 0 where
  futures : (i : ℕ) → i < lo → get_elem? t.futures i ≡ get_elem? s.futures i
  leases : (i : ℕ) (l : Lease) → get_elem? s.leases i ≡ some l → get_elem? t.leases i ≡ some l

drain-Keeps :
    (s : PoolState) (lo : ℕ) (ws : List Waiter) (handed : List ℕ)
    → Distinct lo ws
    → Keeps s (drain s ws handed).0 lo
drain-Keeps s lo [] handed d = unfold drain in record { futures = λ i h. refl; leases = λ i l h. h }
drain-Keeps s lo (w ∷ ws) handed d = elim (drain_round s w ws handed) [
  | inl (_, e) ↦ rw e (record { futures = λ i h. refl; leases = λ i l h. h })
  | inr (inl (_, _, e)) ↦
      rw e (drain-Keeps s lo ws handed (Distinct-weaken lo (suc w.future) ws (omega arith) d.1))
  | inr (inr (_, _, e)) ↦
      let k = drain-Keeps (grant s w) (suc w.future) ws (handed ++ length s.leases ∷ []) d.1 in
      rw e (record {
        futures = λ i h.
            ground (
              arith,
              k.futures i,
              get_elem?-set s.futures w.future i (delivered (length s.leases)),
            );
        leases = λ i l h. k.leases i l (
            ground (
              arith,
              get_elem?-concat s.leases (record { task_id = some w.task_id; released = false }) i,
              lt-length_of_get_elem? s.leases i l,
            ));
      })
]

future_at :
    (s : PoolState) (w : Waiter)
    → is_done (get_elem? s.futures w.future) ≡ false
    → get_elem? (grant s w).futures w.future ≡ some (delivered (length s.leases))
future_at s w waits =
    ground (arith, get_elem?-set s.futures w.future w.future (delivered (length s.leases)))

get_elem?-last : (ls : List Lease) (l : Lease) → get_elem? (ls ++ l ∷ []) (length ls) ≡ some l
get_elem?-last ls l = ground (arith, get_elem?-concat ls l (length ls))

-- What a drain of the queue `ws` hands over, keeps waiting and spends.
record Serves (s : PoolState) (ws : List Waiter) (handed : List ℕ) (r : PoolState × List ℕ)
    : Type 0 where
  given : length r.1 ≡ length handed + length (take (free s) (live s.futures ws))
  spent : r.0.leased ≡ s.leased + length (take (free s) (live s.futures ws))
  served : All (HasLease r.0) (take (free s) (live s.futures ws))
  finished : (r.0.readmit ≡ []) ⊎ (free r.0 ≡ 0)
  waiting : live r.0.futures r.0.readmit ≡ drop (free s) (live s.futures ws)

drain-Serves :
    (s : PoolState) (lo : ℕ) (ws : List Waiter) (handed : List ℕ)
    → Distinct lo ws
    → Serves s ws handed (drain s ws handed)
drain-Serves s lo [] handed d =
    unfold drain in
    record {
      given = rw (take-nil (free s)) (omega arith);
      spent = rw (take-nil (free s)) (omega arith);
      served = rw (take-nil (free s)) tt;
      finished = inl refl;
      waiting = rw (drop-nil (free s)) refl;
    }
drain-Serves s lo (w ∷ ws) handed d = elim (drain_round s w ws handed) [
  | inl (full, e) ↦ rw e (record {
    given = rw full (omega arith);
    spent = rw full (omega arith);
    served = rw full tt;
    finished = inr full;
    waiting = rw full refl;
  })
  | inr (inl (room, done, e)) ↦
      let rest =
        drain-Serves s lo ws handed (Distinct-weaken lo (suc w.future) ws (omega arith) d.1) in
      rw e (record {
        given = rw done rest.given;
        spent = rw done rest.spent;
        served = rw done rest.served;
        finished = rest.finished;
        waiting = rw done rest.waiting;
      })
  | inr (inr (room, waits, e)) ↦
      let rest = drain-Serves (grant s w) (suc w.future) ws (handed ++ length s.leases ∷ []) d.1 in
      let k = drain-Keeps (grant s w) (suc w.future) ws (handed ++ length s.leases ∷ []) d.1 in
      let one_less : free s ≡ suc (free (grant s w)) = omega arith in
      let same : live s.futures ws ≡ live (grant s w).futures ws = sym (
        live-set s.futures w.future (delivered (length s.leases)) (suc w.future) ws (omega arith)
          d.1) in
      rw e (record {
        given =
            rw (waits, one_less, same)
              (omega (arith, rest.given, length-append handed (length s.leases ∷ [])));
        spent = rw (waits, one_less, same) (omega (arith, rest.spent));
        served =
            rw (waits, one_less, same)
              (
                (
                  length s.leases,
                  k.futures w.future (omega arith) ∙ future_at s w waits,
                  k.leases (length s.leases) _ (get_elem?-last s.leases _),
                ),
                rest.served,
              );
        finished = rest.finished;
        waiting = rw (waits, one_less, same) rest.waiting;
      })
]

-- In a pool whose waiters have a future each, `drain_readmits` hands a lease of its own to each of
-- the first waiters that still wait, oldest first, as many as there are free slots, and to no
-- other; each such lease takes one slot. The others keep their order, and any is left only when no
-- slot is.
pub drain_readmits-oldest_first :
    (s : PoolState)
    → Distinct 0 s.readmit
    → let queue = live s.futures s.readmit in
      let t = (drain_readmits s).0 in
      (length (drain_readmits s).1 ≡ length (take (free s) queue))
      × (t.leased ≡ s.leased + length (take (free s) queue))
      × All (HasLease t) (take (free s) queue)
      × (live t.futures t.readmit ≡ drop (free s) queue)
      × ((t.readmit ≡ []) ⊎ (free t ≡ 0))
unfolding drain_readmits
drain_readmits-oldest_first s d =
    let v = drain-Serves s 0 s.readmit [] d in
    (omega (arith, v.given), v.spent, v.served, v.waiting, v.finished)

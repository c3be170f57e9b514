-- ===== src/Pools/Queue.antt =====
-- The waiters of a pool (athanore/engine/pools.py) over any history of calls.
use athanore.Prelude.{
  ℕ, suc, ◌≤◌, ◌<◌, ◌≡◌, inl, inr, Option, List, [], ◌∷◌, ◌++◌, length, length-append, length-set,
  get_elem?, leb, arith, eq_refl, All, Bool-cases, Option-cases,
}
use athanore.Pools.{
  Pool, pending, cancelled, Waiter, PoolState, new_pool_state, is_done, free, try_acquire,
  release_lease, release, request_readmit, cancel_future, drain, drain_readmits, Call, acquires,
  releases, requests, cancels, drains, after, step, run,
}
use athanore.Pools.Conserve.{grant, drain_round}
use athanore.Pools.Drain.{Distinct, Distinct-weaken}

-- Each waiter has a future of its own, and the pool has it.
abbrev Queued : ℕ → List Waiter → Type 0
Queued hi ws = Distinct 0 ws × All (λ w. w.future < hi) ws

below_weaken :
    (n m : ℕ) (ws : List Waiter) → n ≤ m → All (λ w. w.future < n) ws → All (λ w. w.future < m) ws
below_weaken n m [] h b = tt
below_weaken n m (w ∷ ws) h b = (omega arith, below_weaken n m ws h b.1)

Distinct-append :
    (lo : ℕ) (ws : List Waiter) (w : Waiter)
    → lo ≤ w.future
    → All (λ v. v.future < w.future) ws
    → Distinct lo ws
    → Distinct lo (ws ++ w ∷ [])
Distinct-append lo [] w h b d = (h, tt)
Distinct-append lo (v ∷ ws) w h b d =
    (d.0, Distinct-append (suc v.future) ws w (omega arith) b.1 d.1)

below_append :
    (hi : ℕ) (ws : List Waiter) (w : Waiter)
    → w.future < hi
    → All (λ v. v.future < hi) ws
    → All (λ v. v.future < hi) (ws ++ w ∷ [])
below_append hi [] w h b = (h, tt)
below_append hi (v ∷ ws) w h b = (b.0, below_append hi ws w h b.1)

drain-Queued :
    (s : PoolState) (ws : List Waiter) (handed : List ℕ)
    → Queued (length s.futures) ws
    → let t = (drain s ws handed).0 in Queued (length t.futures) t.readmit
drain-Queued s [] handed q = unfold drain in (tt, tt)
drain-Queued s (w ∷ ws) handed (d, b) = elim (drain_round s w ws handed) [
  | inl (_, e) ↦ rw e (d, b)
  | inr (inl (_, _, e)) ↦
      rw e (drain-Queued s ws handed (Distinct-weaken 0 (suc w.future) ws (omega arith) d.1, b.1))
  | inr (inr (_, _, e)) ↦ rw e (
      drain-Queued (grant s w) ws _ (
        Distinct-weaken 0 (suc w.future) ws (omega arith) d.1,
        below_weaken (length s.futures) _ ws (omega (arith, length-set s.futures w.future)) b.1,
      ))
]

try_acquire-Queued :
    (s : PoolState) (task_id : Option ℕ)
    → Queued (length s.futures) s.readmit
    → let t = (try_acquire s task_id).0 in Queued (length t.futures) t.readmit
unfolding try_acquire
try_acquire-Queued s task_id q = elim (Bool-cases (leb (free s) 0)) [
  | inl e ↦ rw (try_acquire, e) q
  | inr e ↦ rw (try_acquire, e) q
]

cancel_future-Queued :
    (s : PoolState) (i : ℕ)
    → Queued (length s.futures) s.readmit
    → let t = cancel_future s i in Queued (length t.futures) t.readmit
unfolding cancel_future
cancel_future-Queued s i q = elim (Bool-cases (is_done (get_elem? s.futures i))) [
  | inl e ↦ rw (cancel_future, e) q
  | inr e ↦
      rw (cancel_future, e)
        (
          q.0,
          below_weaken (length s.futures) _ s.readmit
              (omega (arith, length-set s.futures i cancelled)) q.1,
        )
]

release_lease-Queued :
    (s : PoolState) (i : ℕ)
    → Queued (length s.futures) s.readmit
    → let t = after s (release_lease s i) in Queued (length t.futures) t.readmit
unfolding release_lease
release_lease-Queued s i q = elim (Option-cases (get_elem? s.leases i)) [
  | inl e ↦ rw (release_lease, e) q
  | inr (l, e) ↦ elim (Bool-cases l.released) [
    | inl r ↦ rw (release_lease, e) (rw r q)
    | inr r ↦ elim (Bool-cases (leb s.leased 0)) [
      | inl z ↦ rw (release_lease, e) (rw r (rw z q))
      | inr z ↦ rw (release_lease, e) (rw r (rw z q))
    ]
  ]
]

step-Queued :
    (s : PoolState) (c : Call)
    → Queued (length s.futures) s.readmit
    → let t = step s c in Queued (length t.futures) t.readmit
unfolding step try_acquire release release_lease request_readmit cancel_future drain_readmits
step-Queued s (acquires task_id) q = try_acquire-Queued s task_id q
step-Queued s (releases i) q = simp eq_refl (release_lease-Queued s i q)
step-Queued s (requests task_id now) q =
    let longer : suc (length s.futures) ≡ length (s.futures ++ pending ∷ []) =
      omega (arith, length-append s.futures (pending ∷ [])) in
    (
      Distinct-append 0 s.readmit _ (omega arith) q.1 q.0,
      below_append _ s.readmit _ (omega (arith, longer))
          (below_weaken (length s.futures) _ s.readmit (omega (arith, longer)) q.1),
    )
step-Queued s (cancels i) q = cancel_future-Queued s i q
step-Queued s drains q = drain-Queued s s.readmit [] q

run-Queued :
    (s : PoolState) (cs : List Call)
    → Queued (length s.futures) s.readmit
    → let t = run s cs in Queued (length t.futures) t.readmit
unfolding run
run-Queued s [] q = q
run-Queued s (c ∷ cs) q = run-Queued (step s c) cs (step-Queued s c q)

-- After any history of calls on a fresh pool, each waiter of the queue has a future of its own.
pub run-Distinct : (p : Pool) (cs : List Call) → Distinct 0 (run (new_pool_state p) cs).readmit
unfolding new_pool_state
run-Distinct p cs = (run-Queued (new_pool_state p) cs (tt, tt)).0

-- ===== src/Pools/Examples.antt =====
-- A pool of two slots with a queue of waiters, and a registry of two pools.
use athanore.Prelude.{
  ◌+◌, ◌≡◌, refl, ◌≤◌, ◌↔◌, ◌⊎◌, inr, String, true, false, some, List, [], ◌∷◌, length, take, drop,
  All, member, arith,
}
use athanore.Prelude.Int.{pos}
use athanore.Graph.Validate.{matches_name}
use athanore.Prelude.Dict.{lookup, insert, remove}
use athanore.Pools.{
  Pool, pending, cancelled, PoolState, new_pool_state, free, returns, release, try_acquire, drain,
  drain_readmits, acquires, releases, requests, cancels, drains, Call, run,
}
use athanore.Pools.Conserve.{held, run-new_pool_state, release_twice}
use athanore.Pools.Drain.{live, HasLease, drain_readmits-oldest_first}
use athanore.Pools.Registry.{
  new_registry, done, get, for_workflow, workflows_of, adds, binds, rebinds, unbinds, changes,
  Change,
}
use athanore.Pools.Registry.Bindings.{IsRegistry, changes-IsRegistry, workflows_of-for_workflow}
use athanore.Pools.Naming.{int, made, make_pool, line, make_pool_iff}

abbrev sandbox : Pool
sandbox = record { name = "sandbox"; capacity = 2 }

abbrev history : List Call
history =
    acquires (some 1)
    ∷ acquires (some 2)
    ∷ acquires (some 3)
    ∷ requests 4 10
    ∷ requests 5 11
    ∷ cancels 0
    ∷ releases 0
    ∷ releases 0
    ∷ drains
    ∷ []

run-new_pool_state_example :
    let s = run (new_pool_state sandbox) history in
    (s.leased ≡ held s.leases) × (s.leased ≤ s.pool.capacity)
run-new_pool_state_example = run-new_pool_state sandbox history

abbrev busy : PoolState
busy = record {
  pool = sandbox;
  leased = 1;
  readmit =
      record { task_id = 4; future = 0; enqueued_at = 10 }
      ∷ record { task_id = 5; future = 1; enqueued_at = 11 }
      ∷ record { task_id = 6; future = 2; enqueued_at = 12 }
      ∷ [];
  leases =
      record { task_id = some 1; released = true }
      ∷ record { task_id = some 2; released = false }
      ∷ [];
  futures = cancelled ∷ pending ∷ pending ∷ [];
}

release_twice_example :
    (t : PoolState) × (release busy "sandbox" 1 ≡ returns t)
    × (t.leased + 1 ≡ 1)
    × (release t t.pool.name 1 ≡ returns t)
release_twice_example =
    release_twice busy 1 (record { task_id = some 2; released = false })
      (record { counted = refl; bounded = omega arith }) refl

drain_readmits-oldest_first_example :
    let queue = live busy.futures busy.readmit in
    let t = (drain_readmits busy).0 in
    (length (drain_readmits busy).1 ≡ length (take (free busy) queue))
    × (t.leased ≡ busy.leased + length (take (free busy) queue))
    × All (HasLease t) (take (free busy) queue)
    × (live t.futures t.readmit ≡ drop (free busy) queue)
    × ((t.readmit ≡ []) ⊎ (free t ≡ 0))
drain_readmits-oldest_first_example =
    drain_readmits-oldest_first busy (omega arith, (omega arith, (omega arith, tt)))

handed_to_the_second : length (drain_readmits busy).1 ≡ 1
unfolding drain_readmits drain try_acquire
handed_to_the_second = refl

abbrev setup : List Change
setup =
    adds sandbox
    ∷ adds (record { name = "ci"; capacity = 0 })
    ∷ binds "deploy" "sandbox"
    ∷ binds "build" "ci"
    ∷ rebinds "build" "sandbox"
    ∷ unbinds "deploy"
    ∷ binds "ci" "sandbox"
    ∷ []

changes-IsRegistry_example : IsRegistry (changes new_registry setup)
changes-IsRegistry_example = changes-IsRegistry setup

workflows_of-for_workflow_example :
    let r = changes new_registry setup in
    (ws : List String) × (workflows_of r "sandbox" ≡ done ws)
    × ((member "build" ws ≡ true) ↔ (for_workflow r "build" ≡ done (new_pool_state sandbox)))
unfolding changes new_registry get lookup insert remove
workflows_of-for_workflow_example =
    workflows_of-for_workflow (changes new_registry setup) "sandbox" "build"
      (new_pool_state sandbox) (changes-IsRegistry setup) refl

abbrev newline_name : String
newline_name = "ci\n"

make_pool_iff_example :
    (make_pool newline_name (int (pos 3)) ≡ made (record { name = newline_name; capacity = 3 })) ↔ (
      (newline_name ≡ newline_name)
      × (int (pos 3) ≡ int (pos 3))
      × ((matches_name newline_name ≡ true)
          ⊎ ((t : String) × (matches_name t ≡ true) × (newline_name ≡ line t))))
make_pool_iff_example =
    make_pool_iff newline_name (int (pos 3)) (record { name = newline_name; capacity = 3 })

newline_is_taken :
    make_pool newline_name (int (pos 3)) ≡ made (record { name = newline_name; capacity = 3 })
unfolding line matches_name
newline_is_taken =
    (make_pool_iff newline_name (int (pos 3)) (record { name = newline_name; capacity = 3 })).1
      (refl, refl, inr ("ci", refl, refl))

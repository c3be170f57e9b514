-- ===== src/Scheduler/Ledger/Lookups.antt =====
-- Reading the two dictionaries of the ledger (athanore/engine/scheduler.py) after a write.
use athanore.Prelude.{
  ℕ, ◌<◌, ◌≡◌, refl, none, some, List, [], ◌∷◌, ◌++◌, All, eqb, arith, if◌then◌else◌,
}
use athanore.Scheduler.{Attempt}
use athanore.Scheduler.Ledger.{find_entry, drop_entry, find_job, put_job, drop_job}

pub find_entry-old :
    (h k : ℕ) (e f : Attempt) (live : List (ℕ × Attempt))
    → find_entry h live ≡ some f
    → find_entry h (live ++ (k, e) ∷ []) ≡ some f
find_entry-old h k e f [] found = cc
find_entry-old h k e f ((j, g) ∷ live) found = ground (arith, find_entry-old h k e f live)

pub find_entry-new :
    (n : ℕ) (e : Attempt) (live : List (ℕ × Attempt))
    → All (λ p. p.0 < n) live
    → find_entry n (live ++ (n, e) ∷ []) ≡ some e
find_entry-new n e [] low = ground arith
find_entry-new n e ((j, g) ∷ live) low =
    let here = low.0 in ground (arith, find_entry-new n e live low.1)

pub find_entry-drop_entry :
    (h i : ℕ) (live : List (ℕ × Attempt))
    → find_entry i (drop_entry h live) ≡ (if eqb h i then none else find_entry i live)
find_entry-drop_entry h i [] = ground arith
find_entry-drop_entry h i ((j, g) ∷ live) = ground (arith, find_entry-drop_entry h i live)

pub find_job-put_job :
    (id i h : ℕ) (d : List (ℕ × ℕ))
    → find_job i (put_job id h d) ≡ (if eqb id i then some h else find_job i d)
find_job-put_job id i h [] = refl
find_job-put_job id i h ((j, k) ∷ d) = ground (arith, find_job-put_job id i h d)

pub find_job-drop_job :
    (id i : ℕ) (d : List (ℕ × ℕ))
    → find_job i (drop_job id d) ≡ (if eqb id i then none else find_job i d)
find_job-drop_job id i [] = ground arith
find_job-drop_job id i ((j, k) ∷ d) = ground (arith, find_job-drop_job id i d)

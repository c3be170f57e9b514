-- ===== src/Graph/Validate/Scan.antt =====
-- The inner loop of `_generations` (athanore/graph/validate.py): what it writes and what it queues.
use athanore.Prelude.{
  ℕ, suc, ◌+◌, ◌≤◌, ◌≡◌, refl, String, not, ◌&&◌, ◌||◌, Option, none, some, List, [], ◌∷◌, ◌++◌,
  member, arith, eq_iff, eq_refl, Option-cases, inl, inr, ◌⊎◌, Memᴰ, member_iff, if◌then◌else◌,
}
use athanore.Prelude.Dict.{Dict, lookup, insert, contains, lookup-insert}
use athanore.Graph.Validate.{Search, scan_edges}

abbrev pub or_some {ℓ} : {A : Type ℓ} → Option A → Option A → Option A
or_some none o = o
or_some (some a) o = some a

-- Exactly the absent targets are written, at depth d + 1.
pub lookup-scan_edges :
    (d : ℕ) (es : List String) (s : Search) (v : String)
    → lookup v (scan_edges d es s).generations
      ≡ or_some (lookup v s.generations) (if member v es then some (d + 1) else none)
unfolding scan_edges member
lookup-scan_edges d [] s v = ground arith
lookup-scan_edges d (e ∷ es) s v = ground (
  arith,
  lookup-scan_edges d es s v,
  lookup-scan_edges d es
      (record { generations = insert e (d + 1) s.generations; pending = s.pending ++ e ∷ [] }) v,
  lookup-insert e v (d + 1) s.generations,
  eq_iff e v,
)

-- A depth that the loop leaves was there, or is that of a new target.
pub scan_edges_cases :
    (d : ℕ) (es : List String) (s : Search) (v : String) (k : ℕ)
    → lookup v (scan_edges d es s).generations ≡ some k
    → (lookup v s.generations ≡ some k) ⊎ (lookup v s.generations ≡ none) × Memᴰ v es × (k ≡ suc d)
scan_edges_cases d es s v k h = ground (arith, lookup-scan_edges d es s v, member_iff v es)

member-append :
    (a : String) (xs ys : List String) → member a (xs ++ ys) ≡ (member a xs || member a ys)
unfolding member
member-append a [] ys = refl
member-append a (x ∷ xs) ys = ground (arith, member-append a xs ys)

-- Exactly the absent targets are queued.
pub member-scan_edges :
    (d : ℕ) (es : List String) (s : Search) (v : String)
    → member v (scan_edges d es s).pending
      ≡ (member v s.pending || (member v es && not (contains v s.generations)))
unfolding scan_edges member
member-scan_edges d [] s v = ground arith
member-scan_edges d (e ∷ es) s v = ground (
  arith,
  member-scan_edges d es s v,
  member-scan_edges d es
      (record { generations = insert e (d + 1) s.generations; pending = s.pending ++ e ∷ [] }) v,
  member-append v s.pending (e ∷ []),
  lookup-insert e v (d + 1) s.generations,
  eq_iff e v,
)

-- The queue is ordered by depth, from `lo` on.
abbrev pub Ascending : Dict ℕ → ℕ → List String → Type 0
Ascending gens lo [] = Unit
Ascending gens lo (v ∷ rest) = (d : ℕ) × (lookup v gens ≡ some d) × (lo ≤ d) × Ascending gens d rest

abbrev pub Below : Dict ℕ → ℕ → Type 0
Below gens hi = (v : String) (k : ℕ) → lookup v gens ≡ some k → k ≤ hi

Ascending-insert :
    (gens : Dict ℕ) (e : String) (k lo : ℕ) (q : List String)
    → lookup e gens ≡ none
    → Ascending gens lo q
    → Ascending (insert e k gens) lo q
Ascending-insert gens e k lo [] absent h = tt
Ascending-insert gens e k lo (v ∷ rest) absent (d, at, le, h) = (
  d,
  ground (arith, lookup-insert e v k gens, eq_iff e v),
  le,
  Ascending-insert gens e k d rest absent h,
)

Ascending-concat :
    (gens : Dict ℕ) (e : String) (m lo : ℕ) (q : List String)
    → Below gens m
    → lookup e gens ≡ some m
    → lo ≤ m
    → Ascending gens lo q
    → Ascending gens lo (q ++ e ∷ [])
Ascending-concat gens e m lo [] below at le h = (m, at, le, tt)
Ascending-concat gens e m lo (v ∷ rest) below at le (d, found, le', h) =
    (d, found, le', Ascending-concat gens e m d rest below at (below v d found) h)

Below-insert : (gens : Dict ℕ) (e : String) (hi : ℕ) → Below gens hi → Below (insert e hi gens) hi
Below-insert gens e hi below v k h =
    ground (arith, lookup-insert e v hi gens, below v k, eq_iff e v)

-- The queue stays ordered, and no depth passes d + 1.
pub scan_edges-Ascending :
    (d : ℕ) (es : List String) (s : Search)
    → Below s.generations (d + 1)
    → Ascending s.generations d s.pending
    → let t = scan_edges d es s in Below t.generations (d + 1) × Ascending t.generations d t.pending
unfolding scan_edges
scan_edges-Ascending d [] s below asc = (below, asc)
scan_edges-Ascending d (e ∷ es) s below asc = elim (Option-cases (lookup e s.generations)) [
  | inl absent ↦
      rw (absent, scan_edges)
        (scan_edges-Ascending d es
          (record { generations = insert e (d + 1) s.generations; pending = s.pending ++ e ∷ [] })
          (Below-insert s.generations e (d + 1) below)
          (Ascending-concat (insert e (d + 1) s.generations) e (d + 1) d s.pending
            (Below-insert s.generations e (d + 1) below) (simp (lookup-insert, eq_refl))
            (omega arith) (Ascending-insert s.generations e (d + 1) d s.pending absent asc)))
  | inr (k, found) ↦ rw (found, scan_edges) (scan_edges-Ascending d es s below asc)
]

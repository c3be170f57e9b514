-- ===== src/Store/Rows.antt =====
-- Reading a row of `tasks` or `runs` (athanore/store/tables.py) after a write.
use athanore.Prelude.{
  ℕ, suc, ◌<◌, ◌≡◌, ◌≢◌, refl, ap, String, Bool, Option, none, some, List, [], ◌∷◌, ◌++◌, length,
  All, eq_iff, eqb, inl, inr, filter, Bool-cases, arith, ◌==◌, if◌then◌else◌,
}
use athanore.Store.{RunRow, TaskRow}
use athanore.Store.Tasks.{find_task, write_task}
use athanore.Store.Runs.{find_run, write_run}

abbrev pub map_task : (TaskRow → TaskRow) → Option TaskRow → Option TaskRow
map_task f none = none
map_task f (some t) = some (f t)

pub find_task-write_task :
    (i : ℕ) (f : TaskRow → TaskRow) (ts : List TaskRow)
    → ((t : TaskRow) → (f t).id ≡ t.id)
    → find_task i (write_task i f ts) ≡ map_task f (find_task i ts)
find_task-write_task i f [] same = refl
find_task-write_task i f (t ∷ ts) same = ground (arith, same t, find_task-write_task i f ts same)

pub find_task-append :
    (i : ℕ) (ts : List TaskRow) (t u : TaskRow)
    → find_task i ts ≡ some t
    → find_task i (ts ++ u ∷ []) ≡ some t
find_task-append i [] t u h = cc
find_task-append i (v ∷ ts) t u h = ground (arith, find_task-append i ts t u)

pub find_task-new :
    (n : ℕ) (ts : List TaskRow) (u : TaskRow)
    → All (λ t. t.id < n) ts
    → u.id ≡ n
    → find_task n (ts ++ u ∷ []) ≡ some u
find_task-new n [] u below h = ground arith
find_task-new n (v ∷ ts) u below h = ground (arith, find_task-new n ts u below.1 h)

pub find_task_id : (i : ℕ) (ts : List TaskRow) (t : TaskRow) → find_task i ts ≡ some t → t.id ≡ i
find_task_id i [] t h = cc
find_task_id i (u ∷ ts) t h = elim (Bool-cases (eqb u.id i)) [
  | inl e ↦ let k = rw e at h in let same : u.id ≡ i = ground arith in cc
  | inr e ↦ let k = rw e at h in find_task_id i ts t k
]

pub write_task-below :
    (n i : ℕ) (f : TaskRow → TaskRow) (ts : List TaskRow)
    → ((t : TaskRow) → (f t).id ≡ t.id)
    → All (λ t. t.id < n) ts
    → All (λ t. t.id < n) (write_task i f ts)
write_task-below n i f [] same below = tt
write_task-below n i f (t ∷ ts) same below =
    (ground (arith, same t), write_task-below n i f ts same below.1)

pub length-write_task :
    (i : ℕ) (f : TaskRow → TaskRow) (ts : List TaskRow) → length (write_task i f ts) ≡ length ts
length-write_task i f [] = refl
length-write_task i f (t ∷ ts) = ap suc (length-write_task i f ts)

-- The primary key of the table.
abbrev pub UniqueIds : List TaskRow → Type 0
UniqueIds [] = Unit
UniqueIds (t ∷ ts) = All (λ u. u.id ≢ t.id) ts × UniqueIds ts

pub All-weaken {κ μ} :
    (P : TaskRow → Type κ) (Q : TaskRow → Type μ) (ts : List TaskRow)
    → ((t : TaskRow) → P t → Q t)
    → All P ts
    → All Q ts
All-weaken P Q [] f h = tt
All-weaken P Q (t ∷ ts) f h = (f t h.0, All-weaken P Q ts f h.1)

pub All-both {κ μ} :
    (P : TaskRow → Type κ) (Q : TaskRow → Type μ) (ts : List TaskRow)
    → All P ts
    → All Q ts
    → All (λ t. P t × Q t) ts
All-both P Q [] h k = tt
All-both P Q (t ∷ ts) h k = ((h.0, k.0), All-both P Q ts h.1 k.1)

find_task_skip :
    (t u : TaskRow) (ts : List TaskRow)
    → u.id ≢ t.id
    → find_task u.id ts ≡ some u
    → find_task u.id (t ∷ ts) ≡ some u
find_task_skip t u ts h k = ground arith

-- A row is found by its id.
pub All-find_task : (ts : List TaskRow) → UniqueIds ts → All (λ t. find_task t.id ts ≡ some t) ts
All-find_task [] u = tt
All-find_task (t ∷ ts) u = (
  ground arith,
  All-weaken _ (λ v. find_task v.id (t ∷ ts) ≡ some v) ts (λ v h. find_task_skip t v ts h.0 h.1)
      (All-both (λ v. v.id ≢ t.id) (λ v. find_task v.id ts ≡ some v) ts u.0 (All-find_task ts u.1)),
)

pub find_task-write_other :
    (i j : ℕ) (f : TaskRow → TaskRow) (ts : List TaskRow)
    → ((t : TaskRow) → (f t).id ≡ t.id)
    → i ≢ j
    → find_task i (write_task j f ts) ≡ find_task i ts
find_task-write_other i j f [] same h = refl
find_task-write_other i j f (t ∷ ts) same h =
    ground (arith, same t, find_task-write_other i j f ts same h)

pub All-filter {κ} :
    (P : TaskRow → Type κ) (p : TaskRow → Bool) (ts : List TaskRow) → All P ts → All P (filter p ts)
All-filter P p [] h = tt
All-filter P p (t ∷ ts) h = elim (Bool-cases (p t)) [
  | inl e ↦ rw e (h.0, All-filter P p ts h.1)
  | inr e ↦ rw e (All-filter P p ts h.1)
]

pub UniqueIds-filter :
    (p : TaskRow → Bool) (ts : List TaskRow) → UniqueIds ts → UniqueIds (filter p ts)
UniqueIds-filter p [] u = tt
UniqueIds-filter p (t ∷ ts) u = elim (Bool-cases (p t)) [
  | inl e ↦ rw e (All-filter (λ v. v.id ≢ t.id) p ts u.0, UniqueIds-filter p ts u.1)
  | inr e ↦ rw e (UniqueIds-filter p ts u.1)
]

-- A write of a row that keeps what a join is told by.
abbrev pub KeepsRow : (TaskRow → TaskRow) → Type 0
KeepsRow g =
    (t : TaskRow)
    → ((g t).id ≡ t.id)
      × ((g t).run_id ≡ t.run_id)
      × ((g t).node ≡ t.node)
      × ((g t).lineage ≡ t.lineage)

abbrev pub map_run : (RunRow → RunRow) → Option RunRow → Option RunRow
map_run f none = none
map_run f (some run) = some (f run)

pub find_run-write_run :
    (run_id r : String) (f : RunRow → RunRow) (runs : List RunRow)
    → ((run : RunRow) → (f run).id ≡ run.id)
    → find_run r (write_run run_id f runs)
      ≡ (if run_id == r then map_run f (find_run r runs) else find_run r runs)
find_run-write_run run_id r f [] same = ground arith
find_run-write_run run_id r f (run ∷ runs) same = ground (
  arith,
  same run,
  eq_iff run.id r,
  eq_iff run_id r,
  eq_iff run.id run_id,
  find_run-write_run run_id r f runs,
)

-- ===== src/Ops/TaskEdits.antt =====
-- What the operations of athanore/engine/ops.py do to the table of tasks: rows are written, added
-- under the next id and removed with their run.
use athanore.Prelude.{
  ℕ, ◌+◌, ◌<◌, ◌≤◌, ◌≡◌, ◌≢◌, refl, sym, ◌∙◌, ap, subst, inl, inr, String, Bool, true, false, List,
  [], ◌∷◌, ◌++◌, map, filter, All, Bool-cases, eqb, arith, if◌then◌else◌,
}
use athanore.Store.{TaskRow, Db}
use athanore.Store.Tasks.{write_task}
use athanore.Store.Rows.{KeepsRow, UniqueIds, All-weaken, UniqueIds-filter}
use athanore.Store.Joins.{fires}
use athanore.Runner.FiresOnce.{join_tasks, FiresOnce, append-FiresOnce}

pub data TaskEdit : Db → Db → Type 0 where
  wrote :
      {db after : Db} (g : TaskRow → TaskRow)
      → KeepsRow g
      → after.tasks ≡ map g db.tasks
      → after.next_task ≡ db.next_task
      → TaskEdit db after
  added :
      {db after : Db} (row : TaskRow)
      → row.id ≡ db.next_task
      → ((r j : String) (f : ℕ) → fires r j f row ≡ false)
      → after.tasks ≡ db.tasks ++ row ∷ []
      → after.next_task ≡ db.next_task + 1
      → TaskEdit db after
  removed :
      {db after : Db} (p : TaskRow → Bool)
      → after.tasks ≡ filter p db.tasks
      → (All (λ t. t.id < db.next_task) db.tasks → All (λ t. t.id < after.next_task) after.tasks)
      → TaskEdit db after
  and_after : {db mid after : Db} → TaskEdit db mid → TaskEdit mid after → TaskEdit db after

map-same : (ts : List TaskRow) → ts ≡ map (λ t. t) ts
map-same [] = refl
map-same (t ∷ ts) = ap (λ rest. t ∷ rest) (map-same ts)

pub untouched :
    (db after : Db) → after.tasks ≡ db.tasks → after.next_task ≡ db.next_task → TaskEdit db after
untouched db after tasks next =
    wrote (λ t. t) (λ t. (refl, refl, refl, refl)) (tasks ∙ map-same db.tasks) next

write_task-map :
    (i : ℕ) (f : TaskRow → TaskRow) (ts : List TaskRow)
    → write_task i f ts ≡ map (λ t. if eqb t.id i then f t else t) ts
write_task-map i f [] = refl
write_task-map i f (t ∷ ts) =
    ap (λ rest. (if eqb t.id i then f t else t) ∷ rest) (write_task-map i f ts)

if_written :
    (f : TaskRow → TaskRow) (b : Bool) (t : TaskRow)
    → KeepsRow f
    → ((if b then f t else t).id ≡ t.id)
      × ((if b then f t else t).run_id ≡ t.run_id)
      × ((if b then f t else t).node ≡ t.node)
      × ((if b then f t else t).lineage ≡ t.lineage)
if_written f true t keeps = keeps t
if_written f false t keeps = (refl, refl, refl, refl)

pub write_task-TaskEdit :
    (db after : Db) (i : ℕ) (f : TaskRow → TaskRow)
    → KeepsRow f
    → after.tasks ≡ write_task i f db.tasks
    → after.next_task ≡ db.next_task
    → TaskEdit db after
write_task-TaskEdit db after i f keeps tasks next =
    wrote (λ t. if eqb t.id i then f t else t) (λ t. if_written f (eqb t.id i) t keeps)
      (tasks ∙ write_task-map i f db.tasks) next

-- The ids of the table: each row has its own, and the next one is above them.
abbrev pub IdsKept : Db → Type 0
IdsKept db = UniqueIds db.tasks × All (λ t. t.id < db.next_task) db.tasks

All-map-id :
    (P : ℕ → Type 0) (g : TaskRow → TaskRow) (ts : List TaskRow)
    → KeepsRow g
    → All (λ t. P t.id) ts
    → All (λ t. P t.id) (map g ts)
All-map-id P g [] keeps h = tt
All-map-id P g (t ∷ ts) keeps h = (subst P (sym (keeps t).0) h.0, All-map-id P g ts keeps h.1)

UniqueIds-map :
    (g : TaskRow → TaskRow) (ts : List TaskRow) → KeepsRow g → UniqueIds ts → UniqueIds (map g ts)
UniqueIds-map g [] keeps u = tt
UniqueIds-map g (t ∷ ts) keeps u = (
  subst (λ i. All (λ v. v.id ≢ i) (map g ts)) (sym (keeps t).0)
      (All-map-id (λ j. j ≢ t.id) g ts keeps u.0),
  UniqueIds-map g ts keeps u.1,
)

All-append {κ} :
    (P : TaskRow → Type κ) (ts : List TaskRow) (row : TaskRow)
    → All P ts
    → P row
    → All P (ts ++ row ∷ [])
All-append P [] row h p = (p, tt)
All-append P (t ∷ ts) row h p = (h.0, All-append P ts row h.1 p)

UniqueIds-append :
    (n : ℕ) (ts : List TaskRow) (row : TaskRow)
    → row.id ≡ n
    → All (λ t. t.id < n) ts
    → UniqueIds ts
    → UniqueIds (ts ++ row ∷ [])
UniqueIds-append n [] row new below u = (tt, tt)
UniqueIds-append n (t ∷ ts) row new below u = (
  All-append (λ v. v.id ≢ t.id) ts row u.0 (λ same. omega (arith, below.0)),
  UniqueIds-append n ts row new below.1 u.1,
)

pub added-IdsKept :
    (db after : Db) (row : TaskRow)
    → after.tasks ≡ db.tasks ++ row ∷ []
    → after.next_task ≡ db.next_task + 1
    → row.id ≡ db.next_task
    → IdsKept db
    → IdsKept after
added-IdsKept db after row tasks next id (unique, below) = (
  subst UniqueIds (sym tasks) (UniqueIds-append db.next_task db.tasks row id below unique),
  subst (All (λ t. t.id < after.next_task)) (sym tasks) (
      All-append (λ t. t.id < after.next_task) db.tasks row
        (All-weaken (λ t. t.id < db.next_task) (λ t. t.id < after.next_task) db.tasks
          (λ t h. omega arith) below)
        (omega arith)),
)

pub TaskEdit-IdsKept : {db after : Db} → TaskEdit db after → IdsKept db → IdsKept after
TaskEdit-IdsKept {db} {after} (wrote g keeps tasks next) (unique, below) = (
  subst UniqueIds (sym tasks) (UniqueIds-map g db.tasks keeps unique),
  subst (All (λ t. t.id < after.next_task)) (sym tasks) (
      subst (λ n. All (λ t. t.id < n) (map g db.tasks)) (sym next)
        (All-map-id (λ i. i < db.next_task) g db.tasks keeps below)),
)
TaskEdit-IdsKept {db} {after} (added row id other tasks next) kept =
    added-IdsKept db after row tasks next id kept
TaskEdit-IdsKept {db} {after} (removed p tasks next) (unique, below) =
    (subst UniqueIds (sym tasks) (UniqueIds-filter p db.tasks unique), next below)
TaskEdit-IdsKept (and_after first second) h = TaskEdit-IdsKept second (TaskEdit-IdsKept first h)

join_tasks-map :
    (r j : String) (f : ℕ) (g : TaskRow → TaskRow) (ts : List TaskRow)
    → KeepsRow g
    → join_tasks r j f (map g ts) ≡ join_tasks r j f ts
join_tasks-map r j f g [] keeps = refl
join_tasks-map r j f g (t ∷ ts) keeps =
    let rest = join_tasks-map r j f g ts keeps in
    let (id, run_id, node, lineage) = keeps t in rw (run_id, node, lineage, rest) refl

join_tasks-filter :
    (r j : String) (f : ℕ) (p : TaskRow → Bool) (ts : List TaskRow)
    → join_tasks r j f (filter p ts) ≤ join_tasks r j f ts
join_tasks-filter r j f p [] = omega arith
join_tasks-filter r j f p (t ∷ ts) =
    let rest = join_tasks-filter r j f p ts in
    elim (Bool-cases (p t)) [ inl e ↦ rw e (ground arith) | inr e ↦ rw e (ground arith) ]

pub TaskEdit-FiresOnce :
    {db after : Db} → TaskEdit db after → FiresOnce db.tasks → FiresOnce after.tasks
TaskEdit-FiresOnce {db} (wrote g keeps tasks next) once =
    subst FiresOnce (sym tasks) λ r j f. rw (join_tasks-map r j f g db.tasks keeps) (once r j f)
TaskEdit-FiresOnce {db} (added row id other tasks next) once =
    subst FiresOnce (sym tasks)
      (append-FiresOnce db.tasks row once λ r j f fired. let no = other r j f in cc)
TaskEdit-FiresOnce {db} (removed p tasks next) once =
    subst FiresOnce (sym tasks)
      λ r j f. let kept = join_tasks-filter r j f p db.tasks in let old = once r j f in omega arith
TaskEdit-FiresOnce (and_after first second) once =
    TaskEdit-FiresOnce second (TaskEdit-FiresOnce first once)

-- ===== src/Ops/Cancel.antt =====
-- `cancel` of athanore/engine/ops.py: which tasks it stops.
use athanore.Prelude.{
  ℕ, ◌≡◌, refl, ◌∙◌, ap, ap₂, inl, inr, String, Bool, true, false, ◌&&◌, ◌||◌, List, [], ◌∷◌, map,
  filter, leb, eqb, ◌==◌, All, Bool-cases, arith, if◌then◌else◌,
}
use athanore.Prelude.Sort.{insert_by, sort_by}
use athanore.Store.{cancelled, is_pending, on_cancel, TaskRow, CancelReason, Db}
use athanore.Store.Runs.{set_run_status}
use athanore.Store.Rows.{map_task, All-weaken}
use athanore.Store.Tasks.{
  find_task, get_task, write_task, any_pending, has_pending, set_status, list_for_run,
}
use athanore.Ops.{
  cancel_task, cancel_each, pending_tasks, cancel_tasks, has_ended, answered, Reply, read_run,
}
use athanore.Ops.Answers.{Answers, bind-Answers, refuse_if-Answers, Answers-answered}
use athanore.Ops.RunOps.{cancelled_run, cancel}

-- The table has a row under this id that passes the test.
abbrev pub has_id : (TaskRow → Bool) → ℕ → List TaskRow → Bool
has_id p i [] = false
has_id p i (t ∷ ts) = p t && eqb t.id i || has_id p i ts

abbrev pub is_id : ℕ → List ℕ → Bool
is_id i [] = false
is_id i (j ∷ ids) = eqb j i || is_id i ids

is_id-filter :
    (p : TaskRow → Bool) (i : ℕ) (ts : List TaskRow)
    → is_id i (map (λ t. t.id) (filter p ts)) ≡ has_id p i ts
is_id-filter p i [] = refl
is_id-filter p i (t ∷ ts) = elim (Bool-cases (p t)) [
  | inl e ↦ rw e (ap (λ b. eqb t.id i || b) (is_id-filter p i ts))
  | inr e ↦ rw e (is_id-filter p i ts)
]

has_id-insert_by :
    (leb_row : TaskRow → TaskRow → Bool) (p : TaskRow → Bool) (i : ℕ) (t : TaskRow)
    (ts : List TaskRow)
    → has_id p i (insert_by leb_row t ts) ≡ (p t && eqb t.id i || has_id p i ts)
has_id-insert_by leb_row p i t [] = refl
has_id-insert_by leb_row p i t (u ∷ ts) = elim (Bool-cases (leb_row t u)) [
  | inl e ↦ rw e refl
  | inr e ↦ rw e (ground (arith, has_id-insert_by leb_row p i t ts))
]

has_id-sort_by :
    (leb_row : TaskRow → TaskRow → Bool) (p : TaskRow → Bool) (i : ℕ) (ts : List TaskRow)
    → has_id p i (sort_by leb_row ts) ≡ has_id p i ts
has_id-sort_by leb_row p i [] = refl
has_id-sort_by leb_row p i (t ∷ ts) =
    has_id-insert_by leb_row p i t (sort_by leb_row ts)
    ∙ ap (λ b. p t && eqb t.id i || b) (has_id-sort_by leb_row p i ts)

has_id-filter :
    (q p : TaskRow → Bool) (i : ℕ) (ts : List TaskRow)
    → has_id p i (filter q ts) ≡ has_id (λ t. q t && p t) i ts
has_id-filter q p i [] = refl
has_id-filter q p i (t ∷ ts) = elim (Bool-cases (q t)) [
  | inl e ↦ rw e (ap (λ b. p t && eqb t.id i || b) (has_id-filter q p i ts))
  | inr e ↦ rw e (has_id-filter q p i ts)
]

abbrev pub is_pending_of : String → TaskRow → Bool
is_pending_of run_id t = t.run_id == run_id && is_pending t.status

is_id-pending_tasks :
    (db : Db) (run_id : String) (i : ℕ)
    → is_id i (map (λ t. t.id) (pending_tasks db run_id)) ≡ has_id (is_pending_of run_id) i db.tasks
unfolding list_for_run
is_id-pending_tasks db run_id i =
    let here = filter (λ t. t.run_id == run_id) db.tasks in
    let leb_row : TaskRow → TaskRow → Bool = λ t u. leb t.id u.id in
    is_id-filter (λ t. is_pending t.status) i (sort_by leb_row here)
    ∙ has_id-sort_by leb_row (λ t. is_pending t.status) i here
    ∙ has_id-filter (λ t. t.run_id == run_id) (λ t. is_pending t.status) i db.tasks

abbrev pub stop : TaskRow → TaskRow
stop t = record t { status = cancelled }

abbrev stop_if : (ℕ → Bool) → TaskRow → TaskRow
stop_if stopped t = if stopped t.id then stop t else t

stop_if-write_task :
    (i : ℕ) (stopped : ℕ → Bool) (ts : List TaskRow)
    → map (stop_if stopped) (write_task i stop ts) ≡ map (stop_if (λ j. eqb i j || stopped j)) ts
stop_if-write_task i stopped [] = refl
stop_if-write_task i stopped (t ∷ ts) =
    ap₂ (λ u rest. u ∷ rest) (one t) (stop_if-write_task i stopped ts)
  where
    one :
        (t : TaskRow)
        → stop_if stopped (if eqb t.id i then stop t else t) ≡ stop_if (λ j. eqb i j || stopped j) t
    one t = elim (Bool-cases (eqb t.id i)) [
      | inl e ↦
          let back : eqb i t.id ≡ true = ground arith in
          elim (Bool-cases (stopped t.id)) [
            | inl s ↦ rw (e, back) (rw s refl)
            | inr s ↦ rw (e, back) (rw s refl)
          ]
      | inr e ↦ let back : eqb i t.id ≡ false = ground arith in rw (e, back) refl
    ]

map-none : (ts : List TaskRow) → ts ≡ map (stop_if (λ j. false)) ts
map-none [] = refl
map-none (t ∷ ts) = ap (λ rest. t ∷ rest) (map-none ts)

cancel_each-tasks :
    (db : Db) (us : List TaskRow) (reason : CancelReason) (now : ℕ)
    → (cancel_each db us reason now).tasks
      ≡ map (stop_if (λ j. is_id j (map (λ u. u.id) us))) db.tasks
unfolding set_status
cancel_each-tasks db [] reason now = map-none db.tasks
cancel_each-tasks db (u ∷ us) reason now =
    cancel_each-tasks (cancel_task db u reason now) us reason now
    ∙ stop_if-write_task u.id (λ j. is_id j (map (λ v. v.id) us)) db.tasks

find_task-stop_if :
    (i : ℕ) (stopped : ℕ → Bool) (ts : List TaskRow)
    → find_task i (map (stop_if stopped) ts)
      ≡ (if stopped i then map_task stop (find_task i ts) else find_task i ts)
find_task-stop_if i stopped [] = elim (Bool-cases (stopped i)) [
  | inl e ↦ rw e refl
  | inr e ↦ rw e refl
]
find_task-stop_if i stopped (t ∷ ts) = elim (Bool-cases (eqb t.id i)) [
  | inl e ↦
      let same : t.id ≡ i = ground arith in
      let agrees : stopped t.id ≡ stopped i = ap stopped same in
      elim (Bool-cases (stopped i)) [
        | inl s ↦ rw (agrees, s, e) refl
        | inr s ↦ rw (agrees, s, e) refl
      ]
  | inr e ↦ elim (Bool-cases (stopped t.id)) [
    | inl s ↦ rw s (rw e (find_task-stop_if i stopped ts))
    | inr s ↦ rw s (rw e (find_task-stop_if i stopped ts))
  ]
]

has_id_self :
    (p : TaskRow → Bool) (t : TaskRow) (ts : List TaskRow)
    → p t ≡ true
    → has_id p t.id (t ∷ ts) ≡ true
has_id_self p t ts h = rw h (ground arith)

-- A row that passes is found by its id.
has_id-All :
    (p : TaskRow → Bool) (ts : List TaskRow) → All (λ t. p t ≡ true → has_id p t.id ts ≡ true) ts
has_id-All p [] = tt
has_id-All p (t ∷ ts) = (
  has_id_self p t ts,
  All-weaken (λ u. p u ≡ true → has_id p u.id ts ≡ true)
      (λ u. p u ≡ true → has_id p u.id (t ∷ ts) ≡ true) ts (λ u h k. let rest = h k in ground arith)
      (has_id-All p ts),
)

none_pending :
    (run_id : String) (stopped : ℕ → Bool) (ts : List TaskRow)
    → All (λ t. is_pending_of run_id t ≡ true → stopped t.id ≡ true) ts
    → any_pending run_id (map (stop_if stopped) ts) ≡ false
none_pending run_id stopped [] h = refl
none_pending run_id stopped (t ∷ ts) h = elim (Bool-cases (stopped t.id)) [
  | inl s ↦ rw s (ground (arith, none_pending run_id stopped ts h.1))
  | inr s ↦
      let idle : is_pending_of run_id t ≡ false =
        not_pending (is_pending_of run_id t) (stopped t.id) h.0 s in
      rw s (rw idle (none_pending run_id stopped ts h.1))
]
  where
    not_pending : (a b : Bool) → (a ≡ true → b ≡ true) → b ≡ false → a ≡ false
    not_pending true b k e = let yes = k refl in cc
    not_pending false b k e = refl

-- What a cancellation leaves: the tasks that were pending are cancelled, and those are the ones
-- that are reported.
abbrev pub Stops : Db → String → Reply (List ℕ) → Type 0
Stops db run_id reply =
    (has_pending reply.db run_id ≡ false)
    × ((i : ℕ)
        → get_task reply.db i
          ≡ (if is_id i reply.cancels then map_task stop (get_task db i) else get_task db i))
    × ((i : ℕ) → is_id i reply.cancels ≡ has_id (is_pending_of run_id) i db.tasks)
    × (reply.value ≡ reply.cancels)

cancelled_run-Stops :
    (db : Db) (run_id : String) (now : ℕ) → Stops db run_id (cancelled_run db run_id now)
unfolding cancelled_run cancel_tasks set_run_status has_pending get_task
cancelled_run-Stops db run_id now =
    let ids = map (λ t. t.id) (pending_tasks db run_id) in
    let after = cancel_each-tasks db (pending_tasks db run_id) on_cancel now in
    (
      ap (any_pending run_id) after
          ∙ none_pending run_id (λ j. is_id j ids) db.tasks
              (All-weaken
                (λ t.
                  is_pending_of run_id t ≡ true
                  → has_id (is_pending_of run_id) t.id db.tasks ≡ true)
                (λ t. is_pending_of run_id t ≡ true → is_id t.id ids ≡ true) db.tasks
                (λ t h k. is_id-pending_tasks db run_id t.id ∙ h k)
                (has_id-All (is_pending_of run_id) db.tasks)),
      λ i. ap (find_task i) after ∙ find_task-stop_if i (λ j. is_id j ids) db.tasks,
      is_id-pending_tasks db run_id,
      refl,
    )

cancel-Answers :
    (db : Db) (run_id : String) (now : ℕ) → Answers (Stops db run_id) (cancel db run_id now)
unfolding cancel
cancel-Answers db run_id now = bind-Answers (Stops db run_id) (read_run db run_id) _ λ run found.
    refuse_if-Answers (Stops db run_id) (has_ended run.status) _ _
      λ allowed. cancelled_run-Stops db run_id now

-- A cancellation that is not refused leaves no pending task in the run: it sets exactly the tasks
-- of the run that were pending to `cancelled`, keeps every other task of the store, and the ids it
-- answers, and gives to the scheduler, are those of the tasks that it set.
pub cancel-Stops :
    (db : Db) (run_id : String) (now : ℕ) (reply : Reply (List ℕ))
    → cancel db run_id now ≡ answered reply
    → Stops db run_id reply
cancel-Stops db run_id now reply =
    Answers-answered (Stops db run_id) (cancel db run_id now) reply (cancel-Answers db run_id now)

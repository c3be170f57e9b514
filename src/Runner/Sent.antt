-- ===== src/Runner/Sent.antt =====
-- What one transition of `_record_success` (athanore/engine/runner.py) writes, in cases.
use athanore.Prelude.{
  ℕ, ◌+◌, ◌≡◌, refl, sym, ◌∙◌, subst, inl, inr, Bool, false, List, [], ◌∷◌, Bool-cases,
  Option-cases, arith,
}
use athanore.Prelude.Dict.{Dict, lookup}
use athanore.Graph.{unframed_join, key, raised, ok, Result-cases, Node}
use athanore.Routing.{Transition}
use athanore.Store.{BranchFrame, TaskRow, Db}
use athanore.Runner.{
  child_frames, split_last, enqueue_transition, fire_join, note_arrival, is_short, record_arrival,
  send, send_all,
}

-- An ordinary task, an arrival that fires nothing, or an arrival that fires its join.
pub data Sent (db : Db) (task : TaskRow) (t : Transition) (frames : List BranchFrame) (now : ℕ)
    : Db → Type 0 where
  queued :
      (target : Node) → Sent db task t frames now (enqueue_transition db task target t frames now)
  noted :
      (target : Node) (frame : BranchFrame)
      → Sent db task t frames now (note_arrival db task target t frame now).0
  fired_join :
      (target : Node) (frame : BranchFrame) (outer : List BranchFrame)
      → (note_arrival db task target t frame now).1.late ≡ false
      → Sent db task t frames now
          (fire_join (note_arrival db task target t frame now).0 task target frame outer now)

record_arrival-Sent :
    (db sent : Db) (task : TaskRow) (target : Node) (t : Transition) (frames : List BranchFrame)
    (now : ℕ)
    → record_arrival db task target t frames now ≡ ok sent
    → Sent db task t frames now sent
unfolding record_arrival
record_arrival-Sent db sent task target t frames now h = elim (Option-cases (split_last frames)) [
  | inl e ↦
      let stops : record_arrival db task target t frames now
          ≡ raised (unframed_join task.node target.name) =
        rw (e, record_arrival) refl in
      cc
  | inr ((outer, frame), e) ↦
      let noted_db = (note_arrival db task target t frame now).0 in
      elim (Bool-cases (is_short (note_arrival db task target t frame now).1)) [
        | inl s ↦
            let read : record_arrival db task target t frames now ≡ ok noted_db =
              rw (e, record_arrival) (rw s refl) in
            let wrote : noted_db ≡ sent = cc in
            subst (Sent db task t frames now) wrote (noted target frame)
        | inr s ↦
            let read : record_arrival db task target t frames now
                ≡ ok (fire_join noted_db task target frame outer now) =
              rw (e, record_arrival) (rw s refl) in
            let wrote : fire_join noted_db task target frame outer now ≡ sent = cc in
            subst (Sent db task t frames now) wrote (fired_join target frame outer (ground arith))
      ]
]

pub send-Sent :
    (nodes : Dict Node) (db sent : Db) (task : TaskRow) (t : Transition) (frames : List BranchFrame)
    (now : ℕ)
    → send nodes db task t frames now ≡ ok sent
    → Sent db task t frames now sent
unfolding send
send-Sent nodes db sent task t frames now h = elim (Option-cases (lookup t.target nodes)) [
  | inl e ↦
      let stops : send nodes db task t frames now ≡ raised (key t.target) = rw (e, send) refl in cc
  | inr (target, e) ↦ elim (Bool-cases target.join) [
    | inl j ↦
        let read : send nodes db task t frames now ≡ record_arrival db task target t frames now =
          rw (e, send) (rw j refl) in
        record_arrival-Sent db sent task target t frames now (sym read ∙ h)
    | inr j ↦
        let read : send nodes db task t frames now
            ≡ ok (enqueue_transition db task target t frames now) =
          rw (e, send) (rw j refl) in
        let wrote : enqueue_transition db task target t frames now ≡ sent = cc in
        subst (Sent db task t frames now) wrote (queued target)
  ]
]

-- What every transition keeps, the loop keeps.
pub send_all_keeps {ℓ} :
    (P : Db → Type ℓ) (task : TaskRow) (now : ℕ)
    → ((db sent : Db) (t : Transition) (frames : List BranchFrame)
        → Sent db task t frames now sent
        → P db
        → P sent)
    → (nodes : Dict Node) (db sent : Db) (ts : List Transition) (index count : ℕ)
      (fanning_out : Bool)
    → send_all nodes db task ts index count fanning_out now ≡ ok sent
    → P db
    → P sent
unfolding send_all
send_all_keeps P task now keep nodes db sent [] index count fanning_out h p =
    let same : db ≡ sent = cc in subst P same p
send_all_keeps P task now keep nodes db sent (t ∷ ts) index count fanning_out h p =
    let frames = child_frames task t index count fanning_out in
    elim (Result-cases (send nodes db task t frames now)) [
      | inl (mid, e) ↦
          send_all_keeps P task now keep nodes mid sent ts (index + 1) count fanning_out (rw e at h)
            (keep db mid t frames (send-Sent nodes db mid task t frames now e) p)
      | inr (x, e) ↦ let bad = rw e at h in cc
    ]

-- ===== src/Events/Isolation.antt =====
-- One reader of the bus of athanore/events/bus.py does not touch what another is told.
use athanore.Prelude.{
  ℕ, ◌≡◌, refl, sym, ◌∙◌, ap, inl, inr, Bool, true, false, some, List, [], ◌∷◌, filter, get_elem?,
  eqb, Bool-cases,
}
use athanore.Events.{
  Globs, Subscription, EventBus, new_bus, BusCall, subscribes, publishes, closes, gets, serve,
  serve_all,
}
use athanore.Events.Registered.{Registers, serve-Registers, serve_all-Registers, new_bus-Registers}
use athanore.Events.Complete.{seen, serve-seen}

-- The call is a publication, or of this subscription's own reader.
abbrev pub concerns : ℕ → BusCall → Bool
concerns i (subscribes patterns maxsize) = false
concerns i (publishes e) = true
concerns i (closes j) = eqb j i
concerns i (gets j) = eqb j i

abbrev seen_all : Globs → ℕ → Subscription → List BusCall → Subscription
seen_all g i s [] = s
seen_all g i s (c ∷ cs) = seen_all g i (seen g i s c) cs

serve_all-seen :
    (g : Globs) (i : ℕ) (b : EventBus) (cs : List BusCall) (s : Subscription)
    → Registers b
    → get_elem? b.objects i ≡ some s
    → get_elem? (serve_all g b cs).objects i ≡ some (seen_all g i s cs)
unfolding serve_all
serve_all-seen g i b [] s registers here = here
serve_all-seen g i b (c ∷ cs) s registers here =
    serve_all-seen g i (serve g b c) cs (seen g i s c) (serve-Registers g b c registers)
      (serve-seen g b c i s registers here)

seen-other :
    (g : Globs) (i : ℕ) (s : Subscription) (c : BusCall) → concerns i c ≡ false → seen g i s c ≡ s
seen-other g i s (subscribes patterns maxsize) h = refl
seen-other g i s (publishes e) h = cc
seen-other g i s (closes j) h = rw h refl
seen-other g i s (gets j) h = rw h refl

seen_all-filter :
    (g : Globs) (i : ℕ) (s : Subscription) (cs : List BusCall)
    → seen_all g i s cs ≡ seen_all g i s (filter (concerns i) cs)
seen_all-filter g i s [] = refl
seen_all-filter g i s (c ∷ cs) = elim (Bool-cases (concerns i c)) [
  | inl e ↦ rw e (seen_all-filter g i (seen g i s c) cs)
  | inr e ↦ rw e (ap (λ t. seen_all g i t cs) (seen-other g i s c e) ∙ seen_all-filter g i s cs)
]

-- For a subscription that is there after any history of calls on a fresh bus: if two ways to go on
-- have the same publications and the same calls of its own reader in the same order, then it is in
-- the same state after both, whatever the other subscribers do in between: one that has stalled,
-- overflowed, closed or come later makes no difference to it.
pub serve_all-isolated :
    (g : Globs) (past calls other : List BusCall) (i : ℕ) (s : Subscription)
    → let b = serve_all g new_bus past in
      get_elem? b.objects i ≡ some s
      → filter (concerns i) calls ≡ filter (concerns i) other
      → get_elem? (serve_all g b calls).objects i ≡ get_elem? (serve_all g b other).objects i
serve_all-isolated g past calls other i s here same =
    let b = serve_all g new_bus past in
    let registers = serve_all-Registers g new_bus past new_bus-Registers in
    serve_all-seen g i b calls s registers here
    ∙ ap some
        (seen_all-filter g i s calls ∙ ap (seen_all g i s) same ∙ sym (seen_all-filter g i s other))
    ∙ sym (serve_all-seen g i b other s registers here)

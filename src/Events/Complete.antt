-- ===== src/Events/Complete.antt =====
-- What a reader of the bus of athanore/events/bus.py is told: a stream without a hole, unless its
-- subscription says that it has overflowed.
use athanore.Prelude.{
  ℕ, ◌≡◌, refl, sym, ◌∙◌, ap, ap₂, inl, inr, ◌||◌, ◌⊎◌, not, Bool, true, false, Option, none, some,
  List, [], ◌∷◌, ◌++◌, String, get_elem?, get_elem?-concat, lt-length_of_get_elem?, eqb, Bool-cases,
  arith, if◌then◌else◌,
}
use athanore.Events.{
  Globs, Event, Subscription, EventBus, new_bus, change_at, is_full, offer, selects, is_open,
  mark_closed, close, pop, front, rest_of, get_next, front_of, BusCall, subscribes, publishes,
  closes, gets, serve, serve_all,
}
use athanore.Events.Registered.{
  Registers, get_elem?-change_at, changed, close_open, publish-get_elem?, serve-Registers,
  serve_all-Registers, new_bus-Registers,
}

-- The events of the calls that a subscription selects, until it is closed.
abbrev pub sent : Globs → ℕ → Option (List String) → Bool → List BusCall → List Event
sent g i patterns closed [] = []
sent g i patterns closed (subscribes p m ∷ cs) = sent g i patterns closed cs
sent g i patterns closed (publishes e ∷ cs) =
    let rest = sent g i patterns closed cs in
    if closed || not (selects g patterns e.name) then rest else e ∷ rest
sent g i patterns closed (closes j ∷ cs) = sent g i patterns (closed || eqb j i) cs
sent g i patterns closed (gets j ∷ cs) = sent g i patterns closed cs

abbrev pub prepend : Option Event → List Event → List Event
prepend none rest = rest
prepend (some e) rest = e ∷ rest

-- What a call adds to what the reader of the subscription is told.
abbrev pub answered : ℕ → EventBus → BusCall → List Event → List Event
answered i b (gets j) rest = if eqb j i then prepend (get_next b j).1 rest else rest
answered i b (subscribes p m) rest = rest
answered i b (publishes e) rest = rest
answered i b (closes j) rest = rest

-- What the reader of a subscription gets in the course of the calls.
abbrev pub taken : Globs → ℕ → EventBus → List BusCall → List Event
taken g i b [] = []
taken g i b (c ∷ cs) = answered i b c (taken g i (serve g b c) cs)

answered-append :
    (i : ℕ) (b : EventBus) (c : BusCall) (rest queue : List Event)
    → answered i b c rest ++ queue ≡ answered i b c (rest ++ queue)
answered-append i b (subscribes p m) rest queue = refl
answered-append i b (publishes e) rest queue = refl
answered-append i b (closes j) rest queue = refl
answered-append i b (gets j) rest queue = go (eqb j i) (get_next b j).1
  where
    go :
        (same : Bool) (e : Option Event)
        → (if same then prepend e rest else rest) ++ queue
          ≡ (if same then prepend e (rest ++ queue) else rest ++ queue)
    go true none = refl
    go true (some e) = refl
    go false e = refl

-- A call, as one subscription sees it.
abbrev pub seen : Globs → ℕ → Subscription → BusCall → Subscription
seen g i s (subscribes p m) = s
seen g i s (publishes e) = offer g e s
seen g i s (closes j) = if eqb j i then mark_closed s else s
seen g i s (gets j) = if eqb j i then pop s else s

changed_if :
    (f : Subscription → Subscription) (b : Bool) (s : Subscription)
    → (if b then changed f (some s) else some s) ≡ some (if b then f s else s)
changed_if f true s = refl
changed_if f false s = refl

changed_at :
    (f : Subscription → Subscription) (objects : List Subscription) (j i : ℕ) (s : Subscription)
    → get_elem? objects i ≡ some s
    → get_elem? (change_at f objects j) i ≡ some (if eqb j i then f s else s)
changed_at f objects j i s here =
    get_elem?-change_at f objects j i
    ∙ ap (λ o. if eqb j i then changed f o else o) here
    ∙ changed_if f (eqb j i) s

subscribe-seen :
    (objects : List Subscription) (new s : Subscription) (i : ℕ)
    → get_elem? objects i ≡ some s
    → get_elem? (objects ++ new ∷ []) i ≡ some s
subscribe-seen objects new s i here =
    get_elem?-concat objects new i ∙ ground (arith, lt-length_of_get_elem? objects i s here)

shut_same : (s : Subscription) → is_open (some s) ≡ false → mark_closed s ≡ s
shut_same s h = ground arith

close-seen :
    (b : EventBus) (j i : ℕ) (s : Subscription)
    → Registers b
    → get_elem? b.objects i ≡ some s
    → (after : EventBus) × (close b j ≡ some after)
      × (get_elem? after.objects i ≡ some (if eqb j i then mark_closed s else s))
unfolding close
close-seen b j i s registers here = elim (Bool-cases (is_open (get_elem? b.objects j))) [
  | inl still ↦
      let (rest, closed, counts) = close_open b j registers still in
      (_, closed, changed_at mark_closed b.objects j i s here)
  | inr shut ↦ (
    b,
    rw shut refl,
    elim (Bool-cases (eqb j i)) [
      | inl same ↦
          let equal : j ≡ i = ground arith in
          let gone : is_open (some s) ≡ false =
            ap is_open (sym here) ∙ ap (λ k. is_open (get_elem? b.objects k)) (sym equal) ∙ shut in
          here ∙ rw same (ap some (sym (shut_same s gone)))
      | inr other ↦ here ∙ rw other refl
    ],
  )
]

pub serve-seen :
    (g : Globs) (b : EventBus) (c : BusCall) (i : ℕ) (s : Subscription)
    → Registers b
    → get_elem? b.objects i ≡ some s
    → get_elem? (serve g b c).objects i ≡ some (seen g i s c)
unfolding serve
serve-seen g b (subscribes p m) i s registers here = subscribe-seen b.objects _ s i here
serve-seen g b (publishes e) i s registers here =
    publish-get_elem? g b e i registers ∙ ap (changed (offer g e)) here
serve-seen g b (closes j) i s registers here =
    let (after, closed, there) = close-seen b j i s registers here in rw closed there
serve-seen g b (gets j) i s registers here = changed_at pop b.objects j i s here

-- The bus does not offer the event to the subscription.
abbrev skips : Globs → Event → Subscription → Bool
skips g e s = s.closed || not (selects g s.patterns e.name)

offer-cases :
    (g : Globs) (e : Event) (s : Subscription)
    → ((skips g e s ≡ true) × (offer g e s ≡ s))
      ⊎ ((offer g e s).overflowed ≡ true)
      ⊎ ((skips g e s ≡ false) × (offer g e s ≡ record s { queue = s.queue ++ e ∷ [] }))
offer-cases g e s = elim (Bool-cases (skips g e s)) [
  | inl skip ↦ inl (skip, rw skip refl)
  | inr meant ↦ elim (Bool-cases (is_full s)) [
    | inl full ↦ inr (inl (rw (meant, full) refl))
    | inr room ↦ inr (inr (meant, rw (meant, room) refl))
  ]
]

mark_closed-same :
    (b : Bool) (s : Subscription)
    → let t = if b then mark_closed s else s in
      (t.queue ≡ s.queue)
      × (t.patterns ≡ s.patterns)
      × (t.overflowed ≡ s.overflowed)
      × (t.closed ≡ (s.closed || b))
mark_closed-same true s = ground arith
mark_closed-same false s = ground arith

append-one :
    (queue : List Event) (e : Event) (rest : List Event)
    → (queue ++ e ∷ []) ++ rest ≡ queue ++ e ∷ rest
append-one [] e rest = refl
append-one (d ∷ queue) e rest = ap (λ q. d ∷ q) (append-one queue e rest)

prepend-front :
    (queue rest : List Event) → prepend (front queue) (rest_of queue ++ rest) ≡ queue ++ rest
prepend-front [] rest = refl
prepend-front (e ∷ queue) rest = refl

-- What is still to come for a subscription: its queue, and what the calls send it.
abbrev to_come : Globs → ℕ → Subscription → List BusCall → List Event
to_come g i s cs = s.queue ++ sent g i s.patterns s.closed cs

-- Before a call nothing was lost, if nothing is after it, and the call keeps the stream.
continues :
    (g : Globs) (i : ℕ) (s : Subscription) (c : BusCall) (b : EventBus) (cs : List BusCall)
    (tail : List Event)
    → get_elem? b.objects i ≡ some s
    → tail ≡ to_come g i (seen g i s c) cs
    → (seen g i s c).overflowed ≡ false
    → (s.overflowed ≡ false) × (answered i b c tail ≡ to_come g i s (c ∷ cs))
continues g i s (subscribes p m) b cs tail here stream clean = (clean, stream)
continues g i s (publishes e) b cs tail here stream clean = elim (offer-cases g e s) [
  | inl (skip, same) ↦ (
    sym (ap (λ (t : Subscription). t.overflowed) same) ∙ clean,
    stream ∙ ap (λ t. to_come g i t cs) same ∙ rw skip refl,
  )
  | inr (inl full) ↦ cc
  | inr (inr (meant, put)) ↦ (
    sym (ap (λ (t : Subscription). t.overflowed) put) ∙ clean,
    stream
        ∙ ap (λ t. to_come g i t cs) put
        ∙ append-one s.queue e (sent g i s.patterns s.closed cs)
        ∙ rw meant refl,
  )
]
continues g i s (closes j) b cs tail here stream clean =
    let (queue, patterns, overflowed, closed) = mark_closed-same (eqb j i) s in
    (
      sym overflowed ∙ clean,
      stream ∙ ap₂ (λ q rest. q ++ rest) queue (ap₂ (λ p shut. sent g i p shut cs) patterns closed),
    )
continues g i s (gets j) b cs tail here stream clean = elim (Bool-cases (eqb j i)) [
  | inl same ↦
      let equal : j ≡ i = ground arith in
      let popped : seen g i s (gets j) ≡ pop s = rw same refl in
      let first : front_of (get_elem? b.objects j) ≡ front s.queue =
        ap (λ k. front_of (get_elem? b.objects k)) equal ∙ ap front_of here in
      (
        sym (ap (λ (t : Subscription). t.overflowed) popped) ∙ clean,
        rw same (
            ap₂ prepend first (stream ∙ ap (λ t. to_come g i t cs) popped)
            ∙ prepend-front s.queue (sent g i s.patterns s.closed cs)),
      )
  | inr other ↦
      let kept : seen g i s (gets j) ≡ s = rw other refl in
      (
        sym (ap (λ (t : Subscription). t.overflowed) kept) ∙ clean,
        rw other (stream ∙ ap (λ t. to_come g i t cs) kept),
      )
]

append-nil : (queue : List Event) → queue ++ [] ≡ queue
append-nil [] = refl
append-nil (e ∷ queue) = ap (λ q. e ∷ q) (append-nil queue)

some_injective : {s t : Subscription} → some s ≡ some t → s ≡ t
some_injective p = cc

follow :
    (g : Globs) (i : ℕ) (cs : List BusCall) (b : EventBus) (s t : Subscription)
    → Registers b
    → get_elem? b.objects i ≡ some s
    → get_elem? (serve_all g b cs).objects i ≡ some t
    → t.overflowed ≡ false
    → (s.overflowed ≡ false) × (taken g i b cs ++ t.queue ≡ to_come g i s cs)
unfolding serve_all
follow g i [] b s t registers here there clean =
    let same : t ≡ s = some_injective (sym there ∙ here) in
    (
      sym (ap (λ (t : Subscription). t.overflowed) same) ∙ clean,
      ap (λ (t : Subscription). t.queue) same ∙ sym (append-nil s.queue),
    )
follow g i (c ∷ cs) b s t registers here there clean =
    let (fine, stream) =
      follow g i cs (serve g b c) (seen g i s c) t (serve-Registers g b c registers)
        (serve-seen g b c i s registers here) there clean in
    let (before, told) =
      continues g i s c b cs (taken g i (serve g b c) cs ++ t.queue) here stream fine in
    (before, answered-append i b c _ _ ∙ told)

-- For a subscription that is there after any history of calls on a fresh bus, and however the
-- history goes on: if it has not overflowed in the end, then what its reader gets from then on,
-- followed by what is left in its queue, is what was in the queue, followed by each event that is
-- published, that its patterns select, until it is closed: in their order, each once.
pub serve_all-taken :
    (g : Globs) (past calls : List BusCall) (i : ℕ) (s t : Subscription)
    → let b = serve_all g new_bus past in
      get_elem? b.objects i ≡ some s
      → get_elem? (serve_all g b calls).objects i ≡ some t
      → t.overflowed ≡ false
      → taken g i b calls ++ t.queue ≡ s.queue ++ sent g i s.patterns s.closed calls
serve_all-taken g past calls i s t here there clean =
    (follow g i calls (serve_all g new_bus past) s t
      (serve_all-Registers g new_bus past new_bus-Registers) here there clean).1

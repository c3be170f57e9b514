-- ===== src/Events/Registered.antt =====
-- What the bus of athanore/events/bus.py has registered, and `close`.
use athanore.Prelude.{
  ℕ, zero, suc, String, ◌+◌, ◌≡◌, refl, sym, ◌∙◌, ap, ap₂, lt-length_of_get_elem?, inl, inr, Bool,
  true, false, Option, none, some, List, [], ◌∷◌, ◌++◌, length, get_elem?, get_elem?-concat, eqb,
  Bool-cases, Option-cases, arith, if◌then◌else◌,
}
use athanore.Events.{
  Globs, Event, Subscription, EventBus, new_bus, change_at, subscribe, offer, publish_each, publish,
  remove_from, is_open, mark_closed, close, pop, BusCall, subscribes, publishes, closes, gets,
  serve, serve_all,
}

abbrev pub changed : (Subscription → Subscription) → Option Subscription → Option Subscription
changed f none = none
changed f (some s) = some (f s)

pub get_elem?-change_at :
    (f : Subscription → Subscription) (objects : List Subscription) (j i : ℕ)
    → get_elem? (change_at f objects j) i
      ≡ (if eqb j i then changed f (get_elem? objects i) else get_elem? objects i)
get_elem?-change_at f [] j i = ground arith
get_elem?-change_at f (s ∷ objects) zero zero = ground arith
get_elem?-change_at f (s ∷ objects) zero (suc i) = ground arith
get_elem?-change_at f (s ∷ objects) (suc j) zero = ground arith
get_elem?-change_at f (s ∷ objects) (suc j) (suc i) =
    ground (arith, get_elem?-change_at f objects j i)

abbrev pub count : ℕ → List ℕ → ℕ
count i [] = 0
count i (j ∷ js) = let rest = count i js in if eqb j i then suc rest else rest

abbrev pub one_if : Bool → ℕ
one_if true = 1
one_if false = 0

-- The bus has each open subscription once, and no other.
abbrev pub Registers : EventBus → Type 0
Registers b = (i : ℕ) → count i b.subscriptions ≡ one_if (is_open (get_elem? b.objects i))

count-append :
    (i : ℕ) (js : List ℕ) (k : ℕ) → count i (js ++ k ∷ []) ≡ count i js + one_if (eqb k i)
count-append i [] k = ground arith
count-append i (j ∷ js) k = ground (arith, count-append i js k)

pub publish_each-none :
    (g : Globs) (e : Event) (objects : List Subscription) (js : List ℕ) (i : ℕ)
    → count i js ≡ 0
    → get_elem? (publish_each g e objects js) i ≡ get_elem? objects i
publish_each-none g e objects [] i h = refl
publish_each-none g e objects (j ∷ js) i h = elim (Bool-cases (eqb j i)) [
  | inl same ↦ ground arith
  | inr other ↦
      publish_each-none g e (change_at (offer g e) objects j) js i (ground arith)
      ∙ get_elem?-change_at (offer g e) objects j i
      ∙ rw other refl
]

pub publish_each-one :
    (g : Globs) (e : Event) (objects : List Subscription) (js : List ℕ) (i : ℕ)
    → count i js ≡ 1
    → get_elem? (publish_each g e objects js) i ≡ changed (offer g e) (get_elem? objects i)
publish_each-one g e objects [] i h = ground arith
publish_each-one g e objects (j ∷ js) i h = elim (Bool-cases (eqb j i)) [
  | inl same ↦
      publish_each-none g e (change_at (offer g e) objects j) js i (ground arith)
      ∙ get_elem?-change_at (offer g e) objects j i
      ∙ rw same refl
  | inr other ↦
      publish_each-one g e (change_at (offer g e) objects j) js i (ground arith)
      ∙ ap (changed (offer g e)) (get_elem?-change_at (offer g e) objects j i ∙ rw other refl)
]

offer-closed : (g : Globs) (e : Event) (s : Subscription) → s.closed ≡ true → offer g e s ≡ s
offer-closed g e s h = rw h refl

-- A publication reaches every subscription once: an open one by its place in the list, and a
-- closed one would not be changed.
pub publish-get_elem? :
    (g : Globs) (b : EventBus) (e : Event) (i : ℕ)
    → Registers b
    → get_elem? (publish g b e).objects i ≡ changed (offer g e) (get_elem? b.objects i)
unfolding publish
publish-get_elem? g b e i registers = elim (Option-cases (get_elem? b.objects i)) [
  | inl gone ↦
      publish_each-none g e b.objects b.subscriptions i (registers i ∙ rw gone refl)
      ∙ gone
      ∙ sym (ap (changed (offer g e)) gone)
  | inr (s, here) ↦ elim (Bool-cases s.closed) [
    | inl shut ↦
        publish_each-none g e b.objects b.subscriptions i (registers i ∙ rw (here, shut) refl)
        ∙ here
        ∙ sym (ap (changed (offer g e)) here ∙ ap some (offer-closed g e s shut))
    | inr still ↦
        publish_each-one g e b.objects b.subscriptions i (registers i ∙ rw (here, still) refl)
  ]
]

is_open-changed :
    (f : Subscription → Subscription) (o : Option Subscription)
    → ((s : Subscription) → (f s).closed ≡ s.closed)
    → is_open (changed f o) ≡ is_open o
is_open-changed f none keeps = refl
is_open-changed f (some s) keeps = rw (keeps s) refl

offer-keeps : (g : Globs) (e : Event) (s : Subscription) → (offer g e s).closed ≡ s.closed
offer-keeps g e s = ground arith

pub remove_from-count :
    (i : ℕ) (js : List ℕ)
    → count i js ≡ 1
    → (rest : List ℕ) × (remove_from i js ≡ some rest)
      × ((k : ℕ) → count k rest ≡ (if eqb i k then 0 else count k js))
remove_from-count i [] h = ground arith
remove_from-count i (j ∷ js) h = elim (Bool-cases (eqb j i)) [
  | inl same ↦ (js, rw same refl, λ k. ground (arith, λ (e : i ≡ k). ap (λ x. count x js) e))
  | inr other ↦
      let (rest, removed, counts) = remove_from-count i js (ground arith) in
      (j ∷ rest, rw (other, removed) refl, λ k. ground (arith, counts k))
]

mark_closed-shut : (o : Option Subscription) → is_open (changed mark_closed o) ≡ false
mark_closed-shut none = refl
mark_closed-shut (some s) = ground arith

shut_if :
    (b : Bool) (o : Option Subscription)
    → is_open (if b then changed mark_closed o else o) ≡ (if b then false else is_open o)
shut_if true o = mark_closed-shut o
shut_if false o = refl

shut_at :
    (objects : List Subscription) (i k : ℕ)
    → is_open (get_elem? (change_at mark_closed objects i) k)
      ≡ (if eqb i k then false else is_open (get_elem? objects k))
shut_at objects i k =
    ap is_open (get_elem?-change_at mark_closed objects i k)
    ∙ shut_if (eqb i k) (get_elem? objects k)

popped_if :
    (b : Bool) (o : Option Subscription) → is_open (if b then changed pop o else o) ≡ is_open o
popped_if true none = refl
popped_if true (some s) = refl
popped_if false o = refl

-- A subscription that is open is closed and taken out of the list.
pub close_open :
    (b : EventBus) (i : ℕ)
    → Registers b
    → is_open (get_elem? b.objects i) ≡ true
    → (rest : List ℕ) × (close b i
        ≡ some (record { objects = change_at mark_closed b.objects i; subscriptions = rest }))
      × ((k : ℕ) → count k rest ≡ (if eqb i k then 0 else count k b.subscriptions))
unfolding close
close_open b i registers still =
    let (rest, removed, counts) =
      remove_from-count i b.subscriptions (registers i ∙ ap one_if still) in
    (rest, rw (still, removed) refl, counts)

close-Registers :
    (b : EventBus) (i : ℕ)
    → Registers b
    → (after : EventBus) × (close b i ≡ some after)
      × Registers after
      × (count i after.subscriptions ≡ 0)
      × (is_open (get_elem? after.objects i) ≡ false)
unfolding close
close-Registers b i registers = elim (Bool-cases (is_open (get_elem? b.objects i))) [
  | inl still ↦
      let (rest, closed, counts) = close_open b i registers still in
      (
        _,
        closed,
        λ k. ground (arith, counts k, registers k, shut_at b.objects i k),
        ground (arith, counts i),
        ground (arith, shut_at b.objects i i),
      )
  | inr shut ↦ (b, rw shut refl, registers, registers i ∙ ap one_if shut, shut)
]

added_if :
    (b : Bool) (s : Subscription) (o : Option Subscription)
    → s.closed ≡ false
    → (b ≡ true → o ≡ none)
    → one_if (is_open o) + one_if b ≡ one_if (is_open (if b then some s else o))
added_if true s o new gone = rw (gone refl, new) refl
added_if false s o new gone = omega arith

get_elem?-past :
    (objects : List Subscription) (i : ℕ)
    → eqb i (length objects) ≡ true
    → get_elem? objects i ≡ none
get_elem?-past objects i h = elim (Option-cases (get_elem? objects i)) [
  | inl gone ↦ gone
  | inr (s, here) ↦ ground (arith, lt-length_of_get_elem? objects i s here)
]

eqb_comm : (a b : ℕ) → eqb a b ≡ eqb b a
eqb_comm a b = ground arith

subscribe-Registers :
    (b : EventBus) (patterns : Option (List String)) (maxsize : ℕ)
    → Registers b
    → Registers (subscribe b patterns maxsize).0
subscribe-Registers b patterns maxsize registers i =
    let s : Subscription = record {
      patterns = patterns;
      maxsize = maxsize;
      queue = [];
      overflowed = false;
      closed = false;
    } in
    count-append i b.subscriptions (length b.objects)
    ∙ ap₂ (λ m n. m + n) (registers i) (ap one_if (eqb_comm (length b.objects) i))
    ∙ added_if (eqb i (length b.objects)) s (get_elem? b.objects i) refl
        (get_elem?-past b.objects i)
    ∙ ap (λ o. one_if (is_open o)) (sym (get_elem?-concat b.objects s i))

pub serve-Registers :
    (g : Globs) (b : EventBus) (c : BusCall) → Registers b → Registers (serve g b c)
unfolding serve
serve-Registers g b (subscribes patterns maxsize) registers =
    subscribe-Registers b patterns maxsize registers
serve-Registers g b (publishes e) registers = λ i.
    registers i
    ∙ ap one_if (
        sym (is_open-changed (offer g e) (get_elem? b.objects i) (offer-keeps g e))
        ∙ sym (ap is_open (publish-get_elem? g b e i registers)))
serve-Registers g b (closes i) registers =
    let (after, closed, still, _, _) = close-Registers b i registers in rw closed still
serve-Registers g b (gets j) registers = λ i.
    registers i
    ∙ ap one_if (
        sym (
          ap is_open (get_elem?-change_at pop b.objects j i)
          ∙ popped_if (eqb j i) (get_elem? b.objects i)))

pub serve_all-Registers :
    (g : Globs) (b : EventBus) (cs : List BusCall) → Registers b → Registers (serve_all g b cs)
unfolding serve_all
serve_all-Registers g b [] registers = registers
serve_all-Registers g b (c ∷ cs) registers =
    serve_all-Registers g (serve g b c) cs (serve-Registers g b c registers)

pub new_bus-Registers : Registers new_bus
new_bus-Registers i = refl

-- After any history of calls on a fresh bus, `close` never raises the `ValueError` of a subscription
-- that is not in the list: the bus does not have the subscription afterwards, and a second `close`
-- of it changes nothing.
pub close_twice :
    (g : Globs) (cs : List BusCall) (i : ℕ)
    → let b = serve_all g new_bus cs in
      (after : EventBus) × (close b i ≡ some after)
      × (count i after.subscriptions ≡ 0)
      × (close after i ≡ some after)
unfolding close
close_twice g cs i =
    let b = serve_all g new_bus cs in
    let (after, closed, _, out, shut) =
      close-Registers b i (serve_all-Registers g new_bus cs new_bus-Registers) in
    (after, closed, out, rw shut refl)

-- ===== src/Graph/Builder/Built.antt =====
-- The builders that `GraphBuilder.node` (athanore/graph/builder.py) can leave.
use mathlib.Core.List.Memᴰ
use athanore.Prelude.{
  ◌≡◌, refl, subst, sym, ap, ◌∙◌, mem-filter, inl, inr, ◌↔◌, String, true, false, Option, none,
  some, List, [], ◌∷◌, filter, Memᴰ, arith, if◌then◌else◌, ◌==◌, eq_iff, eq_refl, Bool-cases,
}
use athanore.Prelude.Dict.{
  Dict, lookup, insert, contains, values, lookup-insert, mem-values_of_lookup,
}
use athanore.Graph.{Result, ok, raised, ◌>>=◌, duplicate, Function, Node}
use athanore.Graph.Signature.{parse_signature}
use athanore.Graph.Builder.{GraphBuilder, new_builder, NodeOptions, make_node, add_node, starts}

pub data Built (name : String) : GraphBuilder → Type 0 where
  empty : Built name (new_builder name)
  added :
      {b c : GraphBuilder} (o : NodeOptions) (fn : Function)
      → Built name b
      → add_node b o fn ≡ ok c
      → Built name c

-- Every key is there once and is its node's name.
abbrev pub WellNamed : Dict Node → Type 0
WellNamed [] = Unit
WellNamed ((k, n) ∷ d) = (n.name ≡ k) × (lookup k d ≡ none) × WellNamed d

insert-WellNamed :
    (k : String) (n : Node) (d : Dict Node)
    → n.name ≡ k
    → lookup k d ≡ none
    → WellNamed d
    → WellNamed (insert k n d)
unfolding insert lookup
insert-WellNamed k n [] e absent w = (e, refl, tt)
insert-WellNamed k n ((j, m) ∷ d) e absent w =
    ground (arith, insert-WellNamed k n d e, lookup-insert k j n d, eq_iff k j, eq_iff j k)

added_node :
    (b : GraphBuilder) (o : NodeOptions) (fn : Function) (c : GraphBuilder)
    (r : Result (List String × Option String))
    → (if contains fn.name b.nodes then raised (duplicate fn.name) else do
      parsed ← r
      ok (record b { nodes = insert fn.name (make_node o fn parsed) b.nodes }))
      ≡ ok c
    → (lookup fn.name b.nodes ≡ none)
      × ((p : List String × Option String) × (c
            ≡ record b { nodes = insert fn.name (make_node o fn p) b.nodes }))
added_node b o fn c (ok p) h = (ground arith, (p, ground arith))
added_node b o fn c (raised e) h = absurd (ground arith)

add_node-WellNamed :
    (b : GraphBuilder) (o : NodeOptions) (fn : Function) (c : GraphBuilder)
    → add_node b o fn ≡ ok c
    → WellNamed b.nodes
    → WellNamed c.nodes
unfolding add_node
add_node-WellNamed b o fn c h w =
    let (absent, (p, e)) = added_node b o fn c (parse_signature fn) h in
    subst (λ x. WellNamed x.nodes) (sym e)
      (insert-WellNamed fn.name (make_node o fn p) b.nodes refl absent w)

-- However the decorator was applied, each key of the nodes is there once and is the name of its
-- node.
pub Built-WellNamed : {name : String} {b : GraphBuilder} → Built name b → WellNamed b.nodes
unfolding new_builder
Built-WellNamed empty = tt
Built-WellNamed (added {b} {c} o fn built h) = add_node-WellNamed b o fn c h (Built-WellNamed built)

pub lookup_of_mem-values :
    (d : Dict Node) (n : Node) → WellNamed d → Memᴰ n (values d) → lookup n.name d ≡ some n
unfolding lookup
lookup_of_mem-values [] n w m = absurd (Memᴰ.not-nil m)
lookup_of_mem-values ((k, x) ∷ d) n w (Memᴰ.head e) =
    ground (arith, eq_iff k n.name, ap (λ (m : Node). m.name) e)
lookup_of_mem-values ((k, x) ∷ d) n w (Memᴰ.tail m) =
    ground (arith, eq_iff k n.name, lookup_of_mem-values d n w.2 m)

-- The one start of a builder, by lookups.
pub record OnlyStart (d : Dict Node) (s : String) : Type 0 where
  pub there : contains s d ≡ true
  pub marked : (k : String) (n : Node) → lookup k d ≡ some n → (n.start ≡ true) ↔ (k ≡ s)

mem-starts :
    (d : Dict Node) (s : String)
    → WellNamed d
    → Memᴰ s (starts d)
    → (n : Node) × (lookup s d ≡ some n) × (n.start ≡ true)
mem-starts d s w m =
    let (n, m', e) = Memᴰ.of_map (λ (n : Node). n.name) (filter (λ n. n.start) (values d)) m in
    let (there, is_start) = (mem-filter (λ n. n.start) n (values d)).0 m' in
    (n, subst (λ k. lookup k d ≡ some n) e (lookup_of_mem-values d n w there), is_start)

starts-mem :
    (d : Dict Node) (n : Node) (k : String)
    → WellNamed d
    → lookup k d ≡ some n
    → n.start ≡ true
    → Memᴰ n.name (starts d)
starts-mem d n k w at is_start =
    Memᴰ.map (λ (n : Node). n.name)
      ((mem-filter (λ n. n.start) n (values d)).1 (mem-values_of_lookup k d n at, is_start))

pub name_of_lookup :
    (d : Dict Node) (n : Node) (k : String) → WellNamed d → lookup k d ≡ some n → n.name ≡ k
unfolding lookup
name_of_lookup [] n k w h = cc
name_of_lookup ((j, x) ∷ d) n k w h = ground (arith, eq_iff j k, name_of_lookup d n k w.2)

no_starts :
    (d : Dict Node)
    → WellNamed d
    → ((k : String) (n : Node) → lookup k d ≡ some n → n.start ≡ false)
    → starts d ≡ []
unfolding lookup
no_starts [] w h = refl
no_starts ((k, x) ∷ d) w h =
    rw (h k x (simp eq_refl)) (no_starts d w.2 λ j n at. h j n (ground (arith, eq_iff k j)))

one_start : (d : Dict Node) (s : String) → WellNamed d → OnlyStart d s → starts d ≡ s ∷ []
unfolding lookup
one_start [] s w o = absurd (ground (arith, o.there))
one_start ((k, x) ∷ d) s w o = elim (Bool-cases x.start) [
  | inl is_start ↦
      let k_eq : k ≡ s = (o.marked k x (simp eq_refl)).0 is_start in
      let rest : starts d ≡ [] =
        no_starts d w.2 λ j n at. ground (arith, o.marked j n, eq_iff k j, eq_iff j k) in
      rw (is_start, rest, w.0, k_eq)
  | inr other ↦
      let differ : (k == s) ≡ false = ground (arith, o.marked k x, eq_iff k s, eq_refl k) in
      rw other (
        one_start d s w.2 (record {
          there = ground (arith, o.there);
          marked = λ j n at. ground (arith, o.marked j n, eq_iff k j, eq_iff k s);
        }))
]

-- The names of the marked nodes are one name exactly when that is the one node that is marked.
pub starts_iff : (d : Dict Node) (s : String) → WellNamed d → (starts d ≡ s ∷ []) ↔ OnlyStart d s
starts_iff d s w = (
  λ e.
      let (n, at, is_start) = mem-starts d s w (subst (Memᴰ s) (sym e) (Memᴰ.head refl)) in
      record {
        there = ground arith;
        marked = λ k m found. (
          λ marked.
              sym (name_of_lookup d m k w found)
              ∙ Memᴰ.eq_of_singleton (subst (Memᴰ m.name) e (starts-mem d m k w found marked)),
          λ same. let q : m ≡ n = cc in rw q is_start,
        );
      },
  one_start d s w,
)

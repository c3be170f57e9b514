-- ===== src/Pools/Registry/Bindings.antt =====
-- `PoolRegistry` of athanore/engine/pools.py keeps each workflow on one registered pool.
use athanore.Prelude.{
  ◌≡◌, refl, sym, ◌∙◌, subst, ◌↔◌, inl, inr, String, true, false, some, List, [], ◌∷◌, arith,
  eq_iff, Option-cases, Bool-cases, ◌==◌, if◌then◌else◌, member,
}
use athanore.Prelude.Dict.{Dict, lookup, insert, remove, contains, lookup-insert, lookup-remove}
use athanore.Pools.{Pool, PoolState, new_pool_state}
use athanore.Pools.Registry.{
  PoolRegistry, new_registry, done, add, bind, is_bound_elsewhere, unbind, rebind, get,
  for_workflow, bound_on, workflows_of, Change, adds, binds, rebinds, unbinds, kept, kept_alone,
  change, changes,
}

-- No key is written twice.
abbrev pub Unique {ℓ} : {A : Type ℓ} → Dict A → Type 0
Unique [] = Unit
Unique ((k, v) ∷ d) = (contains k d ≡ false) × Unique d

module _ {ℓ} {A : Type ℓ} where
  contains-insert :
      (k j : String) (v : A) (d : Dict A)
      → contains j (insert k v d) ≡ (if k == j then true else contains j d)
  contains-insert k j v d = ground (arith, lookup-insert k j v d)

  insert-Unique : (k : String) (v : A) (d : Dict A) → Unique d → Unique (insert k v d)
  unfolding insert lookup
  insert-Unique k v [] u = (refl, tt)
  insert-Unique k v ((j, w) ∷ d) u = elim (Bool-cases (j == k)) [
    | inl e ↦ rw e (ground (arith, eq_iff j k))
    | inr e ↦
        rw e
          (ground (arith, eq_iff j k, eq_iff k j, contains-insert k j v d), insert-Unique k v d u.1)
  ]

  remove-Unique : (k : String) (d : Dict A) → Unique d → Unique (remove k d)
  unfolding remove lookup
  remove-Unique k [] u = tt
  remove-Unique k ((j, w) ∷ d) u = elim (Bool-cases (j == k)) [
    | inl e ↦ rw e (remove-Unique k d u.1)
    | inr e ↦
        rw e (ground (arith, eq_iff j k, eq_iff k j, lookup-remove k j d), remove-Unique k d u.1)
  ]

-- Pools are filed by their names, no name is both a pool's and a workflow's, and each workflow is
-- bound to a pool that is there.
pub record IsRegistry (r : PoolRegistry) : Type 0 where
  pub filed : (n : String) (s : PoolState) → lookup n r.pools ≡ some s → s.pool.name ≡ n
  pub disjoint : (n : String) → contains n r.pools ≡ true → contains n r.bindings ≡ false
  pub bound : (w n : String) → lookup w r.bindings ≡ some n → contains n r.pools ≡ true
  pub unique : Unique r.bindings

bound_on-member :
    (p w : String) (d : Dict String)
    → Unique d
    → (member w (bound_on p d) ≡ true) ↔ (lookup w d ≡ some p)
unfolding bound_on lookup member
bound_on-member p w [] u = ground arith
bound_on-member p w ((v, b) ∷ d) u = ground (arith, eq_iff v w, eq_iff b p, bound_on-member p w d)

add-IsRegistry : (r : PoolRegistry) (p : Pool) → IsRegistry r → IsRegistry (change r (adds p))
unfolding change add new_pool_state
add-IsRegistry r p v = elim (Bool-cases (contains p.name r.pools)) [
  | inl e ↦ rw e v
  | inr e ↦ elim (Bool-cases (contains p.name r.bindings)) [
    | inl f ↦ rw (e, f) v
    | inr f ↦ rw e (
        rw f (record {
          filed = λ n s h. ground (
            arith,
            eq_iff p.name n,
            lookup-insert p.name n (new_pool_state p) r.pools,
            v.filed n s,
          );
          disjoint = λ n h. ground (
            arith,
            eq_iff p.name n,
            contains-insert p.name n (new_pool_state p) r.pools,
            v.disjoint n,
          );
          bound = λ w n h.
              ground (arith, contains-insert p.name n (new_pool_state p) r.pools, v.bound w n);
          unique = v.unique;
        }))
  ]
]

-- The registry with the workflow on the pool.
abbrev pub on : PoolRegistry → String → String → PoolRegistry
on r w p = record r { bindings = insert w p r.bindings }

on-IsRegistry :
    (r : PoolRegistry) (w p : String)
    → contains w r.pools ≡ false
    → contains p r.pools ≡ true
    → IsRegistry r
    → IsRegistry (on r w p)
on-IsRegistry r w p free there v = record {
  filed = v.filed;
  disjoint = λ n h. ground (arith, eq_iff w n, contains-insert w n p r.bindings, v.disjoint n);
  bound =
      λ u n h. ground (arith, eq_iff w u, eq_iff p n, lookup-insert w u p r.bindings, v.bound u n);
  unique = insert-Unique w p r.bindings v.unique;
}

bind-IsRegistry :
    (r : PoolRegistry) (w p : String) → IsRegistry r → IsRegistry (kept r (bind r w p))
unfolding bind
bind-IsRegistry r w p v = elim (Bool-cases (contains w r.pools)) [
  | inl e ↦ rw e v
  | inr e ↦ elim (Option-cases (lookup p r.pools)) [
    | inl f ↦ rw (e, f) v
    | inr (s, f) ↦ elim (Bool-cases (is_bound_elsewhere (lookup w r.bindings) p)) [
      | inl g ↦ rw e (rw f (rw g v))
      | inr g ↦ rw e (rw f (rw g (on-IsRegistry r w p e (ground arith) v)))
    ]
  ]
]

not_pool :
    (r : PoolRegistry) (w : String)
    → contains w r.bindings ≡ true
    → IsRegistry r
    → contains w r.pools ≡ false
not_pool r w e v = ground (arith, v.disjoint w)

rebind-IsRegistry :
    (r : PoolRegistry) (w p : String) → IsRegistry r → IsRegistry (kept r (rebind r w p))
unfolding rebind
rebind-IsRegistry r w p v = elim (Bool-cases (contains w r.bindings)) [
  | inr e ↦ rw e v
  | inl e ↦ elim (Option-cases (lookup p r.pools)) [
    | inl f ↦ rw (e, f) v
    | inr (s, f) ↦ rw e (rw f (on-IsRegistry r w p (not_pool r w e v) (ground arith) v))
  ]
]

unbind-IsRegistry :
    (r : PoolRegistry) (w : String) → IsRegistry r → IsRegistry (kept_alone r (unbind r w))
unfolding unbind
unbind-IsRegistry r w v = elim (Bool-cases (contains w r.bindings)) [
  | inr e ↦ rw e v
  | inl e ↦ rw e (record {
    filed = v.filed;
    disjoint = λ n h. ground (arith, eq_iff w n, lookup-remove w n r.bindings, v.disjoint n);
    bound = λ u n h. ground (arith, eq_iff w u, lookup-remove w u r.bindings, v.bound u n);
    unique = remove-Unique w r.bindings v.unique;
  })
]

change-IsRegistry : (r : PoolRegistry) (c : Change) → IsRegistry r → IsRegistry (change r c)
unfolding change
change-IsRegistry r (adds p) v = add-IsRegistry r p v
change-IsRegistry r (binds w p) v = bind-IsRegistry r w p v
change-IsRegistry r (rebinds w p) v = rebind-IsRegistry r w p v
change-IsRegistry r (unbinds w) v = unbind-IsRegistry r w v

changes_keep : (r : PoolRegistry) (cs : List Change) → IsRegistry r → IsRegistry (changes r cs)
unfolding changes
changes_keep r [] v = v
changes_keep r (c ∷ cs) v = changes_keep (change r c) cs (change-IsRegistry r c v)

-- After any history of additions, bindings, moves and removals of bindings, pools are filed by
-- their names, no name is both a pool's and a workflow's, each workflow is bound to a pool that is
-- there, and no workflow is listed twice.
pub changes-IsRegistry : (cs : List Change) → IsRegistry (changes new_registry cs)
unfolding new_registry lookup
changes-IsRegistry cs =
    changes_keep new_registry cs
      (record { filed = λ n s h. cc; disjoint = λ n h. refl; bound = λ w n h. cc; unique = tt })

get_iff :
    (r : PoolRegistry) (p : String) (s : PoolState)
    → (get r p ≡ done s) ↔ (lookup p r.pools ≡ some s)
unfolding get
get_iff r p s = elim (Option-cases (lookup p r.pools)) [
  | inl e ↦ rw e (λ h. cc, λ h. cc)
  | inr (t, e) ↦ rw e (λ h. cc, λ h. cc)
]

for_workflow_iff :
    (r : PoolRegistry) (w p : String) (s : PoolState)
    → IsRegistry r
    → get r p ≡ done s
    → (for_workflow r w ≡ done s) ↔ (lookup w r.bindings ≡ some p)
unfolding for_workflow
for_workflow_iff r w p s v h = elim (Option-cases (lookup w r.bindings)) [
  | inl e ↦ rw e (λ g. cc, λ g. cc)
  | inr (n, e) ↦
      let file = v.filed p s ((get_iff r p s).0 h) in
      let sends : for_workflow r w ≡ get r n = rw (e, for_workflow) refl in
      (
        λ g. let other = v.filed n s ((get_iff r n s).0 (sym sends ∙ g)) in cc,
        λ g. let same : n ≡ p = cc in sends ∙ subst (λ x. get r x ≡ done s) (sym same) h,
      )
]

-- In a registry whose pools are filed by their names and whose bindings name registered pools, each
-- workflow once, `workflows_of` lists, of a pool that is there, exactly the workflows that
-- `for_workflow` sends to it.
pub workflows_of-for_workflow :
    (r : PoolRegistry) (p w : String) (s : PoolState)
    → IsRegistry r
    → get r p ≡ done s
    → (ws : List String) × (workflows_of r p ≡ done ws)
      × ((member w ws ≡ true) ↔ (for_workflow r w ≡ done s))
unfolding workflows_of
workflows_of-for_workflow r p w s v h =
    let there = (get_iff r p s).0 h in
    let sent = for_workflow_iff r w p s v h in
    let listed = bound_on-member p w r.bindings v.unique in
    (bound_on p r.bindings, rw there refl, (λ m. sent.1 (listed.0 m), λ g. listed.1 (sent.0 g)))

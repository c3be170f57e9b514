-- ===== src/Pools/Registry.antt =====
-- athanore/engine/pools.py: `POOL_NAME`, `Pool.__post_init__` and `PoolRegistry`.
pub mod Bindings
use athanore.Prelude.{
  ℕ, zero, suc, ◌<◌, ◌≡◌, String, Bool, true, false, not, ◌&&◌, ◌||◌, Option, none, some, List, [],
  ◌∷◌, map, filter, ◌==◌, if◌then◌else◌,
}
use athanore.Prelude.Dict.{Dict, lookup, insert, remove, contains}
use athanore.Pools.{Pool, PoolState, new_pool_state}

pub record PoolRegistry : Type 0 where
  pub pools : Dict PoolState
  pub bindings : Dict String

unfoldable pub new_registry : PoolRegistry
new_registry = record { pools = []; bindings = [] }

-- What a message names: a `ValueError` clashes with the registry, a `KeyError` found nothing.
pub data Clash : Type 0 where
  already_registered names_workflow names_pool : String → Clash
  unknown_pool : String → String → Clash
  bound_to : String → String → String → Clash

pub data Missing : Type 0 where
  not_bound no_pool : String → Missing

pub data Attempt {ℓ} (Value : Type ℓ) : Type ℓ where
  done : Value → Attempt Value
  value_error : Clash → Attempt Value
  key_error : Missing → Attempt Value

unfoldable pub add : PoolRegistry → Pool → Attempt (PoolRegistry × PoolState)
add r pool =
    if contains pool.name r.pools
    then value_error (already_registered pool.name)
    else if contains pool.name r.bindings
    then value_error (names_workflow pool.name)
    else done
        (record r { pools = insert pool.name (new_pool_state pool) r.pools }, new_pool_state pool)

-- bound is not None and bound != pool_name
abbrev pub is_bound_elsewhere : Option String → String → Bool
is_bound_elsewhere none pool_name = false
is_bound_elsewhere (some bound) pool_name = not (bound == pool_name)

abbrev pub or_name : Option String → String
or_name none = ""
or_name (some name) = name

unfoldable pub bind : PoolRegistry → String → String → Attempt (PoolRegistry × PoolState)
bind r workflow pool_name =
    if contains workflow r.pools
    then value_error (names_pool workflow)
    else elim (lookup pool_name r.pools) [
      | none ↦ value_error (unknown_pool workflow pool_name)
      | some state ↦
          if is_bound_elsewhere (lookup workflow r.bindings) pool_name
          then value_error (bound_to workflow (or_name (lookup workflow r.bindings)) pool_name)
          else done (record r { bindings = insert workflow pool_name r.bindings }, state)
    ]

unfoldable pub unbind : PoolRegistry → String → Attempt PoolRegistry
unbind r workflow =
    if contains workflow r.bindings
    then done (record r { bindings = remove workflow r.bindings })
    else key_error (not_bound workflow)

unfoldable pub rebind : PoolRegistry → String → String → Attempt (PoolRegistry × PoolState)
rebind r workflow pool_name =
    if contains workflow r.bindings
    then elim (lookup pool_name r.pools) [
      | none ↦ key_error (no_pool pool_name)
      | some state ↦ done (record r { bindings = insert workflow pool_name r.bindings }, state)
    ]
    else key_error (not_bound workflow)

unfoldable pub get : PoolRegistry → String → Attempt PoolState
get r pool_name = elim (lookup pool_name r.pools) [
  | none ↦ key_error (no_pool pool_name)
  | some state ↦ done state
]

-- A bound pool that is not registered would be the bare `KeyError` of the dict.
pub for_workflow : PoolRegistry → String → Attempt PoolState
unfolding get
for_workflow r workflow = elim (lookup workflow r.bindings) [
  | none ↦ key_error (not_bound workflow)
  | some pool_name ↦ get r pool_name
]

-- workflow for workflow, bound in self._bindings.items() if bound == name
unfoldable pub bound_on : String → Dict String → List String
bound_on name [] = []
bound_on name ((workflow, bound) ∷ d) =
    let rest = bound_on name d in if bound == name then workflow ∷ rest else rest

pub workflows_of : PoolRegistry → String → Attempt (List String)
unfolding bound_on
workflows_of r name =
    if contains name r.pools then done (bound_on name r.bindings) else key_error (no_pool name)

pub data Change : Type 0 where
  adds : Pool → Change
  binds rebinds : String → String → Change
  unbinds : String → Change

-- A call that raises leaves the registry as it was.
abbrev pub kept {ℓ} : {A : Type ℓ} → PoolRegistry → Attempt (PoolRegistry × A) → PoolRegistry
kept r (done (t, a)) = t
kept r (value_error e) = r
kept r (key_error e) = r

abbrev pub kept_alone : PoolRegistry → Attempt PoolRegistry → PoolRegistry
kept_alone r (done t) = t
kept_alone r (value_error e) = r
kept_alone r (key_error e) = r

unfoldable pub change : PoolRegistry → Change → PoolRegistry
unfolding add bind unbind rebind
change r (adds pool) = kept r (add r pool)
change r (binds workflow pool_name) = kept r (bind r workflow pool_name)
change r (rebinds workflow pool_name) = kept r (rebind r workflow pool_name)
change r (unbinds workflow) = kept_alone r (unbind r workflow)

unfoldable pub changes : PoolRegistry → List Change → PoolRegistry
unfolding change
changes r [] = r
changes r (c ∷ cs) = changes (change r c) cs

-- ===== src/Prelude/Dict.antt =====
-- Python's `dict` with text keys, in insertion order: a new key goes to the end, and a write to a
-- key that is there keeps its place.
use Prim.Native.String.{String}
use mathlib.Core.Path.{◌≡◌, refl}
use mathlib.Core.Logic.{inl, inr}
use mathlib.Core.Bool.{Bool}
use mathlib.Core.Option.{Option, none, some}
use mathlib.Core.List.{List, [], ◌∷◌, map, Memᴰ}
use native.Mathlib.Omega.{arith}
use athanore.Prelude.Tests.{◌==◌, eq_iff, is_some, Bool-cases, if◌then◌else◌}
use athanore.Prelude.Lists.{member}

abbrev pub Dict {ℓ} : Type ℓ → Type ℓ
Dict V = List (String × V)

module _ {ℓ} {V : Type ℓ} where
  unfoldable pub lookup : String → Dict V → Option V
  lookup k [] = none
  lookup k ((j, v) ∷ d) = if j == k then some v else lookup k d

  -- d[k] = v
  unfoldable pub insert : String → V → Dict V → Dict V
  insert k v [] = (k, v) ∷ []
  insert k v ((j, w) ∷ d) = if j == k then (k, v) ∷ d else (j, w) ∷ insert k v d

  -- del d[k], of a dict with one entry for each key
  unfoldable pub remove : String → Dict V → Dict V
  remove k [] = []
  remove k ((j, w) ∷ d) = let rest = remove k d in if j == k then rest else (j, w) ∷ rest

  abbrev pub keys : Dict V → List String
  keys = map (λ e. e.0)

  abbrev pub values : Dict V → List V
  values = map (λ e. e.1)

  -- k in d
  abbrev pub contains : String → Dict V → Bool
  contains k d = is_some (lookup k d)

  pub lookup-insert :
      (k j : String) (v : V) (d : Dict V)
      → lookup j (insert k v d) ≡ (if k == j then some v else lookup j d)
  unfolding lookup insert
  lookup-insert k j v [] = refl
  lookup-insert k j v ((i, w) ∷ d) =
      ground (arith, eq_iff k j, eq_iff i k, eq_iff i j, lookup-insert k j v d)

  pub lookup-remove :
      (k j : String) (d : Dict V) → lookup j (remove k d) ≡ (if k == j then none else lookup j d)
  unfolding lookup remove
  lookup-remove k j [] = ground arith
  lookup-remove k j ((i, w) ∷ d) =
      ground (arith, eq_iff k j, eq_iff i k, eq_iff i j, lookup-remove k j d)

  pub contains-member : (k : String) (d : Dict V) → contains k d ≡ member k (keys d)
  unfolding lookup member
  contains-member k [] = refl
  contains-member k ((j, v) ∷ d) = ground (arith, contains-member k d)

  pub mem-values_of_lookup :
      (k : String) (d : Dict V) (v : V) → lookup k d ≡ some v → Memᴰ v (values d)
  unfolding lookup
  mem-values_of_lookup k [] v h = cc
  mem-values_of_lookup k ((j, w) ∷ d) v h = elim (Bool-cases (j == k)) [
    | inl hit ↦ let e : v ≡ w = ground arith in Memᴰ.head e
    | inr miss ↦ Memᴰ.tail (mem-values_of_lookup k d v (ground arith))
  ]

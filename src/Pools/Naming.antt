-- ===== src/Pools/Naming.antt =====
-- athanore/engine/pools.py: `POOL_NAME` and `Pool.__post_init__`, the checks of a pool that a user
-- writes.
use Prim.Native.Char.{code}
use athanore.Prelude.{
  ◌≡◌, refl, sym, subst, ap, ◌↔◌, ◌⊎◌, inl, inr, String, Bool, true, false, not, ◌&&◌,
  if◌then◌else◌, ◌==◌, eq_iff, ◌||◌, Bool-cases, arith,
}
use athanore.Prelude.Int.{ℤ, pos, negsuc}
use athanore.Graph.Validate.{is_lower, is_word, all_word, matches_name}
use athanore.Pools.{Pool}

-- What a user may give for the capacity: exactly an `int`, or anything else.
pub data Given : Type 0 where
  int : ℤ → Given
  other : Given

-- `$` is the end of the text, and also the place before a newline that ends it.
abbrev pub at_end : String → Bool
at_end s = s == "" || s == "\n"

-- [a-z0-9_]*$
pub word_to_end : String → Bool
word_to_end String.[] = true
word_to_end (String.◌∷◌ c s) =
    let rest = word_to_end s in if is_word (code c) then rest else at_end (String.◌∷◌ c s)

-- POOL_NAME.match
pub matches_pool_name : String → Bool
unfolding word_to_end
matches_pool_name String.[] = false
matches_pool_name (String.◌∷◌ c s) = is_lower (code c) && word_to_end s

pub data PoolValueError : Type 0 where
  bad_pool_name : String → PoolValueError
  capacity_not_int : String → PoolValueError
  capacity_negative : String → ℤ → PoolValueError

pub data Checked : Type 0 where
  made : Pool → Checked
  value_error : PoolValueError → Checked

pub make_pool : String → Given → Checked
unfolding matches_pool_name
make_pool name capacity =
    if not (matches_pool_name name) then value_error (bad_pool_name name) else elim capacity [
      | other ↦ value_error (capacity_not_int name)
      | int (negsuc n) ↦ value_error (capacity_negative name (negsuc n))
      | int (pos n) ↦ made (record { name = name; capacity = n })
    ]

-- The text with a newline after it.
unfoldable pub line : String → String
line String.[] = "\n"
line (String.◌∷◌ c s) = String.◌∷◌ c (line s)

word_to_end-line : (t : String) → all_word t ≡ true → word_to_end (line t) ≡ true
unfolding word_to_end all_word line
word_to_end-line String.[] h = refl
word_to_end-line (String.◌∷◌ c t) h = ground (arith, word_to_end-line t)

word_to_end_word : (t : String) → all_word t ≡ true → word_to_end t ≡ true
unfolding word_to_end all_word
word_to_end_word String.[] h = refl
word_to_end_word (String.◌∷◌ c t) h = ground (arith, word_to_end_word t)

at_end_line : (s : String) → at_end s ≡ true → (s ≡ "") ⊎ (s ≡ "\n")
at_end_line s h = ground (arith, eq_iff s "", eq_iff s "\n")

word_to_end_cases :
    (s : String)
    → word_to_end s ≡ true
    → (all_word s ≡ true) ⊎ ((t : String) × (all_word t ≡ true) × (s ≡ line t))
unfolding word_to_end all_word line
word_to_end_cases String.[] h = inl refl
word_to_end_cases (String.◌∷◌ c s) h = elim (Bool-cases (is_word (code c))) [
  | inr e ↦ elim (at_end_line (String.◌∷◌ c s) (ground arith)) [
    | inl empty ↦ inl (subst (λ x. all_word x ≡ true) (sym empty) refl)
    | inr newline ↦ inr ("", refl, newline)
  ]
  | inl e ↦ elim (word_to_end_cases s (ground arith)) [
    | inl w ↦ inl (ground arith)
    | inr (t, w, same) ↦ inr (String.◌∷◌ c t, ground arith, ap (λ x. String.◌∷◌ c x) same)
  ]
]

matches_line : (t : String) → matches_name t ≡ true → matches_pool_name (line t) ≡ true
unfolding matches_pool_name matches_name line
matches_line String.[] h = cc
matches_line (String.◌∷◌ c t) h = ground (arith, word_to_end-line t)

matches_word : (t : String) → matches_name t ≡ true → matches_pool_name t ≡ true
unfolding matches_pool_name matches_name
matches_word String.[] h = cc
matches_word (String.◌∷◌ c t) h = ground (arith, word_to_end_word t)

IsName : String → Type 0
IsName s = (matches_name s ≡ true) ⊎ ((t : String) × (matches_name t ≡ true) × (s ≡ line t))

matches_cases : (s : String) → matches_pool_name s ≡ true → IsName s
unfolding IsName matches_pool_name matches_name line
matches_cases String.[] h = cc
matches_cases (String.◌∷◌ c s) h = elim (word_to_end_cases s (ground arith)) [
  | inl w ↦ inl (ground arith)
  | inr (t, w, same) ↦ inr (String.◌∷◌ c t, ground arith, ap (λ x. String.◌∷◌ c x) same)
]

matches_pool_name_iff : (s : String) → (matches_pool_name s ≡ true) ↔ IsName s
unfolding IsName
matches_pool_name_iff s = (
  matches_cases s,
  λ h. elim h [
    | inl plain ↦ matches_word s plain
    | inr (t, plain, same) ↦
        subst (λ x. matches_pool_name x ≡ true) (sym same) (matches_line t plain)
  ],
)

make_pool_named :
    (name : String) (capacity : Given) (p : Pool)
    → matches_pool_name name ≡ true
    → (make_pool name capacity ≡ made p) ↔ ((p.name ≡ name) × (capacity ≡ int (pos p.capacity)))
unfolding make_pool
make_pool_named name other p e = rw e (λ h. cc, λ h. cc)
make_pool_named name (int (negsuc n)) p e = rw e (λ h. cc, λ h. cc)
make_pool_named name (int (pos n)) p e = rw e (λ h. (cc, cc), λ h. cc)

-- `Pool(name, capacity)` is made exactly when the capacity is an `int` that is not negative and the
-- name is one that `NAME_RE.fullmatch` takes, or such a name with a newline after it.
pub make_pool_iff :
    (name : String) (capacity : Given) (p : Pool)
    → (make_pool name capacity ≡ made p) ↔ (
        (p.name ≡ name)
        × (capacity ≡ int (pos p.capacity))
        × ((matches_name name ≡ true) ⊎ ((t : String) × (matches_name t ≡ true) × (name ≡ line t))))
unfolding make_pool IsName
make_pool_iff name capacity p =
    let named = matches_pool_name_iff name in
    elim (Bool-cases (matches_pool_name name)) [
      | inl e ↦
          let rest = make_pool_named name capacity p e in
          (λ h. ((rest.0 h).0, (rest.0 h).1, named.0 e), λ h. rest.1 (h.0, h.1))
      | inr e ↦ (rw e (λ h. cc), λ h. let taken = named.1 h.2 in cc)
    ]

-- ===== src/Prelude/Sort.antt =====
-- Insertion into a list that is in order, and sorting by it: Python's `sorted` and SQL's ORDER BY,
-- with the order as a Boolean test.
use Prim.Native.Nat.{ℕ, suc}
use mathlib.Core.Path.{◌≡◌, refl, ◌∙◌, ap}
use mathlib.Core.Logic.{◌⊎◌, ◌↔◌, inl, inr}
use mathlib.Core.Bool.{Bool, true, false, not, ◌&&◌, ◌||◌}
use mathlib.Core.List.{List, [], ◌∷◌, Memᴰ}
use native.Mathlib.Omega.{arith}
use athanore.Prelude.Tests.{if◌then◌else◌, Bool-cases}
use athanore.Prelude.Lists.{length, All, take, drop, Memᴰ-cons}
use athanore.Prelude.Int.{ℤ, ltb_ℤ}

abbrev pub insert_by {ℓ} : {A : Type ℓ} → (A → A → Bool) → A → List A → List A
insert_by leb x [] = x ∷ []
insert_by leb x (y ∷ ys) = let rest = insert_by leb x ys in if leb x y then x ∷ y ∷ ys else y ∷ rest

abbrev pub sort_by {ℓ} : {A : Type ℓ} → (A → A → Bool) → List A → List A
sort_by leb [] = []
sort_by leb (x ∷ xs) = insert_by leb x (sort_by leb xs)

-- The order of two tuples, which is decided at the first place where they differ.
abbrev pub leb_lex : List ℤ → List ℤ → Bool
leb_lex [] ys = true
leb_lex (x ∷ xs) [] = false
leb_lex (x ∷ xs) (y ∷ ys) = ltb_ℤ x y || not (ltb_ℤ y x) && leb_lex xs ys

pub leb_lex_total : (xs ys : List ℤ) → (leb_lex xs ys ≡ true) ⊎ (leb_lex ys xs ≡ true)
leb_lex_total [] ys = inl refl
leb_lex_total (x ∷ xs) [] = inr refl
leb_lex_total (x ∷ xs) (y ∷ ys) = elim (leb_lex_total xs ys) [
  | inl h ↦ ground arith
  | inr h ↦ ground arith
]

pub leb_lex_trans :
    (xs ys zs : List ℤ) → leb_lex xs ys ≡ true → leb_lex ys zs ≡ true → leb_lex xs zs ≡ true
leb_lex_trans [] ys zs h k = refl
leb_lex_trans (x ∷ xs) [] zs h k = cc
leb_lex_trans (x ∷ xs) (y ∷ ys) [] h k = cc
leb_lex_trans (x ∷ xs) (y ∷ ys) (z ∷ zs) h k = ground (arith, leb_lex_trans xs ys zs)

module _ {ℓ} {A : Type ℓ} where
  pub All-drop {κ} : (P : A → Type κ) (n : ℕ) (xs : List A) → All P xs → All P (drop n xs)
  All-drop P ℕ.zero xs ps = ps
  All-drop P (suc n) [] ps = tt
  All-drop P (suc n) (x ∷ xs) ps = All-drop P n xs ps.1

  pub All-take {κ} : (P : A → Type κ) (n : ℕ) (xs : List A) → All P xs → All P (take n xs)
  All-take P ℕ.zero xs ps = tt
  All-take P (suc n) [] ps = tt
  All-take P (suc n) (x ∷ xs) ps = (ps.0, All-take P n xs ps.1)

module _ {ℓ} {A : Type ℓ} (leb : A → A → Bool) where
  abbrev pub IsOrdered : List A → Type 0
  IsOrdered [] = Unit
  IsOrdered (x ∷ xs) = All (λ y. leb x y ≡ true) xs × IsOrdered xs

  pub length-insert_by : (x : A) (ys : List A) → length (insert_by leb x ys) ≡ suc (length ys)
  length-insert_by x [] = refl
  length-insert_by x (y ∷ ys) = ground (arith, length-insert_by x ys)

  pub length-sort_by : (xs : List A) → length (sort_by leb xs) ≡ length xs
  length-sort_by [] = refl
  length-sort_by (x ∷ xs) = length-insert_by x (sort_by leb xs) ∙ ap suc (length-sort_by xs)

  pub All-insert_by {κ} :
      (P : A → Type κ) (x : A) (ys : List A) → P x → All P ys → All P (insert_by leb x ys)
  All-insert_by P x [] p ps = (p, tt)
  All-insert_by P x (y ∷ ys) p ps = elim (Bool-cases (leb x y)) [
    | inl e ↦ rw e (p, ps)
    | inr e ↦ rw e (ps.0, All-insert_by P x ys p ps.1)
  ]

  pub All-sort_by {κ} : (P : A → Type κ) (xs : List A) → All P xs → All P (sort_by leb xs)
  All-sort_by P [] ps = tt
  All-sort_by P (x ∷ xs) ps = All-insert_by P x (sort_by leb xs) ps.0 (All-sort_by P xs ps.1)

  mem-insert_by : (a x : A) (ys : List A) → Memᴰ a (insert_by leb x ys) ↔ Memᴰ a (x ∷ ys)
  mem-insert_by a x [] = (λ m. m, λ m. m)
  mem-insert_by a x (y ∷ ys) = elim (Bool-cases (leb x y)) [
    | inl e ↦ rw e (λ m. m, λ m. m)
    | inr e ↦ rw e (
        ground (
          arith,
          mem-insert_by a x ys,
          Memᴰ-cons a y (insert_by leb x ys),
          Memᴰ-cons a x (y ∷ ys),
          Memᴰ-cons a y ys,
          Memᴰ-cons a x ys,
        ))
  ]

  pub mem-sort_by : (a : A) (xs : List A) → Memᴰ a (sort_by leb xs) ↔ Memᴰ a xs
  mem-sort_by a [] = (λ m. m, λ m. m)
  mem-sort_by a (x ∷ xs) = ground (
    arith,
    mem-insert_by a x (sort_by leb xs),
    mem-sort_by a xs,
    Memᴰ-cons a x (sort_by leb xs),
    Memᴰ-cons a x xs,
  )

  All-trans :
      (x y : A) (zs : List A)
      → ((a b c : A) → leb a b ≡ true → leb b c ≡ true → leb a c ≡ true)
      → leb x y ≡ true
      → All (λ z. leb y z ≡ true) zs
      → All (λ z. leb x z ≡ true) zs
  All-trans x y [] trans h ps = tt
  All-trans x y (z ∷ zs) trans h ps = (trans x y z h ps.0, All-trans x y zs trans h ps.1)

  insert_by-IsOrdered :
      ((a b : A) → (leb a b ≡ true) ⊎ (leb b a ≡ true))
      → ((a b c : A) → leb a b ≡ true → leb b c ≡ true → leb a c ≡ true)
      → (x : A) (ys : List A) → IsOrdered ys
      → IsOrdered (insert_by leb x ys)
  insert_by-IsOrdered total trans x [] s = (tt, tt)
  insert_by-IsOrdered total trans x (y ∷ ys) s = elim (Bool-cases (leb x y)) [
    | inl e ↦ rw e ((e, All-trans x y ys trans e s.0), s)
    | inr e ↦
        let back : leb y x ≡ true = ground (arith, total x y) in
        rw e (
          All-insert_by (λ z. leb y z ≡ true) x ys back s.0,
          insert_by-IsOrdered total trans x ys s.1,
        )
  ]

  pub sort_by-IsOrdered :
      ((a b : A) → (leb a b ≡ true) ⊎ (leb b a ≡ true))
      → ((a b c : A) → leb a b ≡ true → leb b c ≡ true → leb a c ≡ true)
      → (xs : List A) → IsOrdered (sort_by leb xs)
  sort_by-IsOrdered total trans [] = tt
  sort_by-IsOrdered total trans (x ∷ xs) =
      insert_by-IsOrdered total trans x (sort_by leb xs) (sort_by-IsOrdered total trans xs)

  -- What a list in order begins with comes before the rest.
  pub take-drop-IsOrdered :
      (n : ℕ) (xs : List A)
      → IsOrdered xs
      → All (λ x. All (λ y. leb x y ≡ true) (drop n xs)) (take n xs)
  take-drop-IsOrdered ℕ.zero xs s = tt
  take-drop-IsOrdered (suc n) [] s = tt
  take-drop-IsOrdered (suc n) (x ∷ xs) s =
      (All-drop (λ y. leb x y ≡ true) n xs s.0, take-drop-IsOrdered n xs s.1)

-- ===== src/Common/Sorting.antt =====
-- A stable insertion sort by a Boolean order, for Python's `sorted` and SQL's `ORDER BY`.
use Prim.Native.Nat.{ℕ, zero, suc, min}
use mathlib.Core.Logic.{inl, inr}
use mathlib.Core.Path.{◌≡◌, refl, ap}
use mathlib.Core.Bool.{Bool, true, false}
use mathlib.Core.List.{List, [], ◌∷◌, ◌++◌, Perm}
use mathlib.Core.List.Perm
use native.Mathlib.Omega.{arith}
use automatic_ripping_machin.Common.Tests.{if◌then◌else◌, Bool-cases, if_ind}
use automatic_ripping_machin.Common.Lists.{
  length, take, drop, All, All-take, All-drop, All-trivial, All-zip,
}

module _ {ℓ} {A : Type ℓ} (le : A → A → Bool) where
  -- Puts `x` before the first element that it does not come after.
  unfoldable pub insert_sorted : A → List A → List A
  insert_sorted x [] = x ∷ []
  insert_sorted x (y ∷ ys) =
      let rest = insert_sorted x ys in if le x y then x ∷ y ∷ ys else y ∷ rest

  unfoldable pub sort : List A → List A
  unfolding insert_sorted
  sort [] = []
  sort (x ∷ xs) = insert_sorted x (sort xs)

  pub length-insert_sorted : (x : A) (ys : List A) → length (insert_sorted x ys) ≡ suc (length ys)
  unfolding insert_sorted
  length-insert_sorted x [] = refl
  length-insert_sorted x (y ∷ ys) = ground (arith, length-insert_sorted x ys)

  pub length-sort : (xs : List A) → length (sort xs) ≡ length xs
  unfolding sort
  length-sort [] = refl
  length-sort (x ∷ xs) = ground (arith, length-insert_sorted x (sort xs), length-sort xs)

  pub perm-insert_sorted : (x : A) (ys : List A) → Perm (insert_sorted x ys) (x ∷ ys)
  unfolding insert_sorted
  perm-insert_sorted x [] = Perm.rfl
  perm-insert_sorted x (y ∷ ys) =
      if_ind (λ zs. Perm zs (x ∷ y ∷ ys)) (le x y) (λ _. Perm.rfl)
        (λ _. Perm.trans (Perm.cons y (perm-insert_sorted x ys)) (Perm.swap x y ys))

  pub perm-sort : (xs : List A) → Perm (sort xs) xs
  unfolding sort
  perm-sort [] = Perm.rfl
  perm-sort (x ∷ xs) = Perm.trans (perm-insert_sorted x (sort xs)) (Perm.cons x (perm-sort xs))

  module _ {κ} (P : A → Type κ) where
    pub All-insert_sorted : (x : A) (ys : List A) → P x → All P ys → All P (insert_sorted x ys)
    unfolding insert_sorted
    All-insert_sorted x [] p h = (p, tt)
    All-insert_sorted x (y ∷ ys) p h = ground (arith, All-insert_sorted x ys p h.1)

    pub All-sort : (xs : List A) → All P xs → All P (sort xs)
    unfolding sort
    All-sort [] h = tt
    All-sort (x ∷ xs) h = All-insert_sorted x (sort xs) h.0 (All-sort xs h.1)

    pub All-of_insert_sorted : (x : A) (ys : List A) → All P (insert_sorted x ys) → P x × All P ys
    unfolding insert_sorted
    All-of_insert_sorted x [] h = h
    All-of_insert_sorted x (y ∷ ys) h = ground (arith, All-of_insert_sorted x ys)

    pub All-of_sort : (xs : List A) → All P (sort xs) → All P xs
    unfolding sort
    All-of_sort [] h = tt
    All-of_sort (x ∷ xs) h =
        let (p, rest) = All-of_insert_sorted x (sort xs) h in (p, All-of_sort xs rest)

  -- Each element stands before all that follow it.
  abbrev pub IsSorted : List A → Type 0
  IsSorted [] = Unit
  IsSorted (x ∷ xs) = All (λ y. le x y ≡ true) xs × IsSorted xs

module _ {ℓ} {A : Type ℓ} (le : A → A → Bool) (total : (x y : A) → le x y ≡ false → le y x ≡ true)
    (trans : (x y z : A) → le x y ≡ true → le y z ≡ true → le x z ≡ true) where
  below-All :
      (x y : A) (ys : List A)
      → le x y ≡ true
      → All (λ z. le y z ≡ true) ys
      → All (λ z. le x z ≡ true) ys
  below-All x y [] h k = tt
  below-All x y (z ∷ ys) h k = (trans x y z h k.0, below-All x y ys h k.1)

  pub insert_sorted-IsSorted :
      (x : A) (ys : List A) → IsSorted le ys → IsSorted le (insert_sorted le x ys)
  unfolding insert_sorted
  insert_sorted-IsSorted x [] s = (tt, tt)
  insert_sorted-IsSorted x (y ∷ ys) s = elim (Bool-cases (le x y)) [
    | inl h ↦ rw h ((h, below-All x y ys h s.0), s)
    | inr h ↦ rw h (
      All-insert_sorted le (λ z. le y z ≡ true) x ys (total x y h) s.0,
      insert_sorted-IsSorted x ys s.1,
    )
  ]

  pub sort-IsSorted : (xs : List A) → IsSorted le (sort le xs)
  unfolding sort
  sort-IsSorted [] = tt
  sort-IsSorted (x ∷ xs) = insert_sorted-IsSorted x (sort le xs) (sort-IsSorted xs)

-- In a sorted list, what `take` leaves behind comes after all that it took.
pub take-le-drop {ℓ} :
    {A : Type ℓ} (le : A → A → Bool) (n : ℕ) (xs : List A)
    → IsSorted le xs
    → All (λ y. All (λ x. le x y ≡ true) (take n xs)) (drop n xs)
take-le-drop le zero xs s = All-trivial xs
take-le-drop le (suc n) [] s = tt
take-le-drop le (suc n) (x ∷ xs) s =
    All-zip _ _ (drop n xs) (All-drop _ n xs s.0) (take-le-drop le n xs s.1)

pub take-IsSorted {ℓ} :
    {A : Type ℓ} (le : A → A → Bool) (n : ℕ) (xs : List A)
    → IsSorted le xs
    → IsSorted le (take n xs)
take-IsSorted le zero xs s = tt
take-IsSorted le (suc n) [] s = tt
take-IsSorted le (suc n) (x ∷ xs) s = (All-take _ n xs s.0, take-IsSorted le n xs s.1)

pub take-drop {ℓ} : {A : Type ℓ} (n : ℕ) (xs : List A) → take n xs ++ drop n xs ≡ xs
take-drop zero xs = refl
take-drop (suc n) [] = refl
take-drop (suc n) (x ∷ xs) = ap (λ ys. x ∷ ys) (take-drop n xs)

pub length-take-min {ℓ} :
    {A : Type ℓ} (n : ℕ) (xs : List A) → length (take n xs) ≡ min n (length xs)
length-take-min zero xs = omega arith
length-take-min (suc n) [] = omega arith
length-take-min (suc n) (x ∷ xs) = omega (arith, length-take-min n xs)

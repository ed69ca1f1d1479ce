-- ===== src/Common/Pairwise.antt =====
-- Lists whose elements differ pairwise, by a Boolean test.
use mathlib.Core.Path.{◌≡◌, refl}
use mathlib.Core.Bool.{Bool, false}
use mathlib.Core.List.{List, [], ◌∷◌}
use native.Mathlib.Omega.{arith}
use automatic_ripping_machin.Common.Tests.{if_ind}
use automatic_ripping_machin.Common.Lists.{keep, any, All, All-keep}
use automatic_ripping_machin.Common.Sorting.{insert_sorted, sort, All-insert_sorted, All-sort}

module _ {ℓ} {A : Type ℓ} (same : A → A → Bool) where
  -- No element is the same as a later one.
  abbrev pub Apart : List A → Type 0
  Apart [] = Unit
  Apart (x ∷ xs) = All (λ y. same x y ≡ false) xs × Apart xs

  pub Apart-keep : (p : A → Bool) (xs : List A) → Apart xs → Apart (keep p xs)
  Apart-keep p [] d = tt
  Apart-keep p (x ∷ xs) d =
      if_ind Apart (p x) (λ _. (All-keep _ p xs d.0, Apart-keep p xs d.1))
        (λ _. Apart-keep p xs d.1)

  module _ (le : A → A → Bool) (symmetric : (x y : A) → same x y ≡ false → same y x ≡ false) where
    pub insert_sorted-Apart :
        (x : A) (ys : List A)
        → All (λ y. same x y ≡ false) ys
        → Apart ys
        → Apart (insert_sorted le x ys)
    unfolding insert_sorted
    insert_sorted-Apart x [] h d = (tt, tt)
    insert_sorted-Apart x (y ∷ ys) h d =
        if_ind Apart (le x y) (λ _. (h, d))
          (λ _. (
            All-insert_sorted le (λ z. same y z ≡ false) x ys (symmetric x y h.0) d.0,
            insert_sorted-Apart x ys h.1 d.1,
          ))

    pub sort-Apart : (xs : List A) → Apart xs → Apart (sort le xs)
    unfolding sort
    sort-Apart [] d = tt
    sort-Apart (x ∷ xs) d =
        insert_sorted-Apart x (sort le xs) (All-sort le _ xs d.0) (sort-Apart xs d.1)

module _ {ℓ} {A : Type ℓ} (p : A → Bool) where
  pub All-of_none : (xs : List A) → any p xs ≡ false → All (λ x. p x ≡ false) xs
  All-of_none [] h = tt
  All-of_none (x ∷ xs) h = (head x xs h, All-of_none xs (rest x xs h))
    where
      head : (x : A) (xs : List A) → any p (x ∷ xs) ≡ false → p x ≡ false
      head x xs h = ground arith

      rest : (x : A) (xs : List A) → any p (x ∷ xs) ≡ false → any p xs ≡ false
      rest x xs h = ground arith

  pub none_of-All : (xs : List A) → All (λ x. p x ≡ false) xs → any p xs ≡ false
  none_of-All [] h = refl
  none_of-All (x ∷ xs) h = rw h.0 (none_of-All xs h.1)

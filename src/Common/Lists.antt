-- ===== src/Common/Lists.antt =====
-- Lists measured by native numbers, predicates over lists, and updates in place.
use Prim.Native.Nat.{ℕ, zero, suc, ◌+◌, ◌≤◌}
use mathlib.Core.Path.{◌≡◌, refl, ap, sym, ◌∙◌, subst}
use mathlib.Core.Bool.{Bool, true, false, ◌||◌, ◌&&◌, false≢true}
use mathlib.Core.Option.{Option, none, some}
use mathlib.Core.List.{List, [], ◌∷◌, ◌++◌, map}
use mathlib.Core.Logic.{inl, inr}
use native.Mathlib.Omega.{arith}
use automatic_ripping_machin.Common.Tests.{if◌then◌else◌, Bool-cases, if_ind}

module _ {ℓ} {A : Type ℓ} where
  abbrev pub length : List A → ℕ
  length [] = 0
  length (x ∷ xs) = suc (length xs)

  abbrev pub get_elem? : List A → ℕ → Option A
  get_elem? [] i = none
  get_elem? (x ∷ xs) zero = some x
  get_elem? (x ∷ xs) (suc i) = get_elem? xs i

  abbrev pub take : ℕ → List A → List A
  take zero xs = []
  take (suc n) [] = []
  take (suc n) (x ∷ xs) = x ∷ take n xs

  abbrev pub drop : ℕ → List A → List A
  drop zero xs = xs
  drop (suc n) [] = []
  drop (suc n) (x ∷ xs) = drop n xs

  -- Keeps the elements that pass a Boolean test.
  abbrev pub keep : (A → Bool) → List A → List A
  keep p [] = []
  keep p (x ∷ xs) = let rest = keep p xs in if p x then x ∷ rest else rest

  -- The first element that passes the test.
  abbrev pub find : (A → Bool) → List A → Option A
  find p [] = none
  find p (x ∷ xs) = let rest = find p xs in if p x then some x else rest

  abbrev pub any : (A → Bool) → List A → Bool
  any p [] = false
  any p (x ∷ xs) = p x || any p xs

  abbrev pub all : (A → Bool) → List A → Bool
  all p [] = true
  all p (x ∷ xs) = p x && all p xs

  -- Applies a function to the elements that pass the test, in place.
  abbrev pub map_if : (A → Bool) → (A → A) → List A → List A
  map_if p f [] = []
  map_if p f (x ∷ xs) = (if p x then f x else x) ∷ map_if p f xs

  abbrev pub All {κ} : (A → Type κ) → List A → Type κ
  All P [] = Unit
  All P (x ∷ xs) = P x × All P xs

  pub length-append : (xs ys : List A) → length (xs ++ ys) ≡ length xs + length ys
  length-append [] ys = omega arith
  length-append (x ∷ xs) ys = omega (arith, length-append xs ys)

  pub length-take : (n : ℕ) (xs : List A) → length (take n xs) ≤ n
  length-take zero xs = omega arith
  length-take (suc n) [] = omega arith
  length-take (suc n) (x ∷ xs) = omega (arith, length-take n xs)

  pub length-map_if : (p : A → Bool) (f : A → A) (xs : List A) → length (map_if p f xs) ≡ length xs
  length-map_if p f [] = refl
  length-map_if p f (x ∷ xs) = ap suc (length-map_if p f xs)

module _ {ℓ κ} {A : Type ℓ} (P : A → Type κ) where
  pub All-append : (xs ys : List A) → All P xs → All P ys → All P (xs ++ ys)
  All-append [] ys hx hy = hy
  All-append (x ∷ xs) ys hx hy = (hx.0, All-append xs ys hx.1 hy)

  pub All-take : (n : ℕ) (xs : List A) → All P xs → All P (take n xs)
  All-take zero xs h = tt
  All-take (suc n) [] h = tt
  All-take (suc n) (x ∷ xs) h = (h.0, All-take n xs h.1)

  pub All-drop : (n : ℕ) (xs : List A) → All P xs → All P (drop n xs)
  All-drop zero xs h = h
  All-drop (suc n) [] h = tt
  All-drop (suc n) (x ∷ xs) h = All-drop n xs h.1

  pub All-keep : (p : A → Bool) (xs : List A) → All P xs → All P (keep p xs)
  All-keep p [] h = tt
  All-keep p (x ∷ xs) h = ground (arith, All-keep p xs h.1)

  pub All-keep_test :
      (p : A → Bool) (xs : List A) → ((x : A) → p x ≡ true → P x) → All P (keep p xs)
  All-keep_test p [] f = tt
  All-keep_test p (x ∷ xs) f = ground (arith, f x, All-keep_test p xs f)

  pub All-map_if :
      (p : A → Bool) (f : A → A) (xs : List A)
      → ((x : A) → p x ≡ true → P x → P (f x))
      → All P xs
      → All P (map_if p f xs)
  All-map_if p f [] s h = tt
  All-map_if p f (x ∷ xs) s h = ground (arith, s x, All-map_if p f xs s h.1)

module _ {ℓ κ μ} {A : Type ℓ} (P : A → Type κ) (Q : A → Type μ) where
  pub All-mono : (xs : List A) → ((x : A) → P x → Q x) → All P xs → All Q xs
  All-mono [] f h = tt
  All-mono (x ∷ xs) f h = (f x h.0, All-mono xs f h.1)

pub All-every {ℓ κ} : {A : Type ℓ} (P : A → Type κ) (xs : List A) → ((x : A) → P x) → All P xs
All-every P [] f = tt
All-every P (x ∷ xs) f = (f x, All-every P xs f)

pub All-trivial {ℓ κ} : {A : Type ℓ} (xs : List A) → All (λ _. Unit {κ}) xs
All-trivial [] = tt
All-trivial (x ∷ xs) = (tt, All-trivial xs)

module _ {ℓ κ μ} {A : Type ℓ} (P : A → Type κ) (Q : A → Type μ) where
  pub All-zip : (xs : List A) → All P xs → All Q xs → All (λ x. P x × Q x) xs
  All-zip [] h k = tt
  All-zip (x ∷ xs) h k = ((h.0, k.0), All-zip xs h.1 k.1)

module _ {ℓ κ} {A : Type ℓ} (P : A → Type κ) where
  kept :
      (p : A → Bool) (x : A) (xs : List A)
      → p x ≡ true
      → All P (keep p (x ∷ xs))
      → P x × All P (keep p xs)
  kept p x xs e h = rw e at h

  dropped :
      (p : A → Bool) (x : A) (xs : List A)
      → p x ≡ false
      → All P (keep p (x ∷ xs))
      → All P (keep p xs)
  dropped p x xs e h = rw e at h

  -- What holds of the kept elements holds of all that pass the test.
  pub All-of_keep :
      (p : A → Bool) (xs : List A) → All P (keep p xs) → All (λ x. p x ≡ true → P x) xs
  All-of_keep p [] h = tt
  All-of_keep p (x ∷ xs) h = elim (Bool-cases (p x)) [
    | inl e ↦ let (here, later) = kept p x xs e h in (λ _. here, All-of_keep p xs later)
    | inr e ↦ (λ k. elim (false≢true (sym e ∙ k)) [ ], All-of_keep p xs (dropped p x xs e h))
  ]

  pub All-split : (n : ℕ) (xs : List A) → All P (take n xs) → All P (drop n xs) → All P xs
  All-split zero xs h k = k
  All-split (suc n) [] h k = tt
  All-split (suc n) (x ∷ xs) h k = (h.0, All-split n xs h.1 k)

module _ {ℓ κ} {A : Type ℓ} (P : A → Type κ) where
  -- An optional value, if it is there, has the property.
  abbrev pub Holds : Option A → Type κ
  Holds none = Unit
  Holds (some x) = P x

  pub find-Holds : (p : A → Bool) (xs : List A) → All (λ x. p x ≡ true → P x) xs → Holds (find p xs)
  find-Holds p [] h = tt
  find-Holds p (x ∷ xs) h = if_ind Holds (p x) h.0 (λ _. find-Holds p xs h.1)

module _ {ℓ κ μ} {A : Type ℓ} {B : Type κ} (P : B → Type μ) (f : A → B) where
  pub All-map : (xs : List A) → All (λ x. P (f x)) xs → All P (map f xs)
  All-map [] h = tt
  All-map (x ∷ xs) h = (h.0, All-map xs h.1)

  pub All-of_map : (xs : List A) → All P (map f xs) → All (λ x. P (f x)) xs
  All-of_map [] h = tt
  All-of_map (x ∷ xs) h = (h.0, All-of_map xs h.1)

-- The element stands in the list.
abbrev pub Listed {ℓ} : {A : Type ℓ} → List A → A → Type ℓ
Listed xs x = (i : ℕ) × (get_elem? xs i ≡ some x)

pub some_inj {ℓ} : {A : Type ℓ} {a b : A} → some a ≡ some b → a ≡ b
some_inj h = cc

pub All-at {ℓ κ} :
    {A : Type ℓ} (P : A → Type κ) (xs : List A) (i : ℕ) (a : A)
    → All P xs
    → get_elem? xs i ≡ some a
    → P a
All-at P [] i a h e = cc
All-at P (x ∷ xs) zero a h e = subst P (some_inj e) h.0
All-at P (x ∷ xs) (suc i) a h e = All-at P xs i a h.1 e

pub All-Listed {ℓ} : {A : Type ℓ} (xs : List A) → All (Listed xs) xs
All-Listed [] = tt
All-Listed (x ∷ xs) = ((0, refl), All-mono _ _ xs (λ y (i, e). (suc i, e)) (All-Listed xs))

pub length-map {ℓ κ} :
    {A : Type ℓ} {B : Type κ} (f : A → B) (xs : List A) → length (map f xs) ≡ length xs
length-map f [] = refl
length-map f (x ∷ xs) = ap suc (length-map f xs)

-- ===== src/Naming/Distance.antt =====
-- The edit distance, as a recursion on the last characters, and the table that computes it.
use mathlib.Core.List.{reverse, reverse_aux, reverse-reverse}
use automatic_ripping_machin.Common.{
  length, ltb, ◌==◌, if◌then◌else◌, ==_iff, Bool-cases, if_ind, ℕ, suc, ◌+◌, ◌≡◌, refl, sym, ap,
  ◌∙◌, subst, ◌↔◌, inl, inr, true, List, [], ◌∷◌, arith,
}
use automatic_ripping_machin.Naming.{
  min3, fill_row, count_from, fill_rows, last, levenshtein_ordered, levenshtein,
}

abbrev pub cost : ℕ → ℕ → ℕ
cost a b = if a == b then 0 else 1

-- The least number of insertions, deletions and substitutions between two texts, each of which is
-- given from its last character to its first.
unfoldable pub distance : List ℕ → List ℕ → ℕ
distance [] t = length t
distance (a ∷ s) [] = suc (length s)
distance (a ∷ s) (b ∷ t) =
    min3 (distance (a ∷ s) t + 1) (distance s (b ∷ t) + 1) (distance s t + cost a b)

-- The row of the table for the prefix `rs`: its distance to each prefix of `rt` and what follows.
row : List ℕ → List ℕ → List ℕ → List ℕ
row rs rt [] = distance rs rt ∷ []
row rs rt (c ∷ t) = distance rs rt ∷ row rs (c ∷ rt) t

fill_row-row :
    (c : ℕ) (rs rt t : List ℕ)
    → fill_row c (distance (c ∷ rs) rt) (row rs rt t) t ≡ row (c ∷ rs) rt t
unfolding fill_row row distance
fill_row-row c rs rt [] = refl
fill_row-row c rs rt (b ∷ []) = refl
fill_row-row c rs rt (b ∷ d ∷ t) =
    ap (λ xs. distance (c ∷ rs) rt ∷ xs) (fill_row-row c rs (b ∷ rt) (d ∷ t))

fill_rows-row :
    (s1 rs t : List ℕ) → fill_rows (length rs) (row rs [] t) t s1 ≡ row (reverse_aux s1 rs) [] t
unfolding fill_rows distance
fill_rows-row [] rs t = refl
fill_rows-row (c ∷ s1) rs t =
    ap (λ r. fill_rows (suc (length rs)) r t s1) (fill_row-row c rs [] t)
    ∙ fill_rows-row s1 (c ∷ rs) t

count_from-row : (rt t : List ℕ) → count_from (length rt) t ≡ row [] rt t
unfolding count_from row distance
count_from-row rt [] = refl
count_from-row rt (c ∷ t) = ap (λ xs. length rt ∷ xs) (count_from-row (c ∷ rt) t)

last-row : (rs rt t : List ℕ) → last (row rs rt t) ≡ distance rs (reverse_aux t rt)
unfolding last row
last-row rs rt [] = refl
last-row rs rt (c ∷ []) = refl
last-row rs rt (c ∷ d ∷ t) = last-row rs (c ∷ rt) (d ∷ t)

length-reverse_aux : (s r : List ℕ) → length (reverse_aux s r) ≡ length s + length r
length-reverse_aux [] r = omega arith
length-reverse_aux (x ∷ s) r = omega (arith, length-reverse_aux s (x ∷ r))

distance-nil : (s : List ℕ) → distance s [] ≡ length s
unfolding distance
distance-nil [] = refl
distance-nil (x ∷ s) = refl

not_zero : (n : ℕ) → (suc n == 0) ≡ true → ⊥
not_zero n h = ground arith

ordered-distance : (s1 s2 : List ℕ) → levenshtein_ordered s1 s2 ≡ distance (reverse s1) (reverse s2)
unfolding levenshtein_ordered
ordered-distance s1 [] = sym (distance-nil (reverse s1) ∙ length-reverse_aux s1 [] ∙ omega arith)
ordered-distance s1 (c ∷ s2) =
    if_ind (λ n. n ≡ distance (reverse s1) (reverse (c ∷ s2))) (suc (length s2) == 0)
      (λ e. elim (not_zero (length s2) e) [ ])
      (λ _.
        ap (λ r. last (fill_rows 0 r (c ∷ s2) s1)) (count_from-row [] (c ∷ s2))
        ∙ ap last (fill_rows-row s1 [] (c ∷ s2))
        ∙ last-row (reverse s1) [] (c ∷ s2))

cost_comm : (a b : ℕ) → cost a b ≡ cost b a
cost_comm a b = ground arith

distance_comm : (s t : List ℕ) → distance s t ≡ distance t s
unfolding distance
distance_comm [] t = sym (distance-nil t)
distance_comm (a ∷ s) [] = refl
distance_comm (a ∷ s) (b ∷ t) =
    omega
      (arith, distance_comm (a ∷ s) t, distance_comm s (b ∷ t), distance_comm s t, cost_comm a b)

distance_self : (s : List ℕ) → distance s s ≡ 0
unfolding distance
distance_self [] = refl
distance_self (a ∷ s) = ground (arith, distance_self s)

distance_zero : (s t : List ℕ) → distance s t ≡ 0 → s ≡ t
unfolding distance
distance_zero [] [] h = refl
distance_zero [] (b ∷ t) h = absurd (omega arith)
distance_zero (a ∷ s) [] h = absurd (omega arith)
distance_zero (a ∷ s) (b ∷ t) h = elim (Bool-cases (a == b)) [
  | inl e ↦
      ap (λ x. x ∷ s) ((==_iff a b).0 e) ∙ ap (λ xs. b ∷ xs) (distance_zero s t (ground arith))
  | inr e ↦ absurd (ground arith)
]

agrees : (s1 s2 : List ℕ) → levenshtein s1 s2 ≡ distance (reverse s1) (reverse s2)
unfolding levenshtein
agrees s1 s2 =
    if_ind (λ n. n ≡ distance (reverse s1) (reverse s2)) (ltb (length s1) (length s2))
      (λ _. ordered-distance s2 s1 ∙ distance_comm (reverse s2) (reverse s1))
      (λ _. ordered-distance s1 s2)

symmetric : (s1 s2 : List ℕ) → levenshtein s1 s2 ≡ levenshtein s2 s1
symmetric s1 s2 = agrees s1 s2 ∙ distance_comm (reverse s1) (reverse s2) ∙ sym (agrees s2 s1)

zero_iff : (s1 s2 : List ℕ) → (levenshtein s1 s2 ≡ 0) ↔ (s1 ≡ s2)
zero_iff s1 s2 = (
  λ h.
      sym (reverse-reverse s1)
      ∙ ap reverse (distance_zero (reverse s1) (reverse s2) (sym (agrees s1 s2) ∙ h))
      ∙ reverse-reverse s2,
  λ e.
      agrees s1 s2
      ∙ subst (λ t. distance (reverse s1) (reverse t) ≡ 0) e (distance_self (reverse s1)),
)

-- `_levenshtein` computes the edit distance of any two texts, whichever is longer; it is the same
-- in both directions, and zero for equal texts only.
pub levenshtein-distance :
    (s1 s2 : List ℕ)
    → (levenshtein s1 s2 ≡ distance (reverse s1) (reverse s2))
      × (levenshtein s1 s2 ≡ levenshtein s2 s1)
      × ((levenshtein s1 s2 ≡ 0) ↔ (s1 ≡ s2))
levenshtein-distance s1 s2 = (agrees s1 s2, symmetric s1 s2, zero_iff s1 s2)

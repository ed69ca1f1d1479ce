-- ===== src/Naming/Clean/Safe.antt =====
-- A cleaned name and a cleaned path cannot leave their directory.
use automatic_ripping_machin.Common.{
  length, keep, All, All-keep_test, ◌==◌, if_ind, codes, ℕ, ◌≡◌, refl, Bool, true, false, ◌&&◌, [],
  ◌∷◌, arith,
}
use automatic_ripping_machin.Naming.{Word}
use automatic_ripping_machin.Naming.Clean.{
  replace_char, lead, squeeze, lstrip, rstrip, is_kept, is_dot, is_dot_or_space, clean_for_filename,
}

-- The first character, if there is one.
abbrev pub Heads : (ℕ → Type 0) → Word → Type 0
Heads P [] = Unit
Heads P (c ∷ _) = P c

abbrev pub Lasts : (ℕ → Type 0) → Word → Type 0
Lasts P [] = Unit
Lasts P (c ∷ []) = P c
Lasts P (c ∷ d ∷ s) = Lasts P (d ∷ s)

-- Each character with the next one.
abbrev pub Chain : (ℕ → ℕ → Type 0) → Word → Type 0
Chain R [] = Unit
Chain R (c ∷ s) = Heads (R c) s × Chain R s

-- Not both are dots.
abbrev pub OneDot : ℕ → ℕ → Type 0
OneDot a b = (is_dot a && is_dot b) ≡ false

module _ (P : ℕ → Type 0) where
  squeeze-All :
      (test : ℕ → Bool) (c : ℕ) (inside : Bool) (s : Word)
      → P c
      → All P s
      → All P (squeeze test c inside s)
  unfolding squeeze
  squeeze-All test c inside [] p h = tt
  squeeze-All test c inside (d ∷ s) p h =
      elim (test d)
        as (λ b. All P (elim b [
          | true ↦ lead inside c (squeeze test c true s)
          | false ↦ d ∷ squeeze test c false s
        ])) [
          | true ↦ elim inside as (λ b. All P (lead b c (squeeze test c true s))) [
            | true ↦ squeeze-All test c true s p h.1
            | false ↦ (p, squeeze-All test c true s p h.1)
          ]
          | false ↦ (h.0, squeeze-All test c false s p h.1)
        ]

  lstrip-All : (test : ℕ → Bool) (s : Word) → All P s → All P (lstrip test s)
  unfolding lstrip
  lstrip-All test [] h = tt
  lstrip-All test (d ∷ s) h = if_ind (All P) (test d) (λ _. lstrip-All test s h.1) (λ _. h)

  rstrip-All : (test : ℕ → Bool) (s : Word) → All P s → All P (rstrip test s)
  unfolding rstrip
  rstrip-All test [] h = tt
  rstrip-All test (d ∷ s) h =
      if_ind (All P) (test d && length (rstrip test s) == 0) (λ _. tt)
        (λ _. (h.0, rstrip-All test s h.1))

  rstrip-Heads : (test : ℕ → Bool) (s : Word) → Heads P s → Heads P (rstrip test s)
  unfolding rstrip
  rstrip-Heads test [] h = tt
  rstrip-Heads test (d ∷ s) h =
      if_ind (Heads P) (test d && length (rstrip test s) == 0) (λ _. tt) (λ _. h)

lstrip-Heads : (test : ℕ → Bool) (s : Word) → Heads (λ c. test c ≡ false) (lstrip test s)
unfolding lstrip
lstrip-Heads test [] = tt
lstrip-Heads test (d ∷ s) =
    if_ind (Heads (λ c. test c ≡ false)) (test d) (λ _. lstrip-Heads test s) (λ h. h)

rstrip-Lasts : (test : ℕ → Bool) (s : Word) → Lasts (λ c. test c ≡ false) (rstrip test s)
unfolding rstrip
rstrip-Lasts test [] = tt
rstrip-Lasts test (d ∷ s) =
    if_ind (Lasts (λ c. test c ≡ false)) (test d && length (rstrip test s) == 0) (λ _. tt)
      (λ h. longer (rstrip test s) h (rstrip-Lasts test s))
  where
    longer :
        (r : Word)
        → (test d && length r == 0) ≡ false
        → Lasts (λ c. test c ≡ false) r
        → Lasts (λ c. test c ≡ false) (d ∷ r)
    longer [] h k = ground arith
    longer (e ∷ r) h k = k

module _ (R : ℕ → ℕ → Type 0) where
  lstrip-Chain : (test : ℕ → Bool) (s : Word) → Chain R s → Chain R (lstrip test s)
  unfolding lstrip
  lstrip-Chain test [] h = tt
  lstrip-Chain test (d ∷ s) h = if_ind (Chain R) (test d) (λ _. lstrip-Chain test s h.1) (λ _. h)

  rstrip-Chain : (test : ℕ → Bool) (s : Word) → Chain R s → Chain R (rstrip test s)
  unfolding rstrip
  rstrip-Chain test [] h = tt
  rstrip-Chain test (d ∷ s) h =
      if_ind (Chain R) (test d && length (rstrip test s) == 0) (λ _. tt)
        (λ _. (rstrip-Heads (R d) test s h.0, rstrip-Chain test s h.1))

-- No two dots are left side by side, and none after an open run.
abbrev NoDot : Bool → Word → Type 0
NoDot true s = Heads (λ c. is_dot c ≡ false) s
NoDot false s = Unit

squeeze-Chain :
    (inside : Bool) (s : Word)
    → Chain OneDot (squeeze is_dot 46 inside s) × NoDot inside (squeeze is_dot 46 inside s)
unfolding squeeze
squeeze-Chain true [] = (tt, tt)
squeeze-Chain false [] = (tt, tt)
squeeze-Chain inside (d ∷ s) =
    step _ _ (is_dot d) refl (squeeze-Chain true s) (squeeze-Chain false s)
  where
    after_dot : (r : Word) → NoDot true r → Heads (OneDot 46) r
    after_dot [] h = tt
    after_dot (c ∷ r) h = h

    opened :
        (r : Word) (b : Bool)
        → Chain OneDot r × NoDot true r
        → Chain OneDot (lead b 46 r) × NoDot b (lead b 46 r)
    opened r true h = h
    opened r false h = ((after_dot r h.1, h.0), tt)

    before : (r : Word) → is_dot d ≡ false → Heads (OneDot d) r
    before [] h = tt
    before (c ∷ r) h = rw h refl

    plain_first :
        (r : Word) (b : Bool)
        → is_dot d ≡ false
        → Chain OneDot r × NoDot false r
        → Chain OneDot (d ∷ r) × NoDot b (d ∷ r)
    plain_first r true h k = ((before r h, k.0), h)
    plain_first r false h k = ((before r h, k.0), tt)

    step :
        (r q : Word) (b : Bool)
        → is_dot d ≡ b
        → Chain OneDot r × NoDot true r
        → Chain OneDot q × NoDot false q
        → Chain OneDot (elim b [ true ↦ lead inside 46 r | false ↦ d ∷ q ])
          × NoDot inside (elim b [ true ↦ lead inside 46 r | false ↦ d ∷ q ])
    step r q true e h k = opened r inside h
    step r q false e h k = plain_first q inside e k

module _ (is_word is_space : ℕ → Bool) where
  -- Only the kept characters, no two dots side by side, and neither a dot nor a space at an end.
  pub record IsSafe (s : Word) : Type 0 where
    pub kept : All (λ c. is_kept is_word c ≡ true) s
    pub one_dot : Chain OneDot s
    pub first : Heads (λ c. is_dot_or_space c ≡ false) s
    pub final : Lasts (λ c. is_dot_or_space c ≡ false) s

  dot-is_kept : is_kept is_word 46 ≡ true
  dot-is_kept = ground arith

  -- Whatever the text is.
  pub clean_for_filename-IsSafe : (s : Word) → IsSafe (clean_for_filename is_word is_space s)
  unfolding clean_for_filename
  clean_for_filename-IsSafe s =
      let kept = keep (is_kept is_word) (
        replace_char 92 (codes " - ") (
          replace_char 38 (codes "and")
            (squeeze is_space 32 false (replace_char 58 (codes " - ") s)))) in
      let dots = squeeze is_dot 46 false kept in
      let cut = lstrip is_dot_or_space dots in
      record {
        kept = rstrip-All _ is_dot_or_space cut (
            lstrip-All _ is_dot_or_space dots (
              squeeze-All _ is_dot 46 false kept dot-is_kept
                (All-keep_test _ (is_kept is_word) _ (λ c h. h))));
        one_dot =
            rstrip-Chain OneDot is_dot_or_space cut
              (lstrip-Chain OneDot is_dot_or_space dots (squeeze-Chain false kept).0);
        first = rstrip-Heads _ is_dot_or_space cut (lstrip-Heads is_dot_or_space dots);
        final = rstrip-Lasts is_dot_or_space cut;
      }

-- ===== src/Naming/Clean/Confined.antt =====
-- The path of a rendered folder stays below its base.
use automatic_ripping_machin.Common.{
  length, keep, All, All-append, All-mono, All-every, All-map, ◌==◌, ==_iff, Bool-cases, if_ind, ℕ,
  ◌≡◌, refl, sym, ◌∙◌, inl, inr, Bool, true, false, not, ◌&&◌, ◌||◌, false≢true, List, [], ◌∷◌,
  ◌++◌, map, arith,
}
use automatic_ripping_machin.Naming.{Word}
use automatic_ripping_machin.Naming.Clean.{
  is_kept, is_dot, is_dot_or_space, strip, clean_for_filename, split_slash, starts_slash,
  ends_slash, join_two, join_from, join_parts, clean_path,
}
use automatic_ripping_machin.Naming.Clean.Safe.{
  Heads, Chain, OneDot, IsSafe, clean_for_filename-IsSafe,
}

-- The second of two neighbours in a path is a dot only behind a character of a name.
abbrev pub Onward : ℕ → ℕ → Type 0
Onward a b = (is_dot b && (is_dot a || a == 47)) ≡ false

Heads-append : (P : ℕ → Type 0) (a b : Word) → Heads P a → Heads P b → Heads P (a ++ b)
Heads-append P [] b h k = k
Heads-append P (c ∷ a) b h k = h

Chain-append :
    (R : ℕ → ℕ → Type 0) (a b : Word)
    → Chain R a
    → Chain R b
    → ((c : ℕ) → Heads (R c) b)
    → Chain R (a ++ b)
Chain-append R [] b h k f = k
Chain-append R (c ∷ a) b h k f = (Heads-append (R c) a b h.0 (f c), Chain-append R a b h.1 k f)

-- A relative path: only kept characters and slashes, no component that starts with a dot, so
-- none that is `.` or `..`, and no slash or dot at the start.
pub record IsConfined (is_word : ℕ → Bool) (p : Word) : Type 0 where
  pub characters : All (λ c. (is_kept is_word c || c == 47) ≡ true) p
  pub onward : Chain Onward p
  pub first : Heads (λ c. (is_dot c || c == 47) ≡ false) p

module _ (is_word is_space : ℕ → Bool) where
  module _ (no_slash : is_word 47 ≡ false) where
    kept-ne-slash : (c : ℕ) → is_kept is_word c ≡ true → (c == 47) ≡ false
    kept-ne-slash c h = elim (Bool-cases (c == 47)) [
      | inl e ↦ elim (false≢true (sym (not_kept c ((==_iff c 47).0 e)) ∙ h)) [ ]
      | inr e ↦ e
    ]
      where
        not_kept : (c : ℕ) → c ≡ 47 → is_kept is_word c ≡ false
        not_kept c e = rw e (rw no_slash refl)

    Onward-of_one :
        (s : Word) → All (λ c. is_kept is_word c ≡ true) s → Chain OneDot s → Chain Onward s
    Onward-of_one [] h k = tt
    Onward-of_one (c ∷ s) h k = (pair c s (kept-ne-slash c h.0) k.0, Onward-of_one s h.1 k.1)
      where
        pair : (c : ℕ) (s : Word) → (c == 47) ≡ false → Heads (OneDot c) s → Heads (Onward c) s
        pair c [] e h = tt
        pair c (d ∷ s) e h = ground arith

    segment_head :
        (s : Word)
        → All (λ c. is_kept is_word c ≡ true) s
        → Heads (λ c. is_dot_or_space c ≡ false) s
        → Heads (λ c. (is_dot c || c == 47) ≡ false) s
    segment_head [] h k = tt
    segment_head (c ∷ s) h k = let e = kept-ne-slash c h.0 in ground arith

    IsSafe-IsConfined : (s : Word) → IsSafe is_word is_space s → IsConfined is_word s
    IsSafe-IsConfined s h = record {
      characters = All-mono _ _ s (λ c k. rw k refl) h.kept;
      onward = Onward-of_one s h.kept h.one_dot;
      first = segment_head s h.kept h.first;
    }

    no_slash_first :
        (s : Word) → Heads (λ c. (is_dot c || c == 47) ≡ false) s → starts_slash s ≡ false
    no_slash_first [] h = refl
    no_slash_first (c ∷ s) h = ground arith

    after_any :
        (s : Word) → Heads (λ c. (is_dot c || c == 47) ≡ false) s → (a : ℕ) → Heads (Onward a) s
    after_any [] h a = tt
    after_any (c ∷ s) h a = ground arith

    slash_head :
        (a b : Word)
        → ends_slash a ≡ false
        → Heads (λ c. (is_dot c || c == 47) ≡ false) a
        → Heads (λ c. (is_dot c || c == 47) ≡ false) (a ++ 47 ∷ b)
    unfolding ends_slash
    slash_head [] b e h = cc
    slash_head (c ∷ a) b e h = h

    join_two-IsConfined :
        (a b : Word)
        → IsConfined is_word a
        → IsConfined is_word b
        → IsConfined is_word (join_two a b)
    join_two-IsConfined a b h k = rw (no_slash_first b k.first) (
        if_ind (IsConfined is_word) (ends_slash a)
          (λ _. record {
            characters = All-append _ a b h.characters k.characters;
            onward = Chain-append Onward a b h.onward k.onward (after_any b k.first);
            first = Heads-append _ a b h.first k.first;
          })
          (λ e. record {
            characters = All-append _ a (47 ∷ b) h.characters (ground arith, k.characters);
            onward =
                Chain-append Onward a (47 ∷ b) h.onward (after_any b k.first 47, k.onward)
                  (λ c. refl);
            first = slash_head a b e h.first;
          }))

    join_from-IsConfined :
        (a : Word) (bs : List Word)
        → IsConfined is_word a
        → All (IsConfined is_word) bs
        → IsConfined is_word (join_from a bs)
    unfolding join_from
    join_from-IsConfined a [] h k = h
    join_from-IsConfined a (b ∷ bs) h k =
        join_from-IsConfined (join_two a b) bs (join_two-IsConfined a b h k.0) k.1

    -- Where a slash is no character of a word: whatever the rendered text is, the path of the folder
    -- is relative, and has no component that starts with a dot and no other character than those
    -- that are kept in a name.
    pub clean_path-IsConfined : (s : Word) → IsConfined is_word (clean_path is_word is_space s)
    unfolding clean_path
    clean_path-IsConfined s =
        joined
          (map (clean_for_filename is_word is_space)
            (keep (λ seg. not (length (strip is_space seg) == 0)) (split_slash s)))
          (All-map (IsConfined is_word) _ _ (
            All-every _ _
              (λ seg. IsSafe-IsConfined _ (clean_for_filename-IsSafe is_word is_space seg))))
      where
        joined : (ws : List Word) → All (IsConfined is_word) ws → IsConfined is_word (join_parts ws)
        joined [] h = record { characters = tt; onward = tt; first = tt }
        joined (w ∷ ws) h = join_from-IsConfined w ws h.0 h.1

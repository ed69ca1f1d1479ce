-- ===== src/Naming/Suggestions.antt =====
-- What `validate_pattern` answers.
use automatic_ripping_machin.Common.{
  length, keep, any, All, All-mono, ltb, leb, ◌==◌, if◌then◌else◌, leb→le, ==_iff, ==_refl,
  Bool-cases, if_ind, ℕ, suc, ◌≤◌, ◌≡◌, refl, ap, ◌∙◌, subst, ◌↔◌, inl, inr, Bool, true, not,
  or-true, false≢true, List, [], ◌∷◌, arith,
}
use automatic_ripping_machin.Naming.{
  levenshtein, Word, same_word, is_var, find_tokens, best, set_suggestion, suggest,
  validate_pattern,
}

not_zero : (n : ℕ) → (suc n == 0) ≡ true → ⊥
not_zero n h = ground arith

none_fails :
    (p : Word → Bool) (ts : List Word)
    → ((length (keep (λ t. not (p t)) ts) == 0) ≡ true) ↔ All (λ t. p t ≡ true) ts
none_fails p [] = (λ _. tt, λ _. refl)
none_fails p (t ∷ ts) = elim (Bool-cases (p t)) [
  | inl e ↦ rw e (λ h. (refl, (none_fails p ts).0 h), λ k. (none_fails p ts).1 k.1)
  | inr e ↦ rw e (λ h. elim (not_zero _ h) [ ], λ k. elim (false≢true k.0) [ ])
]

-- What holds of every variable holds of the best one.
best-All :
    (P : Word → Type 0) (inv : Word) (vs : List Word) (v : Word)
    → P v
    → All P vs
    → P (best inv v vs)
unfolding best
best-All P inv [] v p h = p
best-All P inv (w ∷ ws) v p h =
    best-All P inv ws (if ltb (levenshtein inv w) (levenshtein inv v) then w else v)
      (if_ind P (ltb (levenshtein inv w) (levenshtein inv v)) (λ _. h.0) (λ _. p)) h.1

nearer :
    (inv v w : Word)
    → let u = if ltb (levenshtein inv w) (levenshtein inv v) then w else v in
      (levenshtein inv u ≤ levenshtein inv v) × (levenshtein inv u ≤ levenshtein inv w)
nearer inv v w =
    if_ind
      (λ (u : Word).
        (levenshtein inv u ≤ levenshtein inv v) × (levenshtein inv u ≤ levenshtein inv w))
      (ltb (levenshtein inv w) (levenshtein inv v)) (λ e. ground arith) (λ e. ground arith)

best_least :
    (inv : Word) (vs : List Word) (v : Word)
    → (levenshtein inv (best inv v vs) ≤ levenshtein inv v)
      × All (λ w. levenshtein inv (best inv v vs) ≤ levenshtein inv w) vs
unfolding best
best_least inv [] v = (omega arith, tt)
best_least inv (w ∷ ws) v =
    let u = if ltb (levenshtein inv w) (levenshtein inv v) then w else v in
    let ih = best_least inv ws u in
    let both = nearer inv v w in (omega (arith, ih.0, both.0), (omega (arith, ih.0, both.1), ih.1))

-- A variable within two edits of the token, and none is nearer.
pub record IsNearest (v : Word) (vs : List Word) (inv suggestion : Word) : Type 0 where
  pub near : levenshtein inv suggestion ≤ 2
  pub nearest : All (λ w. levenshtein inv suggestion ≤ levenshtein inv w) (v ∷ vs)
  pub among : is_var (v ∷ vs) suggestion ≡ true

pub same_word_refl : (w : Word) → same_word w w ≡ true
unfolding same_word
same_word_refl [] = refl
same_word_refl (a ∷ w) = rw (==_refl a) (same_word_refl w)

vars_self : (vs : List Word) → All (λ w. is_var vs w ≡ true) vs
vars_self [] = tt
vars_self (v ∷ vs) =
    (rw (same_word_refl v) refl, All-mono _ _ vs (λ w h. rw h (or-true _)) (vars_self vs))

best-IsNearest :
    (v : Word) (vs : List Word) (inv : Word)
    → levenshtein inv (best inv v vs) ≤ 2
    → IsNearest v vs inv (best inv v vs)
best-IsNearest v vs inv h =
    let least = best_least inv vs v in
    let own = vars_self (v ∷ vs) in
    record {
      near = h;
      nearest = (least.0, least.1);
      among = best-All (λ w. is_var (v ∷ vs) w ≡ true) inv vs v own.0 own.1;
    }

module _ (v : Word) (vs : List Word) where
  abbrev pub Nearest : Word × Word → Type 0
  Nearest (inv, suggestion) = IsNearest v vs inv suggestion

  set-Nearest :
      (inv w : Word) (m : List (Word × Word))
      → IsNearest v vs inv w
      → All Nearest m
      → All Nearest (set_suggestion inv w m)
  unfolding set_suggestion
  set-Nearest inv w [] n h = (n, tt)
  set-Nearest inv w ((k, u) ∷ m) n h =
      if_ind (All Nearest) (same_word k inv) (λ _. (n, h.1)) (λ _. (h.0, set-Nearest inv w m n h.1))

  suggest-Nearest :
      (invalid : List Word) (m : List (Word × Word))
      → All Nearest m
      → All Nearest (suggest v vs invalid m)
  unfolding suggest
  suggest-Nearest [] m h = h
  suggest-Nearest (inv ∷ more) m h = suggest-Nearest more _ (
      if_ind (All Nearest) (leb (levenshtein inv (best inv v vs)) 2)
        (λ e. set-Nearest inv _ m (best-IsNearest v vs inv (leb→le _ 2 e)) h) (λ _. h))

-- The token has a suggestion.
abbrev pub has_suggestion : Word → List (Word × Word) → Bool
has_suggestion inv m = any (λ (s : Word × Word). same_word s.0 inv) m

pub same_word_eq : (s t : Word) → same_word s t ≡ true → s ≡ t
unfolding same_word
same_word_eq [] [] h = refl
same_word_eq [] (b ∷ t) h = absurd (ground arith)
same_word_eq (a ∷ s) [] h = absurd (ground arith)
same_word_eq (a ∷ s) (b ∷ t) h = elim (Bool-cases (a == b)) [
  | inl e ↦ ap (λ x. x ∷ s) ((==_iff a b).0 e) ∙ ap (λ xs. b ∷ xs) (same_word_eq s t (ground arith))
  | inr e ↦ absurd (ground arith)
]

-- Once the suggestion of a token is set, it stays.
set_keeps :
    (inv t w : Word) (m : List (Word × Word))
    → has_suggestion t m ≡ true
    → has_suggestion t (set_suggestion inv w m) ≡ true
unfolding set_suggestion
set_keeps inv t w [] h = elim (false≢true h) [ ]
set_keeps inv t w ((k, u) ∷ m) h = elim (Bool-cases (same_word k inv)) [
  | inl e ↦ rw e (subst (λ x. has_suggestion t ((x, u) ∷ m) ≡ true) (same_word_eq k inv e) h)
  | inr e ↦ rw e (ground (arith, set_keeps inv t w m))
]

set_sets :
    (inv w : Word) (m : List (Word × Word)) → has_suggestion inv (set_suggestion inv w m) ≡ true
unfolding set_suggestion
set_sets inv w [] = rw (same_word_refl inv) refl
set_sets inv w ((k, u) ∷ m) =
    if_ind (λ (n : List (Word × Word)). has_suggestion inv n ≡ true) (same_word k inv)
      (λ _. rw (same_word_refl inv) refl) (λ _. rw (set_sets inv w m) (or-true _))

module _ (v : Word) (vs : List Word) where
  suggest_keeps :
      (t : Word) (invalid : List Word) (m : List (Word × Word))
      → has_suggestion t m ≡ true
      → has_suggestion t (suggest v vs invalid m) ≡ true
  unfolding suggest
  suggest_keeps t [] m h = h
  suggest_keeps t (inv ∷ more) m h = suggest_keeps t more _ (
      if_ind (λ (n : List (Word × Word)). has_suggestion t n ≡ true)
        (leb (levenshtein inv (best inv v vs)) 2) (λ _. set_keeps inv t (best inv v vs) m h)
        (λ _. h))

  suggest_finds :
      (invalid : List Word) (m : List (Word × Word))
      → All
          (λ t. levenshtein t (best t v vs) ≤ 2 → has_suggestion t (suggest v vs invalid m) ≡ true)
          invalid
  unfolding suggest
  suggest_finds [] m = tt
  suggest_finds (inv ∷ more) m = (
    λ near. suggest_keeps inv more _ (
        if_ind (λ (n : List (Word × Word)). has_suggestion inv n ≡ true)
          (leb (levenshtein inv (best inv v vs)) 2) (λ _. set_sets inv (best inv v vs) m)
          (λ far. absurd (ground (arith, near, far)))),
    suggest_finds more _,
  )

  -- Some variable is within two edits.
  abbrev pub has_near : Word → Bool
  has_near t = any (λ w. leb (levenshtein t w) 2) (v ∷ vs)

  near_best : (t : Word) → has_near t ≡ true → levenshtein t (best t v vs) ≤ 2
  near_best t h = let least = best_least t vs v in go (v ∷ vs) (least.0, least.1) h
    where
      go :
          (ws : List Word)
          → All (λ w. levenshtein t (best t v vs) ≤ levenshtein t w) ws
          → any (λ w. leb (levenshtein t w) 2) ws ≡ true
          → levenshtein t (best t v vs) ≤ 2
      go [] k h = absurd (ground arith)
      go (w ∷ ws) k h = elim (Bool-cases (leb (levenshtein t w) 2)) [
        | inl e ↦ omega (arith, k.0, leb→le (levenshtein t w) 2 e)
        | inr e ↦ go ws k.1 (ground arith)
      ]

  -- The verdict on a pattern: it is valid exactly when every token of it is a variable. Every
  -- suggestion is a variable within two edits of its token, and no variable is nearer; every token
  -- that is no variable, but has one within two edits, gets a suggestion.
  pub validate_pattern_suggests :
      (is_word : ℕ → Bool) (pattern : List ℕ)
      → let r = validate_pattern is_word v vs pattern in
        ((r.valid ≡ true) ↔ All (λ t. is_var (v ∷ vs) t ≡ true) (find_tokens is_word 0 pattern))
        × All (Nearest v vs) r.suggestions
        × All (λ t. has_near t ≡ true → has_suggestion t r.suggestions ≡ true) r.invalid_vars
  unfolding validate_pattern
  validate_pattern_suggests is_word pattern =
      let tokens = find_tokens is_word 0 pattern in
      let invalid = keep (λ t. not (is_var (v ∷ vs) t)) tokens in
      (
        none_fails (is_var (v ∷ vs)) tokens,
        suggest-Nearest v vs invalid [] tt,
        All-mono _ _ invalid (λ t found near. found (near_best t near)) (suggest_finds invalid []),
      )

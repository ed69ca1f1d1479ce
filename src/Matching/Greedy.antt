-- ===== src/Matching/Greedy.antt =====
-- The greedy assignment is a maximal matching within the tolerance.
use automatic_ripping_machin.Common.{
  get_elem?, any, All, All-append, All-mono, some_inj, Apart, sort, All-sort, All-of_sort, leb,
  ◌==◌, if◌then◌else◌, leb→le, if_ind, ℕ, zero, suc, ◌+◌, ◌≤◌, ◌≡◌, refl, sym, ◌∙◌, subst, ◌⊎◌, inl,
  inr, Bool, true, false, ◌&&◌, or-true, false≢true, none, some, List, [], ◌∷◌, ◌++◌, arith,
}
use automatic_ripping_machin.Matching.{
  Track, Episode, Pair, distance, pairs_of, build_pairs, pair_before, meets, take_pairs,
  greedy_pairs,
}

-- The pair stands for a track and an episode whose lengths differ by `delta`, at most by the
-- tolerance.
pub record IsPair (tolerance : ℕ) (ts : List Track) (es : List Episode) (p : Pair) : Type 0 where
  pub track : Track
  pub episode : Episode
  pub at_track : get_elem? ts p.ti ≡ some track
  pub at_episode : get_elem? es p.ei ≡ some episode
  pub delta : p.delta ≡ distance track.length episode.runtime
  pub within : p.delta ≤ tolerance

take_pairs-All : (P : Pair → Type 0) (used ps : List Pair) → All P ps → All P (take_pairs used ps)
unfolding take_pairs
take_pairs-All P used [] h = tt
take_pairs-All P used (p ∷ ps) h =
    if_ind (All P) (any (meets p) used) (λ _. take_pairs-All P used ps h.1)
      (λ _. (h.0, take_pairs-All P (p ∷ used) ps h.1))

-- A pair of `used` is met by nothing that is taken later.
taken_apart :
    (u : Pair) (used ps : List Pair)
    → any (λ v. (v.ti == u.ti) && (v.ei == u.ei)) used ≡ true
    → All (λ p. meets u p ≡ false) (take_pairs used ps)
unfolding take_pairs
taken_apart u used [] h = tt
taken_apart u used (p ∷ ps) h =
    if_ind (All (λ p. meets u p ≡ false)) (any (meets p) used) (λ _. taken_apart u used ps h)
      (λ clear. (apart u p used h clear, taken_apart u (p ∷ used) ps (rw h (or-true _))))
  where
    apart :
        (u p : Pair) (used : List Pair)
        → any (λ v. (v.ti == u.ti) && (v.ei == u.ei)) used ≡ true
        → any (meets p) used ≡ false
        → meets u p ≡ false
    apart u p [] h k = elim (false≢true h) [ ]
    apart u p (v ∷ used) h k = ground (arith, apart u p used)

take_pairs-Apart : (used ps : List Pair) → Apart meets (take_pairs used ps)
unfolding take_pairs
take_pairs-Apart used [] = tt
take_pairs-Apart used (p ∷ ps) =
    if_ind (Apart meets) (any (meets p) used) (λ _. take_pairs-Apart used ps)
      (λ _. (taken_apart p (p ∷ used) ps (ground arith), take_pairs-Apart (p ∷ used) ps))

-- Every pair meets one that was taken.
take_pairs_maximal :
    (used ps : List Pair)
    → All (λ p. (any (meets p) used ≡ true) ⊎ (any (meets p) (take_pairs used ps) ≡ true)) ps
unfolding take_pairs
take_pairs_maximal used [] = tt
take_pairs_maximal used (p ∷ ps) =
    if_ind
      (λ (taken : List Pair).
        ((any (meets p) used ≡ true) ⊎ (any (meets p) taken ≡ true))
        × All (λ q. (any (meets q) used ≡ true) ⊎ (any (meets q) taken ≡ true)) ps)
      (any (meets p) used) (λ e. (inl e, take_pairs_maximal used ps))
      (λ e.
        (inr (ground arith), All-mono _ _ ps (λ q k. later q k) (take_pairs_maximal (p ∷ used) ps)))
  where
    later :
        (q : Pair)
        → (any (meets q) (p ∷ used) ≡ true) ⊎ (any (meets q) (take_pairs (p ∷ used) ps) ≡ true)
        → (any (meets q) used ≡ true) ⊎ (any (meets q) (p ∷ take_pairs (p ∷ used) ps) ≡ true)
    later q (inl k) = ground arith
    later q (inr k) = inr (rw k (or-true _))

-- The element with the number `i`, where the list is numbered from `n`.
abbrev Located {ℓ} : {A : Type ℓ} → ℕ → List A → ℕ → A → Type ℓ
Located n xs i x = (k : ℕ) × (i ≡ n + k) × (get_elem? xs k ≡ some x)

later-Located {ℓ} :
    {A : Type ℓ} (n : ℕ) (y : A) (xs : List A) (i : ℕ) (x : A)
    → Located (suc n) xs i x
    → Located n (y ∷ xs) i x
later-Located n y xs i x (k, e, h) = (suc k, omega arith, h)

Located-here {ℓ} : {A : Type ℓ} (n : ℕ) (x : A) (xs : List A) → Located n (x ∷ xs) n x
Located-here n x xs = (0, omega arith, refl)

module _ (tolerance : ℕ) where
  pairs_of-Located :
      (ti : ℕ) (t : Track) (ei : ℕ) (es : List Episode)
      → All
          (λ p.
            (p.ti ≡ ti)
            × ((e : Episode) × Located ei es p.ei e
                × (p.delta ≡ distance t.length e.runtime)
                × (p.delta ≤ tolerance)))
          (pairs_of tolerance ti t ei es)
  unfolding pairs_of
  pairs_of-Located ti t ei [] = tt
  pairs_of-Located ti t ei (e ∷ es) =
      let rest =
        All-mono _ _ _ (λ p h. (h.0, (h.1.0, later-Located ei e es p.ei h.1.0 h.1.1, h.1.2, h.1.3)))
          (pairs_of-Located ti t (suc ei) es) in
      if_ind (All _) (leb (distance t.length e.runtime) tolerance)
        (λ k. ((refl, (e, Located-here ei e es, refl, leb→le _ _ k)), rest)) (λ _. rest)

  build_pairs-Located :
      (ti : ℕ) (ts : List Track) (es : List Episode)
      → All
          (λ p.
            (t : Track) × Located ti ts p.ti t
            × ((e : Episode) × Located 0 es p.ei e
                × (p.delta ≡ distance t.length e.runtime)
                × (p.delta ≤ tolerance)))
          (build_pairs tolerance ti ts es)
  unfolding build_pairs
  build_pairs-Located ti [] es = tt
  build_pairs-Located ti (t ∷ ts) es =
      All-append _ (pairs_of tolerance ti t 0 es) _
        (All-mono _ _ _ (λ p h. (t, (0, h.0 ∙ omega arith, refl), h.1))
          (pairs_of-Located ti t 0 es))
        (All-mono _ _ _ (λ p h. (h.0, later-Located ti t ts p.ti h.0 h.1, h.2))
          (build_pairs-Located (suc ti) ts es))

none_is_nothing {ℓ} : {A : Type ℓ} {a : A} → none ≡ some a → ⊥
none_is_nothing h = cc

at_start : (n i : ℕ) → i ≡ n + 0 → n ≡ i
at_start n i h = omega arith

le_leb : (a b : ℕ) → a ≤ b → leb a b ≡ true
le_leb a b h = ground arith

module _ (P : Pair → Type 0) where
  first_kept :
      (b : Bool) (p : Pair) (ps : List Pair) → b ≡ true → All P (if b then p ∷ ps else ps) → P p
  first_kept true p ps e h = h.0
  first_kept false p ps e h = elim (false≢true e) [ ]

  rest_kept : (b : Bool) (p : Pair) (ps : List Pair) → All P (if b then p ∷ ps else ps) → All P ps
  rest_kept true p ps h = h.1
  rest_kept false p ps h = h

  All-append_left : (xs ys : List Pair) → All P (xs ++ ys) → All P xs
  All-append_left [] ys h = tt
  All-append_left (x ∷ xs) ys h = (h.0, All-append_left xs ys h.1)

  All-append_right : (xs ys : List Pair) → All P (xs ++ ys) → All P ys
  All-append_right [] ys h = h
  All-append_right (x ∷ xs) ys h = All-append_right xs ys h.1

module _ (tolerance : ℕ) (P : Pair → Type 0) where
  -- What holds of every pair holds of the pair of a track and an episode within the tolerance.
  pairs_of_all :
      (ti : ℕ) (t : Track) (ei : ℕ) (es : List Episode) (i : ℕ) (e : Episode)
      → All P (pairs_of tolerance ti t ei es)
      → Located ei es i e
      → distance t.length e.runtime ≤ tolerance
      → P (record { delta = distance t.length e.runtime; ti = ti; ei = i })
  unfolding pairs_of
  pairs_of_all ti t ei [] i e h (k, n, at) d = elim (none_is_nothing at) [ ]
  pairs_of_all ti t ei (y ∷ es) i e h (zero, n, at) d =
      let same = some_inj at in
      subst (λ x. P (record { delta = distance t.length x.runtime; ti = ti; ei = i })) same
        (subst (λ j. P (record { delta = distance t.length y.runtime; ti = ti; ei = j }))
          (at_start ei i n)
          (first_kept P (leb (distance t.length y.runtime) tolerance) _
            (pairs_of tolerance ti t (suc ei) es)
            (le_leb _ tolerance (subst (λ x. distance t.length x.runtime ≤ tolerance) (sym same) d))
            h))
  pairs_of_all ti t ei (y ∷ es) i e h (suc k, n, at) d =
      pairs_of_all ti t (suc ei) es i e
        (rest_kept P (leb (distance t.length y.runtime) tolerance) _
          (pairs_of tolerance ti t (suc ei) es) h)
        (k, n ∙ omega arith, at) d

  build_pairs_all :
      (ti : ℕ) (ts : List Track) (es : List Episode) (i j : ℕ) (t : Track) (e : Episode)
      → All P (build_pairs tolerance ti ts es)
      → Located ti ts i t
      → get_elem? es j ≡ some e
      → distance t.length e.runtime ≤ tolerance
      → P (record { delta = distance t.length e.runtime; ti = i; ei = j })
  unfolding build_pairs
  build_pairs_all ti [] es i j t e h (k, n, at) there d = elim (none_is_nothing at) [ ]
  build_pairs_all ti (y ∷ ts) es i j t e h (zero, n, at) there d =
      let same = some_inj at in
      subst (λ m. P (record { delta = distance t.length e.runtime; ti = m; ei = j }))
        (at_start ti i n)
        (pairs_of_all ti t 0 es j e
          (subst (λ x. All P (pairs_of tolerance ti x 0 es)) same
            (All-append_left P (pairs_of tolerance ti y 0 es) _ h))
          (j, omega arith, there) d)
  build_pairs_all ti (y ∷ ts) es i j t e h (suc k, n, at) there d =
      build_pairs_all (suc ti) ts es i j t e (All-append_right P (pairs_of tolerance ti y 0 es) _ h)
        (k, n ∙ omega arith, at) there d

-- The greedy assignment: every pair is of a track and an episode of the lists whose lengths differ
-- by its delta, which is within the tolerance; no track and no episode stands in two pairs; and it
-- is maximal: of a track and an episode within the tolerance, one at least is assigned.
pub greedy_pairs_matching :
    (tolerance : ℕ) (ts : List Track) (es : List Episode)
    → All (IsPair tolerance ts es) (greedy_pairs tolerance ts es)
      × Apart meets (greedy_pairs tolerance ts es)
      × ((i j : ℕ) (t : Track) (e : Episode)
          → get_elem? ts i ≡ some t
          → get_elem? es j ≡ some e
          → distance t.length e.runtime ≤ tolerance
          → any
              (meets (record { delta = distance t.length e.runtime; ti = i; ei = j }))
              (greedy_pairs tolerance ts es)
            ≡ true)
unfolding greedy_pairs
greedy_pairs_matching tolerance ts es =
    let pairs = build_pairs tolerance 0 ts es in
    let line = sort pair_before pairs in
    (
      take_pairs-All (IsPair tolerance ts es) [] line (
          All-sort pair_before _ pairs
            (All-mono _ _ pairs (λ p h. is_pair p h) (build_pairs-Located tolerance 0 ts es))),
      take_pairs-Apart [] line,
      λ i j t e at there d.
          build_pairs_all tolerance (λ p. any (meets p) (take_pairs [] line) ≡ true) 0 ts es i j t e
            (All-of_sort pair_before _ pairs
              (All-mono _ _ line (λ p h. taken p h) (take_pairs_maximal [] line)))
            (i, omega arith, at) there d,
    )
  where
    is_pair :
        (p : Pair)
        → (t : Track) × Located 0 ts p.ti t
          × ((e : Episode) × Located 0 es p.ei e
              × (p.delta ≡ distance t.length e.runtime)
              × (p.delta ≤ tolerance))
        → IsPair tolerance ts es p
    is_pair p (t, (k, n, at), (e, (l, m, there), d, w)) = record {
      track = t;
      episode = e;
      at_track = subst (λ i. get_elem? ts i ≡ some t) (sym (n ∙ omega arith)) at;
      at_episode = subst (λ i. get_elem? es i ≡ some e) (sym (m ∙ omega arith)) there;
      delta = d;
      within = w;
    }

    taken :
        (p : Pair)
        → (false ≡ true)
          ⊎ (any (meets p) (take_pairs [] (sort pair_before (build_pairs tolerance 0 ts es)))
              ≡ true)
        → any (meets p) (take_pairs [] (sort pair_before (build_pairs tolerance 0 ts es))) ≡ true
    taken p (inl h) = elim (false≢true h) [ ]
    taken p (inr h) = h

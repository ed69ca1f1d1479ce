-- ===== src/Makemkv/Reconcile/Matching.antt =====
-- No two tracks get one file.
use automatic_ripping_machin.Common.{
  keep, any, map_if, All, All-keep, All-keep_test, All-mono, All-zip, Holds, Apart, All-of_none,
  ◌==◌, Bool-cases, if_ind, str_eq, String, ◌≡◌, refl, sym, ap, ◌∙◌, ◌⊎◌, inl, inr, Bool, true,
  false, not, ◌&&◌, ◌||◌, or-true, false≢true, Option, none, some, List, [], ◌∷◌, arith, eq_iff,
}
use automatic_ripping_machin.Makemkv.{Track}
use automatic_ripping_machin.Makemkv.Reconcile.{
  Claim, State, is_claimed, is_matched, has_track_id, set_filename, claim, exact_name, claim_found,
  exact_match_pass, candidates, only_one, prefix_name, State2, claim_only, claim_prefix,
  prefix_loop,
}

-- Two claims with one track or one file.
abbrev pub clash : Claim → Claim → Bool
clash c d = (d.0 == c.0) || str_eq d.1 c.1

abbrev pub on_disk : List String → String → Bool
on_disk files f = any (str_eq f) files

-- The claims are of different tracks and different files, the files are on the disk, and a
-- claimed track has the name of its file.
pub record IsMatching (files : List String) (s : State) : Type 0 where
  pub apart : Apart clash s.claims
  pub there : All (λ c. on_disk files c.1 ≡ true) s.claims
  pub named :
      All (λ c. All (λ t. has_track_id c.0 t ≡ true → t.filename ≡ some c.1) s.tracks) s.claims

module _ (t : Track) (f : String) where
  named_new :
      (ts : List Track)
      → All
          (λ u. has_track_id t.track_id u ≡ true → u.filename ≡ some f)
          (map_if (has_track_id t.track_id) (set_filename f) ts)
  named_new [] = tt
  named_new (u ∷ us) = (
    if_ind (λ (x : Track). has_track_id t.track_id x ≡ true → x.filename ≡ some f)
        (has_track_id t.track_id u) (λ _ _. refl) (λ e k. elim (false≢true (sym e ∙ k)) [ ]),
    named_new us,
  )

  named_old :
      (c : Claim) (ts : List Track)
      → (c.0 == t.track_id) ≡ false
      → All (λ u. has_track_id c.0 u ≡ true → u.filename ≡ some c.1) ts
      → All
          (λ u. has_track_id c.0 u ≡ true → u.filename ≡ some c.1)
          (map_if (has_track_id t.track_id) (set_filename f) ts)
  named_old c [] ne h = tt
  named_old c (u ∷ us) ne h = (
    if_ind (λ (x : Track). has_track_id c.0 x ≡ true → x.filename ≡ some c.1)
        (has_track_id t.track_id u) (λ e k. elim (other_id c u ne e k) [ ]) (λ _. h.0),
    named_old c us ne h.1,
  )
    where
      other_id :
          (c : Claim) (u : Track)
          → (c.0 == t.track_id) ≡ false
          → has_track_id t.track_id u ≡ true
          → has_track_id c.0 u ≡ true
          → ⊥
      other_id c u ne e k = ground arith

  pub claim-IsMatching :
      (files : List String) (s : State)
      → is_matched s.claims t ≡ false
      → is_claimed s.claims f ≡ false
      → on_disk files f ≡ true
      → IsMatching files s
      → IsMatching files (claim t f s)
  unfolding claim
  claim-IsMatching files s free_track free_file there h =
      let tracks_differ = All-of_none (λ (c : Claim). c.0 == t.track_id) s.claims free_track in
      let files_differ = All-of_none (λ (c : Claim). str_eq c.1 f) s.claims free_file in
      record {
        apart = (
          All-mono _ _ s.claims (λ c k. rw (k.0, k.1) refl)
              (All-zip _ _ s.claims tracks_differ files_differ),
          h.apart,
        );
        there = (there, h.there);
        named = (
          named_new s.tracks,
          All-mono _ _ s.claims (λ c k. named_old c s.tracks k.0 k.1)
              (All-zip _ _ s.claims tracks_differ h.named),
        );
      }

module _ (files : List String) where
  exact-Holds :
      (claims : List Claim) (name : Option String)
      → Holds
          (λ f. (is_claimed claims f ≡ false) × (on_disk files f ≡ true))
          (exact_name files claims name)
  exact-Holds claims none = tt
  exact-Holds claims (some f) =
      if_ind (Holds (λ f. (is_claimed claims f ≡ false) × (on_disk files f ≡ true)))
        (on_disk files f && not (is_claimed claims f)) (λ e. (ground arith, ground arith)) (λ _. tt)

  found-IsMatching :
      (t : Track) (s : State) (o : Option String)
      → is_matched s.claims t ≡ false
      → Holds (λ f. (is_claimed s.claims f ≡ false) × (on_disk files f ≡ true)) o
      → IsMatching files s
      → IsMatching files (claim_found t o s)
  found-IsMatching t s none e k h = h
  found-IsMatching t s (some f) e k h = claim-IsMatching t f files s e k.0 k.1 h

  pub exact-IsMatching :
      (ts : List Track) (s : State)
      → IsMatching files s
      → IsMatching files (exact_match_pass files ts s)
  unfolding exact_match_pass
  exact-IsMatching [] s h = h
  exact-IsMatching (t ∷ ts) s h = exact-IsMatching ts _ (
      if_ind (IsMatching files) (is_matched s.claims t) (λ _. h)
        (λ e.
          found-IsMatching t s (exact_name files s.claims t.filename) e
            (exact-Holds s.claims t.filename) h))

module _ (files unclaimed : List String) (prefix_of : String → String) where
  -- A claim is of a file that was claimed before the pass, or its prefix is used up.
  abbrev UsedUp : List String → List Claim → Type 0
  UsedUp emptied claims =
      All
        (λ c. (any (str_eq c.1) unclaimed ≡ false) ⊎ (any (str_eq (prefix_of c.1)) emptied ≡ true))
        claims

  abbrev Candidate : List String → String → String → Type 0
  Candidate emptied p f =
      (any (str_eq f) unclaimed ≡ true)
      × (on_disk files f ≡ true)
      × (str_eq (prefix_of f) p ≡ true)
      × (any (str_eq p) emptied ≡ false)

  only_one-Holds : (Q : String → Type 0) (fs : List String) → All Q fs → Holds Q (only_one fs)
  only_one-Holds Q [] h = tt
  only_one-Holds Q (f ∷ []) h = h.0
  only_one-Holds Q (f ∷ g ∷ fs) h = tt

  candidates-Holds :
      (emptied : List String) (p : String)
      → All (λ f. (any (str_eq f) unclaimed ≡ true) × (on_disk files f ≡ true)) unclaimed
      → Holds (Candidate emptied p) (only_one (candidates prefix_of unclaimed emptied p))
  candidates-Holds emptied p known =
      if_ind (λ (fs : List String). Holds (Candidate emptied p) (only_one fs))
        (any (str_eq p) emptied) (λ _. tt)
        (λ e. only_one-Holds (Candidate emptied p) _ (
          All-mono _ _ (keep (λ f. str_eq (prefix_of f) p) unclaimed)
            (λ f k. (k.0.0, k.0.1, k.1, e))
            (All-zip _ _ _ (All-keep _ _ unclaimed known)
              (All-keep_test _ _ unclaimed (λ f q. q)))))

  not_claimed :
      (emptied : List String) (p f : String) (claims : List Claim)
      → Candidate emptied p f
      → UsedUp emptied claims
      → is_claimed claims f ≡ false
  not_claimed emptied p f [] c h = refl
  not_claimed emptied p f (d ∷ claims) c h = elim (Bool-cases (str_eq d.1 f)) [
    | inl e ↦ elim (clashes d h.0 ((eq_iff d.1 f).0 e)) [ ]
    | inr e ↦ rw e (not_claimed emptied p f claims c h.1)
  ]
    where
      clashes :
          (d : Claim)
          → (any (str_eq d.1) unclaimed ≡ false) ⊎ (any (str_eq (prefix_of d.1)) emptied ≡ true)
          → d.1 ≡ f
          → ⊥
      clashes d (inl k) e = false≢true (sym k ∙ ap (λ g. any (str_eq g) unclaimed) e ∙ c.0)
      clashes d (inr k) e = false≢true (
          sym c.3
          ∙ ap (λ q. any (str_eq q) emptied) (sym ((eq_iff (prefix_of f) p).0 c.2))
          ∙ ap (λ g. any (str_eq (prefix_of g)) emptied) (sym e)
          ∙ k)

  more_used :
      (p : String) (emptied : List String) (claims : List Claim)
      → UsedUp emptied claims
      → UsedUp (p ∷ emptied) claims
  more_used p emptied claims h = All-mono _ _ claims (λ c k. later c k) h
    where
      later :
          (c : Claim)
          → (any (str_eq c.1) unclaimed ≡ false) ⊎ (any (str_eq (prefix_of c.1)) emptied ≡ true)
          → (any (str_eq c.1) unclaimed ≡ false)
            ⊎ (any (str_eq (prefix_of c.1)) (p ∷ emptied) ≡ true)
      later c (inl k) = inl k
      later c (inr k) = inr (rw k (or-true _))

  abbrev Ready : State2 → Type 0
  Ready s = IsMatching files s.0 × UsedUp s.1 s.0.claims

  only-Ready :
      (t : Track) (p : String) (o : Option String) (s : State2)
      → is_matched s.0.claims t ≡ false
      → Holds (Candidate s.1 p) o
      → Ready s
      → Ready (claim_only t p o s)
  unfolding claim
  only-Ready t p none s e k h = h
  only-Ready t p (some f) s e k h = (
    unfold claim in claim-IsMatching t f files s.0 e (not_claimed s.1 p f s.0.claims k h.1) k.1 h.0,
    (inr (rw k.2 refl), more_used p s.1 s.0.claims h.1),
  )

  prefix-Ready :
      (t : Track) (o : Option String) (s : State2)
      → All (λ f. (any (str_eq f) unclaimed ≡ true) × (on_disk files f ≡ true)) unclaimed
      → is_matched s.0.claims t ≡ false
      → Ready s
      → Ready (claim_prefix prefix_of unclaimed t o s)
  prefix-Ready t none s known e h = h
  prefix-Ready t (some p) s known e h =
      only-Ready t p (only_one (candidates prefix_of unclaimed s.1 p)) s e
        (candidates-Holds s.1 p known) h

  pub loop-Ready :
      (ts : List Track) (s : State2)
      → All (λ f. (any (str_eq f) unclaimed ≡ true) × (on_disk files f ≡ true)) unclaimed
      → Ready s
      → Ready (prefix_loop prefix_of unclaimed ts s)
  unfolding prefix_loop
  loop-Ready [] s known h = h
  loop-Ready (t ∷ ts) s known h = loop-Ready ts _ known (
      if_ind Ready (is_matched s.0.claims t) (λ _. h)
        (λ e. prefix-Ready t (prefix_name prefix_of t.filename) s known e h))

-- ===== src/Makemkv/Reconcile/Passes.antt =====
-- The passes of `_reconcile_filenames`, one after the other.
use automatic_ripping_machin.Common.{
  length, keep, any, All, All-keep, All-keep_test, All-mono, All-zip, Apart, Apart-keep, sort-Apart,
  none_of-All, sort, All-sort, ◌==◌, Bool-cases, if_ind, str_eq, str_leb, ℕ, String, ◌≡◌, refl, sym,
  ◌∙◌, inl, inr, Bool, true, false, not, or-true, false≢true, List, [], ◌∷◌, arith, eq_iff,
}
use automatic_ripping_machin.Makemkv.{Track}
use automatic_ripping_machin.Makemkv.Names.{strip_track_suffix, track_index}
use automatic_ripping_machin.Makemkv.Reconcile.{
  Claim, State, is_claimed, is_matched, claim, unclaimed_files, prefix_match_pass, claim_each,
  number_before, positional_match_pass, reconcile_filenames,
}
use automatic_ripping_machin.Makemkv.Reconcile.Matching.{
  on_disk, IsMatching, claim-IsMatching, exact-IsMatching, loop-Ready,
}

abbrev pub same_track : Track → Track → Bool
same_track t u = t.track_id == u.track_id

str_eq_refl : (f : String) → str_eq f f ≡ true
str_eq_refl f = (eq_iff f f).1 refl

str_eq_symmetric : (f g : String) → str_eq f g ≡ false → str_eq g f ≡ false
str_eq_symmetric f g h = elim (Bool-cases (str_eq g f)) [
  | inl e ↦ elim (false≢true (sym h ∙ (eq_iff f g).1 (sym ((eq_iff g f).0 e)))) [ ]
  | inr e ↦ e
]

same_track_symmetric : (t u : Track) → same_track t u ≡ false → same_track u t ≡ false
same_track_symmetric t u h = ground arith

among_self : (fs : List String) → All (λ f. any (str_eq f) fs ≡ true) fs
among_self [] = tt
among_self (f ∷ fs) =
    (rw (str_eq_refl f) refl, All-mono _ _ fs (λ g h. rw h (or-true _)) (among_self fs))

-- No claimed file is among those that are not claimed.
spared :
    (claims : List Claim) (fs : List String)
    → All (λ f. is_claimed claims f ≡ false) fs
    → All (λ (c : Claim). All (λ f. str_eq c.1 f ≡ false) fs) claims
spared [] fs h = tt
spared (c ∷ claims) fs h = (
  All-mono _ _ fs (λ f k. first_free c claims f k) h,
  spared claims fs (All-mono _ _ fs (λ f k. rest_free c claims f k) h),
)
  where
    first_free :
        (c : Claim) (claims : List Claim) (f : String)
        → is_claimed (c ∷ claims) f ≡ false
        → str_eq c.1 f ≡ false
    first_free c claims f k = ground arith

    rest_free :
        (c : Claim) (claims : List Claim) (f : String)
        → is_claimed (c ∷ claims) f ≡ false
        → is_claimed claims f ≡ false
    rest_free c claims f k = ground arith

module _ (files : List String) where
  claim_each-IsMatching :
      (ts : List Track) (fs : List String) (s : State)
      → Apart same_track ts
      → Apart str_eq fs
      → All (λ t. is_matched s.claims t ≡ false) ts
      → All (λ f. (is_claimed s.claims f ≡ false) × (on_disk files f ≡ true)) fs
      → IsMatching files s
      → IsMatching files (claim_each ts fs s)
  unfolding claim_each claim
  claim_each-IsMatching [] fs s dt df ht hf h = h
  claim_each-IsMatching (t ∷ ts) [] s dt df ht hf h = h
  claim_each-IsMatching (t ∷ ts) (f ∷ fs) s dt df ht hf h =
      claim_each-IsMatching ts fs (claim t f s) dt.1 df.1
        (All-mono _ _ ts (λ u k. rw (k.0, k.1) refl) (All-zip _ _ ts dt.0 ht.1))
        (All-mono _ _ fs (λ g k. (rw (k.0, k.1.0) refl, k.1.1)) (All-zip _ _ fs df.0 hf.1))
        (unfold claim in claim-IsMatching t f files s ht.0 hf.0.0 hf.0.1 h)

  positional-IsMatching :
      (number : Track → ℕ) (tracks : List Track) (s : State)
      → Apart same_track tracks
      → Apart str_eq files
      → IsMatching files s
      → IsMatching files (positional_match_pass number tracks files s)
  unfolding positional_match_pass
  positional-IsMatching number tracks s dt df h =
      let ts = keep (λ t. not (is_matched s.claims t)) tracks in
      let fs = unclaimed_files files s.claims in
      if_ind (IsMatching files) (length ts == length fs)
        (λ _.
          claim_each-IsMatching (sort (number_before number) ts) (sort str_leb fs) s
            (sort-Apart same_track (number_before number) same_track_symmetric ts
              (Apart-keep same_track _ tracks dt))
            (sort-Apart str_eq str_leb str_eq_symmetric fs (Apart-keep str_eq _ files df))
            (All-sort (number_before number) _ ts (All-keep_test _ _ tracks (λ t e. unmatched t e)))
            (All-sort str_leb _ fs (
              All-zip _ _ fs (All-keep_test _ _ files (λ f e. unclaimed f e))
                (All-keep _ _ files (among_self files))))
            h)
        (λ _. h)
    where
      unmatched : (t : Track) → not (is_matched s.claims t) ≡ true → is_matched s.claims t ≡ false
      unmatched t e = ground arith

      unclaimed : (f : String) → not (is_claimed s.claims f) ≡ true → is_claimed s.claims f ≡ false
      unclaimed f e = ground arith

  prefix-IsMatching :
      (prefix_of : String → String) (tracks : List Track) (s : State)
      → IsMatching files s
      → IsMatching files (prefix_match_pass prefix_of tracks files s)
  unfolding prefix_match_pass
  prefix-IsMatching prefix_of tracks s h =
      let unclaimed = unclaimed_files files s.claims in
      (loop-Ready files unclaimed prefix_of tracks (s, [])
        (All-zip _ _ unclaimed (among_self unclaimed) (All-keep _ _ files (among_self files)))
        (
          h,
          All-mono _ _ s.claims (λ c k. inl (none_of-All (str_eq c.1) unclaimed k))
              (spared s.claims unclaimed (All-keep_test _ _ files (λ f e. free f e))),
        )).0
    where
      free : (f : String) → not (is_claimed s.claims f) ≡ true → is_claimed s.claims f ≡ false
      free f e = ground arith

  -- Where the ids of the tracks are distinct, and so are the files of the directory: whatever the
  -- names are, no two tracks are given one file, every file that is given is on the disk, and a
  -- track that was given a file has its name.
  pub reconcile_filenames-IsMatching :
      (is_digit : ℕ → Bool) (tracks : List Track)
      → Apart same_track tracks
      → Apart str_eq files
      → IsMatching files (reconcile_filenames is_digit tracks files)
  unfolding reconcile_filenames
  reconcile_filenames-IsMatching is_digit tracks dt df =
      let start : State = record { tracks = tracks; claims = [] } in
      positional-IsMatching track_index tracks _ dt df (
        prefix-IsMatching (strip_track_suffix is_digit) tracks _
          (exact-IsMatching files tracks start (record { apart = tt; there = tt; named = tt })))

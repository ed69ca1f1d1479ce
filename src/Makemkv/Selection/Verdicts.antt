-- ===== src/Makemkv/Selection/Verdicts.antt =====
-- What the filters decide.
use automatic_ripping_machin.Common.{
  All, ltb, leb, if◌then◌else◌, is_some, if_ind, ℕ, ◌≡◌, refl, sym, ap₂, ◌∙◌, ◌↔◌, Bool, true,
  false, not, ◌&&◌, ◌||◌, false≢true, Option, none, some, List, [], ◌∷◌, ◌++◌, map, arith,
}
use automatic_ripping_machin.Makemkv.{
  SkipReason, too_short, too_long, user_disabled, Track, skip, is_disabled,
}
use automatic_ripping_machin.Makemkv.Selection.{
  filter_track, judge_length, filter_length, judge, rip_track, rip_judged, process_track,
  process_single_tracks,
}

-- The track is not disabled and its length is known and within the bounds.
abbrev pub within : ℕ → ℕ → Option ℕ → Bool
within minlength maxlength none = false
within minlength maxlength (some n) = leb minlength n && leb n maxlength

abbrev pub is_wanted : ℕ → ℕ → Track → Bool
is_wanted minlength maxlength t = not (is_disabled t) && within minlength maxlength t.length

abbrev pub reason : ℕ → ℕ → Track → Option SkipReason
reason minlength maxlength t =
    if is_disabled t
    then some user_disabled
    else if is_wanted minlength maxlength t
    then none
    else elim t.length [
      | none ↦ none
      | some n ↦ if leb minlength n then some too_long else some too_short
    ]

abbrev pub settled : Track → Bool → Option SkipReason → Track
settled t wanted skip_reason = record t {
  process = some wanted;
  skip_reason = skip_reason;
  ripped = if wanted then true else t.ripped;
}

-- A track after a rip: ripped, if it is wanted, and marked.
abbrev pub outcome : ℕ → ℕ → Track → Track
outcome minlength maxlength t =
    settled t (is_wanted minlength maxlength t) (reason minlength maxlength t)

-- The track that makemkvcon is started for.
abbrev pub marked : Track → Track
marked t = record t { process = some true; skip_reason = none }

-- Nothing stops the rip at the track: it is disabled, or its length is known, and if it is wanted,
-- it has a file name and makemkvcon succeeds.
abbrev pub goes_well : (Track → Bool) → ℕ → ℕ → Track → Bool
goes_well rips minlength maxlength t =
    is_disabled t
    || (is_some t.length
        && (not (within minlength maxlength t.length) || (is_some t.filename && rips (marked t))))

-- The rip is started for the track and fails, or the track has no file name.
abbrev pub breaks : (Track → Bool) → ℕ → ℕ → Track → Bool
breaks rips minlength maxlength t =
    is_wanted minlength maxlength t && not (is_some t.filename && rips (marked t))

if_true {ℓ} : {A : Type ℓ} {b : Bool} {x : A} (y : A) → b ≡ true → (if b then x else y) ≡ x
if_true y h = rw h refl

if_false {ℓ} : {A : Type ℓ} {b : Bool} (x : A) {y : A} → b ≡ false → (if b then x else y) ≡ y
if_false x h = rw h refl

not_within : (a b : ℕ) → ltb a b ≡ true → leb b a ≡ false
not_within a b h = ground arith

ltb-leb : (a b : ℕ) → ltb a b ≡ false → leb b a ≡ true
ltb-leb a b h = ground arith

module _ (rips : Track → Bool) (minlength maxlength : ℕ) where
  judged :
      (t : Track) (o : Option ℕ)
      → is_disabled t ≡ false
      → t.length ≡ o
      → is_some o && (not (within minlength maxlength o) || (is_some t.filename && rips (marked t)))
        ≡ true
      → rip_judged rips t (judge_length minlength maxlength t o)
        ≡ (outcome minlength maxlength t, true)
  unfolding judge_length rip_judged rip_track
  judged t none d e h = elim (false≢true h) [ ]
  judged t (some n) d e h =
      if_ind (λ x. rip_judged rips t x ≡ (outcome minlength maxlength t, true)) (ltb n minlength)
        (λ short.
          ap₂ (λ w r. (settled t w r, true)) (rw (d, e, not_within n minlength short) refl)
            (rw (d, e, not_within n minlength short) refl))
        (λ enough.
          if_ind (λ x. rip_judged rips t x ≡ (outcome minlength maxlength t, true))
            (ltb maxlength n)
            (λ long.
              ap₂ (λ w r. (settled t w r, true))
                (rw (d, e, ltb-leb n minlength enough, not_within maxlength n long) refl)
                (rw (d, e, ltb-leb n minlength enough, not_within maxlength n long) refl))
            (λ fits.
              if_true _ (well n enough fits h)
              ∙ ap₂ (λ w r. (settled t w r, true))
                  (rw (d, e, ltb-leb n minlength enough, ltb-leb maxlength n fits) refl)
                  (rw (d, e, ltb-leb n minlength enough, ltb-leb maxlength n fits) refl)))
    where
      well :
          (n : ℕ)
          → ltb n minlength ≡ false
          → ltb maxlength n ≡ false
          → not (leb minlength n && leb n maxlength) || (is_some t.filename && rips (marked t))
            ≡ true
          → is_some t.filename && rips (marked t) ≡ true
      well n a b h = ground (arith, ltb-leb n minlength a, ltb-leb maxlength n b)

  process_track-outcome :
      (t : Track)
      → goes_well rips minlength maxlength t ≡ true
      → process_track rips true minlength maxlength t ≡ (outcome minlength maxlength t, true)
  unfolding process_track judge judge_length rip_judged rip_track
  process_track-outcome t h =
      if_ind (λ x. x ≡ (outcome minlength maxlength t, true)) (is_disabled t) (λ d. rw d refl)
        (λ d. judged t t.length d refl (rw d at h))

  broken :
      (t : Track) (o : Option ℕ)
      → within minlength maxlength o && not (is_some t.filename && rips (marked t)) ≡ true
      → rip_judged rips t (judge_length minlength maxlength t o) ≡ (marked t, false)
  unfolding judge_length rip_judged rip_track
  broken t none h = elim (false≢true h) [ ]
  broken t (some n) h = rw (short n h) (rw (long n h) (if_false _ (fails n h)))
    where
      short :
          (n : ℕ)
          → leb minlength n && leb n maxlength && not (is_some t.filename && rips (marked t)) ≡ true
          → ltb n minlength ≡ false
      short n h = ground arith

      long :
          (n : ℕ)
          → leb minlength n && leb n maxlength && not (is_some t.filename && rips (marked t)) ≡ true
          → ltb maxlength n ≡ false
      long n h = ground arith

      fails :
          (n : ℕ)
          → leb minlength n && leb n maxlength && not (is_some t.filename && rips (marked t)) ≡ true
          → is_some t.filename && rips (marked t) ≡ false
      fails n h = ground arith

  process_track-breaks :
      (t : Track)
      → breaks rips minlength maxlength t ≡ true
      → process_track rips true minlength maxlength t ≡ (marked t, false)
  unfolding process_track judge judge_length rip_judged rip_track
  process_track-breaks t h = if_false _ (enabled_of h) ∙ broken t t.length (ground arith)
    where
      enabled_of : breaks rips minlength maxlength t ≡ true → is_disabled t ≡ false
      enabled_of h = ground arith

  through :
      (ts more : List Track)
      → All (λ t. goes_well rips minlength maxlength t ≡ true) ts
      → process_single_tracks rips true minlength maxlength (ts ++ more) ≡ (
        map (outcome minlength maxlength) ts
            ++ (process_single_tracks rips true minlength maxlength more).0,
        (process_single_tracks rips true minlength maxlength more).1,
      )
  unfolding process_single_tracks
  through [] more h = refl
  through (t ∷ ts) more h = rw (process_track-outcome t h.0) (rw (through ts more h.1) refl)

  -- Where nothing stops an automatic rip at any track (it is disabled, or its length is known and,
  -- if that is within the bounds, it has a file name and makemkvcon succeeds): the rip ends without
  -- an exception, each track that is not disabled and within the bounds is marked for the rip and
  -- ripped, and each other is marked with the reason why it is left out and is no more ripped than
  -- before.
  pub process_single_tracks-outcome :
      (ts : List Track)
      → All (λ t. goes_well rips minlength maxlength t ≡ true) ts
      → process_single_tracks rips true minlength maxlength ts
        ≡ (map (outcome minlength maxlength) ts, true)
  unfolding process_single_tracks
  process_single_tracks-outcome [] h = refl
  process_single_tracks-outcome (t ∷ ts) h =
      rw (process_track-outcome t h.0) (rw (process_single_tracks-outcome ts h.1) refl)

  -- Where nothing stops an automatic rip at some tracks, and a track behind them is wanted but has
  -- no file name or fails in makemkvcon: the tracks before it are as after a rip that ends, it is
  -- marked for the rip but not ripped, and the tracks behind it are as before.
  pub process_single_tracks_stops :
      (ts : List Track) (t : Track) (more : List Track)
      → All (λ u. goes_well rips minlength maxlength u ≡ true) ts
      → breaks rips minlength maxlength t ≡ true
      → process_single_tracks rips true minlength maxlength (ts ++ t ∷ more)
        ≡ (map (outcome minlength maxlength) ts ++ marked t ∷ more, false)
  unfolding process_single_tracks
  process_single_tracks_stops ts t more h b =
      through ts (t ∷ more) h ∙ rw (process_track-breaks t b) refl

none≢some : {b : Bool} → none ≡ some b → ⊥
none≢some h = cc

true≢false_some : some true ≡ some false → ⊥
true≢false_some h = cc

-- The filter after the scan and the decision of the rip agree: of a fresh track whose length is
-- known, the filter leaves out exactly what the rip leaves out, and for the same reason.
pub filter_track_agrees :
    (minlength maxlength n : ℕ) (t : Track)
    → t.length ≡ some n
    → t.process ≡ none
    → t.skip_reason ≡ none
    → (u : Track) × (judge true minlength maxlength (filter_track minlength maxlength t) ≡ some u)
      × (((filter_track minlength maxlength t).process ≡ some false) ↔ (u.process ≡ some false))
      × (u.skip_reason ≡ (filter_track minlength maxlength t).skip_reason)
unfolding filter_track filter_length judge judge_length
filter_track_agrees minlength maxlength n t l p s = rw l (
    if_ind Agrees (ltb n minlength)
      (λ short.
        (skip too_short (skip too_short t), rw l (rw short refl), (λ _. refl, λ _. refl), refl))
      (λ enough.
        if_ind Agrees (ltb maxlength n)
          (λ long. (
            skip too_long (skip too_long t),
            rw l (rw (enough, long) refl),
            (λ _. refl, λ _. refl),
            refl,
          ))
          (λ fits. (
            record t { process = some true; skip_reason = none },
            rw l (rw (enough, fits) refl),
            (λ h. elim (none≢some (sym p ∙ h)) [ ], λ h. elim (true≢false_some h) [ ]),
            sym s,
          ))))
  where
    Agrees : Track → Type 0
    Agrees x =
        (u : Track) × (judge_length minlength maxlength x x.length ≡ some u)
        × ((x.process ≡ some false) ↔ (u.process ≡ some false))
        × (u.skip_reason ≡ x.skip_reason)

-- ===== src/Matching/Seasons/Best.antt =====
-- The season that is picked is the best one.
use automatic_ripping_machin.Common.{
  length, All, All-mono, All-map, All-of_map, Listed, All-Listed, length-map, sort, length-sort,
  All-sort, All-of_sort, IsSorted, sort-IsSorted, ltb, ◌==◌, Bool-cases, if_ind, ℕ, ◌<◌, String,
  ◌≡◌, refl, ap, ◌∙◌, ◌⊎◌, inl, inr, Bool, true, false, not, Option, List, [], ◌∷◌, arith,
}
use automatic_ripping_machin.Matching.{Track, Episode}
use automatic_ripping_machin.Matching.Floats.{Floats}
use automatic_ripping_machin.Matching.Assignment.{TrackMatch, match_tracks_to_episodes}
use automatic_ripping_machin.Matching.Seasons.{
  Season, Scored, BestSeason, score_season, beats, scored_before, pick, season_before,
  scored_seasons, match_tracks_best_season,
}

-- The order of the floats that are numbers: no two are less than one another, and what is not less
-- than a second, which is not less than a third, is not less than the third.
pub record IsOrder {F : Type 0} (lt : F → F → Bool) : Type 0 where
  pub asym : (a b : F) → lt a b ≡ true → lt b a ≡ false
  pub trans : (a b c : F) → lt a b ≡ false → lt b c ≡ false → lt a c ≡ false

module _ (floats : Floats) where
  open floats use {F, float, div, lt, round1}

  -- The result is a season of the list with its own matches, and each season of the list has fewer
  -- matches, or as many and no smaller an average.
  pub record IsBest (match : List Episode → List TrackMatch) (tracks : List Track)
      (seasons : List Season) (best : BestSeason floats) : Type 0 where
    pub chosen : Season
    pub listed : Listed seasons chosen
    pub season : best.season ≡ chosen.season
    pub matches : best.matches ≡ match chosen.episodes
    pub match_count : best.match_count ≡ length (match chosen.episodes)
    pub foremost :
        All
          (λ s.
            (length (match s.episodes) < best.match_count)
            ⊎ ((length (match s.episodes) ≡ best.match_count)
                × (lt
                      (score_season floats match tracks s).delta
                      (score_season floats match tracks chosen).delta
                    ≡ false)))
          seasons

  module _ (match : List Episode → List TrackMatch) (tracks : List Track) where
    nil_of_length : (xs : List TrackMatch) → (length xs == 0) ≡ true → [] ≡ xs
    nil_of_length [] h = refl
    nil_of_length (x ∷ xs) h = absurd (ground arith)

    score_season-matches :
        (s : Season) → (score_season floats match tracks s).matches ≡ match s.episodes
    unfolding score_season
    score_season-matches s =
        if_ind (λ (r : Scored floats). r.matches ≡ match s.episodes)
          (length (match s.episodes) == 0) (λ h. nil_of_length (match s.episodes) h) (λ h. refl)

    score_season-count :
        (s : Season) → (score_season floats match tracks s).count ≡ length (match s.episodes)
    unfolding score_season
    score_season-count s = ground arith

    score_season-season : (s : Season) → (score_season floats match tracks s).season ≡ s.season
    unfolding score_season
    score_season-season s = ground arith

    -- What `scored` holds of a season.
    abbrev IsScore : List Season → Scored floats → Type 0
    IsScore seasons x = (s : Season) × Listed seasons s × (x ≡ score_season floats match tracks s)

    line : List Season → List (Scored floats)
    line seasons = scored_seasons floats match tracks seasons

    line-IsScore : (seasons : List Season) → All (IsScore seasons) (line seasons)
    unfolding line scored_seasons
    line-IsScore seasons = All-sort _ _ _ (
        All-map _ _ (sort season_before seasons)
          (All-sort _ _ seasons (All-mono _ _ seasons (λ s h. (s, h, refl)) (All-Listed seasons))))

    line-of_All :
        (P : Scored floats → Type 0) (seasons : List Season)
        → All P (line seasons)
        → All (λ s. P (score_season floats match tracks s)) seasons
    unfolding line scored_seasons
    line-of_All P seasons h =
        All-of_sort _ _ seasons (All-of_map _ _ (sort season_before seasons) (All-of_sort _ _ _ h))

    length-line : (seasons : List Season) → length (line seasons) ≡ length seasons
    unfolding line scored_seasons
    length-line seasons =
        length-sort _ _ ∙ length-map _ (sort season_before seasons) ∙ length-sort _ seasons

    module _ (order : IsOrder lt) where
      beats_asym : (a b : Scored floats) → beats floats a b ≡ true → beats floats b a ≡ false
      beats_asym a b h = ground (arith, order.asym a.delta b.delta)

      beats_trans :
          (a b c : Scored floats)
          → beats floats a b ≡ false
          → beats floats b c ≡ false
          → beats floats a c ≡ false
      beats_trans a b c h k = ground (arith, order.trans a.delta b.delta c.delta)

      not_beaten : (b : Bool) → not b ≡ true → b ≡ false
      not_beaten true h = cc
      not_beaten false h = refl

      before_total :
          (a b : Scored floats) → scored_before floats a b ≡ false → scored_before floats b a ≡ true
      before_total a b h = rw (beats_asym b a (ground arith)) refl

      before_trans :
          (a b c : Scored floats)
          → scored_before floats a b ≡ true
          → scored_before floats b c ≡ true
          → scored_before floats a c ≡ true
      before_trans a b c h k = rw (beats_trans c b a (not_beaten _ k) (not_beaten _ h)) refl

      beats_self : (a : Scored floats) → beats floats a a ≡ false
      beats_self a = elim (Bool-cases (beats floats a a)) [ inl h ↦ beats_asym a a h | inr h ↦ h ]

      foremost_lem :
          (chosen s : Season)
          → beats floats
              (score_season floats match tracks s)
              (score_season floats match tracks chosen)
            ≡ false
          → (length (match s.episodes) < length (match chosen.episodes))
            ⊎ ((length (match s.episodes) ≡ length (match chosen.episodes))
                × (lt
                      (score_season floats match tracks s).delta
                      (score_season floats match tracks chosen).delta
                    ≡ false))
      foremost_lem chosen s h =
          let m = score_season-count s in
          let n = score_season-count chosen in
          elim (Bool-cases (ltb (length (match s.episodes)) (length (match chosen.episodes)))) [
            | inl k ↦ inl (ground arith)
            | inr k ↦ inr (ground arith, ground arith)
          ]

      line-IsSorted : (seasons : List Season) → IsSorted (scored_before floats) (line seasons)
      unfolding line scored_seasons
      line-IsSorted seasons = sort-IsSorted (scored_before floats) before_total before_trans _

      pick-IsBest :
          (seasons : List Season) (xs : List (Scored floats))
          → All (IsScore seasons) xs
          → IsSorted (scored_before floats) xs
          → ((P : Scored floats → Type 0)
              → All P xs
              → All (λ s. P (score_season floats match tracks s)) seasons)
          → (length xs == 0) ≡ false
          → IsBest match tracks seasons (pick floats xs)
      pick-IsBest seasons [] h s back k = absurd (ground arith)
      pick-IsBest seasons (x ∷ xs) h s back k =
          let (chosen, listed, e) = h.0 in
          let unbeaten =
            back (λ y. beats floats y x ≡ false)
              (beats_self x, All-mono _ _ xs (λ y b. not_beaten _ b) s.0) in
          let count = ap (λ (y : Scored floats). y.count) e ∙ score_season-count chosen in
          record {
            chosen = chosen;
            listed = listed;
            season = ap (λ (y : Scored floats). y.season) e ∙ score_season-season chosen;
            matches = ap (λ (y : Scored floats). y.matches) e ∙ score_season-matches chosen;
            match_count = count;
            foremost =
                All-mono _ _ seasons (λ r b. rw count (foremost_lem chosen r (rw e at b))) unbeaten;
          }

      line-IsBest :
          (seasons : List Season)
          → (length seasons == 0) ≡ false
          → IsBest match tracks seasons (pick floats (line seasons))
      line-IsBest seasons h =
          pick-IsBest seasons (line seasons) (line-IsScore seasons) (line-IsSorted seasons)
            (λ P. line-of_All P seasons) (rw (length-line seasons) h)

  -- With tracks and seasons given, and floats that are ordered: the result is a season of the list
  -- with the matches of its own episodes alone, and every season of the list has fewer matches, or
  -- as many and no smaller an average difference of the runtimes.
  pub match_tracks_best_season-IsBest :
      (order : IsOrder lt) (number : String → ℕ) (tolerance : ℕ) (disc_number disc_total : Option ℕ)
      (exclude : List ℕ) (tracks : List Track) (seasons : List Season)
      → (length tracks == 0) ≡ false
      → (length seasons == 0) ≡ false
      → IsBest
          (match_tracks_to_episodes floats number tolerance disc_number disc_total exclude tracks)
          tracks
          seasons
          (match_tracks_best_season floats number tolerance disc_number disc_total exclude tracks
            seasons)
  unfolding match_tracks_best_season line
  match_tracks_best_season-IsBest order number tolerance disc_number disc_total exclude tracks
        seasons h k =
      rw (h, k)
        (line-IsBest
          (match_tracks_to_episodes floats number tolerance disc_number disc_total exclude tracks)
          tracks order seasons k)

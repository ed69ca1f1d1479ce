-- ===== src/Matching/Seasons.antt =====
-- `match_tracks_best_season` of arm/services/matching/tvdb_matcher.py.
pub mod Best
use automatic_ripping_machin.Common.{
  length, sort, ltb, leb, ◌==◌, if◌then◌else◌, str_eq, ℕ, ◌+◌, ◌-◌, ◌*◌, ◌/◌, ◌%◌, ◌^◌, ◌≤◌, ◌<◌,
  String, ◌≡◌, ◌∙◌, ◌≡⟨◌⟩◌, ◌∎, ◌≢◌, ◌↔◌, ◌⊎◌, Bool, not, ◌&&◌, ◌||◌, Option, none, List, [], ◌∷◌,
  ◌++◌, map,
}
use automatic_ripping_machin.Matching.{Track, Episode, distance}
use automatic_ripping_machin.Matching.Floats.{Floats}
use automatic_ripping_machin.Matching.Assignment.{TrackMatch, match_tracks_to_episodes}

pub record Season : Type 0 where
  pub season : ℕ
  pub episodes : List Episode

-- `track_len_map.get(number, 0)`: the last track with the number counts.
unfoldable pub track_len : List Track → String → ℕ → ℕ
track_len [] name n = n
track_len (t ∷ ts) name n = track_len ts name (if str_eq t.track_number name then t.length else n)

-- `ep_runtime_map.get(number, 0)`.
unfoldable pub ep_runtime : List Episode → ℕ → ℕ → ℕ
ep_runtime [] i n = n
ep_runtime (e ∷ es) i n = ep_runtime es i (if e.number == i then e.runtime else n)

unfoldable pub total_delta : List Track → List Episode → List TrackMatch → ℕ
unfolding track_len ep_runtime
total_delta tracks episodes [] = 0
total_delta tracks episodes (m ∷ ms) =
    distance (track_len tracks m.track_number 0) (ep_runtime episodes m.episode_number 0)
    + total_delta tracks episodes ms

abbrev pub season_before : Season → Season → Bool
season_before a b = leb a.season b.season

module _ (floats : Floats) where
  open floats use {F, float, div, lt, round1}

  -- A row of `scored`.
  pub record Scored : Type 0 where
    pub season : ℕ
    pub matches : List TrackMatch
    pub delta : F
    pub count : ℕ

  pub record Alternative : Type 0 where
    pub season : ℕ
    pub score : F
    pub match_count : ℕ

  -- The result, without its alternatives where there is none.
  pub record BestSeason : Type 0 where
    pub season : ℕ
    pub matches : List TrackMatch
    pub score : F
    pub match_count : ℕ
    pub alternatives : List Alternative

  abbrev pub no_season : BestSeason
  no_season = record {
    season = 0;
    matches = [];
    score = float 0;
    match_count = 0;
    alternatives = [];
  }

  unfoldable pub score_season : (List Episode → List TrackMatch) → List Track → Season → Scored
  unfolding total_delta
  score_season match tracks s =
      let ms = match s.episodes in
      if length ms == 0
      then record { season = s.season; matches = []; delta = float 0; count = 0 }
      else record {
        season = s.season;
        matches = ms;
        delta = div (float (total_delta tracks s.episodes ms)) (float (length ms));
        count = length ms;
      }

  -- The order of `(-count, average delta)`.
  abbrev pub beats : Scored → Scored → Bool
  beats a b = ltb b.count a.count || (a.count == b.count && lt a.delta b.delta)

  abbrev pub scored_before : Scored → Scored → Bool
  scored_before a b = not (beats b a)

  abbrev pub alternatives_of : List Scored → List Alternative
  alternatives_of [] = []
  alternatives_of (x ∷ xs) =
      let rest = alternatives_of xs in
      let row : Alternative = record {
        season = x.season;
        score = round1 x.delta;
        match_count = x.count;
      } in
      if ltb 0 x.count then row ∷ rest else rest

  abbrev pub pick : List Scored → BestSeason
  pick [] = no_season
  pick (x ∷ xs) = record {
    season = x.season;
    matches = x.matches;
    score = round1 x.delta;
    match_count = x.count;
    alternatives = alternatives_of xs;
  }

  unfoldable pub scored_seasons :
      (List Episode → List TrackMatch) → List Track → List Season → List Scored
  unfolding score_season
  scored_seasons match tracks seasons =
      sort scored_before (map (score_season match tracks) (sort season_before seasons))

  unfoldable pub match_tracks_best_season :
      (String → ℕ) → ℕ → Option ℕ → Option ℕ → List ℕ → List Track → List Season → BestSeason
  unfolding match_tracks_to_episodes scored_seasons
  match_tracks_best_season number tolerance disc_number disc_total exclude tracks seasons =
      if length tracks == 0 || length seasons == 0
      then no_season
      else pick (
          scored_seasons
            (match_tracks_to_episodes floats number tolerance disc_number disc_total exclude tracks)
            tracks seasons)

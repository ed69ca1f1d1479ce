-- ===== src/Matching/Examples.antt =====
-- Runs of the matcher, with numbers in sixteenths for the floats.
use automatic_ripping_machin.Common.{
  All, Apart, sort, ltb, ◌==◌, if◌then◌else◌, str_eq, ℕ, ◌+◌, ◌-◌, ◌*◌, ◌/◌, String, ◌≡◌, refl,
  Bool, none, some, List, [], ◌∷◌, map, arith,
}
use automatic_ripping_machin.Matching.{Track, Episode, Pair, greedy_pairs, meets}
use automatic_ripping_machin.Matching.Greedy.{greedy_pairs_matching}
use automatic_ripping_machin.Matching.Floats.{Floats}
use automatic_ripping_machin.Matching.Assignment.{
  TrackMatch, window, match_greedy, match_tracks_to_episodes,
}
use automatic_ripping_machin.Matching.Assignment.Ordered.{InOrder}
use automatic_ripping_machin.Matching.Assignment.Sound.{
  IsMain, match_tracks_to_episodes-IsMain, match_tracks_to_episodes-InOrder,
}
use automatic_ripping_machin.Matching.Seasons.{Season, match_tracks_best_season}
use automatic_ripping_machin.Matching.Seasons.Best.{
  IsOrder, IsBest, match_tracks_best_season-IsBest,
}

abbrev track : String → ℕ → Track
track n l = record { track_number = n; length = l }

abbrev episode : ℕ → String → ℕ → Episode
episode n name time = record { number = n; name = name; runtime = time }

abbrev tracks : List Track
tracks = track "0" 3407 ∷ track "1" 2600 ∷ []

abbrev episodes : List Episode
episodes = episode 1 "Pilot" 3300 ∷ episode 2 "Two" 3500 ∷ episode 3 "Three" 2590 ∷ []

greedy_pairs_run : map (λ (p : Pair). p.ei) (greedy_pairs 300 tracks episodes) ≡ 2 ∷ 1 ∷ []
unfolding greedy_pairs sort
greedy_pairs_run = refl

greedy_pairs_matching_example : Apart meets (greedy_pairs 300 tracks episodes)
greedy_pairs_matching_example = (greedy_pairs_matching 300 tracks episodes).1

-- The difference of two numbers of sixteenths.
abbrev Sixteenths : Type 0
Sixteenths = ℕ × ℕ

abbrev less : Sixteenths → Sixteenths → Bool
less (a, b) (c, d) = ltb (a + d) (c + b)

abbrev sixteenths : Floats
sixteenths = record {
  F = Sixteenths;
  float = λ n. (n * 16, 0);
  half = (8, 0);
  three_quarters = (12, 0);
  add = λ (x : Sixteenths) (y : Sixteenths). (x.0 + y.0, x.1 + y.1);
  sub = λ (x : Sixteenths) (y : Sixteenths). (x.0 + y.1, x.1 + y.0);
  mul = λ (x : Sixteenths) (y : Sixteenths).
      ((x.0 * y.0 + x.1 * y.1) / 16, (x.0 * y.1 + x.1 * y.0) / 16);
  div = λ (x : Sixteenths) (y : Sixteenths). ((x.0 - x.1) * 16 / (y.0 - y.1), 0);
  fmin = λ (x : Sixteenths) (y : Sixteenths). if less y x then y else x;
  fmax = λ (x : Sixteenths) (y : Sixteenths). if less x y then y else x;
  fabs = λ (x : Sixteenths). ((x.0 - x.1) + (x.1 - x.0), 0);
  lt = less;
  trunc = λ (x : Sixteenths). (x.0 - x.1) / 16;
  round1 = λ (x : Sixteenths). x;
}

sixteenths-IsOrder : IsOrder less
sixteenths-IsOrder = record {
  asym = λ (a, b) (c, d) h. ground arith;
  trans = λ (a, b) (c, d) (e, f) h k. ground arith;
}

number : String → ℕ
number s = if str_eq s "1" then 1 else if str_eq s "2" then 2 else 0

-- The second disc of two, whose first episode is taken.
season_run :
    match_tracks_to_episodes sixteenths number 300 (some 2) (some 2) (1 ∷ []) tracks episodes
    ≡ record {
      track_number = "0";
      episode_number = 2;
      episode_name = "Two";
      episode_runtime = 3500;
    }
      ∷ record {
        track_number = "1";
        episode_number = 3;
        episode_name = "Three";
        episode_runtime = 2590;
      }
      ∷ []
unfolding match_tracks_to_episodes number sort
season_run = refl

match_tracks_to_episodes-IsMain_example :
    All
      (IsMain sixteenths number 300 (some 2) (some 2) (1 ∷ []) tracks episodes)
      (match_tracks_to_episodes sixteenths number 300 (some 2) (some 2) (1 ∷ []) tracks episodes)
match_tracks_to_episodes-IsMain_example =
    match_tracks_to_episodes-IsMain sixteenths number 300 (some 2) (some 2) (1 ∷ []) tracks episodes

distinct_numbers : Apart (λ (a b : Track). number a.track_number == number b.track_number) tracks
unfolding number
distinct_numbers = ((refl, tt), (tt, tt))

match_tracks_to_episodes-InOrder_example :
    InOrder number (match_tracks_to_episodes sixteenths number 300 none none [] tracks episodes)
match_tracks_to_episodes-InOrder_example =
    match_tracks_to_episodes-InOrder sixteenths number 300 none none [] tracks episodes
      distinct_numbers ((refl, (refl, tt)), ((refl, tt), (tt, tt)))

abbrev seasons : List Season
seasons =
    record { season = 2; episodes = episodes }
    ∷ record { season = 1; episodes = episode 1 "One" 3400 ∷ [] }
    ∷ []

match_tracks_best_season_run :
    (match_tracks_best_season sixteenths number 300 none none [] tracks seasons).season ≡ 2
unfolding match_tracks_best_season number sort
match_tracks_best_season_run = refl

match_tracks_best_season-IsBest_example :
    IsBest sixteenths
      (match_tracks_to_episodes sixteenths number 300 none none [] tracks)
      tracks
      seasons
      (match_tracks_best_season sixteenths number 300 none none [] tracks seasons)
match_tracks_best_season-IsBest_example =
    match_tracks_best_season-IsBest sixteenths sixteenths-IsOrder number 300 none none [] tracks
      seasons refl refl

-- The re-ordering gives a track of 1300 seconds an episode of 2600.
swapped_run :
    map
      (λ (m : TrackMatch). m.episode_runtime)
      (match_greedy number 300
        (track "0" 1300 ∷ track "1" 2600 ∷ [])
        (episode 1 "One" 2600 ∷ episode 2 "Two" 1300 ∷ []))
    ≡ 2600 ∷ 1300 ∷ []
unfolding match_greedy number sort
swapped_run = refl

-- A window of 18 episodes for 20 tracks.
narrow_window_run : window sixteenths 20 40 1 (some 40) ≡ (0, 18)
unfolding window
narrow_window_run = refl

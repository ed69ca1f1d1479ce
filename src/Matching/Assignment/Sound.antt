-- ===== src/Matching/Assignment/Sound.antt =====
-- What `match_tracks_to_episodes` of arm/services/matching/tvdb_matcher.py promises.
use automatic_ripping_machin.Common.{
  length, take, drop, any, All, All-take, All-drop, All-keep, All-keep_test, All-mono, All-zip,
  Listed, All-at, All-Listed, Apart, Apart-keep, sort-Apart, All-sort, ltb, ◌==◌, leb→le, if_ind, ℕ,
  ◌-◌, ◌≤◌, String, ◌≡◌, refl, ap, Bool, true, false, not, ◌||◌, Option, none, some, List, [],
}
use automatic_ripping_machin.Matching.{Track, Episode}
use automatic_ripping_machin.Matching.Floats.{Floats}
use automatic_ripping_machin.Matching.Assignment.{
  TrackMatch, match_of, match_greedy, window, center_of, select, laid, match_windowed, match_sorted,
  main_tracks, open_episodes, match_tracks_to_episodes,
}
use automatic_ripping_machin.Matching.Assignment.Ordered.{
  IsMatch, Rising, InOrder, sort-Rising, Rising-take, Rising-drop, positional-All,
  positional-InOrder, apart_sym,
}
use automatic_ripping_machin.Matching.Assignment.Distinct.{
  match_greedy-IsMatch, match_greedy-InOrder,
}

IsMatch-of_listed :
    (ts : List Track) (es : List Episode) (m : TrackMatch)
    → (t : Track) × (e : Episode) × Listed ts t × Listed es e × (m ≡ match_of t e)
    → IsMatch ts es m
IsMatch-of_listed ts es m (t, e, h, k, s) = record {
  track = t;
  episode = e;
  track_listed = h;
  episode_listed = k;
  number = ap (λ (x : TrackMatch). x.track_number) s;
  episode_number = ap (λ (x : TrackMatch). x.episode_number) s;
  episode_name = ap (λ (x : TrackMatch). x.episode_name) s;
  episode_runtime = ap (λ (x : TrackMatch). x.episode_runtime) s;
}

module _ (floats : Floats) where
  open floats use {F, sub, float}

  -- The chosen episodes are a part of the window.
  select-part :
      (P : List Episode → Type 0) (ts : List Track) (es : List Episode) (center : F)
      → P es
      → ((n k : ℕ) → P (take n (drop k es)))
      → P (select floats ts es center)
  unfolding select
  select-part P ts es center h k = if_ind P (ltb (length ts) (length es)) (λ _. k _ _) (λ _. h)

  module _ (number : String → ℕ) (tolerance : ℕ) (ts : List Track) (es : List Episode) where
    laid-IsMatch :
        (disc_number : ℕ) (disc_total : Option ℕ)
        → All (IsMatch ts es) (laid floats tolerance disc_number disc_total ts es)
    unfolding laid
    laid-IsMatch disc_number disc_total =
        let w = window floats (length ts) (length es) disc_number disc_total in
        let center = sub (center_of floats (length es) disc_number disc_total) (float w.0) in
        let inside =
          All-take (Listed es) (w.1 - w.0) _ (All-drop (Listed es) w.0 es (All-Listed es)) in
        All-mono _ _ _ (IsMatch-of_listed ts es) (
          positional-All number tolerance (Listed ts) (Listed es) ts _ (All-Listed ts) (
            select-part (All (Listed es)) ts _ center inside
              (λ n k. All-take _ n _ (All-drop _ k _ inside))))

    laid-InOrder :
        (disc_number : ℕ) (disc_total : Option ℕ)
        → Rising (λ (t : Track). number t.track_number) ts
        → Rising (λ (e : Episode). e.number) es
        → InOrder number (laid floats tolerance disc_number disc_total ts es)
    unfolding laid
    laid-InOrder disc_number disc_total r q =
        let w = window floats (length ts) (length es) disc_number disc_total in
        let center = sub (center_of floats (length es) disc_number disc_total) (float w.0) in
        let key : Episode → ℕ = λ e. e.number in
        let inside = Rising-take key (w.1 - w.0) _ (Rising-drop key w.0 es q) in
        positional-InOrder number tolerance ts _ r (
          select-part (Rising key) ts _ center inside
            (λ n k. Rising-take key n _ (Rising-drop key k _ inside)))

    -- What holds of the matches of the greedy assignment and of those in the windows holds of all.
    match_sorted-either :
        (P : List TrackMatch → Type 0) (disc_number disc_total : Option ℕ)
        → P (match_greedy number tolerance ts es)
        → ((n : ℕ) → P (laid floats tolerance n disc_total ts es))
        → P (match_sorted floats number tolerance disc_number disc_total ts es)
    unfolding match_sorted match_windowed
    match_sorted-either P none disc_total g l = g
    match_sorted-either P (some n) disc_total g l =
        let matches = laid floats tolerance n disc_total ts es in
        let greedy = match_greedy number tolerance ts es in
        if_ind P (n == 0) (λ _. g)
          (λ _. if_ind P (ltb (length matches) (length greedy)) (λ _. g) (λ _. l n))

  module _ (number : String → ℕ) (tolerance : ℕ) (disc_number disc_total : Option ℕ)
      (exclude : List ℕ) (tracks : List Track) (episodes : List Episode) where
    abbrev result : List TrackMatch
    result =
        match_tracks_to_episodes floats number tolerance disc_number disc_total exclude tracks
          episodes

    result-either :
        (P : List TrackMatch → Type 0)
        → P []
        → P (
            match_sorted floats number tolerance disc_number disc_total
              (main_tracks number tracks)
              (open_episodes exclude episodes))
        → P result
    unfolding match_tracks_to_episodes
    result-either P e h =
        if_ind P
          (length (main_tracks number tracks) == 0 || length (open_episodes exclude episodes) == 0)
          (λ _. e) (λ _. h)

    -- A match of a track of two minutes at least and of an episode that is not excluded.
    abbrev pub IsMain : TrackMatch → Type 0
    IsMain m =
        (h : IsMatch tracks episodes m) × (120 ≤ h.track.length)
        × (any (λ n. n == h.episode.number) exclude ≡ false)

    main_tracks-All : All (λ t. Listed tracks t × (120 ≤ t.length)) (main_tracks number tracks)
    main_tracks-All = All-sort _ _ _ (
        All-zip _ _ _ (All-keep _ _ tracks (All-Listed tracks))
          (All-keep_test _ _ tracks (λ t h. leb→le 120 t.length h)))

    not-true : (b : Bool) → not b ≡ true → b ≡ false
    not-true true h = cc
    not-true false h = refl

    open_episodes-All :
        All
          (λ e. Listed episodes e × (any (λ n. n == e.number) exclude ≡ false))
          (open_episodes exclude episodes)
    open_episodes-All = All-sort _ _ _ (
        All-zip _ _ _ (All-keep _ _ episodes (All-Listed episodes))
          (All-keep_test _ _ episodes (λ e h. not-true _ h)))

    is_main :
        (m : TrackMatch)
        → IsMatch (main_tracks number tracks) (open_episodes exclude episodes) m
        → IsMain m
    is_main m h =
        let (i, a) = h.track_listed in
        let (j, b) = h.episode_listed in
        let (t, long) = All-at _ _ i h.track main_tracks-All a in
        let (e, open_one) = All-at _ _ j h.episode open_episodes-All b in
        (
          record {
            track = h.track;
            episode = h.episode;
            track_listed = t;
            episode_listed = e;
            number = h.number;
            episode_number = h.episode_number;
            episode_name = h.episode_name;
            episode_runtime = h.episode_runtime;
          },
          long,
          open_one,
        )

    -- Whatever the disc and the floats are: every match is of a track of at least two minutes and of
    -- an episode that is not excluded, both of the lists.
    pub match_tracks_to_episodes-IsMain : All IsMain result
    match_tracks_to_episodes-IsMain =
        let ts = main_tracks number tracks in
        let es = open_episodes exclude episodes in
        result-either (All IsMain) tt (
          All-mono _ _ _ is_main (
            match_sorted-either number tolerance ts es (All (IsMatch ts es)) disc_number disc_total
              (match_greedy-IsMatch number tolerance ts es)
              (λ n. laid-IsMatch number tolerance ts es n disc_total)))

    -- Where the numbers of the tracks are distinct, and so are those of the episodes: whatever the
    -- disc and the floats are, the numbers of both rise along the matches, so that no track and no
    -- episode is matched twice, and no later track gets an earlier episode.
    pub match_tracks_to_episodes-InOrder :
        Apart (λ (a b : Track). number a.track_number == number b.track_number) tracks
        → Apart (λ (a b : Episode). a.number == b.number) episodes
        → InOrder number result
    match_tracks_to_episodes-InOrder dt de =
        let ts = main_tracks number tracks in
        let es = open_episodes exclude episodes in
        let t_apart = Apart-keep _ _ tracks dt in
        let e_apart = Apart-keep _ _ episodes de in
        result-either (InOrder number) (tt, tt)
          (match_sorted-either number tolerance ts es (InOrder number) disc_number disc_total
            (match_greedy-InOrder number tolerance ts es
              (sort-Apart _ _ (λ a b. apart_sym _ _) _ t_apart)
              (sort-Apart _ _ (λ a b. apart_sym _ _) _ e_apart))
            (λ n.
              laid-InOrder number tolerance ts es n disc_total
                (sort-Rising (λ (t : Track). number t.track_number) _ t_apart)
                (sort-Rising (λ (e : Episode). e.number) _ e_apart)))

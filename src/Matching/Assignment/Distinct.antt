-- ===== src/Matching/Assignment/Distinct.antt =====
-- The matches of the greedy assignment: of the lists, and in one order after the re-ordering.
use automatic_ripping_machin.Common.{
  length, All, All-mono, All-zip, Listed, Apart, All-sort, ltb, ◌==◌, if_ind, ℕ, String, ◌≡◌, refl,
  false, List, [], ◌∷◌, arith,
}
use automatic_ripping_machin.Matching.{Track, Episode, Pair, meets}
use automatic_ripping_machin.Matching.Greedy.{IsPair, greedy_pairs_matching}
use automatic_ripping_machin.Matching.Assignment.{
  TrackMatch, match_of, matches_of, reorder, match_greedy,
}
use automatic_ripping_machin.Matching.Assignment.Ordered.{
  IsMatch, InOrder, sort-Rising, zip_matches-All, zip_matches-InOrder, index-Apart,
}

module _ (number : String → ℕ) (tolerance : ℕ) (ts : List Track) (es : List Episode) where
  -- Where the numbers of the tracks and those of the episodes are distinct.
  abbrev DistinctTracks : Type 0
  DistinctTracks = Apart (λ (a b : Track). number a.track_number == number b.track_number) ts

  abbrev DistinctEpisodes : Type 0
  DistinctEpisodes = Apart (λ (a b : Episode). a.number == b.number) es

  abbrev track_key : TrackMatch → ℕ
  track_key m = number m.track_number

  abbrev episode_key : TrackMatch → ℕ
  episode_key m = m.episode_number

  -- A pair gives one match.
  matches_of-pair :
      (P : List TrackMatch → Type 0) (p : Pair) (ps : List Pair) (h : IsPair tolerance ts es p)
      → P (match_of h.track h.episode ∷ matches_of ts es ps)
      → P (matches_of ts es (p ∷ ps))
  matches_of-pair P p ps h k = rw (h.at_track, h.at_episode) k

  matches_of-All :
      (P : TrackMatch → Type 0) (ps : List Pair)
      → All (λ p. (h : IsPair tolerance ts es p) × P (match_of h.track h.episode)) ps
      → All P (matches_of ts es ps)
  matches_of-All P [] h = tt
  matches_of-All P (p ∷ ps) h = matches_of-pair (All P) p ps h.0.0 (h.0.1, matches_of-All P ps h.1)

  matches_of-IsMatch :
      (ps : List Pair) → All (IsPair tolerance ts es) ps → All (IsMatch ts es) (matches_of ts es ps)
  matches_of-IsMatch ps h = matches_of-All _ ps (
      All-mono _ _ ps
        (λ p h. (
          h,
          record {
            track = h.track;
            episode = h.episode;
            track_listed = (p.ti, h.at_track);
            episode_listed = (p.ei, h.at_episode);
            number = refl;
            episode_number = refl;
            episode_name = refl;
            episode_runtime = refl;
          },
        ))
        h)

  split_meets :
      (p q : Pair) → meets p q ≡ false → ((q.ti == p.ti) ≡ false) × ((q.ei == p.ei) ≡ false)
  split_meets p q h = ground arith

  matches_of-Apart :
      (ps : List Pair)
      → DistinctTracks
      → DistinctEpisodes
      → All (IsPair tolerance ts es) ps
      → Apart meets ps
      → Apart (λ a b. track_key a == track_key b) (matches_of ts es ps)
        × Apart (λ a b. episode_key a == episode_key b) (matches_of ts es ps)
  matches_of-Apart [] dt de h d = (tt, tt)
  matches_of-Apart (p ∷ ps) dt de h d =
      let rest = matches_of-Apart ps dt de h.1 d.1 in
      let i = h.0 in
      let apart = All-zip _ _ ps h.1 d.0 in
      (
        matches_of-pair (Apart (λ a b. track_key a == track_key b)) p ps i (
          matches_of-All _ ps (
              All-mono _ _ ps
                (λ q (k, n). (
                  k,
                  index-Apart (λ (t : Track). number t.track_number) ts p.ti q.ti i.track k.track dt
                      i.at_track k.at_track (split_meets p q n).0,
                ))
                apart),
          rest.0,
        ),
        matches_of-pair (Apart (λ a b. episode_key a == episode_key b)) p ps i (
          matches_of-All _ ps (
              All-mono _ _ ps
                (λ q (k, n). (
                  k,
                  index-Apart (λ (e : Episode). e.number) es p.ei q.ei i.episode k.episode de
                      i.at_episode k.at_episode (split_meets p q n).1,
                ))
                apart),
          rest.1,
        ),
      )

  -- The parts of a match.
  abbrev Numbered : String → Type 0
  Numbered n = (t : Track) × Listed ts t × (n ≡ t.track_number)

  abbrev Described : ℕ → String → ℕ → Type 0
  Described n name time =
      (e : Episode) × Listed es e × (n ≡ e.number) × (name ≡ e.name) × (time ≡ e.runtime)

  reorder-IsMatch :
      (ms : List TrackMatch) → All (IsMatch ts es) ms → All (IsMatch ts es) (reorder number ms)
  unfolding reorder
  reorder-IsMatch ms h =
      if_ind (All (IsMatch ts es)) (ltb 1 (length ms))
        (λ _.
          All-mono _ _ _
            (λ m ((t, a, b), (e, c, d, f, g)). record {
              track = t;
              episode = e;
              track_listed = a;
              episode_listed = c;
              number = b;
              episode_number = d;
              episode_name = f;
              episode_runtime = g;
            })
            (zip_matches-All Numbered Described _ _
              (All-sort _ _ ms (All-mono _ _ ms (λ m k. (k.track, k.track_listed, k.number)) h))
              (All-sort _ _ ms (
                All-mono _ _ ms
                  (λ m k. (
                    k.episode, k.episode_listed, k.episode_number, k.episode_name,
                    k.episode_runtime,
                  ))
                  h))))
        (λ _. h)

  reorder-InOrder :
      (ms : List TrackMatch)
      → Apart (λ a b. track_key a == track_key b) ms
      → Apart (λ a b. episode_key a == episode_key b) ms
      → InOrder number (reorder number ms)
  unfolding reorder
  reorder-InOrder ms dt de =
      if_ind (InOrder number) (ltb 1 (length ms))
        (λ _.
          zip_matches-InOrder number _ _ (sort-Rising track_key ms dt)
            (sort-Rising episode_key ms de))
        (λ h. short ms h)
    where
      short : (ms : List TrackMatch) → ltb 1 (length ms) ≡ false → InOrder number ms
      short [] h = (tt, tt)
      short (m ∷ []) h = ((tt, tt), (tt, tt))
      short (m ∷ n ∷ ms) h = absurd (ground arith)

  pub match_greedy-IsMatch : All (IsMatch ts es) (match_greedy number tolerance ts es)
  unfolding match_greedy
  match_greedy-IsMatch =
      reorder-IsMatch _ (matches_of-IsMatch _ (greedy_pairs_matching tolerance ts es).0)

  pub match_greedy-InOrder :
      DistinctTracks → DistinctEpisodes → InOrder number (match_greedy number tolerance ts es)
  unfolding match_greedy
  match_greedy-InOrder dt de =
      let matching = greedy_pairs_matching tolerance ts es in
      let apart = matches_of-Apart _ dt de matching.0 matching.1 in
      reorder-InOrder _ apart.0 apart.1

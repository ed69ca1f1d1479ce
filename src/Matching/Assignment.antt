-- ===== src/Matching/Assignment.antt =====
-- arm/services/matching/tvdb_matcher.py: `_match_greedy` with the re-ordering of its matches,
-- `_match_windowed`, `match_tracks_to_episodes` and `match_tracks_best_season`. `number` is
-- `int(track_number or 0)`, for the texts on which it does not raise.
pub mod Ordered
pub mod Sound
pub mod Distinct
use automatic_ripping_machin.Common.{
  length, get_elem?, take, drop, keep, any, sort, ltb, leb, ◌==◌, if◌then◌else◌, ℕ, zero, suc, ◌+◌,
  ◌-◌, ◌*◌, ◌/◌, ◌%◌, ◌^◌, ◌≤◌, ◌<◌, min, String, ◌≡◌, ◌∙◌, ◌≡⟨◌⟩◌, ◌∎, ◌≢◌, ◌↔◌, ◌⊎◌, Bool, true,
  false, not, ◌&&◌, ◌||◌, Option, none, some, List, [], ◌∷◌, ◌++◌,
}
use automatic_ripping_machin.Matching.{Track, Episode, Pair, distance, greedy_pairs}
use automatic_ripping_machin.Matching.Floats.{Floats}

pub record TrackMatch : Type 0 where
  pub track_number : String
  pub episode_number : ℕ
  pub episode_name : String
  pub episode_runtime : ℕ

abbrev pub match_of : Track → Episode → TrackMatch
match_of t e = record {
  track_number = t.track_number;
  episode_number = e.number;
  episode_name = e.name;
  episode_runtime = e.runtime;
}

-- The match of a pair of indices; the indices of the pairs are never out of range.
abbrev pub match_at : Option Track → Option Episode → List TrackMatch
match_at (some t) (some e) = match_of t e ∷ []
match_at _ _ = []

abbrev pub matches_of : List Track → List Episode → List Pair → List TrackMatch
matches_of ts es [] = []
matches_of ts es (p ∷ ps) = match_at (get_elem? ts p.ti) (get_elem? es p.ei) ++ matches_of ts es ps

abbrev pub track_before : (String → ℕ) → TrackMatch → TrackMatch → Bool
track_before number a b = leb (number a.track_number) (number b.track_number)

abbrev pub episode_before : TrackMatch → TrackMatch → Bool
episode_before a b = leb a.episode_number b.episode_number

unfoldable pub zip_matches : List TrackMatch → List TrackMatch → List TrackMatch
zip_matches (t ∷ ts) (e ∷ es) = record e { track_number = t.track_number } ∷ zip_matches ts es
zip_matches _ _ = []

-- The tracks in their order get the episodes in theirs.
unfoldable pub reorder : (String → ℕ) → List TrackMatch → List TrackMatch
unfolding zip_matches
reorder number matches =
    if ltb 1 (length matches)
    then zip_matches (sort (track_before number) matches) (sort episode_before matches)
    else matches

unfoldable pub match_greedy : (String → ℕ) → ℕ → List Track → List Episode → List TrackMatch
unfolding reorder greedy_pairs
match_greedy number tolerance ts es =
    reorder number (matches_of ts es (greedy_pairs tolerance ts es))

-- The pairs of a track and an episode in the same place.
unfoldable pub positional : ℕ → List Track → List Episode → List TrackMatch
positional tolerance (t ∷ ts) (e ∷ es) =
    let rest = positional tolerance ts es in
    if leb (distance t.length e.runtime) tolerance then match_of t e ∷ rest else rest
positional tolerance _ _ = []

-- The sum of the differences of a slice.
unfoldable pub slice_delta : List Track → List Episode → ℕ
slice_delta (t ∷ ts) (e ∷ es) = distance t.length e.runtime + slice_delta ts es
slice_delta _ _ = 0

-- `episodes[start:end]`.
abbrev pub slice : ℕ → ℕ → List Episode → List Episode
slice start end es = take (end - start) (drop start es)

-- A window that is narrower than the tracks grows on both sides, within the season.
unfoldable pub widen : ℕ → ℕ → ℕ × ℕ → ℕ × ℕ
widen n_tracks n_episodes (start, end) =
    let more = (start + n_tracks - end + 1) / 2 in
    if ltb end (start + n_tracks) then (start - more, min n_episodes (end + more)) else (start, end)

-- `disc_total or disc_number`.
abbrev pub disc_count : Option ℕ → ℕ → ℕ
disc_count none disc_number = disc_number
disc_count (some n) disc_number = if n == 0 then disc_number else n

abbrev pub more_matches : List TrackMatch → List TrackMatch → List TrackMatch
more_matches greedy matches = if ltb (length matches) (length greedy) then greedy else matches

-- The tracks of at least two minutes in their order, and the episodes that are not excluded.
abbrev pub main_tracks : (String → ℕ) → List Track → List Track
main_tracks number tracks =
    sort (λ (a : Track) (b : Track). leb (number a.track_number) (number b.track_number))
      (keep (λ (t : Track). leb 120 t.length) tracks)

abbrev pub open_episodes : List ℕ → List Episode → List Episode
open_episodes exclude episodes =
    sort (λ (a : Episode) (b : Episode). leb a.number b.number)
      (keep (λ (e : Episode). not (any (λ n. n == e.number) exclude)) episodes)

module _ (floats : Floats) where
  open floats use {
    F, float, half, three_quarters, add, sub, mul, div, fmin, fmax, fabs, lt, trunc, round1,
  }

  unfoldable pub center_of : ℕ → ℕ → Option ℕ → F
  center_of n_episodes disc_number disc_total =
      mul (sub (float disc_number) half)
        (div (float n_episodes) (float (disc_count disc_total disc_number)))

  unfoldable pub window : ℕ → ℕ → ℕ → Option ℕ → ℕ × ℕ
  unfolding center_of widen
  window n_tracks n_episodes disc_number disc_total =
      let share = div (float n_episodes) (float (disc_count disc_total disc_number)) in
      let center = center_of n_episodes disc_number disc_total in
      let half_window = fmax (mul share three_quarters) (mul (float n_tracks) three_quarters) in
      widen n_tracks n_episodes (
        trunc (sub center half_window),
        min n_episodes (trunc (add (add center half_window) (float 1))),
      )

  -- A slice is cheaper than the best one so far; `none` is the infinite cost.
  abbrev pub cheaper : F → Option F → Bool
  cheaper cost none = true
  cheaper cost (some best) = lt cost best

  -- The offset of the cheapest slice, from `offset` on with `left` of them to try.
  unfoldable pub best_offset : (ℕ → F) → ℕ → ℕ → ℕ → Option F → ℕ
  best_offset cost zero offset found best = found
  best_offset cost (suc left) offset found best = elim (cheaper (cost offset) best) [
    | true ↦ best_offset cost left (suc offset) offset (some (cost offset))
    | false ↦ best_offset cost left (suc offset) found best
  ]

  unfoldable pub slice_cost : List Track → List Episode → F → ℕ → F
  unfolding slice_delta
  slice_cost ts windowed expected offset =
      add (float (slice_delta ts (drop offset windowed)))
        (mul (fabs (sub (float offset) expected)) (float 30))

  -- The episodes of the window that the tracks are laid against; `center` counts from its start.
  unfoldable pub select : List Track → List Episode → F → List Episode
  unfolding best_offset slice_cost
  select ts windowed center =
      let n = length ts in
      let spare = length windowed - n in
      let expected = fmax (float 0) (fmin (float spare) (sub center (div (float n) (float 2)))) in
      if ltb n (length windowed)
      then take n
          (drop (best_offset (slice_cost ts windowed expected) (spare + 1) 0 0 none) windowed)
      else windowed

  -- The tracks laid against their window.
  unfoldable pub laid : ℕ → ℕ → Option ℕ → List Track → List Episode → List TrackMatch
  unfolding positional window select
  laid tolerance disc_number disc_total ts es =
      let (start, end) = window (length ts) (length es) disc_number disc_total in
      let center = sub (center_of (length es) disc_number disc_total) (float start) in
      positional tolerance ts (select ts (slice start end es) center)

  -- The greedy assignment is taken if it has more matches.
  unfoldable pub match_windowed :
      (String → ℕ) → ℕ → ℕ → Option ℕ → List Track → List Episode → List TrackMatch
  unfolding match_greedy laid
  match_windowed number tolerance disc_number disc_total ts es =
      more_matches (match_greedy number tolerance ts es)
        (laid tolerance disc_number disc_total ts es)

  -- Without a disc number, or with the number 0, the greedy assignment is taken.
  unfoldable pub match_sorted :
      (String → ℕ) → ℕ → Option ℕ → Option ℕ → List Track → List Episode → List TrackMatch
  unfolding match_greedy match_windowed
  match_sorted number tolerance none disc_total ts es = match_greedy number tolerance ts es
  match_sorted number tolerance (some disc_number) disc_total ts es =
      if disc_number == 0
      then match_greedy number tolerance ts es
      else match_windowed number tolerance disc_number disc_total ts es

  -- One early return for the empty lists, before or after the filters.
  unfoldable pub match_tracks_to_episodes :
      (String → ℕ) → ℕ → Option ℕ → Option ℕ → List ℕ → List Track → List Episode → List TrackMatch
  unfolding match_sorted
  match_tracks_to_episodes number tolerance disc_number disc_total exclude tracks episodes =
      let ts = main_tracks number tracks in
      let es = open_episodes exclude episodes in
      if length ts == 0 || length es == 0
      then []
      else match_sorted number tolerance disc_number disc_total ts es

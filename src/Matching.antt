-- ===== src/Matching.antt =====
-- The greedy assignment of arm/services/matching/tvdb_matcher.py (`_match_greedy`, up to the
-- re-ordering of its matches). A missing length or runtime is 0, as the code reads it.
pub mod Floats
pub mod Assignment
pub mod Seasons
pub mod Greedy
mod Examples
use automatic_ripping_machin.Common.{
  any, sort, ltb, leb, ◌==◌, if◌then◌else◌, ℕ, suc, ◌+◌, ◌-◌, ◌*◌, ◌/◌, ◌%◌, ◌^◌, ◌≤◌, ◌<◌, String,
  ◌≡◌, ◌∙◌, ◌≡⟨◌⟩◌, ◌∎, ◌≢◌, ◌↔◌, ◌⊎◌, Bool, true, false, ◌&&◌, ◌||◌, List, [], ◌∷◌, ◌++◌,
}

pub record Track : Type 0 where
  pub track_number : String
  pub length : ℕ

pub record Episode : Type 0 where
  pub number : ℕ
  pub name : String
  pub runtime : ℕ

-- `(delta, ti, ei)`.
pub record Pair : Type 0 where
  pub delta : ℕ
  pub ti : ℕ
  pub ei : ℕ

-- `abs(a - b)`.
abbrev pub distance : ℕ → ℕ → ℕ
distance a b = (a - b) + (b - a)

-- The inner loop, from the episode `ei`.
unfoldable pub pairs_of : ℕ → ℕ → Track → ℕ → List Episode → List Pair
pairs_of tolerance ti t ei [] = []
pairs_of tolerance ti t ei (e ∷ es) =
    let rest = pairs_of tolerance ti t (suc ei) es in
    let delta = distance t.length e.runtime in
    if leb delta tolerance then record { delta = delta; ti = ti; ei = ei } ∷ rest else rest

-- The outer loop, from the track `ti`.
unfoldable pub build_pairs : ℕ → ℕ → List Track → List Episode → List Pair
unfolding pairs_of
build_pairs tolerance ti [] es = []
build_pairs tolerance ti (t ∷ ts) es =
    pairs_of tolerance ti t 0 es ++ build_pairs tolerance (suc ti) ts es

-- The order of the tuples.
unfoldable pub pair_before : Pair → Pair → Bool
pair_before p q =
    if ltb p.delta q.delta
    then true
    else if ltb q.delta p.delta
    then false
    else if ltb p.ti q.ti
    then true
    else if ltb q.ti p.ti
    then false
    else leb p.ei q.ei

-- The pair has the track or the episode of this one.
abbrev pub meets : Pair → Pair → Bool
meets p q = (q.ti == p.ti) || (q.ei == p.ei)

-- The loop over the sorted pairs: `used` holds the pairs that were taken, whose tracks and
-- episodes are `used_tracks` and `used_episodes`. The pairs come in the order they were taken.
unfoldable pub take_pairs : List Pair → List Pair → List Pair
take_pairs used [] = []
take_pairs used (p ∷ ps) =
    let passed = take_pairs used ps in
    let taken = p ∷ take_pairs (p ∷ used) ps in if any (meets p) used then passed else taken

unfoldable pub greedy_pairs : ℕ → List Track → List Episode → List Pair
unfolding build_pairs pair_before take_pairs
greedy_pairs tolerance ts es = take_pairs [] (sort pair_before (build_pairs tolerance 0 ts es))

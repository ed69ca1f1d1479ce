-- ===== src/Makemkv/Reconcile.antt =====
-- `_reconcile_filenames` of arm/ripper/makemkv.py: which file on the disk is which track's.
pub mod Matching
pub mod Passes
use Prim.Native.Char.{Char, code}
use automatic_ripping_machin.Common.{
  length, keep, any, map_if, sort, leb, ◌==◌, if◌then◌else◌, str_eq, is_empty, str_leb, ℕ, ◌+◌, ◌-◌,
  ◌*◌, ◌/◌, ◌%◌, ◌^◌, ◌≤◌, ◌<◌, String, ◌≡◌, ◌∙◌, ◌≡⟨◌⟩◌, ◌∎, ◌≢◌, ◌↔◌, ◌⊎◌, Bool, not, ◌&&◌, ◌||◌,
  Option, none, some, List, [], ◌∷◌, ◌++◌, map,
}
use automatic_ripping_machin.Makemkv.{Track}
use automatic_ripping_machin.Makemkv.Names.{strip_track_suffix, track_index}

-- A track's id and the file that is its own: `claimed` and `matched_ids` as one list.
abbrev pub Claim : Type 0
Claim = ℕ × String

pub record State : Type 0 where
  pub tracks : List Track
  pub claims : List Claim

abbrev pub is_claimed : List Claim → String → Bool
is_claimed claims f = any (λ (c : Claim). str_eq c.1 f) claims

abbrev pub is_matched : List Claim → Track → Bool
is_matched claims t = any (λ (c : Claim). c.0 == t.track_id) claims

abbrev pub has_track_id : ℕ → Track → Bool
has_track_id i t = t.track_id == i

abbrev pub set_filename : String → Track → Track
set_filename f t = record t { filename = some f }

-- The file becomes the track's.
unfoldable pub claim : Track → String → State → State
claim t f s = record {
  tracks = map_if (has_track_id t.track_id) (set_filename f) s.tracks;
  claims = (t.track_id, f) ∷ s.claims;
}

-- Pass 1: the track's own name, unless its file is taken.
abbrev pub exact_name : List String → List Claim → Option String → Option String
exact_name files claims none = none
exact_name files claims (some f) =
    if any (str_eq f) files && not (is_claimed claims f) then some f else none

abbrev pub claim_found : Track → Option String → State → State
claim_found t none s = s
claim_found t (some f) s = claim t f s

unfoldable pub exact_match_pass : List String → List Track → State → State
unfolding claim
exact_match_pass files [] s = s
exact_match_pass files (t ∷ ts) s =
    exact_match_pass files ts
      (if is_matched s.claims t then s else claim_found t (exact_name files s.claims t.filename) s)

-- `prefix_of` is `strip_track_suffix`, and `emptied` holds the prefixes whose candidates are used
-- up.
abbrev pub candidates : (String → String) → List String → List String → String → List String
candidates prefix_of unclaimed emptied p =
    if any (str_eq p) emptied then [] else keep (λ f. str_eq (prefix_of f) p) unclaimed

abbrev pub only_one : List String → Option String
only_one (f ∷ []) = some f
only_one _ = none

-- The prefix of a track that has a name, unless it is empty.
abbrev pub prefix_name : (String → String) → Option String → Option String
prefix_name prefix_of none = none
prefix_name prefix_of (some f) =
    if is_empty f then none else if is_empty (prefix_of f) then none else some (prefix_of f)

abbrev pub State2 : Type 0
State2 = State × List String

abbrev pub claim_only : Track → String → Option String → State2 → State2
claim_only t p none (s, emptied) = (s, emptied)
claim_only t p (some f) (s, emptied) = (claim t f s, p ∷ emptied)

abbrev pub claim_prefix : (String → String) → List String → Track → Option String → State2 → State2
claim_prefix prefix_of unclaimed t none s = s
claim_prefix prefix_of unclaimed t (some p) s =
    claim_only t p (only_one (candidates prefix_of unclaimed s.1 p)) s

unfoldable pub prefix_loop : (String → String) → List String → List Track → State2 → State2
unfolding claim
prefix_loop prefix_of unclaimed [] s = s
prefix_loop prefix_of unclaimed (t ∷ ts) s = prefix_loop prefix_of unclaimed ts (
    if is_matched s.0.claims t
    then s
    else claim_prefix prefix_of unclaimed t (prefix_name prefix_of t.filename) s)

abbrev pub unclaimed_files : List String → List Claim → List String
unclaimed_files files claims = keep (λ f. not (is_claimed claims f)) files

unfoldable pub prefix_match_pass : (String → String) → List Track → List String → State → State
unfolding prefix_loop
prefix_match_pass prefix_of tracks files s =
    (prefix_loop prefix_of (unclaimed_files files s.claims) tracks (s, [])).0

-- Pass 3 gives the remaining tracks the remaining files, one each.
unfoldable pub claim_each : List Track → List String → State → State
unfolding claim
claim_each (t ∷ ts) (f ∷ fs) s = claim_each ts fs (claim t f s)
claim_each _ _ s = s

-- `number` is the sort key: the number of the track, or 0.
abbrev pub number_before : (Track → ℕ) → Track → Track → Bool
number_before number a b = leb (number a) (number b)

unfoldable pub positional_match_pass : (Track → ℕ) → List Track → List String → State → State
unfolding claim_each
positional_match_pass number tracks files s =
    let remaining_tracks = keep (λ t. not (is_matched s.claims t)) tracks in
    let remaining_files = unclaimed_files files s.claims in
    if length remaining_tracks == length remaining_files
    then claim_each (sort (number_before number) remaining_tracks) (sort str_leb remaining_files) s
    else s

-- The passes that a rip without a title map takes; `is_digit` tells the characters of `\d`.
unfoldable pub reconcile_filenames : (ℕ → Bool) → List Track → List String → State
unfolding exact_match_pass prefix_match_pass positional_match_pass strip_track_suffix track_index
reconcile_filenames is_digit tracks files =
    let exact = exact_match_pass files tracks (record { tracks = tracks; claims = [] }) in
    positional_match_pass track_index tracks files
      (prefix_match_pass (strip_track_suffix is_digit) tracks files exact)

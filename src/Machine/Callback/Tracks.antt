-- ===== src/Machine/Callback/Tracks.antt =====
-- What the results of a callback do to the tracks.
use automatic_ripping_machin.Common.{
  keep, any, map_if, All, All-map_if, if◌then◌else◌, Bool-cases, if_ind, str_eq, is_empty, String,
  ◌≡◌, refl, sym, ap, ap₂, ◌∙◌, subst, inl, inr, Bool, true, false, not, ◌&&◌, ◌||◌, Option, List,
  [], ◌∷◌, map, arith, eq_iff,
}
use automatic_ripping_machin.Machine.{Track, TrackStatus, transcoded, transcode_failed}
use automatic_ripping_machin.Machine.Callback.{
  JobStatus, transcoding, completed, partial, failed, other, TrackResult, text_or, numbered,
  update_track, set_result, set_results,
}

-- No two tracks have one number.
abbrev pub DistinctNumbers : List Track → Type 0
DistinctNumbers [] = Unit
DistinctNumbers (t ∷ ts) = All (λ u. numbered t.track_number u ≡ false) ts × DistinctNumbers ts

abbrev pub last_or {ℓ} : {A : Type ℓ} → A → List A → A
last_or d [] = d
last_or d (x ∷ xs) = last_or x xs

abbrev pub is_done : JobStatus → Bool
is_done completed = true
is_done _ = false

abbrev pub is_failed : JobStatus → Bool
is_failed failed = true
is_failed _ = false

-- The results that decide the state of a track, and those that give it an error.
abbrev pub decides : Track → TrackResult → Bool
decides t r = str_eq t.track_number r.track_number && (is_done r.status || is_failed r.status)

abbrev pub gives_error : Track → TrackResult → Bool
gives_error t r =
    str_eq t.track_number r.track_number
    && is_failed r.status
    && not (is_empty (text_or r.error ""))

abbrev pub state_told : TrackResult → TrackStatus
state_told r = if is_done r.status then transcoded else transcode_failed

-- The state that the last deciding result tells, and the error that the last failure gives.
abbrev pub outcome : List TrackResult → Track → Track
outcome rs t = record t {
  status = last_or t.status (map state_told (keep (decides t) rs));
  error = last_or t.error (map (λ r. r.error) (keep (gives_error t) rs));
}

-- A track after the results one by one, each of which it takes if it has the number.
abbrev each : List TrackResult → Track → Track
each [] t = t
each (r ∷ rs) t = each rs (if numbered r.track_number t then set_result r t else t)

taken :
    (n : String) (st : JobStatus) (e : Option String) (rs : List TrackResult) (t : Track)
    → str_eq t.track_number n ≡ true
    → outcome rs (set_result (record { track_number = n; status = st; error = e }) t)
      ≡ outcome (record { track_number = n; status = st; error = e } ∷ rs) t
taken n completed e rs t h = rw h refl
taken n failed e rs t h =
    if_ind
      (λ x.
        record t {
          status = last_or transcode_failed (map state_told (keep (decides t) rs));
          error = last_or x (map (λ r. r.error) (keep (gives_error t) rs));
        }
        ≡ outcome (record { track_number = n; status = failed; error = e } ∷ rs) t)
      (is_empty (text_or e "")) (λ k. rw (h, k) refl) (λ k. rw (h, k) refl)
taken n transcoding e rs t h = rw h refl
taken n partial e rs t h = rw h refl
taken n other e rs t h = rw h refl

passed_over :
    (r : TrackResult) (rs : List TrackResult) (t : Track)
    → str_eq t.track_number r.track_number ≡ false
    → outcome rs t ≡ outcome (r ∷ rs) t
passed_over r rs t h = rw h refl

each-outcome : (rs : List TrackResult) (t : Track) → each rs t ≡ outcome rs t
each-outcome [] t = refl
each-outcome (r ∷ rs) t =
    each-outcome rs (if numbered r.track_number t then set_result r t else t)
    ∙ if_ind (λ u. outcome rs u ≡ outcome (r ∷ rs) t) (numbered r.track_number t)
        (taken r.track_number r.status r.error rs t) (passed_over r rs t)

number-set_result : (r : TrackResult) (t : Track) → (set_result r t).track_number ≡ t.track_number
number-set_result r t = ground arith

none_numbered :
    (n : String) (f : Track → Track) (ts : List Track)
    → any (numbered n) ts ≡ false
    → map_if (numbered n) f ts ≡ ts
none_numbered n f [] h = refl
none_numbered n f (t ∷ ts) h = ground (arith, none_numbered n f ts)

all_other :
    (n : String) (t : Track) (ts : List Track)
    → numbered n t ≡ true
    → All (λ u. numbered t.track_number u ≡ false) ts
    → any (numbered n) ts ≡ false
all_other n t [] e h = refl
all_other n t (u ∷ ts) e h =
    rw (subst (λ m. numbered m u ≡ false) ((eq_iff t.track_number n).0 e) h.0)
      (all_other n t ts e h.1)

update_track-map_if :
    (n : String) (f : Track → Track) (ts : List Track)
    → DistinctNumbers ts
    → update_track n f ts ≡ map_if (numbered n) f ts
unfolding update_track
update_track-map_if n f [] d = refl
update_track-map_if n f (t ∷ ts) d = elim (Bool-cases (numbered n t)) [
  | inl e ↦
      rw (e, all_other n t ts e d.0)
        (ap (λ us. f t ∷ us) (sym (none_numbered n f ts (all_other n t ts e d.0))))
  | inr e ↦ elim (Bool-cases (any (numbered n) ts)) [
    | inl k ↦ rw (e, k) (ap (λ us. t ∷ us) (update_track-map_if n f ts d.1))
    | inr k ↦ rw (e, k) (ap (λ us. t ∷ us) (sym (none_numbered n f ts k)))
  ]
]

module _ (n : String) (f : Track → Track)
    (same : (t : Track) → (f t).track_number ≡ t.track_number) where
  others-map_if :
      (m : String) (ts : List Track)
      → All (λ u. numbered m u ≡ false) ts
      → All (λ u. numbered m u ≡ false) (map_if (numbered n) f ts)
  others-map_if m ts h = All-map_if _ (numbered n) f ts (λ t _ k. rw (same t) k) h

  DistinctNumbers-map_if :
      (ts : List Track) → DistinctNumbers ts → DistinctNumbers (map_if (numbered n) f ts)
  DistinctNumbers-map_if [] d = tt
  DistinctNumbers-map_if (t ∷ ts) d = (
    if_ind (λ (x : Track). All (λ u. numbered x.track_number u ≡ false) (map_if (numbered n) f ts))
        (numbered n t) (λ _. rw (same t) (others-map_if t.track_number ts d.0))
        (λ _. others-map_if t.track_number ts d.0),
    DistinctNumbers-map_if ts d.1,
  )

map-map_if :
    (r : TrackResult) (rs : List TrackResult) (ts : List Track)
    → map (each rs) (map_if (numbered r.track_number) (set_result r) ts) ≡ map (each (r ∷ rs)) ts
map-map_if r rs [] = refl
map-map_if r rs (t ∷ ts) = ap (λ us. each (r ∷ rs) t ∷ us) (map-map_if r rs ts)

map-same : (ts : List Track) → map (each []) ts ≡ ts
map-same [] = refl
map-same (t ∷ ts) = ap (λ us. t ∷ us) (map-same ts)

map-each : (rs : List TrackResult) (ts : List Track) → map (each rs) ts ≡ map (outcome rs) ts
map-each rs [] = refl
map-each rs (t ∷ ts) = ap₂ (λ u us. u ∷ us) (each-outcome rs t) (map-each rs ts)

set_results-each :
    (rs : List TrackResult) (ts : List Track)
    → DistinctNumbers ts
    → set_results rs ts ≡ map (each rs) ts
unfolding set_results
set_results-each [] ts d = sym (map-same ts)
set_results-each (r ∷ rs) ts d = rw (update_track-map_if r.track_number (set_result r) ts d) (
    set_results-each rs (map_if (numbered r.track_number) (set_result r) ts)
      (DistinctNumbers-map_if r.track_number (set_result r) (number-set_result r) ts d)
    ∙ map-map_if r rs ts)

-- Where no two tracks of the job have one number: after the results of a callback, a track is
-- transcoded or failed as the last completed or failed result with its number tells, its error is
-- that of the last failed result with its number that gives one, and whatever no such result names
-- is as it was.
pub set_results-outcome :
    (rs : List TrackResult) (ts : List Track)
    → DistinctNumbers ts
    → set_results rs ts ≡ map (outcome rs) ts
set_results-outcome rs ts d = set_results-each rs ts d ∙ map-each rs ts

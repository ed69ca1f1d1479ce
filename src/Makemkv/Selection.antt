-- ===== src/Makemkv/Selection.antt =====
-- The length filters of arm/ripper/utils.py (`mark_prescan_filter_state`), of
-- arm/ripper/import_prescan.py (`auto_disable_short_tracks`) and of `process_single_tracks`, and
-- the choice of the main feature in `makemkv_mkv`.
pub mod Verdicts
use automatic_ripping_machin.Common.{
  length, keep, any, map_if, sort, ltb, ◌==◌, if◌then◌else◌, is_some, str_eq, str_leb, ℕ, suc, ◌+◌,
  ◌-◌, ◌*◌, ◌/◌, ◌%◌, ◌^◌, ◌≤◌, ◌<◌, String, ◌≡◌, ◌∙◌, ◌≡⟨◌⟩◌, ◌∎, ◌≢◌, ◌↔◌, ◌⊎◌, Bool, true, false,
  not, ◌&&◌, ◌||◌, Option, none, some, List, [], ◌∷◌, ◌++◌, map,
}
use automatic_ripping_machin.Makemkv.{
  SkipReason, too_short, too_long, makemkv_skipped, user_disabled, Track, skip, is_disabled,
  is_chosen,
}

unfoldable pub filter_length : ℕ → ℕ → Option ℕ → Track → Track
filter_length minlength maxlength none t = t
filter_length minlength maxlength (some n) t =
    if ltb n minlength then skip too_short t else if ltb maxlength n then skip too_long t else t

unfoldable pub filter_track : ℕ → ℕ → Track → Track
unfolding filter_length
filter_track minlength maxlength t = filter_length minlength maxlength t.length t

unfoldable pub mark_prescan_filter_state : ℕ → ℕ → List Track → List Track
unfolding filter_track
mark_prescan_filter_state minlength maxlength tracks = map (filter_track minlength maxlength) tracks

is_short : ℕ → Option ℕ → Bool
is_short minlength none = false
is_short minlength (some n) = ltb n minlength

-- The tracks, and how many were disabled.
unfoldable pub auto_disable_short_tracks : ℕ → List Track → List Track × ℕ
unfolding is_short
auto_disable_short_tracks minlength tracks = (
  map_if (λ t. is_short minlength t.length)
      (λ t. record (skip too_short t) { enabled = some false }) tracks,
  length (keep (λ (t : Track). is_short minlength t.length) tracks),
)

-- The decision on a track of an automatic rip, or `none` where the comparison of a length that is
-- None raises.
unfoldable pub judge_length : ℕ → ℕ → Track → Option ℕ → Option Track
judge_length minlength maxlength t none = none
judge_length minlength maxlength t (some n) =
    if ltb n minlength
    then some (skip too_short t)
    else if ltb maxlength n
    then some (skip too_long t)
    else some (record t { process = some true; skip_reason = none })

unfoldable pub judge : Bool → ℕ → ℕ → Track → Option Track
unfolding judge_length
judge auto minlength maxlength t =
    if auto then judge_length minlength maxlength t t.length else some t

-- The rip of a track that was judged: it needs a file name, and `rips` tells whether makemkvcon
-- succeeds. The result is the track and whether no exception was raised.
unfoldable pub rip_track : (Track → Bool) → Track → Track × Bool
rip_track rips t =
    if not (is_chosen t)
    then (t, true)
    else if is_some t.filename && rips t
    then (record t { ripped = true }, true)
    else (t, false)

unfoldable pub rip_judged : (Track → Bool) → Track → Option Track → Track × Bool
unfolding rip_track
rip_judged rips t none = (t, false)
rip_judged rips t (some u) = rip_track rips u

unfoldable pub process_track : (Track → Bool) → Bool → ℕ → ℕ → Track → Track × Bool
unfolding judge rip_judged
process_track rips auto minlength maxlength t =
    if is_disabled t
    then (skip user_disabled t, true)
    else rip_judged rips t (judge auto minlength maxlength t)

-- The tracks after the loop, and whether it ended without an exception; an exception leaves the
-- tracks behind it as they were.
unfoldable pub process_single_tracks :
    (Track → Bool) → Bool → ℕ → ℕ → List Track → List Track × Bool
unfolding process_track
process_single_tracks rips auto minlength maxlength [] = ([], true)
process_single_tracks rips auto minlength maxlength (t ∷ ts) =
    let (u, fine) = process_track rips auto minlength maxlength t in
    let (us, all_fine) = process_single_tracks rips auto minlength maxlength ts in
    if fine then (u ∷ us, all_fine) else (u ∷ ts, false)

-- ORDER BY chapters DESC, length DESC, filesize DESC, track_number ASC; a NULL length comes last.
abbrev pub length_key : Track → ℕ
length_key t = elim t.length [ none ↦ 0 | some n ↦ suc n ]

unfoldable pub better : Track → Track → Bool
better a b =
    if ltb b.chapters a.chapters
    then true
    else if ltb a.chapters b.chapters
    then false
    else if ltb (length_key b) (length_key a)
    then true
    else if ltb (length_key a) (length_key b)
    then false
    else if ltb b.filesize a.filesize
    then true
    else if ltb a.filesize b.filesize
    then false
    else str_leb a.track_number b.track_number

abbrev pub enable : Bool → Track → Track
enable b t = record t { enabled = some b }

abbrev pub enable_best : List Track → List Track → List Track
enable_best [] tracks = tracks
enable_best (t ∷ _) tracks = map_if (λ u. u.track_id == t.track_id) (enable true) tracks

-- The flags that `makemkv_mkv` sets before a rip that was not scanned before.
unfoldable pub auto_flag : Bool → Bool → Bool → List Track → List Track
unfolding better
auto_flag mainfeature single multi tracks =
    if mainfeature && single && not multi
    then enable_best (sort better tracks) (map (enable false) tracks)
    else map (enable true) tracks

-- `apply_makemkv_skips`: the numbers of the titles that makemkvcon left out.
unfoldable pub apply_makemkv_skips : List String → List Track → List Track
apply_makemkv_skips numbers tracks =
    map_if (λ t. any (str_eq t.track_number) numbers) (skip makemkv_skipped) tracks

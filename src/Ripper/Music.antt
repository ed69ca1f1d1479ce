-- ===== src/Ripper/Music.antt =====
-- The rip of an audio disc in arm/ripper/utils.py: `_classify_abcde_line`, `_apply_track_phases` and
-- `_stream_abcde_output`, which follows what abcde and cdparanoia print.
pub mod Final
pub mod Finish
use Prim.Native.Char.{code}
use Prim.Native.String
use automatic_ripping_machin.Common.{
  any, ltb, ◌==◌, if◌then◌else◌, str_eq, is_empty, starts_with, contains, ℕ, ◌+◌, ◌-◌, ◌*◌, ◌/◌,
  ◌%◌, ◌^◌, ◌≤◌, ◌<◌, String, ◌≡◌, ◌∙◌, ◌≡⟨◌⟩◌, ◌∎, ◌≢◌, ◌↔◌, ◌⊎◌, Bool, true, false, not, ◌&&◌,
  ◌||◌, Option, none, some, List, [], ◌∷◌, ◌++◌, map,
}
use automatic_ripping_machin.Machine.{TrackStatus, ripping, encoding, track_success}

-- The classes of characters of `\d` and `\s`, and Python's `int` of digits.
pub record Classes : Type 0 where
  pub is_digit : ℕ → Bool
  pub is_space : ℕ → Bool
  pub int_of : String → Option ℕ

-- `s[n:]`.
unfoldable pub drop_text : String → String → String
drop_text String.[] s = s
drop_text (String.◌∷◌ _ t) String.[] = String.[]
drop_text (String.◌∷◌ _ t) (String.◌∷◌ _ s) = drop_text t s

-- The text starts with a part, and what follows it passes the test.
abbrev pub then_test : String → (String → Bool) → String → Bool
then_test part test s = starts_with s part && test (drop_text part s)

-- Somewhere in the text.
unfoldable pub anywhere : (String → Bool) → String → Bool
anywhere test String.[] = test String.[]
anywhere test (String.◌∷◌ c s) = test (String.◌∷◌ c s) || anywhere test s

-- The characters of a class at the start, and what follows them.
unfoldable pub span : (ℕ → Bool) → String → String × String
span test String.[] = ("", "")
span test (String.◌∷◌ c s) =
    let (run, rest) = span test s in
    if test (code c) then (String.◌∷◌ c run, rest) else ("", String.◌∷◌ c s)

abbrev pub is_digit_colon : Classes → String → Bool
is_digit_colon k s = not (is_empty (span k.is_digit s).0) && starts_with (span k.is_digit s).1 ":"

-- `^\d{3}: `.
abbrev pub is_numbered_error : Classes → String → Bool
is_numbered_error k (String.◌∷◌ a (String.◌∷◌ b (String.◌∷◌ c s))) =
    k.is_digit (code a) && k.is_digit (code b) && k.is_digit (code c) && starts_with s ": "
is_numbered_error k _ = false

abbrev pub contains_one : String → List String → Bool
contains_one line parts = any (contains line) parts

unfoldable pub is_error_line : Classes → String → Bool
unfolding starts_with contains anywhere span drop_text
is_error_line k line =
    starts_with line "[ERROR]"
    || contains_one line (
        "The following commands failed to run" ∷ "Permission denied" ∷ "CDROM drive unavailable"
        ∷ "CDROM has not been defined" ∷ "CD could not be read" ∷ "Unable to open disc"
        ∷ "Unable to open cdrom" ∷ "Unable to read any data" ∷ "CDROMREADTOCHDR:"
        ∷ "Input/output error" ∷ "No medium found" ∷ "Segmentation fault" ∷ [])
    || anywhere (then_test "returned code " (is_digit_colon k)) line
    || anywhere (then_test "HEH! The file " (λ s. contains s " disappeared")) line
    || is_numbered_error k line

unfoldable pub is_warning_line : String → Bool
unfolding starts_with contains
is_warning_line line =
    starts_with line "[WARNING]"
    || contains_one line (
        "Not cleaning up" ∷ "something went wrong while querying" ∷ "still considered experimental"
        ∷ "problem with the CD reading" ∷ [])

-- `[.+!\-eV :;\^()|D08X]`.
abbrev pub is_progress : ℕ → Bool
is_progress c =
    any (λ n. n == c)
      (46 ∷ 43 ∷ 33 ∷ 45 ∷ 101 ∷ 86 ∷ 32 ∷ 58 ∷ 59 ∷ 94 ∷ 40 ∷ 41 ∷ 124 ∷ 68 ∷ 48 ∷ 56 ∷ 88 ∷ [])

unfoldable pub is_debug_line : Classes → String → Bool
unfolding starts_with span
is_debug_line k line =
    starts_with line "cdparanoia III"
    || starts_with line "Ripping from sector"
    || (not (is_empty (span k.is_space line).0) && starts_with (span k.is_space line).1 "to sector")
    || starts_with line "outputting to"
    || (not (is_empty line) && is_empty (span is_progress line).1)
    || is_empty (span k.is_space line).1
    || str_eq line "Done."

pub data Level : Type 0 where
  error warning debug info : Level

unfoldable pub classify_abcde_line : Classes → String → Level
unfolding is_error_line is_warning_line is_debug_line
classify_abcde_line k line =
    if is_error_line k line
    then error
    else if is_warning_line line
    then warning
    else if is_debug_line k line
    then debug
    else info

-- The number of a phase marker at the start of a line.
unfoldable pub phase : Classes → String → String → String → Option ℕ
unfolding starts_with drop_text span
phase k before after line =
    let (digits, rest) = span k.is_digit (drop_text before line) in
    if starts_with line before && not (is_empty digits) && starts_with rest after
    then k.int_of digits
    else none

-- `seen_grabbing`, `seen_encoding` and `seen_tagging`.
pub record Phases : Type 0 where
  pub grabbing : List ℕ
  pub encoding : List ℕ
  pub tagging : List ℕ

abbrev pub add : Option ℕ → List ℕ → List ℕ
add none ns = ns
add (some n) ns = n ∷ ns

unfoldable pub see : Classes → String → Phases → Phases
unfolding phase
see k line s = record {
  grabbing = add (phase k "Grabbing track " ":" line) s.grabbing;
  encoding = add (phase k "Encoding track " " of" line) s.encoding;
  tagging = add (phase k "Tagging track " " of" line) s.tagging;
}

-- A track; its number is none where `int` of it raises.
pub record Track : Type 0 where
  pub track_number : Option ℕ
  pub ripped : Bool
  pub status : TrackStatus

abbrev pub is_success : TrackStatus → Bool
is_success track_success = true
is_success _ = false

abbrev pub advance : (grabs encodes tags : Bool) → Track → Track
advance grabs encodes tags t =
    if tags
    then (if is_success t.status then t else record t { ripped = true; status = track_success })
    else if encodes
    then record t { status = TrackStatus.encoding }
    else if grabs
    then record t { status = ripping }
    else t

abbrev pub among : ℕ → List ℕ → Bool
among n ns = any (λ m. m == n) ns

abbrev pub apply_phase : Phases → Option ℕ → Track → Track
apply_phase s none t = t
apply_phase s (some n) t = advance (among n s.grabbing) (among n s.encoding) (among n s.tagging) t

unfoldable pub apply_track_phases : Phases → List Track → List Track
apply_track_phases s tracks = map (λ (t : Track). apply_phase s t.track_number t) tracks

-- What the loop meets: a line that is read at a time, where `commits` tells whether an update of the
-- database succeeds, or no output for the time that is allowed.
pub data Event : Type 0 where
  output : String → (now : ℕ) → (commits : Bool) → Event
  stalled : Event

pub record Stream : Type 0 where
  pub phases : Phases
  pub error_lines : List String
  pub last_phase_update : ℕ
  pub tracks : List Track

-- An update that does not succeed is rolled back.
abbrev pub update_tracks : Bool → Phases → List Track → List Track
update_tracks commits s tracks = if commits then apply_track_phases s tracks else tracks

abbrev pub is_error : Level → Bool
is_error error = true
is_error _ = false

-- A line that is not empty.
unfoldable pub take_line : Classes → String → ℕ → Bool → Stream → Stream
unfolding classify_abcde_line see apply_track_phases
take_line k line now commits s =
    let phases = see k line s.phases in
    let due = ltb 3 (now - s.last_phase_update) in
    record {
      phases = phases;
      error_lines =
          if is_error (classify_abcde_line k line)
          then s.error_lines ++ line ∷ []
          else s.error_lines;
      last_phase_update = if due then now else s.last_phase_update;
      tracks = if due then update_tracks commits phases s.tracks else s.tracks;
    }

-- `raw_line.rstrip('\n\r')`.
unfoldable pub rstrip_newline : String → String
rstrip_newline String.[] = ""
rstrip_newline (String.◌∷◌ c s) =
    let rest = rstrip_newline s in
    if (code c == 10 || code c == 13) && is_empty rest then "" else String.◌∷◌ c rest

-- The loop, up to the end of the output; the flag is false where TimeoutError is raised.
unfoldable pub stream_lines : Classes → List Event → Stream → Stream × Bool
unfolding take_line rstrip_newline
stream_lines k [] s = (s, true)
stream_lines k (stalled ∷ es) s = (s, false)
stream_lines k (output raw now commits ∷ es) s =
    let line = rstrip_newline raw in
    let rest = stream_lines k es (if is_empty line then s else take_line k line now commits s) in
    if is_empty raw then (s, true) else rest

abbrev pub no_phases : Phases
no_phases = record { grabbing = []; encoding = []; tagging = [] }

abbrev pub start_stream : List Track → Stream
start_stream tracks = record {
  phases = no_phases;
  error_lines = [];
  last_phase_update = 0;
  tracks = tracks;
}

-- The tracks and the error lines, or none where the rip timed out; `commits` is of the last update.
unfoldable pub stream_abcde_output :
    Classes → List Event → Bool → List Track → List Track × Option (List String)
unfolding stream_lines apply_track_phases
stream_abcde_output k es commits tracks =
    let (s, ended) = stream_lines k es (start_stream tracks) in
    if ended
    then (update_tracks commits s.phases s.tracks, some s.error_lines)
    else (s.tracks, none)

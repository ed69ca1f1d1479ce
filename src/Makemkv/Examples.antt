-- ===== src/Makemkv/Examples.antt =====
-- Runs of the track selection.
use automatic_ripping_machin.Common.{
  All, sort, ltb, if◌then◌else◌, str_eq, show, has_no, ℕ, String, ◌≡◌, refl, ◌↔◌, Bool, true, false,
  ◌&&◌, Option, none, some, List, [], ◌∷◌, map,
}
use automatic_ripping_machin.Makemkv.{Track}
use automatic_ripping_machin.Makemkv.Selection.{filter_track, judge, process_single_tracks}
use automatic_ripping_machin.Makemkv.Selection.Verdicts.{
  outcome, marked, process_single_tracks-outcome, process_single_tracks_stops, filter_track_agrees,
}
use automatic_ripping_machin.Makemkv.Names.{strip_track_suffix}
use automatic_ripping_machin.Makemkv.Reconcile.{reconcile_filenames}
use automatic_ripping_machin.Makemkv.Reconcile.Matching.{IsMatching}
use automatic_ripping_machin.Makemkv.Reconcile.Passes.{reconcile_filenames-IsMatching}
use automatic_ripping_machin.Makemkv.Output.{unchanged, Message, nothing, check}
use automatic_ripping_machin.Makemkv.Output.Checks.{Saved, check-nothing}
use automatic_ripping_machin.Makemkv.Info.{
  Info, tinfo, sinfo, titles, Row, Texts, convert_to_seconds, process_messages,
}
use automatic_ripping_machin.Makemkv.Info.Runs.{runs, is_fine, rows_of_runs}
use automatic_ripping_machin.Makemkv.Info.Scan.{process_messages-runs}
use automatic_ripping_machin.Makemkv.Parse.{Output, parsed, parse_line}
use automatic_ripping_machin.Makemkv.Parse.RoundTrip.{line, parse_line_round_trip}

abbrev track : ℕ → ℕ → Track
track i n = record {
  track_id = i;
  track_number = show i;
  length = some n;
  chapters = 1;
  filesize = 1000;
  filename = some "title.mkv";
  enabled = none;
  process = none;
  skip_reason = none;
  ripped = false;
}

abbrev tracks : List Track
tracks = track 1 100 ∷ record (track 2 3000) { enabled = some false } ∷ track 3 5400 ∷ []

process_single_tracks_run :
    map (λ (t : Track). t.ripped) (process_single_tracks (λ _. true) true 600 99999 tracks).0
    ≡ false ∷ false ∷ true ∷ []
unfolding process_single_tracks
process_single_tracks_run = refl

process_single_tracks-outcome_example :
    process_single_tracks (λ _. true) true 600 99999 tracks ≡ (map (outcome 600 99999) tracks, true)
process_single_tracks-outcome_example =
    process_single_tracks-outcome (λ _. true) 600 99999 tracks (refl, (refl, (refl, tt)))

-- makemkvcon fails at the first title, and the second is left as it was.
process_single_tracks_stops_example :
    process_single_tracks
      (λ _. false)
      true
      600
      99999
      (track 1 100 ∷ track 2 1000 ∷ track 3 1000 ∷ [])
    ≡ (outcome 600 99999 (track 1 100) ∷ marked (track 2 1000) ∷ track 3 1000 ∷ [], false)
process_single_tracks_stops_example =
    process_single_tracks_stops (λ _. false) 600 99999 (track 1 100 ∷ []) (track 2 1000)
      (track 3 1000 ∷ []) (refl, tt) refl

filter_track_agrees_example :
    (u : Track) × (judge true 600 99999 (filter_track 600 99999 (track 1 100)) ≡ some u)
    × (((filter_track 600 99999 (track 1 100)).process ≡ some false) ↔ (u.process ≡ some false))
    × (u.skip_reason ≡ (filter_track 600 99999 (track 1 100)).skip_reason)
filter_track_agrees_example = filter_track_agrees 600 99999 100 (track 1 100) refl refl refl

abbrev digit : ℕ → Bool
digit c = ltb 47 c && ltb c 58

-- The scan named the files otherwise than the rip did.
abbrev scanned : List Track
scanned =
    record (track 1 3000) { filename = some "A1_t00.mkv" }
    ∷ record (track 2 3000) { filename = some "B1_t01.mkv" }
    ∷ record (track 3 3000) { filename = none }
    ∷ []

abbrev ripped : List String
ripped = "A1_t00.mkv" ∷ "B1_t07.mkv" ∷ "C.mkv" ∷ []

strip_track_suffix_run :
    strip_track_suffix digit "Last Vermeer, The-B1_t00.mkv" ≡ "Last Vermeer, The-B1"
unfolding strip_track_suffix
strip_track_suffix_run = refl

reconcile_filenames-IsMatching_example :
    IsMatching ripped (reconcile_filenames digit scanned ripped)
reconcile_filenames-IsMatching_example =
    reconcile_filenames-IsMatching ripped digit scanned ((refl, (refl, tt)), ((refl, tt), (tt, tt)))
      ((refl, (refl, tt)), ((refl, tt), (tt, tt)))

reconcile_filenames_run :
    (reconcile_filenames digit scanned ripped).claims
    ≡ (3, "C.mkv") ∷ (2, "B1_t07.mkv") ∷ (1, "A1_t00.mkv") ∷ []
unfolding reconcile_filenames sort
reconcile_filenames_run = refl

abbrev completed : Message
completed = record {
  code = 5004;
  message = "3 titles saved, 0 failed";
  sprintf = "%1 titles saved, %2 failed" ∷ "3" ∷ "0" ∷ [];
}

int_of : String → Option ℕ
int_of s = if str_eq s "3" then some 3 else none

check-nothing_example :
    (check int_of completed ≡ nothing) ↔ ((completed.code ≡ 5004) × Saved int_of completed)
check-nothing_example = check-nothing int_of completed

check_run : check int_of completed ≡ nothing
unfolding check int_of
check_run = refl

abbrev texts : Texts
texts = record {
  int_of = λ s.
      if str_eq s "1"
      then some 1
      else if str_eq s "25"
      then some 25
      else if str_eq s "10"
      then some 10
      else none;
  float_text = λ s. some s;
  strip = λ s. s;
}

-- Two titles; the length of the second is the last message.
abbrev scan : List Info
scan =
    titles 2
    ∷ tinfo 0 27 0 "a_t00.mkv"
    ∷ sinfo 0 1 6201 "Video"
    ∷ sinfo 0 20 0 "16:9"
    ∷ tinfo 1 27 0 "b_t01.mkv"
    ∷ tinfo 1 9 0 "1:25:10"
    ∷ []

process_messages_run :
    map {B = ℕ × String × String × ℕ}
      (λ (r : Row). (r.track_number, r.filename, r.aspect_ratio, r.length))
      (process_messages texts "Film" scan).0.rows
    ≡ (0, "a_t00.mkv", "16:9", 0) ∷ (1, "b_t01.mkv", "", 5110) ∷ []
unfolding process_messages
process_messages_run = refl

scan_fine : All (λ m. is_fine texts m ≡ true) scan
unfolding is_fine convert_to_seconds
scan_fine = (refl, (refl, (refl, (refl, (refl, (refl, tt))))))

process_messages-runs_example :
    ((process_messages texts "Film" scan).1 ≡ true)
    × ((process_messages texts "Film" scan).0.rows ≡ rows_of_runs texts "Film" none (runs scan))
process_messages-runs_example = process_messages-runs texts "Film" scan scan_fine

parse_line_round_trip_example :
    (parse_line texts.int_of (line "TINFO" (1 ∷ 25 ∷ 10 ∷ []) "a, b: c")
      ≡ parsed (Output.tinfo 1 25 10 "a, b: c"))
    × (parse_line texts.int_of (line "SINFO" (1 ∷ 10 ∷ 25 ∷ 10 ∷ []) "a, b: c")
        ≡ parsed (Output.sinfo 1 10 25 10 "a, b: c"))
    × (parse_line texts.int_of (line "CINFO" (25 ∷ 10 ∷ []) "a, b: c")
        ≡ parsed (Output.cinfo 25 10 "a, b: c"))
    × (parse_line texts.int_of (line "PRGC" (10 ∷ 25 ∷ []) "a, b: c")
        ≡ parsed (Output.prgc 10 25 "a, b: c"))
unfolding show has_no
parse_line_round_trip_example =
    parse_line_round_trip texts.int_of 1 10 25 10 "a, b: c" refl refl refl refl refl

msg_run :
    parse_line texts.int_of "MSG:1,25,10,\"Hi, you\",\"%1, you\",\"Hi\""
    ≡ parsed (
        Output.msg
          (record { code = 1; message = "Hi, you"; sprintf = "%1, you" ∷ "Hi" ∷ [] })
          unchanged)
unfolding parse_line
msg_run = refl

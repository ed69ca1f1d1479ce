-- ===== src/Ripper/Examples.antt =====
-- Runs of the wait for the user, of the rip of an audio disc and of the choice of a folder.
use automatic_ripping_machin.Common.{
  keep, ltb, ◌==◌, if◌then◌else◌, str_eq, String, ◌≡◌, refl, Bool, true, false, ◌&&◌, none, some,
  List, [], ◌∷◌, map, arith,
}
use automatic_ripping_machin.Machine.{failure, pending, ripping, track_success}
use automatic_ripping_machin.Ripper.Wait.{
  Poll, overridden, poll_manual_wait, idle, other_state, check_for_wait,
}
use automatic_ripping_machin.Ripper.Wait.Polls.{
  EndsAt, GoesOn, poll_manual_wait-EndsAt, poll_manual_wait_ends,
}
use automatic_ripping_machin.Ripper.Folder.{Disk, LastJob, in_state, check_for_dupe_folder}
use automatic_ripping_machin.Ripper.Folder.Untouched.{IsFresh, check_for_dupe_folder-IsFresh}
use automatic_ripping_machin.Ripper.Music.{
  Classes, error, warning, debug, info, classify_abcde_line, Track, is_error, apply_track_phases,
  Event, output, no_phases, stream_abcde_output,
}
use automatic_ripping_machin.Ripper.Music.Final.{printed, see_all}
use automatic_ripping_machin.Ripper.Music.Finish.{stream_abcde_output_final}

abbrev poll : Bool → Bool → Poll
poll titled paused = record {
  waits = true;
  manual_start = false;
  manual_pause = false;
  title_manual = titled;
  globally_paused = paused;
}

-- A title is given during a global pause.
abbrev polls : List Poll
polls = poll false true ∷ poll true true ∷ poll true false ∷ []

poll_manual_wait_run : poll_manual_wait 5 0 polls ≡ (overridden, 15)
unfolding poll_manual_wait
poll_manual_wait_run = refl

check_for_wait_run :
    check_for_wait true false 60 1000 polls (record {
      status = other_state;
      wait_start_time = none;
      manual_start = false;
      hasnicetitle = false;
      updated = false;
    })
    ≡ (
      record {
        status = idle;
        wait_start_time = some 1000;
        manual_start = false;
        hasnicetitle = true;
        updated = true;
      },
      true,
    )
unfolding check_for_wait
check_for_wait_run = refl

poll_manual_wait-EndsAt_example : EndsAt 5 0 polls (poll_manual_wait 5 0 polls)
poll_manual_wait-EndsAt_example = poll_manual_wait-EndsAt 5 0 polls

abbrev quiet : List Poll
quiet = poll false false ∷ poll false false ∷ []

poll_manual_wait_ends_example : GoesOn (poll_manual_wait 10 0 quiet)
poll_manual_wait_ends_example =
    poll_manual_wait_ends 10 0 quiet ((refl, refl, refl), ((refl, refl, refl), tt)) (omega arith)
      (omega arith)

abbrev classes : Classes
classes = record {
  is_digit = λ c. ltb 47 c && ltb c 58;
  is_space = λ c. c == 32;
  int_of = λ s. if str_eq s "1" then some 1 else if str_eq s "2" then some 2 else none;
}

classify_abcde_line_run :
    map (classify_abcde_line classes) (
      "[ERROR] x" ∷ "abcde returned code 12: y" ∷ "HEH! The file a b disappeared" ∷ "401: no disc"
      ∷ "Not cleaning up" ∷ "  to sector 5" ∷ "..++ :^D 8X" ∷ "Grabbing track 1: z" ∷ [])
    ≡ error ∷ error ∷ error ∷ error ∷ warning ∷ debug ∷ debug ∷ info ∷ []
unfolding classify_abcde_line
classify_abcde_line_run = refl

abbrev album : List Track
album =
    record { track_number = some 1; ripped = false; status = pending }
    ∷ record { track_number = some 2; ripped = false; status = pending }
    ∷ record { track_number = none; ripped = false; status = pending }
    ∷ []

-- The first update fails, the second finds both tracks.
abbrev printout : List Event
printout =
    output "Grabbing track 1: a\n" 10 false
    ∷ output "\n" 11 true
    ∷ output "Encoding track 1 of 2\n" 12 true
    ∷ output "Grabbing track 2: b\n" 20 true
    ∷ output "Permission denied\n" 21 true
    ∷ output "Tagging track 1 of 2\n" 22 true
    ∷ []

stream_abcde_output_run : stream_abcde_output classes printout true album ≡ (
  record { track_number = some 1; ripped = true; status = track_success }
      ∷ record { track_number = some 2; ripped = false; status = ripping }
      ∷ record { track_number = none; ripped = false; status = pending }
      ∷ [],
  some ("Permission denied" ∷ []),
)
unfolding stream_abcde_output
stream_abcde_output_run = refl

stream_abcde_output_final_example : stream_abcde_output classes printout true album ≡ (
  apply_track_phases (see_all classes (printed printout) no_phases) album,
  some (keep (λ line. is_error (classify_abcde_line classes line)) (printed printout)),
)
stream_abcde_output_final_example =
    stream_abcde_output_final classes album (refl, (refl, (refl, tt))) printout
      (refl, (refl, (refl, (refl, (refl, (refl, tt))))))

-- A film that is there, and what is left of a rip that failed.
abbrev films : Disk
films = record {
  directories = "/m" ∷ "/m/Film" ∷ "/m/Film_7" ∷ "/m/Film_7/extras" ∷ [];
  files = "/m/Film/film.mkv" ∷ "/m/Film_7.txt" ∷ [];
}

abbrev last_failed : String → LastJob
last_failed label = in_state failure

check_for_dupe_folder_run :
    check_for_dupe_folder (λ _. true) last_failed true true "/m/Film" "7" (some "FILM") films
    ≡ record {
      disk = record {
        directories = "/m/Film_7" ∷ "/m" ∷ "/m/Film" ∷ [];
        files = "/m/Film/film.mkv" ∷ "/m/Film_7.txt" ∷ [];
      };
      published = false;
      folder = some "/m/Film_7";
    }
unfolding check_for_dupe_folder
check_for_dupe_folder_run = refl

check_for_dupe_folder-IsFresh_example :
    IsFresh films
      (check_for_dupe_folder (λ _. true) last_failed true true "/m/Film" "7" (some "FILM") films)
check_for_dupe_folder-IsFresh_example =
    check_for_dupe_folder-IsFresh last_failed (λ _. true) films true true "/m/Film" "7"
      (some "FILM") (record { covered = λ e. cc; apart = λ _. refl })
      (record { covered = λ e. cc; apart = λ _. refl })

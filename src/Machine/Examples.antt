-- ===== src/Machine/Examples.antt =====
-- Runs of the jobs' and drives' code on a small database.
use automatic_ripping_machin.Common.{
  All, Holds, cat, ℕ, String, ◌≡◌, refl, sym, true, false, false≢true, Option, none, some, List, [],
  ◌∷◌, map, arith,
}
use automatic_ripping_machin.Machine.{
  JobState, success, video_ripping, disc, track_success, transcoded, Track, Job, DriveInformation,
  Drive, Database,
}
use automatic_ripping_machin.Machine.Drives.{drives_update}
use automatic_ripping_machin.Machine.Drives.Rescan.{Rips, drives_update-Rips}
use automatic_ripping_machin.Machine.Drives.Rows.{IsPlaced, drives_update_rows}
use automatic_ripping_machin.Machine.Drives.Found.{HasRow, drives_update-HasRow}
use automatic_ripping_machin.Machine.Startup.{is_settled, cleanup_orphaned_jobs}
use automatic_ripping_machin.Machine.Startup.Settled.{
  cleanup_orphaned_jobs_settles, dead_pids_uncounted,
}
use automatic_ripping_machin.Machine.Startup.Freed.{Exclusive, Free, cleanup_orphaned_jobs_frees}
use automatic_ripping_machin.Machine.Setup.{begin_job}
use automatic_ripping_machin.Machine.Setup.Started.{StartEnds, begin_job-StartEnds, begin_job-kept}
use automatic_ripping_machin.Machine.Setup.Holders.{holds_job}
use automatic_ripping_machin.Machine.Steps.{goes, stays, rescans, restarts, Steps-Exclusive}
use automatic_ripping_machin.Machine.Handlers.Moves.{
  Request, start, force, callback, NoneStarts, handle_all, handle_all-NoneStarts,
}
use automatic_ripping_machin.Machine.Callback.{completed, failed, TrackResult, set_results}
use automatic_ripping_machin.Machine.Callback.Tracks.{outcome, set_results-outcome}

abbrev job : ℕ → JobState → Option ℕ → Job
job i state pid = record {
  job_id = i;
  status = state;
  title = "Alien";
  errors = none;
  pid = pid;
  devpath = "/dev/sr0";
  source_type = disc;
  ejected = false;
  manual_start = false;
  manual_pause = false;
  wait_start_time = none;
  start_time = 10;
  stop_time = none;
  tracks = [];
}

abbrev information : String → String → DriveInformation
information mount serial_id = record {
  mount = mount;
  serial_id = serial_id;
  maker = "ASUS";
  model = "BW-16D1HT";
  serial = serial_id;
  connection = "ata";
  read_cd = true;
  read_dvd = true;
  read_bd = true;
  firmware = "3.10";
  location = cat ("pci-" ∷ serial_id ∷ []);
}

abbrev drive : ℕ → String → String → Option ℕ → Drive
drive i mount serial_id current = record {
  drive_id = i;
  name = serial_id;
  information = information mount serial_id;
  stale = false;
  mdisc = none;
  job_id_current = current;
  job_id_previous = none;
  drive_mode = some "auto";
}

-- Drive 1 rips the job 7; drive 2 is idle. The job 8 was finished.
abbrev database : Database
database = record {
  jobs = job 7 video_ripping (some 4242) ∷ job 8 success none ∷ [];
  drives = drive 1 "/dev/sr0" "A" (some 7) ∷ drive 2 "/dev/sr1" "B" none ∷ [];
  notifications = [];
  next_drive_id = 3;
}

-- udev finds the drives with their paths swapped.
abbrev swapped : List DriveInformation
swapped = information "/dev/sr0" "B" ∷ information "/dev/sr1" "A" ∷ []

two_is_not_one : (n : ℕ) → n ≡ 2 → n ≡ 1 → ⊥
two_is_not_one n h k = omega arith

drives_update-Rips_example :
    All (Rips database.jobs 1 "/dev/sr0") (drives_update false swapped database).drives
drives_update-Rips_example =
    drives_update-Rips 1 "/dev/sr0" false swapped database (omega arith)
      ((λ _. (refl, refl)), ((λ e. elim (two_is_not_one 2 refl e) [ ]), tt))

drives_update_rows_example :
    All (IsPlaced database.jobs swapped) (drives_update false swapped database).drives
drives_update_rows_example = (drives_update_rows false swapped database).1

drives_update-HasRow_example : All (HasRow (drives_update false swapped database).drives) swapped
drives_update-HasRow_example =
    drives_update-HasRow false swapped database ((refl, tt), (tt, tt))
      (omega arith, (omega arith, tt))

cleanup_orphaned_jobs_settles_example :
    All (λ j. is_settled j.status ≡ true) (cleanup_orphaned_jobs (λ _. true) database).0.jobs
cleanup_orphaned_jobs_settles_example =
    (cleanup_orphaned_jobs_settles (λ _. true) (λ _. false) database).0

dead_pids_uncounted_example : (cleanup_orphaned_jobs (λ _. false) database).1 ≡ 0
dead_pids_uncounted_example =
    (dead_pids_uncounted (λ _. false) database
      ((λ _. refl), ((λ e. elim (false≢true (sym e)) [ ]), tt))).1

cleanup_orphaned_jobs_frees_example : Free 7 (cleanup_orphaned_jobs (λ _. true) database).0.drives
cleanup_orphaned_jobs_frees_example =
    cleanup_orphaned_jobs_frees 7 (λ _. true) database (((λ i _. refl), tt), (tt, tt)) refl
      ((λ _. refl), ((λ e. elim (false≢true e) [ ]), tt))

abbrev requests : List Request
requests =
    start 8
    ∷ callback 8 (some (record { status = failed; error = none; track_results = [] }))
    ∷ force 7
    ∷ []

handle_all-NoneStarts_example : NoneStarts database.jobs (handle_all requests database).jobs
handle_all-NoneStarts_example = handle_all-NoneStarts requests database

abbrev track : String → Track
track n = record { track_number = n; status = track_success; error = none }

abbrev results : List TrackResult
results =
    record { track_number = "2"; status = failed; error = some "no audio" }
    ∷ record { track_number = "2"; status = completed; error = none }
    ∷ []

set_results-outcome_example :
    set_results results (track "1" ∷ track "2" ∷ [])
    ≡ map (outcome results) (track "1" ∷ track "2" ∷ [])
set_results-outcome_example =
    set_results-outcome results (track "1" ∷ track "2" ∷ []) ((refl, tt), (tt, tt))

set_results_run :
    map (λ (t : Track). t.status) (set_results results (track "1" ∷ track "2" ∷ []))
    ≡ track_success ∷ transcoded ∷ []
unfolding set_results
set_results_run = refl

-- The new job is on the drive that is idle.
abbrev inserted : Job
inserted = record (job 9 success (some 77)) { devpath = "/dev/sr1" }

begin_job_run :
    map
      (λ (d : Drive). d.job_id_current)
      (elim (begin_job (λ _. true) 50 inserted database) [ none ↦ [] | some t ↦ t.drives ])
    ≡ some 7 ∷ some 9 ∷ []
unfolding begin_job
begin_job_run = refl

begin_job-StartEnds_example :
    StartEnds (λ _. true) 50 inserted database (begin_job (λ _. true) 50 inserted database)
begin_job-StartEnds_example =
    begin_job-StartEnds (λ _. true) 50 inserted database (((λ i _. refl), tt), (tt, tt))
      (refl, (refl, tt)) ((λ _. refl), ((λ _. refl), tt)) refl

begin_job-kept_example :
    Holds (λ t. holds_job 7 t.drives ≡ true) (begin_job (λ _. true) 50 inserted database)
begin_job-kept_example =
    begin_job-kept (λ _. true) 50 inserted database 7 refl ((λ _. refl), ((λ _. refl), tt)) refl
      refl

-- The service is restarted behind a rescan, while the process of the job 7 lives.
abbrev rescanned : Database
rescanned = drives_update true swapped database

Steps-Exclusive_example : Exclusive (cleanup_orphaned_jobs (λ _. true) rescanned).0.drives
Steps-Exclusive_example =
    Steps-Exclusive database (cleanup_orphaned_jobs (λ _. true) rescanned).0
      (goes database rescanned _ (rescans true swapped database)
        (goes rescanned _ _ (restarts (λ _. true) rescanned) (stays _)))
      (((λ i _. refl), tt), (tt, tt))

-- ===== src/Machine/Setup.antt =====
-- The start of a job, in `setup` of arm/ripper/main.py: `duplicate_run_check` (arm/ripper/utils.py),
-- the new row, `update_drive_job` (arm/services/drives.py) and `clean_old_jobs`.
pub mod Holders
pub mod Started
use automatic_ripping_machin.Common.{
  find, ltb, ◌==◌, if◌then◌else◌, ℕ, ◌+◌, ◌-◌, ◌*◌, ◌/◌, ◌%◌, ◌^◌, ◌≤◌, ◌<◌, String, ◌≡◌, ◌∙◌,
  ◌≡⟨◌⟩◌, ◌∎, ◌≢◌, ◌↔◌, ◌⊎◌, Bool, not, ◌&&◌, ◌||◌, Option, none, some, List, [], ◌∷◌, ◌++◌,
}
use automatic_ripping_machin.Machine.{
  Job, identifying, Drive, Database, has_job_id, processing, release_current_job, new_job,
}
use automatic_ripping_machin.Machine.Drives.{at_mount, update_drive_job}
use automatic_ripping_machin.Machine.Startup.{clean_old_jobs}

-- `passed`, or where RipperException is raised, or where the drive is not in the table.
pub data Verdict : Type 0 where
  passed : Verdict
  grace : Verdict
  running : Verdict
  no_drive : Verdict

abbrev pub stop_of : Option Job → Option ℕ
stop_of none = none
stop_of (some j) = j.stop_time

-- `drive.job_previous.stop_time`.
abbrev pub previous_stop : List Job → Drive → Option ℕ
previous_stop jobs d = elim d.job_id_previous [
  | none ↦ none
  | some i ↦ stop_of (find (has_job_id i) jobs)
]

-- Less than 30 seconds after the stop, which may lie ahead.
abbrev pub after_eject : ℕ → Option ℕ → Verdict
after_eject now none = passed
after_eject now (some stop) = if ltb now (stop + 30) then grace else passed

abbrev pub check_drive : ℕ → List Job → Option Drive → Verdict
check_drive now jobs none = no_drive
check_drive now jobs (some d) =
    if processing jobs d then running else after_eject now (previous_stop jobs d)

unfoldable pub duplicate_run_check : ℕ → String → Database → Verdict
duplicate_run_check now devpath s = check_drive now s.jobs (find (at_mount devpath) s.drives)

abbrev pub add_job : ℕ → Job → Database → Database
add_job now j s =
    update_drive_job j
      (record s { jobs = s.jobs ++ record j { status = identifying; start_time = now } ∷ [] })

abbrev pub begin : (ℕ → Bool) → ℕ → Job → Database → Verdict → Option Database
begin pid_exists now j s passed = some (clean_old_jobs pid_exists (add_job now j s))
begin pid_exists now j s _ = none

-- `j` is what `Job(devpath)` makes, with the key that its row gets. None where `setup` raises.
unfoldable pub begin_job : (ℕ → Bool) → ℕ → Job → Database → Option Database
unfolding duplicate_run_check update_drive_job clean_old_jobs
begin_job pid_exists now j s = begin pid_exists now j s (duplicate_run_check now j.devpath s)

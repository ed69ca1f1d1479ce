-- ===== src/Machine/Drives.antt =====
-- arm/services/drives.py: the rescan of the drives and their jobs.
pub mod Rescan
pub mod Rows
pub mod Seats
pub mod Found
use automatic_ripping_machin.Common.{
  length, keep, find, map_if, sort, ◌==◌, if◌then◌else◌, or_else, str_eq, is_empty, str_leb,
  only_spaces, ℕ, ◌+◌, ◌-◌, ◌*◌, ◌/◌, ◌%◌, ◌^◌, ◌≤◌, ◌<◌, String, ◌≡◌, ◌∙◌, ◌≡⟨◌⟩◌, ◌∎, ◌≢◌, ◌↔◌,
  ◌⊎◌, Bool, true, false, not, ◌&&◌, ◌||◌, Option, none, some, List, [], ◌∷◌, ◌++◌,
}
use automatic_ripping_machin.Machine.{
  Job, Drive, DriveInformation, Database, JobState, is_finished, has_job_id, has_drive_id,
  has_current, is_job, processing, release_current_job, new_job, ripping_finished,
}

abbrev pub first {ℓ} : {A : Type ℓ} → List A → Option A
first [] = none
first (x ∷ _) = some x

-- The first loop of `drives_update`.
abbrev pub mark_stale : List Job → Bool → Drive → Drive
mark_stale jobs startup d = record d {
  stale = not (processing jobs d);
  mdisc = if startup then none else d.mdisc;
}

-- ORDER BY mount.
abbrev pub mount_before : Drive → Drive → Bool
mount_before a b = str_leb a.information.mount b.information.mount

abbrev pub same_serial : DriveInformation → Drive → Bool
same_serial drive d = str_eq d.information.serial_id drive.serial_id && d.stale

abbrev pub same_location : DriveInformation → Drive → Bool
same_location drive d = str_eq d.information.location drive.location && d.stale

abbrev pub same_mount : DriveInformation → Drive → Bool
same_mount drive d = str_eq d.information.mount drive.mount

-- `SystemDrives.update`.
abbrev pub update : DriveInformation → Drive → Drive
update drive d = record d { information = drive; stale = false }

-- `SystemDrives()`.
abbrev pub new_drive : ℕ → DriveInformation → Drive
new_drive i drive = record {
  drive_id = i;
  name = drive.serial_id;
  information = drive;
  stale = true;
  mdisc = none;
  job_id_current = none;
  job_id_previous = none;
  drive_mode = some "auto";
}

abbrev pub by_serial : DriveInformation → List Drive → Option Drive
by_serial drive ds =
    if is_empty drive.serial_id
    then none
    else first (sort mount_before (keep (same_serial drive) ds))

abbrev pub by_location : DriveInformation → List Drive → Option Drive
by_location drive ds = if is_empty drive.location then none else find (same_location drive) ds

abbrev pub or_try {ℓ} : {A : Type ℓ} → Option A → Option A → Option A
or_try none y = y
or_try (some x) y = some x

-- The queries of `_find_or_create_drive`, in their order.
unfoldable pub find_drive : DriveInformation → List Drive → Option Drive
find_drive drive ds =
    or_try (by_serial drive ds) (or_try (by_location drive ds) (find (same_mount drive) ds))

abbrev pub create : Option Drive → DriveInformation → Database → Database × ℕ
create (some d) drive s = (s, d.drive_id)
create none drive s = (
  record s {
    drives = s.drives ++ new_drive s.next_drive_id drive ∷ [];
    next_drive_id = s.next_drive_id + 1;
  },
  s.next_drive_id,
)

unfoldable pub find_or_create_drive : DriveInformation → Database → Database × ℕ
unfolding find_drive
find_or_create_drive drive s = create (find_drive drive s.drives) drive s

-- Another idle row with the mount of this drive.
abbrev pub conflicts : List Job → ℕ → DriveInformation → Drive → Bool
conflicts jobs i drive d = not (d.drive_id == i) && same_mount drive d && not (processing jobs d)

abbrev pub blank_mount : Drive → Drive
blank_mount d = record d { information = record d.information { mount = "" } }

-- The body of the loop of `drives_update` over the detected drives.
unfoldable pub update_detected : DriveInformation → Database → Database
unfolding find_or_create_drive
update_detected drive s =
    let (t, i) = find_or_create_drive drive s in
    record t {
      drives =
          map_if (conflicts t.jobs i drive) blank_mount
            (map_if (has_drive_id i) (update drive) t.drives);
    }

unfoldable pub update_all : List DriveInformation → Database → Database
unfolding update_detected
update_all [] s = s
update_all (drive ∷ more) s = update_all more (update_detected drive s)

abbrev pub already_cleaned : List Job → Drive → Bool
already_cleaned jobs d =
    only_spaces d.information.serial_id
    && only_spaces d.information.mount
    && only_spaces d.information.location
    && not (processing jobs d)

abbrev pub is_lost : List Job → Drive → Bool
is_lost jobs d = d.stale && not (already_cleaned jobs d)

abbrev pub clean_drive : List Job → Drive → Drive
clean_drive jobs d =
    if processing jobs d
    then record d { stale = false }
    else record d { information = record d.information { mount = ""; location = "" }; mdisc = none }

-- `_cleanup_stale_drives`.
unfoldable pub cleanup_stale_drives : Database → Database × ℕ
cleanup_stale_drives s = (
  record s { drives = map_if (is_lost s.jobs) (clean_drive s.jobs) s.drives },
  length (keep (λ d. is_lost s.jobs d && not (processing s.jobs d)) s.drives),
)

-- `detected` is what `_detect_drives` returns.
unfoldable pub drives_update : Bool → List DriveInformation → Database → Database
unfolding update_all cleanup_stale_drives
drives_update startup detected s =
    let marked = record s { drives = map_if (λ _. true) (mark_stale s.jobs startup) s.drives } in
    (cleanup_stale_drives (update_all detected marked)).0

abbrev pub job_of : List Job → Drive → Option Job
job_of jobs d = elim d.job_id_current [ none ↦ none | some i ↦ find (has_job_id i) jobs ]

-- The first test of `update_job_status`: the drive's job is finished.
abbrev pub releasable : List Job → Drive → Bool
releasable jobs d = elim (job_of jobs d) [
  | none ↦ false
  | some j ↦ ripping_finished j (some d) && is_finished j.status
]

-- `job_previous.status is None` is never true: the column is NOT NULL.
abbrev pub refresh_drive : List Job → Drive → Drive
refresh_drive jobs d =
    if releasable jobs d
    then release_current_job d
    else record d { drive_mode = some (or_else d.drive_mode "auto") }

unfoldable pub update_job_status : Database → Database
update_job_status s = record s { drives = map_if (λ _. true) (refresh_drive s.jobs) s.drives }

abbrev pub clear_current : Drive → Drive
clear_current d = record d { job_id_current = none }

abbrev pub clear_previous : Drive → Drive
clear_previous d = record d { job_id_previous = none }

-- `job_cleanup`, before a job is deleted.
unfoldable pub job_cleanup : ℕ → Database → Database
job_cleanup i s = record s {
  drives =
      map_if (λ d. is_job i d.job_id_previous) clear_previous
        (map_if (has_current i) clear_current s.drives);
}

abbrev pub assign : Option Drive → ℕ → Database → Database
assign none i s = s
assign (some d) i s = record s { drives = map_if (has_drive_id d.drive_id) (new_job i) s.drives }

abbrev pub at_mount : String → Drive → Bool
at_mount devpath d = str_eq d.information.mount devpath

-- The first drive of the mount gets the job.
unfoldable pub give_job : ℕ → String → List Drive → List Drive
unfolding new_job
give_job i devpath [] = []
give_job i devpath (d ∷ ds) =
    let rest = give_job i devpath ds in if at_mount devpath d then new_job i d ∷ ds else d ∷ rest

-- The commit is taken to succeed.
unfoldable pub update_drive_job : Job → Database → Database
unfolding give_job
update_drive_job job s = record s { drives = give_job job.job_id job.devpath s.drives }

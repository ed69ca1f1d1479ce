-- ===== src/Machine.antt =====
-- arm/models/job.py and arm/models/system_drives.py: the jobs, the drives and the history as one
-- database. A NULL text is read as the empty one, a NULL flag as false; times are seconds.
pub mod Drives
pub mod Startup
pub mod Setup
pub mod Steps
pub mod Handlers
pub mod Callback
mod Examples
use automatic_ripping_machin.Common.{
  find, ◌==◌, if◌then◌else◌, is_some, ℕ, ◌+◌, ◌-◌, ◌*◌, ◌/◌, ◌%◌, ◌^◌, ◌≤◌, ◌<◌, String, ◌≡◌, ◌∙◌,
  ◌≡⟨◌⟩◌, ◌∎, ◌≢◌, ◌↔◌, ◌⊎◌, Bool, true, false, not, ◌&&◌, ◌||◌, Option, none, some, List, ◌∷◌,
  ◌++◌,
}

-- The values of `JobState` (the contracts' enum, as the migrations of arm/migrations list them).
pub data JobState : Type 0 where
  success failure manual_paused identifying idle video_ripping audio_ripping video_info : JobState
  copying ejecting transcode_active transcode_waiting makemkv_throttled : JobState

pub data SourceType : Type 0 where
  disc folder iso : SourceType

pub data TrackStatus : Type 0 where
  pending ripping encoding track_success transcoded transcode_failed track_failed : TrackStatus

pub record Track : Type 0 where
  pub track_number : String
  pub status : TrackStatus
  pub error : Option String

pub record Job : Type 0 where
  pub job_id : ℕ
  pub status : JobState
  pub title : String
  pub errors : Option String
  pub pid : Option ℕ
  pub devpath : String
  pub source_type : SourceType
  pub ejected : Bool
  pub manual_start : Bool
  pub manual_pause : Bool
  pub wait_start_time : Option ℕ
  pub start_time : ℕ
  pub stop_time : Option ℕ
  pub tracks : List Track

-- What udev tells of a drive (`DriveInformationMedium`, as far as `SystemDrives.update` reads it).
pub record DriveInformation : Type 0 where
  pub mount : String
  pub serial_id : String
  pub maker : String
  pub model : String
  pub serial : String
  pub connection : String
  pub read_cd : Bool
  pub read_dvd : Bool
  pub read_bd : Bool
  pub firmware : String
  pub location : String

pub record Drive : Type 0 where
  pub drive_id : ℕ
  pub name : String
  pub information : DriveInformation
  pub stale : Bool
  pub mdisc : Option ℕ
  pub job_id_current : Option ℕ
  pub job_id_previous : Option ℕ
  pub drive_mode : Option String

pub record Notification : Type 0 where
  pub title : String
  pub message : String

-- `next_drive_id` is the key that the next row of the drives' table gets.
pub record Database : Type 0 where
  pub jobs : List Job
  pub drives : List Drive
  pub notifications : List Notification
  pub next_drive_id : ℕ

-- `JOB_STATUS_FINISHED`.
abbrev pub is_finished : JobState → Bool
is_finished success = true
is_finished failure = true
is_finished _ = false

-- `JOB_STATUS_TRANSCODING`.
abbrev pub is_transcoding : JobState → Bool
is_transcoding transcode_active = true
is_transcoding transcode_waiting = true
is_transcoding _ = false

-- `JOB_STATUS_RIPPING`.
abbrev pub is_ripping : JobState → Bool
is_ripping audio_ripping = true
is_ripping video_ripping = true
is_ripping manual_paused = true
is_ripping makemkv_throttled = true
is_ripping video_info = true
is_ripping copying = true
is_ripping ejecting = true
is_ripping _ = false

abbrev pub has_job_id : ℕ → Job → Bool
has_job_id i j = j.job_id == i

abbrev pub has_drive_id : ℕ → Drive → Bool
has_drive_id i d = d.drive_id == i

abbrev pub is_job : ℕ → Option ℕ → Bool
is_job i none = false
is_job i (some j) = j == i

-- The drive whose current job this is (`Job.drive`, the back reference).
abbrev pub has_current : ℕ → Drive → Bool
has_current i d = is_job i d.job_id_current

-- `SystemDrives.processing`: the current job is set and it is in the table.
abbrev pub processing : List Job → Drive → Bool
processing jobs d = elim d.job_id_current [
  | none ↦ false
  | some i ↦ is_some (find (has_job_id i) jobs)
]

-- `SystemDrives.release_current_job`.
unfoldable pub release_current_job : Drive → Drive
release_current_job d = elim d.job_id_current [
  | none ↦ d
  | some i ↦ record d { job_id_previous = some i; job_id_current = none }
]

-- `SystemDrives.new_job`.
unfoldable pub new_job : ℕ → Drive → Drive
unfolding release_current_job
new_job i d = record (release_current_job d) { job_id_current = some i }

-- `Job.ripping_finished` of a job with this drive.
unfoldable pub ripping_finished : Job → Option Drive → Bool
ripping_finished j drive =
    is_finished j.status || not (is_ripping j.status) || not (is_some drive) || j.ejected

-- ===== src/Machine/Handlers.antt =====
-- arm/api/v1/jobs.py (start, pause, cancel, skip-and-finalize, force-complete), `abandon_job` of
-- arm/services/jobs.py and `Job.eject`: the requests that move a job.
pub mod Moves
pub mod Held
use automatic_ripping_machin.Common.{
  find, any, ◌==◌, if◌then◌else◌, or_else, cat, show, ℕ, ◌+◌, ◌-◌, ◌*◌, ◌/◌, ◌%◌, ◌^◌, ◌≤◌, ◌<◌,
  String, ◌≡◌, ◌∙◌, ◌≡⟨◌⟩◌, ◌∎, ◌≢◌, ◌↔◌, ◌⊎◌, Bool, true, false, not, ◌&&◌, ◌||◌, Option, none,
  some, List, [], ◌∷◌, ◌++◌,
}
use automatic_ripping_machin.Machine.{
  JobState, success, failure, manual_paused, video_ripping, transcode_active, transcode_waiting,
  SourceType, disc, folder, iso, Job, Drive, Notification, Database, is_finished, has_job_id,
  has_current, release_current_job,
}
use automatic_ripping_machin.Machine.Startup.{release_drive}

-- What a request answers: a success, a success that also starts a thread which rips, or a refusal
-- with its HTTP status.
pub data Response : Type 0 where
  ok rips : Response
  refused : ℕ → Response

-- The row that `Job.query.get` finds, written.
unfoldable pub update_job : ℕ → (Job → Job) → List Job → List Job
update_job i f [] = []
update_job i f (j ∷ js) =
    let rest = update_job i f js in if has_job_id i j then f j ∷ js else j ∷ rest

abbrev pub write_job : ℕ → (Job → Job) → Database → Database
write_job i f s = record s { jobs = update_job i f s.jobs }

abbrev pub notify : String → String → Database → Database
notify title message s = record s {
  notifications = s.notifications ++ record { title = title; message = message } ∷ [];
}

abbrev pub with_found : Option Job → (Job → Database × Response) → Database → Database × Response
with_found none handler s = (s, refused 404)
with_found (some j) handler s = handler j

-- A handler of a stored job, or 404.
abbrev pub with_job : ℕ → (Job → Database × Response) → Database → Database × Response
with_job i handler s = with_found (find (has_job_id i) s.jobs) handler s

abbrev pub is_paused : JobState → Bool
is_paused manual_paused = true
is_paused _ = false

abbrev pub is_success : JobState → Bool
is_success success = true
is_success _ = false

abbrev pub awaits_transcode : JobState → Bool
awaits_transcode transcode_waiting = true
awaits_transcode _ = false

abbrev pub is_import : SourceType → Bool
is_import disc = false
is_import _ = true

abbrev pub set_status : JobState → Job → Job
set_status status j = record j { status = status }

unfoldable pub start_waiting_job : ℕ → Database → Database × Response
unfolding update_job
start_waiting_job i s =
    with_job i
      (λ j.
        if not (is_paused j.status)
        then (s, refused 409)
        else if is_import j.source_type
        then (write_job i (set_status video_ripping) s, rips)
        else (write_job i (λ j. record j { manual_start = true }) s, ok))
      s

abbrev pub set_pause : Bool → ℕ → Job → Job
set_pause paused now j = record j {
  manual_pause = paused;
  wait_start_time = if paused then j.wait_start_time else some now;
}

-- `paused` is the value that the body gives, if it gives one.
unfoldable pub pause_waiting_job : ℕ → Option Bool → ℕ → Database → Database × Response
unfolding update_job
pause_waiting_job i paused now s =
    with_job i
      (λ j.
        if not (is_paused j.status)
        then (s, refused 409)
        else (write_job i (set_pause (or_else paused (not j.manual_pause)) now) s, ok))
      s

unfoldable pub cancel_waiting_job : ℕ → Database → Database × Response
unfolding update_job
cancel_waiting_job i s =
    with_job i
      (λ j. if not (is_paused j.status) then (s, refused 409) else (
        write_job i (set_status failure) (
            notify (cat ("Job: " ∷ show i ∷ " was cancelled" ∷ []))
              (cat ("'" ∷ j.title ∷ "' was cancelled by user during manual-wait" ∷ [])) s),
        ok,
      ))
      s

-- `finalizes` tells whether `finalize_output`, which moves the files, returns; if it raises, the
-- session is rolled back.
unfoldable pub skip_and_finalize : ℕ → Bool → Database → Database × Response
unfolding update_job
skip_and_finalize i finalizes s =
    with_job i
      (λ j.
        if not (awaits_transcode j.status)
        then (s, refused 409)
        else if finalizes
        then (
          write_job i (set_status success) (
              notify (cat ("Job: " ∷ show i ∷ " finalized without transcoding" ∷ []))
                (cat ("'" ∷ j.title ∷ "' skipped transcoding and finalized successfully" ∷ [])) s),
          ok,
        )
        else (s, refused 500))
      s

-- The value of each state, which the message of `force_complete` holds.
abbrev pub value : JobState → String
value s = elim s [
  | success ↦ "success"
  | failure ↦ "fail"
  | manual_paused ↦ "manual_paused"
  | video_ripping ↦ "video_ripping"
  | JobState.identifying ↦ "identifying"
  | JobState.idle ↦ "ready"
  | JobState.audio_ripping ↦ "audio_ripping"
  | JobState.video_info ↦ "info"
  | JobState.copying ↦ "copying"
  | JobState.ejecting ↦ "ejecting"
  | transcode_active ↦ "transcoding"
  | transcode_waiting ↦ "waiting_transcode"
  | JobState.makemkv_throttled ↦ "makemkv_throttled"
]

unfoldable pub force_complete : ℕ → Database → Database × Response
unfolding update_job
force_complete i s =
    with_job i
      (λ j. if is_success j.status then (s, ok) else (
        write_job i (set_status success) (
            notify (cat ("Job: " ∷ show i ∷ " force-completed" ∷ []))
              (cat ("'" ∷ j.title ∷ "' marked complete (was: " ∷ value j.status ∷ ")" ∷ [])) s),
        ok,
      ))
      s

abbrev pub release : ℕ → Database → Database
release i s = record s { drives = release_drive i s.drives }

abbrev pub eject_found : Bool → ℕ → Option Job → Database → Database
eject_found auto_eject i none s = s
eject_found auto_eject i (some j) s =
    if j.ejected
    then s
    else if not (any (has_current i) s.drives)
    then s
    else if not auto_eject
    then release i s
    else write_job i (λ j. record j { ejected = true }) (release i s)

-- `job.eject()` of the stored job `i`. `drive.eject` releases the job whatever the command does.
unfoldable pub eject : Bool → ℕ → Database → Database
unfolding update_job release_drive
eject auto_eject i s = eject_found auto_eject i (find (has_job_id i) s.jobs) s

abbrev pub pid_text : Option ℕ → String
pid_text none = "None"
pid_text (some pid) = show pid

abbrev pub may_not_end : (ℕ → Bool) → Option ℕ → Bool
may_not_end denied none = false
may_not_end denied (some pid) = denied pid

unfoldable pub abandon_found : Bool → (ℕ → Bool) → ℕ → Option Job → Database → Database × Response
unfolding eject
abandon_found auto_eject denied i none s = (
  notify (cat ("Job: " ∷ show i ∷ " isn't a valid job!" ∷ []))
      (cat ("Job with id: " ∷ show i ∷ " doesnt match anything in the database" ∷ [])) s,
  refused 200,
)
abandon_found auto_eject denied i (some j) s =
    let pid = pid_text j.pid in
    if may_not_end denied j.pid
    then (
      notify (cat ("Job ERROR: " ∷ pid ∷ " couldn't be abandoned." ∷ []))
          (cat ("Access denied abandoning job: " ∷ pid ∷ "!" ∷ [])) s,
      refused 200,
    )
    else (
      notify (cat ("Job: " ∷ pid ∷ " was Abandoned!" ∷ []))
          (cat ("Job with id: " ∷ pid ∷ " was successfully abandoned. No files were deleted!" ∷ []))
          (eject auto_eject i (write_job i (set_status failure) s)),
      ok,
    )

-- `denied` holds of the pids whose process `terminate_process` may not end, where it raises; a
-- process that is gone, or no pid, raises nothing.
unfoldable pub abandon_job : Bool → (ℕ → Bool) → ℕ → Database → Database × Response
unfolding abandon_found
abandon_job auto_eject denied i s = abandon_found auto_eject denied i (find (has_job_id i) s.jobs) s

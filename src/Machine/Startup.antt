-- ===== src/Machine/Startup.antt =====
-- `clean_old_jobs` of arm/ripper/utils.py and arm/services/job_cleanup.py: what becomes of the jobs
-- that a restart left behind.
pub mod Settled
pub mod Freed
use automatic_ripping_machin.Common.{
  length, keep, map_if, ◌==◌, if◌then◌else◌, is_empty, cat, show, ℕ, ◌+◌, ◌-◌, ◌*◌, ◌/◌, ◌%◌, ◌^◌,
  ◌≤◌, ◌<◌, String, ◌≡◌, ◌∙◌, ◌≡⟨◌⟩◌, ◌∎, ◌≢◌, ◌↔◌, ◌⊎◌, Bool, false, not, ◌&&◌, ◌||◌, none, some,
  List, [], ◌∷◌, ◌++◌,
}
use automatic_ripping_machin.Machine.{
  JobState, failure, Job, Drive, Notification, Database, is_finished, is_transcoding, has_job_id,
  has_current, release_current_job,
}

abbrev restart_error : String
restart_error = "ARM restarted — process lost. Re-insert disc to retry."

-- Finished, or with the transcoder.
abbrev pub is_settled : JobState → Bool
is_settled status = is_finished status || is_transcoding status

-- `job.drive.release_current_job()`, if the job has a drive.
unfoldable pub release_drive : ℕ → List Drive → List Drive
unfolding release_current_job
release_drive i [] = []
release_drive i (d ∷ ds) =
    let rest = release_drive i ds in
    if has_current i d then release_current_job d ∷ ds else d ∷ rest

-- Marks the job `i` by `f` and releases its drive.
unfoldable pub fail_job : ℕ → (Job → Job) → Database → Database
unfolding release_drive
fail_job i f s = record s {
  jobs = map_if (has_job_id i) f s.jobs;
  drives = release_drive i s.drives;
}

abbrev pub mark_failed : Job → Job
mark_failed j = record j { status = failure }

abbrev pub mark_restarted : Job → Job
mark_restarted j = record j { status = failure; errors = some restart_error }

abbrev pub is_abandoned : (ℕ → Bool) → Job → Bool
is_abandoned pid_exists j = elim j.pid [ none ↦ false | some pid ↦ not (pid_exists pid) ]

-- A process that runs under the pid of the job, the job's own or another, leaves the job alone.
unfoldable pub abandon_all : (ℕ → Bool) → List Job → Database → Database
unfolding fail_job
abandon_all pid_exists [] s = s
abandon_all pid_exists (j ∷ more) s =
    abandon_all pid_exists more
      (if is_abandoned pid_exists j then fail_job j.job_id mark_failed s else s)

unfoldable pub clean_old_jobs : (ℕ → Bool) → Database → Database
unfolding abandon_all
clean_old_jobs pid_exists s =
    abandon_all pid_exists (keep (λ j. not (is_settled j.status)) s.jobs) s

unfoldable pub fail_orphans : List Job → Database → Database
unfolding fail_job
fail_orphans [] s = s
fail_orphans (j ∷ more) s = fail_orphans more (fail_job j.job_id mark_restarted s)

abbrev pub job_title : Job → String
job_title j = if is_empty j.title then cat ("Job " ∷ show j.job_id ∷ []) else j.title

abbrev pub join_titles : List Job → String
join_titles [] = ""
join_titles (j ∷ []) = job_title j
join_titles (j ∷ k ∷ more) = cat (job_title j ∷ ", " ∷ join_titles (k ∷ more) ∷ [])

abbrev pub summary : List Job → Notification
summary orphans = record {
  title = cat ("ARM Startup: " ∷ show (length orphans) ∷ " orphaned job(s) cleaned up" ∷ []);
  message = cat ("Failed jobs: " ∷ join_titles orphans ∷ []);
}

abbrev pub summarise : List Job → Database → Database
summarise [] s = s
summarise (j ∷ more) s = record s { notifications = s.notifications ++ summary (j ∷ more) ∷ [] }

abbrev pub orphans_of : Database → List Job
orphans_of s = keep (λ j. not (is_settled j.status)) s.jobs

-- The database after the start, and the number of jobs that the second phase failed.
unfoldable pub cleanup_orphaned_jobs : (ℕ → Bool) → Database → Database × ℕ
unfolding clean_old_jobs fail_orphans
cleanup_orphaned_jobs pid_exists s =
    let t = clean_old_jobs pid_exists s in
    (summarise (orphans_of t) (fail_orphans (orphans_of t) t), length (orphans_of t))

-- ===== src/Machine/Steps.antt =====
-- The steps of the jobs and the drives: `setup` of arm/ripper/main.py, the clean-up at a restart,
-- the rescan of the drives, `update_job_status`, the requests, `Job.eject` and the deletion of a job.
use automatic_ripping_machin.Common.{
  map_if, All-append, All-map_if, All-mono, Holds, Bool-cases, if_ind, ℕ, ◌≡◌, refl, sym, ◌∙◌,
  subst, inl, inr, Bool, true, false, false≢true, Option, none, some, List, [], ◌∷◌, ◌++◌,
}
use automatic_ripping_machin.Machine.{
  Job, Drive, DriveInformation, Database, has_current, has_drive_id, is_job, processing,
}
use automatic_ripping_machin.Machine.Drives.{
  mark_stale, new_drive, update, find_drive, find_or_create_drive, create, conflicts, blank_mount,
  update_detected, update_all, is_lost, clean_drive, cleanup_stale_drives, drives_update,
  refresh_drive, releasable, update_job_status, job_cleanup, clear_current, clear_previous,
}
use automatic_ripping_machin.Machine.Startup.{
  fail_job, fail_orphans, mark_restarted, orphans_of, clean_old_jobs, cleanup_orphaned_jobs,
}
use automatic_ripping_machin.Machine.Startup.Settled.{drives-summarise}
use automatic_ripping_machin.Machine.Startup.Freed.{
  Exclusive, Free, released_current, release-Exclusive,
}
use automatic_ripping_machin.Machine.Handlers.{eject}
use automatic_ripping_machin.Machine.Handlers.Moves.{Request, handle}
use automatic_ripping_machin.Machine.Handlers.Held.{handle-Exclusive, eject-Exclusive}
use automatic_ripping_machin.Machine.Setup.{begin_job}
use automatic_ripping_machin.Machine.Setup.Holders.{clean_old_jobs-Exclusive}
use automatic_ripping_machin.Machine.Setup.Started.{begin_job-Exclusive}

-- A new job's key is the current job of no drive.
pub data Step : Database → Database → Type 0 where
  starts :
      (pid_exists : ℕ → Bool) (now : ℕ) (j : Job) (s t : Database)
      → Free j.job_id s.drives
      → begin_job pid_exists now j s ≡ some t
      → Step s t
  restarts : (pid_exists : ℕ → Bool) (s : Database) → Step s (cleanup_orphaned_jobs pid_exists s).0
  rescans :
      (startup : Bool) (detected : List DriveInformation) (s : Database)
      → Step s (drives_update startup detected s)
  refreshes : (s : Database) → Step s (update_job_status s)
  requests : (r : Request) (s : Database) → Step s (handle r s).0
  ejects : (auto_eject : Bool) (i : ℕ) (s : Database) → Step s (eject auto_eject i s)
  deletes : (i : ℕ) (s : Database) → Step s (job_cleanup i s)

pub data Steps : Database → Database → Type 0 where
  stays : (s : Database) → Steps s s
  goes : (s t u : Database) → Step s t → Steps t u → Steps s u

-- A change of a drive that gives it no other job.
abbrev Loses : (Drive → Drive) → Type 0
Loses f = (k : ℕ) (d : Drive) → has_current k d ≡ false → has_current k (f d) ≡ false

Loses-true :
    (f : Drive → Drive) (k : ℕ) (d : Drive)
    → Loses f
    → has_current k (f d) ≡ true
    → has_current k d ≡ true
Loses-true f k d l h = elim (Bool-cases (has_current k d)) [
  | inl e ↦ e
  | inr e ↦ elim (false≢true (sym (l k d e) ∙ h)) [ ]
]

map_if-Exclusive :
    (p : Drive → Bool) (f : Drive → Drive) (ds : List Drive)
    → Loses f
    → Exclusive ds
    → Exclusive (map_if p f ds)
map_if-Exclusive p f [] l x = tt
map_if-Exclusive p f (d ∷ ds) l x =
    let P : Drive → Type 0 = λ e. (k : ℕ) → has_current k d ≡ true → has_current k e ≡ false in
    let later = All-map_if P p f ds (λ e _ g k c. l k e (g k c)) x.0 in
    let rest = map_if-Exclusive p f ds l x.1 in
    if_ind (λ e. Exclusive (e ∷ map_if p f ds)) (p d)
      (λ _. (All-mono _ _ _ (λ e g k c. g k (Loses-true f k d l c)) later, rest))
      (λ _. (later, rest))

append-Exclusive :
    (ds : List Drive) (d : Drive)
    → ((k : ℕ) → has_current k d ≡ false)
    → Exclusive ds
    → Exclusive (ds ++ d ∷ [])
append-Exclusive [] d f x = (tt, tt)
append-Exclusive (e ∷ ds) d f x =
    (All-append _ ds _ x.0 ((λ k _. f k), tt), append-Exclusive ds d f x.1)

fail_orphans-Exclusive :
    (js : List Job) (s : Database) → Exclusive s.drives → Exclusive (fail_orphans js s).drives
unfolding fail_orphans
fail_orphans-Exclusive [] s x = x
fail_orphans-Exclusive (j ∷ js) s x =
    fail_orphans-Exclusive js (fail_job j.job_id mark_restarted s)
      (release-Exclusive j.job_id s.drives x)

restart-Exclusive :
    (pid_exists : ℕ → Bool) (s : Database)
    → Exclusive s.drives
    → Exclusive (cleanup_orphaned_jobs pid_exists s).0.drives
unfolding cleanup_orphaned_jobs
restart-Exclusive pid_exists s x =
    let t = clean_old_jobs pid_exists s in
    subst Exclusive (sym (drives-summarise (orphans_of t) (fail_orphans (orphans_of t) t)))
      (fail_orphans-Exclusive (orphans_of t) t (clean_old_jobs-Exclusive pid_exists s x))

detected-Exclusive :
    (drive : DriveInformation) (s : Database)
    → Exclusive s.drives
    → Exclusive (update_detected drive s).drives
unfolding update_detected find_or_create_drive
detected-Exclusive drive s x = row (find_drive drive s.drives)
  where
    updated_drives :
        (i : ℕ) (jobs : List Job) (ds : List Drive)
        → Exclusive ds
        → Exclusive (
            map_if (conflicts jobs i drive) blank_mount (map_if (has_drive_id i) (update drive) ds))
    updated_drives i jobs ds y =
        map_if-Exclusive (conflicts jobs i drive) blank_mount
          (map_if (has_drive_id i) (update drive) ds) (λ k e h. h)
          (map_if-Exclusive (has_drive_id i) (update drive) ds (λ k e h. h) y)

    row :
        (o : Option Drive)
        → let (t, j) = create o drive s in
          Exclusive (
            map_if
              (conflicts t.jobs j drive)
              blank_mount
              (map_if (has_drive_id j) (update drive) t.drives))
    row (some d) = updated_drives d.drive_id s.jobs s.drives x
    row none =
        updated_drives s.next_drive_id s.jobs (s.drives ++ new_drive s.next_drive_id drive ∷ [])
          (append-Exclusive s.drives (new_drive s.next_drive_id drive) (λ k. refl) x)

update_all-Exclusive :
    (detected : List DriveInformation) (s : Database)
    → Exclusive s.drives
    → Exclusive (update_all detected s).drives
unfolding update_all
update_all-Exclusive [] s x = x
update_all-Exclusive (drive ∷ more) s x =
    update_all-Exclusive more (update_detected drive s) (detected-Exclusive drive s x)

clean-Loses : (jobs : List Job) → Loses (clean_drive jobs)
clean-Loses jobs k d h = if_ind (λ e. has_current k e ≡ false) (processing jobs d) (λ _. h) (λ _. h)

refresh-Loses : (jobs : List Job) → Loses (refresh_drive jobs)
refresh-Loses jobs k d h =
    if_ind (λ e. has_current k e ≡ false) (releasable jobs d) (λ _. released_current k d) (λ _. h)

step-Exclusive : (s t : Database) → Step s t → Exclusive s.drives → Exclusive t.drives
unfolding drives_update cleanup_stale_drives update_job_status job_cleanup
step-Exclusive _ _ (starts pid_exists now j s t f e) x =
    subst (Holds (λ u. Exclusive u.drives)) e (begin_job-Exclusive pid_exists now j s x f)
step-Exclusive _ _ (restarts pid_exists s) x = restart-Exclusive pid_exists s x
step-Exclusive _ _ (rescans startup detected s) x =
    let marked = record s { drives = map_if (λ _. true) (mark_stale s.jobs startup) s.drives } in
    let u = update_all detected marked in
    map_if-Exclusive (is_lost u.jobs) (clean_drive u.jobs) u.drives (clean-Loses u.jobs) (
      update_all-Exclusive detected marked
        (map_if-Exclusive (λ _. true) (mark_stale s.jobs startup) s.drives (λ k d h. h) x))
step-Exclusive _ _ (refreshes s) x =
    map_if-Exclusive (λ _. true) (refresh_drive s.jobs) s.drives (refresh-Loses s.jobs) x
step-Exclusive _ _ (requests r s) x = handle-Exclusive r s x
step-Exclusive _ _ (ejects auto_eject i s) x = eject-Exclusive auto_eject i s x
step-Exclusive _ _ (deletes i s) x =
    map_if-Exclusive (λ d. is_job i d.job_id_previous) clear_previous
      (map_if (has_current i) clear_current s.drives) (λ k d h. h)
      (map_if-Exclusive (has_current i) clear_current s.drives (λ k d h. refl) x)

-- However often, and in whatever order, jobs start, the service restarts, the drives are scanned
-- and refreshed, requests are made, discs are ejected and jobs are deleted: if no two drives have
-- one job at first, and each new job's key is no drive's, then never do two drives have one job.
pub Steps-Exclusive : (s t : Database) → Steps s t → Exclusive s.drives → Exclusive t.drives
Steps-Exclusive _ _ (stays s) x = x
Steps-Exclusive _ _ (goes s m t p ps) x = Steps-Exclusive m t ps (step-Exclusive s m p x)

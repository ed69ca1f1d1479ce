-- ===== src/Machine/Setup/Holders.antt =====
-- Which drives hold a job, behind `update_drive_job` and behind `clean_old_jobs`.
use automatic_ripping_machin.Common.{
  keep, find, any, All, All-mono, Holds, ◌==◌, ==_refl, Bool-cases, is_some, if_ind, ℕ, String, ◌≡◌,
  refl, sym, ◌∙◌, inl, inr, Bool, true, false, not, ◌||◌, or-true, false≢true, Option, none, some,
  List, [], ◌∷◌, arith,
}
use automatic_ripping_machin.Machine.{
  Job, Drive, Database, has_job_id, has_current, is_job, processing, new_job,
}
use automatic_ripping_machin.Machine.Drives.{at_mount, give_job}
use automatic_ripping_machin.Machine.Startup.{
  release_drive, is_abandoned, abandon_all, clean_old_jobs, is_settled,
}
use automatic_ripping_machin.Machine.Startup.Freed.{Exclusive, Free, release-Exclusive}

-- A drive has the job.
abbrev pub holds_job : ℕ → List Drive → Bool
holds_job i ds = any (has_current i) ds

new_job-current : (i : ℕ) (d : Drive) → has_current i (new_job i d) ≡ true
unfolding new_job
new_job-current i d = ==_refl i

new_job-only : (i k : ℕ) (d : Drive) → has_current k (new_job i d) ≡ true → i ≡ k
unfolding new_job
new_job-only i k d h = ground arith

-- A drive has one job.
same_job :
    (i k : ℕ) (d : Drive) → (i == k) ≡ false → has_current i d ≡ true → has_current k d ≡ false
same_job i k d e h = ground arith

other_holds :
    (d : Drive) (ds : List Drive) (k : ℕ)
    → has_current k d ≡ false
    → holds_job k (d ∷ ds) ≡ true
    → holds_job k ds ≡ true
other_holds d ds k e h = ground arith

or_later : {x y : Bool} (b : Bool) → b || x ≡ true → (x ≡ true → y ≡ true) → b || y ≡ true
or_later true h f = refl
or_later false h f = f h

pub give_job-taken :
    (i : ℕ) (devpath : String) (ds : List Drive)
    → is_some (find (at_mount devpath) ds) ≡ true
    → holds_job i (give_job i devpath ds) ≡ true
unfolding give_job
give_job-taken i devpath [] h = h
give_job-taken i devpath (d ∷ ds) h =
    if_ind (λ es. holds_job i es ≡ true) (at_mount devpath d) (λ e. rw (new_job-current i d) refl)
      (λ e. ground (arith, give_job-taken i devpath ds))

-- The drive of the mount has not the job `k`.
pub give_job-kept :
    (i k : ℕ) (devpath : String) (ds : List Drive)
    → Holds (λ d. has_current k d ≡ false) (find (at_mount devpath) ds)
    → holds_job k ds ≡ true
    → holds_job k (give_job i devpath ds) ≡ true
unfolding give_job
give_job-kept i k devpath [] f h = h
give_job-kept i k devpath (d ∷ ds) f h =
    if_ind (λ es. holds_job k es ≡ true) (at_mount devpath d)
      (λ e. rw (other_holds d ds k (rw e at f) h) (or-true _))
      (λ e. or_later (has_current k d) h (give_job-kept i k devpath ds (rw e at f)))

release-kept :
    (i k : ℕ) (ds : List Drive)
    → (i == k) ≡ false
    → holds_job k ds ≡ true
    → holds_job k (release_drive i ds) ≡ true
unfolding release_drive
release-kept i k [] e h = h
release-kept i k (d ∷ ds) e h =
    if_ind (λ es. holds_job k es ≡ true) (has_current i d)
      (λ c. rw (other_holds d ds k (same_job i k d e c) h) (or-true _))
      (λ _. or_later (has_current k d) h (release-kept i k ds e))

-- No process of a row of the job is gone.
abbrev pub IsAlive : (ℕ → Bool) → ℕ → List Job → Type 0
IsAlive pid_exists k js = All (λ j. has_job_id k j ≡ true → is_abandoned pid_exists j ≡ false) js

pub abandon_all-kept :
    (pid_exists : ℕ → Bool) (k : ℕ) (js : List Job) (s : Database)
    → IsAlive pid_exists k js
    → holds_job k s.drives ≡ true
    → holds_job k (abandon_all pid_exists js s).drives ≡ true
unfolding abandon_all
abandon_all-kept pid_exists k [] s a h = h
abandon_all-kept pid_exists k (j ∷ js) s a h = abandon_all-kept pid_exists k js _ a.1 (
    if_ind (λ (t : Database). holds_job k t.drives ≡ true) (is_abandoned pid_exists j)
      (λ gone. release-kept j.job_id k s.drives (ground (arith, a.0, gone)) h) (λ _. h))

-- What holds of every drive, and of those that get the job, holds behind the update.
give_job-All :
    (i : ℕ) (devpath : String) (ds : List Drive) (P : Drive → Type 0)
    → ((d : Drive) → P (new_job i d))
    → All P ds
    → All P (give_job i devpath ds)
unfolding give_job
give_job-All i devpath [] P f h = tt
give_job-All i devpath (d ∷ ds) P f h =
    if_ind (All P) (at_mount devpath d) (λ _. (f d, h.1))
      (λ _. (h.0, give_job-All i devpath ds P f h.1))

pub give_job-Exclusive :
    (i : ℕ) (devpath : String) (ds : List Drive)
    → Free i ds
    → Exclusive ds
    → Exclusive (give_job i devpath ds)
unfolding give_job
give_job-Exclusive i devpath [] f x = tt
give_job-Exclusive i devpath (d ∷ ds) f x =
    if_ind Exclusive (at_mount devpath d)
      (λ _. (All-mono _ _ ds (λ e g k c. rw (new_job-only i k d c) at g) f.1, x.1))
      (λ _. (
        give_job-All i devpath ds _ (λ e k c. ground (arith, f.0, c)) x.0,
        give_job-Exclusive i devpath ds f.1 x.1,
      ))

in_table : (p : Job → Bool) (js : List Job) → any p js ≡ is_some (find p js)
in_table p [] = refl
in_table p (j ∷ js) = ground (arith, in_table p js)

abandon_all-Exclusive :
    (pid_exists : ℕ → Bool) (js : List Job) (s : Database)
    → Exclusive s.drives
    → Exclusive (abandon_all pid_exists js s).drives
unfolding abandon_all
abandon_all-Exclusive pid_exists [] s x = x
abandon_all-Exclusive pid_exists (j ∷ js) s x = abandon_all-Exclusive pid_exists js _ (
    if_ind (λ (t : Database). Exclusive t.drives) (is_abandoned pid_exists j)
      (λ _. release-Exclusive j.job_id s.drives x) (λ _. x))

idle_job :
    (jobs : List Job) (m : Option ℕ) (k : ℕ)
    → any (has_job_id k) jobs ≡ true
    → elim m [ none ↦ false | some i ↦ is_some (find (has_job_id i) jobs) ] ≡ false
    → is_job k m ≡ false
idle_job jobs none k h p = refl
idle_job jobs (some i) k h p = elim (Bool-cases (i == k)) [
  | inl e ↦
      let same : i ≡ k = ground (arith, e) in
      elim (false≢true (sym (rw same at p) ∙ sym (in_table (has_job_id k) jobs) ∙ h)) [ ]
  | inr e ↦ e
]

pub clean_old_jobs-Exclusive :
    (pid_exists : ℕ → Bool) (s : Database)
    → Exclusive s.drives
    → Exclusive (clean_old_jobs pid_exists s).drives
unfolding clean_old_jobs
clean_old_jobs-Exclusive pid_exists s x =
    abandon_all-Exclusive pid_exists (keep (λ j. not (is_settled j.status)) s.jobs) s x

-- A drive without a job in the table has no job that is in it.
pub processing-current :
    (jobs : List Job) (d : Drive) (k : ℕ)
    → any (has_job_id k) jobs ≡ true
    → processing jobs d ≡ false
    → has_current k d ≡ false
processing-current jobs d k h p = idle_job jobs d.job_id_current k h p

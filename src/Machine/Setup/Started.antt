-- ===== src/Machine/Setup/Started.antt =====
-- The drives behind the start of a job.
use automatic_ripping_machin.Common.{
  find, any, All-append, All-keep, Holds, ltb, is_some, if_ind, ℕ, ◌+◌, ◌<◌, ◌≡◌, refl, sym, ◌∙◌,
  ◌⊎◌, inl, inr, Bool, true, false, false≢true, Option, none, some, List, arith,
}
use automatic_ripping_machin.Machine.{Job, Drive, Database, has_job_id, processing}
use automatic_ripping_machin.Machine.Drives.{at_mount, update_drive_job}
use automatic_ripping_machin.Machine.Startup.{is_abandoned, clean_old_jobs}
use automatic_ripping_machin.Machine.Startup.Freed.{Exclusive, Free}
use automatic_ripping_machin.Machine.Setup.{
  Verdict, passed, grace, running, no_drive, previous_stop, after_eject, check_drive,
  duplicate_run_check, add_job, begin, begin_job,
}
use automatic_ripping_machin.Machine.Setup.Holders.{
  holds_job, give_job-taken, give_job-kept, IsAlive, abandon_all-kept, give_job-Exclusive,
  clean_old_jobs-Exclusive, processing-current,
}

check_drive-passed :
    (now : ℕ) (jobs : List Job) (m : Option Drive)
    → check_drive now jobs m ≡ passed
    → (is_some m ≡ true) × Holds (λ d. processing jobs d ≡ false) m
check_drive-passed now jobs none h = cc
check_drive-passed now jobs (some d) h =
    if_ind (λ v. v ≡ passed → (is_some (some d) ≡ true) × (processing jobs d ≡ false))
      (processing jobs d) (λ _ c. cc) (λ e _. (refl, e)) h

-- The drive has a job of the table, or its previous job stopped less than 30 seconds ago.
abbrev pub IsBusy : ℕ → List Job → Drive → Type 0
IsBusy now jobs d =
    (processing jobs d ≡ true)
    ⊎ ((stop : ℕ) × (previous_stop jobs d ≡ some stop) × (now < stop + 30))

after_eject-refused :
    (now : ℕ) (m : Option ℕ)
    → (after_eject now m ≡ passed → ⊥)
    → (stop : ℕ) × (m ≡ some stop) × (now < stop + 30)
after_eject-refused now none h = elim (h refl) [ ]
after_eject-refused now (some stop) h =
    if_ind (λ v. (v ≡ passed → ⊥) → (t : ℕ) × (some stop ≡ some t) × (now < t + 30))
      (ltb now (stop + 30)) (λ e _. (stop, refl, ground (arith, e))) (λ _ k. elim (k refl) [ ]) h

check_drive-refused :
    (now : ℕ) (jobs : List Job) (m : Option Drive)
    → (check_drive now jobs m ≡ passed → ⊥)
    → Holds (IsBusy now jobs) m
check_drive-refused now jobs none h = tt
check_drive-refused now jobs (some d) h =
    if_ind (λ v. (v ≡ passed → ⊥) → IsBusy now jobs d) (processing jobs d) (λ e _. inl e)
      (λ _ k. inr (after_eject-refused now (previous_stop jobs d) k)) h

Holds-mono {ℓ κ μ} :
    {A : Type ℓ} (P : A → Type κ) (Q : A → Type μ) (m : Option A)
    → ((x : A) → P x → Q x)
    → Holds P m
    → Holds Q m
Holds-mono P Q none f h = tt
Holds-mono P Q (some x) f h = f x h

-- Behind the start the job has a drive, and no two drives have one job.
pub record IsStarted (i : ℕ) (t : Database) : Type 0 where
  pub taken : holds_job i t.drives ≡ true
  pub exclusive : Exclusive t.drives

module _ (pid_exists : ℕ → Bool) (now : ℕ) (j : Job) (s : Database) where
  add_job-IsAlive :
      (k : ℕ)
      → IsAlive pid_exists k s.jobs
      → (has_job_id k j ≡ true → is_abandoned pid_exists j ≡ false)
      → IsAlive pid_exists k (add_job now j s).jobs
  unfolding update_drive_job
  add_job-IsAlive k a b = All-append _ s.jobs _ a (b, tt)

  -- The outcome of the start: where it is refused and the drive is in the table, it is busy.
  abbrev pub StartEnds : Option Database → Type 0
  StartEnds none = Holds (IsBusy now s.jobs) (find (at_mount j.devpath) s.drives)
  StartEnds (some t) = IsStarted j.job_id t

  begin-StartEnds :
      (v : Verdict)
      → (v ≡ passed → StartEnds (some (clean_old_jobs pid_exists (add_job now j s))))
      → ((v ≡ passed → ⊥) → StartEnds none)
      → StartEnds (begin pid_exists now j s v)
  begin-StartEnds passed f g = f refl
  begin-StartEnds grace f g = g (λ e. cc)
  begin-StartEnds running f g = g (λ e. cc)
  begin-StartEnds no_drive f g = g (λ e. cc)

  -- Where no two drives have one job, no drive has the new job's key, and the process of the new
  -- job lives: if the drive is in the table, has no job of the table, and its previous job, if it
  -- is in the table and stopped, did so 30 seconds ago or more, the job starts; and if it starts,
  -- it has a drive behind it, and still no two drives have one job.
  pub begin_job-StartEnds :
      Exclusive s.drives
      → Free j.job_id s.drives
      → IsAlive pid_exists j.job_id s.jobs
      → is_abandoned pid_exists j ≡ false
      → StartEnds (begin_job pid_exists now j s)
  unfolding begin_job clean_old_jobs duplicate_run_check update_drive_job
  begin_job-StartEnds x f a b =
      begin-StartEnds _
        (λ e. record {
          taken =
              abandon_all-kept pid_exists j.job_id _ _
                (All-keep _ _ _ (add_job-IsAlive j.job_id a (λ _. b)))
                (give_job-taken j.job_id j.devpath s.drives (check_drive-passed now s.jobs _ e).0);
          exclusive =
              clean_old_jobs-Exclusive pid_exists (add_job now j s)
                (give_job-Exclusive j.job_id j.devpath s.drives f x);
        })
        (check_drive-refused now s.jobs _)

  begin-Holds :
      (P : Database → Type 0) (v : Verdict)
      → (v ≡ passed → P (clean_old_jobs pid_exists (add_job now j s)))
      → Holds P (begin pid_exists now j s v)
  begin-Holds P passed f = f refl
  begin-Holds P grace f = tt
  begin-Holds P running f = tt
  begin-Holds P no_drive f = tt

  pub begin_job-Exclusive :
      Exclusive s.drives
      → Free j.job_id s.drives
      → Holds (λ t. Exclusive t.drives) (begin_job pid_exists now j s)
  unfolding begin_job clean_old_jobs duplicate_run_check update_drive_job
  begin_job-Exclusive x f =
      begin-Holds (λ t. Exclusive t.drives) _
        (λ _.
          clean_old_jobs-Exclusive pid_exists (add_job now j s)
            (give_job-Exclusive j.job_id j.devpath s.drives f x))

  -- Where another job is in the table, its process lives and a drive has it: a drive still has it
  -- when the new job has started. So no start takes the drive of a job that is running.
  pub begin_job-kept :
      (k : ℕ)
      → any (has_job_id k) s.jobs ≡ true
      → IsAlive pid_exists k s.jobs
      → has_job_id k j ≡ false
      → holds_job k s.drives ≡ true
      → Holds (λ t. holds_job k t.drives ≡ true) (begin_job pid_exists now j s)
  unfolding begin_job clean_old_jobs duplicate_run_check update_drive_job
  begin_job-kept k known live other h = begin-Holds _ _ (λ e.
      abandon_all-kept pid_exists k _ _
        (All-keep _ _ _ (add_job-IsAlive k live (λ c. elim (false≢true (sym other ∙ c)) [ ])))
        (give_job-kept j.job_id k j.devpath s.drives
          (Holds-mono _ _ _ (λ d. processing-current s.jobs d k known)
            (check_drive-passed now s.jobs _ e).1)
          h))

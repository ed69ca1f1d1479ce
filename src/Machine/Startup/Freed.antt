-- ===== src/Machine/Startup/Freed.antt =====
-- The drives after `cleanup_orphaned_jobs`.
use automatic_ripping_machin.Common.{
  keep, any, map_if, All, All-mono, All-every, ◌==◌, if◌then◌else◌, ==_iff, Bool-cases, if_ind, ℕ,
  ◌≡◌, sym, ◌∙◌, subst, ◌⊎◌, inl, inr, Bool, true, false, not, false≢true, List, [], ◌∷◌, arith,
}
use automatic_ripping_machin.Machine.{
  Job, Drive, Database, has_job_id, has_current, release_current_job,
}
use automatic_ripping_machin.Machine.Startup.{
  is_settled, release_drive, fail_job, mark_failed, mark_restarted, is_abandoned, abandon_all,
  clean_old_jobs, fail_orphans, orphans_of, cleanup_orphaned_jobs,
}
use automatic_ripping_machin.Machine.Startup.Settled.{drives-summarise}

-- No two drives have one current job.
abbrev pub Exclusive : List Drive → Type 0
Exclusive [] = Unit
Exclusive (d ∷ ds) =
    All (λ e. (i : ℕ) → has_current i d ≡ true → has_current i e ≡ false) ds × Exclusive ds

-- No drive has the current job `i`.
abbrev pub Free : ℕ → List Drive → Type 0
Free i ds = All (λ d. has_current i d ≡ false) ds

pub released_current : (i : ℕ) (d : Drive) → has_current i (release_current_job d) ≡ false
unfolding release_current_job
released_current i d = ground arith

release-Free : (i : ℕ) (ds : List Drive) → Exclusive ds → Free i (release_drive i ds)
unfolding release_drive
release-Free i [] x = tt
release-Free i (d ∷ ds) x =
    if_ind (Free i) (has_current i d)
      (λ h. (released_current i d, All-mono _ _ ds (λ e k. k i h) x.0))
      (λ h. (h, release-Free i ds x.1))

-- What holds of every drive that has no current job, and of every drive of a list, holds of them
-- all once a job is released.
All-release :
    (P : Drive → Type 0) (i : ℕ) (ds : List Drive)
    → ((d : Drive) → P (release_current_job d))
    → All P ds
    → All P (release_drive i ds)
unfolding release_drive
All-release P i [] f h = tt
All-release P i (d ∷ ds) f h =
    if_ind (All P) (has_current i d) (λ _. (f d, h.1)) (λ _. (h.0, All-release P i ds f h.1))

pub release-Exclusive : (i : ℕ) (ds : List Drive) → Exclusive ds → Exclusive (release_drive i ds)
unfolding release_drive
release-Exclusive i [] x = tt
release-Exclusive i (d ∷ ds) x =
    if_ind Exclusive (has_current i d)
      (λ h. (All-every _ ds (λ e k c. elim (false≢true (sym (released_current k d) ∙ c)) [ ]), x.1))
      (λ h. (All-release _ i ds (λ e k _. released_current k e) x.0, release-Exclusive i ds x.1))

-- The job `i` is in the table and unsettled, or no drive has it.
abbrev Tracked : ℕ → Database → Type 0
Tracked i s =
    ((any (has_job_id i) s.jobs ≡ true)
      × All (λ j. has_job_id i j ≡ true → is_settled j.status ≡ false) s.jobs)
    ⊎ Free i s.drives

module _ (i : ℕ) where
  -- Failing another job keeps the rows of the job `i`.
  other_rows :
      (k : ℕ) (js : List Job)
      → (k == i) ≡ false
      → (any (has_job_id i) js ≡ true)
        × All (λ j. has_job_id i j ≡ true → is_settled j.status ≡ false) js
      → (any (has_job_id i) (map_if (has_job_id k) mark_failed js) ≡ true)
        × All
            (λ j. has_job_id i j ≡ true → is_settled j.status ≡ false)
            (map_if (has_job_id k) mark_failed js)
  other_rows k js ne (found, open_rows) = (there js found, rows js open_rows)
    where
      there :
          (js : List Job)
          → any (has_job_id i) js ≡ true
          → any (has_job_id i) (map_if (has_job_id k) mark_failed js) ≡ true
      there [] h = h
      there (j ∷ js) h = ground (arith, there js)

      rows :
          (js : List Job)
          → All (λ j. has_job_id i j ≡ true → is_settled j.status ≡ false) js
          → All
              (λ j. has_job_id i j ≡ true → is_settled j.status ≡ false)
              (map_if (has_job_id k) mark_failed js)
      rows [] h = tt
      rows (j ∷ js) h = (
        if_ind (λ (x : Job). has_job_id i x ≡ true → is_settled x.status ≡ false) (has_job_id k j)
            (λ a b. elim (false≢true (ground arith)) [ ]) (λ _. h.0),
        rows js h.1,
      )

  abandon-Tracked :
      (k : ℕ) (s : Database)
      → Exclusive s.drives
      → Tracked i s
      → Tracked i (fail_job k mark_failed s)
  unfolding fail_job
  abandon-Tracked k s x (inr free) = inr (All-release _ k s.drives (released_current i) free)
  abandon-Tracked k s x (inl rows) = elim (Bool-cases (k == i)) [
    | inl e ↦ inr (
        subst (λ n. Free i (release_drive n s.drives)) (sym ((==_iff k i).0 e))
          (release-Free i s.drives x))
    | inr e ↦ inl (other_rows k s.jobs e rows)
  ]

  fail-Exclusive :
      (k : ℕ) (f : Job → Job) (s : Database)
      → Exclusive s.drives
      → Exclusive (fail_job k f s).drives
  unfolding fail_job
  fail-Exclusive k f s x = release-Exclusive k s.drives x

  abandon_all-Tracked :
      (pid_exists : ℕ → Bool) (js : List Job) (s : Database)
      → Exclusive s.drives
      → Tracked i s
      → Exclusive (abandon_all pid_exists js s).drives × Tracked i (abandon_all pid_exists js s)
  unfolding abandon_all
  abandon_all-Tracked pid_exists [] s x h = (x, h)
  abandon_all-Tracked pid_exists (j ∷ js) s x h =
      let t = if is_abandoned pid_exists j then fail_job j.job_id mark_failed s else s in
      abandon_all-Tracked pid_exists js t
        (if_ind (λ (u : Database). Exclusive u.drives) (is_abandoned pid_exists j)
          (λ _. fail-Exclusive j.job_id mark_failed s x) (λ _. x))
        (if_ind (Tracked i) (is_abandoned pid_exists j) (λ _. abandon-Tracked j.job_id s x h)
          (λ _. h))

  orphans-Free :
      (js : List Job) (s : Database)
      → Exclusive s.drives
      → (any (has_job_id i) js ≡ true) ⊎ Free i s.drives
      → Free i (fail_orphans js s).drives
  unfolding fail_orphans fail_job
  orphans-Free [] s x (inl h) = elim (false≢true h) [ ]
  orphans-Free [] s x (inr h) = h
  orphans-Free (j ∷ js) s x (inr h) =
      orphans-Free js (fail_job j.job_id mark_restarted s) (release-Exclusive j.job_id s.drives x)
        (inr (All-release _ j.job_id s.drives (released_current i) h))
  orphans-Free (j ∷ js) s x (inl h) =
      orphans-Free js (fail_job j.job_id mark_restarted s) (release-Exclusive j.job_id s.drives x)
        (elim (Bool-cases (has_job_id i j)) [
          | inl e ↦ inr (
              subst (λ n. Free i (release_drive n s.drives)) (sym ((==_iff j.job_id i).0 e))
                (release-Free i s.drives x))
          | inr e ↦ inl (ground arith)
        ])

  is_orphan :
      (js : List Job)
      → any (has_job_id i) js ≡ true
      → All (λ j. has_job_id i j ≡ true → is_settled j.status ≡ false) js
      → any (has_job_id i) (keep (λ j. not (is_settled j.status)) js) ≡ true
  is_orphan [] h k = h
  is_orphan (j ∷ js) h k = ground (arith, is_orphan js)

  -- Where no two drives have one current job: a job that was neither finished nor with the
  -- transcoder before the clean-up is the current job of no drive after it, so that its drive can
  -- take the next disc.
  pub cleanup_orphaned_jobs_frees :
      (pid_exists : ℕ → Bool) (s : Database)
      → Exclusive s.drives
      → any (has_job_id i) s.jobs ≡ true
      → All (λ j. has_job_id i j ≡ true → is_settled j.status ≡ false) s.jobs
      → Free i (cleanup_orphaned_jobs pid_exists s).0.drives
  unfolding cleanup_orphaned_jobs clean_old_jobs
  cleanup_orphaned_jobs_frees pid_exists s x there unsettled =
      let t = abandon_all pid_exists (orphans_of s) s in
      let (y, h) = abandon_all-Tracked pid_exists (orphans_of s) s x (inl (there, unsettled)) in
      rw (drives-summarise (orphans_of t) (fail_orphans (orphans_of t) t)) (
        orphans-Free (orphans_of t) t y
          (elim h [ inl rows ↦ inl (is_orphan t.jobs rows.0 rows.1) | inr free ↦ inr free ]))

-- ===== src/Machine/Startup/Settled.antt =====
-- What holds after `cleanup_orphaned_jobs`.
use automatic_ripping_machin.Common.{
  length, keep, any, map_if, All, All-mono, All-of_keep, if◌then◌else◌, ==_refl, Bool-cases, if_ind,
  ℕ, ◌≡◌, refl, sym, ap, ◌∙◌, subst, ◌⊎◌, inl, inr, Bool, true, false, not, or-true, false≢true,
  List, [], ◌∷◌, arith,
}
use automatic_ripping_machin.Machine.{Job, Database, has_job_id}
use automatic_ripping_machin.Machine.Startup.{
  is_settled, fail_job, mark_failed, mark_restarted, is_abandoned, abandon_all, clean_old_jobs,
  fail_orphans, summarise, orphans_of, cleanup_orphaned_jobs,
}

abbrev listed : List Job → Job → Bool
listed js j = any (has_job_id j.job_id) js

-- Every job is settled, or is still to be failed.
abbrev Settling : List Job → Database → Type 0
Settling js s = All (λ j. (is_settled j.status ≡ true) ⊎ (listed js j ≡ true)) s.jobs

fail-Settling :
    (f : Job → Job) (j : Job) (js : List Job) (s : Database)
    → ((k : Job) → is_settled (f k).status ≡ true)
    → Settling (j ∷ js) s
    → Settling js (fail_job j.job_id f s)
unfolding fail_job
fail-Settling f j js s done h = over s.jobs h
  where
    one :
        (k : Job)
        → has_job_id j.job_id k ≡ false
        → (is_settled k.status ≡ true) ⊎ (listed (j ∷ js) k ≡ true)
        → (is_settled k.status ≡ true) ⊎ (listed js k ≡ true)
    one k e (inl h) = inl h
    one k e (inr h) = inr (ground arith)

    over :
        (ks : List Job)
        → All (λ k. (is_settled k.status ≡ true) ⊎ (listed (j ∷ js) k ≡ true)) ks
        → All
            (λ k. (is_settled k.status ≡ true) ⊎ (listed js k ≡ true))
            (map_if (has_job_id j.job_id) f ks)
    over [] h = tt
    over (k ∷ ks) h = (
      if_ind (λ (x : Job). (is_settled x.status ≡ true) ⊎ (listed js x ≡ true))
          (has_job_id j.job_id k) (λ _. inl (done k)) (λ e. one k e h.0),
      over ks h.1,
    )

orphans-Settling : (js : List Job) (s : Database) → Settling js s → Settling [] (fail_orphans js s)
unfolding fail_orphans
orphans-Settling [] s h = h
orphans-Settling (j ∷ js) s h =
    orphans-Settling js (fail_job j.job_id mark_restarted s)
      (fail-Settling mark_restarted j js s (λ k. refl) h)

listed_self : (js : List Job) → All (λ j. listed js j ≡ true) js
listed_self [] = tt
listed_self (j ∷ js) = (rw ==_refl refl, All-mono _ _ js (λ k h. rw h (or-true _)) (listed_self js))

start-Settling : (s : Database) → Settling (orphans_of s) s
start-Settling s =
    All-mono _ _ s.jobs (λ j h. one j (Bool-cases (is_settled j.status)) h)
      (All-of_keep _ (λ j. not (is_settled j.status)) s.jobs (listed_self (orphans_of s)))
  where
    one :
        (j : Job)
        → (is_settled j.status ≡ true) ⊎ (is_settled j.status ≡ false)
        → (not (is_settled j.status) ≡ true → listed (orphans_of s) j ≡ true)
        → (is_settled j.status ≡ true) ⊎ (listed (orphans_of s) j ≡ true)
    one j (inl e) h = inl e
    one j (inr e) h = inr (h (rw e refl))

jobs-summarise : (js : List Job) (s : Database) → (summarise js s).jobs ≡ s.jobs
jobs-summarise [] s = refl
jobs-summarise (j ∷ js) s = refl

pub drives-summarise : (js : List Job) (s : Database) → (summarise js s).drives ≡ s.drives
drives-summarise [] s = refl
drives-summarise (j ∷ js) s = refl

only_settled :
    (js : List Job)
    → All (λ j. (is_settled j.status ≡ true) ⊎ (false ≡ true)) js
    → All (λ j. is_settled j.status ≡ true) js
only_settled js h =
    All-mono _ _ js (λ j k. elim k [ inl e ↦ e | inr e ↦ elim (false≢true e) [ ] ]) h

keep_none :
    (js : List Job)
    → All (λ j. is_settled j.status ≡ true) js
    → keep (λ j. not (is_settled j.status)) js ≡ []
keep_none [] h = refl
keep_none (j ∷ js) h = rw h.0 (keep_none js h.1)

again :
    (pid_exists : ℕ → Bool) (s : Database)
    → All (λ j. is_settled j.status ≡ true) s.jobs
    → cleanup_orphaned_jobs pid_exists s ≡ (s, 0)
unfolding cleanup_orphaned_jobs clean_old_jobs abandon_all fail_orphans
again pid_exists s h = rw (keep_none s.jobs h) (rw (keep_none s.jobs h) refl)

settles :
    (pid_exists : ℕ → Bool) (s : Database)
    → All (λ j. is_settled j.status ≡ true) (cleanup_orphaned_jobs pid_exists s).0.jobs
unfolding cleanup_orphaned_jobs
settles pid_exists s =
    let t = clean_old_jobs pid_exists s in
    rw (jobs-summarise (orphans_of t) (fail_orphans (orphans_of t) t))
      (only_settled _ (orphans-Settling (orphans_of t) t (start-Settling t)))

-- After the clean-up every job is finished or with the transcoder, whatever processes run, and a
-- second clean-up changes nothing and counts nothing.
pub cleanup_orphaned_jobs_settles :
    (pid_exists still_exists : ℕ → Bool) (s : Database)
    → let t = (cleanup_orphaned_jobs pid_exists s).0 in
      All (λ j. is_settled j.status ≡ true) t.jobs × (cleanup_orphaned_jobs still_exists t ≡ (t, 0))
cleanup_orphaned_jobs_settles pid_exists still_exists s =
    (settles pid_exists s, again still_exists _ (settles pid_exists s))

abandoned-Settling :
    (pid_exists : ℕ → Bool) (js : List Job) (s : Database)
    → All (λ j. is_abandoned pid_exists j ≡ true) js
    → Settling js s
    → Settling [] (abandon_all pid_exists js s)
unfolding abandon_all
abandoned-Settling pid_exists [] s dead h = h
abandoned-Settling pid_exists (j ∷ js) s dead h =
    subst
      (λ b.
        Settling [] (abandon_all pid_exists js (if b then fail_job j.job_id mark_failed s else s)))
      (sym dead.0)
      (abandoned-Settling pid_exists js (fail_job j.job_id mark_failed s) dead.1
        (fail-Settling mark_failed j js s (λ k. refl) h))

nothing_left :
    (t : Database)
    → orphans_of t ≡ []
    → let u = summarise (orphans_of t) (fail_orphans (orphans_of t) t) in
      (u ≡ t) × (length (orphans_of t) ≡ 0)
unfolding fail_orphans
nothing_left t e = rw e (refl, refl)

notifications-abandon_all :
    (pid_exists : ℕ → Bool) (js : List Job) (s : Database)
    → (abandon_all pid_exists js s).notifications ≡ s.notifications
unfolding abandon_all fail_job
notifications-abandon_all pid_exists [] s = refl
notifications-abandon_all pid_exists (j ∷ js) s =
    notifications-abandon_all pid_exists js _
    ∙ if_ind (λ (t : Database). t.notifications ≡ s.notifications) (is_abandoned pid_exists j)
        (λ _. refl) (λ _. refl)

-- Where every unsettled job has a pid whose process is gone, the clean-up settles them all, yet it
-- counts none of them and writes nothing to the history.
pub dead_pids_uncounted :
    (pid_exists : ℕ → Bool) (s : Database)
    → All (λ j. is_settled j.status ≡ false → is_abandoned pid_exists j ≡ true) s.jobs
    → let (t, count) = cleanup_orphaned_jobs pid_exists s in
      All (λ j. is_settled j.status ≡ true) t.jobs
      × (count ≡ 0)
      × (t.notifications ≡ s.notifications)
unfolding cleanup_orphaned_jobs clean_old_jobs
dead_pids_uncounted pid_exists s h =
    let t = abandon_all pid_exists (orphans_of s) s in
    let settled =
      only_settled t.jobs
        (abandoned-Settling pid_exists (orphans_of s) s (dead s.jobs h) (start-Settling s)) in
    let (same, count) = nothing_left t (keep_none t.jobs settled) in
    (
      subst (λ (u : Database). All (λ j. is_settled j.status ≡ true) u.jobs) (sym same) settled,
      count,
      ap (λ (u : Database). u.notifications) same
          ∙ notifications-abandon_all pid_exists (orphans_of s) s,
    )
  where
    dead :
        (js : List Job)
        → All (λ j. is_settled j.status ≡ false → is_abandoned pid_exists j ≡ true) js
        → All (λ j. is_abandoned pid_exists j ≡ true) (keep (λ j. not (is_settled j.status)) js)
    dead [] k = tt
    dead (j ∷ js) k =
        if_ind (All (λ j. is_abandoned pid_exists j ≡ true)) (not (is_settled j.status))
          (λ e. (k.0 (ground arith), dead js k.1)) (λ _. dead js k.1)

-- ===== src/Machine/Handlers/Moves.antt =====
-- The requests as one state machine: which states of a job they can lead to.
use automatic_ripping_machin.Common.{
  find, any, Holds, if◌then◌else◌, Bool-cases, if_ind, ℕ, ◌≡◌, refl, sym, ◌∙◌, inl, inr, Bool, true,
  false, not, false≢true, Option, none, some, List, [], ◌∷◌, arith,
}
use automatic_ripping_machin.Machine.{
  video_ripping, failure, Job, Database, is_ripping, has_job_id, has_current,
}
use automatic_ripping_machin.Machine.Handlers.{
  with_found, eject_found, abandon_found, may_not_end, Response, update_job, write_job, with_job,
  is_paused, is_success, awaits_transcode, is_import, set_status, start_waiting_job,
  pause_waiting_job, cancel_waiting_job, skip_and_finalize, force_complete, eject, abandon_job,
}
use automatic_ripping_machin.Machine.Callback.{
  Callback, receive, is_other, is_informational, transcode_callback,
}

pub data Request : Type 0 where
  start cancel force : ℕ → Request
  pause : ℕ → Option Bool → ℕ → Request
  callback : ℕ → Option Callback → Request
  skip : ℕ → Bool → Request
  abandon : Bool → (ℕ → Bool) → ℕ → Request

abbrev pub handle : Request → Database → Database × Response
handle (start i) s = start_waiting_job i s
handle (cancel i) s = cancel_waiting_job i s
handle (force i) s = force_complete i s
handle (pause i paused now) s = pause_waiting_job i paused now s
handle (callback i body) s = transcode_callback i body s
handle (skip i finalizes) s = skip_and_finalize i finalizes s
handle (abandon auto_eject denied i) s = abandon_job auto_eject denied i s

abbrev pub handle_all : List Request → Database → Database
handle_all [] s = s
handle_all (r ∷ rs) s = handle_all rs (handle r s).0

-- A job that does not rip in the first state does not rip in the second.
abbrev Calm : Job → Job → Type 0
Calm j k = (j.job_id ≡ k.job_id) × (is_ripping j.status ≡ false → is_ripping k.status ≡ false)

-- The same jobs in the same order, none of which starts to rip.
abbrev pub NoneStarts : List Job → List Job → Type 0
NoneStarts [] [] = Unit
NoneStarts (j ∷ js) (k ∷ ks) = Calm j k × NoneStarts js ks
NoneStarts _ _ = ⊥

NoneStarts-refl : (js : List Job) → NoneStarts js js
NoneStarts-refl [] = tt
NoneStarts-refl (j ∷ js) = ((refl, λ h. h), NoneStarts-refl js)

NoneStarts-trans : (js ks ls : List Job) → NoneStarts js ks → NoneStarts ks ls → NoneStarts js ls
NoneStarts-trans [] [] [] h k = tt
NoneStarts-trans [] [] (z ∷ ls) h k = elim k [ ]
NoneStarts-trans [] (y ∷ ks) ls h k = elim h [ ]
NoneStarts-trans (x ∷ js) [] ls h k = elim h [ ]
NoneStarts-trans (x ∷ js) (y ∷ ks) [] h k = elim k [ ]
NoneStarts-trans (x ∷ js) (y ∷ ks) (z ∷ ls) h k =
    ((h.0.0 ∙ k.0.0, λ e. k.0.1 (h.0.1 e)), NoneStarts-trans js ks ls h.1 k.1)

update_job-NoneStarts :
    (i : ℕ) (f : Job → Job) (js : List Job)
    → Holds (λ j. Calm j (f j)) (find (has_job_id i) js)
    → NoneStarts js (update_job i f js)
unfolding update_job
update_job-NoneStarts i f [] h = tt
update_job-NoneStarts i f (j ∷ js) h = elim (Bool-cases (has_job_id i j)) [
  | inl e ↦ rw e (rw e at h, NoneStarts-refl js)
  | inr e ↦ rw e ((refl, λ k. k), update_job-NoneStarts i f js (rw e at h))
]

-- A stored job that `f` does not make rip.
write-NoneStarts :
    (i : ℕ) (f : Job → Job) (s : Database) (j : Job)
    → find (has_job_id i) s.jobs ≡ some j
    → Calm j (f j)
    → NoneStarts s.jobs (update_job i f s.jobs)
write-NoneStarts i f s j e calm = update_job-NoneStarts i f s.jobs (rw e calm)

with_job-NoneStarts :
    (i : ℕ) (handler : Job → Database × Response) (s : Database)
    → ((j : Job) → find (has_job_id i) s.jobs ≡ some j → NoneStarts s.jobs (handler j).0.jobs)
    → NoneStarts s.jobs (with_job i handler s).0.jobs
with_job-NoneStarts i handler s h = go (find (has_job_id i) s.jobs) refl
  where
    go :
        (o : Option Job)
        → find (has_job_id i) s.jobs ≡ o
        → NoneStarts s.jobs (with_found o handler s).0.jobs
    go none e = NoneStarts-refl s.jobs
    go (some j) e = h j e

-- Both branches of a test.
branches :
    (s : Database) (b : Bool) (x y : Database × Response)
    → (b ≡ true → NoneStarts s.jobs x.0.jobs)
    → (b ≡ false → NoneStarts s.jobs y.0.jobs)
    → NoneStarts s.jobs (if b then x else y).0.jobs
branches s true x y h k = h refl
branches s false x y h k = k refl

Calm-paused :
    (j : Job) (f : Job → Job)
    → not (is_paused j.status) ≡ false
    → (f j).job_id ≡ j.job_id
    → Calm j (f j)
Calm-paused j f p e = (sym e, λ h. elim (false≢true (paused_rips j p h)) [ ])
  where
    paused_rips :
        (j : Job) → not (is_paused j.status) ≡ false → is_ripping j.status ≡ false → false ≡ true
    paused_rips j p h = ground arith

start-NoneStarts : (i : ℕ) (s : Database) → NoneStarts s.jobs (start_waiting_job i s).0.jobs
unfolding start_waiting_job
start-NoneStarts i s = with_job-NoneStarts i _ s (λ j e.
    branches s (not (is_paused j.status)) _ _ (λ _. NoneStarts-refl s.jobs)
      (λ p.
        branches s (is_import j.source_type) _ _
          (λ _. write-NoneStarts i _ s j e (Calm-paused j (set_status video_ripping) p refl))
          (λ _. write-NoneStarts i _ s j e (refl, λ h. h))))

pause-NoneStarts :
    (i : ℕ) (paused : Option Bool) (now : ℕ) (s : Database)
    → NoneStarts s.jobs (pause_waiting_job i paused now s).0.jobs
unfolding pause_waiting_job
pause-NoneStarts i paused now s = with_job-NoneStarts i _ s (λ j e.
    branches s (not (is_paused j.status)) _ _ (λ _. NoneStarts-refl s.jobs)
      (λ _. write-NoneStarts i _ s j e (refl, λ h. h)))

cancel-NoneStarts : (i : ℕ) (s : Database) → NoneStarts s.jobs (cancel_waiting_job i s).0.jobs
unfolding cancel_waiting_job
cancel-NoneStarts i s = with_job-NoneStarts i _ s (λ j e.
    branches s (not (is_paused j.status)) _ _ (λ _. NoneStarts-refl s.jobs)
      (λ _. write-NoneStarts i _ s j e (refl, λ _. refl)))

skip-NoneStarts :
    (i : ℕ) (finalizes : Bool) (s : Database)
    → NoneStarts s.jobs (skip_and_finalize i finalizes s).0.jobs
unfolding skip_and_finalize
skip-NoneStarts i finalizes s = with_job-NoneStarts i _ s (λ j e.
    branches s (not (awaits_transcode j.status)) _ _ (λ _. NoneStarts-refl s.jobs)
      (λ _.
        branches s finalizes _ _ (λ _. write-NoneStarts i _ s j e (refl, λ _. refl))
          (λ _. NoneStarts-refl s.jobs)))

force-NoneStarts : (i : ℕ) (s : Database) → NoneStarts s.jobs (force_complete i s).0.jobs
unfolding force_complete
force-NoneStarts i s = with_job-NoneStarts i _ s (λ j e.
    branches s (is_success j.status) _ _ (λ _. NoneStarts-refl s.jobs)
      (λ _. write-NoneStarts i _ s j e (refl, λ _. refl)))

receive-Calm : (c : Callback) (j : Job) → Calm j (receive c j)
receive-Calm c j = ground arith

callback-NoneStarts :
    (i : ℕ) (body : Option Callback) (s : Database)
    → NoneStarts s.jobs (transcode_callback i body s).0.jobs
unfolding transcode_callback
callback-NoneStarts i none s = with_job-NoneStarts i _ s (λ j e. NoneStarts-refl s.jobs)
callback-NoneStarts i (some c) s = with_job-NoneStarts i _ s (λ j e.
    branches s (is_other c.status) _ _ (λ _. NoneStarts-refl s.jobs)
      (λ _.
        if_ind (λ (t : Database). NoneStarts s.jobs (update_job i (receive c) t.jobs))
          (is_informational c.status) (λ _. write-NoneStarts i (receive c) s j e (receive-Calm c j))
          (λ _. write-NoneStarts i (receive c) s j e (receive-Calm c j))))

eject-NoneStarts :
    (auto_eject : Bool) (i : ℕ) (s : Database) → NoneStarts s.jobs (eject auto_eject i s).jobs
unfolding eject
eject-NoneStarts auto_eject i s = go (find (has_job_id i) s.jobs) refl
  where
    go :
        (o : Option Job)
        → find (has_job_id i) s.jobs ≡ o
        → NoneStarts s.jobs (eject_found auto_eject i o s).jobs
    go none e = NoneStarts-refl s.jobs
    go (some j) e =
        if_ind (λ (t : Database). NoneStarts s.jobs t.jobs) j.ejected (λ _. NoneStarts-refl s.jobs)
          (λ _.
            if_ind (λ (t : Database). NoneStarts s.jobs t.jobs) (not (any (has_current i) s.drives))
              (λ _. NoneStarts-refl s.jobs)
              (λ _.
                if_ind (λ (t : Database). NoneStarts s.jobs t.jobs) (not auto_eject)
                  (λ _. NoneStarts-refl s.jobs)
                  (λ _.
                    write-NoneStarts i (λ j. record j { ejected = true }) s j e (refl, λ h. h))))

abandon-NoneStarts :
    (auto_eject : Bool) (denied : ℕ → Bool) (i : ℕ) (s : Database)
    → NoneStarts s.jobs (abandon_job auto_eject denied i s).0.jobs
unfolding abandon_job
abandon-NoneStarts auto_eject denied i s = go (find (has_job_id i) s.jobs) refl
  where
    go :
        (o : Option Job)
        → find (has_job_id i) s.jobs ≡ o
        → NoneStarts s.jobs (abandon_found auto_eject denied i o s).0.jobs
    go none e = NoneStarts-refl s.jobs
    go (some j) e =
        branches s (may_not_end denied j.pid) _ _ (λ _. NoneStarts-refl s.jobs)
          (λ _.
            NoneStarts-trans s.jobs _ _
              (write-NoneStarts i (set_status failure) s j e (refl, λ _. refl))
              (eject-NoneStarts auto_eject i (write_job i (set_status failure) s)))

handle-NoneStarts : (r : Request) (s : Database) → NoneStarts s.jobs (handle r s).0.jobs
handle-NoneStarts (start i) s = start-NoneStarts i s
handle-NoneStarts (cancel i) s = cancel-NoneStarts i s
handle-NoneStarts (force i) s = force-NoneStarts i s
handle-NoneStarts (pause i paused now) s = pause-NoneStarts i paused now s
handle-NoneStarts (callback i body) s = callback-NoneStarts i body s
handle-NoneStarts (skip i finalizes) s = skip-NoneStarts i finalizes s
handle-NoneStarts (abandon auto_eject denied i) s = abandon-NoneStarts auto_eject denied i s

-- Whatever requests are made, in whatever order: no job is added, lost or moved in the table, and
-- a job whose state is none of the ripping states (the pause before a rip is one of them) is in
-- none of them afterwards. No request makes a finished job rip again.
pub handle_all-NoneStarts :
    (rs : List Request) (s : Database) → NoneStarts s.jobs (handle_all rs s).jobs
handle_all-NoneStarts [] s = NoneStarts-refl s.jobs
handle_all-NoneStarts (r ∷ rs) s =
    NoneStarts-trans s.jobs _ _ (handle-NoneStarts r s) (handle_all-NoneStarts rs (handle r s).0)

-- ===== src/Machine/Handlers/Held.antt =====
-- The drives' jobs behind the requests.
use automatic_ripping_machin.Common.{
  find, any, if◌then◌else◌, if_ind, ℕ, ◌≡◌, refl, sym, subst, Bool, true, false, not, Option, none,
  some,
}
use automatic_ripping_machin.Machine.{Job, Database, has_job_id, has_current}
use automatic_ripping_machin.Machine.Handlers.{
  Response, with_job, with_found, start_waiting_job, pause_waiting_job, cancel_waiting_job,
  skip_and_finalize, force_complete, eject_found, eject, may_not_end, abandon_found, abandon_job,
  is_paused, is_import, awaits_transcode,
}
use automatic_ripping_machin.Machine.Callback.{Callback, is_informational, transcode_callback}
use automatic_ripping_machin.Machine.Handlers.Moves.{
  Request, start, cancel, force, pause, callback, skip, abandon, handle,
}
use automatic_ripping_machin.Machine.Startup.Freed.{Exclusive, release-Exclusive}

-- The drives are left as they are.
abbrev Keeps : Database → Database × Response → Type 0
Keeps s r = r.0.drives ≡ s.drives

with_job-Keeps :
    (i : ℕ) (handler : Job → Database × Response) (s : Database)
    → ((j : Job) → Keeps s (handler j))
    → Keeps s (with_job i handler s)
with_job-Keeps i handler s h = go (find (has_job_id i) s.jobs)
  where
    go : (o : Option Job) → Keeps s (with_found o handler s)
    go none = refl
    go (some j) = h j

branch :
    (s : Database) (b : Bool) (x y : Database × Response)
    → Keeps s x
    → Keeps s y
    → Keeps s (if b then x else y)
branch s true x y h k = h
branch s false x y h k = k

start-Keeps : (i : ℕ) (s : Database) → Keeps s (start_waiting_job i s)
unfolding start_waiting_job
start-Keeps i s = with_job-Keeps i _ s (λ j.
    branch s (not (is_paused j.status)) _ _ refl (branch s (is_import j.source_type) _ _ refl refl))

pause-Keeps :
    (i : ℕ) (paused : Option Bool) (now : ℕ) (s : Database)
    → Keeps s (pause_waiting_job i paused now s)
unfolding pause_waiting_job
pause-Keeps i paused now s = with_job-Keeps i _ s (λ j. branch s _ _ _ refl refl)

cancel-Keeps : (i : ℕ) (s : Database) → Keeps s (cancel_waiting_job i s)
unfolding cancel_waiting_job
cancel-Keeps i s = with_job-Keeps i _ s (λ j. branch s _ _ _ refl refl)

skip-Keeps : (i : ℕ) (finalizes : Bool) (s : Database) → Keeps s (skip_and_finalize i finalizes s)
unfolding skip_and_finalize
skip-Keeps i finalizes s =
    with_job-Keeps i _ s
      (λ j. branch s (not (awaits_transcode j.status)) _ _ refl (branch s finalizes _ _ refl refl))

force-Keeps : (i : ℕ) (s : Database) → Keeps s (force_complete i s)
unfolding force_complete
force-Keeps i s = with_job-Keeps i _ s (λ j. branch s _ _ _ refl refl)

callback-Keeps :
    (i : ℕ) (body : Option Callback) (s : Database) → Keeps s (transcode_callback i body s)
unfolding transcode_callback
callback-Keeps i none s = with_job-Keeps i _ s (λ j. refl)
callback-Keeps i (some c) s = with_job-Keeps i _ s (λ j. branch s _ _ _ refl (
    if_ind (λ (t : Database). t.drives ≡ s.drives) (is_informational c.status) (λ _. refl)
      (λ _. refl)))

eject_found-Exclusive :
    (auto_eject : Bool) (i : ℕ) (o : Option Job) (s : Database)
    → Exclusive s.drives
    → Exclusive (eject_found auto_eject i o s).drives
eject_found-Exclusive auto_eject i none s x = x
eject_found-Exclusive auto_eject i (some j) s x =
    if_ind (λ (t : Database). Exclusive t.drives) j.ejected (λ _. x)
      (λ _.
        if_ind (λ (t : Database). Exclusive t.drives) (not (any (has_current i) s.drives)) (λ _. x)
          (λ _.
            if_ind (λ (t : Database). Exclusive t.drives) (not auto_eject)
              (λ _. release-Exclusive i s.drives x) (λ _. release-Exclusive i s.drives x)))

pub eject-Exclusive :
    (auto_eject : Bool) (i : ℕ) (s : Database)
    → Exclusive s.drives
    → Exclusive (eject auto_eject i s).drives
unfolding eject
eject-Exclusive auto_eject i s x =
    eject_found-Exclusive auto_eject i (find (has_job_id i) s.jobs) s x

abandon-Exclusive :
    (auto_eject : Bool) (denied : ℕ → Bool) (i : ℕ) (o : Option Job) (s : Database)
    → Exclusive s.drives
    → Exclusive (abandon_found auto_eject denied i o s).0.drives
unfolding abandon_found
abandon-Exclusive auto_eject denied i none s x = x
abandon-Exclusive auto_eject denied i (some j) s x =
    if_ind (λ (r : Database × Response). Exclusive r.0.drives) (may_not_end denied j.pid) (λ _. x)
      (λ _. eject-Exclusive auto_eject i _ x)

pub handle-Exclusive :
    (r : Request) (s : Database) → Exclusive s.drives → Exclusive (handle r s).0.drives
unfolding abandon_job
handle-Exclusive (start i) s x = subst Exclusive (sym (start-Keeps i s)) x
handle-Exclusive (cancel i) s x = subst Exclusive (sym (cancel-Keeps i s)) x
handle-Exclusive (force i) s x = subst Exclusive (sym (force-Keeps i s)) x
handle-Exclusive (pause i paused now) s x = subst Exclusive (sym (pause-Keeps i paused now s)) x
handle-Exclusive (callback i body) s x = subst Exclusive (sym (callback-Keeps i body s)) x
handle-Exclusive (skip i finalizes) s x = subst Exclusive (sym (skip-Keeps i finalizes s)) x
handle-Exclusive (abandon auto_eject denied i) s x =
    abandon-Exclusive auto_eject denied i (find (has_job_id i) s.jobs) s x

-- ===== src/Ripper/Wait.antt =====
-- The wait for the user of arm/ripper/utils.py: `check_for_wait` and `_poll_manual_wait`.
pub mod Polls
use automatic_ripping_machin.Common.{
  leb, ◌==◌, if◌then◌else◌, ℕ, ◌+◌, ◌-◌, ◌*◌, ◌/◌, ◌%◌, ◌^◌, ◌≤◌, ◌<◌, ◌≡◌, ◌∙◌, ◌≡⟨◌⟩◌, ◌∎, ◌≢◌,
  ◌↔◌, ◌⊎◌, Bool, true, false, not, ◌&&◌, ◌||◌, Option, some, List, [], ◌∷◌, ◌++◌,
}

-- What a poll finds: the job, read again from the database, and the global pause. A title that is
-- None or empty is no title.
pub record Poll : Type 0 where
  pub waits : Bool
  pub manual_start : Bool
  pub manual_pause : Bool
  pub title_manual : Bool
  pub globally_paused : Bool

-- Why the rip goes on; `unchanged` tells that the loop is still waiting when the polls end.
pub data Outcome : Type 0 where
  cancelled started overridden expired unchanged : Outcome

-- The polls in their order, `slept` seconds behind the start; the seconds at the end.
unfoldable pub poll_manual_wait : ℕ → ℕ → List Poll → Outcome × ℕ
poll_manual_wait wait_time slept [] = (unchanged, slept)
poll_manual_wait wait_time slept (p ∷ ps) =
    let now = slept + 5 in
    let more = poll_manual_wait wait_time now ps in
    if not p.waits
    then (cancelled, now)
    else if p.manual_start
    then (started, now)
    else if p.manual_pause
    then more
    else if p.title_manual && not p.globally_paused
    then (overridden, now)
    else if not p.globally_paused && leb wait_time now
    then (expired, now)
    else more

-- The columns of the job that the wait writes.
pub data Status : Type 0 where
  manual_paused idle other_state : Status

pub record Job : Type 0 where
  pub status : Status
  pub wait_start_time : Option ℕ
  pub manual_start : Bool
  pub hasnicetitle : Bool
  pub updated : Bool

abbrev pub begin_wait : ℕ → Job → Job
begin_wait now j = record j { status = manual_paused; wait_start_time = some now }

abbrev pub proceed : Job → Job
proceed j = record j { status = idle; manual_start = false }

-- What the end of the wait makes of the job that the wait began; the flag is false where
-- RipperException is raised or the wait goes on.
abbrev pub end_wait : Outcome → Job → Job × Bool
end_wait cancelled j = (j, false)
end_wait unchanged j = (j, false)
end_wait started j = (proceed j, true)
end_wait overridden j = (proceed (record j { hasnicetitle = true; updated = true }), true)
end_wait expired j = (proceed j, true)

unfoldable pub check_for_wait : Bool → Bool → ℕ → ℕ → List Poll → Job → Job × Bool
unfolding poll_manual_wait
check_for_wait manual_wait globally_paused wait_time now polls j =
    if manual_wait || globally_paused
    then end_wait (poll_manual_wait wait_time 0 polls).0 (begin_wait now j)
    else (j, true)

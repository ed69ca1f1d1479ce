-- ===== src/Ripper/Wait/Polls.antt =====
-- When the wait for the user ends.
use automatic_ripping_machin.Common.{
  length, All, ltb, leb, if_ind, ℕ, ◌+◌, ◌*◌, ◌≤◌, ◌<◌, ◌≡◌, refl, ◌⊎◌, inl, inr, Bool, true, false,
  not, ◌&&◌, ◌||◌, List, [], ◌∷◌, arith,
}
use automatic_ripping_machin.Ripper.Wait.{
  Poll, Outcome, cancelled, started, overridden, expired, unchanged, poll_manual_wait,
}

-- The poll leaves the job waiting after `now` seconds.
abbrev pub keeps_waiting : ℕ → ℕ → Poll → Bool
keeps_waiting wait_time now p =
    p.waits
    && not p.manual_start
    && (p.manual_pause || p.globally_paused || (not p.title_manual && ltb now wait_time))

-- Whether the outcome is what the poll calls for.
abbrev pub IsCause : ℕ → ℕ → Poll → Outcome → Type 0
IsCause wait_time now p cancelled = p.waits ≡ false
IsCause wait_time now p started = (p.waits ≡ true) × (p.manual_start ≡ true)
IsCause wait_time now p overridden =
    (p.waits ≡ true)
    × (p.manual_start ≡ false)
    × (p.manual_pause ≡ false)
    × (p.globally_paused ≡ false)
    × (p.title_manual ≡ true)
IsCause wait_time now p expired =
    (p.waits ≡ true)
    × (p.manual_start ≡ false)
    × (p.manual_pause ≡ false)
    × (p.globally_paused ≡ false)
    × (p.title_manual ≡ false)
    × (wait_time ≤ now)
IsCause wait_time now p unchanged = ⊥

-- The polls before the last one all leave the job waiting, five seconds apart, and the last one is
-- the cause of the outcome; or all leave it waiting.
abbrev pub EndsAt : ℕ → ℕ → List Poll → Outcome × ℕ → Type 0
EndsAt wait_time slept [] r = r ≡ (unchanged, slept)
EndsAt wait_time slept (p ∷ ps) r =
    (IsCause wait_time (slept + 5) p r.0 × (r.1 ≡ slept + 5))
    ⊎ ((keeps_waiting wait_time (slept + 5) p ≡ true) × EndsAt wait_time (slept + 5) ps r)

-- Whatever the polls find: the wait ends at the first poll that calls for an end, with the outcome
-- that this poll calls for, and not before. While a pause holds, nothing but a start by the user
-- or a cancellation ends it.
pub poll_manual_wait-EndsAt :
    (wait_time slept : ℕ) (ps : List Poll)
    → EndsAt wait_time slept ps (poll_manual_wait wait_time slept ps)
unfolding poll_manual_wait
poll_manual_wait-EndsAt wait_time slept [] = refl
poll_manual_wait-EndsAt wait_time slept (p ∷ ps) =
    let ih = poll_manual_wait-EndsAt wait_time (slept + 5) ps in
    let P : Outcome × ℕ → Type 0 = λ r. EndsAt wait_time slept (p ∷ ps) r in
    if_ind P (not p.waits) (λ a. inl (ground arith, refl))
      (λ a.
        if_ind P p.manual_start (λ b. inl ((ground arith, b), refl))
          (λ b.
            if_ind P p.manual_pause (λ c. inr (ground arith, ih))
              (λ c.
                if_ind P (p.title_manual && not p.globally_paused)
                  (λ d. inl ((ground arith, b, c, ground arith, ground arith), refl))
                  (λ d.
                    if_ind P (not p.globally_paused && leb wait_time (slept + 5))
                      (λ e.
                        inl ((ground arith, b, c, ground arith, ground arith, ground arith), refl))
                      (λ e. inr (ground arith, ih))))))

-- The wait is over, and the rip was not cancelled.
abbrev pub GoesOn : Outcome × ℕ → Type 0
GoesOn r = (r.0 ≡ started) ⊎ (r.0 ≡ overridden) ⊎ (r.0 ≡ expired)

-- Where the job stays in its state and nothing pauses: after enough polls to sleep for the time to
-- wait, and one at least, the rip goes on.
pub poll_manual_wait_ends :
    (wait_time slept : ℕ) (ps : List Poll)
    → All (λ p. (p.waits ≡ true) × (p.manual_pause ≡ false) × (p.globally_paused ≡ false)) ps
    → 0 < length ps
    → wait_time ≤ slept + 5 * length ps
    → GoesOn (poll_manual_wait wait_time slept ps)
unfolding poll_manual_wait
poll_manual_wait_ends wait_time slept [] h n k = absurd (omega arith)
poll_manual_wait_ends wait_time slept (p ∷ ps) ((w, m, g), h) n k =
    if_ind GoesOn (not p.waits) (λ a. absurd (ground arith))
      (λ _.
        if_ind GoesOn p.manual_start (λ _. inl refl)
          (λ _.
            if_ind GoesOn p.manual_pause (λ c. absurd (ground arith))
              (λ _.
                if_ind GoesOn (p.title_manual && not p.globally_paused) (λ _. inr (inl refl))
                  (λ _.
                    if_ind GoesOn (not p.globally_paused && leb wait_time (slept + 5))
                      (λ _. inr (inr refl))
                      (λ e.
                        let late = later p.globally_paused g e in
                        poll_manual_wait_ends wait_time (slept + 5) ps h (omega arith)
                          (omega arith))))))
  where
    later :
        (b : Bool)
        → b ≡ false
        → (not b && leb wait_time (slept + 5)) ≡ false
        → slept + 5 < wait_time
    later b h e = ground arith

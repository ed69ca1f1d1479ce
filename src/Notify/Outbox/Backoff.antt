-- ===== src/Notify/Outbox/Backoff.antt =====
-- The retry schedule of `record_failure`.
use native.Mathlib.Nat.{pow-suc}
use automatic_ripping_machin.Common.{
  ℕ, zero, suc, ◌+◌, ◌*◌, ◌^◌, ◌≤◌, ◌<◌, String, ◌≡◌, Bool, true, false, ◌⊎◌, inl, inr, some, List,
  [], ◌∷◌, arith, length, find, map_if,
}
use automatic_ripping_machin.Notify.{OutboxRow, Store, pending, failed, has_id}
use automatic_ripping_machin.Notify.Outbox.{
  max_attempts, backoff_seconds, short_error, fail_row, record_failure,
}

pow_pos : (n : ℕ) → 1 ≤ 2 ^ n
pow_pos zero = omega arith
pow_pos (suc n) = ground (arith, pow_pos n)

backoff_bounds : (n : ℕ) → (30 ≤ backoff_seconds n) × (backoff_seconds n ≤ 3600)
unfolding backoff_seconds
backoff_bounds n = omega (arith, pow_pos n)

backoff_doubles : (n : ℕ) → 30 * 2 ^ n ≤ 3600 → backoff_seconds n ≡ 30 * 2 ^ n
unfolding backoff_seconds
backoff_doubles n h = omega arith

-- The wait before a retry is at least 30 seconds and at most an hour, it never shrinks from one
-- attempt to the next, and it is exactly 30 * 2 ^ attempts while that stays below the hour.
pub backoff_schedule :
    (n : ℕ)
    → (30 ≤ backoff_seconds n)
      × (backoff_seconds n ≤ 3600)
      × (backoff_seconds n ≤ backoff_seconds (suc n))
      × (30 * 2 ^ n ≤ 3600 → backoff_seconds n ≡ 30 * 2 ^ n)
unfolding backoff_seconds
backoff_schedule n =
    ((backoff_bounds n).0, (backoff_bounds n).1, omega (arith, pow-suc 2 n), backoff_doubles n)

-- The row is given up for good, and the time of that is kept.
pub record GivenUp (now : ℕ) (error : String) (row r : OutboxRow) : Type 0 where
  pub status : r.status ≡ failed
  pub completed_at : r.completed_at ≡ some now
  pub attempts : r.attempts ≡ row.attempts + 1
  pub last_error : r.last_error ≡ some (short_error error)

-- The row waits for its next attempt.
pub record Retried (now : ℕ) (error : String) (row r : OutboxRow) : Type 0 where
  pub status : r.status ≡ pending
  pub not_before : now + 30 ≤ r.next_attempt_at
  pub not_after : r.next_attempt_at ≤ now + 3600
  pub completed_at : r.completed_at ≡ row.completed_at
  pub attempts : r.attempts ≡ row.attempts + 1
  pub last_error : r.last_error ≡ some (short_error error)

fail_row_cases :
    (now : ℕ) (error : String) (terminal : Bool) (r : OutboxRow)
    → (((terminal ≡ true) ⊎ (max_attempts ≤ r.attempts + 1))
        × GivenUp now error r (fail_row now error terminal r))
      ⊎ ((terminal ≡ false)
          × (r.attempts + 1 < max_attempts)
          × Retried now error r (fail_row now error terminal r))
unfolding fail_row
fail_row_cases now error terminal r = ground (arith, backoff_bounds (r.attempts + 1))

pub id-fail_row :
    (now : ℕ) (error : String) (terminal : Bool) (r : OutboxRow)
    → (fail_row now error terminal r).id ≡ r.id
unfolding fail_row
id-fail_row now error terminal r = ground arith

find-map_if :
    (i : ℕ) (f : OutboxRow → OutboxRow) (rows : List OutboxRow) (row : OutboxRow)
    → ((r : OutboxRow) → (f r).id ≡ r.id)
    → find (has_id i) rows ≡ some row
    → find (has_id i) (map_if (has_id i) f rows) ≡ some (f row)
find-map_if i f [] row same h = cc
find-map_if i f (r ∷ rows) row same h = ground (arith, same r, find-map_if i f rows row same)

-- Recording a failure of a stored row: a terminal failure, or the fifth attempt, gives the row up;
-- any other failure schedules a retry between 30 seconds and an hour later. Both count the attempt
-- and keep the error, cut to 512 characters.
pub record_failure_outcome :
    (i now : ℕ) (error : String) (terminal : Bool) (s : Store) (row : OutboxRow)
    → find (has_id i) s.outbox ≡ some row
    → (r : OutboxRow) × (find (has_id i) (record_failure i error terminal now s).outbox ≡ some r)
      × ((((terminal ≡ true) ⊎ (max_attempts ≤ row.attempts + 1)) × GivenUp now error row r)
          ⊎ ((terminal ≡ false) × (row.attempts + 1 < max_attempts) × Retried now error row r))
unfolding record_failure
record_failure_outcome i now error terminal s row h = (
  fail_row now error terminal row,
  rw h (find-map_if i _ s.outbox row (id-fail_row now error terminal) h),
  fail_row_cases now error terminal row,
)

-- Failures of one row, one after the other, each at its time and none of them terminal.
abbrev pub fail_all : List (ℕ × String) → OutboxRow → OutboxRow
fail_all [] r = r
fail_all ((now, error) ∷ es) r = fail_all es (fail_row now error false r)

not_yet :
    (r : OutboxRow) (n : ℕ)
    → (false ≡ true) ⊎ (max_attempts ≤ r.attempts + 1)
    → r.attempts + 2 + n ≤ max_attempts
    → ⊥
not_yet r n why h = ground arith

one_failure :
    (now : ℕ) (error : String) (r : OutboxRow)
    → (r.attempts + 1 < max_attempts → (fail_row now error false r).status ≡ pending)
      × (r.attempts + 1 ≡ max_attempts → 0 < 1 → (fail_row now error false r).status ≡ failed)
unfolding fail_row
one_failure now error r = ground arith

-- A row that fails transiently again and again stays pending below five attempts and is given up
-- at the fifth, not before: it is never retried for ever.
pub retry_limit :
    (es : List (ℕ × String)) (r : OutboxRow)
    → r.status ≡ pending
    → (r.attempts + length es < max_attempts → (fail_all es r).status ≡ pending)
      × (r.attempts + length es ≡ max_attempts → 0 < length es → (fail_all es r).status ≡ failed)
retry_limit [] r p = (λ _. p, λ _ h. elim h [ ])
retry_limit ((now, error) ∷ []) r p = one_failure now error r
retry_limit ((now, error) ∷ e ∷ es) r p = elim (fail_row_cases now error false r) [
  | inl (why, given) ↦ (
    λ h. absurd (not_yet r (length es) why (omega arith)),
    λ h _. absurd (not_yet r (length es) why (omega arith)),
  )
  | inr (_, below, retried) ↦
      let ih = retry_limit (e ∷ es) (fail_row now error false r) retried.status in
      (λ h. ih.0 (omega arith), λ h _. ih.1 (omega arith) (omega arith))
]

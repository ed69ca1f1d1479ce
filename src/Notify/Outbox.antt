-- ===== src/Notify/Outbox.antt =====
-- arm/notifications/outbox.py: the consumer's side of the outbox.
pub mod Backoff
pub mod Queue
use automatic_ripping_machin.Common.{
  ℕ, zero, suc, ◌+◌, ◌-◌, ◌*◌, ◌^◌, min, String, Bool, true, false, not, ◌&&◌, ◌||◌, Option, none,
  some, List, [], ◌∷◌, ltb, leb, ◌==◌, if◌then◌else◌, length, take, keep, find, any, map_if, sort,
  truncate,
}
use automatic_ripping_machin.Notify.{
  Channel, Status, pending, in_flight, success, failed, OutboxRow, Store, has_id,
}

abbrev pub max_attempts : ℕ
max_attempts = 5

abbrev backoff_base_seconds : ℕ
backoff_base_seconds = 30

abbrev backoff_cap_seconds : ℕ
backoff_cap_seconds = 3600

unfoldable pub backoff_seconds : ℕ → ℕ
backoff_seconds attempts = min (backoff_base_seconds * 2 ^ attempts) backoff_cap_seconds

abbrev pub is_pending : Status → Bool
is_pending pending = true
is_pending _ = false

abbrev pub is_in_flight : Status → Bool
is_in_flight in_flight = true
is_in_flight _ = false

abbrev pub is_completed : Status → Bool
is_completed success = true
is_completed failed = true
is_completed _ = false

abbrev pub is_due : ℕ → OutboxRow → Bool
is_due now r = is_pending r.status && leb r.next_attempt_at now

-- ORDER BY next_attempt_at ASC; rows with equal times keep the order of the table.
abbrev pub due_before : OutboxRow → OutboxRow → Bool
due_before a b = leb a.next_attempt_at b.next_attempt_at

abbrev pub mark_in_flight : ℕ → OutboxRow → OutboxRow
mark_in_flight now r = record r { status = in_flight; next_attempt_at = now }

abbrev pub among : List OutboxRow → OutboxRow → Bool
among rows r = any (has_id r.id) rows

unfoldable pub select_due : ℕ → ℕ → List OutboxRow → List OutboxRow
select_due limit now rows = take limit (sort due_before (keep (is_due now) rows))

-- The rows are objects of the session: marking those that were selected changes the table.
unfoldable pub dequeue_due : ℕ → ℕ → Store → Store × List OutboxRow
dequeue_due limit now s =
    let rows = select_due limit now s.outbox in
    (record s { outbox = map_if (among rows) (mark_in_flight now) s.outbox }, rows)

abbrev pub is_channel : ℕ → Channel → Bool
is_channel i c = c.id == i

-- Writes to the row with this id, and to its channel if there is one; a row that vanished changes
-- nothing.
abbrev pub write_found :
    Option OutboxRow → ℕ → (OutboxRow → OutboxRow) → (Channel → Channel) → Store → Store
write_found none i f g s = s
write_found (some row) i f g s = record s {
  outbox = map_if (has_id i) f s.outbox;
  channels = map_if (is_channel row.channel_id) g s.channels;
}

abbrev pub write_row : ℕ → (OutboxRow → OutboxRow) → (Channel → Channel) → Store → Store
write_row i f g s = write_found (find (has_id i) s.outbox) i f g s

abbrev pub succeed_row : ℕ → OutboxRow → OutboxRow
succeed_row now r = record r { status = success; completed_at = some now; last_error = none }

abbrev pub succeed_channel : ℕ → Channel → Channel
succeed_channel now c = record c {
  last_fired_at = some now;
  last_success_at = some now;
  last_error = none;
}

unfoldable pub record_success : ℕ → ℕ → Store → Store
record_success outbox_id now = write_row outbox_id (succeed_row now) (succeed_channel now)

abbrev pub short_error : String → String
short_error error = truncate 512 error

unfoldable pub fail_row : ℕ → String → Bool → OutboxRow → OutboxRow
unfolding backoff_seconds
fail_row now error terminal r =
    let tried = record r { attempts = r.attempts + 1; last_error = some (short_error error) } in
    if terminal || leb max_attempts tried.attempts
    then record tried { status = failed; completed_at = some now }
    else record tried { status = pending; next_attempt_at = now + backoff_seconds tried.attempts }

abbrev pub fail_channel : ℕ → String → Channel → Channel
fail_channel now error c = record c {
  last_fired_at = some now;
  last_error = some (short_error error);
}

unfoldable pub record_failure : ℕ → String → Bool → ℕ → Store → Store
record_failure outbox_id error terminal now =
    write_row outbox_id (fail_row now error terminal) (fail_channel now error)

abbrev pub is_stale : ℕ → OutboxRow → Bool
is_stale cutoff r = is_in_flight r.status && ltb r.next_attempt_at cutoff

abbrev pub rescue : ℕ → OutboxRow → OutboxRow
rescue at r = record r { status = pending; next_attempt_at = at }

-- `now` is read for the cutoff; `later` gives the reading that each rescued row gets, by its id.
unfoldable pub reap_stale_in_flight : ℕ → ℕ → (ℕ → ℕ) → Store → Store × ℕ
reap_stale_in_flight stale_after_minutes now later s =
    let cutoff = now - stale_after_minutes * 60 in
    (
      record s { outbox = map_if (is_stale cutoff) (λ r. rescue (later r.id) r) s.outbox },
      length (keep (is_stale cutoff) s.outbox),
    )

-- `completed_at < cutoff` is not true of NULL.
abbrev pub completed_before : ℕ → Option ℕ → Bool
completed_before cutoff none = false
completed_before cutoff (some t) = ltb t cutoff

abbrev pub is_expired : ℕ → OutboxRow → Bool
is_expired cutoff r = is_completed r.status && completed_before cutoff r.completed_at

unfoldable pub cleanup_completed : ℕ → ℕ → Store → Store × ℕ
cleanup_completed older_than_days now s =
    let cutoff = now - older_than_days * 86400 in
    (
      record s { outbox = keep (λ r. not (is_expired cutoff r)) s.outbox },
      length (keep (is_expired cutoff) s.outbox),
    )

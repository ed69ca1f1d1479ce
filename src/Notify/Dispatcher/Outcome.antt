-- ===== src/Notify/Dispatcher/Outcome.antt =====
-- What one call of `process_one_row` does to the outbox, whatever the channel and the sender do.
use automatic_ripping_machin.Common.{
  find, map_if, Option-cases, is_some, if_ind, ℕ, ◌≤◌, ◌<◌, String, ◌≡◌, refl, sym, ◌⊎◌, inl, inr,
  Bool, true, false, Option, none, some, List, [], ◌∷◌, arith,
}
use automatic_ripping_machin.Notify.{Channel, OutboxRow, Store, has_id}
use automatic_ripping_machin.Notify.Outbox.{
  max_attempts, is_completed, is_in_flight, is_channel, succeed_row, fail_row, record_success,
  record_failure,
}
use automatic_ripping_machin.Notify.Outbox.Backoff.{id-fail_row}
use automatic_ripping_machin.Notify.Dispatcher.{
  World, Attempt, returned, raised_template, raised, known_kind, render_and_send, finish,
  attempt_event, attempt_channel, process_one_row,
}

-- What holds of every row: a row that may still be sent was tried less than five times and has no
-- completion time, and a completed row has one.
pub record IsSound (r : OutboxRow) : Type 0 where
  pub tried : r.attempts ≤ max_attempts
  pub active : is_completed r.status ≡ false → (r.attempts < max_attempts) × (r.completed_at ≡ none)
  pub done : is_completed r.status ≡ true → is_some r.completed_at ≡ true

-- An update of the row `i` that ends its flight.
pub record Settles (i : ℕ) (s t : Store) : Type 0 where
  pub update : OutboxRow → OutboxRow
  pub outbox : t.outbox ≡ map_if (has_id i) update s.outbox
  pub next_id : t.next_id ≡ s.next_id
  pub same_id : (r : OutboxRow) → (update r).id ≡ r.id
  pub landed : (r : OutboxRow) → is_in_flight (update r).status ≡ false
  pub sound : (r : OutboxRow) → is_completed r.status ≡ false → IsSound r → IsSound (update r)

succeed_row-IsSound : (now : ℕ) (r : OutboxRow) → IsSound r → IsSound (succeed_row now r)
succeed_row-IsSound now r h = ground arith

fail_row-IsSound :
    (now : ℕ) (error : String) (terminal : Bool) (r : OutboxRow)
    → is_completed r.status ≡ false
    → IsSound r
    → IsSound (fail_row now error terminal r)
unfolding fail_row
fail_row-IsSound now error terminal r a h = ground arith

fail_row_landed :
    (now : ℕ) (error : String) (terminal : Bool) (r : OutboxRow)
    → is_in_flight (fail_row now error terminal r).status ≡ false
unfolding fail_row
fail_row_landed now error terminal r = ground arith

map_if-none :
    (i : ℕ) (f : OutboxRow → OutboxRow) (rows : List OutboxRow)
    → find (has_id i) rows ≡ none
    → map_if (has_id i) f rows ≡ rows
map_if-none i f [] h = refl
map_if-none i f (r ∷ rows) h = ground (arith, map_if-none i f rows)

outbox-record_success :
    (i now : ℕ) (s : Store)
    → (record_success i now s).outbox ≡ map_if (has_id i) (succeed_row now) s.outbox
unfolding record_success
outbox-record_success i now s = elim (Option-cases (find (has_id i) s.outbox)) [
  | inl h ↦ rw h (sym (map_if-none i _ s.outbox h))
  | inr (row, h) ↦ rw h refl
]

outbox-record_failure :
    (i now : ℕ) (e : String) (b : Bool) (s : Store)
    → (record_failure i e b now s).outbox ≡ map_if (has_id i) (fail_row now e b) s.outbox
unfolding record_failure
outbox-record_failure i now e b s = elim (Option-cases (find (has_id i) s.outbox)) [
  | inl h ↦ rw h (sym (map_if-none i _ s.outbox h))
  | inr (row, h) ↦ rw h refl
]

next_id-record_success : (i now : ℕ) (s : Store) → (record_success i now s).next_id ≡ s.next_id
unfolding record_success
next_id-record_success i now s = ground arith

next_id-record_failure :
    (i now : ℕ) (e : String) (b : Bool) (s : Store)
    → (record_failure i e b now s).next_id ≡ s.next_id
unfolding record_failure
next_id-record_failure i now e b s = ground arith

success-Settles : (i now : ℕ) (s : Store) → Settles i s (record_success i now s)
success-Settles i now s = record {
  update = succeed_row now;
  outbox = outbox-record_success i now s;
  next_id = next_id-record_success i now s;
  same_id = λ r. refl;
  landed = λ r. refl;
  sound = λ r _ h. succeed_row-IsSound now r h;
}

failure-Settles :
    (i now : ℕ) (e : String) (b : Bool) (s : Store) → Settles i s (record_failure i e b now s)
failure-Settles i now e b s = record {
  update = fail_row now e b;
  outbox = outbox-record_failure i now e b s;
  next_id = next_id-record_failure i now e b s;
  same_id = id-fail_row now e b;
  landed = fail_row_landed now e b;
  sound = fail_row-IsSound now e b;
}

module _ (w : World) (i now : ℕ) (s : Store) where
  finish-Settles : (ch : Channel) (a : Attempt) → Settles i s (finish w i now ch a s)
  unfolding finish
  finish-Settles ch (raised_template e) = failure-Settles i now _ true s
  finish-Settles ch (raised e) = failure-Settles i now _ false s
  finish-Settles ch (returned true error) = success-Settles i now s
  finish-Settles ch (returned false error) = failure-Settles i now _ _ s

  event-Settles :
      (ch : Channel) (event : w.events.Event ⊎ String)
      → Settles i s (attempt_event w i now ch event s)
  unfolding attempt_event
  event-Settles ch (inr exc) = failure-Settles i now _ true s
  event-Settles ch (inl event) =
      if_ind (Settles i s) (known_kind ch.kind)
        (λ _. finish-Settles ch (render_and_send w ch event)) (λ _. failure-Settles i now _ true s)

  channel-Settles :
      (row : OutboxRow) (ch : Option Channel) → Settles i s (attempt_channel w i now row ch s)
  unfolding attempt_channel
  channel-Settles row none = failure-Settles i now _ true s
  channel-Settles row (some ch) =
      if_ind (Settles i s) ch.enabled (λ _. event-Settles ch (w.events.validate row.event_payload))
        (λ _. failure-Settles i now _ true s)

  nothing-Settles : find (has_id i) s.outbox ≡ none → Settles i s s
  nothing-Settles h = record {
    update = succeed_row now;
    outbox = sym (map_if-none i _ s.outbox h);
    next_id = refl;
    same_id = λ r. refl;
    landed = λ r. refl;
    sound = λ r _ k. succeed_row-IsSound now r k;
  }

  -- A call whose commit succeeds ends the flight of its row on every path: the row is then
  -- delivered, given up or waiting for a retry, and no other row is touched.
  pub process_one_row-Settles : Settles i s (process_one_row w true now i s)
  unfolding process_one_row
  process_one_row-Settles = elim (Option-cases (find (has_id i) s.outbox)) [
    | inl h ↦ rw h (nothing-Settles h)
    | inr (row, h) ↦ rw h (channel-Settles row (find (is_channel row.channel_id) s.channels))
  ]

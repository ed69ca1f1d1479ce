-- ===== src/Notify/Dispatcher/Drain.antt =====
-- One pass of the worker's loop, and the rescue after a crash.
use automatic_ripping_machin.Common.{
  map_if, All, All-keep, All-mono, All-every, All-map, ◌==◌, if◌then◌else◌, ==_iff, Bool-cases,
  if_ind, ℕ, ◌+◌, ◌-◌, ◌≤◌, ◌<◌, ◌≡◌, refl, sym, ap₂, ◌∙◌, subst, ◌⊎◌, inl, inr, Bool, true, false,
  false≢true, List, [], ◌∷◌, map, arith,
}
use automatic_ripping_machin.Notify.{pending, in_flight, OutboxRow, Store, has_id}
use automatic_ripping_machin.Notify.Outbox.{
  is_in_flight, among, select_due, mark_in_flight, is_stale, rescue, dequeue_due,
  reap_stale_in_flight, cleanup_completed,
}
use automatic_ripping_machin.Notify.Dispatcher.{
  World, batch_size, process_one_row, process_batch, tick, start,
}
use automatic_ripping_machin.Notify.Dispatcher.Outcome.{Settles, process_one_row-Settles}

-- Nothing is in flight.
abbrev pub AllLanded : Store → Type 0
AllLanded s = All (λ r. is_in_flight r.status ≡ false) s.outbox

-- A row in flight is still to be processed, or its commit fails.
abbrev Awaiting : (ℕ → Bool) → List OutboxRow → Store → Type 0
Awaiting commits rows s =
    All (λ r. is_in_flight r.status ≡ true → (among rows r ≡ true) ⊎ (commits r.id ≡ false))
      s.outbox

-- A property of every row after a call that commits, from what the call does to a row.
settled-All :
    (P : OutboxRow → Type 0) (Q : OutboxRow → Type 0) (i : ℕ) (s t : Store)
    → (e : Settles i s t) → ((r : OutboxRow) → has_id i r ≡ true → P r → Q (e.update r))
    → ((r : OutboxRow) → has_id i r ≡ false → P r → Q r)
    → All P s.outbox
    → All Q t.outbox
settled-All P Q i s t e hit miss h = rw e.outbox (over s.outbox h)
  where
    over : (rs : List OutboxRow) → All P rs → All Q (map_if (has_id i) e.update rs)
    over [] k = tt
    over (r ∷ rs) k = (if_ind Q (has_id i r) (λ b. hit r b k.0) (λ b. miss r b k.0), over rs k.1)

module _ (w : World) (commits : ℕ → Bool) (clock : ℕ → ℕ) where
  same_id : (b r : OutboxRow) → (b.id == r.id) ≡ true → commits b.id ≡ false → commits r.id ≡ false
  same_id b r h k = subst (λ i. commits i ≡ false) ((==_iff b.id r.id).0 h) k

  still_awaiting :
      (b : OutboxRow) (rows : List OutboxRow) (r : OutboxRow)
      → has_id b.id r ≡ false
      → (among (b ∷ rows) r ≡ true) ⊎ (commits r.id ≡ false)
      → (among rows r ≡ true) ⊎ (commits r.id ≡ false)
  still_awaiting b rows r h (inl k) = inl (ground arith)
  still_awaiting b rows r h (inr k) = inr k

  skipped :
      (b : OutboxRow) (rows : List OutboxRow) (r : OutboxRow)
      → commits b.id ≡ false
      → (among (b ∷ rows) r ≡ true) ⊎ (commits r.id ≡ false)
      → (among rows r ≡ true) ⊎ (commits r.id ≡ false)
  skipped b rows r e (inr k) = inr k
  skipped b rows r e (inl k) = elim (Bool-cases (has_id r.id b)) [
    | inl h ↦ inr (same_id b r h e)
    | inr h ↦ inl (ground arith)
  ]

  process-Awaiting :
      (b : OutboxRow) (rows : List OutboxRow) (s : Store)
      → Awaiting commits (b ∷ rows) s
      → Awaiting commits rows (process_one_row w (commits b.id) (clock b.id) b.id s)
  process-Awaiting b rows s h = elim (Bool-cases (commits b.id)) [
    | inl e ↦
        let done = process_one_row-Settles w b.id (clock b.id) s in
        rw e (
          settled-All _ _ b.id s _ done
            (λ r _ _ flies. elim (false≢true (sym (done.landed r) ∙ flies)) [ ])
            (λ r other k flies. still_awaiting b rows r other (k flies)) h)
    | inr e ↦ rw e (
        unfold process_one_row in
        All-mono _ _ s.outbox (λ r k flies. skipped b rows r e (k flies)) h)
  ]

  batch-Awaiting :
      (rows : List OutboxRow) (s : Store)
      → Awaiting commits rows s
      → Awaiting commits [] (process_batch w commits clock rows s)
  unfolding process_batch
  batch-Awaiting [] s h = h
  batch-Awaiting (b ∷ rows) s h =
      batch-Awaiting rows (process_one_row w (commits b.id) (clock b.id) b.id s)
        (process-Awaiting b rows s h)

  dequeue-Awaiting :
      (limit now : ℕ) (s : Store)
      → AllLanded s
      → Awaiting commits (dequeue_due limit now s).1 (dequeue_due limit now s).0
  unfolding dequeue_due
  dequeue-Awaiting limit now s h = over s.outbox h
    where
      over :
          (rs : List OutboxRow)
          → All (λ r. is_in_flight r.status ≡ false) rs
          → All
              (λ r.
                is_in_flight r.status ≡ true
                → (among (select_due limit now s.outbox) r ≡ true) ⊎ (commits r.id ≡ false))
              (map_if (among (select_due limit now s.outbox)) (mark_in_flight now) rs)
      over [] k = tt
      over (r ∷ rs) k = (
        if_ind
            (λ x.
              is_in_flight x.status ≡ true
              → (among (select_due limit now s.outbox) x ≡ true) ⊎ (commits x.id ≡ false))
            (among (select_due limit now s.outbox) r) (λ b _. inl b)
            (λ _ flies. elim (false≢true (sym k.0 ∙ flies)) [ ]),
        over rs k.1,
      )

  only_failed :
      (s : Store)
      → Awaiting commits [] s
      → All (λ r. is_in_flight r.status ≡ true → commits r.id ≡ false) s.outbox
  only_failed s h =
      All-mono _ _ s.outbox
        (λ r k flies. elim (k flies) [ inl e ↦ elim (false≢true e) [ ] | inr e ↦ e ]) h

  -- When nothing is in flight before a pass of the worker's loop, the rows that are in flight after
  -- it are those whose commit failed: every other row that was taken was delivered, given up or
  -- scheduled again, whatever its channel, its event and its sender did.
  pub tick_lands :
      (now : ℕ) (sweeps : Bool) (later : ℕ) (s : Store)
      → AllLanded s
      → All
          (λ r. is_in_flight r.status ≡ true → commits r.id ≡ false)
          (tick w commits clock now sweeps later s).outbox
  unfolding tick cleanup_completed
  tick_lands now sweeps later s h =
      let taken = dequeue_due batch_size now s in
      let sent = process_batch w commits clock taken.1 taken.0 in
      let done =
        only_failed sent (batch-Awaiting taken.1 taken.0 (dequeue-Awaiting batch_size now s h)) in
      if_ind
        (λ (t : Store). All (λ r. is_in_flight r.status ≡ true → commits r.id ≡ false) t.outbox)
        sweeps (λ _. All-keep _ _ _ done) (λ _. done)

-- A row in flight is pending again, at the clock reading that it gets; another is as it was.
abbrev pub woken : (ℕ → ℕ) → OutboxRow → OutboxRow
woken later r = elim r.status [
  | in_flight ↦ record r { status = pending; next_attempt_at = later r.id }
  | _ ↦ r
]

-- After a crash that left rows in flight, marked at `marked` or before: a start of the worker at a
-- clock more than five minutes later leaves nothing in flight. It makes the rows that were in
-- flight pending, at the clock readings that they get, and changes nothing else of the outbox.
pub start_lands :
    (marked now : ℕ) (later : ℕ → ℕ) (s : Store)
    → All (λ r. is_in_flight r.status ≡ true → r.next_attempt_at ≤ marked) s.outbox
    → marked + 300 < now
    → AllLanded (start now later s) × ((start now later s).outbox ≡ map (woken later) s.outbox)
unfolding start reap_stale_in_flight
start_lands marked now later s h late = (
  subst (λ rs. All (λ r. is_in_flight r.status ≡ false) rs) (sym (each s.outbox h))
      (All-map _ (woken later) s.outbox (All-every _ s.outbox landed)),
  each s.outbox h,
)
  where
    landed : (r : OutboxRow) → is_in_flight (woken later r).status ≡ false
    landed r = ground arith

    one :
        (r : OutboxRow)
        → (is_in_flight r.status ≡ true → r.next_attempt_at ≤ marked)
        → (if is_stale (now - 300) r then rescue (later r.id) r else r) ≡ woken later r
    one r k = ground arith

    each :
        (rs : List OutboxRow)
        → All (λ r. is_in_flight r.status ≡ true → r.next_attempt_at ≤ marked) rs
        → map_if (is_stale (now - 300)) (λ r. rescue (later r.id) r) rs ≡ map (woken later) rs
    each [] k = refl
    each (r ∷ rs) k = ap₂ (λ x xs. x ∷ xs) (one r k.0) (each rs k.1)

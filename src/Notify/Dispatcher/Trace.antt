-- ===== src/Notify/Dispatcher/Trace.antt =====
-- The worker's loop as a run of the outbox's step relation.
use automatic_ripping_machin.Common.{
  map_if, All, All-mono, All-zip, ◌==◌, Bool-cases, if_ind, ℕ, ◌≡◌, refl, sym, ◌∙◌, inl, inr, Bool,
  true, false, or-true, false≢true, List, [], ◌∷◌, arith,
}
use automatic_ripping_machin.Notify.{OutboxRow, Store, has_id}
use automatic_ripping_machin.Notify.Outbox.{
  is_in_flight, among, select_due, mark_in_flight, dequeue_due,
}
use automatic_ripping_machin.Notify.Rows.{Distinct, select_due-Distinct}
use automatic_ripping_machin.Notify.Dispatcher.{
  World, batch_size, cleanup_retention_days, process_one_row, process_batch, tick,
}
use automatic_ripping_machin.Notify.Dispatcher.Outcome.{process_one_row-Settles}
use automatic_ripping_machin.Notify.Dispatcher.Bounded.{
  InFlight, Reach, here, next, dequeue, process, sweep,
}

-- Every stored row with the id of one of these is in flight.
abbrev Taken : List OutboxRow → Store → Type 0
Taken rows s = All (λ (b : OutboxRow). InFlight b.id s) rows

module _ (w : World) (commits : ℕ → Bool) (clock : ℕ → ℕ) where
  Reach-trans : {s t u : Store} → Reach w s t → Reach w t u → Reach w s u
  Reach-trans p here = p
  Reach-trans p (next q step) = next (Reach-trans p q) step

  other_untouched :
      (i j : ℕ) (f : OutboxRow → OutboxRow) (rs : List OutboxRow)
      → ((r : OutboxRow) → (f r).id ≡ r.id)
      → (j == i) ≡ false
      → All (λ r. has_id j r ≡ true → is_in_flight r.status ≡ true) rs
      → All (λ r. has_id j r ≡ true → is_in_flight r.status ≡ true) (map_if (has_id i) f rs)
  other_untouched i j f [] same ne h = tt
  other_untouched i j f (r ∷ rs) same ne h = (
    if_ind (λ (x : OutboxRow). has_id j x ≡ true → is_in_flight x.status ≡ true) (has_id i r)
        (λ a b. elim (false≢true (ground (arith, same r))) [ ]) (λ _. h.0),
    other_untouched i j f rs same ne h.1,
  )

  process-Taken :
      (b : OutboxRow) (rows : List OutboxRow) (s : Store)
      → All (λ x. (x.id == b.id) ≡ false) rows
      → Taken rows s
      → Taken rows (process_one_row w (commits b.id) (clock b.id) b.id s)
  process-Taken b rows s ne h = elim (Bool-cases (commits b.id)) [
    | inl e ↦
        let done = process_one_row-Settles w b.id (clock b.id) s in
        rw e (
          All-mono _ _ rows
            (λ x k.
              rw done.outbox (other_untouched b.id x.id done.update s.outbox done.same_id k.0 k.1))
            (All-zip _ _ rows ne h))
    | inr e ↦ rw e (unfold process_one_row in h)
  ]

  batch-Reach :
      (rows : List OutboxRow) (s : Store)
      → Distinct rows
      → Taken rows s
      → Reach w s (process_batch w commits clock rows s)
  unfolding process_batch
  batch-Reach [] s d h = here
  batch-Reach (b ∷ rows) s d h =
      Reach-trans (next here (process (commits b.id) (clock b.id) b.id s h.0)) (
        batch-Reach rows (process_one_row w (commits b.id) (clock b.id) b.id s) d.1
          (process-Taken b rows s d.0 h.1))

  marked_in_flight :
      (chosen : List OutboxRow) (i now : ℕ) (rs : List OutboxRow)
      → ((r : OutboxRow) → has_id i r ≡ true → among chosen r ≡ true)
      → All
          (λ r. has_id i r ≡ true → is_in_flight r.status ≡ true)
          (map_if (among chosen) (mark_in_flight now) rs)
  marked_in_flight chosen i now [] h = tt
  marked_in_flight chosen i now (r ∷ rs) h = (
    if_ind (λ (x : OutboxRow). has_id i x ≡ true → is_in_flight x.status ≡ true) (among chosen r)
        (λ _ _. refl) (λ b k. elim (false≢true (sym b ∙ h r k)) [ ]),
    marked_in_flight chosen i now rs h,
  )

  chosen_among :
      (rows : List OutboxRow)
      → All (λ b. (r : OutboxRow) → has_id b.id r ≡ true → among rows r ≡ true) rows
  chosen_among [] = tt
  chosen_among (b ∷ rows) = (
    λ r h. ground arith,
    All-mono _ _ rows (λ x k r h. rw (k r h) (or-true _)) (chosen_among rows),
  )

  dequeue-Taken :
      (limit now : ℕ) (s : Store) → Taken (dequeue_due limit now s).1 (dequeue_due limit now s).0
  unfolding dequeue_due
  dequeue-Taken limit now s =
      let chosen = select_due limit now s.outbox in
      All-mono _ _ chosen (λ b k. marked_in_flight chosen b.id now s.outbox k) (chosen_among chosen)

  dequeue-Distinct :
      (limit now : ℕ) (s : Store) → Distinct s.outbox → Distinct (dequeue_due limit now s).1
  unfolding dequeue_due
  dequeue-Distinct limit now s d = select_due-Distinct limit now s.outbox d

  -- Where the ids of the outbox are distinct, one pass of the worker's loop is a run of the step
  -- relation: each row it sends is in flight when it is sent.
  pub tick-Reach :
      (now : ℕ) (sweeps : Bool) (later : ℕ) (s : Store)
      → Distinct s.outbox
      → Reach w s (tick w commits clock now sweeps later s)
  unfolding tick
  tick-Reach now sweeps later s d =
      let taken = dequeue_due batch_size now s in
      let sent = process_batch w commits clock taken.1 taken.0 in
      let run : Reach w s sent = Reach-trans (next here (dequeue batch_size now s)) (
        batch-Reach taken.1 taken.0 (dequeue-Distinct batch_size now s d)
          (dequeue-Taken batch_size now s)) in
      if_ind (Reach w s) sweeps (λ _. next run (sweep cleanup_retention_days later sent)) (λ _. run)

-- ===== src/Notify/Publish/Delivery.antt =====
-- What `publish_event` writes.
use automatic_ripping_machin.Common.{
  length, keep, All, Bool-cases, ℕ, suc, ◌+◌, String, ◌≡◌, refl, inl, inr, Bool, ◌&&◌, none, some,
  List, [], ◌∷◌, ◌++◌, map, arith,
}
use automatic_ripping_machin.Notify.{Channel, pending, OutboxRow, Store}
use automatic_ripping_machin.Notify.Rows.{Numbered}
use automatic_ripping_machin.Notify.Publish.{
  Events, rendered, render_title_and_body, has_key, enqueue, publish_event,
}

-- `enabled` and subscribed to the event.
abbrev pub wants : (e : Events) → e.Event → Channel → Bool
wants e event c = c.enabled && has_key (e.event_key event) c.subscribed_events

-- A new row of the outbox: never tried, due at once.
pub record IsFresh (now : ℕ) (e : Events) (event : e.Event) (r : OutboxRow) : Type 0 where
  pub status : r.status ≡ pending
  pub attempts : r.attempts ≡ 0
  pub next_attempt_at : r.next_attempt_at ≡ now
  pub completed_at : r.completed_at ≡ none
  pub event_key : r.event_key ≡ e.event_key event
  pub event_payload : r.event_payload ≡ e.dump event

abbrev channel_ids : List OutboxRow → List ℕ
channel_ids rows = map (λ (r : OutboxRow). r.channel_id) rows

abbrev ids : List Channel → List ℕ
ids chs = map (λ (c : Channel). c.id) chs

module _ (e : Events) (event : e.Event) (now : ℕ) where
  pub enqueue-IsFresh :
      (chs : List Channel) (n : ℕ) → All (IsFresh now e event) (enqueue e event now chs n)
  unfolding enqueue
  enqueue-IsFresh [] n = tt
  enqueue-IsFresh (c ∷ chs) n =
      elim (Bool-cases (has_key (e.event_key event) c.subscribed_events)) [
        | inl h ↦ rw h (
          record {
            status = refl;
            attempts = refl;
            next_attempt_at = refl;
            completed_at = refl;
            event_key = refl;
            event_payload = refl;
          },
          enqueue-IsFresh chs (suc n),
        )
        | inr h ↦ rw h (enqueue-IsFresh chs n)
      ]

  pub enqueue-Numbered : (chs : List Channel) (n : ℕ) → Numbered n (enqueue e event now chs n)
  unfolding enqueue
  enqueue-Numbered [] n = tt
  enqueue-Numbered (c ∷ chs) n =
      elim (Bool-cases (has_key (e.event_key event) c.subscribed_events)) [
        | inl h ↦ rw h (refl, enqueue-Numbered chs (suc n))
        | inr h ↦ rw h (enqueue-Numbered chs n)
      ]

  enqueue-channels :
      (chs : List Channel) (n : ℕ)
      → channel_ids (enqueue e event now (keep (λ c. c.enabled) chs) n)
        ≡ ids (keep (wants e event) chs)
  unfolding enqueue
  enqueue-channels [] n = refl
  enqueue-channels (c ∷ chs) n =
      ground (arith, enqueue-channels chs n, enqueue-channels chs (suc n))

  -- Publishing an event whose default texts render appends one line to the history and, to the
  -- outbox, one row for each channel that is enabled and subscribed, in their order, and no other
  -- row: each is pending, untried and due at once, carries the event, and has a new id. The
  -- channels and the rows that were there are left alone.
  pub publish_event_delivery :
      (s : Store) (title body : String)
      → render_title_and_body e event none ≡ rendered title body
      → (rows : List OutboxRow) × (t : Store) × (publish_event e event now s ≡ some t)
        × (t.outbox ≡ s.outbox ++ rows)
        × (t.history ≡ s.history ++ record { title = title; message = body } ∷ [])
        × (t.channels ≡ s.channels)
        × (t.next_id ≡ s.next_id + length rows)
        × (channel_ids rows ≡ ids (keep (wants e event) s.channels))
        × All (IsFresh now e event) rows
        × Numbered s.next_id rows
  unfolding publish_event
  publish_event_delivery s title body h =
      let chs = keep (λ (c : Channel). c.enabled) s.channels in
      let rows = enqueue e event now chs s.next_id in
      (
        rows,
        record s {
          outbox = s.outbox ++ rows;
          history = s.history ++ record { title = title; message = body } ∷ [];
          next_id = s.next_id + length rows;
        },
        rw h refl,
        refl,
        refl,
        refl,
        refl,
        enqueue-channels s.channels s.next_id,
        enqueue-IsFresh chs s.next_id,
        enqueue-Numbered chs s.next_id,
      )

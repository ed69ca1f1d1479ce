-- ===== src/Notify/Publish.antt =====
-- arm/notifications/templates.py and events.py: rendering an event and enqueueing it.
pub mod Delivery
use automatic_ripping_machin.Common.{
  length, keep, any, ◌==◌, if◌then◌else◌, str_eq, is_empty, ℕ, suc, ◌+◌, ◌-◌, ◌*◌, ◌/◌, ◌%◌, ◌^◌,
  ◌≤◌, ◌<◌, String, ◌≡◌, ◌∙◌, ◌≡⟨◌⟩◌, ◌∎, ◌≢◌, ◌↔◌, ◌⊎◌, Bool, ◌&&◌, ◌||◌, Option, none, some, List,
  [], ◌∷◌, ◌++◌,
}
use automatic_ripping_machin.Notify.{
  Payload, Template, Channel, pending, OutboxRow, HistoryEntry, Store,
}

-- What `str.format_map` gives: a text, a missing key, or another exception.
pub data Formatted : Type 0 where
  text : String → Formatted
  key_error : String → Formatted
  other_error : String → Formatted

-- The contracts' events (a submodule) and `str.format_map`, as far as they are used.
pub record Events : Type 1 where
  pub Event : Type 0
  pub event_key : Event → String
  pub dump : Event → Payload
  -- `TypeAdapter(NotificationEvent).validate_python`: the event, or the text of what it raises
  pub validate : Payload → Event ⊎ String
  pub format_map : String → Event → Formatted

-- `_DEFAULTS`.
unfoldable pub default_templates : String → Option (String × String)
default_templates key =
    if str_eq key "job.started"
    then some
        ("ARM started: {job_title}", "Job {job_id} started ripping {job_title} ({job_disc_type}).")
    else if str_eq key "job.rip_complete"
    then some (
      "Rip complete: {job_title}",
      "Job {job_id} rip finished in {rip_duration_seconds}s, {track_count} tracks.",
    )
    else if str_eq key "job.transcode_complete"
    then some (
      "Transcode complete: {job_title}",
      "Job {job_id} transcode finished in {transcode_duration_seconds}s. Output: {output_path}",
    )
    else if str_eq key "job.failed"
    then some ("ARM job failed: {job_title}", "Job {job_id} failed during {phase}: {error_message}")
    else if str_eq key "job.manual_wait_required"
    then some (
      "ARM waiting: {job_title}",
      "Job {job_id} is waiting for manual input ({reason}). {wait_minutes_remaining} minutes remaining.",
    )
    else if str_eq key "job.duplicate_detected"
    then some (
      "Duplicate detected: {job_title}", "Job {job_id} duplicates existing job {existing_job_id}.",
    )
    else none

pub data Rendered : Type 0 where
  rendered : (title body : String) → Rendered
  template_error : String → Rendered
  render_raised : String → Rendered

-- A field of the channel's template, unless it is absent or empty.
abbrev override : Option String → String → String
override none d = d
override (some t) d = if is_empty t then d else t

abbrev title_of : Option Template → String → String
title_of none d = d
title_of (some t) d = override t.title d

abbrev body_of : Option Template → String → String
body_of none d = d
body_of (some t) d = override t.body d

abbrev pub has_key : String → List String → Bool
has_key k keys = any (str_eq k) keys

module _ (e : Events) where
  open e use {Event, event_key, dump, format_map}

  render_body : String → Formatted → Rendered
  render_body title (text body) = rendered title body
  render_body title (key_error k) = template_error k
  render_body title (other_error x) = render_raised x

  render_both : Formatted → Formatted → Rendered
  unfolding render_body
  render_both (text title) body = render_body title body
  render_both (key_error k) body = template_error k
  render_both (other_error x) body = render_raised x

  render_from : Event → Option Template → Option (String × String) → Rendered
  unfolding render_both
  render_from event channel_template none = render_raised (event_key event)
  render_from event channel_template (some (title, body)) =
      render_both (format_map (title_of channel_template title) event)
        (format_map (body_of channel_template body) event)

  unfoldable pub render_title_and_body : Event → Option Template → Rendered
  unfolding render_from default_templates
  render_title_and_body event channel_template =
      render_from event channel_template (default_templates (event_key event))

  -- The loop of `publish_event` over the enabled channels.
  pub enqueue : Event → ℕ → List Channel → ℕ → List OutboxRow
  enqueue event now [] next_id = []
  enqueue event now (ch ∷ chs) next_id =
      let row : OutboxRow = record {
        id = next_id;
        channel_id = ch.id;
        event_key = event_key event;
        event_payload = dump event;
        status = pending;
        attempts = 0;
        next_attempt_at = now;
        last_error = none;
        completed_at = none;
      } in
      let taken = row ∷ enqueue event now chs (suc next_id) in
      let passed = enqueue event now chs next_id in
      if has_key (event_key event) ch.subscribed_events then taken else passed

  publish_rendered : Event → ℕ → Rendered → Store → Option Store
  unfolding enqueue
  publish_rendered event now (rendered title body) s =
      let rows = enqueue event now (keep (λ c. c.enabled) s.channels) s.next_id in
      some (record s {
        outbox = s.outbox ++ rows;
        history = s.history ++ record { title = title; message = body } ∷ [];
        next_id = s.next_id + length rows;
      })
  publish_rendered event now _ s = none

  -- `none` when the event cannot be rendered: nothing is written then.
  unfoldable pub publish_event : Event → ℕ → Store → Option Store
  unfolding publish_rendered
  publish_event event now s = publish_rendered event now (render_title_and_body event none) s

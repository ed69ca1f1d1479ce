-- ===== src/Notify/Dispatcher.antt =====
-- arm/notifications/dispatcher.py: the worker that drains the outbox.
pub mod Bounded
pub mod Outcome
pub mod Drain
pub mod Trace
use automatic_ripping_machin.Common.{
  find, any, ◌==◌, if◌then◌else◌, is_some, or_else, str_eq, is_empty, cat, ℕ, ◌+◌, ◌-◌, ◌*◌, ◌/◌,
  ◌%◌, ◌^◌, ◌≤◌, ◌<◌, String, ◌≡◌, ◌∙◌, ◌≡⟨◌⟩◌, ◌∎, ◌≢◌, ◌↔◌, ◌⊎◌, inl, inr, Bool, true, false,
  ◌&&◌, ◌||◌, Option, none, some, List, [], ◌∷◌, ◌++◌,
}
use automatic_ripping_machin.Notify.{
  Json, null, text, number, boolean, nested, Payload, Template, Channel, OutboxRow, Store, has_id,
}
use automatic_ripping_machin.Notify.Outbox.{
  record_success, record_failure, dequeue_due, reap_stale_in_flight, cleanup_completed, is_channel,
}
use automatic_ripping_machin.Notify.Channels.{
  Outside, Attempt, returned, raised_template, raised, send_apprise, send_webhook, send_bash,
  parse_terminal_flag, set_key,
}
use automatic_ripping_machin.Notify.Publish
use automatic_ripping_machin.Notify.Publish.{
  Events, Rendered, rendered, template_error, render_raised, render_title_and_body,
}

abbrev pub batch_size : ℕ
batch_size = 20

abbrev cleanup_retention_days : ℕ
cleanup_retention_days = 7

get_key : String → List (String × String) → Option String
get_key k [] = none
get_key k ((j, v) ∷ m) = if str_eq j k then some v else get_key k m

get_json : String → Payload → Option Json
get_json k [] = none
get_json k ((j, v) ∷ m) = if str_eq j k then some v else get_json k m

get_template : String → List (String × Template) → Option Template
get_template k [] = none
get_template k ((j, v) ∷ m) = if str_eq j k then some v else get_template k m

abbrev bool_text : Bool → String
bool_text true = "True"
bool_text false = "False"

-- `str(v)` of a scalar.
abbrev scalar_text : Json → Option String
scalar_text (text s) = some s
scalar_text (number s) = some s
scalar_text (boolean b) = some (bool_text b)
scalar_text _ = none

-- `str(payload.get(k, ""))`.
raw_text : Option Json → String
raw_text none = ""
raw_text (some null) = "None"
raw_text (some (text s)) = s
raw_text (some (number s)) = s
raw_text (some (boolean b)) = bool_text b
raw_text (some (nested s)) = s

abbrev is_blank : String → Bool
is_blank s = str_eq s "" || str_eq s "0" || str_eq s "0.0" || str_eq s "[]" || str_eq s "{}"

-- `str(payload.get(k) or "")`.
or_blank : Option Json → String
unfolding raw_text
or_blank (some null) = ""
or_blank (some (boolean false)) = ""
or_blank (some (text s)) = s
or_blank v = if is_blank (raw_text v) then "" else raw_text v

explicit_payload_keys : List String
explicit_payload_keys = "event_key" ∷ "job_id" ∷ "job_title" ∷ "job_disc_type" ∷ "job_imdb_id" ∷ []

-- The loop that passes the other scalars through, over the environment built so far.
pass_through : (String → String) → Payload → List (String × String) → List (String × String)
unfolding explicit_payload_keys get_key
pass_through upper [] env = env
pass_through upper ((k, v) ∷ more) env = pass_through upper more (
    if is_some (get_key k env) || any (str_eq k) explicit_payload_keys
    then env
    else elim (scalar_text v) [ none ↦ env | some t ↦ set_key (cat ("ARM_" ∷ upper k ∷ [])) t env ])

unfoldable pub build_bash_env :
    (String → String) → Payload → String → String → List (String × String)
unfolding pass_through raw_text or_blank get_json
build_bash_env upper payload title body = pass_through upper payload (
    ("ARM_EVENT_KEY", raw_text (get_json "event_key" payload))
    ∷ ("ARM_JOB_ID", raw_text (get_json "job_id" payload))
    ∷ ("ARM_TITLE", title)
    ∷ ("ARM_BODY", body)
    ∷ ("ARM_JOB_TITLE", or_blank (get_json "job_title" payload))
    ∷ ("ARM_JOB_DISC_TYPE", or_blank (get_json "job_disc_type" payload))
    ∷ ("ARM_JOB_IMDB_ID", or_blank (get_json "job_imdb_id" payload))
    ∷ [])

abbrev known_kind : String → Bool
known_kind k = str_eq k "apprise" || str_eq k "webhook" || str_eq k "bash"

-- The senders, the events, `str.upper`, and the JSON body of a webhook
-- (`OutboundWebhookPayload` of the contracts) or the text of the exception that making it raises.
pub record World : Type 1 where
  pub outside : Outside
  pub events : Events
  pub upper : String → String
  pub webhook_body : events.Event → String → String → Channel → String ⊎ String

module _ (w : World) where
  open w use {outside, events, upper, webhook_body}

  post_body : Channel → String ⊎ String → Attempt
  unfolding get_key
  post_body ch (inr exc) = raised exc
  post_body ch (inl body) =
      (send_webhook outside (or_else (get_key "url" ch.config) "") body
        (get_key "shared_secret" ch.config) ch.headers).0

  send_rendered : Channel → events.Event → Rendered → Attempt
  unfolding get_key post_body
  send_rendered ch event (template_error e) = raised_template e
  send_rendered ch event (render_raised e) = raised e
  send_rendered ch event (rendered title body) =
      if str_eq ch.kind "apprise"
      then send_apprise outside (or_else (get_key "url" ch.config) "") title body
      else if str_eq ch.kind "webhook"
      then post_body ch (webhook_body event title body ch)
      else if str_eq ch.kind "bash"
      then send_bash outside (or_else (get_key "script_path" ch.config) "") title body
          (build_bash_env upper (events.dump event) title body)
      else returned false (some (cat ("unknown channel type: " ∷ ch.kind ∷ [])))

  unfoldable pub render_and_send : Channel → events.Event → Attempt
  unfolding send_rendered get_template
  render_and_send ch event =
      send_rendered ch event
        (render_title_and_body events event (get_template (events.event_key event) ch.templates))

  -- `error or d`.
  abbrev text_or : Option String → String → String
  text_or none d = d
  text_or (some e) d = if is_empty e then d else e

  finish : ℕ → ℕ → Channel → Attempt → Store → Store
  finish i now ch (raised_template e) s =
      record_failure i (cat ("template render: " ∷ e ∷ [])) true now s
  finish i now ch (raised e) s = record_failure i (cat ("sender raised: " ∷ e ∷ [])) false now s
  finish i now ch (returned true error) s = record_success i now s
  finish i now ch (returned false error) s =
      record_failure i (text_or error "send failed")
        (if str_eq ch.kind "bash" then true else parse_terminal_flag (text_or error "")) now s

  attempt_event : ℕ → ℕ → Channel → events.Event ⊎ String → Store → Store
  unfolding finish
  attempt_event i now ch (inr exc) s =
      record_failure i (cat ("event reconstruction: " ∷ exc ∷ [])) true now s
  attempt_event i now ch (inl event) s =
      if known_kind ch.kind
      then finish i now ch (render_and_send ch event) s
      else record_failure i (cat ("unknown channel type: " ∷ ch.kind ∷ [])) true now s

  attempt_channel : ℕ → ℕ → OutboxRow → Option Channel → Store → Store
  unfolding attempt_event
  attempt_channel i now row none s = record_failure i "channel vanished" true now s
  attempt_channel i now row (some ch) s =
      if ch.enabled
      then attempt_event i now ch (events.validate row.event_payload) s
      else record_failure i "channel disabled" true now s

  attempt_row : ℕ → ℕ → Option OutboxRow → Store → Store
  unfolding attempt_channel
  attempt_row i now none s = s
  attempt_row i now (some row) s =
      attempt_channel i now row (find (is_channel row.channel_id) s.channels) s

  -- `commits` tells whether the one commit of the call succeeds. If it raises, the safety net
  -- swallows the exception and the stored rows are as they were.
  unfoldable pub process_one_row : Bool → ℕ → ℕ → Store → Store
  unfolding attempt_row
  process_one_row commits now i s =
      if commits then attempt_row i now (find (has_id i) s.outbox) s else s

  -- The rows of one batch, each with its clock reading and whether its commit succeeds.
  unfoldable pub process_batch : (ℕ → Bool) → (ℕ → ℕ) → List OutboxRow → Store → Store
  process_batch commits clock [] s = s
  process_batch commits clock (r ∷ rows) s =
      process_batch commits clock rows (process_one_row (commits r.id) (clock r.id) r.id s)

  -- One pass of the loop of `run_dispatcher_loop`. `sweeps` tells whether the sweep is due.
  unfoldable pub tick : (ℕ → Bool) → (ℕ → ℕ) → ℕ → Bool → ℕ → Store → Store
  unfolding process_batch
  tick commits clock now sweeps later s =
      let (taken, rows) = dequeue_due batch_size now s in
      let sent = process_batch commits clock rows taken in
      if sweeps then (cleanup_completed cleanup_retention_days later sent).0 else sent

-- Start: stale rows are rescued before the first pass.
unfoldable pub start : ℕ → (ℕ → ℕ) → Store → Store
start now later s = (reap_stale_in_flight 5 now later s).0

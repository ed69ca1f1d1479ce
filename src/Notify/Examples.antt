-- ===== src/Notify/Examples.antt =====
-- Runs of the notification code on a small store, with senders that answer fixed replies.
use automatic_ripping_machin.Common.{
  keep, find, All, ◌==◌, contains, truncate, cat, show, ℕ, ◌*◌, ◌^◌, ◌≤◌, ◌<◌, String, ◌≡◌, refl,
  ◌⊎◌, inl, inr, true, false, false≢true, none, some, List, [], ◌∷◌, ◌++◌, map, arith,
}
use automatic_ripping_machin.Notify.{
  text, Payload, Channel, pending, in_flight, failed, OutboxRow, Store, has_id,
}
use automatic_ripping_machin.Notify.Outbox.{
  max_attempts, backoff_seconds, is_in_flight, select_due, fail_row, record_failure,
}
use automatic_ripping_machin.Notify.Outbox.Backoff.{
  GivenUp, Retried, fail_all, backoff_schedule, record_failure_outcome, retry_limit,
}
use automatic_ripping_machin.Notify.Outbox.Queue.{has_come, IsFront, select_due-IsFront}
use automatic_ripping_machin.Notify.Channels.{
  Outside, IpAddress, answered, notified, exited, addresses, is_terminal_status,
  parse_terminal_flag, send_webhook,
}
use automatic_ripping_machin.Notify.Channels.Guarded.{PostsSafely, send_webhook_guarded}
use automatic_ripping_machin.Notify.Publish
use automatic_ripping_machin.Notify.Publish.{
  Events, Formatted, rendered, render_title_and_body, publish_event,
}
use automatic_ripping_machin.Notify.Publish.Delivery.{publish_event_delivery}
use automatic_ripping_machin.Notify.Dispatcher.{
  World, render_and_send, process_one_row, tick, start,
}
use automatic_ripping_machin.Notify.Dispatcher.Outcome.{IsSound, Settles, process_one_row-Settles}
use automatic_ripping_machin.Notify.Dispatcher.Bounded.{Reach, IsWellFormed, Reach-IsWellFormed}
use automatic_ripping_machin.Notify.Dispatcher.Drain.{AllLanded, tick_lands, start_lands}
use automatic_ripping_machin.Notify.Dispatcher.Trace.{tick-Reach}

-- An event is the title of the job that started.
read_title : Payload → String ⊎ String
read_title (_ ∷ (_, text title) ∷ []) = inl title
read_title _ = inr "no title"

abbrev events : Events
events = record {
  Event = String;
  event_key = λ _. "job.started";
  dump = λ title. ("event_key", text "job.started") ∷ ("job_title", text title) ∷ [];
  validate = read_title;
  format_map = λ template _. Publish.text template;
}

abbrev public_address : IpAddress
public_address = record {
  is_private = false;
  is_loopback = false;
  is_link_local = false;
  is_reserved = false;
  is_multicast = false;
  is_unspecified = false;
}

abbrev outside : Outside
outside = record {
  urlparse = λ url. inl (record { scheme = "https"; hostname = url });
  resolve = λ _. addresses ("93.184.216.34" ∷ []);
  ip_address = λ _. public_address;
  lower = λ s. s;
  hmac_sha256 = λ secret body. secret;
  post = λ _. answered 503 "down";
  apprise_add = λ _. true;
  apprise_notify = λ _ _ _. notified true;
  is_file = λ _. true;
  is_executable = λ _. true;
  run_script = λ _ _ _ _. exited 1 "boom";
}

abbrev world : World
world = record {
  outside = outside;
  events = events;
  upper = λ s. s;
  webhook_body = λ _ title _ _. inl title;
}

abbrev webhook_channel : Channel
webhook_channel = record {
  id = 1;
  kind = "webhook";
  name = "hook";
  enabled = true;
  config = ("url", "hooks.example") ∷ [];
  headers = [];
  subscribed_events = "job.started" ∷ [];
  templates = [];
  last_fired_at = none;
  last_success_at = none;
  last_error = none;
}

abbrev row : ℕ → ℕ → OutboxRow
row i at = record {
  id = i;
  channel_id = 1;
  event_key = "job.started";
  event_payload = ("event_key", text "job.started") ∷ ("job_title", text "Alien") ∷ [];
  status = pending;
  attempts = 3;
  next_attempt_at = at;
  last_error = none;
  completed_at = none;
}

abbrev flying : OutboxRow
flying = record (row 7 100) { status = in_flight }

abbrev store : Store
store = record {
  channels = webhook_channel ∷ record webhook_channel { id = 2; enabled = false } ∷ [];
  outbox = row 4 50 ∷ row 5 40 ∷ [];
  history = [];
  next_id = 6;
}

abbrev crashed : Store
crashed = record store { outbox = row 4 50 ∷ flying ∷ []; next_id = 8 }

row-IsSound : (i at : ℕ) → IsSound (row i at)
row-IsSound i at = record {
  tried = omega arith;
  active = λ _. (omega arith, refl);
  done = λ h. elim (false≢true h) [ ];
}

store-IsWellFormed : IsWellFormed store
store-IsWellFormed = record {
  sound = (row-IsSound 4 50, (row-IsSound 5 40, tt));
  below = (omega arith, (omega arith, tt));
  distinct = ((refl, tt), (tt, tt));
}

abbrev attempts_of : Store → List ℕ
attempts_of s = map (λ (r : OutboxRow). r.attempts) s.outbox

-- The webhook answers 503: the row is tried again 480 seconds later.
process_one_row_503 : attempts_of (process_one_row world true 100 4 store) ≡ 4 ∷ 3 ∷ []
unfolding process_one_row read_title render_and_send render_title_and_body send_webhook
    record_failure fail_row parse_terminal_flag contains cat show truncate is_terminal_status
process_one_row_503 = refl

backoff_schedule_example :
    (30 ≤ backoff_seconds 3)
    × (backoff_seconds 3 ≤ 3600)
    × (backoff_seconds 3 ≤ backoff_seconds 4)
    × (30 * 2 ^ 3 ≤ 3600 → backoff_seconds 3 ≡ 30 * 2 ^ 3)
backoff_schedule_example = backoff_schedule 3

record_failure_outcome_example :
    (r : OutboxRow) × (find (has_id 5) (record_failure 5 "timeout" false 100 store).outbox ≡ some r)
    × ((((false ≡ true) ⊎ (max_attempts ≤ 4)) × GivenUp 100 "timeout" (row 5 40) r)
        ⊎ ((false ≡ false) × (4 < max_attempts) × Retried 100 "timeout" (row 5 40) r))
record_failure_outcome_example = record_failure_outcome 5 100 "timeout" false store (row 5 40) refl

retry_limit_example :
    (fail_all ((100, "timeout") ∷ (600, "timeout") ∷ []) (row 5 40)).status ≡ failed
retry_limit_example =
    (retry_limit ((100, "timeout") ∷ (600, "timeout") ∷ []) (row 5 40) refl).1 refl (omega arith)

select_due-IsFront_example :
    IsFront 1 (keep (has_come 45) store.outbox) (select_due 1 45 store.outbox)
select_due-IsFront_example = select_due-IsFront 1 45 store.outbox

abbrev private_network : Outside
private_network = record outside { ip_address = λ _. record public_address { is_private = true } }

send_webhook_private : (send_webhook private_network "hooks.local" "{}" none []).1 ≡ []
unfolding send_webhook
send_webhook_private = refl

send_webhook_guarded_example :
    PostsSafely private_network "hooks.local" "{}"
      (send_webhook private_network "hooks.local" "{}" none [])
send_webhook_guarded_example = send_webhook_guarded private_network "hooks.local" "{}" none []

publish_event_delivery_example :
    (rows : List OutboxRow) × (t : Store) × (publish_event events "Alien" 100 store ≡ some t)
    × (t.outbox ≡ store.outbox ++ rows)
unfolding render_title_and_body
publish_event_delivery_example =
    let (rows, t, wrote, out, _, _, _, _, _, _) =
      publish_event_delivery events "Alien" 100 store "ARM started: {job_title}"
        "Job {job_id} started ripping {job_title} ({job_disc_type})." refl in
    (rows, t, wrote, out)

process_one_row-Settles_example : Settles 4 store (process_one_row world true 100 4 store)
process_one_row-Settles_example = process_one_row-Settles world 4 100 store

Reach-IsWellFormed_example : IsWellFormed (tick world (λ _. true) (λ _. 100) 99 true 200 store)
Reach-IsWellFormed_example =
    Reach-IsWellFormed world
      (tick-Reach world (λ _. true) (λ _. 100) 99 true 200 store store-IsWellFormed.distinct)
      store-IsWellFormed

tick-Reach_example : Reach world store (tick world (λ _. false) (λ _. 100) 99 false 200 store)
tick-Reach_example =
    tick-Reach world (λ _. false) (λ _. 100) 99 false 200 store store-IsWellFormed.distinct

tick_lands_example :
    All
      (λ r. is_in_flight r.status ≡ true → (r.id == 5) ≡ false)
      (tick world (λ i. i == 5) (λ _. 100) 99 true 200 store).outbox
tick_lands_example = tick_lands world (λ i. i == 5) (λ _. 100) 99 true 200 store (refl, (refl, tt))

start_lands_example : AllLanded (start 500 (λ _. 500) crashed)
start_lands_example =
    (start_lands 100 500 (λ _. 500) crashed (λ h. elim (false≢true h) [ ], ((λ _. omega arith), tt))
      (omega arith)).0

-- ===== src/Notify/Dispatcher/Bounded.antt =====
-- The outbox as a step relation: every order in which the producer, the worker, the reaper and the
-- sweep may run. The invariant of the rows holds in every reachable store.
use automatic_ripping_machin.Common.{
  length, map_if, All, All-append, All-keep, All-mono, All-every, if_ind, ℕ, ◌+◌, ◌-◌, ◌*◌, ◌<◌,
  String, ◌≡◌, refl, sym, ◌∙◌, subst, Bool, true, false, false≢true, none, some, List, [], ◌∷◌,
  ◌++◌, arith,
}
use automatic_ripping_machin.Notify.{OutboxRow, Store, has_id}
use automatic_ripping_machin.Notify.Outbox.{
  is_due, is_in_flight, is_completed, among, mark_in_flight, select_due, dequeue_due, is_stale,
  rescue, reap_stale_in_flight, cleanup_completed,
}
use automatic_ripping_machin.Notify.Publish.{rendered, render_title_and_body, publish_event}
use automatic_ripping_machin.Notify.Publish.Delivery.{IsFresh, publish_event_delivery}
use automatic_ripping_machin.Notify.Rows.{
  Numbered, selected_due, Distinct, Distinct-map_if, below-map_if, Distinct-keep, Distinct-append,
  below-Numbered,
}
use automatic_ripping_machin.Notify.Dispatcher.{World, process_one_row}
use automatic_ripping_machin.Notify.Dispatcher.Outcome.{IsSound, process_one_row-Settles}

-- Every stored row with this id is in flight.
abbrev pub InFlight : ℕ → Store → Type 0
InFlight i s = All (λ r. has_id i r ≡ true → is_in_flight r.status ≡ true) s.outbox

pub data Step (w : World) : Store → Store → Type 1 where
  publish :
      (event : w.events.Event) (now : ℕ) (title body : String) {s t : Store}
      → render_title_and_body w.events event none ≡ rendered title body
      → publish_event w.events event now s ≡ some t
      → Step w s t
  dequeue : (limit now : ℕ) (s : Store) → Step w s (dequeue_due limit now s).0
  process :
      (commits : Bool) (now i : ℕ) (s : Store)
      → InFlight i s
      → Step w s (process_one_row w commits now i s)
  reap :
      (minutes now : ℕ) (later : ℕ → ℕ) (s : Store)
      → Step w s (reap_stale_in_flight minutes now later s).0
  sweep : (days now : ℕ) (s : Store) → Step w s (cleanup_completed days now s).0

pub data Reach (w : World) (s : Store) : Store → Type 1 where
  here : Reach w s s
  next : {t u : Store} → Reach w s t → Step w t u → Reach w s u

pub record IsWellFormed (s : Store) : Type 0 where
  pub sound : All IsSound s.outbox
  pub below : All (λ r. r.id < s.next_id) s.outbox
  pub distinct : Distinct s.outbox

IsFresh-IsSound :
    (w : World) (event : w.events.Event) (now : ℕ) (r : OutboxRow)
    → IsFresh now w.events event r
    → IsSound r
IsFresh-IsSound w event now r h =
    let a = h.attempts in
    let c = h.completed_at in
    let p = h.status in
    record {
      tried = omega arith;
      active = λ _. (omega arith, c);
      done = λ d. elim (false≢true (rw p at d)) [ ];
    }

map_if-IsSound :
    (p : OutboxRow → Bool) (f : OutboxRow → OutboxRow) (rs : List OutboxRow)
    → All (λ r. p r ≡ true → IsSound r → IsSound (f r)) rs
    → All IsSound rs
    → All IsSound (map_if p f rs)
map_if-IsSound p f [] ok h = tt
map_if-IsSound p f (r ∷ rs) ok h =
    (if_ind IsSound (p r) (λ e. ok.0 e h.0) (λ _. h.0), map_if-IsSound p f rs ok.1 h.1)

-- A rewrite of some rows that keeps their ids keeps the store well formed.
rewrite-IsWellFormed :
    (p : OutboxRow → Bool) (f : OutboxRow → OutboxRow) (s t : Store)
    → t.outbox ≡ map_if p f s.outbox
    → t.next_id ≡ s.next_id
    → ((r : OutboxRow) → (f r).id ≡ r.id)
    → All (λ r. p r ≡ true → IsSound r → IsSound (f r)) s.outbox
    → IsWellFormed s
    → IsWellFormed t
rewrite-IsWellFormed p f s t out same_next same ok h = record {
  sound = rw out (map_if-IsSound p f s.outbox ok h.sound);
  below = rw (out, same_next) (below-map_if p f same s.next_id s.outbox h.below);
  distinct = rw out (Distinct-map_if p f same s.outbox h.distinct);
}

active_of_flight : (r : OutboxRow) → is_in_flight r.status ≡ true → is_completed r.status ≡ false
active_of_flight r h = ground arith

rescue-IsSound :
    (at : ℕ) (r : OutboxRow) → is_in_flight r.status ≡ true → IsSound r → IsSound (rescue at r)
rescue-IsSound at r a h = ground arith

stale_in_flight :
    (cutoff : ℕ) (r : OutboxRow) → is_stale cutoff r ≡ true → is_in_flight r.status ≡ true
stale_in_flight cutoff r h = ground arith

mark_in_flight-IsSound :
    (now : ℕ) (r : OutboxRow) → is_due now r ≡ true → IsSound r → IsSound (mark_in_flight now r)
mark_in_flight-IsSound now r d h = ground arith

reap-IsWellFormed :
    (minutes now : ℕ) (later : ℕ → ℕ) (s : Store)
    → IsWellFormed s
    → IsWellFormed (reap_stale_in_flight minutes now later s).0
unfolding reap_stale_in_flight
reap-IsWellFormed minutes now later s h =
    rewrite-IsWellFormed (is_stale (now - minutes * 60)) (λ r. rescue (later r.id) r) s _ refl refl
      (λ r. refl)
      (All-every _ s.outbox (λ r stale. rescue-IsSound (later r.id) r (stale_in_flight _ r stale)))
      h

dequeue-IsWellFormed :
    (limit now : ℕ) (s : Store) → IsWellFormed s → IsWellFormed (dequeue_due limit now s).0
unfolding dequeue_due
dequeue-IsWellFormed limit now s h =
    rewrite-IsWellFormed (among (select_due limit now s.outbox)) (mark_in_flight now) s _ refl refl
      (λ r. refl)
      (All-mono _ _ s.outbox (λ r due chosen. mark_in_flight-IsSound now r (due chosen))
        (selected_due limit now s.outbox h.distinct))
      h

process-IsWellFormed :
    (w : World) (commits : Bool) (now i : ℕ) (s : Store)
    → InFlight i s
    → IsWellFormed s
    → IsWellFormed (process_one_row w commits now i s)
process-IsWellFormed w true now i s flight h =
    let e = process_one_row-Settles w i now s in
    rewrite-IsWellFormed (has_id i) e.update s _ e.outbox e.next_id e.same_id
      (All-mono _ _ s.outbox (λ r k p. e.sound r (active_of_flight r (k p))) flight) h
process-IsWellFormed w false now i s flight h = unfold process_one_row in h

sweep-IsWellFormed :
    (days now : ℕ) (s : Store) → IsWellFormed s → IsWellFormed (cleanup_completed days now s).0
unfolding cleanup_completed
sweep-IsWellFormed days now s h = record {
  sound = All-keep _ _ s.outbox h.sound;
  below = All-keep _ _ s.outbox h.below;
  distinct = Distinct-keep _ s.outbox h.distinct;
}

appended-IsWellFormed :
    (w : World) (event : w.events.Event) (now : ℕ) (s t : Store) (rows : List OutboxRow)
    → t.outbox ≡ s.outbox ++ rows
    → t.next_id ≡ s.next_id + length rows
    → All (IsFresh now w.events event) rows
    → Numbered s.next_id rows
    → IsWellFormed s
    → IsWellFormed t
appended-IsWellFormed w event now s t rows out same_next fresh numbered h = record {
  sound = rw out (
      All-append IsSound s.outbox rows h.sound
        (All-mono _ _ rows (IsFresh-IsSound w event now) fresh));
  below =
      rw (out, same_next)
        (All-append _ s.outbox rows (All-mono _ _ s.outbox (λ r b. omega arith) h.below)
          (below-Numbered s.next_id rows numbered));
  distinct = rw out (Distinct-append s.next_id s.outbox rows h.distinct h.below numbered);
}

some_inj {ℓ} : {A : Type ℓ} {a b : A} → some a ≡ some b → a ≡ b
some_inj h = cc

publish-IsWellFormed :
    (w : World) (event : w.events.Event) (now : ℕ) (title body : String) (s t : Store)
    → render_title_and_body w.events event none ≡ rendered title body
    → publish_event w.events event now s ≡ some t
    → IsWellFormed s
    → IsWellFormed t
publish-IsWellFormed w event now title body s t drawn sent h =
    let (rows, u, wrote, out, _, _, same_next, _, fresh, numbered) =
      publish_event_delivery w.events event now s title body drawn in
    subst IsWellFormed (some_inj (sym wrote ∙ sent))
      (appended-IsWellFormed w event now s u rows out same_next fresh numbered h)

-- Every step keeps the store well formed: the ids are distinct and below the next one, a row that
-- may still be sent was tried less than five times, and exactly a completed row has the time of
-- its completion.
pub Step-IsWellFormed : (w : World) {s t : Store} → Step w s t → IsWellFormed s → IsWellFormed t
Step-IsWellFormed w (publish event now title body {s} {t} drawn sent) h =
    publish-IsWellFormed w event now title body s t drawn sent h
Step-IsWellFormed w (dequeue limit now s) h = dequeue-IsWellFormed limit now s h
Step-IsWellFormed w (process commits now i s flight) h =
    process-IsWellFormed w commits now i s flight h
Step-IsWellFormed w (reap minutes now later s) h = reap-IsWellFormed minutes now later s h
Step-IsWellFormed w (sweep days now s) h = sweep-IsWellFormed days now s h

-- From a well formed store (an empty outbox is one), every order of publishing, dequeuing, sending
-- rows in flight, rescuing and sweeping leads to a well formed store.
pub Reach-IsWellFormed : (w : World) {s t : Store} → Reach w s t → IsWellFormed s → IsWellFormed t
Reach-IsWellFormed w here h = h
Reach-IsWellFormed w (next before step) h = Step-IsWellFormed w step (Reach-IsWellFormed w before h)

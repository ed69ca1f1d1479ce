-- ===== src/Notify.antt =====
-- arm/notifications/models.py: the channels, the dispatch outbox and the history as one store.
-- A `datetime` is a number of seconds; `now` is the reading of the clock that a call takes.
pub mod Rows
pub mod Outbox
pub mod Channels
pub mod Publish
pub mod Dispatcher
mod Examples
use automatic_ripping_machin.Common.{
  ◌==◌, if◌then◌else◌, ℕ, ◌+◌, ◌-◌, ◌*◌, ◌/◌, ◌%◌, ◌^◌, ◌≤◌, ◌<◌, String, ◌≡◌, ◌∙◌, ◌≡⟨◌⟩◌, ◌∎, ◌≢◌,
  ◌↔◌, ◌⊎◌, Bool, ◌&&◌, ◌||◌, Option, List, ◌∷◌, ◌++◌,
}

-- A JSON value as the code looks at it: a number, a list and an object carry their `str()`.
pub data Json : Type 0 where
  null : Json
  text : String → Json
  number : String → Json
  boolean : Bool → Json
  nested : String → Json

abbrev pub Payload : Type 0
Payload = List (String × Json)

-- `ChannelTemplate` of the contracts: a title and a body that may be absent.
pub record Template : Type 0 where
  pub title : Option String
  pub body : Option String

pub record Channel : Type 0 where
  pub id : ℕ
  pub kind : String
  pub name : String
  pub enabled : Bool
  pub config : List (String × String)
  pub headers : List (String × String)
  pub subscribed_events : List String
  pub templates : List (String × Template)
  pub last_fired_at : Option ℕ
  pub last_success_at : Option ℕ
  pub last_error : Option String

pub data Status : Type 0 where
  pending in_flight success failed : Status

pub record OutboxRow : Type 0 where
  pub id : ℕ
  pub channel_id : ℕ
  pub event_key : String
  pub event_payload : Payload
  pub status : Status
  pub attempts : ℕ
  pub next_attempt_at : ℕ
  pub last_error : Option String
  pub completed_at : Option ℕ

-- One line of the in-app history (`Notifications`).
pub record HistoryEntry : Type 0 where
  pub title : String
  pub message : String

-- `next_id` is the key that the next row of the outbox gets: no key is taken again, although SQLite
-- may give the highest key a second time once its row is deleted.
pub record Store : Type 0 where
  pub channels : List Channel
  pub outbox : List OutboxRow
  pub history : List HistoryEntry
  pub next_id : ℕ

abbrev pub has_id : ℕ → OutboxRow → Bool
has_id i r = r.id == i

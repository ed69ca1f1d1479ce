-- ===== src/Makemkv.antt =====
-- arm/ripper/makemkv.py: which tracks are ripped, and which file is whose.
pub mod Selection
pub mod Split
pub mod Info
pub mod Parse
pub mod Names
pub mod Output
pub mod Reconcile
mod Examples
use automatic_ripping_machin.Common.{
  ◌==◌, if◌then◌else◌, or_else, ℕ, ◌+◌, ◌-◌, ◌*◌, ◌/◌, ◌%◌, ◌^◌, ◌≤◌, ◌<◌, String, ◌≡◌, ◌∙◌, ◌≡⟨◌⟩◌,
  ◌∎, ◌≢◌, ◌↔◌, ◌⊎◌, Bool, false, not, ◌&&◌, ◌||◌, Option, none, some, ◌∷◌, ◌++◌,
}

-- `SkipReason` of the contracts, as far as the ripper sets it.
pub data SkipReason : Type 0 where
  too_short too_long makemkv_skipped user_disabled : SkipReason

-- A row of the tracks' table; a length is NULL for a track that was not scanned.
pub record Track : Type 0 where
  pub track_id : ℕ
  pub track_number : String
  pub length : Option ℕ
  pub chapters : ℕ
  pub filesize : ℕ
  pub filename : Option String
  pub enabled : Option Bool
  pub process : Option Bool
  pub skip_reason : Option SkipReason
  pub ripped : Bool

abbrev pub skip : SkipReason → Track → Track
skip why t = record t { process = some false; skip_reason = some why }

-- `track.enabled is False`.
abbrev pub is_disabled : Track → Bool
is_disabled t = elim t.enabled [ none ↦ false | some b ↦ not b ]

-- `if track.process`.
abbrev pub is_chosen : Track → Bool
is_chosen t = or_else t.process false

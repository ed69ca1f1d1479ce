-- ===== src/Makemkv/Output.antt =====
-- `MakeMKVOutputChecker` of arm/ripper/makemkv.py: what becomes of a message of makemkvcon.
pub mod Checks
use automatic_ripping_machin.Common.{
  get_elem?, ◌==◌, if◌then◌else◌, cat, show, ℕ, ◌+◌, ◌-◌, ◌*◌, ◌/◌, ◌%◌, ◌^◌, ◌≤◌, ◌<◌, String, ◌≡◌,
  ◌∙◌, ◌≡⟨◌⟩◌, ◌∎, ◌≢◌, ◌↔◌, ◌⊎◌, Bool, not, ◌&&◌, ◌||◌, Option, none, some, List, [], ◌∷◌, ◌++◌,
}

pub record Message : Type 0 where
  pub code : ℕ
  pub message : String
  pub sprintf : List String

-- What `check` gives: the message, an error message with its text, None, or an exception,
-- MakeMkvRuntimeError with its output or another.
pub data Checked : Type 0 where
  unchanged : Checked
  error : String → Checked
  nothing : Checked
  runtime_error : String → Checked
  raised : Checked

abbrev pub is_special : ℕ → Bool
is_special code = code == 5021 || code == 5055 || code == 5080

-- The second element of `sprintf`; without it the index, or MakeMKVErrorMessage, raises.
abbrev pub error_message : Option String → Checked
error_message none = raised
error_message (some t) = error t

abbrev pub saved_titles : Option ℕ → Checked
saved_titles none = raised
saved_titles (some saved) =
    if saved == 0
    then runtime_error (cat (show saved ∷ " titles were saved. See log for more details" ∷ []))
    else nothing

-- `int_of` is Python's `int`, where it does not raise; a count of titles is never negative.
abbrev pub zero_saved_files : (String → Option ℕ) → Option String → Checked
zero_saved_files int_of none = raised
zero_saved_files int_of (some t) = saved_titles (int_of t)

unfoldable pub check : (String → Option ℕ) → Message → Checked
check int_of m =
    if m.code == 5003
    then runtime_error m.message
    else if m.code == 5004
    then zero_saved_files int_of (get_elem? m.sprintf 1)
    else if m.code == 2003 || m.code == 2019 || is_special m.code
    then error_message (get_elem? m.sprintf 1)
    else unchanged

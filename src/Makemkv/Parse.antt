-- ===== src/Makemkv/Parse.antt =====
-- `parse_content` and `parse_line` of arm/ripper/makemkv.py: the lines that makemkvcon writes.
-- `int_of` is Python's `int` where it does not raise; the numbers in the lines are never negative.
pub mod RoundTrip
use automatic_ripping_machin.Common.{
  ◌==◌, if◌then◌else◌, str_eq, ℕ, ◌+◌, ◌-◌, ◌*◌, ◌/◌, ◌%◌, ◌^◌, ◌≤◌, ◌<◌, String, ◌≡◌, ◌∙◌, ◌≡⟨◌⟩◌,
  ◌∎, ◌≢◌, ◌↔◌, ◌⊎◌, Bool, not, ◌&&◌, ◌||◌, Option, none, some, List, [], ◌∷◌, ◌++◌,
}
use automatic_ripping_machin.Makemkv.Split.{
  split_skip, lstrip_char, rstrip_char, strip_char, cut_at,
}
use automatic_ripping_machin.Makemkv.Output.{Message, Checked, check}

-- `DriveInformation` and `Drive`.
pub record Drive : Type 0 where
  pub mount : String
  pub disc : String
  pub info : String
  pub flags : ℕ
  pub enabled : Bool
  pub visible : ℕ
  pub index : ℕ
  pub loaded : Bool
  pub open_tray : Bool
  pub attached : Bool
  pub media_cd : Bool
  pub media_dvd : Bool
  pub media_bd : Bool

pub data Output : Type 0 where
  msg : Message → Checked → Output
  prgv : ℕ → ℕ → ℕ → Output
  prgc : ℕ → ℕ → String → Output
  prgt : ℕ → ℕ → String → Output
  sinfo : (tid sid id code : ℕ) → String → Output
  tinfo : (tid id code : ℕ) → String → Output
  cinfo : (id code : ℕ) → String → Output
  drv : Drive → Output
  tcount : ℕ → Output

-- A line is parsed, or MakeMkvParserError is raised, which the reader of the lines passes over, or
-- another exception. What `check` raises for a message stands in the message's result.
pub data Line : Type 0 where
  parsed : Output → Line
  skipped : Line
  raised : Line

-- The last header entry is split into the messages, whose quotes are stripped.
abbrev pub strip_all : List String → List String
strip_all [] = []
strip_all (s ∷ ss) = strip_char 34 s ∷ strip_all ss

abbrev pub split_last : Option ℕ → List String → List String
split_last limit [] = []
split_last limit (s ∷ []) = strip_all (split_skip "\"" ",\"" limit 0 s)
split_last limit (s ∷ t ∷ ss) = s ∷ split_last limit (t ∷ ss)

unfoldable pub parse_content : String → ℕ → Option ℕ → List String
unfolding split_skip lstrip_char rstrip_char
parse_content content num_header num_message =
    split_last num_message (split_skip "," "" (some num_header) 0 content)

abbrev pub both {ℓ} : {A : Type ℓ} → (ℕ → ℕ → A) → Option ℕ → Option ℕ → Option A
both f (some a) (some b) = some (f a b)
both f _ _ = none

abbrev pub apply_to {ℓ} : {A : Type ℓ} → Option (ℕ → A) → Option ℕ → Option A
apply_to (some f) (some a) = some (f a)
apply_to _ _ = none

abbrev pub line_of : Option Output → Line
line_of none = raised
line_of (some o) = parsed o

-- The media of a drive, by the type that its flags name, and its state.
unfoldable pub drive_of : String → String → String → ℕ → ℕ → ℕ → ℕ → Drive
drive_of mount disc info flags enabled visible index = record {
  mount = mount;
  disc = disc;
  info = info;
  flags = flags;
  enabled = enabled == 999;
  visible = visible;
  index = index;
  loaded = visible == 2 || visible == 3;
  open_tray = visible == 1;
  attached = visible == 0 || visible == 1 || visible == 2 || visible == 3;
  media_cd = not (flags == 1 || flags == 12 || flags == 28);
  media_dvd = flags == 1;
  media_bd = flags == 12 || flags == 28;
}

module _ (int_of : String → Option ℕ) where
  unfoldable pub msg_of : List String → Option Output
  unfolding check
  msg_of (code ∷ flags ∷ count ∷ message ∷ sprintf) =
      both
        (λ c n.
          let m : Message = record { code = c; message = message; sprintf = sprintf } in
          msg m (check int_of m))
        (int_of code) (both (λ a b. a) (int_of flags) (int_of count))
  msg_of _ = none

  abbrev pub prgv_of : List String → Option Output
  prgv_of (current ∷ total ∷ maximum ∷ []) =
      apply_to (both (λ a b. prgv a b) (int_of current) (int_of total)) (int_of maximum)
  prgv_of _ = none

  abbrev pub titled : (ℕ → ℕ → String → Output) → List String → Option Output
  titled f (code ∷ oid ∷ name ∷ []) = both (λ a b. f a b name) (int_of code) (int_of oid)
  titled f _ = none

  abbrev pub tinfo_of : List String → Option Output
  tinfo_of (tid ∷ id ∷ code ∷ value ∷ []) =
      apply_to (both (λ i c t. tinfo t i c value) (int_of id) (int_of code)) (int_of tid)
  tinfo_of _ = none

  abbrev pub sinfo_of : List String → Option Output
  sinfo_of (tid ∷ sid ∷ id ∷ code ∷ value ∷ []) =
      apply_to
        (apply_to (both (λ i c t s. sinfo t s i c value) (int_of id) (int_of code)) (int_of tid))
        (int_of sid)
  sinfo_of _ = none

  abbrev pub drv_of : List String → Option Output
  drv_of (index ∷ visible ∷ enabled ∷ flags ∷ info ∷ disc ∷ mount ∷ []) =
      apply_to
        (apply_to
          (both (λ f e v i. drv (drive_of mount disc info f e v i)) (int_of flags) (int_of enabled))
          (int_of visible))
        (int_of index)
  drv_of _ = none

  abbrev pub tcount_of : List String → Option Output
  tcount_of (count ∷ []) = elim (int_of count) [ none ↦ none | some n ↦ some (tcount n) ]
  tcount_of _ = none

  unfoldable pub parse_type : String → String → Line
  unfolding parse_content msg_of drive_of
  parse_type kind content =
      if str_eq kind "MSG"
      then line_of (msg_of (parse_content content 3 none))
      else if str_eq kind "PRGV"
      then line_of (prgv_of (parse_content content 2 (some 0)))
      else if str_eq kind "PRGC"
      then line_of (titled prgc (parse_content content 2 (some 0)))
      else if str_eq kind "PRGT"
      then line_of (titled prgt (parse_content content 2 (some 0)))
      else if str_eq kind "SINFO"
      then line_of (sinfo_of (parse_content content 4 (some 0)))
      else if str_eq kind "TINFO"
      then line_of (tinfo_of (parse_content content 3 (some 0)))
      else if str_eq kind "CINFO"
      then line_of (titled cinfo (parse_content content 2 (some 0)))
      else if str_eq kind "DRV"
      then line_of (drv_of (parse_content content 4 (some 2)))
      else if str_eq kind "TCOUNT"
      then line_of (tcount_of (parse_content content 0 (some 0)))
      else skipped

  -- A line without a colon is passed over.
  unfoldable pub parse_cut : String × Option String → Line
  unfolding parse_type
  parse_cut (kind, none) = skipped
  parse_cut (kind, some content) = parse_type kind content

  unfoldable pub parse_line : String → Line
  unfolding parse_cut cut_at
  parse_line line = parse_cut (cut_at 58 line)

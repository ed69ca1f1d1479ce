-- ===== src/Makemkv/Info.antt =====
-- `TrackInfoProcessor` of arm/ripper/makemkv.py: the rows of the tracks that a scan of a disc gives.
pub mod Runs
pub mod Scan
use automatic_ripping_machin.Common.{
  ◌==◌, if◌then◌else◌, or_else, ℕ, ◌+◌, ◌-◌, ◌*◌, ◌/◌, ◌%◌, ◌^◌, ◌≤◌, ◌<◌, String, ◌≡◌, ◌∙◌, ◌≡⟨◌⟩◌,
  ◌∎, ◌≢◌, ◌↔◌, ◌⊎◌, Bool, true, false, not, ◌&&◌, ◌||◌, Option, none, some, List, [], ◌∷◌, ◌++◌,
}
use automatic_ripping_machin.Makemkv.Split.{split_skip, cut_at}

-- The messages of makemkvcon that a scan selects: the id of the title, if there is one, the id and
-- the code of the attribute, and its value.
pub data Info : Type 0 where
  cinfo : ℕ → ℕ → String → Info
  tinfo : ℕ → ℕ → ℕ → String → Info
  sinfo : ℕ → ℕ → ℕ → String → Info
  titles : ℕ → Info

-- The columns that `put_track` writes.
pub record Row : Type 0 where
  pub track_number : ℕ
  pub length : ℕ
  pub aspect_ratio : String
  pub fps : String
  pub main_feature : Bool
  pub source : String
  pub basename : String
  pub filename : String
  pub chapters : ℕ
  pub filesize : ℕ
  pub ripped : Bool

-- What is known of the title at hand.
pub record Found : Type 0 where
  pub seconds : ℕ
  pub aspect : String
  pub fps : String
  pub filename : String
  pub chapters : ℕ
  pub filesize : ℕ

abbrev pub nothing_found : Found
nothing_found = record {
  seconds = 0;
  aspect = "";
  fps = "0.0";
  filename = "";
  chapters = 0;
  filesize = 0;
}

pub record Processor : Type 0 where
  pub track_id : Option ℕ
  pub found : Found
  pub stream_type : Option ℕ
  pub rows : List Row
  pub no_of_titles : Option ℕ

-- Python's `int` of a text, `str(float(text.split()[0]))`, both where they do not raise, and
-- `text.strip()`; the numbers of a scan are never negative.
pub record Texts : Type 0 where
  pub int_of : String → Option ℕ
  pub float_text : String → Option String
  pub strip : String → String

abbrev pub three_parts : List String → Option (String × String × String)
three_parts (h ∷ m ∷ s ∷ []) = some (h, m, s)
three_parts _ = none

abbrev pub seconds_of : Option ℕ → Option ℕ → Option ℕ → Option ℕ
seconds_of (some h) (some m) (some s) = some (h * 3600 + m * 60 + s)
seconds_of _ _ _ = none

-- None where the text has not three parts, or `int` of one raises.
unfoldable pub convert_to_seconds : (String → Option ℕ) → String → Option ℕ
unfolding split_skip
convert_to_seconds int_of text = elim (three_parts (split_skip ":" "" none 0 text)) [
  | none ↦ none
  | some (h, m, s) ↦ seconds_of (int_of h) (int_of m) (int_of s)
]

-- The part between the first two quotes, or behind the first; the text without one.
unfoldable pub quoted : String → String
unfolding cut_at
quoted text = elim (cut_at 34 text).1 [ none ↦ text | some rest ↦ (cut_at 34 rest).0 ]

abbrev pub set_seconds : Found → Option ℕ → Option Found
set_seconds f none = none
set_seconds f (some n) = some (record f { seconds = n })

abbrev pub set_fps : Found → Option String → Option Found
set_fps f none = none
set_fps f (some t) = some (record f { fps = t })

-- None where an exception is raised; a text of chapters or of a size that is no number is skipped.
unfoldable pub handle_tinfo : Texts → ℕ → String → Found → Option Found
unfolding convert_to_seconds quoted
handle_tinfo texts id value f =
    if id == 27
    then some (record f { filename = quoted value })
    else if id == 9
    then set_seconds f (convert_to_seconds texts.int_of (texts.strip value))
    else if id == 8
    then some (record f { chapters = or_else (texts.int_of (texts.strip value)) f.chapters })
    else if id == 11
    then some (record f { filesize = or_else (texts.int_of (texts.strip value)) f.filesize })
    else some f

abbrev pub with_stream : Option ℕ → Option Found → Option (Option ℕ × Found)
with_stream stream none = none
with_stream stream (some f) = some (stream, f)

-- 6201 is the code of a video stream; the type is kept from one title to the next.
abbrev pub is_video : Option ℕ → Bool
is_video none = false
is_video (some n) = n == 6201

unfoldable pub handle_sinfo : Texts → ℕ → ℕ → String → Option ℕ → Found → Option (Option ℕ × Found)
handle_sinfo texts id code value stream_type f =
    if id == 1
    then some (some code, f)
    else if not (is_video stream_type)
    then some (stream_type, f)
    else if id == 20
    then some (stream_type, record f { aspect = texts.strip value })
    else if id == 21
    then with_stream stream_type (set_fps f (texts.float_text value))
    else some (stream_type, f)

abbrev pub row_of : String → ℕ → Found → Row
row_of basename i f = record {
  track_number = i;
  length = f.seconds;
  aspect_ratio = f.aspect;
  fps = f.fps;
  main_feature = false;
  source = "MakeMKV";
  basename = basename;
  filename = f.filename;
  chapters = f.chapters;
  filesize = f.filesize;
  ripped = false;
}

-- `_add_track` with `put_track`: `basename` is the title of the job.
abbrev pub add_found : String → Option ℕ → Processor → Processor
add_found basename none p = p
add_found basename (some i) p = record p {
  rows = p.rows ++ row_of basename i p.found ∷ [];
  found = nothing_found;
}

unfoldable pub add_track : String → Processor → Processor
add_track basename p = add_found basename p.track_id p

abbrev pub is_other : Option ℕ → ℕ → Bool
is_other none j = false
is_other (some i) j = not (i == j)

-- A message of the title `j`: the row of another title is added first.
unfoldable pub enter : String → ℕ → Processor → Processor
unfolding add_track
enter basename j p = record (if is_other p.track_id j then add_track basename p else p) {
  track_id = some j;
}

abbrev pub tid_of : Info → Option ℕ
tid_of (cinfo _ _ _) = none
tid_of (titles _) = none
tid_of (tinfo tid _ _ _) = some tid
tid_of (sinfo tid _ _ _) = some tid

abbrev pub read : Texts → Info → Option ℕ × Found → Option (Option ℕ × Found)
read texts (cinfo _ _ _) s = some s
read texts (titles _) s = some s
read texts (tinfo tid id code value) (stream, f) =
    with_stream stream (handle_tinfo texts id value f)
read texts (sinfo tid id code value) (stream, f) = handle_sinfo texts id code value stream f

-- The processor with what was read, or as it was where an exception is raised.
abbrev pub keep_read : Processor → Option (Option ℕ × Found) → Processor × Bool
keep_read p none = (p, false)
keep_read p (some (stream, f)) = (record p { found = f; stream_type = stream }, true)

abbrev pub note_titles : Info → Processor → Processor
note_titles (titles n) p = record p { no_of_titles = some n }
note_titles _ p = p

unfoldable pub process_message : Texts → String → Info → Processor → Processor × Bool
unfolding enter handle_tinfo handle_sinfo
process_message texts basename m p = elim (tid_of m) [
  | none ↦ (note_titles m p, true)
  | some j ↦ let q = enter basename j p in keep_read q (read texts m (q.stream_type, q.found))
]

unfoldable pub process_all : Texts → String → List Info → Processor → Processor × Bool
unfolding process_message
process_all texts basename [] p = (p, true)
process_all texts basename (m ∷ ms) p =
    let (q, fine) = process_message texts basename m p in
    let rest = process_all texts basename ms q in if fine then rest else (q, false)

abbrev pub processor : Processor
processor = record {
  track_id = none;
  found = nothing_found;
  stream_type = none;
  rows = [];
  no_of_titles = none;
}

-- The last title is added behind the loop; the flag tells that no exception was raised. The messages
-- are those that makemkvcon printed, and the writes of `put_track` are taken to raise nothing.
unfoldable pub process_messages : Texts → String → List Info → Processor × Bool
unfolding process_all add_track
process_messages texts basename ms =
    let (p, fine) = process_all texts basename ms processor in
    if fine then (add_track basename p, true) else (p, false)

-- ===== src/Naming/Render.antt =====
-- arm/ripper/naming.py: the titles and the folders of a job and of its tracks, on texts as lists of
-- code points. A text that is None is read as the empty one: the code tests the truth of both.
pub mod Distinct
pub mod Folders
pub mod Titles
use automatic_ripping_machin.Common.{
  length, all, sort, leb, ◌==◌, if◌then◌else◌, show, codes, ℕ, zero, suc, ◌+◌, ◌-◌, ◌*◌, ◌/◌, ◌%◌,
  ◌^◌, ◌≤◌, ◌<◌, ◌≡◌, ◌∙◌, ◌≡⟨◌⟩◌, ◌∎, ◌≢◌, ◌↔◌, ◌⊎◌, Bool, true, false, not, ◌&&◌, ◌||◌, Option,
  none, some, List, [], ◌∷◌, ◌++◌, map,
}
use automatic_ripping_machin.Naming.{Word, same_word}
use automatic_ripping_machin.Naming.Clean.{clean_for_filename, clean_empty_parens, clean_path}

-- The fields of a job that the names are made of; `tokens` are what the tokens of the contracts
-- give of its metadata.
pub record Job : Type 0 where
  pub title_manual : Word
  pub title : Word
  pub year_manual : Word
  pub year : Word
  pub season_manual : Word
  pub season : Word
  pub season_auto : Word
  pub episode_manual : Word
  pub episode : Word
  pub episode_auto : Word
  pub artist : Word
  pub album : Word
  pub label : Word
  pub video_type : Word
  pub imdb_id : Word
  pub disc_number : Option ℕ
  pub disc_total : Option ℕ
  pub title_pattern_override : Word
  pub folder_pattern_override : Word
  pub tokens : List (Word × Word)

pub record Track : Type 0 where
  pub track_number : Word
  pub title : Word
  pub year : Word
  pub video_type : Word
  pub episode_number : Word
  pub episode_name : Word
  pub custom_filename : Word

pub record Variables : Type 0 where
  pub title : Word
  pub show_name : Word
  pub year : Word
  pub artist : Word
  pub album : Word
  pub season : Word
  pub episode : Word
  pub episode_name : Word
  pub label : Word
  pub video_type : Word
  pub disc_number : Word
  pub disc_total : Word
  pub imdb_id : Word
  pub tokens : List (Word × Word)
  pub disc_fallback : Bool

pub data Kind : Type 0 where
  title_kind folder_kind : Kind

pub data Prefix : Type 0 where
  movie tv music : Prefix

-- `str.format_map`, which is taken to raise nothing, the classes of characters, `int` of a text, and
-- the configured patterns.
pub record Settings : Type 0 where
  pub format : Word → Variables → Word
  pub is_word : ℕ → Bool
  pub is_space : ℕ → Bool
  pub is_digit : ℕ → Bool
  pub int_of : Word → Option ℕ
  pub config : Prefix → Kind → Word

abbrev pub blank : Word → Bool
blank w = length w == 0

-- Python's `a or b`.
infixr 30 ◌orelse◌
abbrev pub ◌orelse◌ : Word → Word → Word
a orelse b = if blank a then b else a

-- `str.isdigit`.
abbrev pub is_digits : (ℕ → Bool) → Word → Bool
is_digits digit w = not (blank w) && all digit w

-- `str.zfill(2)`: a sign stays in front.
unfoldable pub zfill : Word → Word
zfill [] = 48 ∷ 48 ∷ []
zfill (c ∷ []) = if c == 43 || c == 45 then c ∷ 48 ∷ [] else 48 ∷ c ∷ []
zfill (c ∷ d ∷ w) = c ∷ d ∷ w

abbrev pub show_word : ℕ → Word
show_word n = codes (show n)

-- `str(n or '')`.
abbrev pub show_given : Option ℕ → Word
show_given none = []
show_given (some n) = if n == 0 then [] else show_word n

abbrev pub pad : (ℕ → Bool) → Word → Word
pad digit w = if is_digits digit w then zfill w else w

-- The episode that the job names.
abbrev pub job_episode : Job → Word
job_episode j = j.episode_manual orelse j.episode orelse j.episode_auto

unfoldable pub build_variables : Settings → Job → Variables
unfolding same_word zfill show
build_variables s j =
    let title = j.title_manual orelse j.title in
    let year = j.year_manual orelse j.year in
    let season = j.season_manual orelse j.season orelse j.season_auto in
    record {
      title = title;
      show_name = title;
      year = if same_word year (codes "0000") then [] else year;
      artist = j.artist;
      album = j.album;
      season = pad s.is_digit season;
      episode = pad s.is_digit (job_episode j);
      episode_name = [];
      label = j.label;
      video_type = j.video_type;
      disc_number = show_given j.disc_number;
      disc_total = show_given j.disc_total;
      imdb_id = j.imdb_id;
      tokens = j.tokens;
      disc_fallback = false;
    }

abbrev pub default_pattern : Prefix → Kind → Word
default_pattern movie k = codes "{title} ({year})"
default_pattern tv title_kind = codes "{show} S{season}E{episode}"
default_pattern tv folder_kind = codes "{show}/Season {season}"
default_pattern music title_kind = codes "{artist} - {album}"
default_pattern music folder_kind = codes "{artist}/{album} ({year})"

-- An unknown type has the patterns of a movie.
unfoldable pub prefix_of : Word → Prefix
unfolding same_word
prefix_of video_type =
    if same_word video_type (codes "series")
    then tv
    else if same_word video_type (codes "music")
    then music
    else movie

abbrev pub pattern_override : Kind → Job → Word
pattern_override title_kind j = j.title_pattern_override
pattern_override folder_kind j = j.folder_pattern_override

unfoldable pub get_pattern : Settings → Word → Kind → Job → Word
unfolding prefix_of
get_pattern s video_type k j =
    pattern_override k j
    orelse s.config (prefix_of video_type) k
    orelse default_pattern (prefix_of video_type) k

unfoldable pub render : Settings → Kind → Job → Variables → Word
unfolding clean_empty_parens get_pattern
render s k j v = clean_empty_parens s.is_space (s.format (get_pattern s v.video_type k j) v)

unfoldable pub render_title : Settings → Job → Word
unfolding build_variables render
render_title s j = render s title_kind j (build_variables s j)

unfoldable pub render_folder : Settings → Job → Word
unfolding build_variables render clean_path
render_folder s j = clean_path s.is_word s.is_space (render s folder_kind j (build_variables s j))

-- The season, where the job names none: the one found, or the number of the disc.
unfoldable pub season_fallback : Job → Variables → Variables
unfolding zfill show
season_fallback j v =
    let from_disc = λ (n : ℕ). record v { season = zfill (show_word n); disc_fallback = true } in
    if not (blank v.season)
    then v
    else if not (blank j.season_auto)
    then record v { season = zfill j.season_auto }
    else elim j.disc_number [ none ↦ record v { season = codes "01" } | some n ↦ from_disc n ]

-- The episode of a track: the matched one, the job's, or the number of the track plus one.
unfoldable pub track_episode : Settings → Track → Word → Word
unfolding zfill show
track_episode s t episode =
    if not (blank t.episode_number)
    then zfill t.episode_number
    else if not (blank episode)
    then episode
    else elim (s.int_of t.track_number) [ none ↦ episode | some n ↦ zfill (show_word (n + 1)) ]

unfoldable pub build_track_variables : Settings → Track → Job → Variables
unfolding build_variables track_episode season_fallback
build_track_variables s t j =
    let v = build_variables s j in
    season_fallback j (record v {
      title = t.title orelse v.title;
      episode_name = t.episode_name orelse v.episode_name;
      year = t.year orelse v.year;
      video_type = t.video_type orelse v.video_type;
      episode = track_episode s t v.episode;
    })

-- `s.replace(old, new)`; the characters of a part that is found are passed over.
starts : Word → Word → Bool
starts s [] = true
starts [] (_ ∷ _) = false
starts (c ∷ s) (d ∷ old) = c == d && starts s old

unfoldable pub replace_word : Word → Word → ℕ → Word → Word
unfolding starts
replace_word old new skip [] = []
replace_word old new (suc skip) (c ∷ s) = replace_word old new skip s
replace_word old new zero (c ∷ s) = elim (starts (c ∷ s) old) [
  | true ↦ new ++ replace_word old new (length old - 1) s
  | false ↦ c ∷ replace_word old new zero s
]

abbrev pub dash_track : Word → Word
dash_track number = codes " - Track " ++ number

-- A track of a series without an episode is named by its number.
abbrev pub numbered_title : Word → Word → Word
numbered_title title number =
    if blank title then codes "Track " ++ number else title ++ dash_track number

unfoldable pub render_track_title : Settings → Track → Job → Word
unfolding build_track_variables render replace_word clean_for_filename same_word
render_track_title s t j =
    let v = build_track_variables s t j in
    let rendered = render s title_kind j v in
    if not (blank t.custom_filename)
    then clean_for_filename s.is_word s.is_space t.custom_filename
    else if same_word v.video_type (codes "series")
        && blank t.episode_number
        && blank (job_episode j)
    then numbered_title v.title (t.track_number orelse codes "0")
    else if v.disc_fallback
    then replace_word (83 ∷ v.season) (68 ∷ v.season) 0 rendered
    else rendered

-- The folder takes the track's own title only where it is a movie.
unfoldable pub track_folder_variables : Settings → Track → Job → Variables
unfolding build_variables season_fallback zfill same_word
track_folder_variables s t j =
    let v = build_variables s j in
    let video_type = t.video_type orelse v.video_type in
    let is_movie = same_word (video_type orelse codes "movie") (codes "movie") in
    season_fallback j (record v {
      video_type = video_type;
      year = t.year orelse v.year;
      title = if is_movie then t.title orelse v.title else v.title;
      episode = if blank t.episode_number then v.episode else zfill t.episode_number;
    })

-- The rendered pattern, where `Disc` stands for a season that is the number of the disc.
unfoldable pub track_folder_text : Settings → Track → Job → Word
unfolding track_folder_variables render replace_word
track_folder_text s t j =
    let v = track_folder_variables s t j in
    let rendered = render s folder_kind j v in
    if v.disc_fallback then replace_word (codes "Season ") (codes "Disc ") 0 rendered else rendered

unfoldable pub render_track_folder : Settings → Track → Job → Word
unfolding track_folder_text clean_path
render_track_folder s t j = clean_path s.is_word s.is_space (track_folder_text s t j)

pub record Rendered : Type 0 where
  pub track_number : Word
  pub rendered_title : Word
  pub rendered_folder : Word

abbrev pub append_number : Rendered → Rendered
append_number r = record r { rendered_title = r.rendered_title ++ dash_track r.track_number }

abbrev pub modify_at {ℓ} : {A : Type ℓ} → ℕ → (A → A) → List A → List A
modify_at i f [] = []
modify_at zero f (x ∷ xs) = f x ∷ xs
modify_at (suc i) f (x ∷ xs) = x ∷ modify_at i f xs

-- `seen`, where the first entry of a name counts: the place of the row that is not marked yet, or
-- none where it is.
abbrev pub Seen : Type 0
Seen = List (Word × Option ℕ)

unfoldable pub find_seen : Word → Seen → Option (Option ℕ)
unfolding same_word
find_seen name [] = none
find_seen name ((k, v) ∷ seen) =
    let rest = find_seen name seen in if same_word k name then some v else rest

-- One row, behind those that are done.
abbrev pub mark_row : Option (Option ℕ) → Rendered → List Rendered × Seen → List Rendered × Seen
mark_row none r (done, seen) = (done ++ r ∷ [], (r.rendered_title, some (length done)) ∷ seen)
mark_row (some none) r (done, seen) = (done ++ append_number r ∷ [], seen)
mark_row (some (some j)) r (done, seen) =
    (modify_at j append_number done ++ append_number r ∷ [], (r.rendered_title, none) ∷ seen)

unfoldable pub mark_rows : List Rendered → List Rendered × Seen → List Rendered × Seen
unfolding find_seen
mark_rows [] s = s
mark_rows (r ∷ rs) (done, seen) =
    mark_rows rs (mark_row (find_seen r.rendered_title seen) r (done, seen))

-- The rows of the tracks, in the order of `number`, which is `int(track_number or 0)`.
unfoldable pub rows_of : Settings → (Word → ℕ) → Job → List Track → List Rendered
unfolding render_track_title render_track_folder
rows_of s number j tracks =
    map
      (λ (t : Track). record {
        track_number = t.track_number;
        rendered_title = render_track_title s t j;
        rendered_folder = render_track_folder s t j;
      })
      (sort (λ (a : Track) (b : Track). leb (number a.track_number) (number b.track_number)) tracks)

unfoldable pub render_all_tracks : Settings → (Word → ℕ) → Job → List Track → List Rendered
unfolding rows_of mark_rows
render_all_tracks s number j tracks = (mark_rows (rows_of s number j tracks) ([], [])).0

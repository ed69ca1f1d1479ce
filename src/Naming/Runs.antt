-- ===== src/Naming/Runs.antt =====
-- Runs of the titles and the folders.
use automatic_ripping_machin.Common.{
  length, sort, ltb, ◌==◌, if◌then◌else◌, codes, ℕ, String, ◌≡◌, refl, Bool, ◌&&◌, ◌||◌, none, some,
  List, [], ◌∷◌, ◌++◌, map,
}
use automatic_ripping_machin.Naming.{Word}
use automatic_ripping_machin.Naming.Clean.{clean_for_filename, clean_empty_parens, clean_path}
use automatic_ripping_machin.Naming.Clean.Confined.{IsConfined}
use automatic_ripping_machin.Naming.Render.{
  Job, Track, title_kind, folder_kind, Settings, Rendered, render_folder, render_track_folder,
  rows_of, render_all_tracks,
}
use automatic_ripping_machin.Naming.Render.Distinct.{told_apart}
use automatic_ripping_machin.Naming.Render.Folders.{folders-IsConfined}
use automatic_ripping_machin.Naming.Render.Titles.{render_all_tracks_tells_apart}

is_letter : ℕ → Bool
is_letter c = (ltb 96 c && ltb c 123) || (ltb 64 c && ltb c 91) || (ltb 47 c && ltb c 58)

is_blank : ℕ → Bool
is_blank c = c == 32

clean_for_filename_run :
    clean_for_filename is_letter is_blank (codes "../Tom & Jerry: AB?..C. ")
    ≡ codes "Tom and Jerry - AB.C"
unfolding clean_for_filename is_letter is_blank
clean_for_filename_run = refl

clean_empty_parens_run : clean_empty_parens is_blank (codes "Title ( ) ()") ≡ codes "Title"
unfolding clean_empty_parens is_blank
clean_empty_parens_run = refl

clean_path_run :
    clean_path is_letter is_blank (codes "/../Show: X/Season 01") ≡ codes "Show - X/Season 01"
unfolding clean_path is_letter is_blank
clean_path_run = refl

-- The patterns of the run are the title for a title and the show behind two dots for a folder.
abbrev settings : Settings
settings = record {
  format = λ p v.
      if length p == 1 then v.title else codes "../" ++ v.show_name ++ codes "/S" ++ v.season;
  is_word = is_letter;
  is_space = is_blank;
  is_digit = is_letter;
  int_of = λ w. none;
  config = λ p k. elim k [ title_kind ↦ 116 ∷ [] | folder_kind ↦ codes "folder" ];
}

abbrev job : Job
job = record {
  title_manual = [];
  title = codes "Show";
  year_manual = [];
  year = codes "0000";
  season_manual = [];
  season = codes "1";
  season_auto = [];
  episode_manual = [];
  episode = [];
  episode_auto = [];
  artist = [];
  album = [];
  label = [];
  video_type = codes "movie";
  imdb_id = [];
  disc_number = some 2;
  disc_total = none;
  title_pattern_override = [];
  folder_pattern_override = [];
  tokens = [];
}

abbrev track : String → String → String → Track
track number title custom = record {
  track_number = codes number;
  title = codes title;
  year = [];
  video_type = [];
  episode_number = [];
  episode_name = [];
  custom_filename = codes custom;
}

number : Word → ℕ
number [] = 0
number (c ∷ w) = c

render_folder_run : render_folder settings job ≡ codes "Show/S01"
unfolding render_folder is_letter is_blank
render_folder_run = refl

folders-IsConfined_example :
    IsConfined is_letter (render_folder settings job)
    × IsConfined is_letter (render_track_folder settings (track "1" "A" "") job)
unfolding is_letter
folders-IsConfined_example = folders-IsConfined settings job (track "1" "A" "") refl

abbrev disc : List Track
disc = track "2" "A" "" ∷ track "1" "A" "" ∷ track "3" "B" "" ∷ []

titles_run :
    map (λ (r : Rendered). r.rendered_title) (render_all_tracks settings number job disc)
    ≡ codes "A - Track 1" ∷ codes "A - Track 2" ∷ codes "B" ∷ []
unfolding render_all_tracks number is_letter is_blank sort
titles_run = refl

render_all_tracks_tells_apart_example :
    render_all_tracks settings number job disc
    ≡ map (told_apart (rows_of settings number job disc)) (rows_of settings number job disc)
render_all_tracks_tells_apart_example = render_all_tracks_tells_apart settings number job disc

-- A custom name that looks like a marked one is not told apart.
collision_run :
    map
      (λ (r : Rendered). r.rendered_title)
      (render_all_tracks settings number job (track "3" "B" "A - Track 1" ∷ disc))
    ≡ codes "A - Track 1" ∷ codes "A - Track 2" ∷ codes "A - Track 1" ∷ codes "B" ∷ []
unfolding render_all_tracks number is_letter is_blank sort
collision_run = refl

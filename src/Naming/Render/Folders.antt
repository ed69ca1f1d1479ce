-- ===== src/Naming/Render/Folders.antt =====
-- The folders of arm/ripper/naming.py stay below their base.
use automatic_ripping_machin.Common.{◌≡◌, false}
use automatic_ripping_machin.Naming.Clean.Confined.{IsConfined, clean_path-IsConfined}
use automatic_ripping_machin.Naming.Render.{
  Job, Track, folder_kind, Settings, build_variables, render, render_folder, track_folder_text,
  render_track_folder,
}

-- Where a slash is no character of a word: whatever the patterns and the metadata are, the folders
-- of a job and of a track are relative paths, with no component that starts with a dot and no other
-- character than the slash and those that are kept in a name.
pub folders-IsConfined :
    (s : Settings) (j : Job) (t : Track)
    → s.is_word 47 ≡ false
    → IsConfined s.is_word (render_folder s j) × IsConfined s.is_word (render_track_folder s t j)
unfolding render_folder render_track_folder
folders-IsConfined s j t h = (
  clean_path-IsConfined s.is_word s.is_space h (render s folder_kind j (build_variables s j)),
  clean_path-IsConfined s.is_word s.is_space h (track_folder_text s t j),
)

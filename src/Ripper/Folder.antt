-- ===== src/Ripper/Folder.antt =====
-- The output folder of a rip, in arm/ripper/utils.py: `make_dir`, `_is_empty_failed_rip` and
-- `check_for_dupe_folder`.
pub mod Untouched
use Prim.Native.String
use automatic_ripping_machin.Common.{
  keep, find, any, ◌==◌, if◌then◌else◌, str_eq, starts_with, ◌+◌, ◌-◌, ◌*◌, ◌/◌, ◌%◌, ◌^◌, ◌≤◌, ◌<◌,
  String, ◌≡◌, ◌∙◌, ◌≡⟨◌⟩◌, ◌∎, ◌≢◌, ◌↔◌, ◌⊎◌, Bool, true, false, not, ◌&&◌, ◌||◌, Option, none,
  some, List, ◌∷◌, ◌++◌,
}
use automatic_ripping_machin.Machine.{JobState, failure}

-- The directories and the files, by their paths.
pub record Disk : Type 0 where
  pub directories : List String
  pub files : List String

abbrev pub is_below : String → String → Bool
is_below path f = starts_with f (String.◌++◌ path "/")

abbrev pub is_dir : Disk → String → Bool
is_dir d path = any (λ f. str_eq f path) d.directories

abbrev pub is_file : Disk → String → Bool
is_file d path = any (λ f. str_eq f path) d.files

abbrev pub exists : Disk → String → Bool
exists d path = is_dir d path || is_file d path

-- Whether `os.walk` finds a file.
abbrev pub has_files : Disk → String → Bool
has_files d path = any (is_below path) d.files

-- `shutil.rmtree`.
unfoldable pub rmtree : String → Disk → Disk
unfolding starts_with
rmtree path d = record {
  directories = keep (λ f. not (str_eq f path || is_below path f)) d.directories;
  files = keep (λ f. not (is_below path f)) d.files;
}

-- `created` where it returns True, `existed` False.
pub data Made : Type 0 where
  created : Disk → Made
  existed : Made
  raised : Made

-- `creatable` tells where `os.makedirs` raises no other error than that the path is taken. The
-- directories above the path are not in the result.
unfoldable pub make_dir : Bool → (String → Bool) → String → Disk → Made
make_dir exist_ok creatable path d =
    if exists d path
    then (if exist_ok then existed else raised)
    else if creatable path
    then created (record d { directories = path ∷ d.directories })
    else raised

-- The last job with a label: the query may fail, find none, or find one in a state.
pub data LastJob : Type 0 where
  unavailable no_job : LastJob
  in_state : JobState → LastJob

abbrev pub is_failure : JobState → Bool
is_failure failure = true
is_failure _ = false

abbrev pub may_clean : LastJob → Bool
may_clean unavailable = false
may_clean no_job = true
may_clean (in_state s) = is_failure s

unfoldable pub is_empty_failed_rip : (String → LastJob) → Disk → String → Option String → Bool
unfolding starts_with
is_empty_failed_rip last_job d path label =
    is_dir d path
    && not (has_files d path)
    && elim label [ none ↦ true | some l ↦ may_clean (last_job l) ]

-- The disk behind the call, whether the event of a duplicate was published, and the folder, or none
-- where RipperException is raised.
pub record Chosen : Type 0 where
  pub disk : Disk
  pub published : Bool
  pub folder : Option String

-- Behind a second `make_dir`, whose result is ignored.
abbrev pub use_made : String → Disk → Made → Chosen
use_made path d (created e) = record { disk = e; published = false; folder = some path }
use_made path d existed = record { disk = d; published = false; folder = some path }
use_made path d raised = record { disk = d; published = false; folder = none }

module _ (creatable : String → Bool) (last_job : String → LastJob) where
  -- The folder with a suffix: `stage` is the job's, or the time.
  unfoldable pub deduped : String → Option String → Disk → Chosen
  unfolding make_dir is_empty_failed_rip rmtree
  deduped path label d =
      let cleaned = if is_empty_failed_rip last_job d path label then rmtree path d else d in
      use_made path cleaned (make_dir false creatable path cleaned)

  unfoldable pub existing_folder : Bool → Bool → String → String → Option String → Disk → Chosen
  unfolding make_dir is_empty_failed_rip rmtree deduped
  existing_folder allow have_dupes path stage label d =
      if is_empty_failed_rip last_job d path label
      then use_made path (rmtree path d) (make_dir true creatable path (rmtree path d))
      else if allow || not have_dupes
      then deduped (String.◌++◌ path (String.◌++◌ "_" stage)) label d
      else record { disk = d; published = true; folder = none }

  abbrev pub choose : Bool → Bool → String → String → Option String → Disk → Made → Chosen
  choose allow have_dupes path stage label d existed =
      existing_folder allow have_dupes path stage label d
  choose allow have_dupes path stage label d m = use_made path d m

  unfoldable pub check_for_dupe_folder :
      Bool → Bool → String → String → Option String → Disk → Chosen
  unfolding make_dir existing_folder
  check_for_dupe_folder allow have_dupes path stage label d =
      choose allow have_dupes path stage label d (make_dir true creatable path d)

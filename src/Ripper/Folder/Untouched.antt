-- ===== src/Ripper/Folder/Untouched.antt =====
-- The folder that a rip gets is fresh, and no file is lost to it.
use Prim.Native.String
use automatic_ripping_machin.Common.{
  keep, any, Holds, if_ind, str_eq, String, ◌≡◌, refl, sym, ap, ap₂, ◌∙◌, Bool, true, false, not,
  ◌||◌, false≢true, Option, none, List, [], ◌∷◌, arith, eq_refl,
}
use automatic_ripping_machin.Ripper.Folder.{
  Disk, is_below, is_dir, is_file, exists, has_files, rmtree, make_dir, LastJob,
  is_empty_failed_rip, Chosen, use_made, choose, deduped, existing_folder, check_for_dupe_folder,
}

-- If there is a file below the path, the path is a directory, and then it is not a file.
pub record IsPlace (d : Disk) (path : String) : Type 0 where
  pub covered : is_dir d path ≡ false → has_files d path ≡ false
  pub apart : is_dir d path ≡ true → is_file d path ≡ false

-- The files are those of the disk before, the folder is a directory without a file below it, and
-- the event is published only where no folder is returned.
pub record IsFresh (d : Disk) (c : Chosen) : Type 0 where
  pub kept : c.disk.files ≡ d.files
  pub empty : Holds (λ path. (is_dir c.disk path ≡ true) × (has_files c.disk path ≡ false)) c.folder
  pub told : c.published ≡ true → c.folder ≡ none

keep-none :
    (p : String → Bool) (xs : List String) → any p xs ≡ false → keep (λ x. not (p x)) xs ≡ xs
keep-none p [] h = refl
keep-none p (x ∷ xs) h = ground (arith, keep-none p xs)

any-keep :
    (p q : String → Bool) (xs : List String) → any p (keep (λ x. not (p x || q x)) xs) ≡ false
any-keep p q [] = refl
any-keep p q (x ∷ xs) = ground (arith, any-keep p q xs)

-- The directory without files is gone, and nothing else of the disk's files.
rmtree-files :
    (path : String) (d : Disk) → has_files d path ≡ false → (rmtree path d).files ≡ d.files
unfolding rmtree
rmtree-files path d h = keep-none (is_below path) d.files h

rmtree-has_files :
    (path : String) (d : Disk) → has_files d path ≡ false → has_files (rmtree path d) path ≡ false
rmtree-has_files path d h = ap (any (is_below path)) (rmtree-files path d h) ∙ h

rmtree-exists :
    (path : String) (d : Disk)
    → has_files d path ≡ false
    → is_file d path ≡ false
    → exists (rmtree path d) path ≡ false
unfolding rmtree
rmtree-exists path d h k =
    ap₂ (λ a b. a || b) (any-keep (λ f. str_eq f path) (is_below path) d.directories)
      (ap (any (λ f. str_eq f path)) (keep-none (is_below path) d.files h) ∙ k)

module _ (creatable : String → Bool) where
  use_made-IsFresh :
      (ok : Bool) (path : String) (d : Disk)
      → (exists d path ≡ false → has_files d path ≡ false)
      → (exists d path ≡ true → ok ≡ false)
      → IsFresh d (use_made path d (make_dir ok creatable path d))
  unfolding make_dir
  use_made-IsFresh ok path d h k =
      if_ind (λ m. IsFresh d (use_made path d m)) (exists d path)
        (λ e. rw (k e) (record { kept = refl; empty = tt; told = λ t. cc }))
        (λ e.
          if_ind (λ m. IsFresh d (use_made path d m)) (creatable path)
            (λ _. record { kept = refl; empty = (rw (eq_refl path) refl, h e); told = λ t. cc })
            (λ _. record { kept = refl; empty = tt; told = λ t. cc }))

  remade-IsFresh :
      (ok : Bool) (path : String) (d : Disk)
      → has_files d path ≡ false
      → is_file d path ≡ false
      → IsFresh d (use_made path (rmtree path d) (make_dir ok creatable path (rmtree path d)))
  remade-IsFresh ok path d h k =
      let f =
        use_made-IsFresh ok path (rmtree path d) (λ _. rmtree-has_files path d h)
          (λ e. elim (false≢true (sym (rmtree-exists path d h k) ∙ e)) [ ]) in
      record { kept = f.kept ∙ rmtree-files path d h; empty = f.empty; told = f.told }

module _ (last_job : String → LastJob) where
  is_empty_failed_rip-directory :
      (d : Disk) (path : String) (label : Option String)
      → is_empty_failed_rip last_job d path label ≡ true
      → (is_dir d path ≡ true) × (has_files d path ≡ false)
  unfolding is_empty_failed_rip
  is_empty_failed_rip-directory d path label h = (ground arith, ground arith)

  module _ (creatable : String → Bool) (d : Disk) where
    not_there : (path : String) → IsPlace d path → exists d path ≡ false → has_files d path ≡ false
    not_there path place e = place.covered (ground arith)

    cleaned-IsFresh :
        (ok : Bool) (path : String) (label : Option String)
        → IsPlace d path
        → is_empty_failed_rip last_job d path label ≡ true
        → IsFresh d (use_made path (rmtree path d) (make_dir ok creatable path (rmtree path d)))
    cleaned-IsFresh ok path label place h =
        let (dir, empty) = is_empty_failed_rip-directory d path label h in
        remade-IsFresh creatable ok path d empty (place.apart dir)

    deduped-IsFresh :
        (path : String) (label : Option String)
        → IsPlace d path
        → IsFresh d (deduped creatable last_job path label d)
    unfolding deduped
    deduped-IsFresh path label place =
        if_ind (λ e. IsFresh d (use_made path e (make_dir false creatable path e)))
          (is_empty_failed_rip last_job d path label) (cleaned-IsFresh false path label place)
          (λ _. use_made-IsFresh creatable false path d (not_there path place) (λ _. refl))

    existing_folder-IsFresh :
        (allow have_dupes : Bool) (path stage : String) (label : Option String)
        → IsPlace d path
        → IsPlace d (String.◌++◌ path (String.◌++◌ "_" stage))
        → IsFresh d (existing_folder creatable last_job allow have_dupes path stage label d)
    unfolding existing_folder
    existing_folder-IsFresh allow have_dupes path stage label place place_2 =
        if_ind (IsFresh d) (is_empty_failed_rip last_job d path label)
          (cleaned-IsFresh true path label place)
          (λ _.
            if_ind (IsFresh d) (allow || not have_dupes) (λ _. deduped-IsFresh _ label place_2)
              (λ _. record { kept = refl; empty = tt; told = λ _. refl }))

    -- Where the path of the job and the path with the suffix are directories if a file is below
    -- them, and no files if they are directories, whatever folders can be created and whatever the
    -- database answers: every file of the disk is left, a folder that is returned is a directory
    -- with no file below it, and none is returned where the event of a duplicate was published.
    pub check_for_dupe_folder-IsFresh :
        (allow have_dupes : Bool) (path stage : String) (label : Option String)
        → IsPlace d path
        → IsPlace d (String.◌++◌ path (String.◌++◌ "_" stage))
        → IsFresh d (check_for_dupe_folder creatable last_job allow have_dupes path stage label d)
    unfolding check_for_dupe_folder make_dir
    check_for_dupe_folder-IsFresh allow have_dupes path stage label place place_2 =
        if_ind (λ m. IsFresh d (choose creatable last_job allow have_dupes path stage label d m))
          (exists d path)
          (λ _. existing_folder-IsFresh allow have_dupes path stage label place place_2)
          (λ e.
            if_ind
              (λ m. IsFresh d (choose creatable last_job allow have_dupes path stage label d m))
              (creatable path)
              (λ _. record {
                kept = refl;
                empty = (rw (eq_refl path) refl, not_there path place e);
                told = λ t. cc;
              })
              (λ _. record { kept = refl; empty = tt; told = λ t. cc }))

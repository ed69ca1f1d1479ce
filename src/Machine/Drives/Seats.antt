-- ===== src/Machine/Drives/Seats.antt =====
-- The rows of the drives that udev found.
use automatic_ripping_machin.Common.{
  any, map_if, All, All-append, All-map_if, All-mono, Holds, Apart, ==_iff, ==_refl, if_ind, str_eq,
  ℕ, ◌<◌, ◌≡◌, refl, sym, ap₂, ◌∙◌, subst, Bool, true, false, ◌||◌, or-true, false≢true, Option,
  none, some, List, [], ◌∷◌, ◌++◌, arith,
}
use automatic_ripping_machin.Machine.{Job, Drive, DriveInformation, Database, has_drive_id}
use automatic_ripping_machin.Machine.Drives.{
  same_serial, same_location, same_mount, update, new_drive, find_drive, find_or_create_drive,
  create, conflicts, blank_mount, update_detected, update_all, is_lost, clean_drive,
}
use automatic_ripping_machin.Machine.Drives.Rescan.{find_drive-Holds, clean-id}

-- No key is taken twice.
abbrev pub IsBelow : Database → Type 0
IsBelow s = All (λ d. d.drive_id < s.next_drive_id) s.drives

-- No two detected drives have one mount.
abbrev pub DistinctMounts : List DriveInformation → Type 0
DistinctMounts detected = Apart (λ a b. str_eq a.mount b.mount) detected

pub any-map_if :
    (i : ℕ) (p : Drive → Bool) (f : Drive → Drive) (ds : List Drive)
    → ((d : Drive) → (f d).drive_id ≡ d.drive_id)
    → any (has_drive_id i) (map_if p f ds) ≡ any (has_drive_id i) ds
any-map_if i p f [] same = refl
any-map_if i p f (d ∷ ds) same =
    ap₂ (λ a b. a || b)
      (if_ind (λ e. has_drive_id i e ≡ has_drive_id i d) (p d) (λ _. rw (same d) refl) (λ _. refl))
      (any-map_if i p f ds same)

pub any-append :
    (i : ℕ) (ds : List Drive) (d : Drive)
    → has_drive_id i d ≡ true
    → any (has_drive_id i) (ds ++ d ∷ []) ≡ true
any-append i [] d h = rw h refl
any-append i (e ∷ ds) d h = rw (any-append i ds d h) (or-true _)

any-append_left :
    (i : ℕ) (ds : List Drive) (d : Drive)
    → any (has_drive_id i) ds ≡ true
    → any (has_drive_id i) (ds ++ d ∷ []) ≡ true
any-append_left i [] d h = elim (false≢true h) [ ]
any-append_left i (e ∷ ds) d h = ground (arith, any-append_left i ds d)

pub among_all : (ds : List Drive) → All (λ d. any (has_drive_id d.drive_id) ds ≡ true) ds
among_all [] = tt
among_all (d ∷ ds) =
    (rw (==_refl d.drive_id) refl, All-mono _ _ ds (λ e h. rw h (or-true _)) (among_all ds))

mounts_differ :
    (found drive : DriveInformation) (d : Drive)
    → str_eq found.mount drive.mount ≡ false
    → same_mount drive d ≡ true
    → d.information ≡ found
    → ⊥
mounts_differ found drive d apart t e =
    false≢true (sym apart ∙ subst (λ (x : DriveInformation). str_eq x.mount drive.mount ≡ true) e t)

module _ (i : ℕ) (found : DriveInformation) where
  -- If the row has the key `i`, it holds what was found, and it is not stale.
  abbrev pub Fresh : Drive → Type 0
  Fresh d = d.drive_id ≡ i → (d.information ≡ found) × (d.stale ≡ false)

  -- There is a row with the key `i`, and such rows are fresh.
  abbrev pub Seated : List Drive → Type 0
  Seated ds = (any (has_drive_id i) ds ≡ true) × All Fresh ds

  written-Fresh : (ds : List Drive) → All Fresh (map_if (has_drive_id i) (update found) ds)
  written-Fresh [] = tt
  written-Fresh (d ∷ ds) = (
    if_ind Fresh (has_drive_id i d) (λ _ _. (refl, refl))
        (λ n e. elim (false≢true (sym n ∙ (==_iff d.drive_id i).1 e)) [ ]),
    written-Fresh ds,
  )

  blanked-Fresh :
      (jobs : List Job) (j : ℕ) (drive : DriveInformation) (ds : List Drive)
      → ((d : Drive) → conflicts jobs j drive d ≡ true → Fresh d → d.drive_id ≡ i → ⊥)
      → All Fresh ds
      → All Fresh (map_if (conflicts jobs j drive) blank_mount ds)
  blanked-Fresh jobs j drive ds other h =
      All-map_if Fresh (conflicts jobs j drive) blank_mount ds (λ d c g e. elim (other d c g e) [ ])
        h

  -- The row is written for the drive itself.
  pub seated :
      (jobs : List Job) (ds : List Drive)
      → any (has_drive_id i) ds ≡ true
      → Seated
          (map_if (conflicts jobs i found) blank_mount (map_if (has_drive_id i) (update found) ds))
  seated jobs ds h = (
    any-map_if i _ _ _ (λ d. refl) ∙ any-map_if i _ _ ds (λ d. refl) ∙ h,
    blanked-Fresh jobs i found _ (λ d c _ e. own d c e) (written-Fresh ds),
  )
    where
      own : (d : Drive) → conflicts jobs i found d ≡ true → d.drive_id ≡ i → ⊥
      own d c e = ground (arith, (==_iff d.drive_id i).1 e)

  -- A row is written for another drive.
  other-Seated :
      (jobs : List Job) (j : ℕ) (drive : DriveInformation) (ds : List Drive)
      → str_eq found.mount drive.mount ≡ false
      → (j ≡ i → ⊥)
      → Seated ds
      → Seated
          (map_if (conflicts jobs j drive) blank_mount (map_if (has_drive_id j) (update drive) ds))
  other-Seated jobs j drive ds apart ne (a, h) = (
    any-map_if i _ _ _ (λ d. refl) ∙ any-map_if i _ _ ds (λ d. refl) ∙ a,
    blanked-Fresh jobs j drive _ (λ d c g e. elsewhere d c (g e).0)
        (All-map_if Fresh (has_drive_id j) (update drive) ds
          (λ d t _ e. elim (ne (sym ((==_iff d.drive_id j).0 t) ∙ e)) [ ]) h),
  )
    where
      elsewhere : (d : Drive) → conflicts jobs j drive d ≡ true → d.information ≡ found → ⊥
      elsewhere d c e = mounts_differ found drive d apart (ground arith) e

  -- The row that is found for another drive is not this one.
  find_drive-other :
      (drive : DriveInformation) (ds : List Drive)
      → str_eq found.mount drive.mount ≡ false
      → All Fresh ds
      → Holds (λ d. d.drive_id ≡ i → ⊥) (find_drive drive ds)
  find_drive-other drive ds apart h =
      find_drive-Holds Fresh (λ d. d.drive_id ≡ i → ⊥) drive ds (λ d t g e. stale d t (g e).1)
        (λ d t g e. stale_too d t (g e).1) (λ d t g e. mounts_differ found drive d apart t (g e).0)
        h
    where
      stale : (d : Drive) → same_serial drive d ≡ true → d.stale ≡ false → ⊥
      stale d t e = ground arith

      stale_too : (d : Drive) → same_location drive d ≡ true → d.stale ≡ false → ⊥
      stale_too d t e = ground arith

  created-still :
      (drive : DriveInformation) (s : Database) (o : Option Drive)
      → str_eq found.mount drive.mount ≡ false
      → Holds (λ d. d.drive_id ≡ i → ⊥) o
      → i < s.next_drive_id
      → Seated s.drives
      → let (t, j) = create o drive s in
        Seated (
          map_if
            (conflicts t.jobs j drive)
            blank_mount
            (map_if (has_drive_id j) (update drive) t.drives))
        × (i < t.next_drive_id)
  created-still drive s (some d) apart other below h =
      (other-Seated s.jobs d.drive_id drive s.drives apart other h, below)
  created-still drive s none apart other below (a, h) = (
    other-Seated s.jobs s.next_drive_id drive _ apart (λ e. omega (arith, e, below))
        (
          rw (any-append_left i s.drives (new_drive s.next_drive_id drive) a) refl,
          All-append Fresh s.drives _ h ((λ e. absurd (omega (arith, e, below))), tt),
        ),
    omega (arith, below),
  )

  detected-still :
      (drive : DriveInformation) (s : Database)
      → str_eq found.mount drive.mount ≡ false
      → i < s.next_drive_id
      → Seated s.drives
      → Seated (update_detected drive s).drives × (i < (update_detected drive s).next_drive_id)
  unfolding update_detected find_or_create_drive
  detected-still drive s apart below h =
      created-still drive s (find_drive drive s.drives) apart
        (find_drive-other drive s.drives apart h.1) below h

  pub update_all-still :
      (more : List DriveInformation) (s : Database)
      → All (λ drive. str_eq found.mount drive.mount ≡ false) more
      → i < s.next_drive_id
      → Seated s.drives
      → Seated (update_all more s).drives
  unfolding update_all
  update_all-still [] s apart below h = h
  update_all-still (drive ∷ more) s apart below h =
      let (seat, later) = detected-still drive s apart.0 below h in
      update_all-still more (update_detected drive s) apart.1 later seat

  pub cleaned-Fresh :
      (jobs : List Job) (ds : List Drive)
      → All Fresh ds
      → All Fresh (map_if (is_lost jobs) (clean_drive jobs) ds)
  cleaned-Fresh jobs ds h =
      All-map_if Fresh (is_lost jobs) (clean_drive jobs) ds
        (λ d l g e. elim (kept d l (g (sym (clean-id jobs d) ∙ e)).1) [ ]) h
    where
      kept : (d : Drive) → is_lost jobs d ≡ true → d.stale ≡ false → ⊥
      kept d l e = ground arith

-- ===== src/Machine/Drives/Rescan.antt =====
-- What a rescan does to the drives that are ripping.
use automatic_ripping_machin.Common.{
  map_if, All, All-append, All-keep, All-keep_test, All-map_if, All-mono, All-zip, Holds,
  find-Holds, All-sort, ==_iff, if_ind, is_empty, ℕ, ◌<◌, String, ◌≡◌, refl, sym, ◌∙◌, subst, Bool,
  true, false, Option, none, some, List, [], ◌∷◌, ◌++◌, arith, eq_iff,
}
use automatic_ripping_machin.Machine.{
  Job, Drive, DriveInformation, Database, has_drive_id, processing,
}
use automatic_ripping_machin.Machine.Drives.{
  first, mark_stale, mount_before, same_serial, same_location, same_mount, update, new_drive,
  by_serial, by_location, or_try, find_drive, find_or_create_drive, create, conflicts, blank_mount,
  update_detected, update_all, is_lost, clean_drive, cleanup_stale_drives, drives_update,
}

first-Holds {ℓ κ} : {A : Type ℓ} (P : A → Type κ) (xs : List A) → All P xs → Holds P (first xs)
first-Holds P [] h = tt
first-Holds P (x ∷ xs) h = h.0

or_try-Holds {ℓ κ} :
    {A : Type ℓ} (P : A → Type κ) (x y : Option A) → Holds P x → Holds P y → Holds P (or_try x y)
or_try-Holds P none y h k = k
or_try-Holds P (some x) y h k = h

pub clean-id : (jobs : List Job) (d : Drive) → (clean_drive jobs d).drive_id ≡ d.drive_id
clean-id jobs d =
    if_ind (λ (x : Drive). x.drive_id ≡ d.drive_id) (processing jobs d) (λ _. refl) (λ _. refl)

-- What holds of a row by the test that it passes, holds of the row that is found.
pub find_drive-Holds :
    (A T : Drive → Type 0) (drive : DriveInformation) (ds : List Drive)
    → ((d : Drive) → same_serial drive d ≡ true → A d → T d)
    → ((d : Drive) → same_location drive d ≡ true → A d → T d)
    → ((d : Drive) → same_mount drive d ≡ true → A d → T d)
    → All A ds
    → Holds T (find_drive drive ds)
unfolding find_drive
find_drive-Holds A T drive ds by_s by_l by_m h = or_try-Holds T _ _ serial (
    or_try-Holds T _ _ location
      (find-Holds T (same_mount drive) ds (All-mono _ _ ds (λ d a t. by_m d t a) h)))
  where
    serial : Holds T (by_serial drive ds)
    serial =
        if_ind (Holds T) (is_empty drive.serial_id) (λ _. tt)
          (λ _. first-Holds T _ (
            All-sort mount_before T _ (
              All-mono _ _ _ (λ d a. by_s d a.1 a.0)
                (All-zip _ _ _ (All-keep _ (same_serial drive) ds h)
                  (All-keep_test _ (same_serial drive) ds (λ d e. e))))))

    location : Holds T (by_location drive ds)
    location =
        if_ind (Holds T) (is_empty drive.location) (λ _. tt)
          (λ _. find-Holds T (same_location drive) ds (All-mono _ _ ds (λ d a t. by_l d t a) h))

module _ (jobs : List Job) (i : ℕ) (m : String) where
  -- The drive `i` has a job and the mount `m`.
  abbrev pub Rips : Drive → Type 0
  Rips d = d.drive_id ≡ i → (processing jobs d ≡ true) × (d.information.mount ≡ m)

  -- Moreover it is not stale.
  abbrev Active : Drive → Type 0
  Active d =
      d.drive_id ≡ i → (processing jobs d ≡ true) × (d.information.mount ≡ m) × (d.stale ≡ false)

  abbrev Target : DriveInformation → Drive → Type 0
  Target drive d = d.drive_id ≡ i → drive.mount ≡ m

  mark-Active : (startup : Bool) (d : Drive) → Rips d → Active (mark_stale jobs startup d)
  mark-Active startup d h e = ground (arith, h e)

  serial-Target :
      (drive : DriveInformation) (d : Drive)
      → same_serial drive d ≡ true
      → Active d
      → Target drive d
  serial-Target drive d t h e = ground (arith, h e)

  location-Target :
      (drive : DriveInformation) (d : Drive)
      → same_location drive d ≡ true
      → Active d
      → Target drive d
  location-Target drive d t h e = ground (arith, h e)

  mount-Target :
      (drive : DriveInformation) (d : Drive) → same_mount drive d ≡ true → Active d → Target drive d
  mount-Target drive d t h e = sym ((eq_iff d.information.mount drive.mount).0 t) ∙ (h e).1

  find_drive-Target :
      (drive : DriveInformation) (ds : List Drive)
      → All Active ds
      → Holds (Target drive) (find_drive drive ds)
  find_drive-Target drive ds h =
      find_drive-Holds Active (Target drive) drive ds (serial-Target drive) (location-Target drive)
        (mount-Target drive) h

  update-Active :
      (drive : DriveInformation) (d : Drive) → Target drive d → Active d → Active (update drive d)
  update-Active drive d t h e = ground (arith, h e, t e)

  conflict-Active :
      (j : ℕ) (drive : DriveInformation) (d : Drive)
      → conflicts jobs j drive d ≡ true
      → Active d
      → Active (blank_mount d)
  conflict-Active j drive d c h e = ground (arith, h e)

  Active-Rips : (d : Drive) → Active d → Rips d
  Active-Rips d h e = ((h e).0, (h e).1)

  lost_other : (d : Drive) → is_lost jobs d ≡ true → Active d → (d.drive_id ≡ i → ⊥)
  lost_other d l h e = ground (arith, h e)

  lost-Rips : (d : Drive) → is_lost jobs d ≡ true → Active d → Rips (clean_drive jobs d)
  lost-Rips d l h =
      if_ind Rips (processing jobs d) (λ _ e. elim (lost_other d l h e) [ ])
        (λ _ e. elim (lost_other d l h e) [ ])

  clean-Rips_list :
      (ds : List Drive) → All Active ds → All Rips (map_if (is_lost jobs) (clean_drive jobs) ds)
  clean-Rips_list [] k = tt
  clean-Rips_list (d ∷ ds) k = (
    if_ind Rips (is_lost jobs d) (λ l. lost-Rips d l k.0) (λ _. Active-Rips d k.0),
    clean-Rips_list ds k.1,
  )

  marked :
      (startup : Bool) (ds : List Drive)
      → All Rips ds
      → All Active (map_if (λ _. true) (mark_stale jobs startup) ds)
  marked startup [] k = tt
  marked startup (d ∷ ds) k = (mark-Active startup d k.0, marked startup ds k.1)

  -- One detected drive, from the row that was found for it.
  targeted :
      (drive : DriveInformation) (j : ℕ) (ds : List Drive)
      → (j ≡ i → drive.mount ≡ m)
      → All Active ds
      → All Active
          (map_if (conflicts jobs j drive) blank_mount (map_if (has_drive_id j) (update drive) ds))
  targeted drive j ds t h =
      All-map_if Active (conflicts jobs j drive) blank_mount _
        (λ d c a. conflict-Active j drive d c a)
        (All-map_if Active (has_drive_id j) (update drive) ds
          (λ d hit a. update-Active drive d (λ e. t (sym ((==_iff d.drive_id j).0 hit) ∙ e)) a) h)

apart : (i n : ℕ) → i < n → n ≡ i → ⊥
apart i n h e = omega arith

module _ (i : ℕ) (m : String) where
  -- The drive `i` is active, its key is taken, and the jobs are those.
  abbrev Kept : List Job → Database → Type 0
  Kept jobs s = All (Active jobs i m) s.drives × (i < s.next_drive_id) × (s.jobs ≡ jobs)

  created-Kept :
      (drive : DriveInformation) (s : Database) (o : Option Drive)
      → Holds (Target s.jobs i m drive) o
      → i < s.next_drive_id
      → All (Active s.jobs i m) s.drives
      → let (t, j) = create o drive s in
        Kept s.jobs (record t {
          drives =
              map_if
                (conflicts t.jobs j drive)
                blank_mount
                (map_if (has_drive_id j) (update drive) t.drives);
        })
  created-Kept drive s (some d) t below h =
      (targeted s.jobs i m drive d.drive_id s.drives t h, below, refl)
  created-Kept drive s none t below h = (
    targeted s.jobs i m drive s.next_drive_id (s.drives ++ new_drive s.next_drive_id drive ∷ [])
        (λ e. elim (apart i s.next_drive_id below e) [ ])
        (All-append _ s.drives _ h (λ e. elim (apart i s.next_drive_id below e) [ ], tt)),
    omega arith,
    refl,
  )

  detected-Kept :
      (drive : DriveInformation) (s : Database)
      → i < s.next_drive_id
      → All (Active s.jobs i m) s.drives
      → Kept s.jobs (update_detected drive s)
  unfolding update_detected find_or_create_drive
  detected-Kept drive s below h =
      created-Kept drive s (find_drive drive s.drives)
        (find_drive-Target s.jobs i m drive s.drives h) below h

  update_all-Kept :
      (detected : List DriveInformation) (s : Database)
      → i < s.next_drive_id
      → All (Active s.jobs i m) s.drives
      → Kept s.jobs (update_all detected s)
  unfolding update_all
  update_all-Kept [] s below h = (h, below, refl)
  update_all-Kept (drive ∷ more) s below h =
      let (one, later, same) = detected-Kept drive s below h in
      subst (λ jobs. Kept jobs (update_all more (update_detected drive s))) same
        (update_all-Kept more (update_detected drive s) later
          (subst (λ jobs. All (Active jobs i m) (update_detected drive s).drives) (sym same) one))

  -- A rescan never changes the mount of a drive with an active job and never takes the job from
  -- it, whatever drives are detected: the rows of that drive have the mount and the job after the
  -- rescan that they have before it.
  pub drives_update-Rips :
      (startup : Bool) (detected : List DriveInformation) (s : Database)
      → i < s.next_drive_id
      → All (Rips s.jobs i m) s.drives
      → All (Rips s.jobs i m) (drives_update startup detected s).drives
  unfolding drives_update cleanup_stale_drives
  drives_update-Rips startup detected s below h =
      let ready = record s { drives = map_if (λ _. true) (mark_stale s.jobs startup) s.drives } in
      let (kept, _, same) =
        update_all-Kept detected ready below (marked s.jobs i m startup s.drives h) in
      rw same (clean-Rips_list s.jobs i m (update_all detected ready).drives kept)

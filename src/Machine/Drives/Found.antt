-- ===== src/Machine/Drives/Found.antt =====
-- After a rescan, the drives that udev found are in the table.
use automatic_ripping_machin.Common.{
  any, map_if, All, All-append, All-map_if, All-mono, All-zip, Holds, ==_refl, ℕ, ◌+◌, ◌<◌, ◌≡◌,
  refl, ◌∙◌, Bool, true, Option, none, some, List, [], ◌∷◌, arith,
}
use automatic_ripping_machin.Machine.{Job, Drive, DriveInformation, Database, has_drive_id}
use automatic_ripping_machin.Machine.Drives.{
  mark_stale, update, new_drive, find_drive, find_or_create_drive, create, conflicts, blank_mount,
  update_detected, update_all, is_lost, clean_drive, cleanup_stale_drives, drives_update,
}
use automatic_ripping_machin.Machine.Drives.Rescan.{find_drive-Holds, clean-id}
use automatic_ripping_machin.Machine.Drives.Seats.{
  IsBelow, DistinctMounts, Seated, seated, update_all-still, cleaned-Fresh, any-map_if, any-append,
  among_all,
}

-- The rows with the key that is found are there, and the key is taken.
abbrev Taken : Database → Drive → Type 0
Taken s d = (any (has_drive_id d.drive_id) s.drives ≡ true) × (d.drive_id < s.next_drive_id)

below-map_if :
    (n : ℕ) (p : Drive → Bool) (f : Drive → Drive) (ds : List Drive)
    → ((d : Drive) → (f d).drive_id ≡ d.drive_id)
    → All (λ d. d.drive_id < n) ds
    → All (λ d. d.drive_id < n) (map_if p f ds)
below-map_if n p f ds same h =
    All-map_if (λ (d : Drive). d.drive_id < n) p f ds (λ d _ k. rw (same d) k) h

created-Seated :
    (drive : DriveInformation) (s : Database) (o : Option Drive)
    → Holds (Taken s) o
    → IsBelow s
    → let (t, j) = create o drive s in
      Seated j drive (
        map_if
          (conflicts t.jobs j drive)
          blank_mount
          (map_if (has_drive_id j) (update drive) t.drives))
      × (j < t.next_drive_id)
      × All
          (λ d. d.drive_id < t.next_drive_id)
          (map_if
            (conflicts t.jobs j drive)
            blank_mount
            (map_if (has_drive_id j) (update drive) t.drives))
created-Seated drive s (some d) (there, less) below = (
  seated d.drive_id drive s.jobs s.drives there,
  less,
  below-map_if s.next_drive_id _ _ _ (λ e. refl)
      (below-map_if s.next_drive_id _ _ s.drives (λ e. refl) below),
)
created-Seated drive s none k below = (
  seated s.next_drive_id drive s.jobs _ (
      any-append s.next_drive_id s.drives (new_drive s.next_drive_id drive)
        (==_refl s.next_drive_id)),
  omega arith,
  below-map_if (s.next_drive_id + 1) _ _ _ (λ e. refl)
      (below-map_if (s.next_drive_id + 1) _ _ _ (λ e. refl)
        (All-append _ s.drives _ (All-mono _ _ s.drives (λ d h. omega (arith, h)) below)
          (omega arith, tt))),
)

detected-Seated :
    (drive : DriveInformation) (s : Database)
    → IsBelow s
    → (i : ℕ) × Seated i drive (update_detected drive s).drives
      × (i < (update_detected drive s).next_drive_id)
      × IsBelow (update_detected drive s)
unfolding update_detected find_or_create_drive
detected-Seated drive s below =
    let (seat, less, still) =
      created-Seated drive s (find_drive drive s.drives)
        (find_drive-Holds (Taken s) (Taken s) drive s.drives (λ d _ h. h) (λ d _ h. h) (λ d _ h. h)
          (All-zip _ _ s.drives (among_all s.drives) below))
        below in
    ((find_or_create_drive drive s).1, seat, less, still)

-- The drive has a row, and every row with its key holds what was found.
abbrev pub HasRow : List Drive → DriveInformation → Type 0
HasRow ds drive = (i : ℕ) × Seated i drive ds

update_all-HasRow :
    (detected : List DriveInformation) (s : Database)
    → DistinctMounts detected
    → IsBelow s
    → All (HasRow (update_all detected s).drives) detected
unfolding update_all
update_all-HasRow [] s apart below = tt
update_all-HasRow (drive ∷ more) s apart below =
    let (i, seat, less, still) = detected-Seated drive s below in
    (
      (i, update_all-still i drive more (update_detected drive s) apart.0 less seat),
      update_all-HasRow more (update_detected drive s) apart.1 still,
    )

cleaned-HasRow :
    (jobs : List Job) (ds : List Drive) (drive : DriveInformation)
    → HasRow ds drive
    → HasRow (map_if (is_lost jobs) (clean_drive jobs) ds) drive
cleaned-HasRow jobs ds drive (i, (there, fresh)) = (
  i,
  (
    any-map_if i (is_lost jobs) (clean_drive jobs) ds (clean-id jobs) ∙ there,
    cleaned-Fresh i drive jobs ds fresh,
  ),
)

-- Where no two of the drives that udev found have one mount, and the keys of the rows are below the
-- next one: after a rescan every drive that was found has a row, which holds what was found of it
-- and is not stale.
pub drives_update-HasRow :
    (startup : Bool) (detected : List DriveInformation) (s : Database)
    → DistinctMounts detected
    → IsBelow s
    → All (HasRow (drives_update startup detected s).drives) detected
unfolding drives_update cleanup_stale_drives
drives_update-HasRow startup detected s apart below =
    let ready = record s { drives = map_if (λ _. true) (mark_stale s.jobs startup) s.drives } in
    let after = update_all detected ready in
    All-mono _ _ detected (λ drive h. cleaned-HasRow after.jobs after.drives drive h)
      (update_all-HasRow detected ready apart (
        below-map_if s.next_drive_id (λ _. true) (mark_stale s.jobs startup) s.drives (λ d. refl)
          below))

-- ===== src/Machine/Drives/Rows.antt =====
-- The rows of the drives' table over a rescan.
use mathlib.Core.List.{append-nil, append_assoc}
use automatic_ripping_machin.Common.{
  map_if, All, All-append, All-map_if, Listed, All-Listed, Bool-cases, if_ind, only_spaces, ℕ, ◌≡◌,
  refl, sym, ap, ◌∙◌, ◌⊎◌, inl, inr, Bool, true, false, Option, none, some, List, [], ◌∷◌, ◌++◌,
  map, arith,
}
use automatic_ripping_machin.Machine.{
  Job, Drive, DriveInformation, Database, has_drive_id, processing,
}
use automatic_ripping_machin.Machine.Drives.Rescan.{clean-id}
use automatic_ripping_machin.Machine.Drives.{
  mark_stale, new_drive, update, find_drive, find_or_create_drive, create, conflicts, blank_mount,
  update_detected, update_all, is_lost, clean_drive, cleanup_stale_drives, drives_update,
}

abbrev pub ids : List Drive → List ℕ
ids ds = map (λ (d : Drive). d.drive_id) ds

ids-map_if :
    (p : Drive → Bool) (f : Drive → Drive) (ds : List Drive)
    → ((d : Drive) → (f d).drive_id ≡ d.drive_id)
    → ids (map_if p f ds) ≡ ids ds
ids-map_if p f [] same = refl
ids-map_if p f (d ∷ ds) same = rw (ids-map_if p f ds same) (
    ap (λ i. i ∷ ids ds)
      (if_ind (λ (x : Drive). x.drive_id ≡ d.drive_id) (p d) (λ _. same d) (λ _. refl)))

ids-append : (ds es : List Drive) → ids (ds ++ es) ≡ ids ds ++ ids es
ids-append [] es = refl
ids-append (d ∷ ds) es = rw (ids-append ds es) refl

-- The rows `t` are those of `s`, in their order, and perhaps more.
abbrev pub Extends : List Drive → List Drive → Type 0
Extends ds es = (more : List ℕ) × (ids es ≡ ids ds ++ more)

detected-Extends :
    (drive : DriveInformation) (s : Database) → Extends s.drives (update_detected drive s).drives
unfolding update_detected find_or_create_drive
detected-Extends drive s = row (find_drive drive s.drives)
  where
    same :
        (j : ℕ) (jobs : List Job) (ds : List Drive)
        → ids (
            map_if (conflicts jobs j drive) blank_mount (map_if (has_drive_id j) (update drive) ds))
          ≡ ids ds
    same j jobs ds = ids-map_if _ _ _ (λ d. refl) ∙ ids-map_if _ _ ds (λ d. refl)

    row :
        (o : Option Drive)
        → let (t, j) = create o drive s in
          Extends s.drives (
            map_if
              (conflicts t.jobs j drive)
              blank_mount
              (map_if (has_drive_id j) (update drive) t.drives))
    row (some d) = ([], same d.drive_id s.jobs s.drives ∙ sym (append-nil (ids s.drives)))
    row none = (s.next_drive_id ∷ [], same s.next_drive_id s.jobs _ ∙ ids-append s.drives _)

update_all-Extends :
    (detected : List DriveInformation) (s : Database)
    → Extends s.drives (update_all detected s).drives
unfolding update_all
update_all-Extends [] s = ([], sym (append-nil (ids s.drives)))
update_all-Extends (drive ∷ more) s =
    let (xs, e) = detected-Extends drive s in
    let (ys, f) = update_all-Extends more (update_detected drive s) in
    (xs ++ ys, f ∙ rw e (append_assoc (ids s.drives) xs ys))

module _ (jobs : List Job) (detected : List DriveInformation) where
  -- The drive has a job of the table, or no mount, or it is as it was detected.
  abbrev pub IsPlaced : Drive → Type 0
  IsPlaced d =
      (processing jobs d ≡ true)
      ⊎ (only_spaces d.information.mount ≡ true)
      ⊎ Listed detected d.information

  -- As above, or the drive is marked.
  abbrev Marked : Drive → Type 0
  Marked d = (d.stale ≡ true) ⊎ IsPlaced d

  mark-Marked : (startup : Bool) (d : Drive) → Marked (mark_stale jobs startup d)
  mark-Marked startup d = elim (Bool-cases (processing jobs d)) [
    | inl e ↦ inr (inl e)
    | inr e ↦ inl (rw e refl)
  ]

  blank-Marked : (d : Drive) → Marked (blank_mount d)
  blank-Marked d = inr (inr (inl (unfold only_spaces in refl)))

  clean-IsPlaced : (d : Drive) → IsPlaced (clean_drive jobs d)
  clean-IsPlaced d = elim (Bool-cases (processing jobs d)) [
    | inl e ↦ rw e (inl e)
    | inr e ↦ rw e (inr (inl (unfold only_spaces in refl)))
  ]

  found-IsPlaced : (d : Drive) → is_lost jobs d ≡ false → Marked d → IsPlaced d
  found-IsPlaced d l (inr p) = p
  found-IsPlaced d l (inl e) = inr (inl (ground arith))

  cleaned-IsPlaced :
      (ds : List Drive) → All Marked ds → All IsPlaced (map_if (is_lost jobs) (clean_drive jobs) ds)
  cleaned-IsPlaced [] h = tt
  cleaned-IsPlaced (d ∷ ds) h = (
    if_ind IsPlaced (is_lost jobs d) (λ _. clean-IsPlaced d) (λ l. found-IsPlaced d l h.0),
    cleaned-IsPlaced ds h.1,
  )

  row-Marked :
      (drive : DriveInformation) (i : ℕ) (ds : List Drive)
      → Listed detected drive
      → All Marked ds
      → All Marked
          (map_if (conflicts jobs i drive) blank_mount (map_if (has_drive_id i) (update drive) ds))
  row-Marked drive i ds l h =
      All-map_if Marked (conflicts jobs i drive) blank_mount
        (map_if (has_drive_id i) (update drive) ds) (λ d _ _. blank-Marked d)
        (All-map_if Marked (has_drive_id i) (update drive) ds (λ d _ _. inr (inr (inr l))) h)

  detected-Marked :
      (drive : DriveInformation) (s : Database)
      → s.jobs ≡ jobs
      → Listed detected drive
      → All Marked s.drives
      → ((update_detected drive s).jobs ≡ jobs) × All Marked (update_detected drive s).drives
  unfolding update_detected find_or_create_drive
  detected-Marked drive s e l h = row (find_drive drive s.drives)
    where
      row :
          (o : Option Drive)
          → let (t, j) = create o drive s in
            (t.jobs ≡ jobs)
            × All Marked (
                map_if
                  (conflicts t.jobs j drive)
                  blank_mount
                  (map_if (has_drive_id j) (update drive) t.drives))
      row (some d) = (e, rw e (row-Marked drive d.drive_id s.drives l h))
      row none = (
        e,
        rw e (
            row-Marked drive s.next_drive_id _ l
              (All-append Marked s.drives (new_drive s.next_drive_id drive ∷ []) h (inl refl, tt))),
      )

  update_all-Marked :
      (more : List DriveInformation) (s : Database)
      → s.jobs ≡ jobs
      → All (Listed detected) more
      → All Marked s.drives
      → ((update_all more s).jobs ≡ jobs) × All Marked (update_all more s).drives
  unfolding update_all
  update_all-Marked [] s e l h = (e, h)
  update_all-Marked (drive ∷ more) s e l h =
      let (same, marked) = detected-Marked drive s e l.0 h in
      update_all-Marked more (update_detected drive s) same l.1 marked

mark_stale-Marked :
    (jobs : List Job) (detected : List DriveInformation) (startup : Bool) (ds : List Drive)
    → All (Marked jobs detected) (map_if (λ _. true) (mark_stale jobs startup) ds)
mark_stale-Marked jobs detected startup [] = tt
mark_stale-Marked jobs detected startup (d ∷ ds) =
    (mark-Marked jobs detected startup d, mark_stale-Marked jobs detected startup ds)

-- A rescan deletes no row: it keeps the rows in their order and adds rows behind them. After it,
-- every row has a job of the table, or has no mount, or holds what udev found of a drive.
pub drives_update_rows :
    (startup : Bool) (detected : List DriveInformation) (s : Database)
    → Extends s.drives (drives_update startup detected s).drives
      × All (IsPlaced s.jobs detected) (drives_update startup detected s).drives
unfolding drives_update cleanup_stale_drives
drives_update_rows startup detected s =
    let ready = record s { drives = map_if (λ _. true) (mark_stale s.jobs startup) s.drives } in
    let after = update_all detected ready in
    let (more, e) = update_all-Extends detected ready in
    let (same, marked) =
      update_all-Marked s.jobs detected detected ready refl (All-Listed detected)
        (mark_stale-Marked s.jobs detected startup s.drives) in
    (
      (
        more,
        ids-map_if (is_lost after.jobs) (clean_drive after.jobs) after.drives (clean-id after.jobs)
            ∙ e
            ∙ ap (λ xs. xs ++ more)
                (ids-map_if (λ _. true) (mark_stale s.jobs startup) s.drives (λ d. refl)),
      ),
      rw same (cleaned-IsPlaced s.jobs detected after.drives marked),
    )

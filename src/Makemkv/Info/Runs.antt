-- ===== src/Makemkv/Info/Runs.antt =====
-- The rows of a scan are those of the runs of messages with one title.
use automatic_ripping_machin.Common.{
  ◌==◌, is_some, or_else, if_ind, ℕ, String, ◌≡◌, refl, Bool, true, false, not, ◌||◌, Option, none,
  some, List, [], ◌∷◌, ◌++◌,
}
use automatic_ripping_machin.Makemkv.Info.{
  Info, cinfo, tinfo, sinfo, titles, Row, Found, nothing_found, Texts, convert_to_seconds,
  set_seconds, set_fps, with_stream, is_video, handle_tinfo, handle_sinfo, tid_of, read,
}

-- A title and its messages.
abbrev pub Run : Type 0
Run = ℕ × List Info

-- The runs, where the title `i` has the messages `ms` so far.
unfoldable pub runs_from : ℕ → List Info → List Info → List Run
runs_from i ms [] = (i, ms) ∷ []
runs_from i ms (n ∷ ns) = elim (tid_of n) [
  | none ↦ runs_from i ms ns
  | some j ↦ elim (i == j) [
    | true ↦ runs_from i (ms ++ n ∷ []) ns
    | false ↦ (i, ms) ∷ runs_from j (n ∷ []) ns
  ]
]

unfoldable pub runs : List Info → List Run
unfolding runs_from
runs [] = []
runs (n ∷ ns) = elim (tid_of n) [ none ↦ runs ns | some j ↦ runs_from j (n ∷ []) ns ]

-- No exception is raised by the length of a title or by the rate of a stream.
unfoldable pub is_fine : Texts → Info → Bool
is_fine texts (tinfo tid id code value) =
    not (id == 9) || is_some (convert_to_seconds texts.int_of (texts.strip value))
is_fine texts (sinfo tid id code value) = not (id == 21) || is_some (texts.float_text value)
is_fine texts _ = true

module _ (texts : Texts) (basename : String) where
  unfoldable pub read_run : Option ℕ × Found → List Info → Option ℕ × Found
  unfolding handle_tinfo handle_sinfo
  read_run s [] = s
  read_run s (m ∷ ms) = read_run (or_else (read texts m s) s) ms

  -- What a row says of a title.
  abbrev told : ℕ → Found → Row
  told i f = record {
    track_number = i;
    length = f.seconds;
    aspect_ratio = f.aspect;
    fps = f.fps;
    main_feature = false;
    source = "MakeMKV";
    basename = basename;
    filename = f.filename;
    chapters = f.chapters;
    filesize = f.filesize;
    ripped = false;
  }

  -- One row for each run, read from nothing but the type of the last stream before it.
  unfoldable pub rows_of_runs : Option ℕ → List Run → List Row
  unfolding read_run
  rows_of_runs stream [] = []
  rows_of_runs stream ((i, ms) ∷ rs) =
      let (later, f) = read_run (stream, nothing_found) ms in told i f ∷ rows_of_runs later rs

  pub read_run-append :
      (ms : List Info) (m : Info) (s t : Option ℕ × Found)
      → read texts m (read_run s ms) ≡ some t
      → read_run s (ms ++ m ∷ []) ≡ t
  unfolding read_run
  read_run-append [] m s t h = rw h refl
  read_run-append (n ∷ ms) m s t h = read_run-append ms m (or_else (read texts n s) s) t h

  pub some_of {ℓ} : {A : Type ℓ} (o : Option A) → is_some o ≡ true → (a : A) × (o ≡ some a)
  some_of none h = cc
  some_of (some a) h = (a, refl)

  is_some-set_seconds :
      (f : Found) (o : Option ℕ) → is_some o ≡ true → is_some (set_seconds f o) ≡ true
  is_some-set_seconds f none h = h
  is_some-set_seconds f (some n) h = refl

  is_some-set_fps :
      (stream : Option ℕ) (f : Found) (o : Option String)
      → is_some o ≡ true
      → is_some (with_stream stream (set_fps f o)) ≡ true
  is_some-set_fps stream f none h = h
  is_some-set_fps stream f (some n) h = refl

  is_some-with_stream :
      (stream : Option ℕ) (o : Option Found)
      → is_some o ≡ true
      → is_some (with_stream stream o) ≡ true
  is_some-with_stream stream none h = h
  is_some-with_stream stream (some f) h = refl

  needed : (b c : Bool) → b ≡ true → not b || c ≡ true → c ≡ true
  needed true c e h = h
  needed false c e h = cc

  pub read_fine :
      (m : Info) (s : Option ℕ × Found) → is_fine texts m ≡ true → is_some (read texts m s) ≡ true
  unfolding is_fine handle_tinfo handle_sinfo
  read_fine (cinfo _ _ _) s h = refl
  read_fine (titles _) s h = refl
  read_fine (tinfo tid id code value) (stream, f) h =
      let P : Option Found → Type 0 = λ o. is_some o ≡ true in
      is_some-with_stream stream _ (
        if_ind P (id == 27) (λ _. refl)
          (λ _.
            if_ind P (id == 9) (λ e. is_some-set_seconds f _ (needed _ _ e h))
              (λ _.
                if_ind P (id == 8) (λ _. refl) (λ _. if_ind P (id == 11) (λ _. refl) (λ _. refl)))))
  read_fine (sinfo tid id code value) (stream, f) h =
      let P : Option (Option ℕ × Found) → Type 0 = λ o. is_some o ≡ true in
      if_ind P (id == 1) (λ _. refl)
        (λ _.
          if_ind P (not (is_video stream)) (λ _. refl)
            (λ _.
              if_ind P (id == 20) (λ _. refl)
                (λ _.
                  if_ind P (id == 21) (λ e. is_some-set_fps stream f _ (needed _ _ e h))
                    (λ _. refl))))

-- ===== src/Makemkv/Info/Scan.antt =====
-- The loop of `TrackInfoProcessor` gives the rows of the runs.
use mathlib.Core.List.{append_assoc}
use automatic_ripping_machin.Common.{
  All, ◌==◌, ==_iff, Bool-cases, Option-cases, ℕ, String, ◌≡◌, refl, sym, ap, ◌∙◌, subst, inl, inr,
  true, false, Option, none, some, List, [], ◌∷◌, ◌++◌,
}
use automatic_ripping_machin.Makemkv.Info.{
  Info, cinfo, tinfo, sinfo, titles, Row, Found, nothing_found, Processor, Texts, row_of, add_track,
  enter, tid_of, read, note_titles, process_message, process_all, processor, process_messages,
}
use automatic_ripping_machin.Makemkv.Info.Runs.{
  Run, runs_from, runs, is_fine, read_run, rows_of_runs, read_run-append, read_fine, some_of,
}

module _ (texts : Texts) (basename : String) where
  -- The processor within the title `i`.
  abbrev within : ℕ → Found → Option ℕ → List Row → Option ℕ → Processor
  within i f stream rows n = record {
    track_id = some i;
    found = f;
    stream_type = stream;
    rows = rows;
    no_of_titles = n;
  }

  same_title :
      (m : Info) (i j : ℕ) (f g : Found) (stream later : Option ℕ) (rows : List Row) (n : Option ℕ)
      → tid_of m ≡ some j
      → (i == j) ≡ true
      → read texts m (stream, f) ≡ some (later, g)
      → process_message texts basename m (within i f stream rows n)
        ≡ (within i g later rows n, true)
  unfolding process_message enter
  same_title m i j f g stream later rows n t e h =
      rw (t, process_message) (rw (e, enter) (rw h (rw (sym ((==_iff i j).0 e)) refl)))

  new_title :
      (m : Info) (i j : ℕ) (f g : Found) (stream later : Option ℕ) (rows : List Row) (n : Option ℕ)
      → tid_of m ≡ some j
      → (i == j) ≡ false
      → read texts m (stream, nothing_found) ≡ some (later, g)
      → process_message texts basename m (within i f stream rows n)
        ≡ (within j g later (rows ++ row_of basename i f ∷ []) n, true)
  unfolding process_message enter add_track
  new_title m i j f g stream later rows n t e h =
      rw (t, process_message) (rw (e, enter) (rw h refl))

  first_title :
      (m : Info) (j : ℕ) (g : Found) (later n : Option ℕ)
      → tid_of m ≡ some j
      → read texts m (none, nothing_found) ≡ some (later, g)
      → process_message texts basename m (record processor { no_of_titles = n })
        ≡ (within j g later [] n, true)
  unfolding process_message enter
  first_title m j g later n t h = rw (t, process_message) (rw h refl)

  -- The loop raises nothing, and the rows are these once the last title is added.
  abbrev Gives : List Info → Processor → List Row → Type 0
  Gives ms p rows =
      ((process_all texts basename ms p).1 ≡ true)
      × ((add_track basename (process_all texts basename ms p).0).rows ≡ rows)

  step-Gives :
      (m : Info) (ms : List Info) (p q : Processor) (rows : List Row)
      → process_message texts basename m p ≡ (q, true)
      → Gives ms q rows
      → Gives (m ∷ ms) p rows
  unfolding process_all
  step-Gives m ms p q rows h k = rw h k

  add_within :
      (i : ℕ) (f : Found) (stream : Option ℕ) (rows : List Row) (n : Option ℕ)
      → (add_track basename (within i f stream rows n)).rows ≡ rows ++ row_of basename i f ∷ []
  unfolding add_track
  add_within i f stream rows n = refl

  -- A message without a title changes nothing but the number of titles.
  untitled :
      (m : Info) (p : Processor)
      → tid_of m ≡ none
      → process_message texts basename m p ≡ (note_titles m p, true)
  unfolding process_message
  untitled m p h = rw (h, process_message) refl

  note_within :
      (m : Info) (i : ℕ) (f : Found) (stream : Option ℕ) (rows : List Row) (n : Option ℕ)
      → (k : Option ℕ) × (note_titles m (within i f stream rows n) ≡ within i f stream rows k)
  note_within (titles k) i f stream rows n = (some k, refl)
  note_within (cinfo _ _ _) i f stream rows n = (n, refl)
  note_within (tinfo _ _ _ _) i f stream rows n = (n, refl)
  note_within (sinfo _ _ _ _) i f stream rows n = (n, refl)

  runs_from-none :
      (i : ℕ) (ms ns : List Info) (m : Info)
      → tid_of m ≡ none
      → runs_from i ms (m ∷ ns) ≡ runs_from i ms ns
  unfolding runs_from
  runs_from-none i ms ns m h = rw (h, runs_from) refl

  runs_from-same :
      (i j : ℕ) (ms ns : List Info) (m : Info)
      → tid_of m ≡ some j
      → (i == j) ≡ true
      → runs_from i ms (m ∷ ns) ≡ runs_from i (ms ++ m ∷ []) ns
  unfolding runs_from
  runs_from-same i j ms ns m h e = rw (h, runs_from) (rw e refl)

  runs_from-new :
      (i j : ℕ) (ms ns : List Info) (m : Info)
      → tid_of m ≡ some j
      → (i == j) ≡ false
      → runs_from i ms (m ∷ ns) ≡ (i, ms) ∷ runs_from j (m ∷ []) ns
  unfolding runs_from
  runs_from-new i j ms ns m h e = rw (h, runs_from) (rw e refl)

  rows_of_runs-cons :
      (start : Option ℕ) (i : ℕ) (ms : List Info) (rs : List Run) (stream : Option ℕ) (f : Found)
      → read_run texts basename (start, nothing_found) ms ≡ (stream, f)
      → rows_of_runs texts basename start ((i, ms) ∷ rs)
        ≡ row_of basename i f ∷ rows_of_runs texts basename stream rs
  unfolding rows_of_runs
  rows_of_runs-cons start i ms rs stream f h = rw h refl

  read_run-one :
      (m : Info) (s t : Option ℕ × Found)
      → read texts m s ≡ some t
      → read_run texts basename s (m ∷ []) ≡ t
  unfolding read_run
  read_run-one m s t h = rw h refl

  scan-nil :
      (ms : List Info) (i : ℕ) (f : Found) (start stream : Option ℕ) (rows : List Row)
      (n : Option ℕ)
      → read_run texts basename (start, nothing_found) ms ≡ (stream, f)
      → Gives []
          (within i f stream rows n)
          (rows ++ rows_of_runs texts basename start (runs_from i ms []))
  unfolding process_all add_track runs_from rows_of_runs
  scan-nil ms i f start stream rows n h = (refl, rw h refl)

  scan-Gives :
      (ns ms : List Info) (i : ℕ) (f : Found) (start stream : Option ℕ) (rows : List Row)
      (n : Option ℕ)
      → All (λ m. is_fine texts m ≡ true) ns
      → read_run texts basename (start, nothing_found) ms ≡ (stream, f)
      → Gives ns
          (within i f stream rows n)
          (rows ++ rows_of_runs texts basename start (runs_from i ms ns))
  scan-Gives [] ms i f start stream rows n fine h = scan-nil ms i f start stream rows n h
  scan-Gives (m ∷ ns) ms i f start stream rows n fine h = elim (Option-cases (tid_of m)) [
    | inl t ↦
        let (k, e) = note_within m i f stream rows n in
        rw (runs_from-none i ms ns m t) (
          step-Gives m ns _ _ _ (untitled m _ t ∙ ap (λ p. (p, true)) e)
            (scan-Gives ns ms i f start stream rows k fine.1 h))
    | inr (j, t) ↦ elim (Bool-cases (i == j)) [
      | inl e ↦
          let ((later, g), r) =
            some_of texts basename (read texts m (stream, f))
              (read_fine texts basename m (stream, f) fine.0) in
          rw (runs_from-same i j ms ns m t e) (
            step-Gives m ns _ _ _ (same_title m i j f g stream later rows n t e r) (
              scan-Gives ns (ms ++ m ∷ []) i g start later rows n fine.1
                (read_run-append texts basename ms m (start, nothing_found) (later, g) (rw h r))))
      | inr e ↦
          let ((later, g), r) =
            some_of texts basename (read texts m (stream, nothing_found))
              (read_fine texts basename m (stream, nothing_found) fine.0) in
          rw
            (
              runs_from-new i j ms ns m t e,
              rows_of_runs-cons start i ms (runs_from j (m ∷ []) ns) stream f h,
            )
            (step-Gives m ns _ _ _ (new_title m i j f g stream later rows n t e r) (
              subst (λ all. Gives ns (within j g later (rows ++ row_of basename i f ∷ []) n) all)
                (append_assoc rows (row_of basename i f ∷ []) _)
                (scan-Gives ns (m ∷ []) j g stream later (rows ++ row_of basename i f ∷ []) n fine.1
                  (read_run-one m (stream, nothing_found) (later, g) r))))
    ]
  ]

  runs-none : (ns : List Info) (m : Info) → tid_of m ≡ none → runs (m ∷ ns) ≡ runs ns
  unfolding runs
  runs-none ns m h = rw (h, runs) refl

  runs-first :
      (j : ℕ) (ns : List Info) (m : Info)
      → tid_of m ≡ some j
      → runs (m ∷ ns) ≡ runs_from j (m ∷ []) ns
  unfolding runs
  runs-first j ns m h = rw (h, runs) refl

  note_start :
      (m : Info) (n : Option ℕ)
      → (k : Option ℕ) × (note_titles m (record processor { no_of_titles = n })
          ≡ record processor { no_of_titles = k })
  note_start (titles k) n = (some k, refl)
  note_start (cinfo _ _ _) n = (n, refl)
  note_start (tinfo _ _ _ _) n = (n, refl)
  note_start (sinfo _ _ _ _) n = (n, refl)

  start-nil :
      (n : Option ℕ)
      → Gives []
          (record processor { no_of_titles = n })
          (rows_of_runs texts basename none (runs []))
  unfolding process_all add_track runs rows_of_runs
  start-nil n = (refl, refl)

  start-Gives :
      (ns : List Info) (n : Option ℕ)
      → All (λ m. is_fine texts m ≡ true) ns
      → Gives ns
          (record processor { no_of_titles = n })
          (rows_of_runs texts basename none (runs ns))
  start-Gives [] n fine = start-nil n
  start-Gives (m ∷ ns) n fine = elim (Option-cases (tid_of m)) [
    | inl t ↦
        let (k, e) = note_start m n in
        rw (runs-none ns m t)
          (step-Gives m ns _ _ _ (untitled m _ t ∙ ap (λ p. (p, true)) e) (start-Gives ns k fine.1))
    | inr (j, t) ↦
        let ((later, g), r) =
          some_of texts basename (read texts m (none, nothing_found))
            (read_fine texts basename m (none, nothing_found) fine.0) in
        rw (runs-first j ns m t) (
          step-Gives m ns _ _ _ (first_title m j g later n t r) (
            scan-Gives ns (m ∷ []) j g none later [] n fine.1
              (read_run-one m (none, nothing_found) (later, g) r)))
  ]

  -- Where the lengths of the titles and the rates of the streams can be read: a scan raises no
  -- exception, and it adds one row for each run of messages with one title, in their order, the
  -- last one included, with what that run tells. Nothing is kept from one title to the next but the
  -- type of the last stream.
  pub process_messages-runs :
      (ns : List Info)
      → All (λ m. is_fine texts m ≡ true) ns
      → ((process_messages texts basename ns).1 ≡ true)
        × ((process_messages texts basename ns).0.rows ≡ rows_of_runs texts basename none (runs ns))
  unfolding process_messages
  process_messages-runs ns fine = let (e, rows) = start-Gives ns none fine in rw e (refl, rows)

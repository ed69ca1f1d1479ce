-- ===== src/Naming/Render/Titles.antt =====
-- `render_all_tracks` of arm/ripper/naming.py tells apart exactly the rows that share a title.
use mathlib.Core.List.{append-nil, append_assoc, map-append}
use automatic_ripping_machin.Common.{
  length, length-map, ltb, if◌then◌else◌, Bool-cases, ℕ, zero, suc, ◌<◌, ◌≡◌, refl, sym, ap, ap₂,
  ◌∙◌, subst, ◌⊎◌, inl, inr, Bool, true, false, Option, none, some, List, [], ◌∷◌, ◌++◌, map, arith,
}
use automatic_ripping_machin.Naming.{Word, same_word}
use automatic_ripping_machin.Naming.Suggestions.{same_word_eq, same_word_refl}
use automatic_ripping_machin.Naming.Render.{
  Job, Track, Settings, Rendered, append_number, modify_at, Seen, find_seen, mark_row, mark_rows,
  rows_of, render_all_tracks,
}
use automatic_ripping_machin.Naming.Render.Distinct.{
  count, told_apart, first_index, seen_of, first_index-append_none, first_index-append, count-after,
  is_shared-same, told-none, told-many, told-one,
}

-- What the loop knows of the rows that it has seen.
record IsSummary (before : List Rendered) (s : List Rendered × Seen) : Type 0 where
  rows : s.0 ≡ map (told_apart before) before
  seen : (w : Word) → find_seen w s.1 ≡ seen_of w before

module _ (before : List Rendered) (r : Rendered) where
  seen_of-other :
      (w : Word)
      → same_word r.rendered_title w ≡ false
      → seen_of w (before ++ r ∷ []) ≡ seen_of w before
  unfolding seen_of
  seen_of-other w h =
      let n = count-after before r w in let i = first_index-append w r before in ground arith

  seen_of-first :
      count r.rendered_title before ≡ 0
      → seen_of r.rendered_title (before ++ r ∷ []) ≡ some (some (length before))
  unfolding seen_of
  seen_of-first h =
      let n = count-after before r r.rendered_title in
      let e = same_word_refl r.rendered_title in
      let i = first_index-append_none r.rendered_title r before h e in ground arith

  seen_of-again :
      0 < count r.rendered_title before → seen_of r.rendered_title (before ++ r ∷ []) ≡ some none
  unfolding seen_of
  seen_of-again h =
      let n = count-after before r r.rendered_title in
      let e = same_word_refl r.rendered_title in ground arith

  seen_of_many : 1 < count r.rendered_title before → seen_of r.rendered_title before ≡ some none
  unfolding seen_of
  seen_of_many h = ground arith

  seen_of_one :
      count r.rendered_title before ≡ 1
      → seen_of r.rendered_title before ≡ some (some (first_index r.rendered_title before))
  unfolding seen_of
  seen_of_one h = ground arith

  seen_of-none : count r.rendered_title before ≡ 0 → seen_of r.rendered_title before ≡ none
  unfolding seen_of
  seen_of-none h = ground arith

  -- An entry for the title, and the old ones.
  find_seen-cons :
      (v : Option ℕ) (seen : Seen)
      → seen_of r.rendered_title (before ++ r ∷ []) ≡ some v
      → ((w : Word) → find_seen w seen ≡ seen_of w before)
      → (w : Word) → find_seen w ((r.rendered_title, v) ∷ seen) ≡ seen_of w (before ++ r ∷ [])
  unfolding find_seen
  find_seen-cons v seen h old w = elim (Bool-cases (same_word r.rendered_title w)) [
    | inl e ↦ rw e (rw (← same_word_eq r.rendered_title w e) (sym h))
    | inr e ↦ rw e (old w ∙ sym (seen_of-other w e))
  ]

  rows-append :
      (first : List Rendered) (last : Rendered)
      → map (told_apart (before ++ r ∷ [])) before ≡ first
      → told_apart (before ++ r ∷ []) r ≡ last
      → first ++ last ∷ [] ≡ map (told_apart (before ++ r ∷ [])) (before ++ r ∷ [])
  rows-append first last h k =
      ap₂ (λ xs x. xs ++ x ∷ []) (sym h) (sym k) ∙ sym (map-append _ before (r ∷ []))

  told_last :
      (b : Bool)
      → ltb 0 (count r.rendered_title before) ≡ b
      → told_apart (before ++ r ∷ []) r ≡ (if b then append_number r else r)
  told_last b h = ap (λ c. if c then append_number r else r) (is_shared-same before r r refl ∙ h)

  module _ (done : List Rendered) (seen : Seen) (h : IsSummary before (done, seen)) where
    mark_none :
        count r.rendered_title before ≡ 0
        → IsSummary
            (before ++ r ∷ [])
            (done ++ r ∷ [], (r.rendered_title, some (length done)) ∷ seen)
    mark_none c =
        let as_long = ap length h.rows ∙ length-map (told_apart before) before in
        record {
          rows =
              rows-append done r (told-none before r before c ∙ sym h.rows)
                (told_last false (rw c refl));
          seen =
              find_seen-cons (some (length done)) seen
                (seen_of-first c ∙ ap (λ n. some (some n)) (sym as_long)) h.seen;
        }

    mark_many :
        1 < count r.rendered_title before
        → IsSummary (before ++ r ∷ []) (done ++ append_number r ∷ [], seen)
    mark_many c = record {
      rows =
          rows-append done (append_number r) (told-many before r before c ∙ sym h.rows)
            (told_last true (ground arith));
      seen = λ w. h.seen w ∙ kept w;
    }
      where
        kept : (w : Word) → seen_of w before ≡ seen_of w (before ++ r ∷ [])
        kept w = elim (Bool-cases (same_word r.rendered_title w)) [
          | inl e ↦
              subst (λ v. seen_of v before ≡ seen_of v (before ++ r ∷ []))
                (same_word_eq r.rendered_title w e)
                (seen_of_many c ∙ sym (seen_of-again (ground arith)))
          | inr e ↦ sym (seen_of-other w e)
        ]

    mark_one :
        count r.rendered_title before ≡ 1
        → IsSummary (before ++ r ∷ []) (
          modify_at (first_index r.rendered_title before) append_number done
              ++ append_number r ∷ [],
          (r.rendered_title, none) ∷ seen,
        )
    mark_one c = record {
      rows =
          rows-append _ (append_number r)
            (told-one before r before c c
              ∙ ap (modify_at (first_index r.rendered_title before) append_number) (sym h.rows))
            (told_last true (rw c refl));
      seen = find_seen-cons none seen (seen_of-again (rw c (omega arith))) h.seen;
    }

    mark_row-IsSummary :
        IsSummary (before ++ r ∷ []) (mark_row (find_seen r.rendered_title seen) r (done, seen))
    mark_row-IsSummary =
        let P =
          λ (o : Option (Option ℕ)). IsSummary (before ++ r ∷ []) (mark_row o r (done, seen)) in
        let found = h.seen r.rendered_title in
        elim (few (count r.rendered_title before)) [
          | inl no_row ↦ subst P (sym (found ∙ seen_of-none no_row)) (mark_none no_row)
          | inr (inl one) ↦ subst P (sym (found ∙ seen_of_one one)) (mark_one one)
          | inr (inr many) ↦ subst P (sym (found ∙ seen_of_many many)) (mark_many many)
        ]
      where
        few : (n : ℕ) → (n ≡ 0) ⊎ (n ≡ 1) ⊎ (1 < n)
        few zero = inl refl
        few (suc zero) = inr (inl refl)
        few (suc (suc n)) = inr (inr (omega arith))

mark_rows_lem :
    (rs before : List Rendered) (s : List Rendered × Seen)
    → IsSummary before s
    → (mark_rows rs s).0 ≡ map (told_apart (before ++ rs)) (before ++ rs)
unfolding mark_rows
mark_rows_lem [] before s h = h.rows ∙ ap (λ rs. map (told_apart rs) rs) (sym (append-nil before))
mark_rows_lem (r ∷ rs) before (done, seen) h =
    mark_rows_lem rs (before ++ r ∷ []) _ (mark_row-IsSummary before r done seen h)
    ∙ ap (λ xs. map (told_apart xs) xs) (append_assoc before (r ∷ []) rs)

empty-IsSummary : IsSummary [] ([], [])
unfolding find_seen seen_of count
empty-IsSummary = record { rows = refl; seen = λ w. refl }

-- The rows that `render_all_tracks` gives are those of the tracks in their order, each with the
-- number of its track behind its title if another row has the title too, and else as it was.
pub render_all_tracks_tells_apart :
    (s : Settings) (number : Word → ℕ) (j : Job) (tracks : List Track)
    → render_all_tracks s number j tracks
      ≡ map (told_apart (rows_of s number j tracks)) (rows_of s number j tracks)
unfolding render_all_tracks
render_all_tracks_tells_apart s number j tracks =
    mark_rows_lem (rows_of s number j tracks) [] ([], []) empty-IsSummary

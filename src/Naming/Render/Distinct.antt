-- ===== src/Naming/Render/Distinct.antt =====
-- The titles that two tracks of a disc share are told apart by the numbers of the tracks.
use automatic_ripping_machin.Common.{
  length, all, ltb, ◌==◌, if◌then◌else◌, Bool-cases, ℕ, suc, ◌+◌, ◌<◌, ◌≡◌, refl, sym, ap, ap₂, ◌∙◌,
  inl, inr, Bool, true, false, Option, none, some, List, [], ◌∷◌, ◌++◌, map, arith,
}
use automatic_ripping_machin.Naming.{Word, same_word}
use automatic_ripping_machin.Naming.Suggestions.{same_word_eq, same_word_refl}
use automatic_ripping_machin.Naming.Render.{Rendered, append_number, modify_at}

pub same_word_comm : (v w : Word) → same_word v w ≡ same_word w v
unfolding same_word
same_word_comm [] [] = refl
same_word_comm [] (b ∷ w) = refl
same_word_comm (a ∷ v) [] = refl
same_word_comm (a ∷ v) (b ∷ w) = ground (arith, same_word_comm v w)

-- How many rows have the title.
unfoldable pub count : Word → List Rendered → ℕ
unfolding same_word
count name [] = 0
count name (r ∷ rs) = (if same_word r.rendered_title name then 1 else 0) + count name rs

-- More than one row has the title of this one.
unfoldable pub is_shared : List Rendered → Rendered → Bool
unfolding count
is_shared all r = ltb 1 (count r.rendered_title all)

-- The row with its final title, by the rows of the disc.
abbrev pub told_apart : List Rendered → Rendered → Rendered
told_apart all r = if is_shared all r then append_number r else r

count-append :
    (name : Word) (xs ys : List Rendered) → count name (xs ++ ys) ≡ count name xs + count name ys
unfolding count
count-append name [] ys = omega arith
count-append name (x ∷ xs) ys = omega (arith, count-append name xs ys)

unfoldable pub first_index : Word → List Rendered → ℕ
first_index name [] = 0
first_index name (r ∷ rs) = if same_word r.rendered_title name then 0 else suc (first_index name rs)

-- The place of the title's only row.
unfoldable pub seen_of : Word → List Rendered → Option (Option ℕ)
unfolding first_index
seen_of name rs =
    if count name rs == 0
    then none
    else if count name rs == 1
    then some (some (first_index name rs))
    else some none

pub first_index-append_none :
    (name : Word) (r : Rendered) (rs : List Rendered)
    → count name rs ≡ 0
    → same_word r.rendered_title name ≡ true
    → first_index name (rs ++ r ∷ []) ≡ length rs
unfolding first_index count
first_index-append_none name r [] h e = rw e refl
first_index-append_none name r (x ∷ rs) h e = ground (arith, first_index-append_none name r rs)

pub first_index-append :
    (name : Word) (r : Rendered) (rs : List Rendered)
    → 0 < count name rs
    → first_index name (rs ++ r ∷ []) ≡ first_index name rs
unfolding first_index count
first_index-append name r [] h = absurd (omega arith)
first_index-append name r (x ∷ rs) h = ground (arith, first_index-append name r rs)

module _ (before : List Rendered) (r : Rendered) where
  abbrev pub name : Word
  name = r.rendered_title

  abbrev pub after : List Rendered
  after = before ++ r ∷ []

  pub count-after :
      (w : Word) → count w after ≡ count w before + (if same_word name w then 1 else 0)
  unfolding count
  count-after w = omega (arith, count-append w before (r ∷ []))

  is_shared-other :
      (x : Rendered)
      → same_word x.rendered_title name ≡ false
      → is_shared after x ≡ is_shared before x
  unfolding is_shared
  is_shared-other x h =
      let c = same_word_comm name x.rendered_title in
      let n = count-after x.rendered_title in ground arith

  pub is_shared-same :
      (x : Rendered) → x.rendered_title ≡ name → is_shared after x ≡ ltb 0 (count name before)
  unfolding is_shared
  is_shared-same x e =
      rw e (let n = count-after name in let s = same_word_refl name in ground arith)

  was_shared :
      (x : Rendered) → x.rendered_title ≡ name → is_shared before x ≡ ltb 1 (count name before)
  unfolding is_shared
  was_shared x e = rw e refl

  other_same :
      (x : Rendered)
      → same_word x.rendered_title name ≡ false
      → told_apart after x ≡ told_apart before x
  other_same x h = ap (λ b. if b then append_number x else x) (is_shared-other x h)

  pub told-none :
      (rs : List Rendered)
      → count name rs ≡ 0
      → map (told_apart after) rs ≡ map (told_apart before) rs
  unfolding count
  told-none [] h = refl
  told-none (x ∷ rs) h = elim (Bool-cases (same_word x.rendered_title name)) [
    | inl e ↦ absurd (ground arith)
    | inr e ↦ ap₂ ◌∷◌ (other_same x e) (told-none rs (ground arith))
  ]

  -- Two rows have the title already.
  same_many : (x : Rendered) → 1 < count name before → told_apart after x ≡ told_apart before x
  same_many x h = elim (Bool-cases (same_word x.rendered_title name)) [
    | inl e ↦ many x (same_word_eq x.rendered_title name e)
    | inr e ↦ other_same x e
  ]
    where
      both : (n : ℕ) → 1 < n → ltb 0 n ≡ ltb 1 n
      both n h = ground arith

      many : (x : Rendered) → x.rendered_title ≡ name → told_apart after x ≡ told_apart before x
      many x e =
          ap (λ b. if b then append_number x else x)
            (is_shared-same x e ∙ both (count name before) h ∙ sym (was_shared x e))

  pub told-many :
      (rs : List Rendered)
      → 1 < count name before
      → map (told_apart after) rs ≡ map (told_apart before) rs
  told-many [] h = refl
  told-many (x ∷ rs) h = ap₂ ◌∷◌ (same_many x h) (told-many rs h)

  -- One row has the title: it is told apart now.
  same_one :
      (x : Rendered)
      → count name before ≡ 1
      → x.rendered_title ≡ name
      → told_apart after x ≡ append_number (told_apart before x)
  same_one x h e = rw (is_shared-same x e, was_shared x e, h) refl

  pub told-one :
      (rs : List Rendered)
      → count name before ≡ 1
      → count name rs ≡ 1
      → map (told_apart after) rs
        ≡ modify_at (first_index name rs) append_number (map (told_apart before) rs)
  unfolding count first_index
  told-one [] h k = refl
  told-one (x ∷ rs) h k = elim (Bool-cases (same_word x.rendered_title name)) [
    | inl e ↦ rw e (
        ap₂ ◌∷◌ (same_one x h (same_word_eq x.rendered_title name e)) (told-none rs (ground arith)))
    | inr e ↦ rw e (ap₂ ◌∷◌ (other_same x e) (told-one rs h (ground arith)))
  ]

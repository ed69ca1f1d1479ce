-- ===== src/Notify/Rows.antt =====
-- The ids of the outbox's rows: distinct, and handed out one after the other.
use automatic_ripping_machin.Common.{
  length, take, keep, any, map_if, All, All-append, All-take, All-keep, All-map_if, All-mono,
  All-zip, insert_sorted, sort, All-insert_sorted, All-sort, ◌==◌, if◌then◌else◌, Bool-cases,
  if_ind, ℕ, zero, suc, ◌+◌, ◌<◌, ◌≡◌, refl, sym, ◌∙◌, ◌⊎◌, inl, inr, Bool, true, false, false≢true,
  List, [], ◌∷◌, ◌++◌, arith,
}
use automatic_ripping_machin.Notify.{OutboxRow, has_id}
use automatic_ripping_machin.Notify.Outbox.{is_due, due_before, among, select_due}

-- The row ids that are handed out: consecutive from `n`.
abbrev pub Numbered : ℕ → List OutboxRow → Type 0
Numbered n [] = Unit
Numbered n (r ∷ rows) = (r.id ≡ n) × Numbered (suc n) rows

-- No two rows have one id.
abbrev pub Distinct : List OutboxRow → Type 0
Distinct [] = Unit
Distinct (r ∷ rs) = All (λ x. (x.id == r.id) ≡ false) rs × Distinct rs

module _ (p : OutboxRow → Bool) (f : OutboxRow → OutboxRow)
    (same : (r : OutboxRow) → (f r).id ≡ r.id) where
  ne-map_if :
      (i : ℕ) (rs : List OutboxRow)
      → All (λ x. (x.id == i) ≡ false) rs
      → All (λ x. (x.id == i) ≡ false) (map_if p f rs)
  ne-map_if i rs h = All-map_if _ p f rs (λ x _ k. rw (same x) k) h

  pub Distinct-map_if : (rs : List OutboxRow) → Distinct rs → Distinct (map_if p f rs)
  Distinct-map_if [] d = tt
  Distinct-map_if (r ∷ rs) d = (head (Bool-cases (p r)), Distinct-map_if rs d.1)
    where
      head :
          (p r ≡ true) ⊎ (p r ≡ false)
          → All (λ x. (x.id == (if p r then f r else r).id) ≡ false) (map_if p f rs)
      head (inl h) = rw h (rw (same r) (ne-map_if r.id rs d.0))
      head (inr h) = rw h (ne-map_if r.id rs d.0)

  pub below-map_if :
      (n : ℕ) (rs : List OutboxRow) → All (λ r. r.id < n) rs → All (λ r. r.id < n) (map_if p f rs)
  below-map_if n rs h = All-map_if _ p f rs (λ x _ k. rw (same x) k) h

pub Distinct-keep :
    (p : OutboxRow → Bool) (rs : List OutboxRow) → Distinct rs → Distinct (keep p rs)
Distinct-keep p [] d = tt
Distinct-keep p (r ∷ rs) d =
    if_ind Distinct (p r) (λ _. (All-keep _ p rs d.0, Distinct-keep p rs d.1))
      (λ _. Distinct-keep p rs d.1)

ne_of_below :
    (i n : ℕ) (rs : List OutboxRow) → i < n → Numbered n rs → All (λ x. (x.id == i) ≡ false) rs
ne_of_below i n [] h k = tt
ne_of_below i n (r ∷ rs) h k = (ground arith, ne_of_below i (suc n) rs (omega arith) k.1)

Numbered-Distinct : (n : ℕ) (rs : List OutboxRow) → Numbered n rs → Distinct rs
Numbered-Distinct n [] k = tt
Numbered-Distinct n (r ∷ rs) k =
    (ne_of_below r.id (suc n) rs (omega arith) k.1, Numbered-Distinct (suc n) rs k.1)

pub Distinct-append :
    (n : ℕ) (xs ys : List OutboxRow)
    → Distinct xs
    → All (λ r. r.id < n) xs
    → Numbered n ys
    → Distinct (xs ++ ys)
Distinct-append n [] ys d b k = Numbered-Distinct n ys k
Distinct-append n (x ∷ xs) ys d b k =
    (All-append _ xs ys d.0 (ne_of_below x.id n ys b.0 k), Distinct-append n xs ys d.1 b.1 k)

pub below-Numbered :
    (n : ℕ) (rs : List OutboxRow) → Numbered n rs → All (λ r. r.id < n + length rs) rs
below-Numbered n [] k = tt
below-Numbered n (r ∷ rs) k =
    (omega arith, All-mono _ _ rs (λ x h. omega arith) (below-Numbered (suc n) rs k.1))

-- Among the rows that pass the test there is none with the id of a row that fails it.
failing_not_kept :
    (p : OutboxRow → Bool) (rs : List OutboxRow)
    → Distinct rs
    → All (λ r. p r ≡ false → All (λ x. (x.id == r.id) ≡ false) (keep p rs)) rs
failing_not_kept p [] d = tt
failing_not_kept p (x ∷ rs) d = (
  λ e. rw e (All-keep _ p rs d.0),
  All-mono _ _ rs
      (λ r h e.
        if_ind (All (λ y. (y.id == r.id) ≡ false)) (p x) (λ _. (ground arith, h.1 e)) (λ _. h.1 e))
      (All-zip _ _ rs d.0 (failing_not_kept p rs d.1)),
)

none_among :
    (i : ℕ) (rs : List OutboxRow) → All (λ x. (x.id == i) ≡ false) rs → any (has_id i) rs ≡ false
none_among i [] h = refl
none_among i (r ∷ rs) h = rw h.0 (none_among i rs h.1)

-- Where ids are distinct, a row whose id was selected is due.
pub selected_due :
    (limit now : ℕ) (rs : List OutboxRow)
    → Distinct rs
    → All (λ r. among (select_due limit now rs) r ≡ true → is_due now r ≡ true) rs
unfolding select_due
selected_due limit now rs d =
    All-mono _ _ rs
      (λ r h k. elim (Bool-cases (is_due now r)) [
        | inl e ↦ e
        | inr e ↦
            elim (false≢true (
              sym (none_among r.id _ (All-take _ limit _ (All-sort due_before _ _ (h e)))) ∙ k)) [ ]
      ])
      (failing_not_kept (is_due now) rs d)

insert_sorted-Distinct :
    (r : OutboxRow) (rs : List OutboxRow)
    → All (λ x. (x.id == r.id) ≡ false) rs
    → Distinct rs
    → Distinct (insert_sorted due_before r rs)
unfolding insert_sorted
insert_sorted-Distinct r [] ne d = (tt, tt)
insert_sorted-Distinct r (x ∷ rs) ne d =
    if_ind Distinct (due_before r x) (λ _. (ne, d))
      (λ _. (
        All-insert_sorted due_before (λ y. (y.id == x.id) ≡ false) r rs (ground arith) d.0,
        insert_sorted-Distinct r rs ne.1 d.1,
      ))

sort-Distinct : (rs : List OutboxRow) → Distinct rs → Distinct (sort due_before rs)
unfolding sort
sort-Distinct [] d = tt
sort-Distinct (r ∷ rs) d =
    insert_sorted-Distinct r (sort due_before rs) (All-sort due_before _ rs d.0)
      (sort-Distinct rs d.1)

take-Distinct : (n : ℕ) (rs : List OutboxRow) → Distinct rs → Distinct (take n rs)
take-Distinct zero rs d = tt
take-Distinct (suc n) [] d = tt
take-Distinct (suc n) (r ∷ rs) d = (All-take _ n rs d.0, take-Distinct n rs d.1)

pub select_due-Distinct :
    (limit now : ℕ) (rs : List OutboxRow) → Distinct rs → Distinct (select_due limit now rs)
unfolding select_due
select_due-Distinct limit now rs d =
    take-Distinct limit _ (sort-Distinct _ (Distinct-keep (is_due now) rs d))

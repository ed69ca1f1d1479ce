-- ===== src/Notify/Outbox/Queue.antt =====
-- Which rows `dequeue_due` takes.
use mathlib.Core.List.{Perm}
use automatic_ripping_machin.Common.{
  length, take, drop, keep, All, All-mono, sort, length-sort, perm-sort, IsSorted, sort-IsSorted,
  take-le-drop, take-IsSorted, take-drop, length-take-min, leb, if◌then◌else◌, leb→le, ℕ, ◌≤◌, min,
  ◌≡◌, refl, ap, ap₂, ◌∙◌, subst, Bool, true, false, List, [], ◌∷◌, ◌++◌, arith,
}
use automatic_ripping_machin.Notify.{pending, OutboxRow}
use automatic_ripping_machin.Notify.Outbox.{is_due, due_before, select_due}

due_before_total : (a b : OutboxRow) → due_before a b ≡ false → due_before b a ≡ true
due_before_total a b h = ground arith

due_before_trans :
    (a b c : OutboxRow) → due_before a b ≡ true → due_before b c ≡ true → due_before a c ≡ true
due_before_trans a b c h k = ground arith

-- Pending, and its time has come.
abbrev pub has_come : ℕ → OutboxRow → Bool
has_come now r = elim r.status [ pending ↦ leb r.next_attempt_at now | _ ↦ false ]

keep-has_come :
    (now : ℕ) (rows : List OutboxRow) → keep (is_due now) rows ≡ keep (has_come now) rows
keep-has_come now [] = refl
keep-has_come now (r ∷ rows) =
    ap₂ (λ b xs. if b then r ∷ xs else xs) (same r) (keep-has_come now rows)
  where
    same : (r : OutboxRow) → is_due now r ≡ has_come now r
    same r = ground arith

-- `rows` are the first of the rows that have come: with those that are left they are all of them,
-- there are `limit` of them if there are so many, in the order of their times, and none that is
-- left is earlier than one of them.
pub record IsFront (limit : ℕ) (came rows : List OutboxRow) : Type 0 where
  pub left : List OutboxRow
  pub all_of_them : Perm (rows ++ left) came
  pub as_many : length rows ≡ min limit (length came)
  pub in_order : IsSorted (λ a b. leb a.next_attempt_at b.next_attempt_at) rows
  pub none_earlier : All (λ r. All (λ x. x.next_attempt_at ≤ r.next_attempt_at) rows) left

-- The selected rows are the first `limit` of the rows that are pending and whose time has come.
pub select_due-IsFront :
    (limit now : ℕ) (rows : List OutboxRow)
    → IsFront limit (keep (has_come now) rows) (select_due limit now rows)
unfolding select_due
select_due-IsFront limit now rows =
    let came = keep (is_due now) rows in
    let line = sort due_before came in
    let sorted = sort-IsSorted due_before due_before_total due_before_trans came in
    subst (λ xs. IsFront limit xs (take limit line)) (keep-has_come now rows)
      (record {
        left = drop limit line;
        all_of_them = rw (take-drop limit line) (perm-sort due_before came);
        as_many = length-take-min limit line ∙ ap (min limit) (length-sort due_before came);
        in_order = take-IsSorted due_before limit line sorted;
        none_earlier =
            All-mono _ _ (drop limit line)
              (λ r h. All-mono _ _ (take limit line) (λ x k. leb→le _ _ k) h)
              (take-le-drop due_before limit line sorted);
      })

-- ===== src/Makemkv/Output/Checks.antt =====
-- When the check of a message returns None.
use automatic_ripping_machin.Common.{
  get_elem?, ◌==◌, ==_iff, if_ind, ℕ, ◌<◌, String, ◌≡◌, refl, ◌↔◌, ◌||◌, Option, none, some, arith,
}
use automatic_ripping_machin.Makemkv.Output.{
  Message, Checked, nothing, is_special, error_message, saved_titles, zero_saved_files, check,
}

module _ (int_of : String → Option ℕ) where
  -- The count of saved titles that the message holds is more than zero.
  abbrev pub Saved : Message → Type 0
  Saved m =
      (t : String) × (n : ℕ) × (get_elem? m.sprintf 1 ≡ some t) × (int_of t ≡ some n) × (0 < n)

  saved-nothing : (o : Option ℕ) → saved_titles o ≡ nothing → (n : ℕ) × (o ≡ some n) × (0 < n)
  saved-nothing none h = absurd (ground arith)
  saved-nothing (some n) h = (n, refl, ground arith)

  files-nothing :
      (o : Option String)
      → zero_saved_files int_of o ≡ nothing
      → (t : String) × (n : ℕ) × (o ≡ some t) × (int_of t ≡ some n) × (0 < n)
  files-nothing none h = absurd (ground arith)
  files-nothing (some t) h = let (n, e, k) = saved-nothing (int_of t) h in (t, n, refl, e, k)

  not_nothing : (o : Option String) → error_message o ≡ nothing → ⊥
  not_nothing none h = ground arith
  not_nothing (some t) h = ground arith

  saved_some : (n : ℕ) → 0 < n → saved_titles (some n) ≡ nothing
  saved_some n h = ground arith

  forward : (m : Message) → check int_of m ≡ nothing → (m.code ≡ 5004) × Saved m
  unfolding check
  forward m =
      if_ind P (m.code == 5003) (λ _ h. absurd (ground arith))
        (λ _.
          if_ind P (m.code == 5004)
            (λ e h. ((==_iff m.code 5004).0 e, files-nothing (get_elem? m.sprintf 1) h))
            (λ _.
              if_ind P (m.code == 2003 || m.code == 2019 || is_special m.code)
                (λ _ h. elim (not_nothing (get_elem? m.sprintf 1) h) [ ])
                (λ _ h. absurd (ground arith))))
    where
      P : Checked → Type 0
      P r = r ≡ nothing → (m.code ≡ 5004) × Saved m

  backward : (m : Message) → (m.code ≡ 5004) × Saved m → check int_of m ≡ nothing
  unfolding check
  backward m (c, (t, n, e, k, many)) =
      if_ind (λ r. r ≡ nothing) (m.code == 5003) (λ a. absurd (ground arith))
        (λ _.
          if_ind (λ r. r ≡ nothing) (m.code == 5004) (λ _. rw (e, k) (saved_some n many))
            (λ b. absurd (ground arith)))

  -- The check returns None for the message that a rip is completed, with a count of saved titles
  -- that is more than zero, and for no other message.
  pub check-nothing : (m : Message) → (check int_of m ≡ nothing) ↔ ((m.code ≡ 5004) × Saved m)
  check-nothing m = (forward m, backward m)

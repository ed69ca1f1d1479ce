-- ===== src/Matching/Assignment/Ordered.antt =====
-- The matches of a disc: tracks and episodes of the lists, each at most once, in one order.
use automatic_ripping_machin.Common.{
  get_elem?, take, drop, All, All-take, All-mono, All-zip, Listed, some_inj, All-at, Apart,
  sort-Apart, sort, IsSorted, sort-IsSorted, leb, ◌==◌, if_ind, ℕ, zero, suc, ◌<◌, String, ◌≡◌,
  refl, subst, true, false, some, List, [], ◌∷◌, arith,
}
use automatic_ripping_machin.Matching.{Track, Episode, distance}
use automatic_ripping_machin.Matching.Assignment.{TrackMatch, match_of, zip_matches, positional}

-- A track's number and an episode of the lists.
pub record IsMatch (ts : List Track) (es : List Episode) (m : TrackMatch) : Type 0 where
  pub track : Track
  pub episode : Episode
  pub track_listed : Listed ts track
  pub episode_listed : Listed es episode
  pub number : m.track_number ≡ track.track_number
  pub episode_number : m.episode_number ≡ episode.number
  pub episode_name : m.episode_name ≡ episode.name
  pub episode_runtime : m.episode_runtime ≡ episode.runtime

-- Each element is less than all that follow it, by a number.
abbrev pub Rising {ℓ} : {A : Type ℓ} → (A → ℕ) → List A → Type 0
Rising key [] = Unit
Rising key (x ∷ xs) = All (λ y. key x < key y) xs × Rising key xs

-- Sorted by a number and pairwise apart.
Rising-of_sorted {ℓ} :
    {A : Type ℓ} (key : A → ℕ) (xs : List A)
    → IsSorted (λ a b. leb (key a) (key b)) xs
    → Apart (λ a b. key a == key b) xs
    → Rising key xs
Rising-of_sorted key [] s d = tt
Rising-of_sorted {A} key (x ∷ xs) s d = (
  All-mono _ _ xs (λ y (h, k). strict (key x) (key y) h k) (All-zip _ _ xs s.0 d.0),
  Rising-of_sorted key xs s.1 d.1,
)
  where
    strict : (a b : ℕ) → leb a b ≡ true → (a == b) ≡ false → a < b
    strict a b h k = ground arith

leb_total : (a b : ℕ) → leb a b ≡ false → leb b a ≡ true
leb_total a b h = ground arith

leb_trans : (a b c : ℕ) → leb a b ≡ true → leb b c ≡ true → leb a c ≡ true
leb_trans a b c h k = ground arith

pub apart_sym : (a b : ℕ) → (a == b) ≡ false → (b == a) ≡ false
apart_sym a b h = ground arith

pub sort-Rising {ℓ} :
    {A : Type ℓ} (key : A → ℕ) (xs : List A)
    → Apart (λ a b. key a == key b) xs
    → Rising key (sort (λ a b. leb (key a) (key b)) xs)
sort-Rising key xs d =
    Rising-of_sorted key _
      (sort-IsSorted _ (λ a b. leb_total (key a) (key b))
        (λ a b c. leb_trans (key a) (key b) (key c)) xs)
      (sort-Apart _ _ (λ a b. apart_sym (key a) (key b)) xs d)

pub Rising-take {ℓ} :
    {A : Type ℓ} (key : A → ℕ) (n : ℕ) (xs : List A) → Rising key xs → Rising key (take n xs)
Rising-take key zero xs r = tt
Rising-take key (suc n) [] r = tt
Rising-take key (suc n) (x ∷ xs) r = (All-take _ n xs r.0, Rising-take key n xs r.1)

pub Rising-drop {ℓ} :
    {A : Type ℓ} (key : A → ℕ) (n : ℕ) (xs : List A) → Rising key xs → Rising key (drop n xs)
Rising-drop key zero xs r = r
Rising-drop key (suc n) [] r = tt
Rising-drop key (suc n) (x ∷ xs) r = Rising-drop key n xs r.1

-- The numbers of the matches rise, on both sides.
abbrev pub InOrder : (String → ℕ) → List TrackMatch → Type 0
InOrder number ms =
    Rising (λ (m : TrackMatch). number m.track_number) ms
    × Rising (λ (m : TrackMatch). m.episode_number) ms

module _ (number : String → ℕ) where
  abbrev key_of : Track → ℕ
  key_of t = number t.track_number

  -- What holds of tracks and episodes holds of the positional matches.
  pub positional-All :
      (tolerance : ℕ) (P : Track → Type 0) (Q : Episode → Type 0) (ts : List Track)
      (es : List Episode)
      → All P ts
      → All Q es
      → All
          (λ m. (t : Track) × (e : Episode) × P t × Q e × (m ≡ match_of t e))
          (positional tolerance ts es)
  unfolding positional
  positional-All tolerance P Q [] es h k = tt
  positional-All tolerance P Q (t ∷ ts) [] h k = tt
  positional-All tolerance P Q (t ∷ ts) (e ∷ es) h k =
      if_ind (All _) (leb (distance t.length e.runtime) tolerance)
        (λ _. ((t, e, h.0, k.0, refl), positional-All tolerance P Q ts es h.1 k.1))
        (λ _. positional-All tolerance P Q ts es h.1 k.1)

  pub positional-InOrder :
      (tolerance : ℕ) (ts : List Track) (es : List Episode)
      → Rising key_of ts
      → Rising (λ (e : Episode). e.number) es
      → InOrder number (positional tolerance ts es)
  unfolding positional
  positional-InOrder tolerance [] es r q = (tt, tt)
  positional-InOrder tolerance (t ∷ ts) [] r q = (tt, tt)
  positional-InOrder tolerance (t ∷ ts) (e ∷ es) r q =
      let rest = positional-InOrder tolerance ts es r.1 q.1 in
      let later = positional-All tolerance _ _ ts es r.0 q.0 in
      if_ind (InOrder number) (leb (distance t.length e.runtime) tolerance)
        (λ _. (
          (All-mono _ _ _ (λ m (u, f, a, b, s). rw s a) later, rest.0),
          (All-mono _ _ _ (λ m (u, f, a, b, s). rw s b) later, rest.1),
        ))
        (λ _. rest)

module _ (P : String → Type 0) (Q : ℕ → String → ℕ → Type 0) where
  pub zip_matches-All :
      (ts es : List TrackMatch)
      → All (λ t. P t.track_number) ts
      → All (λ e. Q e.episode_number e.episode_name e.episode_runtime) es
      → All
          (λ m. P m.track_number × Q m.episode_number m.episode_name m.episode_runtime)
          (zip_matches ts es)
  unfolding zip_matches
  zip_matches-All [] es h k = tt
  zip_matches-All (t ∷ ts) [] h k = tt
  zip_matches-All (t ∷ ts) (e ∷ es) h k = ((h.0, k.0), zip_matches-All ts es h.1 k.1)

pub zip_matches-InOrder :
    (number : String → ℕ) (ts es : List TrackMatch)
    → Rising (λ (m : TrackMatch). number m.track_number) ts
    → Rising (λ (m : TrackMatch). m.episode_number) es
    → InOrder number (zip_matches ts es)
unfolding zip_matches
zip_matches-InOrder number [] es r q = (tt, tt)
zip_matches-InOrder number (t ∷ ts) [] r q = (tt, tt)
zip_matches-InOrder number (t ∷ ts) (e ∷ es) r q =
    let later =
      zip_matches-All (λ n. number t.track_number < number n) (λ n name time. e.episode_number < n)
        ts es r.0 q.0 in
    let rest = zip_matches-InOrder number ts es r.1 q.1 in
    ((All-mono _ _ _ (λ m h. h.0) later, rest.0), (All-mono _ _ _ (λ m h. h.1) later, rest.1))

-- Elements with different indices are apart.
pub index-Apart {ℓ} :
    {A : Type ℓ} (key : A → ℕ) (xs : List A) (i j : ℕ) (a b : A)
    → Apart (λ x y. key x == key y) xs
    → get_elem? xs i ≡ some a
    → get_elem? xs j ≡ some b
    → (j == i) ≡ false
    → (key a == key b) ≡ false
index-Apart key [] i j a b d h k n = cc
index-Apart key (x ∷ xs) zero zero a b d h k n = absurd (ground arith)
index-Apart key (x ∷ xs) zero (suc j) a b d h k n =
    subst (λ y. (key y == key b) ≡ false) (some_inj h) (All-at _ xs j b d.0 k)
index-Apart key (x ∷ xs) (suc i) zero a b d h k n =
    apart_sym (key b) (key a)
      (subst (λ y. (key y == key a) ≡ false) (some_inj k) (All-at _ xs i a d.0 h))
index-Apart key (x ∷ xs) (suc i) (suc j) a b d h k n =
    index-Apart key xs i j a b d.1 h k (ground arith)

-- ===== src/Common/Texts.antt =====
-- Texts: equality tests, the search for a part, joining, cutting, and decimal numerals.
use Prim.Native.Char.{Char, code}
use Prim.Native.Nat.{ℕ, zero, suc, ◌/◌, ◌%◌, ◌+◌}
use Prim.Native.String.{String, [], ◌∷◌}
use Prim.Native.String
use mathlib.Core.Path.{◌≡◌, refl}
use mathlib.Core.Bool.{Bool, true, false, not, ◌||◌, ◌&&◌, or-true}
use mathlib.Core.List.{List}
use native.Mathlib.Omega.{arith}
use text.Mathlib.Text.{◌==◌ as text_eq}
use text.Mathlib.TextLemmas.{nil-append, cons-append}
use automatic_ripping_machin.Common.Tests.{◌==◌, ==_refl, ltb, if◌then◌else◌, if_ind}

abbrev pub str_eq : String → String → Bool
str_eq s t = text_eq s t

abbrev pub is_empty : String → Bool
is_empty [] = true
is_empty (_ ∷ _) = false

-- `s.startswith(t)`, code point by code point.
unfoldable pub starts_with : String → String → Bool
starts_with s [] = true
starts_with [] (_ ∷ _) = false
starts_with (c ∷ s) (d ∷ t) = code c == code d && starts_with s t

-- `t in s`.
unfoldable pub contains : String → String → Bool
unfolding starts_with
contains [] t = starts_with [] t
contains (c ∷ s) t = starts_with (c ∷ s) t || contains s t

-- `s[:n]`, in code points.
unfoldable pub truncate : ℕ → String → String
truncate zero s = []
truncate (suc n) [] = []
truncate (suc n) (c ∷ s) = c ∷ truncate n s

-- An f-string: its parts, joined.
unfoldable pub cat : List String → String
cat List.[] = ""
cat (List.◌∷◌ s parts) = String.◌++◌ s (cat parts)

-- The order of the code points.
unfoldable pub str_leb : String → String → Bool
str_leb [] t = true
str_leb (c ∷ s) [] = false
str_leb (c ∷ s) (d ∷ t) =
    let later = str_leb s t in
    if ltb (code c) (code d) then true else if code c == code d then later else false

-- `str.isspace` of one character.
is_space : ℕ → Bool
is_space n =
    (ltb 8 n && ltb n 14)
    || (ltb 27 n && ltb n 33)
    || (n == 133)
    || (n == 160)
    || (n == 5760)
    || (ltb 8191 n && ltb n 8203)
    || (n == 8232)
    || (n == 8233)
    || (n == 8239)
    || (n == 8287)
    || (n == 12288)

-- `not s.strip()`.
unfoldable pub only_spaces : String → Bool
unfolding is_space
only_spaces [] = true
only_spaces (c ∷ s) = is_space (code c) && only_spaces s

digit_text : ℕ → String
digit_text zero = "0"
digit_text (suc zero) = "1"
digit_text (suc (suc zero)) = "2"
digit_text (suc (suc (suc zero))) = "3"
digit_text (suc (suc (suc (suc zero)))) = "4"
digit_text (suc (suc (suc (suc (suc zero))))) = "5"
digit_text (suc (suc (suc (suc (suc (suc zero)))))) = "6"
digit_text (suc (suc (suc (suc (suc (suc (suc zero))))))) = "7"
digit_text (suc (suc (suc (suc (suc (suc (suc (suc zero)))))))) = "8"
digit_text _ = "9"

show_fuel : ℕ → ℕ → String
unfolding digit_text
show_fuel zero n = ""
show_fuel (suc fuel) n =
    let more = String.◌++◌ (show_fuel fuel (n / 10)) (digit_text (n % 10)) in
    if ltb n 10 then digit_text n else more

-- `str(n)`: a number has fewer digits than its value plus two.
unfoldable pub show : ℕ → String
unfolding show_fuel
show n = show_fuel (n + 1) n

pub starts_with_self : (s t : String) → starts_with (String.◌++◌ s t) s ≡ true
unfolding starts_with
starts_with_self [] t = refl
starts_with_self (c ∷ s) t = rw cons-append (rw (==_refl (code c)) (starts_with_self s t))

pub starts_with-nil : (s : String) → starts_with s [] ≡ true
unfolding starts_with
starts_with-nil [] = refl
starts_with-nil _ = refl

pub contains_of_starts_with : (s t : String) → starts_with s t ≡ true → contains s t ≡ true
unfolding contains
contains_of_starts_with [] t h = h
contains_of_starts_with (c ∷ s) t h = rw h

-- A part of the right piece is a part of the whole.
pub contains-append_right :
    (s t x : String) → contains t x ≡ true → contains (String.◌++◌ s t) x ≡ true
unfolding contains
contains-append_right [] t x h = rw nil-append h
contains-append_right (c ∷ s) t x h =
    rw cons-append (rw (contains-append_right s t x h) (or-true _))

starts_with-append :
    (s t x : String) → starts_with s x ≡ true → starts_with (String.◌++◌ s t) x ≡ true
unfolding starts_with
starts_with-append s t [] h = refl
starts_with-append [] t (d ∷ x) h = cc
starts_with-append (c ∷ s) t (d ∷ x) h = rw cons-append (ground (arith, starts_with-append s t x))

starts_with-append_cons :
    (c : Char) (s t x : String)
    → starts_with (c ∷ s) x ≡ true
    → starts_with (c ∷ String.◌++◌ s t) x ≡ true
starts_with-append_cons c s t x h = rw cons-append at (starts_with-append (c ∷ s) t x h)

-- A part of the left piece is a part of the whole.
pub contains-append_left :
    (s t x : String) → contains s x ≡ true → contains (String.◌++◌ s t) x ≡ true
unfolding contains
contains-append_left [] t [] h = rw nil-append (contains_of_starts_with t [] (starts_with-nil t))
contains-append_left [] t (d ∷ x) h = cc
contains-append_left (c ∷ s) t x h =
    rw cons-append (ground (arith, starts_with-append_cons c s t x, contains-append_left s t x))

-- The code points of a text.
abbrev pub codes : String → List ℕ
codes [] = List.[]
codes (c ∷ s) = List.◌∷◌ (code c) (codes s)

-- The character does not stand in the text.
unfoldable pub has_no : ℕ → String → Bool
has_no n [] = true
has_no n (c ∷ s) = not (code c == n) && has_no n s

pub has_no-append :
    (n : ℕ) (s t : String)
    → has_no n s ≡ true
    → has_no n t ≡ true
    → has_no n (String.◌++◌ s t) ≡ true
unfolding has_no
has_no-append n [] t h k = rw nil-append k
has_no-append n (c ∷ s) t h k = rw cons-append (ground (arith, has_no-append n s t))

digit_text-has_no : (n m : ℕ) → ltb m 48 ≡ true → has_no m (digit_text n) ≡ true
unfolding has_no digit_text
digit_text-has_no zero m h = ground arith
digit_text-has_no (suc zero) m h = ground arith
digit_text-has_no (suc (suc zero)) m h = ground arith
digit_text-has_no (suc (suc (suc zero))) m h = ground arith
digit_text-has_no (suc (suc (suc (suc zero)))) m h = ground arith
digit_text-has_no (suc (suc (suc (suc (suc zero))))) m h = ground arith
digit_text-has_no (suc (suc (suc (suc (suc (suc zero)))))) m h = ground arith
digit_text-has_no (suc (suc (suc (suc (suc (suc (suc zero))))))) m h = ground arith
digit_text-has_no (suc (suc (suc (suc (suc (suc (suc (suc zero)))))))) m h = ground arith
digit_text-has_no _ m h = ground arith

show_fuel-has_no : (fuel n m : ℕ) → ltb m 48 ≡ true → has_no m (show_fuel fuel n) ≡ true
unfolding show_fuel has_no
show_fuel-has_no zero n m h = refl
show_fuel-has_no (suc fuel) n m h =
    if_ind (λ s. has_no m s ≡ true) (ltb n 10) (λ _. digit_text-has_no n m h)
      (λ _.
        has_no-append m _ _ (show_fuel-has_no fuel (n / 10) m h) (digit_text-has_no (n % 10) m h))

-- A numeral has no character before the digits.
pub show-has_no : (n m : ℕ) → ltb m 48 ≡ true → has_no m (show n) ≡ true
unfolding show
show-has_no n m h = show_fuel-has_no (n + 1) n m h

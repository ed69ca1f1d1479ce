-- ===== src/Makemkv/Split.antt =====
-- `str.split` with a separator and a limit, and `str.strip` of one character, on texts.
use Prim.Native.Char.{Char, code}
use Prim.Native.String.{String, [], ◌∷◌}
use mathlib.Core.List.{List}
use automatic_ripping_machin.Common.{
  ◌==◌, if◌then◌else◌, is_empty, starts_with, ℕ, zero, suc, Bool, true, false, ◌&&◌, Option, none,
  some,
}

abbrev pub push_char : Char → List String → List String
push_char c List.[] = List.◌∷◌ (c ∷ []) List.[]
push_char c (List.◌∷◌ w ws) = List.◌∷◌ (c ∷ w) ws

-- `maxsplit`: how many splits are left, or none where there is no limit.
abbrev pub may_split : Option ℕ → Bool
may_split none = true
may_split (some zero) = false
may_split (some (suc n)) = true

abbrev pub one_less : Option ℕ → Option ℕ
one_less none = none
one_less (some zero) = some zero
one_less (some (suc n)) = some n

abbrev pub str_length : String → ℕ
str_length [] = zero
str_length (_ ∷ s) = suc (str_length s)

-- `s.split(c + rest, limit)`; the characters of a separator that is found are passed over.
unfoldable pub split_skip : Char → String → Option ℕ → ℕ → String → List String
unfolding starts_with
split_skip c rest limit skip [] = List.◌∷◌ [] List.[]
split_skip c rest limit (suc skip) (d ∷ s) = split_skip c rest limit skip s
split_skip c rest limit zero (d ∷ s) =
    elim (may_split limit && (code c == code d && starts_with s rest)) [
      | true ↦ List.◌∷◌ [] (split_skip c rest (one_less limit) (str_length rest) s)
      | false ↦ push_char d (split_skip c rest limit zero s)
    ]

unfoldable pub lstrip_char : ℕ → String → String
lstrip_char n [] = []
lstrip_char n (d ∷ s) = if code d == n then lstrip_char n s else d ∷ s

unfoldable pub rstrip_char : ℕ → String → String
rstrip_char n [] = []
rstrip_char n (d ∷ s) =
    let rest = rstrip_char n s in if code d == n && is_empty rest then [] else d ∷ rest

abbrev pub strip_char : ℕ → String → String
strip_char n s = rstrip_char n (lstrip_char n s)

-- The text up to the character, and what follows it, if it is there.
unfoldable pub cut_at : ℕ → String → String × Option String
cut_at n [] = ([], none)
cut_at n (d ∷ s) =
    let (before, after) = cut_at n s in if code d == n then ([], some s) else (d ∷ before, after)

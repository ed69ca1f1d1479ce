-- ===== src/Makemkv/Names.antt =====
-- The names of the ripped files: `_strip_track_suffix` of arm/ripper/makemkv.py, and the number by
-- which `_positional_match_pass` sorts a track.
use Prim.Native.Char.{code}
use Prim.Native.String.{String, [], ◌∷◌}
use automatic_ripping_machin.Common.{
  ltb, ◌==◌, if◌then◌else◌, or_else, is_empty, ℕ, ◌+◌, ◌-◌, ◌*◌, Bool, true, false, ◌&&◌, Option,
  none, some,
}
use automatic_ripping_machin.Makemkv.{Track}

-- The part before the last dot.
before_dot : String → Option String
before_dot [] = none
before_dot (c ∷ s) = elim (before_dot s) [
  | some t ↦ some (c ∷ t)
  | none ↦ if code c == 46 then some [] else none
]

only_dots : String → Bool
only_dots [] = true
only_dots (c ∷ s) = code c == 46 && only_dots s

-- `os.path.splitext(filename)[0]`, of a name without a slash: leading dots start no extension.
unfoldable pub root : String → String
unfolding before_dot only_dots
root s = elim (before_dot s) [ none ↦ s | some t ↦ if only_dots t then s else t ]

-- `is_digit` tells the characters of `\d`.
all_digits : (ℕ → Bool) → String → Bool
all_digits is_digit [] = true
all_digits is_digit (c ∷ s) = is_digit (code c) && all_digits is_digit s

-- `_t\d+$`, at the start of the text.
is_suffix : (ℕ → Bool) → String → Bool
unfolding all_digits
is_suffix is_digit (c ∷ d ∷ e ∷ s) =
    code c == 95 && code d == 116 && is_digit (code e) && all_digits is_digit s
is_suffix is_digit _ = false

-- `re.sub(r'_t\d+$', '', base)`.
unfoldable pub cut_suffix : (ℕ → Bool) → String → String
unfolding is_suffix
cut_suffix is_digit [] = []
cut_suffix is_digit (c ∷ s) =
    let rest = c ∷ cut_suffix is_digit s in if is_suffix is_digit (c ∷ s) then [] else rest

unfoldable pub strip_track_suffix : (ℕ → Bool) → String → String
unfolding root cut_suffix
strip_track_suffix is_digit filename = cut_suffix is_digit (root filename)

is_ascii_digit : ℕ → Bool
is_ascii_digit n = ltb 47 n && ltb n 58

read_digits : ℕ → String → Option ℕ
unfolding is_ascii_digit
read_digits n [] = some n
read_digits n (c ∷ s) =
    let rest = read_digits (n * 10 + (code c - 48)) s in
    if is_ascii_digit (code c) then rest else none

-- `int(track_number)`, or 0 where the text is no number. Digits other than the ASCII ones, which
-- makemkvcon does not write, are read as no number.
unfoldable pub track_index : Track → ℕ
unfolding read_digits
track_index t = if is_empty t.track_number then 0 else or_else (read_digits 0 t.track_number) 0

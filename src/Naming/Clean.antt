-- ===== src/Naming/Clean.antt =====
-- The texts of arm/ripper/naming.py: `_clean_empty_parens`, `clean_for_filename`, and the paths that
-- are joined of the cleaned segments. `is_word` tells the characters of `\w`, and `is_space` those
-- of `\s`, which `strip` cuts.
pub mod Safe
pub mod Confined
use automatic_ripping_machin.Common.{
  length, keep, ◌==◌, if◌then◌else◌, codes, ℕ, zero, suc, ◌+◌, ◌-◌, ◌*◌, ◌/◌, ◌%◌, ◌^◌, ◌≤◌, ◌<◌,
  ◌≡◌, ◌∙◌, ◌≡⟨◌⟩◌, ◌∎, ◌≢◌, ◌↔◌, ◌⊎◌, Bool, true, false, not, ◌&&◌, ◌||◌, Option, none, some, List,
  [], ◌∷◌, ◌++◌, map,
}
use automatic_ripping_machin.Naming.{Word}

-- `s.replace(c, new)` of one character.
unfoldable pub replace_char : ℕ → Word → Word → Word
replace_char c new [] = []
replace_char c new (d ∷ s) =
    let rest = replace_char c new s in if d == c then new ++ rest else d ∷ rest

abbrev pub lead : Bool → ℕ → Word → Word
lead inside c s = if inside then s else c ∷ s

-- Each run of the characters of a test becomes one `c`; `inside` tells that a run is open.
unfoldable pub squeeze : (ℕ → Bool) → ℕ → Bool → Word → Word
squeeze test c inside [] = []
squeeze test c inside (d ∷ s) = elim (test d) [
  | true ↦ lead inside c (squeeze test c true s)
  | false ↦ d ∷ squeeze test c false s
]

unfoldable pub lstrip : (ℕ → Bool) → Word → Word
lstrip test [] = []
lstrip test (d ∷ s) = if test d then lstrip test s else d ∷ s

unfoldable pub rstrip : (ℕ → Bool) → Word → Word
rstrip test [] = []
rstrip test (d ∷ s) =
    let rest = rstrip test s in if test d && length rest == 0 then [] else d ∷ rest

abbrev pub strip : (ℕ → Bool) → Word → Word
strip test s = rstrip test (lstrip test s)

-- `[\w .()\[\]-]`.
abbrev pub is_kept : (ℕ → Bool) → ℕ → Bool
is_kept is_word c =
    is_word c || c == 32 || c == 46 || c == 40 || c == 41 || c == 91 || c == 93 || c == 45

abbrev pub is_dot : ℕ → Bool
is_dot c = c == 46

abbrev pub is_dot_or_space : ℕ → Bool
is_dot_or_space c = c == 46 || c == 32

-- `re.sub(r'\.{2,}', '.', s)` is the squeezing of the runs of dots, since one dot stays one.
unfoldable pub clean_for_filename : (is_word is_space : ℕ → Bool) → Word → Word
unfolding replace_char squeeze lstrip rstrip
clean_for_filename is_word is_space s =
    let dashed = replace_char 58 (codes " - ") s in
    let spaced = squeeze is_space 32 false dashed in
    let named = replace_char 38 (codes "and") spaced in
    let slashed = replace_char 92 (codes " - ") named in
    strip is_dot_or_space (squeeze is_dot 46 false (keep (is_kept is_word) slashed))

abbrev pub after_space : Option (ℕ × Word) → Option (ℕ × Word)
after_space none = none
after_space (some (k, r)) = some (suc k, r)

-- Up to `n` spaces, then the character `c`: the length, if the text starts so.
unfoldable pub spaces_then : ℕ → ℕ → Word → Option (ℕ × Word)
spaces_then n c [] = none
spaces_then zero c (d ∷ s) = if d == c then some (1, s) else none
spaces_then (suc n) c (d ∷ s) =
    let more = after_space (spaces_then n c s) in
    if d == c then some (1, s) else if d == 32 then more else none

-- The length of ` {0,4}\( {0,4}\)` at the start of the text.
unfoldable pub parens_at : Word → Option ℕ
unfolding spaces_then
parens_at s = elim (spaces_then 4 40 s) [
  | none ↦ none
  | some (k, r) ↦ elim (spaces_then 4 41 r) [ none ↦ none | some (l, _) ↦ some (k + l) ]
]

unfoldable pub drop_parens : ℕ → Word → Word
unfolding parens_at
drop_parens skip [] = []
drop_parens (suc skip) (c ∷ s) = drop_parens skip s
drop_parens zero (c ∷ s) = elim (parens_at (c ∷ s)) [
  | none ↦ c ∷ drop_parens zero s
  | some zero ↦ c ∷ drop_parens zero s
  | some (suc n) ↦ drop_parens n s
]

unfoldable pub clean_empty_parens : (ℕ → Bool) → Word → Word
unfolding drop_parens lstrip rstrip
clean_empty_parens is_space s = strip is_space (drop_parens 0 s)

-- `s.split('/')`, never empty.
abbrev pub push_char : ℕ → List Word → List Word
push_char c [] = (c ∷ []) ∷ []
push_char c (w ∷ ws) = (c ∷ w) ∷ ws

unfoldable pub split_slash : Word → List Word
split_slash [] = [] ∷ []
split_slash (c ∷ s) = let rest = split_slash s in if c == 47 then [] ∷ rest else push_char c rest

abbrev pub starts_slash : Word → Bool
starts_slash [] = false
starts_slash (c ∷ _) = c == 47

unfoldable pub ends_slash : Word → Bool
ends_slash [] = true
ends_slash (c ∷ []) = c == 47
ends_slash (c ∷ d ∷ s) = ends_slash (d ∷ s)

-- `os.path.join` of two parts, and of the parts of a list; the empty list gives the empty text.
abbrev pub join_two : Word → Word → Word
join_two a b = if starts_slash b then b else if ends_slash a then a ++ b else a ++ 47 ∷ b

unfoldable pub join_from : Word → List Word → Word
unfolding ends_slash
join_from a [] = a
join_from a (b ∷ bs) = join_from (join_two a b) bs

unfoldable pub join_parts : List Word → Word
unfolding join_from
join_parts [] = []
join_parts (a ∷ bs) = join_from a bs

-- The path of a rendered folder: the segments that are not blank, each cleaned.
unfoldable pub clean_path : (is_word is_space : ℕ → Bool) → Word → Word
unfolding clean_for_filename split_slash join_parts
clean_path is_word is_space s = join_parts (
    map (clean_for_filename is_word is_space)
      (keep (λ seg. not (length (strip is_space seg) == 0)) (split_slash s)))

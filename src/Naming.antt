-- ===== src/Naming.antt =====
-- arm/ripper/naming.py: the validation of a naming pattern.
pub mod Distance
pub mod Suggestions
pub mod Clean
pub mod Render
mod Examples
mod Runs
use automatic_ripping_machin.Common.{
  length, drop, keep, any, ltb, leb, ◌==◌, if◌then◌else◌, ℕ, zero, suc, ◌+◌, ◌-◌, ◌*◌, ◌/◌, ◌%◌,
  ◌^◌, ◌≤◌, ◌<◌, min, ◌≡◌, ◌∙◌, ◌≡⟨◌⟩◌, ◌∎, ◌≢◌, ◌↔◌, ◌⊎◌, Bool, true, false, not, ◌&&◌, ◌||◌,
  Option, none, some, List, [], ◌∷◌, ◌++◌,
}

abbrev pub min3 : ℕ → ℕ → ℕ → ℕ
min3 a b c = min (min a b) c

-- The inner loop of `_levenshtein`: `left` is the last element of `curr_row`, and the rest of
-- `prev_row` stands beside the rest of `s2`.
unfoldable pub fill_row : ℕ → ℕ → List ℕ → List ℕ → List ℕ
fill_row c1 left (p ∷ q ∷ prev) (c2 ∷ s2) =
    let cost = if c1 == c2 then 0 else 1 in
    left ∷ fill_row c1 (min3 (left + 1) (q + 1) (p + cost)) (q ∷ prev) s2
fill_row c1 left prev s2 = left ∷ []

-- `range(i, i + len + 1)`.
unfoldable pub count_from : ℕ → List ℕ → List ℕ
count_from i [] = i ∷ []
count_from i (c ∷ s) = i ∷ count_from (suc i) s

-- The outer loop, from the row `i`.
unfoldable pub fill_rows : ℕ → List ℕ → List ℕ → List ℕ → List ℕ
unfolding fill_row
fill_rows i prev s2 [] = prev
fill_rows i prev s2 (c1 ∷ s1) = fill_rows (suc i) (fill_row c1 (suc i) prev s2) s2 s1

-- `row[-1]`.
unfoldable pub last : List ℕ → ℕ
last [] = 0
last (x ∷ []) = x
last (x ∷ y ∷ xs) = last (y ∷ xs)

-- `_levenshtein` of a longer text and a shorter one.
unfoldable pub levenshtein_ordered : List ℕ → List ℕ → ℕ
unfolding count_from fill_rows last
levenshtein_ordered s1 s2 =
    if length s2 == 0 then length s1 else last (fill_rows 0 (count_from 0 s2) s2 s1)

-- `_levenshtein`, on the code points.
unfoldable pub levenshtein : List ℕ → List ℕ → ℕ
unfolding levenshtein_ordered
levenshtein s1 s2 =
    if ltb (length s1) (length s2) then levenshtein_ordered s2 s1 else levenshtein_ordered s1 s2

abbrev pub Word : Type 0
Word = List ℕ

unfoldable pub same_word : Word → Word → Bool
same_word [] [] = true
same_word (a ∷ v) (b ∷ w) = (a == b) && same_word v w
same_word _ _ = false

-- `t in VALID_VARS`.
abbrev pub is_var : List Word → Word → Bool
is_var vars t = any (same_word t) vars

-- `\w+` of a token: the word and its length. `is_word` tells the characters of `\w`.
take_word : (ℕ → Bool) → List ℕ → Word
take_word is_word [] = []
take_word is_word (c ∷ cs) = let rest = take_word is_word cs in if is_word c then c ∷ rest else []

abbrev one_more : Option ℕ → Option ℕ
one_more none = none
one_more (some n) = some (suc n)

-- The length of `[^}]*\}`, if there is a closing brace.
to_brace : List ℕ → Option ℕ
to_brace [] = none
to_brace (c ∷ cs) = let more = one_more (to_brace cs) in if c == 125 then some 1 else more

-- The length of `(?::[^}]*)?\}`.
after_word : List ℕ → Option ℕ
unfolding to_brace
after_word [] = none
after_word (c ∷ cs) =
    let format = one_more (to_brace cs) in
    if c == 125 then some 1 else if c == 58 then format else none

-- A token behind its opening brace: the word, and the length of what follows the brace.
token_at : (ℕ → Bool) → List ℕ → Option (Word × ℕ)
unfolding take_word after_word
token_at is_word cs =
    let word = take_word is_word cs in
    elim (after_word (drop (length word) cs)) [
      | none ↦ none
      | some n ↦ if length word == 0 then none else some (word, length word + n)
    ]

-- `re.findall`: the tokens from left to right; a token's characters are passed over.
unfoldable pub find_tokens : (ℕ → Bool) → ℕ → List ℕ → List Word
unfolding token_at
find_tokens is_word skip [] = []
find_tokens is_word (suc skip) (c ∷ cs) = find_tokens is_word skip cs
find_tokens is_word zero (c ∷ cs) = elim (if c == 123 then token_at is_word cs else none) [
  | none ↦ find_tokens is_word zero cs
  | some (word, n) ↦ word ∷ find_tokens is_word n cs
]

-- `min(VALID_VARS, key=...)`: the first variable with the least distance.
unfoldable pub best : Word → Word → List Word → Word
unfolding levenshtein
best inv v [] = v
best inv v (w ∷ ws) = best inv (if ltb (levenshtein inv w) (levenshtein inv v) then w else v) ws

-- `suggestions[inv] = best`.
unfoldable pub set_suggestion : Word → Word → List (Word × Word) → List (Word × Word)
unfolding same_word
set_suggestion inv v [] = (inv, v) ∷ []
set_suggestion inv v ((k, w) ∷ m) =
    let rest = set_suggestion inv v m in if same_word k inv then (inv, v) ∷ m else (k, w) ∷ rest

unfoldable pub suggest : Word → List Word → List Word → List (Word × Word) → List (Word × Word)
unfolding best set_suggestion
suggest v vs [] m = m
suggest v vs (inv ∷ more) m =
    suggest v vs more
      (if leb (levenshtein inv (best inv v vs)) 2 then set_suggestion inv (best inv v vs) m else m)

pub record Validation : Type 0 where
  pub valid : Bool
  pub invalid_vars : List Word
  pub suggestions : List (Word × Word)

-- The variables `v ∷ vs` are those of VALID_VARS, in the order of its iteration.
unfoldable pub validate_pattern : (ℕ → Bool) → Word → List Word → List ℕ → Validation
unfolding find_tokens suggest same_word
validate_pattern is_word v vs pattern =
    let invalid = keep (λ t. not (is_var (v ∷ vs) t)) (find_tokens is_word 0 pattern) in
    record {
      valid = length invalid == 0;
      invalid_vars = invalid;
      suggestions = suggest v vs invalid [];
    }

-- ===== src/Naming/Examples.antt =====
-- Runs of the pattern validation.
use mathlib.Core.List.{reverse}
use automatic_ripping_machin.Common.{All, ltb, ℕ, ◌≡◌, refl, Bool, ◌&&◌, List, [], ◌∷◌, ◌++◌}
use automatic_ripping_machin.Naming.{levenshtein, Word, find_tokens, validate_pattern}
use automatic_ripping_machin.Naming.Distance.{distance, levenshtein-distance}
use automatic_ripping_machin.Naming.Suggestions.{Nearest, validate_pattern_suggests}

abbrev is_lower : ℕ → Bool
is_lower c = ltb 96 c && ltb c 123

-- "title" and "year".
abbrev title : Word
title = 116 ∷ 105 ∷ 116 ∷ 108 ∷ 101 ∷ []

abbrev year : Word
year = 121 ∷ 101 ∷ 97 ∷ 114 ∷ []

-- "titel"
abbrev titel : Word
titel = 116 ∷ 105 ∷ 116 ∷ 101 ∷ 108 ∷ []

-- "{titel:s} ({year})"
abbrev pattern : List ℕ
pattern = 123 ∷ titel ++ 58 ∷ 115 ∷ 125 ∷ 32 ∷ 40 ∷ 123 ∷ year ++ 125 ∷ 41 ∷ []

levenshtein_run : levenshtein title titel ≡ 2
unfolding levenshtein
levenshtein_run = refl

tokens_run : find_tokens is_lower 0 pattern ≡ titel ∷ year ∷ []
unfolding find_tokens
tokens_run = refl

levenshtein-distance_example : levenshtein titel title ≡ distance (reverse titel) (reverse title)
levenshtein-distance_example = (levenshtein-distance titel title).0

validate_pattern_suggests_example :
    All
      (Nearest title (year ∷ []))
      (validate_pattern is_lower title (year ∷ []) pattern).suggestions
validate_pattern_suggests_example = (validate_pattern_suggests title (year ∷ []) is_lower pattern).1

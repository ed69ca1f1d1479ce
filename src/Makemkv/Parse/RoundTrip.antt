-- ===== src/Makemkv/Parse/RoundTrip.antt =====
-- What is written as a line of makemkvcon is parsed as it was.
use Prim.Native.Char.{Char, code}
use Prim.Native.String
use text.Mathlib.TextLemmas.{nil-append, cons-append}
use automatic_ripping_machin.Common.{
  length, All, ==_refl, show, has_no, show-has_no, ℕ, suc, String, ◌≡◌, refl, ap, ◌∙◌, true, Option,
  some, List, [], ◌∷◌, ◌++◌, arith,
}
use automatic_ripping_machin.Makemkv.Split.{
  split_skip, lstrip_char, rstrip_char, strip_char, cut_at,
}
use automatic_ripping_machin.Makemkv.Parse.{
  Output, sinfo, tinfo, cinfo, prgc, parsed, strip_all, split_last, parse_content, line_of, titled,
  sinfo_of, tinfo_of, parse_type, parse_cut, parse_line,
}

split_piece :
    (c : Char) (n : ℕ) (h t : String)
    → has_no (code c) h ≡ true
    → split_skip c "" (some (suc n)) 0 (String.◌++◌ h (String.◌∷◌ c t))
      ≡ h ∷ split_skip c "" (some n) 0 t
unfolding split_skip has_no
split_piece c n String.[] t k = rw nil-append (rw (==_refl (code c), split_skip) refl)
split_piece c n (String.◌∷◌ d h) t k = rw cons-append (ground (arith, split_piece c n h t))

split_rest : (c : Char) (sep s : String) → split_skip c sep (some 0) 0 s ≡ s ∷ []
unfolding split_skip
split_rest c sep String.[] = refl
split_rest c sep (String.◌∷◌ d s) = rw (split_rest c sep s) refl

abbrev pub comma : Char
comma = ","

abbrev pub colon : Char
colon = ":"

abbrev pub quote : Char
quote = "\""

-- The entries of the header, each with a comma, and the body.
abbrev pub header : List String → String → String
header [] body = body
header (h ∷ hs) body = String.◌++◌ h (String.◌∷◌ comma (header hs body))

split-header :
    (hs : List String) (body : String)
    → All (λ h. has_no 44 h ≡ true) hs
    → split_skip comma "" (some (length hs)) 0 (header hs body) ≡ hs ++ body ∷ []
split-header [] body k = split_rest comma "" body
split-header (h ∷ hs) body k =
    split_piece comma (length hs) h (header hs body) k.0
    ∙ ap (λ ws. h ∷ ws) (split-header hs body k.1)

split_last-append :
    (hs : List String) (body : String)
    → split_last (some 0) (hs ++ body ∷ []) ≡ hs ++ strip_char 34 body ∷ []
split_last-append [] body = ap strip_all (split_rest quote ",\"" body)
split_last-append (h ∷ []) body = ap (λ ws. h ∷ strip_all ws) (split_rest quote ",\"" body)
split_last-append (h ∷ g ∷ hs) body = ap (λ ws. h ∷ ws) (split_last-append (g ∷ hs) body)

abbrev pub in_quotes : String → String
in_quotes v = String.◌∷◌ quote (String.◌++◌ v (String.◌∷◌ quote ""))

rstrip_quote :
    (v : String) → has_no 34 v ≡ true → rstrip_char 34 (String.◌++◌ v (String.◌∷◌ quote "")) ≡ v
unfolding rstrip_char has_no
rstrip_quote String.[] h = refl
rstrip_quote (String.◌∷◌ d v) h = rw cons-append (ground (arith, rstrip_quote v))

strip-in_quotes : (v : String) → has_no 34 v ≡ true → strip_char 34 (in_quotes v) ≡ v
unfolding lstrip_char rstrip_char has_no
strip-in_quotes String.[] h = refl
strip-in_quotes (String.◌∷◌ d v) h = rw cons-append (ground (arith, rstrip_quote v))

parse_content-header :
    (hs : List String) (v : String)
    → All (λ h. has_no 44 h ≡ true) hs
    → has_no 34 v ≡ true
    → parse_content (header hs (in_quotes v)) (length hs) (some 0) ≡ hs ++ v ∷ []
unfolding parse_content
parse_content-header hs v h k =
    ap (split_last (some 0)) (split-header hs (in_quotes v) h)
    ∙ split_last-append hs (in_quotes v)
    ∙ ap (λ w. hs ++ w ∷ []) (strip-in_quotes v k)

abbrev pub numbers : List ℕ → List String
numbers [] = []
numbers (n ∷ ns) = show n ∷ numbers ns

numbers-All : (ns : List ℕ) → All (λ h. has_no 44 h ≡ true) (numbers ns)
numbers-All [] = tt
numbers-All (n ∷ ns) = (show-has_no n 44 refl, numbers-All ns)

-- A line of a kind, with numbers and a quoted text.
abbrev pub line : String → List ℕ → String → String
line kind ns v = String.◌++◌ kind (String.◌∷◌ colon (header (numbers ns) (in_quotes v)))

cut_at-kind :
    (kind t : String)
    → has_no 58 kind ≡ true
    → cut_at 58 (String.◌++◌ kind (String.◌∷◌ colon t)) ≡ (kind, some t)
unfolding cut_at has_no
cut_at-kind String.[] t h = rw nil-append refl
cut_at-kind (String.◌∷◌ d kind) t h = rw cons-append (ground (arith, cut_at-kind kind t))

module _ (int_of : String → Option ℕ) where
  -- `int` reads what `str` writes of the number.
  abbrev pub Reads : ℕ → Type 0
  Reads n = int_of (show n) ≡ some n

  parsed_tinfo :
      (tid id code : ℕ) (v : String)
      → Reads tid
      → Reads id
      → Reads code
      → tinfo_of int_of (show tid ∷ show id ∷ show code ∷ v ∷ []) ≡ some (tinfo tid id code v)
  parsed_tinfo tid id code v t i c = rw (t, i, c) refl

  parsed_sinfo :
      (tid sid id code : ℕ) (v : String)
      → Reads tid
      → Reads sid
      → Reads id
      → Reads code
      → sinfo_of int_of (show tid ∷ show sid ∷ show id ∷ show code ∷ v ∷ [])
        ≡ some (sinfo tid sid id code v)
  parsed_sinfo tid sid id code v t s i c = rw (t, s, i, c) refl

  parsed_titled :
      (f : ℕ → ℕ → String → Output) (a b : ℕ) (v : String)
      → Reads a
      → Reads b
      → titled int_of f (show a ∷ show b ∷ v ∷ []) ≡ some (f a b v)
  parsed_titled f a b v h k = rw (h, k) refl

  parse_cut-some :
      (kind content : String)
      → parse_cut int_of (kind, some content) ≡ parse_type int_of kind content
  unfolding parse_cut
  parse_cut-some kind content = refl

  parse_line-line :
      (kind : String) (ns : List ℕ) (v : String)
      → has_no 58 kind ≡ true
      → parse_line int_of (line kind ns v)
        ≡ parse_type int_of kind (header (numbers ns) (in_quotes v))
  unfolding parse_line
  parse_line-line kind ns v h =
      ap (parse_cut int_of) (cut_at-kind kind (header (numbers ns) (in_quotes v)) h)
      ∙ parse_cut-some kind (header (numbers ns) (in_quotes v))

  content :
      (ns : List ℕ) (v : String)
      → has_no 34 v ≡ true
      → parse_content (header (numbers ns) (in_quotes v)) (length (numbers ns)) (some 0)
        ≡ numbers ns ++ v ∷ []
  content ns v h = parse_content-header (numbers ns) v (numbers-All ns) h

  -- Where `int` reads what `str` writes of the numbers: the line that is written of a title's, a
  -- stream's or the disc's attribute, or of the progress at hand, is parsed as that very attribute,
  -- whatever the text is in which no quote stands, commas and colons included.
  pub parse_line_round_trip :
      (tid sid id code : ℕ) (v : String)
      → Reads tid
      → Reads sid
      → Reads id
      → Reads code
      → has_no 34 v ≡ true
      → (parse_line int_of (line "TINFO" (tid ∷ id ∷ code ∷ []) v) ≡ parsed (tinfo tid id code v))
        × (parse_line int_of (line "SINFO" (tid ∷ sid ∷ id ∷ code ∷ []) v)
            ≡ parsed (sinfo tid sid id code v))
        × (parse_line int_of (line "CINFO" (id ∷ code ∷ []) v) ≡ parsed (cinfo id code v))
        × (parse_line int_of (line "PRGC" (code ∷ id ∷ []) v) ≡ parsed (prgc code id v))
  unfolding parse_type has_no
  parse_line_round_trip tid sid id code v t s i c h = (
    parse_line-line "TINFO" (tid ∷ id ∷ code ∷ []) v refl
        ∙ ap (λ ws. line_of (tinfo_of int_of ws)) (content (tid ∷ id ∷ code ∷ []) v h)
        ∙ ap line_of (parsed_tinfo tid id code v t i c),
    parse_line-line "SINFO" (tid ∷ sid ∷ id ∷ code ∷ []) v refl
        ∙ ap (λ ws. line_of (sinfo_of int_of ws)) (content (tid ∷ sid ∷ id ∷ code ∷ []) v h)
        ∙ ap line_of (parsed_sinfo tid sid id code v t s i c),
    parse_line-line "CINFO" (id ∷ code ∷ []) v refl
        ∙ ap (λ ws. line_of (titled int_of cinfo ws)) (content (id ∷ code ∷ []) v h)
        ∙ ap line_of (parsed_titled cinfo id code v i c),
    parse_line-line "PRGC" (code ∷ id ∷ []) v refl
        ∙ ap (λ ws. line_of (titled int_of prgc ws)) (content (code ∷ id ∷ []) v h)
        ∙ ap line_of (parsed_titled prgc code id v c i),
  )

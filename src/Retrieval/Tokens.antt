-- ===== src/Retrieval/Tokens.antt =====
-- `tokenize` of src/learnarken/retrieval/bm25.py. The two patterns are read in one pass: a match of `_IDENTIFIER` is a
-- chain of at least two runs of letters and digits with one separator between any two of them.
use learn_arken.Prelude.{
  ℕ, ◌+◌, String, ◌≡◌, refl, Bool, true, false, ◌&&◌, ◌||◌, List, [], ◌∷◌, ◌++◌, map, any, leb,
  ◌==◌, if◌then◌else◌, ◌⧺◌,
}
use learn_arken.Prelude.Int.{codes}
use learn_arken.Package.Chunk.{Chunk}

abbrev pub Token : Type 0
Token = List ℕ

abbrev pub is_digit : ℕ → Bool
is_digit c = leb 48 c && leb c 57

abbrev pub is_alnum : ℕ → Bool
is_alnum c = is_digit c || leb 65 c && leb c 90 || leb 97 c && leb c 122

-- One of `-`, `/` and `_`
abbrev pub is_separator : ℕ → Bool
is_separator c = c == 45 || c == 47 || c == 95

-- `str.lower` on the characters of a token
abbrev pub lower : Token → Token
lower cs = map (λ c. if leb 65 c && leb c 90 then c + 32 else c) cs

abbrev starts_run : List ℕ → Bool
starts_run [] = false
starts_run (c ∷ s) = is_alnum c

abbrev single : Token → List Token
single [] = []
single (c ∷ word) = lower (c ∷ word) ∷ []

-- The chain ends: the runs before the last one, the chain up to it, and the last run.
abbrev flush : List Token → Token → Token → List Token
flush [] chain word = single word
flush (run ∷ runs) chain word =
    if any is_digit (chain ++ word)
    then lower (chain ++ word) ∷ []
    else map lower (run ∷ runs) ++ single word

unfoldable pub scan : List Token → Token → Token → List ℕ → List Token
scan runs chain word [] = flush runs chain word
scan runs chain word (c ∷ s) =
    let longer = scan runs chain (word ++ c ∷ []) s in
    let linked = scan (runs ++ word ∷ []) (chain ++ word ++ c ∷ []) [] s in
    let ended = flush runs chain word ++ scan [] [] [] s in
    if is_alnum c
    then longer
    else if is_separator c && starts_run word && starts_run s
    then linked
    else ended

unfoldable pub tokenize : String → List Token
unfolding scan
tokenize text = scan [] [] [] (codes text)

abbrev join : List String → String
join [] = ""
join (s ∷ []) = s
join (s ∷ t ∷ r) = s ⧺ " " ⧺ join (t ∷ r)

-- `_indexed_text`
unfoldable pub indexed_text : Chunk → String
indexed_text chunk = join (chunk.text ∷ chunk.dmc ∷ (chunk.icn_refs ++ chunk.outbound_dm_refs))

abbrev pub token_eq : Token → Token → Bool
token_eq [] [] = true
token_eq (c ∷ s) (d ∷ t) = c == d && token_eq s t
token_eq _ _ = false

-- `query_tokens & tokens` is not empty.
abbrev pub overlaps : List Token → List Token → Bool
overlaps query tokens = any (λ t. any (token_eq t) tokens) query

-- An identifier with a digit stays whole, one without a digit falls apart, and a separator at an end is dropped.
tokenize_runs :
    (tokenize "P/N 1234-567" ≡ codes "p" ∷ codes "n" ∷ codes "1234-567" ∷ [])
    × (tokenize "-LA100-A_2/ x" ≡ codes "la100-a_2" ∷ codes "x" ∷ [])
    × (tokenize "left-hand Pump." ≡ codes "left" ∷ codes "hand" ∷ codes "pump" ∷ [])
    × (tokenize " - " ≡ [])
unfolding tokenize
tokenize_runs = (refl, refl, refl, refl)

-- ===== src/Answer/Engine.antt =====
-- src/learnarken/answer/engine.py: the gates that an answer passes. The corpus without duplicates, the
-- threshold and the second look at a figure, whose result only goes into the trace, stand outside.
pub mod Gates
pub mod Cited
pub mod Sound
pub mod Cleared
use Prim.Native.Char.{Char, code}
use Prim.Native.String.{count}
use learn_arken.Prelude.{
  ℕ, String, ◌⧺◌, ◌≡◌, Bool, true, false, not, ◌&&◌, ◌||◌, Option, none, some, List, [], ◌∷◌, ◌++◌,
  map, filter, elem, any, all, str_eq, str_le, strip, is_space, is_none, length, ltb, ◌==◌,
  if◌then◌else◌, Result, ok, raise, ◌>>=◌, ◌>>◌,
}
use learn_arken.Prelude.Dict
use learn_arken.Prelude.Dict.{Dict}
use learn_arken.Prelude.Sort.{sort}
use learn_arken.Package.Chunk.{Metadata, Chunk, Document, from_document}
use learn_arken.Clearance.{insert_new}
use learn_arken.Answer.Models.{
  Gate, threshold, llm, llm_contract, citation_validation, figure_out_of_description, Citation,
  AnswerResult, Failure, clearance_error, llm_error, refuse,
}
use learn_arken.Answer.Json.{RawCitation, Reply}

-- What Python's `re`, `lower` and `casefold` give on a text.
pub record Texts : Type 0 where
  pub casefold : String → String
  pub lower : String → String
  pub words : String → List String
  pub parts : String → List String
  pub measures : String → List String
  pub hotspots : String → List String

abbrev pub min_quote_chars : ℕ
min_quote_chars = 12

abbrev put_space : String → String
put_space String.[] = " "
put_space (String.◌∷◌ c s) = if is_space (code c) then String.◌∷◌ c s else " " ⧺ String.◌∷◌ c s

-- `re.sub(r"\s+", " ", text)`
unfoldable pub collapse : String → String
collapse String.[] = ""
collapse (String.◌∷◌ c s) =
    let rest = collapse s in if is_space (code c) then put_space rest else String.◌∷◌ c rest

unfoldable pub normalize : Texts → String → String
normalize t text = t.casefold (strip (collapse text))

-- `text.startswith(part)` and `part in text`
abbrev pub starts_with : String → String → Bool
starts_with String.[] text = true
starts_with (String.◌∷◌ c part) String.[] = false
starts_with (String.◌∷◌ c part) (String.◌∷◌ d text) = code c == code d && starts_with part text

unfoldable pub contains : String → String → Bool
contains part String.[] = str_eq part ""
contains part (String.◌∷◌ d text) = starts_with part (String.◌∷◌ d text) || contains part text

-- `_ANSWER_STOPWORDS`, of which each word is one between spaces of `_STOPWORD_TEXT`.
abbrev pub Stopwords : Type 0
Stopwords = List String

-- A set of texts, sorted.
unfoldable pub sorted_set : List String → List String
sorted_set [] = []
sorted_set (s ∷ ss) =
    let rest = sorted_set ss in if elem s rest then rest else sort str_le (s ∷ rest)

unfoldable pub ungrounded_figure_tokens : Texts → Stopwords → String → String → String → List String
ungrounded_figure_tokens t stopwords answer cited_text question =
    let grounded_text = normalize t cited_text ⧺ " \n " ⧺ normalize t question in
    let grounded_words = t.words grounded_text in
    sorted_set (
      filter (λ w. not (elem w stopwords) && not (elem w grounded_words)) (t.words (t.lower answer))
      ++ filter (λ p. not (contains (normalize t p) grounded_text))
          (t.parts answer ++ t.measures answer))

abbrev only_hotspot : String → List String → String
only_hotspot icn (h ∷ []) = "[" ⧺ icn ⧺ ", Hotspot " ⧺ h ⧺ "]"
only_hotspot icn _ = "[" ⧺ icn ⧺ "]"

abbrev figure_ref_in : List String → List String → Option String
figure_ref_in [] hotspots = none
figure_ref_in (icn ∷ icns) hotspots = some (only_hotspot icn hotspots)

abbrev pub is_figure : Chunk → Bool
is_figure chunk = str_eq chunk.chunk_type "figure"

unfoldable pub figure_ref : Texts → Chunk → String → Option String
figure_ref t chunk quote =
    if is_figure chunk then figure_ref_in chunk.icn_refs (t.hotspots quote) else none

-- `{c.chunk_id: c for c in evidence}`
unfoldable pub index_onto : List Chunk → Dict Chunk → Dict Chunk
index_onto [] by_id = by_id
index_onto (c ∷ cs) by_id = index_onto cs (Dict.put c.chunk_id c by_id)

unfoldable pub by_id_of : List Chunk → Dict Chunk
by_id_of evidence = index_onto evidence []

-- The tests of one citation, on the chunk that it names.
unfoldable pub is_boilerplate : Texts → Dict Chunk → String → Bool
is_boilerplate t by_id quote =
    ltb 1 (length by_id)
    && all (λ (entry : String × Chunk). contains (normalize t quote) (normalize t entry.1.text))
        by_id

abbrev pub is_bad_in : Texts → Dict Chunk → String → Option Chunk → Bool
is_bad_in t by_id quote none = true
is_bad_in t by_id quote (some chunk) =
    ltb (count (normalize t quote)) min_quote_chars
    || not (contains (normalize t quote) (normalize t chunk.text))
    || is_boilerplate t by_id quote

unfoldable pub is_bad : Texts → Dict Chunk → RawCitation → Bool
is_bad t by_id c = is_bad_in t by_id c.supporting_quote (Dict.get c.chunk_id by_id)

-- `seen.setdefault(chunk_id, quote)` over the citations
abbrev pub set_default : String → String → Option String → Dict String → Dict String
set_default k v (some w) seen = seen
set_default k v none seen = Dict.put k v seen

unfoldable pub first_quotes : List RawCitation → Dict String → Dict String
first_quotes [] seen = seen
first_quotes (c ∷ cs) seen =
    first_quotes cs (set_default c.chunk_id c.supporting_quote (Dict.get c.chunk_id seen) seen)

-- `by_id[cid]`; the citations have been validated, so no id is missing.
abbrev pub chunk_at : Dict Chunk → String × String → List Chunk
chunk_at by_id (cid, quote) = elim (Dict.get cid by_id) [ none ↦ [] | some c ↦ c ∷ [] ]

unfoldable pub chunks_cited : Dict Chunk → Dict String → List Chunk
chunks_cited by_id [] = []
chunks_cited by_id (s ∷ seen) = chunk_at by_id s ++ chunks_cited by_id seen

unfoldable pub cite : Texts → String → String → Chunk → Citation
cite t cid quote chunk = record {
  chunk_id = cid;
  dmc = chunk.dmc;
  source_path = chunk.source_path;
  supporting_quote = quote;
  figure_ref = figure_ref t chunk quote;
}

abbrev pub cite_at : Texts → String → String → Option Chunk → List Citation
cite_at t cid quote none = []
cite_at t cid quote (some chunk) = cite t cid quote chunk ∷ []

unfoldable pub citations_for : Texts → Dict Chunk → Dict String → List Citation
citations_for t by_id [] = []
citations_for t by_id ((cid, quote) ∷ seen) =
    cite_at t cid quote (Dict.get cid by_id) ++ citations_for t by_id seen

unfoldable pub joined : List Chunk → String
joined [] = ""
joined (c ∷ []) = c.text
joined (c ∷ d ∷ cs) = c.text ⧺ " \n " ⧺ joined (d ∷ cs)

-- ===== src/Retrieval/Bm25/Guarded.antt =====
-- `GuardedBM25Retriever` of src/learnarken/retrieval/bm25.py, the lexical route of a fusion, beside `BM25Index.search`.
pub mod Agreed
use learn_arken.Prelude.{
  ℕ, zero, suc, ◌+◌, ◌≤◌, String, ◌≡◌, refl, sym, ap, ◌∙◌, Bool, true, false, inl, inr, Bool-cases,
  Option-cases, Option, none, some, List, [], ◌∷◌, ◌++◌, map, length, leb, length-map,
  length-append, if◌then◌else◌, Result, ok, raise, ◌>>=◌, arith,
}
use learn_arken.Prelude.Sort.{sort}
use mathlib.Core.List.{append_assoc}
use learn_arken.Package.Chunk.{Chunk, Document, to_document}
use learn_arken.Retrieval.Tokens.{Token, tokenize, overlaps}
use learn_arken.Retrieval.Bm25.Best.{length-nil, search-Listed}
use learn_arken.Retrieval.Bm25.{
  SearchError, index_error, empty_corpus, Engine, ScoredChunk, nth, item, enumerate, token_sets,
  ranked, collect, search,
}

-- `range(i, i + n)`
abbrev pub range : ℕ → ℕ → List ℕ
range i zero = []
range i (suc n) = i ∷ range (suc i) n

module _ {Score : Type 0} (engine : Engine Score) where
  -- The key of each document: `scores[i]`
  unfoldable pub with_scores : List Score → List ℕ → Result SearchError (List (ℕ × Score))
  with_scores scores [] = ok []
  with_scores scores (i ∷ rest) = do
    s ← item i scores
    keyed ← with_scores scores rest
    ok ((i, s) ∷ keyed)

  -- The loop, with the documents so far.
  unfoldable pub fetch :
      ℕ
      → List Token
      → List (List Token)
      → List Document
      → List Document
      → List (ℕ × Score)
      → Result SearchError (List Document)
  fetch k query sets docs out [] = ok out
  fetch k query sets docs out ((i, score) ∷ later) =
      let skipped = fetch k query sets docs out later in
      let taken : Result SearchError (List Document) = item i docs >>= λ doc.
      let longer = out ++ doc ∷ [] in
      let more = fetch k query sets docs longer later in
      if leb k (length longer) then ok longer else more in
      item i sets >>= λ tokens. if overlaps query tokens then taken else skipped

  -- `_get_relevant_documents` of the retriever that the index of the chunks holds. For no chunk there is none, and
  -- `bm25_retriever` raises.
  unfoldable pub relevant_documents : List Chunk → String → ℕ → Result SearchError (List Document)
  unfolding with_scores fetch
  relevant_documents [] query k = raise empty_corpus
  relevant_documents (c ∷ cs) query k =
      let chunks = c ∷ cs in
      let docs = map to_document chunks in
      let sets = token_sets chunks in
      let scores = engine.get_scores sets (tokenize query) in
      with_scores scores (range 0 (length docs)) >>= λ keyed.
      fetch k (tokenize query) sets docs []
        (sort (λ (a b : ℕ × Score). engine.le_score b.1 a.1) keyed)

abbrev pub documents : {Score : Type 0} → List (ScoredChunk Score) → List Document
documents {Score = Score} hits = map (λ (h : ScoredChunk Score). to_document h.chunk) hits

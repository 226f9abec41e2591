-- ===== src/Retrieval/Bm25.antt =====
-- `BM25Index` and `GuardedBM25Retriever` of src/learnarken/retrieval/bm25.py. The library that scores the documents is
-- an `Engine`; an index outside a list is an `IndexError`.
pub mod Best
pub mod Numbered
pub mod Ordered
pub mod Guarded
use learn_arken.Prelude.{
  ℕ, zero, suc, ◌+◌, String, Bool, true, false, Option, none, some, List, [], ◌∷◌, ◌++◌, map,
  length, leb, ◌==◌, if◌then◌else◌, Result, ok, raise, ◌>>=◌,
}
use learn_arken.Prelude.Sort.{sort}
use learn_arken.Package.Chunk.{Chunk, Document, to_document}
use learn_arken.Clearance.{ClearanceError}
use learn_arken.Retrieval.Tokens.{Token, tokenize, indexed_text, overlaps}

-- What a search raises. `failed` is an exception of the store, the models or the library.
pub data SearchError : Type 0 where
  unknown_mode : String → SearchError
  empty_corpus : SearchError
  above_cap : ℕ → SearchError
  foreign_chunks : List String → SearchError
  refused : ClearanceError → SearchError
  index_error : SearchError
  failed : String → SearchError

-- rank-bm25: the scores of the documents of a corpus for a query; and Python's floats.
pub record Engine (Score : Type 0) : Type 0 where
  pub get_scores : List (List Token) → List Token → List Score
  pub le_score : Score → Score → Bool
  pub rounded : Score → Score
  pub zero_score : Score

pub record ScoredChunk (Score : Type 0) : Type 0 where
  pub rank : ℕ
  pub score : Score
  pub chunk : Chunk

-- `xs[i]`
unfoldable pub nth {ℓ} : {A : Type ℓ} → ℕ → List A → Option A
nth i [] = none
nth zero (x ∷ xs) = some x
nth (suc i) (x ∷ xs) = nth i xs

abbrev pub item {ℓ} : {A : Type ℓ} → ℕ → List A → Result SearchError A
item i xs = elim (nth i xs) [ none ↦ raise index_error | some x ↦ ok x ]

abbrev pub enumerate {ℓ} : {A : Type ℓ} → ℕ → List A → List (ℕ × A)
enumerate i [] = []
enumerate i (x ∷ xs) = (i, x) ∷ enumerate (suc i) xs

abbrev pub token_sets : List Chunk → List (List Token)
token_sets chunks = map (λ c. tokenize (indexed_text c)) chunks

module _ {Score : Type 0} (engine : Engine Score) where
  -- `sorted(enumerate(scores), key=lambda kv: kv[1], reverse=True)`
  abbrev pub ranked : List Score → List (ℕ × Score)
  ranked scores = sort (λ (a b : ℕ × Score). engine.le_score b.1 a.1) (enumerate 0 scores)

  -- The loop of `BM25Index.search`, with the hits so far.
  unfoldable pub collect :
      ℕ
      → List Token
      → List (List Token)
      → List Chunk
      → List (ScoredChunk Score)
      → List (ℕ × Score)
      → Result SearchError (List (ScoredChunk Score))
  collect k query sets chunks out [] = ok out
  collect k query sets chunks out ((i, score) ∷ later) =
      let skipped = collect k query sets chunks out later in
      let taken : Result SearchError (List (ScoredChunk Score)) = item i chunks >>= λ chunk.
      let hits =
        out ++ record { rank = length out + 1; score = engine.rounded score; chunk = chunk } ∷ [] in
      let more = collect k query sets chunks hits later in
      if leb k (length hits) then ok hits else more in
      item i sets >>= λ tokens. if overlaps query tokens then taken else skipped

  unfoldable pub search : List Chunk → String → ℕ → Result SearchError (List (ScoredChunk Score))
  search [] query k = ok []
  search (c ∷ cs) query zero = ok []
  search (c ∷ cs) query (suc k) =
      let sets = token_sets (c ∷ cs) in
      let query_tokens = tokenize query in
      collect (suc k) query_tokens sets (c ∷ cs) [] (ranked (engine.get_scores sets query_tokens))

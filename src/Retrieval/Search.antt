-- ===== src/Retrieval/Search.antt =====
-- `search_package` of src/learnarken/retrieval/__init__.py. What `corpus_chunks` returns comes in as an argument, and
-- what the routes return, which the store and the models decide, is `invoke`. A number of hits is a natural one.
pub mod Served
use learn_arken.Prelude.{
  ℕ, suc, max, String, Bool, true, false, not, Option, none, some, List, [], ◌∷◌, map, length, take,
  filter, elem, ltb, str_eq, str_le, if◌then◌else◌, Result, ok, raise, ◌>>=◌, ◌>>◌,
}
use learn_arken.Prelude.Sort.{sort}
use learn_arken.Package.Chunk.{Chunk, Document, from_document}
use learn_arken.Clearance.{Checked, partition, assert_admissible}
use learn_arken.Retrieval.Applies.{applies_to}
use learn_arken.Retrieval.Bm25.{
  SearchError, unknown_mode, above_cap, foreign_chunks, refused, Engine, ScoredChunk, search,
}
use learn_arken.Retrieval.Routes.{Scope, Retriever, mode_retriever}

abbrev pub modes : List String
modes = "bm25" ∷ "dense" ∷ "hybrid" ∷ "hybrid-rerank" ∷ "hybrid-graph" ∷ "hybrid-graph-rerank" ∷ []

-- `MAX_TOP_K` of vespa/store.py
abbrev pub max_top_k : ℕ
max_top_k = 400

-- A `ClearanceError` passes through.
abbrev pub checked {ℓ} : {A : Type ℓ} → Checked A → Result SearchError A
checked (ok a) = ok a
checked (raise e) = raise (refused e)

-- `if context`, for a dictionary that may be missing.
abbrev pub has_context : List (String × String) → Bool
has_context [] = false
has_context (c ∷ cs) = true

abbrev pub applicable : List (String × String) → List Chunk → List Chunk
applicable context chunks =
    if has_context context then filter (λ c. applies_to c context) chunks else chunks

abbrev pub ids : List Chunk → List String
ids chunks = map (λ (c : Chunk). c.chunk_id) chunks

abbrev pub foreign : List Chunk → List Chunk → List String
foreign chunks found = filter (λ i. not (elem i (ids chunks))) (ids found)

abbrev pub refuse_foreign : List String → Result SearchError (Unit {0})
refuse_foreign [] = ok tt
refuse_foreign (i ∷ rest) = raise (foreign_chunks (take 3 (sort str_le (i ∷ rest))))

abbrev pub refuse_above_cap : List (String × String) → ℕ → Result SearchError (Unit {0})
refuse_above_cap [] fetch_k = ok tt
refuse_above_cap (c ∷ cs) fetch_k =
    if ltb max_top_k fetch_k then raise (above_cap fetch_k) else ok tt

module _ {Score : Type 0} (engine : Engine Score)
    (invoke : Retriever → String → Result SearchError (List Document)) where
  -- `[ScoredChunk(rank=i + 1, score=0.0, chunk=c) for i, c in enumerate(chunks)]`, from a rank on
  abbrev pub numbered : ℕ → List Chunk → List (ScoredChunk Score)
  numbered n [] = []
  numbered n (c ∷ cs) =
      record { rank = n; score = engine.zero_score; chunk = c } ∷ numbered (suc n) cs

  -- The modes that ask the store, from the chunks that have been admitted.
  unfoldable pub search_store :
      List Chunk
      → String
      → ℕ
      → List (String × String)
      → String
      → Scope
      → Result SearchError (List (ScoredChunk Score))
  search_store chunks query k context mode scope = do
    let fetch_k = if has_context context then max k (length chunks) else k
    u ← refuse_above_cap context fetch_k
    retriever ← mode_retriever mode chunks fetch_k scope
    documents ← invoke retriever query
    let found = map from_document documents
    v ← refuse_foreign (foreign chunks found)
    let kept = applicable context found
    w ← checked (assert_admissible kept scope.clearance)
    ok (numbered 1 (take k kept))

  unfoldable pub search_package :
      Result SearchError (List Chunk)
      → String
      → ℕ
      → List (String × String)
      → String
      → Scope
      → Result SearchError (List (ScoredChunk Score))
  unfolding search search_store
  search_package corpus query k context mode scope =
      let searched : Result SearchError (List (ScoredChunk Score)) = corpus >>= λ chunks.
      checked (partition chunks scope.clearance) >>= λ split.
      if str_eq mode "bm25"
      then search engine (applicable context split.0) query k
      else search_store split.0 query k context mode scope in
      if not (elem mode modes) then raise (unknown_mode mode) else searched

-- ===== src/Retrieval/Routes.antt =====
-- `_mode_retriever` of src/learnarken/retrieval/__init__.py and the retrievers that src/learnarken/retrieval/hybrid.py
-- builds: what each mode asks of the lexical, the dense and the graph route.
pub mod Scoped
use learn_arken.Prelude.{
  ℕ, max, String, Bool, Option, List, [], ◌∷◌, str_eq, if◌then◌else◌, Result, ok, raise, ◌>>=◌,
}
use learn_arken.Package.Chunk.{Chunk}
use learn_arken.Retrieval.Bm25.{SearchError, empty_corpus}

-- Where and for whom a search runs: `strategy`, the name of the package, and `clearance`.
pub record Scope : Type 0 where
  pub strategy : String
  pub package_name : Option String
  pub clearance : Option String

-- `GuardedBM25Retriever`, `VespaDenseRetriever` and `GraphExpansionRetriever`, with their depth.
pub data Arm : Type 0 where
  lexical graph : (k : ℕ) → List Chunk → Arm
  dense : (k : ℕ) → Scope → Arm

-- One route, a fusion by rank, and a fusion whose candidates are scored again down to `top_n`.
pub data Retriever : Type 0 where
  single : Arm → Retriever
  fused : List Arm → Retriever
  reranked : (top_n : ℕ) → List Arm → Retriever

abbrev pub candidate_k : ℕ
candidate_k = 20

unfoldable pub bm25_retriever : List Chunk → ℕ → Result SearchError Arm
bm25_retriever [] k = raise empty_corpus
bm25_retriever (c ∷ cs) k = ok (lexical k (c ∷ cs))

unfoldable pub hybrid_retriever : List Chunk → ℕ → Scope → Result SearchError (List Arm)
unfolding bm25_retriever
hybrid_retriever chunks k scope = do
  words ← bm25_retriever chunks k
  ok (words ∷ dense k scope ∷ [])

unfoldable pub graph_hybrid_retriever : List Chunk → ℕ → Scope → Result SearchError (List Arm)
unfolding bm25_retriever
graph_hybrid_retriever chunks k scope = do
  words ← bm25_retriever chunks k
  ok (graph k chunks ∷ words ∷ dense k scope ∷ [])

unfoldable pub reranked_retriever :
    List Chunk → (k depth : ℕ) → Scope → String → Result SearchError Retriever
unfolding hybrid_retriever graph_hybrid_retriever
reranked_retriever chunks k depth scope base = do
  arms ←
      if str_eq base "hybrid-graph"
      then graph_hybrid_retriever chunks depth scope
      else hybrid_retriever chunks depth scope
  ok (reranked k arms)

unfoldable pub mode_retriever : String → List Chunk → ℕ → Scope → Result SearchError Retriever
unfolding hybrid_retriever graph_hybrid_retriever reranked_retriever
mode_retriever mode chunks k scope =
    let depth = max k candidate_k in
    if str_eq mode "dense"
    then ok (single (dense k scope))
    else if str_eq mode "hybrid"
    then (hybrid_retriever chunks depth scope >>= λ arms. ok (fused arms))
    else if str_eq mode "hybrid-graph"
    then (graph_hybrid_retriever chunks depth scope >>= λ arms. ok (fused arms))
    else reranked_retriever chunks k depth scope
        (if str_eq mode "hybrid-graph-rerank" then "hybrid-graph" else "hybrid")

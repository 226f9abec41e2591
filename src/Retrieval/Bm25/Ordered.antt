-- ===== src/Retrieval/Bm25/Ordered.antt =====
-- `BM25Index.search` of src/learnarken/retrieval/bm25.py finds the best-scored documents, where floats are ordered.
use mathlib.Core.List.{Perm}
use learn_arken.Prelude.{
  ℕ, suc, ◌≤◌, ◌<◌, String, ◌≡◌, Bool, true, false, inl, inr, Bool-cases, List, [], ◌∷◌, length,
  take, filter, arith, All, ok,
}
use learn_arken.Prelude.Sort.{sort, insert, sort-perm, All-insert, All-sort}
use learn_arken.Package.Chunk.{Chunk}
use learn_arken.Retrieval.Tokens.{tokenize}
use learn_arken.Retrieval.Bm25.{Engine, ScoredChunk, enumerate, token_sets, ranked, search}
use learn_arken.Retrieval.Bm25.Best.{Listed, meets, search-Listed}

module _ {Score : Type 0} (engine : Engine Score) where
  -- The first of two places has the better score, and is the earlier one where the scores are equal.
  abbrev pub IsBefore : ℕ × Score → ℕ × Score → Type 0
  IsBefore e f = (engine.le_score f.1 e.1 ≡ true) × (engine.le_score e.1 f.1 ≡ true → e.0 < f.0)

  abbrev pub InOrder : List (ℕ × Score) → Type 0
  InOrder [] = Unit
  InOrder (e ∷ es) = All (IsBefore e) es × InOrder es

  -- The places of all documents, best first, and hits for the first `k` of them that share a token with the query.
  abbrev pub IsBest : List Chunk → String → ℕ → Type 0
  IsBest chunks query k =
      (places : List (ℕ × Score)) × Perm places
        (enumerate 0 (engine.get_scores (token_sets chunks) (tokenize query)))
      × InOrder places
      × ((hits : List (ScoredChunk Score)) × (search engine chunks query k ≡ ok hits)
          × Listed engine chunks 1 hits
              (take k (filter (meets (tokenize query) (token_sets chunks)) places)))

  module _ (total : (a b : Score) → engine.le_score a b ≡ false → engine.le_score b a ≡ true)
      (trans : (a b c : Score)
        → engine.le_score a b ≡ true
        → engine.le_score b c ≡ true
        → engine.le_score a c ≡ true) where
    abbrev order : ℕ × Score → ℕ × Score → Bool
    order a b = engine.le_score b.1 a.1

    insert-InOrder :
        (a : ℕ × Score) (es : List (ℕ × Score))
        → All (λ (e : ℕ × Score). a.0 < e.0) es
        → InOrder es
        → InOrder (insert order a es)
    unfolding insert
    insert-InOrder a [] later h = (tt, tt)
    insert-InOrder a (e ∷ es) later h = elim (Bool-cases (engine.le_score e.1 a.1)) [
      | inl y ↦ rw y (((y, λ t. later.0), both es later.1 h.0 y), h)
      | inr n ↦ rw n (
        All-insert order (IsBefore e) a es (total e.1 a.1 n, λ t. cc (n, t)) h.0,
        insert-InOrder a es later.1 h.1,
      )
    ]
      where
        both :
            (fs : List (ℕ × Score))
            → All (λ (f : ℕ × Score). a.0 < f.0) fs
            → All (IsBefore e) fs
            → engine.le_score e.1 a.1 ≡ true
            → All (IsBefore a) fs
        both [] l b y = tt
        both (f ∷ fs) l b y = ((trans f.1 e.1 a.1 b.0.0 y, λ t. l.0), both fs l.1 b.1 y)

    enumerate-later :
        (i j : ℕ) (scores : List Score)
        → i < j
        → All (λ (e : ℕ × Score). i < e.0) (enumerate j scores)
    enumerate-later i j [] h = tt
    enumerate-later i j (s ∷ scores) h = (h, enumerate-later i (suc j) scores (omega (arith, h)))

    sort-InOrder : (i : ℕ) (scores : List Score) → InOrder (sort order (enumerate i scores))
    unfolding sort
    sort-InOrder i [] = tt
    sort-InOrder i (s ∷ scores) =
        insert-InOrder (i, s) (sort order (enumerate (suc i) scores))
          (All-sort order (λ (e : ℕ × Score). i < e.0) (enumerate (suc i) scores)
            (enumerate-later i (suc i) scores (omega arith)))
          (sort-InOrder (suc i) scores)

    -- Where the library gives a score for each document, scores are ordered and `k` is at least one: the search returns
    -- without an error, and its hits are the first `k` of the documents that share a token with the query, a better
    -- score before a worse one and the earlier document first where scores are equal, numbered from 1.
    pub search-IsBest :
        (chunks : List Chunk) (query : String) (k : ℕ)
        → 1 ≤ k
        → length (engine.get_scores (token_sets chunks) (tokenize query)) ≡ length chunks
        → IsBest chunks query k
    search-IsBest chunks query k positive same =
        let scores = engine.get_scores (token_sets chunks) (tokenize query) in
        (
          ranked engine scores,
          sort-perm order (enumerate 0 scores),
          sort-InOrder 0 scores,
          search-Listed engine chunks query k positive same,
        )

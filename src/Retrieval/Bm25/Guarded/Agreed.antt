-- ===== src/Retrieval/Bm25/Guarded/Agreed.antt =====
-- src/learnarken/retrieval/bm25.py: `GuardedBM25Retriever` and `BM25Index.search` agree.
use learn_arken.Prelude.{
  ℕ, zero, suc, ◌+◌, ◌≤◌, String, ◌≡◌, refl, sym, ap, ◌∙◌, Bool, true, false, inl, inr, Bool-cases,
  List, [], ◌∷◌, ◌++◌, map, length, leb, length-map, length-append, if◌then◌else◌, Result, ok,
  raise, ◌>>=◌, arith,
}
use learn_arken.Prelude.Sort.{sort}
use mathlib.Core.List.{append_assoc}
use learn_arken.Package.Chunk.{Chunk, Document, to_document}
use learn_arken.Retrieval.Tokens.{Token, tokenize, overlaps}
use learn_arken.Retrieval.Bm25.Best.{length-nil, search-Listed}
use learn_arken.Retrieval.Bm25.{
  SearchError, Engine, ScoredChunk, nth, item, enumerate, token_sets, ranked, collect, search,
}
use learn_arken.Retrieval.Bm25.Guarded.{range, with_scores, fetch, relevant_documents, documents}

-- A result with a function applied to its value
abbrev on_ok : {A B : Type 0} → (A → B) → Result SearchError A → Result SearchError B
on_ok f (ok a) = ok (f a)
on_ok f (raise e) = raise e

item-map :
    {A B : Type 0} (f : A → B) (i : ℕ) (xs : List A) → item i (map f xs) ≡ on_ok f (item i xs)
unfolding nth
item-map f i [] = refl
item-map f zero (x ∷ xs) = refl
item-map f (suc i) (x ∷ xs) = item-map f i xs

documents-snoc :
    {Score : Type 0} (out : List (ScoredChunk Score)) (h : ScoredChunk Score)
    → documents (out ++ h ∷ []) ≡ documents out ++ to_document h.chunk ∷ []
documents-snoc [] h = refl
documents-snoc (g ∷ out) h =
    ap (λ (z : List Document). to_document g.chunk ∷ z) (documents-snoc out h)

module _ {Score : Type 0} (engine : Engine Score) (k : ℕ) (query : List Token)
    (sets : List (List Token)) (chunks : List Chunk) where
  met_or_skipped :
      {A B : Type 0} (f : A → B) (m : Result SearchError (List Token))
      (met skipped : Result SearchError A) (met' skipped' : Result SearchError B)
      → met' ≡ on_ok f met
      → skipped' ≡ on_ok f skipped
      → (m >>= λ tokens. if overlaps query tokens then met' else skipped')
        ≡ on_ok f (m >>= λ tokens. if overlaps query tokens then met else skipped)
  met_or_skipped f (raise e) met skipped met' skipped' a b = refl
  met_or_skipped f (ok tokens) met skipped met' skipped' a b =
      elim (Bool-cases (overlaps query tokens)) [ inl y ↦ rw y a | inr n ↦ rw n b ]

  full_or_more :
      {A B : Type 0} (f : A → B) (full : Bool) (a : A) (more : Result SearchError A)
      → (if full then ok (f a) else on_ok f more) ≡ on_ok f (if full then ok a else more)
  full_or_more f true a more = refl
  full_or_more f false a more = refl

  -- The hits with the one that a place adds.
  abbrev longer : List (ScoredChunk Score) → Score → Chunk → List (ScoredChunk Score)
  longer out s c = out ++ record { rank = length out + 1; score = engine.rounded s; chunk = c } ∷ []

  added :
      (out : List (ScoredChunk Score)) (s : Score) (places : List (ℕ × Score))
      (m : Result SearchError Chunk)
      → ((c : Chunk)
          → fetch engine k query sets (map to_document chunks) (documents (longer out s c)) places
            ≡ on_ok documents (collect engine k query sets chunks (longer out s c) places))
      → (on_ok to_document m >>= λ doc.
          if leb k (length (documents out ++ doc ∷ []))
          then ok (documents out ++ doc ∷ [])
          else fetch engine k query sets
              (map to_document chunks)
              (documents out ++ doc ∷ [])
              places)
        ≡ on_ok documents (
            m >>= λ c.
            if leb k (length (longer out s c))
            then ok (longer out s c)
            else collect engine k query sets chunks (longer out s c) places)
  added out s places (raise e) ih = refl
  added out s places (ok c) ih =
      let last : ScoredChunk Score = record {
        rank = length out + 1;
        score = engine.rounded s;
        chunk = c;
      } in
      let grown = documents-snoc out last in
      let long : length (documents out ++ to_document c ∷ []) ≡ length (longer out s c) =
        ap length (sym grown)
        ∙ length-map (λ (h : ScoredChunk Score). to_document h.chunk) (longer out s c) in
      rw (long, sym grown, ih c)
        (full_or_more documents (leb k (length (longer out s c))) (longer out s c)
          (collect engine k query sets chunks (longer out s c) places))

  fetch-collect :
      (out : List (ScoredChunk Score)) (places : List (ℕ × Score))
      → fetch engine k query sets (map to_document chunks) (documents out) places
        ≡ on_ok documents (collect engine k query sets chunks out places)
  unfolding fetch collect
  fetch-collect out [] = refl
  fetch-collect out ((i, s) ∷ places) =
      met_or_skipped documents (item i sets) _ _ _ _
        (ap
            (λ (m : Result SearchError Document). m >>= λ doc.
              if leb k (length (documents out ++ doc ∷ []))
              then ok (documents out ++ doc ∷ [])
              else fetch engine k query sets (map to_document chunks) (documents out ++ doc ∷ [])
                  places)
            (item-map to_document i chunks)
          ∙ added out s places (item i chunks) (λ c. fetch-collect (longer out s c) places))
        (fetch-collect out places)

item-length {ℓ} :
    {A : Type ℓ} (front : List A) (x : A) (back : List A)
    → item (length front) (front ++ x ∷ back) ≡ ok x
unfolding nth
item-length [] x back = refl
item-length (y ∷ front) x back = item-length front x back

module _ {Score : Type 0} (engine : Engine Score) where
  with_scores-range :
      (front back : List Score)
      → with_scores engine (front ++ back) (range (length front) (length back))
        ≡ ok (enumerate (length front) back)
  unfolding with_scores
  with_scores-range front [] = refl
  with_scores-range front (s ∷ back) =
      let count : length (front ++ s ∷ []) ≡ suc (length front) =
        omega (arith, length-append front (s ∷ [])) in
      let step : front ++ s ∷ back ≡ (front ++ s ∷ []) ++ back =
        sym (append_assoc front (s ∷ []) back) in
      let rest : with_scores engine (front ++ s ∷ back) (range (suc (length front)) (length back))
          ≡ ok (enumerate (suc (length front)) back) =
        rw (step, sym count) (with_scores-range (front ++ s ∷ []) back) in
      rw (item-length front s back) (rw rest refl)

  search-collect :
      (chunks : List Chunk) (query : String) (k : ℕ)
      → 1 ≤ k
      → length (engine.get_scores (token_sets chunks) (tokenize query)) ≡ length chunks
      → collect engine k
          (tokenize query)
          (token_sets chunks)
          chunks
          []
          (ranked engine (engine.get_scores (token_sets chunks) (tokenize query)))
        ≡ search engine chunks query k
  unfolding search collect sort
  search-collect [] query k positive same =
      rw (length-nil engine (engine.get_scores [] (tokenize query)) same) refl
  search-collect (c ∷ cs) query zero positive same = absurd (omega (arith, positive))
  search-collect (c ∷ cs) query (suc k) positive same = refl

  -- For at least one chunk and a depth of at least one, and where the library gives a score for each document: the
  -- lexical route of a fusion returns, for the same corpus, query and depth, the documents of the chunks that the search
  -- of the index finds, in the same order, and neither fails.
  pub relevant_documents-search :
      (chunks : List Chunk) (query : String) (k : ℕ)
      → 1 ≤ length chunks
      → 1 ≤ k
      → length (engine.get_scores (token_sets chunks) (tokenize query)) ≡ length chunks
      → (hits : List (ScoredChunk Score)) × (search engine chunks query k ≡ ok hits)
        × (relevant_documents engine chunks query k ≡ ok (documents hits))
  unfolding relevant_documents
  relevant_documents-search [] query k some_chunk positive same = absurd (omega (arith, some_chunk))
  relevant_documents-search (c ∷ cs) query k some_chunk positive same =
      let chunks = c ∷ cs in
      let (hits, found, listed) = search-Listed engine chunks query k positive same in
      let scores = engine.get_scores (token_sets chunks) (tokenize query) in
      let keyed : with_scores engine scores (range 0 (length (map to_document chunks)))
          ≡ ok (enumerate 0 scores) =
        ap (λ (n : ℕ). with_scores engine scores (range 0 n))
          (length-map to_document chunks ∙ sym same)
        ∙ with_scores-range [] scores in
      (
        hits,
        found,
        ap
              (λ (m : Result SearchError (List (ℕ × Score))). m >>= λ keyed.
                fetch engine k (tokenize query) (token_sets chunks) (map to_document chunks) []
                  (sort (λ (a b : ℕ × Score). engine.le_score b.1 a.1) keyed))
              keyed
            ∙ fetch-collect engine k (tokenize query) (token_sets chunks) chunks []
                (ranked engine scores)
            ∙ ap (on_ok documents) (search-collect chunks query k positive same ∙ found),
      )

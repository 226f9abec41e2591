-- ===== src/Retrieval/Bm25/Best.antt =====
-- `BM25Index.search` of src/learnarken/retrieval/bm25.py: which chunks are found.
use mathlib.Core.List.{append_assoc, append-nil}
use learn_arken.Prelude.{
  ℕ, zero, suc, ◌+◌, ◌≤◌, ◌<◌, String, ◌≡◌, refl, sym, ap, ◌∙◌, subst, Bool, true, false, inl, inr,
  Bool-cases, none, some, List, [], ◌∷◌, ◌++◌, length, leb, take, filter, arith, All, length-append,
  length-map, if◌then◌else◌, ok,
}
use learn_arken.Prelude.Sort.{sort, All-sort}
use learn_arken.Package.Chunk.{Chunk}
use learn_arken.Retrieval.Tokens.{Token, tokenize, indexed_text, overlaps}
use learn_arken.Retrieval.Bm25.{
  Engine, ScoredChunk, nth, item, enumerate, token_sets, ranked, collect, search,
}

nth-some {ℓ} : {A : Type ℓ} (i : ℕ) (xs : List A) → i < length xs → (x : A) × (nth i xs ≡ some x)
unfolding nth
nth-some i [] h = absurd (omega (arith, h))
nth-some zero (x ∷ xs) h = (x, refl)
nth-some (suc i) (x ∷ xs) h = nth-some i xs (omega (arith, h))

item-some {ℓ} : {A : Type ℓ} (i : ℕ) (xs : List A) {x : A} → nth i xs ≡ some x → item i xs ≡ ok x
item-some i xs h = rw (h, item) refl

-- Whether the document at a place has a token of the query.
abbrev pub meets : {Score : Type 0} → List Token → List (List Token) → ℕ × Score → Bool
meets query sets e = elim (nth e.0 sets) [ none ↦ false | some tokens ↦ overlaps query tokens ]

meets-some :
    {Score : Type 0} (query : List Token) (sets : List (List Token)) (i : ℕ) (s : Score)
    {tokens : List Token}
    → nth i sets ≡ some tokens
    → meets query sets (i, s) ≡ overlaps query tokens
meets-some query sets i s h = rw (h, meets) refl

module _ {Score : Type 0} (engine : Engine Score) where
  -- Hits for places with scores, numbered from a rank on.
  pub data Listed (chunks : List Chunk)
      : ℕ → List (ScoredChunk Score) → List (ℕ × Score) → Type 0 where
    nil : {n : ℕ} → Listed chunks n [] []
    cons :
        {n i : ℕ} {s : Score} {c : Chunk} {hits : List (ScoredChunk Score)}
        {places : List (ℕ × Score)}
        → nth i chunks ≡ some c
        → Listed chunks (suc n) hits places
        → Listed chunks n
            (record { rank = n; score = engine.rounded s; chunk = c } ∷ hits)
            ((i, s) ∷ places)

  abbrev IsCollected :
      ℕ
      → ℕ
      → List Token
      → List (List Token)
      → List Chunk
      → List (ScoredChunk Score)
      → List (ℕ × Score)
      → Type 0
  IsCollected k room query sets chunks out places =
      (hits : List (ScoredChunk Score)) × (collect engine k query sets chunks out places
        ≡ ok (out ++ hits))
      × Listed chunks (length out + 1) hits (take room (filter (meets query sets) places))

  abbrev hit : ℕ → Score → Chunk → ScoredChunk Score
  hit n s c = record { rank = n; score = engine.rounded s; chunk = c }

  module _ (k : ℕ) (query : List Token) (sets : List (List Token)) (chunks : List Chunk)
      (out : List (ScoredChunk Score)) (i : ℕ) (s : Score) (c : Chunk)
      (places : List (ℕ × Score)) where
    abbrev grown : List (ScoredChunk Score)
    grown = out ++ hit (length out + 1) s c ∷ []

    length-grown : length grown ≡ length out + 1
    length-grown = length-append out (hit (length out + 1) s c ∷ [])

    -- A hit has been added: the search stops when there is no room left.
    taken-Listed :
        (room : ℕ)
        → length out + suc room ≡ k
        → nth i chunks ≡ some c
        → ((r : ℕ) → room ≡ suc r → IsCollected k room query sets chunks grown places)
        → (hits : List (ScoredChunk Score)) × ((if leb k (length grown)
              then ok grown
              else collect engine k query sets chunks grown places)
            ≡ ok (out ++ hits))
          × Listed chunks
              (length out + 1)
              hits
              ((i, s) ∷ take room (filter (meets query sets) places))
    taken-Listed zero fits e rest =
        let full : leb k (length out + 1) ≡ true = ground (arith, fits) in
        (hit (length out + 1) s c ∷ [], rw (length-grown, full) refl, Listed.cons e Listed.nil)
    taken-Listed (suc room) fits e rest =
        let free : leb k (length out + 1) ≡ false = ground (arith, fits) in
        let (hits, found, listed) = rest room refl in
        let next : Listed chunks (suc (length out + 1)) hits
            (take (suc room) (filter (meets query sets) places)) =
          subst (λ n. Listed chunks n hits (take (suc room) (filter (meets query sets) places)))
            (omega (arith, length-grown)) listed in
        (
          hit (length out + 1) s c ∷ hits,
          rw (length-grown, free)
              (found ∙ ap (λ z. ok z) (append_assoc out (hit (length out + 1) s c ∷ []) hits)),
          Listed.cons e next,
        )

    met-Listed :
        (room : ℕ) (tokens : List Token) (hits : List (ScoredChunk Score))
        → nth i sets ≡ some tokens
        → nth i chunks ≡ some c
        → overlaps query tokens ≡ true
        → (if leb k (length grown)
            then ok grown
            else collect engine k query sets chunks grown places)
          ≡ ok (out ++ hits)
        → Listed chunks
            (length out + 1)
            hits
            ((i, s) ∷ take room (filter (meets query sets) places))
        → IsCollected k (suc room) query sets chunks out ((i, s) ∷ places)
    unfolding collect
    met-Listed room tokens hits t e met found listed = (
      hits,
      rw (item-some i sets t, met, item-some i chunks e) found,
      rw (meets-some query sets i s t, met) listed,
    )

  collect-Listed :
      (k room : ℕ) (query : List Token) (sets : List (List Token)) (chunks : List Chunk)
      (out : List (ScoredChunk Score)) (places : List (ℕ × Score))
      → length out + suc room ≡ k
      → length sets ≡ length chunks
      → All (λ (e : ℕ × Score). e.0 < length chunks) places
      → IsCollected k (suc room) query sets chunks out places
  unfolding collect
  collect-Listed k room query sets chunks out [] fits same inside =
      ([], ap ok (sym (append-nil out)), Listed.nil)
  collect-Listed k room query sets chunks out ((i, s) ∷ places) fits same inside =
      let (tokens, t) = nth-some i sets (omega (arith, same, inside.0)) in
      let (c, e) = nth-some i chunks inside.0 in
      elim (Bool-cases (overlaps query tokens)) [
        | inr apart ↦
            let (hits, found, listed) =
              collect-Listed k room query sets chunks out places fits same inside.1 in
            (
              hits,
              rw (item-some i sets t, apart) found,
              rw (meets-some query sets i s t, apart) listed,
            )
        | inl met ↦
            let grow = λ (r : ℕ) (more : room ≡ suc r).
              subst
                (λ n.
                  IsCollected k n query sets chunks (grown k query sets chunks out i s c places)
                    places)
                (sym more)
                (collect-Listed k r query sets chunks (grown k query sets chunks out i s c places)
                  places
                  (omega (arith, fits, more, length-grown k query sets chunks out i s c places))
                  same inside.1) in
            let (hits, found, listed) =
              taken-Listed k query sets chunks out i s c places room fits e grow in
            met-Listed k query sets chunks out i s c places room tokens hits t e met found listed
      ]

  enumerate-inside :
      (n i : ℕ) (scores : List Score)
      → i + length scores ≤ n
      → All (λ (e : ℕ × Score). e.0 < n) (enumerate i scores)
  enumerate-inside n i [] h = tt
  enumerate-inside n i (s ∷ scores) h =
      (omega (arith, h), enumerate-inside n (suc i) scores (omega (arith, h)))

  pub length-nil : (scores : List Score) → length scores ≡ 0 → scores ≡ []
  length-nil [] h = refl
  length-nil (s ∷ scores) h = absurd (omega (arith, h))

  take-nil : (k : ℕ) → Listed [] 1 [] (take k [])
  take-nil zero = Listed.nil
  take-nil (suc k) = Listed.nil

  -- The hits are those of the first `k` places of the loop that share a token with the query.
  pub search-Listed :
      (chunks : List Chunk) (query : String) (k : ℕ)
      → 1 ≤ k
      → length (engine.get_scores (token_sets chunks) (tokenize query)) ≡ length chunks
      → (hits : List (ScoredChunk Score)) × (search engine chunks query k ≡ ok hits)
        × Listed chunks 1 hits (
            take k (
              filter
                (meets (tokenize query) (token_sets chunks))
                (ranked engine (engine.get_scores (token_sets chunks) (tokenize query)))))
  unfolding search sort
  search-Listed [] query k positive same =
      let none_ranked : engine.get_scores [] (tokenize query) ≡ [] =
        length-nil (engine.get_scores [] (tokenize query)) same in
      ([], refl, rw none_ranked (take-nil k))
  search-Listed (c ∷ cs) query zero positive same = absurd (omega (arith, positive))
  search-Listed (c ∷ cs) query (suc k) positive same =
      let chunks = c ∷ cs in
      let sets = token_sets chunks in
      let scores = engine.get_scores sets (tokenize query) in
      let order = λ (a b : ℕ × Score). engine.le_score b.1 a.1 in
      collect-Listed (suc k) k (tokenize query) sets chunks [] (ranked engine scores) (omega arith)
        (length-map (λ c. tokenize (indexed_text c)) chunks)
        (All-sort order (λ (e : ℕ × Score). e.0 < length chunks) (enumerate 0 scores)
          (enumerate-inside (length chunks) 0 scores (omega (arith, same))))

-- ===== src/Retrieval/Routes/Scoped.antt =====
-- `_mode_retriever` of src/learnarken/retrieval/__init__.py: no route sees more than the caller may.
use learn_arken.Prelude.{
  ℕ, ◌≤◌, max, String, ◌≡◌, refl, inl, inr, Bool-cases, List, [], ◌∷◌, str_eq, arith, All, subst,
  ok, >>=-eq-ok, ok-injective,
}
use learn_arken.Package.Chunk.{Chunk}
use learn_arken.Retrieval.Routes.{
  Scope, Arm, lexical, graph, dense, Retriever, single, fused, reranked, candidate_k,
  bm25_retriever, hybrid_retriever, graph_hybrid_retriever, reranked_retriever, mode_retriever,
}

-- The route looks at the given chunks, or carries the scope to the store, and is deep enough.
abbrev pub IsScoped : List Chunk → ℕ → Scope → Arm → Type 0
IsScoped chunks k scope (lexical depth cs) = (cs ≡ chunks) × (k ≤ depth)
IsScoped chunks k scope (graph depth cs) = (cs ≡ chunks) × (k ≤ depth)
IsScoped chunks k scope (dense depth s) = (s ≡ scope) × (k ≤ depth)

abbrev pub arms : Retriever → List Arm
arms (single arm) = arm ∷ []
arms (fused routes) = routes
arms (reranked top_n routes) = routes

module _ (chunks : List Chunk) (k : ℕ) (scope : Scope) where
  bm25_retriever-IsScoped :
      (depth : ℕ) (words : Arm)
      → k ≤ depth
      → bm25_retriever chunks depth ≡ ok words
      → IsScoped chunks k scope words
  unfolding bm25_retriever
  bm25_retriever-IsScoped depth words deep h = bound chunks h
    where
      bound : (cs : List Chunk) → bm25_retriever cs depth ≡ ok words → IsScoped cs k scope words
      bound [] h = cc
      bound (c ∷ cs) h = subst (IsScoped (c ∷ cs) k scope) (ok-injective h) (refl, deep)

  hybrid_retriever-IsScoped :
      (depth : ℕ) (routes : List Arm)
      → k ≤ depth
      → hybrid_retriever chunks depth scope ≡ ok routes
      → All (IsScoped chunks k scope) routes
  unfolding hybrid_retriever
  hybrid_retriever-IsScoped depth routes deep h =
      let (words, made, e) = >>=-eq-ok (bm25_retriever chunks depth) _ h in
      subst (All (IsScoped chunks k scope)) (ok-injective e)
        (bm25_retriever-IsScoped depth words deep made, ((refl, deep), tt))

  graph_hybrid_retriever-IsScoped :
      (depth : ℕ) (routes : List Arm)
      → k ≤ depth
      → graph_hybrid_retriever chunks depth scope ≡ ok routes
      → All (IsScoped chunks k scope) routes
  unfolding graph_hybrid_retriever
  graph_hybrid_retriever-IsScoped depth routes deep h =
      let (words, made, e) = >>=-eq-ok (bm25_retriever chunks depth) _ h in
      subst (All (IsScoped chunks k scope)) (ok-injective e)
        ((refl, deep), (bm25_retriever-IsScoped depth words deep made, ((refl, deep), tt)))

  reranked_retriever-IsScoped :
      (depth top_n : ℕ) (base : String) (r : Retriever)
      → k ≤ depth
      → reranked_retriever chunks top_n depth scope base ≡ ok r
      → All (IsScoped chunks k scope) (arms r)
  unfolding reranked_retriever
  reranked_retriever-IsScoped depth top_n base r deep h =
      elim (Bool-cases (str_eq base "hybrid-graph")) [
        | inl y ↦
            let (routes, made, e) =
              >>=-eq-ok (graph_hybrid_retriever chunks depth scope) _ (rw y at h) in
            subst (λ (z : Retriever). All (IsScoped chunks k scope) (arms z)) (ok-injective e)
              (graph_hybrid_retriever-IsScoped depth routes deep made)
        | inr n ↦
            let (routes, made, e) = >>=-eq-ok (hybrid_retriever chunks depth scope) _ (rw n at h) in
            subst (λ (z : Retriever). All (IsScoped chunks k scope) (arms z)) (ok-injective e)
              (hybrid_retriever-IsScoped depth routes deep made)
      ]

  -- In every mode, each route of the retriever that is built either ranks the chunks that it was given and no others, or
  -- carries the given strategy, package and clearance to the store, and each asks for at least `k` candidates.
  pub mode_retriever-IsScoped :
      (mode : String) (r : Retriever)
      → mode_retriever mode chunks k scope ≡ ok r
      → All (IsScoped chunks k scope) (arms r)
  unfolding mode_retriever
  mode_retriever-IsScoped mode r h = elim (Bool-cases (str_eq mode "dense")) [
    | inl y ↦
        subst (λ (z : Retriever). All (IsScoped chunks k scope) (arms z)) (ok-injective (rw y at h))
          ((refl, omega arith), tt)
    | inr n ↦ elim (Bool-cases (str_eq mode "hybrid")) [
      | inl y ↦
          let (routes, made, e) =
            >>=-eq-ok (hybrid_retriever chunks (max k candidate_k) scope) _ (rw (n, y) at h) in
          subst (λ (z : Retriever). All (IsScoped chunks k scope) (arms z)) (ok-injective e)
            (hybrid_retriever-IsScoped (max k candidate_k) routes (omega arith) made)
      | inr m ↦ elim (Bool-cases (str_eq mode "hybrid-graph")) [
        | inl y ↦
            let (routes, made, e) =
              >>=-eq-ok (graph_hybrid_retriever chunks (max k candidate_k) scope) _
                (rw (n, m, y) at h) in
            subst (λ (z : Retriever). All (IsScoped chunks k scope) (arms z)) (ok-injective e)
              (graph_hybrid_retriever-IsScoped (max k candidate_k) routes (omega arith) made)
        | inr o ↦
            reranked_retriever-IsScoped (max k candidate_k) k _ r (omega arith) (rw (n, m, o) at h)
      ]
    ]
  ]

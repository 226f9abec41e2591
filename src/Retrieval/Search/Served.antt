-- ===== src/Retrieval/Search/Served.antt =====
-- `search_package` of src/learnarken/retrieval/__init__.py: authorisation, scope and applicability of what is served.
use learn_arken.Prelude.{
  ℕ, zero, suc, max, String, ◌≡◌, refl, sym, ap, subst, true, inl, inr, Bool-cases, Option, none,
  some, List, [], ◌∷◌, map, length, take, filter, elem, str_eq, eq_refl, arith, All, All-map,
  All-filter, filter-All, if◌then◌else◌, Result, ok, raise, >>=-eq-ok, ok-injective, length-take,
}
use learn_arken.Package.Chunk.{Chunk, Document, from_document}
use learn_arken.Clearance.{Checked, Split, partition, assert_admissible, admissible_classifications}
use learn_arken.Clearance.Partition.{cleared, partition-splits}
use learn_arken.Clearance.Leaks.{assert_admissible-cleared}
use learn_arken.Retrieval.Applies.{applies_to}
use learn_arken.Retrieval.Bm25.{SearchError, Engine, ScoredChunk, search}
use learn_arken.Retrieval.Bm25.Numbered.{upto, ranks, IsHitList, search-IsHitList}
use learn_arken.Retrieval.Routes.{Scope, Retriever, mode_retriever}
use learn_arken.Retrieval.Search.{
  modes, checked, has_context, applicable, ids, foreign, refuse_foreign, refuse_above_cap, numbered,
  search_store, search_package,
}

-- The clearance, where one is given, covers the chunk's own label.
abbrev pub IsCleared : Option String → Chunk → Type 0
IsCleared none c = Unit
IsCleared (some clearance) c = cleared clearance c ≡ true

abbrev pub Applies : List (String × String) → Chunk → Type 0
Applies context c = has_context context ≡ true → applies_to c context ≡ true

-- A chunk that may be served: one of the admitted ones by its id, cleared, and not excluded by the context.
abbrev pub IsServable : List Chunk → List (String × String) → Option String → Chunk → Type 0
IsServable admitted context clearance c =
    (elem c.chunk_id (ids admitted) ≡ true) × IsCleared clearance c × Applies context c

module _ {ℓ} {A : Type ℓ} where
  All-and : (P Q : A → Type 0) (xs : List A) → All P xs → All Q xs → All (λ x. P x × Q x) xs
  All-and P Q [] p q = tt
  All-and P Q (x ∷ xs) p q = ((p.0, q.0), All-and P Q xs p.1 q.1)

  All-take : (P : A → Type 0) (n : ℕ) (xs : List A) → All P xs → All P (take n xs)
  All-take P zero xs h = tt
  All-take P (suc n) [] h = tt
  All-take P (suc n) (x ∷ xs) h = (h.0, All-take P n xs h.1)

elem-ids : (chunks : List Chunk) → All (λ c. elem c.chunk_id (ids chunks) ≡ true) chunks
elem-ids [] = tt
elem-ids (c ∷ cs) = (
  rw (eq_refl c.chunk_id) refl,
  All-map (λ (d : Chunk). elem d.chunk_id (ids cs) ≡ true)
      (λ (d : Chunk). elem d.chunk_id (ids (c ∷ cs)) ≡ true) (λ d h. later d h) cs (elem-ids cs),
)
  where
    later : (d : Chunk) → elem d.chunk_id (ids cs) ≡ true → elem d.chunk_id (ids (c ∷ cs)) ≡ true
    later d h = ground (arith, h)

-- What `applicable` leaves keeps its property, and fits the context.
applicable-All :
    (P : Chunk → Type 0) (context : List (String × String)) (chunks : List Chunk)
    → All P chunks
    → All (λ c. P c × Applies context c) (applicable context chunks)
applicable-All P [] chunks h =
    All-map P (λ c. P c × Applies [] c) (λ c p. (p, λ absent. cc)) chunks h
applicable-All P (e ∷ context) chunks h =
    All-map (λ c. P c × (applies_to c (e ∷ context) ≡ true)) (λ c. P c × Applies (e ∷ context) c)
      (λ c p. (p.0, λ given. p.1)) (filter (λ c. applies_to c (e ∷ context)) chunks)
      (All-filter P (λ c. applies_to c (e ∷ context)) chunks h)

checked-eq-ok : {A : Type 0} (r : Checked A) {a : A} → checked r ≡ ok a → r ≡ ok a
checked-eq-ok (ok b) h = ap (λ z. ok z) (ok-injective h)
checked-eq-ok (raise e) h = cc

partition-IsCleared :
    (chunks : List Chunk) (clearance : Option String) (split : Split)
    → partition chunks clearance ≡ ok split
    → All (IsCleared clearance) split.0
partition-IsCleared chunks none split h = units split.0
  where
    units : (cs : List Chunk) → All (IsCleared none) cs
    units [] = tt
    units (c ∷ cs) = (tt, units cs)
partition-IsCleared chunks (some clearance) split h =
    subst (All (IsCleared (some clearance))) (sym (partition-splits chunks clearance split h).0)
      (filter-All (cleared clearance) chunks)

assert_admissible-IsCleared :
    (chunks : List Chunk) (clearance : Option String)
    → assert_admissible chunks clearance ≡ ok tt
    → All (IsCleared clearance) chunks
unfolding assert_admissible
assert_admissible-IsCleared [] none h = tt
assert_admissible-IsCleared (c ∷ cs) none h = (tt, assert_admissible-IsCleared cs none refl)
assert_admissible-IsCleared chunks (some clearance) h =
    let (allowed, parsed, e) = >>=-eq-ok (admissible_classifications clearance) _ h in
    (assert_admissible-cleared chunks clearance allowed parsed).0 h

refuse_foreign-All :
    (chunks found : List Chunk)
    → refuse_foreign (foreign chunks found) ≡ ok tt
    → All (λ c. elem c.chunk_id (ids chunks) ≡ true) found
refuse_foreign-All chunks [] h = tt
refuse_foreign-All chunks (c ∷ found) h = elim (Bool-cases (elem c.chunk_id (ids chunks))) [
  | inl y ↦ (y, refuse_foreign-All chunks found (rw y at h))
  | inr n ↦ cc (rw n at h)
]

module _ {Score : Type 0} (engine : Engine Score)
    (invoke : Retriever → String → Result SearchError (List Document)) where
  length-numbered : (n : ℕ) (cs : List Chunk) → length (numbered engine invoke n cs) ≡ length cs
  length-numbered n [] = refl
  length-numbered n (c ∷ cs) = ap suc (length-numbered (suc n) cs)

  ranks-numbered :
      (n : ℕ) (cs : List Chunk)
      → ranks (numbered engine invoke n cs) ≡ upto n (length (numbered engine invoke n cs))
  ranks-numbered n [] = refl
  ranks-numbered n (c ∷ cs) = ap (λ (z : List ℕ). n ∷ z) (ranks-numbered (suc n) cs)

  numbered-All :
      (P : Chunk → Type 0) (n : ℕ) (cs : List Chunk)
      → All P cs
      → All (λ (h : ScoredChunk Score). P h.chunk) (numbered engine invoke n cs)
  numbered-All P n [] h = tt
  numbered-All P n (c ∷ cs) h = (h.0, numbered-All P (suc n) cs h.1)

  numbered-IsHitList :
      (P : Chunk → Type 0) (k : ℕ) (cs : List Chunk)
      → All P cs
      → IsHitList P k (numbered engine invoke 1 (take k cs))
  numbered-IsHitList P k cs h = record {
    chunks_hold = numbered-All P 1 (take k cs) (All-take P k cs h);
    in_order = ranks-numbered 1 (take k cs);
    at_most = omega (arith, length-numbered 1 (take k cs), length-take k cs);
  }

  search_store-IsHitList :
      (chunks : List Chunk) (query : String) (k : ℕ) (context : List (String × String))
      (mode : String) (scope : Scope) (hits : List (ScoredChunk Score))
      → search_store engine invoke chunks query k context mode scope ≡ ok hits
      → IsHitList (IsServable chunks context scope.clearance) k hits
  unfolding search_store
  search_store-IsHitList chunks query k context mode scope hits h =
      let fetch_k = if has_context context then max k (length chunks) else k in
      let (u, fits, h1) = >>=-eq-ok (refuse_above_cap context fetch_k) _ h in
      let (retriever, built, h2) = >>=-eq-ok (mode_retriever mode chunks fetch_k scope) _ h1 in
      let (documents, answered, h3) = >>=-eq-ok (invoke retriever query) _ h2 in
      let found = map from_document documents in
      let (v, local, h4) = >>=-eq-ok (refuse_foreign (foreign chunks found)) _ h3 in
      let kept = applicable context found in
      let (w, admitted, h5) = >>=-eq-ok (checked (assert_admissible kept scope.clearance)) _ h4 in
      let Local : Chunk → Type 0 = λ c. elem c.chunk_id (ids chunks) ≡ true in
      let fitting = applicable-All Local context found (refuse_foreign-All chunks found local) in
      let open_to =
        assert_admissible-IsCleared kept scope.clearance
          (checked-eq-ok (assert_admissible kept scope.clearance) admitted) in
      let servable =
        All-map (λ c. (Local c × Applies context c) × IsCleared scope.clearance c)
          (IsServable chunks context scope.clearance) (λ c p. (p.0.0, p.1, p.0.1)) kept
          (All-and (λ c. Local c × Applies context c) (IsCleared scope.clearance) kept fitting
            open_to) in
      subst (IsHitList (IsServable chunks context scope.clearance) k) (ok-injective h5)
        (numbered-IsHitList (IsServable chunks context scope.clearance) k kept servable)

  -- What a successful search has done: the corpus was read and cut to the caller's clearance, and the hits are servable.
  abbrev pub IsServed :
      Result SearchError (List Chunk)
      → ℕ
      → List (String × String)
      → Scope
      → List (ScoredChunk Score)
      → Type 0
  IsServed corpus k context scope hits =
      (chunks : List Chunk) × (split : Split) × (corpus ≡ ok chunks)
      × (partition chunks scope.clearance ≡ ok split)
      × IsHitList (IsServable split.0 context scope.clearance) k hits

  served :
      (chunks : List Chunk) (split : Split) (query : String) (k : ℕ)
      (context : List (String × String)) (scope : Scope) (hits : List (ScoredChunk Score))
      → partition chunks scope.clearance ≡ ok split
      → search engine (applicable context split.0) query k ≡ ok hits
      → IsHitList (IsServable split.0 context scope.clearance) k hits
  served chunks split query k context scope hits cut h =
      let Known : Chunk → Type 0 =
        λ c. (elem c.chunk_id (ids split.0) ≡ true) × IsCleared scope.clearance c in
      let known =
        All-and (λ c. elem c.chunk_id (ids split.0) ≡ true) (IsCleared scope.clearance) split.0
          (elem-ids split.0) (partition-IsCleared chunks scope.clearance split cut) in
      let servable =
        All-map (λ c. Known c × Applies context c) (IsServable split.0 context scope.clearance)
          (λ c p. (p.0.0, p.0.1, p.1)) (applicable context split.0)
          (applicable-All Known context split.0 known) in
      search-IsHitList engine (IsServable split.0 context scope.clearance)
        (applicable context split.0) query k hits servable h

  dispatched :
      (chunks : List Chunk) (split : Split) (query : String) (k : ℕ)
      (context : List (String × String)) (mode : String) (scope : Scope)
      (hits : List (ScoredChunk Score))
      → partition chunks scope.clearance ≡ ok split
      → (if str_eq mode "bm25"
          then search engine (applicable context split.0) query k
          else search_store engine invoke split.0 query k context mode scope)
        ≡ ok hits
      → IsHitList (IsServable split.0 context scope.clearance) k hits
  dispatched chunks split query k context mode scope hits cut h =
      elim (Bool-cases (str_eq mode "bm25")) [
        | inl y ↦ served chunks split query k context scope hits cut (rw y at h)
        | inr n ↦ search_store-IsHitList split.0 query k context mode scope hits (rw n at h)
      ]

  -- In every mode, whatever the store, the models and the scores are: a search that returns has read its corpus and cut it
  -- to the clearance. Its hits are at most `k`, numbered from 1, and the chunk of each has the id of an admitted chunk, a
  -- label that the clearance covers where one is given, and assertions that do not exclude the context where one is given.
  pub search_package-IsServed :
      (corpus : Result SearchError (List Chunk)) (query : String) (k : ℕ)
      (context : List (String × String)) (mode : String) (scope : Scope)
      (hits : List (ScoredChunk Score))
      → search_package engine invoke corpus query k context mode scope ≡ ok hits
      → IsServed corpus k context scope hits
  unfolding search_package
  search_package-IsServed corpus query k context mode scope hits h =
      elim (Bool-cases (elem mode modes)) [
        | inr unknown ↦ cc (rw unknown at h)
        | inl known ↦
            let (chunks, is_read, h1) = >>=-eq-ok corpus _ (rw known at h) in
            let (split, cut, h2) = >>=-eq-ok (checked (partition chunks scope.clearance)) _ h1 in
            let parted = checked-eq-ok (partition chunks scope.clearance) cut in
            (
              chunks,
              split,
              is_read,
              parted,
              dispatched chunks split query k context mode scope hits parted h2,
            )
      ]

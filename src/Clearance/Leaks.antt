-- ===== src/Clearance/Leaks.antt =====
-- The guards of src/learnarken/clearance.py that check a result set after the cut, and the guard of
-- the tools that run over a whole corpus.
use learn_arken.Prelude.{
  String, ◌≡◌, refl, sym, ◌∙◌, ap, true, false, Option, none, some, List, [], ◌∷◌, map, arith,
  filter-All, All, All-map, is_none, ok, Bool-cases, inl, inr, bind_cong, elem, eq_iff, eq_refl,
  ◌↔◌, ◌⊎◌, ltb, length,
}
use learn_arken.Package.Chunk.{Chunk, to_document}
use learn_arken.Clearance.{
  Split, label, verdict, partition, admissible_classifications, leaked_chunks, leaked_documents,
  refuse_leaked, assert_admissible, assert_documents_admissible, levels, insert_new,
  assert_uniform_or_scoped,
}
use learn_arken.Clearance.Levels.{elem-admissible_classifications}
use learn_arken.Clearance.Partition.{cleared, verdict-cleared, partition-splits, partition-parsed}

module _ (clearance : String) (allowed : List String)
    (parsed : admissible_classifications clearance ≡ ok allowed) where
  -- The two tests, by the reason for a chunk and by membership for a document, agree.
  tests_agree : (c : Chunk) → elem (label c) allowed ≡ is_none (verdict c allowed)
  tests_agree c =
      elem-admissible_classifications clearance (label c) allowed parsed
      ∙ sym (verdict-cleared clearance allowed parsed c)

  leaked_cons :
      (c : Chunk) (rest : List Chunk)
      → leaked_documents allowed (map to_document rest) ≡ leaked_chunks allowed rest
      → leaked_documents allowed (map to_document (c ∷ rest)) ≡ leaked_chunks allowed (c ∷ rest)
  unfolding leaked_documents leaked_chunks to_document
  leaked_cons c rest ih = elim (Bool-cases (is_none (verdict c allowed))) [
    | inl y ↦ rw (tests_agree c, y) ih
    | inr n ↦ rw (tests_agree c, n) (ap (λ t. c.chunk_id ∷ t) ih)
  ]

  leaked-to_document :
      (chunks : List Chunk)
      → leaked_documents allowed (map to_document chunks) ≡ leaked_chunks allowed chunks
  leaked-to_document [] = unfold leaked_documents leaked_chunks in refl
  leaked-to_document (c ∷ rest) = leaked_cons c rest (leaked-to_document rest)

  leaked_chunks-nil :
      (chunks : List Chunk)
      → All (λ c. cleared clearance c ≡ true) chunks
      → leaked_chunks allowed chunks ≡ []
  unfolding leaked_chunks
  leaked_chunks-nil [] h = refl
  leaked_chunks-nil (c ∷ rest) h =
      rw (verdict-cleared clearance allowed parsed c, h.0) (leaked_chunks-nil rest h.1)

  no_leak_cleared :
      (chunks : List Chunk)
      → refuse_leaked clearance (leaked_chunks allowed chunks) ≡ ok tt
      → All (λ c. cleared clearance c ≡ true) chunks
  unfolding leaked_chunks
  no_leak_cleared [] h = tt
  no_leak_cleared (c ∷ rest) h = elim (Bool-cases (is_none (verdict c allowed))) [
    | inl y ↦
        (sym (verdict-cleared clearance allowed parsed c) ∙ y, no_leak_cleared rest (rw y at h))
    | inr n ↦ cc (rw n at h)
  ]

-- For documents that were made from chunks, the check on documents and the check on chunks have one
-- outcome, with the same chunk ids in the error.
pub assert_documents-to_document :
    (chunks : List Chunk) (clearance : Option String)
    → assert_documents_admissible (map to_document chunks) clearance
      ≡ assert_admissible chunks clearance
unfolding assert_documents_admissible assert_admissible
assert_documents-to_document chunks none = refl
assert_documents-to_document chunks (some clearance) =
    bind_cong (admissible_classifications clearance)
      (λ allowed. refuse_leaked clearance (leaked_documents allowed (map to_document chunks)))
      (λ allowed. refuse_leaked clearance (leaked_chunks allowed chunks))
      λ allowed parsed.
        ap (refuse_leaked clearance) (leaked-to_document clearance allowed parsed chunks)

-- Under a clearance that is accepted, the guard passes exactly the result sets of which every chunk
-- is cleared.
pub assert_admissible-cleared :
    (chunks : List Chunk) (clearance : String) (allowed : List String)
    → admissible_classifications clearance ≡ ok allowed
    → (assert_admissible chunks (some clearance) ≡ ok tt)
      ↔ All (λ c. cleared clearance c ≡ true) chunks
unfolding assert_admissible
assert_admissible-cleared chunks clearance allowed parsed = (
  λ h. no_leak_cleared clearance allowed parsed chunks (rw parsed at h),
  λ h. rw parsed (rw (leaked_chunks-nil clearance allowed parsed chunks h)),
)

-- Whatever the clearance, also none, what `partition` admits passes both guards.
pub assert_admissible-partition :
    (chunks : List Chunk) (clearance : Option String) (s : Split)
    → partition chunks clearance ≡ ok s
    → (assert_admissible s.0 clearance ≡ ok tt)
      × (assert_documents_admissible (map to_document s.0) clearance ≡ ok tt)
assert_admissible-partition chunks none s h =
    (unfold assert_admissible in refl, unfold assert_documents_admissible in refl)
assert_admissible-partition chunks (some clearance) s h =
    let (allowed, parsed) = partition-parsed chunks clearance s h in
    let kept = (partition-splits chunks clearance s h).0 in
    let passes =
      (assert_admissible-cleared s.0 clearance allowed parsed).1
        (rw kept (filter-All (cleared clearance) chunks)) in
    (passes, assert_documents-to_document s.0 (some clearance) ∙ passes)

elem-insert_new : (s : String) (xs : List String) → elem s (insert_new s xs) ≡ true
elem-insert_new s xs = elim (Bool-cases (elem s xs)) [ inl y ↦ rw y y | inr n ↦ rw (n, eq_refl s) ]

elem-insert_new_old :
    (s x : String) (xs : List String) → elem x xs ≡ true → elem x (insert_new s xs) ≡ true
elem-insert_new_old s x xs h = elim (Bool-cases (elem s xs)) [
  | inl y ↦ rw y h
  | inr n ↦ rw n (ground arith)
]

elem-levels : (cs : List Chunk) → All (λ c. elem (label c) (levels cs) ≡ true) cs
unfolding levels
elem-levels [] = tt
elem-levels (c ∷ rest) = (
  elem-insert_new (label c) (levels rest),
  All-map (λ d. elem (label d) (levels rest) ≡ true) _
      (λ d. elem-insert_new_old (label c) (label d) (levels rest)) rest (elem-levels rest),
)

-- In a set of at most one text any two members are equal.
elem_small :
    (x y : String) (xs : List String)
    → elem x xs ≡ true
    → elem y xs ≡ true
    → ltb 1 (length xs) ≡ false
    → x ≡ y
elem_small x y [] hx hy small = cc
elem_small x y (z ∷ []) hx hy small = ground (arith, eq_iff x z, eq_iff y z)
elem_small x y (z ∷ w ∷ r) hx hy small = absurd (ground arith)

levels-uniform :
    (s : String) (cs : List Chunk)
    → All (λ d. label d ≡ s) cs
    → (levels cs ≡ []) ⊎ (levels cs ≡ s ∷ [])
unfolding levels
levels-uniform s [] h = inl refl
levels-uniform s (c ∷ rest) h = elim (levels-uniform s rest h.1) [
  | inl e ↦ inr (rw (e, h.0))
  | inr e ↦ inr (rw (e, h.0, eq_refl s))
]

-- A corpus without a declared scope passes exactly when all its chunks carry one label.
pub assert_uniform_iff :
    (c : Chunk) (rest : List Chunk)
    → (assert_uniform_or_scoped (c ∷ rest) none ≡ ok tt) ↔ All (λ d. label d ≡ label c) rest
unfolding assert_uniform_or_scoped
assert_uniform_iff c rest = (only, back)
  where
    all_in : All (λ d. elem (label d) (levels (c ∷ rest)) ≡ true) (c ∷ rest)
    all_in = elem-levels (c ∷ rest)

    only : assert_uniform_or_scoped (c ∷ rest) none ≡ ok tt → All (λ d. label d ≡ label c) rest
    only h = elim (Bool-cases (ltb 1 (length (levels (c ∷ rest))))) [
      | inl y ↦ cc (rw y at h)
      | inr n ↦
          All-map (λ d. elem (label d) (levels (c ∷ rest)) ≡ true) _
            (λ d m. elem_small (label d) (label c) (levels (c ∷ rest)) m all_in.0 n) rest all_in.1
    ]

    back : All (λ d. label d ≡ label c) rest → assert_uniform_or_scoped (c ∷ rest) none ≡ ok tt
    back h = elim (levels-uniform (label c) (c ∷ rest) (refl, h)) [ inl e ↦ rw e | inr e ↦ rw e ]

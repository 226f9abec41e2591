-- ===== src/Retrieval/Index/Verified.antt =====
-- `index_package` and `verify_corpus` of src/learnarken/retrieval/__init__.py: what is indexed passes the verification.
use learn_arken.Prelude.{
  ℕ, String, ◌≡◌, refl, ap, ◌∙◌, subst, true, Option, some, List, [], ◌∷◌, map, elem, eq_refl,
  str_le, arith, All, All-map, All→all, ok, >>=-eq-ok, ok-injective, Result-cases, inl, inr,
}
use learn_arken.Prelude.Dict.{Dict}
use learn_arken.Prelude.Sort.{sort, All-sort, All-sort_inv}
use learn_arken.Package.Chunk.{Chunk}
use learn_arken.Retrieval.Search.{ids}
use learn_arken.Retrieval.Index.{
  Manifest, Services, Package, owners_of, collected, bring_up, index_all, write_last, index_package,
  same_set, verify_corpus,
}

All-elem : (xs : List String) → All (λ x. elem x xs ≡ true) xs
All-elem [] = tt
All-elem (x ∷ xs) = (
  rw (eq_refl x) refl,
  All-map (λ y. elem y xs ≡ true) (λ y. elem y (x ∷ xs) ≡ true) (λ y h. ground (arith, h)) xs
      (All-elem xs),
)

module _ {Vector : Type 0} (services : Services Vector) where
  same_set-sort : (xs : List String) → same_set services (sort str_le xs) xs ≡ true
  same_set-sort xs =
      let there =
        All→all (λ x. elem x xs) (sort str_le xs)
          (All-sort str_le (λ x. elem x xs ≡ true) xs (All-elem xs)) in
      let back =
        All→all (λ y. elem y (sort str_le xs)) xs
          (All-sort_inv str_le (λ y. elem y (sort str_le xs) ≡ true) xs
            (All-elem (sort str_le xs))) in
      rw (there, back) refl

  -- The manifest of a run that has ended.
  abbrev IsWritten : List Chunk → String → Manifest → Type 0
  IsWritten chunks strategy m =
      (m.strategy ≡ some strategy)
      × (m.provider ≡ some services.default_provider)
      × (m.revision ≡ some services.pinned_revision)
      × (m.chunk_ids ≡ some (sort str_le (ids chunks)))
      × (m.schema_digest ≡ some services.current_schema)

  index_all-IsWritten :
      (packages : List Package) (strategy : String) (chunks : List Chunk) (owner : Dict String)
      (m : Manifest) (fed : ℕ)
      → collected packages ≡ ok (chunks, owner)
      → index_all services packages strategy ≡ ok (m, fed)
      → IsWritten chunks strategy m
  unfolding index_all
  index_all-IsWritten packages strategy chunks owner m fed c h =
      let (u, up, h1) = >>=-eq-ok (bring_up services) _ (rw c at h) in
      let (v, filtered, h2) = >>=-eq-ok services.assert_filtering _ h1 in
      let (vectors, embedded, h3) =
        >>=-eq-ok (services.embed (map (λ (c : Chunk). c.text) chunks)) _ h2 in
      let (owners, owned, h4) = >>=-eq-ok (owners_of owner chunks) _ h3 in
      let (n, stored, h5) = >>=-eq-ok (services.feed chunks vectors owners) _ h4 in
      let (stats, synced, h6) = >>=-eq-ok (services.sync chunks owner) _ h5 in
      subst (λ (r : Manifest × ℕ). IsWritten chunks strategy r.0) (ok-injective h6)
        (refl, refl, refl, refl, refl)

  verify_corpus-written :
      (chunks : List Chunk) (strategy : String) (m : Manifest) (held : List String)
      → IsWritten chunks strategy m
      → same_set services held (ids chunks) ≡ true
      → verify_corpus services (ok held) (some m) chunks strategy ≡ ok tt
  unfolding verify_corpus
  verify_corpus-written chunks strategy m held (s, p, r, c, d) same =
      rw (s, p, r, c, d)
        (rw
          (
            eq_refl strategy,
            eq_refl services.default_provider,
            eq_refl services.pinned_revision,
            eq_refl services.current_schema,
            same_set-sort (ids chunks),
            same,
          )
          refl)

  -- A run of `index_package` that returns has written the manifest.
  index_package-cases :
      (packages : List Package) (strategy : String) (file : Option Manifest) (fed : ℕ)
      → (index_package services packages strategy file).1 ≡ ok fed
      → (m : Manifest) × (index_all services packages strategy ≡ ok (m, fed))
        × ((index_package services packages strategy file).0 ≡ some m)
  unfolding index_package
  index_package-cases packages strategy file fed h =
      elim (Result-cases (index_all services packages strategy)) [
        | inr (e, failed) ↦ cc (rw (failed, write_last) at h)
        | inl ((m, n), done) ↦ (
          m,
          done ∙ ap (λ (z : ℕ). ok (m, z)) (ok-injective (rw (done, write_last) at h)),
          rw (done, write_last) refl,
        )
      ]

  -- Packages that have been indexed without an exception pass the verification of the same corpus, strategy and
  -- configuration, provided that the documents in the engine are those of the merged corpus.
  pub index_package-verify_corpus :
      (packages : List Package) (strategy : String) (file : Option Manifest) (fed : ℕ)
      (chunks : List Chunk) (owner : Dict String) (held : List String)
      → collected packages ≡ ok (chunks, owner)
      → (index_package services packages strategy file).1 ≡ ok fed
      → same_set services held (ids chunks) ≡ true
      → verify_corpus services
          (ok held)
          (index_package services packages strategy file).0
          chunks
          strategy
        ≡ ok tt
  index_package-verify_corpus packages strategy file fed chunks owner held c h same =
      let (m, done, written) = index_package-cases packages strategy file fed h in
      ap (λ (f : Option Manifest). verify_corpus services (ok held) f chunks strategy) written
      ∙ verify_corpus-written chunks strategy m held
          (index_all-IsWritten packages strategy chunks owner m fed c done) same

-- ===== src/Retrieval/Index/Samples.antt =====
-- A corpus that is merged, and two packages that are indexed and verified.
use learn_arken.Prelude.{ℕ, ◌≡◌, refl, none, List, [], ◌∷◌, All, elem, true, ok, raise}
use learn_arken.Package.Chunk.{Chunk}
use mathlib.Core.List.{Memᴰ}
use learn_arken.Retrieval.Corpus.{
  conflicting, get_anchor, put_anchor, set_default, merge, dedupe_chunks,
}
use learn_arken.Prelude.Dict
use learn_arken.Retrieval.Index.{
  Services, Package, service_failed, owned_twice, own, gather, owners_of, collected, index_package,
  verify_corpus,
}
use learn_arken.Retrieval.Index.Verified.{index_package-verify_corpus}
use learn_arken.Retrieval.Corpus.Merged.{AreDistinct, AgreeAtAnchors, dedupe_chunks-IsMerged}
use learn_arken.Retrieval.Search.{ids}
use learn_arken.Retrieval.Samples.{pump, seal}

abbrev elsewhere : Chunk
elsewhere = record seal { meta = record seal.meta { source_path = "/dmodule/step" } }

-- A package that is given twice counts once, and another content at one place is refused.
deduped :
    (dedupe_chunks (pump ∷ elsewhere ∷ pump ∷ elsewhere ∷ []) ≡ ok (pump ∷ elsewhere ∷ []))
    × (dedupe_chunks (pump ∷ elsewhere ∷ seal ∷ []) ≡ raise (conflicting "DMC-1" "/dmodule"))
unfolding dedupe_chunks merge get_anchor put_anchor set_default
deduped = (refl, refl)

dedupe_chunks-IsMerged_example :
    AreDistinct (ids (pump ∷ elsewhere ∷ []))
    × All (λ c. Memᴰ c (pump ∷ elsewhere ∷ pump ∷ elsewhere ∷ [])) (pump ∷ elsewhere ∷ [])
    × All
        (λ c. elem c.chunk_id (ids (pump ∷ elsewhere ∷ [])) ≡ true)
        (pump ∷ elsewhere ∷ pump ∷ elsewhere ∷ [])
    × AgreeAtAnchors (pump ∷ elsewhere ∷ pump ∷ elsewhere ∷ [])
dedupe_chunks-IsMerged_example =
    dedupe_chunks-IsMerged (pump ∷ elsewhere ∷ pump ∷ elsewhere ∷ []) (pump ∷ elsewhere ∷ [])
      deduped.0

-- A store that takes every document, with vectors that are lengths.
abbrev store : Services ℕ
store = record {
  default_provider = "local";
  pinned_revision = "r1";
  current_schema = "s1";
  is_up = true;
  deploy = raise (service_failed "vespa");
  assert_filtering = ok tt;
  embed = λ texts. ok (1 ∷ 2 ∷ []);
  feed = λ chunks vectors owners. ok 2;
  sync = λ chunks owner. ok [];
}

abbrev two_packages : List Package
two_packages =
    record { path = "data/pump"; name = "pump"; corpus = ok (pump ∷ []) }
    ∷ record { path = "data/seals"; name = "seals"; corpus = ok (elsewhere ∷ []) }
    ∷ []

collected_two :
    collected two_packages ≡ ok (pump ∷ elsewhere ∷ [], ("a", "pump") ∷ ("b", "seals") ∷ [])
unfolding collected own gather dedupe_chunks merge get_anchor put_anchor set_default Dict.get
    Dict.put
collected_two = refl

-- A chunk in two packages has no one scope.
owned_by_two :
    collected (
      record { path = "x/p"; name = "p"; corpus = ok (pump ∷ []) }
      ∷ record { path = "x/q"; name = "q"; corpus = ok (pump ∷ []) }
      ∷ [])
    ≡ raise (owned_twice "a" "p" "q")
unfolding collected own gather Dict.get Dict.put
owned_by_two = refl

indexed_two : (index_package store two_packages "structure" none).1 ≡ ok 2
unfolding index_package owners_of collected own gather dedupe_chunks merge get_anchor put_anchor
    set_default Dict.get Dict.put
indexed_two = refl

index_package-verify_corpus_example :
    verify_corpus store
      (ok ("b" ∷ "a" ∷ []))
      (index_package store two_packages "structure" none).0
      (pump ∷ elsewhere ∷ [])
      "structure"
    ≡ ok tt
index_package-verify_corpus_example =
    index_package-verify_corpus store two_packages "structure" none 2 (pump ∷ elsewhere ∷ [])
      (("a", "pump") ∷ ("b", "seals") ∷ []) ("b" ∷ "a" ∷ []) collected_two indexed_two refl

-- ===== src/Retrieval/Samples.antt =====
-- Three chunks, two of which may be served at clearance 02, an engine that scores by a table, and a store that answers
-- with fixed documents.
use learn_arken.Prelude.{
  ℕ, ◌+◌, String, ◌≡◌, refl, Option, none, some, List, [], ◌∷◌, true, false, leb, strip, arith, All,
  false, Result, ok, raise,
}
use learn_arken.Prelude.Int.{int_of}
use learn_arken.Prelude.Sort.{sort, insert}
use learn_arken.Package.Model.{Applicability}
use learn_arken.Package.Chunk.{Chunk, Document, to_document, from_document}
use learn_arken.Clearance.{
  partition, sift, verdict, admissible_classifications, normalise, labels_to, is_known,
  assert_admissible, leaked_chunks,
}
use learn_arken.Retrieval.Tokens.{Token, tokenize, scan, indexed_text}
use learn_arken.Retrieval.Applies.{applies_to, values_match, split_commas, split_tilde, in_range}
use learn_arken.Retrieval.Bm25.{
  SearchError, Engine, ScoredChunk, foreign_chunks, empty_corpus, unknown_mode, nth, collect,
  search,
}
use learn_arken.Retrieval.Bm25.Ordered.{IsBest, search-IsBest}
use learn_arken.Retrieval.Bm25.Guarded
use learn_arken.Retrieval.Bm25.Guarded.{with_scores, fetch, relevant_documents}
use learn_arken.Retrieval.Bm25.Guarded.Agreed.{relevant_documents-search}
use learn_arken.Retrieval.Routes.{
  Scope, Arm, Retriever, mode_retriever, bm25_retriever, hybrid_retriever, graph_hybrid_retriever,
  reranked_retriever,
}
use learn_arken.Retrieval.Routes.Scoped.{IsScoped, arms, mode_retriever-IsScoped}
use learn_arken.Retrieval.Search.{search_package, search_store}
use learn_arken.Retrieval.Search.Served.{IsServed, search_package-IsServed}

abbrev chunk : String → String → String → Option Applicability → Chunk
chunk id text classification applicability = record {
  meta = record {
    chunk_id = id;
    strategy = "structure";
    dmc = "DMC-1";
    dm_title = "Pump";
    issue_info = "001-00";
    chunk_type = "step";
    source_path = "/dmodule";
    applicability = applicability;
    security_classification = some classification;
    effective_date = none;
    expiry_date = none;
    has_warning = false;
    has_caution = false;
    outbound_dm_refs = [];
    icn_refs = [];
  };
  text = text;
}

abbrev serial_range : Applicability
serial_range = record {
  display_text = "";
  assertions =
      record { property_ident = "serial"; property_type = "prodattr"; values = "10~20, 31" } ∷ [];
}

abbrev pub pump : Chunk
pump = chunk "a" "Remove pump 12-3." "01" none

abbrev pub seal : Chunk
seal = chunk "b" "Fit the seal of pump 12-3" "02" (some serial_range)

abbrev motor : Chunk
motor = chunk "c" "The motor of the pump" "04" none

abbrev corpus : List Chunk
corpus = pump ∷ seal ∷ motor ∷ []

-- The score of a document is its place from 1.
abbrev count : ℕ → List (List Token) → List ℕ
count n [] = []
count n (t ∷ ts) = n ∷ count (n + 1) ts

abbrev engine : Engine ℕ
engine = record {
  get_scores = λ documents query. count 1 documents;
  le_score = leb;
  rounded = λ s. s;
  zero_score = 0;
}

abbrev answers : List Chunk → Retriever → String → Result SearchError (List Document)
answers chunks retriever query = ok (documents chunks)
  where
    documents : List Chunk → List Document
    documents [] = []
    documents (c ∷ cs) = to_document c ∷ documents cs

abbrev at_two : Scope
at_two = record { strategy = "structure"; package_name = some "pump"; clearance = some "02" }

abbrev as_hit : ℕ → ℕ → Chunk → ScoredChunk ℕ
as_hit rank score chunk = record { rank = rank; score = score; chunk = chunk }

-- All three documents have the word, and the last one has the best score.
found_two : search engine corpus "PUMP" 2 ≡ ok (as_hit 1 3 motor ∷ as_hit 2 2 seal ∷ [])
unfolding search collect tokenize scan indexed_text nth sort insert
found_two = refl

-- The fragment of an identifier is found nowhere, the whole one twice.
found_identifier :
    (search engine corpus "12" 5 ≡ ok [])
    × (search engine corpus "p/n 12-3" 5 ≡ ok (as_hit 1 2 seal ∷ as_hit 2 1 pump ∷ []))
unfolding search collect tokenize scan indexed_text nth sort insert
found_identifier = (refl, refl)

leb_total : (a b : ℕ) → leb a b ≡ false → leb b a ≡ true
leb_total a b h = ground arith

leb_trans : (a b c : ℕ) → leb a b ≡ true → leb b c ≡ true → leb a c ≡ true
leb_trans a b c h g = ground arith

search-IsBest_example : IsBest engine corpus "pump" 2
search-IsBest_example = search-IsBest engine leb_total leb_trans corpus "pump" 2 (omega arith) refl

-- What a search in one mode over the corpus returns, at clearance 02, when the store answers with `found`.
abbrev run :
    List Chunk → String → List (String × String) → Result SearchError (List (ScoredChunk ℕ))
run found mode context =
    search_package engine (answers found) (ok corpus) "pump" 5 context mode at_two

-- The lexical mode leaves out what is withheld, and what the context excludes.
run_bm25 :
    (run [] "bm25" [] ≡ ok (as_hit 1 2 seal ∷ as_hit 2 1 pump ∷ []))
    × (run [] "bm25" (("serial", "12") ∷ []) ≡ ok (as_hit 1 2 seal ∷ as_hit 2 1 pump ∷ []))
    × (run [] "bm25" (("serial", "25") ∷ []) ≡ ok (as_hit 1 1 pump ∷ []))
unfolding search_package partition sift verdict admissible_classifications normalise labels_to
    is_known strip search collect tokenize scan indexed_text nth sort insert applies_to values_match
    split_commas split_tilde in_range int_of
run_bm25 = (refl, refl, refl)

-- A chunk that is withheld counts as foreign when the store returns it.
run_dense :
    (run (seal ∷ pump ∷ []) "dense" (("serial", "25") ∷ []) ≡ ok (as_hit 1 0 pump ∷ []))
    × (run (seal ∷ motor ∷ []) "dense" [] ≡ raise (foreign_chunks ("c" ∷ [])))
    × (run [] "vector" [] ≡ raise (unknown_mode "vector"))
unfolding search_package search_store mode_retriever from_document to_document partition sift
    verdict admissible_classifications normalise labels_to is_known strip assert_admissible
    leaked_chunks nth sort insert applies_to values_match split_commas split_tilde in_range int_of
run_dense = (refl, refl, refl)

hybrid_found : run (seal ∷ pump ∷ []) "hybrid" [] ≡ ok (as_hit 1 0 seal ∷ as_hit 2 0 pump ∷ [])
unfolding search_package search_store mode_retriever hybrid_retriever bm25_retriever from_document
    to_document partition sift verdict admissible_classifications normalise labels_to is_known strip
    assert_admissible leaked_chunks nth sort insert
hybrid_found = refl

search_package-IsServed_example :
    IsServed engine
      (answers (seal ∷ pump ∷ []))
      (ok corpus)
      5
      []
      at_two
      (as_hit 1 0 seal ∷ as_hit 2 0 pump ∷ [])
search_package-IsServed_example =
    search_package-IsServed engine (answers (seal ∷ pump ∷ [])) (ok corpus) "pump" 5 [] "hybrid"
      at_two (as_hit 1 0 seal ∷ as_hit 2 0 pump ∷ []) hybrid_found

abbrev three_routes : Retriever
three_routes =
    Retriever.reranked 7 (Arm.graph 20 corpus ∷ Arm.lexical 20 corpus ∷ Arm.dense 20 at_two ∷ [])

three_routes_built : mode_retriever "hybrid-graph-rerank" corpus 7 at_two ≡ ok three_routes
unfolding mode_retriever reranked_retriever graph_hybrid_retriever bm25_retriever
three_routes_built = refl

-- Without a chunk there is no lexical route, and a fusion is refused.
nothing_built : mode_retriever "hybrid" [] 7 at_two ≡ raise empty_corpus
unfolding mode_retriever hybrid_retriever bm25_retriever
nothing_built = refl

mode_retriever-IsScoped_example : All (IsScoped corpus 7 at_two) (arms three_routes)
mode_retriever-IsScoped_example =
    mode_retriever-IsScoped corpus 7 at_two "hybrid-graph-rerank" three_routes three_routes_built

fetched_two :
    relevant_documents engine corpus "PUMP" 2 ≡ ok (to_document motor ∷ to_document seal ∷ [])
unfolding relevant_documents with_scores fetch tokenize scan indexed_text nth sort insert
fetched_two = refl

relevant_documents-search_example :
    (hits : List (ScoredChunk ℕ)) × (search engine corpus "PUMP" 2 ≡ ok hits)
    × (relevant_documents engine corpus "PUMP" 2 ≡ ok (Guarded.documents hits))
relevant_documents-search_example =
    relevant_documents-search engine corpus "PUMP" 2 (omega arith) (omega arith) refl

-- ===== src/Clearance/Samples.antt =====
-- A small corpus, and what the gate of src/learnarken/clearance.py does on it.
use learn_arken.Prelude.{
  ◌≤◌, String, ◌≡◌, refl, false, Option, none, some, List, [], ◌∷◌, ok, arith, map, strip,
}
use learn_arken.Package.Chunk.{Chunk, to_document}
use learn_arken.Clearance.{
  Split, exclusion, unlabelled, exceeds, GraphFacts, partition, admissible_classifications,
  labels_to, is_known, normalise, verdict, sift, assert_admissible, assert_documents_admissible,
  redact_graph_facts,
}
use learn_arken.Clearance.Levels.{level}
use learn_arken.Clearance.Partition.{SplitsBy, cleared, partition-splits}
use learn_arken.Clearance.Leaks.{assert_admissible-partition}
use learn_arken.Clearance.Graph.{IsRedacted, Pairwise, redact_graph_facts-IsRedacted}

abbrev chunk : String → Option String → Chunk
chunk id classification = record {
  meta = record {
    chunk_id = id;
    strategy = "structure";
    dmc = "DMC-LA100";
    dm_title = "Pump";
    issue_info = "001-00";
    chunk_type = "step";
    source_path = "/dmodule";
    applicability = none;
    security_classification = classification;
    effective_date = none;
    expiry_date = none;
    has_warning = false;
    has_caution = false;
    outbound_dm_refs = [];
    icn_refs = [];
  };
  text = "Remove the pump.";
}

abbrev corpus : List Chunk
corpus =
    chunk "a" (some "01") ∷ chunk "b" (some " 03 ") ∷ chunk "c" none ∷ chunk "d" (some "02") ∷ []

abbrev at_two : Split
at_two = (
  chunk "a" (some "01") ∷ chunk "d" (some "02") ∷ [],
  exclusion (chunk "b" (some " 03 ")) (exceeds "03" "02")
      ∷ exclusion (chunk "c" none) unlabelled
      ∷ [],
)

abbrev at_one : Split
at_one = (
  chunk "a" (some "01") ∷ [],
  exclusion (chunk "b" (some " 03 ")) (exceeds "03" "01")
      ∷ exclusion (chunk "c" none) unlabelled
      ∷ exclusion (chunk "d" (some "02")) (exceeds "02" "01")
      ∷ [],
)

abbrev at_one_of_two : Split
at_one_of_two =
    (chunk "a" (some "01") ∷ [], exclusion (chunk "d" (some "02")) (exceeds "02" "01") ∷ [])

gate : Unit {0}
unfolding partition sift verdict normalise admissible_classifications labels_to is_known strip
    assert_admissible assert_documents_admissible to_document
gate = tt

runs_at_two : partition corpus (some "02") ≡ ok at_two
unfolding gate
runs_at_two = refl

runs_at_one : partition corpus (some "01") ≡ ok at_one
unfolding gate
runs_at_one = refl

runs_again : partition at_two.0 (some "01") ≡ ok at_one_of_two
unfolding gate
runs_again = refl

known_two : admissible_classifications "02" ≡ ok ("01" ∷ "02" ∷ [])
unfolding gate
known_two = refl

partition-splits_example : SplitsBy (cleared "02") corpus at_two
partition-splits_example = partition-splits corpus "02" at_two runs_at_two

narrower : level (strip "01") ≤ level (strip "02")
unfolding strip
narrower = omega arith

assert_admissible-partition_example :
    (assert_admissible at_two.0 (some "02") ≡ ok tt)
    × (assert_documents_admissible (map to_document at_two.0) (some "02") ≡ ok tt)
assert_admissible-partition_example =
    assert_admissible-partition corpus (some "02") at_two runs_at_two

abbrev fact : GraphFacts
fact = record {
  dmc = "M1";
  title = "Pump";
  outbound_refs = "M2" ∷ "M3" ∷ [];
  inbound_refs = "M3" ∷ [];
  icns = [];
  withheld_refs = 0;
}

redact_graph_facts-IsRedacted_example :
    Pairwise
      (IsRedacted ("M1" ∷ "M2" ∷ []))
      (fact ∷ [])
      (redact_graph_facts (fact ∷ []) ("M1" ∷ "M2" ∷ []) (some "01"))
redact_graph_facts-IsRedacted_example =
    redact_graph_facts-IsRedacted (fact ∷ []) ("M1" ∷ "M2" ∷ []) "01"

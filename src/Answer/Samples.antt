-- ===== src/Answer/Samples.antt =====
-- A question, the evidence for it, and a reply of the model that quotes the evidence.
use mathlib.Core.List.{Memᴰ}
use learn_arken.Prelude.{
  ℕ, String, ◌≡◌, ◌⊎◌, All-mem, if◌then◌else◌, refl, true, false, none, some, List, [], ◌∷◌, map,
  All, ltb, ok, raise, strip, lstrip, rstrip, is_space,
}
use learn_arken.Prelude.Dict
use learn_arken.Package.Chunk.{Metadata, Chunk, Document, to_document, from_document}
use learn_arken.Clearance.{
  partition, sift, verdict, verdict_of, is_known, normalise, labels_to, assert_documents_admissible,
  leaked_documents, redact_graph_facts, admissible_classifications,
}
use learn_arken.Answer.Models.{AnswerResult}
use learn_arken.Answer.Json.{
  leaf_text, item_dict, Value, value_bool, value_text, value_list, Reply, shape, citation_of,
  citations_of,
}
use learn_arken.Answer.Contract.{contract, Chat, ask, generate_well_shaped}
use learn_arken.Answer.Contract.Retry.{IsBounded, IsLast, ask-IsBounded}
use learn_arken.Answer.Engine.{
  Texts, by_id_of, index_onto, chunks_cited, citations_for, cite, collapse, contains, first_quotes,
  is_bad, is_boilerplate, joined, normalize, figure_ref, sorted_set, ungrounded_figure_tokens,
}
use learn_arken.Answer.Engine.Gates.{
  Services, judge, answer_question, answered, is_ungrounded, is_validated, from_ranked, generate,
}
use learn_arken.Answer.Engine.Sound.{IsSound, judge-IsSound}
use learn_arken.Answer.Engine.Cleared.{IsRefusal, IsAnswer, answer_question-IsAnswer}
use learn_arken.Answer.Status.{statuses_for}
use learn_arken.Package.Model.{DmlEntry, PackageModel, code_str}
use learn_arken.Answer.Status.Honest.{AreHonest, statuses_for-IsHonest}

abbrev meta_of : String → String → Metadata
meta_of chunk_id label = record {
  chunk_id = chunk_id;
  strategy = "structure";
  dmc = "DMC-ARK-A-29-00-00-00A-040A-A";
  dm_title = "Hydraulics";
  issue_info = "001-00";
  chunk_type = "step";
  source_path = "/dmodule/content";
  applicability = none;
  security_classification = some label;
  effective_date = none;
  expiry_date = none;
  has_warning = false;
  has_caution = false;
  outbound_dm_refs = [];
  icn_refs = [];
}

abbrev pressure : Chunk
pressure = record { meta = meta_of "c1" "01"; text = "Relieve the system pressure before work." }

abbrev secret : Chunk
secret = record { meta = meta_of "c2" "05"; text = "Keep this from most of the readers." }

-- Text functions for texts that are in lower case and name no figure.
abbrev plain : Texts
plain = record {
  casefold = λ s. s;
  lower = λ s. s;
  words = λ s. [];
  parts = λ s. [];
  measures = λ s. [];
  hotspots = λ s. [];
}

abbrev quoting : Reply
quoting = record {
  is_answerable = true;
  answer = "Relieve the pressure.";
  citations = record { chunk_id = "c1"; supporting_quote = "Relieve the system pressure" } ∷ [];
}

judge-IsSound_example :
    IsSound plain
      (pressure ∷ secret ∷ [])
      (judge plain [] "What comes first?" (pressure ∷ secret ∷ []) [] (some (quoting, "M3")))
judge-IsSound_example =
    judge-IsSound plain [] "What comes first?" (pressure ∷ secret ∷ []) [] (some (quoting, "M3"))

abbrev parsed : Dict.Dict Value
parsed =
    ("is_answerable", value_bool true)
    ∷ ("answer", value_text "Relieve the pressure.")
    ∷ (
      "citations",
      value_list (
          item_dict (
            ("chunk_id", leaf_text "c1")
            ∷ ("supporting_quote", leaf_text "Relieve the system pressure")
            ∷ [])
          ∷ []),
    )
    ∷ []

-- The first generation breaks the contract.
abbrev second_time : Chat
second_time n =
    if ltb n 1 then raise (contract true) else ok (record { parsed = parsed; model = "M3" })

ask-IsBounded_example :
    IsBounded second_time (some true) (ask second_time (some true))
    × IsLast second_time (ask second_time (some true))
ask-IsBounded_example = ask-IsBounded second_time (some true)

abbrev services : Services ℕ
services = record {
  verify_corpus = λ cs. ok tt;
  candidates = λ cs clearance. ok (map to_document cs);
  rerank = λ docs. map (λ d. (d, 7)) docs;
  below_threshold = λ s. ltb s 5;
  graph_facts = λ ds. ok [];
  chat = λ evidence facts. second_time;
  may_retry = none;
  texts = plain;
  stopwords = [];
}

services-keeps : (docs : List Document) → All (λ ds. Memᴰ ds.0 docs) (services.rerank docs)
services-keeps docs = all_of docs docs (All-mem docs)
  where
    all_of :
        (whole ds : List Document)
        → All (λ d. Memᴰ d whole) ds
        → All (λ (x : Document × ℕ). Memᴰ x.0 whole) (map (λ d. (d, 7)) ds)
    all_of whole [] h = tt
    all_of whole (d ∷ ds) h = (h.0, all_of whole ds h.1)

abbrev expected : AnswerResult
expected = record {
  question = "What comes first?";
  answer_text = "Relieve the pressure.";
  refused = false;
  refusal_gate = none;
  citations =
      record {
        chunk_id = "c1";
        dmc = "DMC-ARK-A-29-00-00-00A-040A-A";
        source_path = "/dmodule/content";
        supporting_quote = "Relieve the system pressure";
        figure_ref = none;
      }
      ∷ [];
  graph_facts = [];
  model = some "M3";
}

answers :
    answer_question services "What comes first?" true (pressure ∷ secret ∷ []) (some "02")
    ≡ ok expected
unfolding answer_question partition normalise is_known strip lstrip rstrip is_space sift verdict
    verdict_of labels_to assert_documents_admissible leaked_documents admissible_classifications
    to_document from_document from_ranked generate ask generate_well_shaped shape Dict.get Dict.put
    citations_of citation_of judge answered is_ungrounded is_validated by_id_of index_onto
    chunks_cited citations_for cite collapse contains first_quotes is_bad is_boilerplate joined
    normalize figure_ref sorted_set ungrounded_figure_tokens redact_graph_facts
answers = refl

answer_question-IsAnswer_example :
    IsRefusal expected
    ⊎ IsAnswer services "What comes first?" "02" services-keeps (pressure ∷ secret ∷ []) expected
answer_question-IsAnswer_example =
    answer_question-IsAnswer services "What comes first?" "02" services-keeps true
      (pressure ∷ secret ∷ []) expected answers

abbrev entry : DmlEntry
entry = record {
  dm_code = record {
    model_ident_code = "LA100";
    system_diff_code = "A";
    system_code = "29";
    sub_system_code = "0";
    sub_sub_system_code = "0";
    assy_code = "00";
    disassy_code = "00";
    disassy_code_variant = "A";
    info_code = "040";
    info_code_variant = "A";
    item_location_code = "A";
  };
  issue_info = some (record { issue_number = "001"; in_work = "00" });
  line = none;
}

-- A list that registers one module.
abbrev registered : PackageModel
registered = record {
  path = "samples/package-a";
  data_modules = [];
  publication_modules = [];
  dmls = record { file = "DML.xml"; issue_info = none; entries = entry ∷ [] } ∷ [];
  icn_idents = [];
}

abbrev both_issues : List (String × String)
both_issues = (code_str entry.dm_code, "001-00") ∷ (code_str entry.dm_code, "002-00") ∷ []

statuses_for-IsHonest_example :
    AreHonest (ok (registered ∷ [])) both_issues (statuses_for both_issues (ok (registered ∷ [])))
statuses_for-IsHonest_example = statuses_for-IsHonest both_issues (ok (registered ∷ []))

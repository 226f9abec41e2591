-- ===== src/Answer/Models.antt =====
-- src/learnarken/answer/models.py, with the failures that pass through the engine. The trace id, the
-- token usage and the routed action of a refusal are left out.
use learn_arken.Prelude.{String, Bool, true, Option, none, some, List, []}
use learn_arken.Clearance.{ClearanceError, GraphFacts}

pub data Gate : Type 0 where
  threshold llm llm_contract citation_validation figure_out_of_description : Gate

pub record Citation : Type 0 where
  pub chunk_id : String
  pub dmc : String
  pub source_path : String
  pub supporting_quote : String
  pub figure_ref : Option String

pub record AnswerResult : Type 0 where
  pub question : String
  pub answer_text : String
  pub refused : Bool
  pub refusal_gate : Option Gate
  pub citations : List Citation
  pub graph_facts : List GraphFacts
  pub model : Option String

-- The exceptions that the engine lets pass.
pub data Failure : Type 0 where
  clearance_error : ClearanceError → Failure
  stale_index retrieval_error graph_error llm_error : String → Failure

abbrev pub placeholder : String
placeholder = "I don't know — no answer was found in the indexed corpus."

-- What the inner function `refuse` returns.
unfoldable pub refuse : String → Gate → AnswerResult
refuse question gate = record {
  question = question;
  answer_text = placeholder;
  refused = true;
  refusal_gate = some gate;
  citations = [];
  graph_facts = [];
  model = none;
}

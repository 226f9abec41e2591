-- ===== src/Answer/Engine/Gates.antt =====
-- `answer_question` of src/learnarken/answer/engine.py, from the corpus to the answer or the refusal.
use learn_arken.Prelude.{
  String, Bool, true, false, not, ◌&&◌, Option, none, some, List, [], ◌∷◌, map, filter, all, str_eq,
  strip, if◌then◌else◌, Result, ok, raise, ◌>>=◌, ◌>>◌,
}
use learn_arken.Prelude.Dict.{Dict}
use learn_arken.Package.Chunk.{Chunk, Document, from_document}
use learn_arken.Clearance.{
  Checked, GraphFacts, Split, partition, assert_documents_admissible, redact_graph_facts,
}
use learn_arken.Answer.Models.{
  Gate, threshold, llm, llm_contract, citation_validation, figure_out_of_description, AnswerResult,
  Failure, clearance_error, refuse,
}
use learn_arken.Answer.Json.{Reply}
use learn_arken.Answer.Contract.{Chat, Shaped, Asked, ask}
use learn_arken.Answer.Engine.{
  Texts, Stopwords, ungrounded_figure_tokens, is_figure, by_id_of, is_bad, first_quotes,
  chunks_cited, citations_for, joined,
}

-- What the engine calls: the retriever, the reranker with its scores, the graph and the model.
pub record Services (Score : Type 0) : Type 0 where
  pub verify_corpus : List Chunk → Result Failure (Unit {0})
  pub candidates : List Chunk → Option String → Result Failure (List Document)
  pub rerank : List Document → List (Document × Score)
  pub below_threshold : Score → Bool
  pub graph_facts : List String → Result Failure (List GraphFacts)
  pub chat : List Chunk → List GraphFacts → Chat
  pub may_retry : Option Bool
  pub texts : Texts
  pub stopwords : Stopwords

-- The gate of a reply without an answer, or with one that is not validated.
abbrev pub top_gate : Gate → List Chunk → Gate
top_gate gate [] = gate
top_gate gate (c ∷ cs) = if is_figure c then figure_out_of_description else gate

abbrev pub is_nil {ℓ} : {A : Type ℓ} → List A → Bool
is_nil [] = true
is_nil (x ∷ xs) = false

-- Every test on the citations and on the text of the answer passes.
unfoldable pub is_validated : Texts → List Chunk → Reply → Bool
is_validated t evidence r =
    is_nil (filter (is_bad t (by_id_of evidence)) r.citations)
    && not (is_nil r.citations)
    && not (str_eq (strip r.answer) "")

abbrev pub seen_of : Reply → Dict String
seen_of r = first_quotes r.citations []

unfoldable pub is_ungrounded : Texts → Stopwords → String → List Chunk → Reply → Bool
is_ungrounded t stopwords question evidence r =
    let cited = chunks_cited (by_id_of evidence) (seen_of r) in
    not (is_nil cited)
    && all is_figure cited
    && not (is_nil (ungrounded_figure_tokens t stopwords r.answer (joined cited) question))

unfoldable pub answered : Texts → String → List Chunk → List GraphFacts → Shaped → AnswerResult
answered t question evidence facts (r, model) = record {
  question = question;
  answer_text = strip r.answer;
  refused = false;
  refusal_gate = none;
  citations = citations_for t (by_id_of evidence) (seen_of r);
  graph_facts = facts;
  model = some model;
}

-- The gates after the generation.
unfoldable pub judge :
    Texts → Stopwords → String → List Chunk → List GraphFacts → Option Shaped → AnswerResult
judge t stopwords question evidence facts none = refuse question llm_contract
judge t stopwords question evidence facts (some (r, model)) =
    if not r.is_answerable
    then refuse question (top_gate llm evidence)
    else if not (is_validated t evidence r)
    then refuse question (top_gate citation_validation evidence)
    else if is_ungrounded t stopwords question evidence r
    then refuse question figure_out_of_description
    else answered t question evidence facts (r, model)

abbrev pub lift : {A : Type 0} → Checked A → Result Failure A
lift (ok a) = ok a
lift (raise e) = raise (clearance_error e)

module _ {Score : Type 0} (svc : Services Score) (question : String) where
  abbrev pub top_below : List (Document × Score) → Bool
  top_below [] = true
  top_below ((d, score) ∷ rest) = svc.below_threshold score

  abbrev pub evidence_of : List (Document × Score) → List Chunk
  evidence_of ranked = map (λ (d : Document × Score). from_document d.0) ranked

  unfoldable pub generate :
      List Chunk
      → Option String
      → List (Document × Score)
      → List GraphFacts
      → Result Failure AnswerResult
  generate admitted clearance ranked found =
      let evidence = evidence_of ranked in
      let facts = redact_graph_facts found (map (λ (c : Chunk). c.dmc) admitted) clearance in
      let asked : Asked = ask (svc.chat evidence facts) svc.may_retry in
      asked.1 >>= λ shaped. ok (judge svc.texts svc.stopwords question evidence facts shaped)

  unfoldable pub from_ranked :
      List Chunk → Option String → List (Document × Score) → Result Failure AnswerResult
  from_ranked admitted clearance ranked =
      let go_on = svc.graph_facts (map (λ (c : Chunk). c.dmc) (evidence_of ranked)) >>= λ found.
      generate admitted clearance ranked found in
      if top_below ranked then ok (refuse question threshold) else go_on

  unfoldable pub answer_question :
      (is_bm25 : Bool) → List Chunk → Option String → Result Failure AnswerResult
  answer_question is_bm25 chunks clearance =
      (if is_bm25 then ok tt else svc.verify_corpus chunks)
      >> (lift (partition chunks clearance) >>= λ (s : Split).
          svc.candidates s.0 clearance >>= λ docs.
          lift (assert_documents_admissible docs clearance)
          >> from_ranked s.0 clearance (svc.rerank docs))

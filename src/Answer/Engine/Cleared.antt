-- ===== src/Answer/Engine/Cleared.antt =====
-- An answer of src/learnarken/answer/engine.py cites only what the caller is cleared to see.
use mathlib.Core.List.{Memᴰ}
use learn_arken.Prelude.{
  String, ◌≡◌, ◌≢◌, ◌⊎◌, inl, inr, refl, sym, ap, ◌∙◌, subst, Bool, true, false, Option, some, List,
  [], ◌∷◌, map, elem, All, All-map, All-lookup, Result, ok, raise, ◌>>=◌, ◌>>◌, >>=-eq-ok,
  ok-injective, if◌then◌else◌, ltb, Bool-cases,
}
use learn_arken.Package.Chunk.{Chunk, Document, from_document}
use learn_arken.Clearance.{
  Checked, Split, GraphFacts, admissible_classifications, partition, assert_documents_admissible,
  leaked_documents, refuse_leaked, document_label, label, redact_graph_facts,
}
use learn_arken.Answer.Models.{threshold, Citation, AnswerResult, Failure, placeholder}
use learn_arken.Answer.Contract.{Shaped, Asked, ask}
use Prim.Native.String.{count}
use learn_arken.Clearance.Levels.{elem-admissible_classifications}
use learn_arken.Clearance.Partition.{cleared}
use learn_arken.Answer.Engine.{ltb, Texts, normalize, contains, min_quote_chars}
use learn_arken.Answer.Engine.Gates.{
  Services, lift, top_below, evidence_of, generate, from_ranked, judge, answer_question,
}
use learn_arken.Answer.Engine.Cited.{IsCited}
use learn_arken.Answer.Engine.Sound.{IsSound, refuse-IsSound, judge-IsSound}

no_leak :
    (allowed : List String) (clearance : String) (docs : List Document)
    → refuse_leaked clearance (leaked_documents allowed docs) ≡ ok tt
    → All (λ d. elem (document_label d) allowed ≡ true) docs
unfolding leaked_documents
no_leak allowed clearance [] h = tt
no_leak allowed clearance (d ∷ docs) h = elim (Bool-cases (elem (document_label d) allowed)) [
  | inl y ↦ (y, no_leak allowed clearance docs (rw y at h))
  | inr n ↦ cc (rw n at h)
]

label-from_document : (d : Document) → label (from_document d) ≡ document_label d
unfolding from_document
label-from_document d = refl

-- The documents of a result set that passes the check under a clearance.
passed-cleared :
    (docs : List Document) (clearance : String)
    → assert_documents_admissible docs (some clearance) ≡ ok tt
    → All (λ d. cleared clearance (from_document d) ≡ true) docs
unfolding assert_documents_admissible
passed-cleared docs clearance h =
    let (allowed, e, k) =
      >>=-eq-ok (admissible_classifications clearance)
        (λ allowed. refuse_leaked clearance (leaked_documents allowed docs)) h in
    All-map (λ d. elem (document_label d) allowed ≡ true)
      (λ d. cleared clearance (from_document d) ≡ true)
      (λ d y.
        sym (elem-admissible_classifications clearance (label (from_document d)) allowed e)
        ∙ ap (λ l. elem l allowed) (label-from_document d)
        ∙ y)
      docs (no_leak allowed clearance docs k)

-- A piece of evidence: made from a document of the retriever, and cleared for the caller.
abbrev pub IsEvidence : List Document → String → Chunk → Type 0
IsEvidence docs clearance chunk =
    (d : Document) × Memᴰ d docs × (from_document d ≡ chunk) × (cleared clearance chunk ≡ true)

abbrev pub IsClearedCitation : Texts → List Document → String → Citation → Type 0
IsClearedCitation t docs clearance c =
    (chunk : Chunk) × IsEvidence docs clearance chunk
    × (chunk.chunk_id ≡ c.chunk_id)
    × (c.dmc ≡ chunk.dmc)
    × (c.source_path ≡ chunk.source_path)
    × (ltb (count (normalize t c.supporting_quote)) min_quote_chars ≡ false)
    × (contains (normalize t c.supporting_quote) (normalize t chunk.text) ≡ true)

abbrev pub IsRefusal : AnswerResult → Type 0
IsRefusal res = (res.refused ≡ true) × (res.citations ≡ []) × (res.answer_text ≡ placeholder)

module _ {Score : Type 0} (svc : Services Score) (question : String) (clearance : String)
    (keeps : (docs : List Document) → All (λ ds. Memᴰ ds.0 docs) (svc.rerank docs)) where
  -- An answer to the caller of this clearance, from a corpus.
  abbrev pub IsAnswer : List Chunk → AnswerResult → Type 0
  IsAnswer chunks res =
      (s : Split) × (docs : List Document) × (partition chunks (some clearance) ≡ ok s)
      × (svc.candidates s.0 (some clearance) ≡ ok docs)
      × (res.refused ≡ false)
      × (res.answer_text ≢ "")
      × (res.citations ≢ [])
      × All (IsClearedCitation svc.texts docs clearance) res.citations

  ranked-IsEvidence :
      (docs : List Document) (ranked : List (Document × Score))
      → All (λ d. cleared clearance (from_document d) ≡ true) docs
      → All (λ (ds : Document × Score). Memᴰ ds.0 docs) ranked
      → All (IsEvidence docs clearance) (evidence_of svc question ranked)
  ranked-IsEvidence docs [] c m = tt
  ranked-IsEvidence docs ((d, score) ∷ ranked) c m = (
    (d, m.0, refl, All-lookup (λ d. cleared clearance (from_document d) ≡ true) docs c m.0),
    ranked-IsEvidence docs ranked c m.1,
  )

  cleared-IsSound :
      (docs : List Document) (evidence : List Chunk) (res : AnswerResult)
      → All (IsEvidence docs clearance) evidence
      → IsSound svc.texts evidence res
      → IsRefusal res
        ⊎ ((res.refused ≡ false)
            × (res.answer_text ≢ "")
            × (res.citations ≢ [])
            × All (IsClearedCitation svc.texts docs clearance) res.citations)
  cleared-IsSound docs evidence res e (inl r) = inl r
  cleared-IsSound docs evidence res e (inr (r, text, some_citation, cited)) = inr (
    r,
    text,
    some_citation,
    All-map (IsCited svc.texts evidence) (IsClearedCitation svc.texts docs clearance)
        (λ c i.
          (i.0, All-lookup (IsEvidence docs clearance) evidence e i.1, i.2, i.3, i.4, i.5, i.6))
        res.citations cited,
  )

  from_ranked-IsSound :
      (admitted : List Chunk) (ranked : List (Document × Score)) (res : AnswerResult)
      → from_ranked svc question admitted (some clearance) ranked ≡ ok res
      → IsSound svc.texts (evidence_of svc question ranked) res
  unfolding from_ranked generate
  from_ranked-IsSound admitted ranked res h = elim (Bool-cases (top_below svc question ranked)) [
    | inl y ↦
        subst (IsSound svc.texts evidence) (ok-injective {E = Failure} (rw y at h))
          (refuse-IsSound svc.texts evidence question threshold)
    | inr n ↦
        let (found, _, h1) =
          >>=-eq-ok (svc.graph_facts (map (λ (c : Chunk). c.dmc) evidence)) judged (rw n at h) in
        let (reply, _, h2) = >>=-eq-ok (asked found).1 (λ reply. ok (verdict found reply)) h1 in
        subst (IsSound svc.texts evidence) (ok-injective h2)
          (judge-IsSound svc.texts svc.stopwords question evidence (facts found) reply)
  ]
    where
      evidence : List Chunk
      evidence = evidence_of svc question ranked

      facts : List GraphFacts → List GraphFacts
      facts found = redact_graph_facts found (map (λ (c : Chunk). c.dmc) admitted) (some clearance)

      asked : List GraphFacts → Asked
      asked found = ask (svc.chat evidence (facts found)) svc.may_retry

      verdict : List GraphFacts → Option Shaped → AnswerResult
      verdict found reply = judge svc.texts svc.stopwords question evidence (facts found) reply

      judged : List GraphFacts → Result Failure AnswerResult
      judged found = (asked found).1 >>= λ reply. ok (verdict found reply)

  lift-eq-ok :
      {A : Type 0} (m : Checked A) (a : A) → ◌≡◌ {A = Result Failure A} (lift m) (ok a) → m ≡ ok a
  lift-eq-ok (ok b) a h = ap (λ x. ok x) (ok-injective h)
  lift-eq-ok (raise e) a h = cc

  -- Under a clearance, and with a reranker that returns documents it was given: if the engine returns,
  -- it has refused, without a citation and without the model's text, or it has answered with text and at
  -- least one citation, and each citation quotes, with at least 12 characters, a document that the
  -- retriever returned for the admitted corpus and that the caller is cleared to see, with that
  -- document's module and place.
  pub answer_question-IsAnswer :
      (is_bm25 : Bool) (chunks : List Chunk) (res : AnswerResult)
      → answer_question svc question is_bm25 chunks (some clearance) ≡ ok res
      → IsRefusal res ⊎ IsAnswer chunks res
  unfolding answer_question
  answer_question-IsAnswer is_bm25 chunks res h =
      let (_, _, h1) =
        >>=-eq-ok (if is_bm25 then ok tt else svc.verify_corpus chunks) (λ _. after_verify) h in
      let (s, e2, h2) = >>=-eq-ok (lift (partition chunks (some clearance))) after_partition h1 in
      let (docs, e3, h3) =
        >>=-eq-ok (svc.candidates s.0 (some clearance)) (after_candidates s) h2 in
      let (_, e4, h4) =
        >>=-eq-ok (lift (assert_documents_admissible docs (some clearance)))
          (λ _. from_ranked svc question s.0 (some clearance) (svc.rerank docs)) h3 in
      let sound = from_ranked-IsSound s.0 (svc.rerank docs) res h4 in
      let evidence =
        ranked-IsEvidence docs (svc.rerank docs)
          (passed-cleared docs clearance
            (lift-eq-ok (assert_documents_admissible docs (some clearance)) tt e4))
          (keeps docs) in
      elim (cleared-IsSound docs (evidence_of svc question (svc.rerank docs)) res evidence sound) [
        | inl refused ↦ inl refused
        | inr answer ↦ inr (
          s,
          docs,
          lift-eq-ok (partition chunks (some clearance)) s e2,
          e3,
          answer.0,
          answer.1,
          answer.2,
          answer.3,
        )
      ]
    where
      after_candidates : Split → List Document → Result Failure AnswerResult
      after_candidates s docs =
          lift (assert_documents_admissible docs (some clearance))
          >> from_ranked svc question s.0 (some clearance) (svc.rerank docs)

      after_partition : Split → Result Failure AnswerResult
      after_partition s = svc.candidates s.0 (some clearance) >>= after_candidates s

      after_verify : Result Failure AnswerResult
      after_verify = lift (partition chunks (some clearance)) >>= after_partition

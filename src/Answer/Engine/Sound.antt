-- ===== src/Answer/Engine/Sound.antt =====
-- The gates of src/learnarken/answer/engine.py are sound: a refusal, or an answer with its evidence.
use learn_arken.Prelude.{
  String, ◌≡◌, ◌≢◌, ◌⊎◌, inl, inr, refl, sym, ap, subst, Bool, true, false, not, ◌&&◌, Option, none,
  some, List, [], ◌∷◌, filter, All, All-map, All-filter_inv, str_eq, eq_iff, strip, Bool-cases,
  if◌then◌else◌,
}
use learn_arken.Prelude.Dict
use learn_arken.Prelude.Dict.{Dict}
use learn_arken.Package.Chunk.{Chunk}
use learn_arken.Clearance.{GraphFacts}
use learn_arken.Answer.Models.{
  Gate, llm, llm_contract, citation_validation, figure_out_of_description, AnswerResult, refuse,
  placeholder,
}
use learn_arken.Answer.Json.{RawCitation, Reply}
use learn_arken.Answer.Contract.{Shaped}
use learn_arken.Answer.Engine.{Texts, Stopwords, by_id_of, is_bad, set_default, first_quotes}
use learn_arken.Answer.Engine.Gates.{is_nil, is_validated, is_ungrounded, answered, judge, top_gate}
use learn_arken.Answer.Engine.Cited.{
  IsCited, first_quotes-IsGood, citations_for-IsCited, citations_for-ne-nil,
}

put-ne-nil : {V : Type 0} (k : String) (v : V) (seen : Dict V) → Dict.put k v seen ≢ []
unfolding Dict.put
put-ne-nil k v [] e = cc
put-ne-nil k v ((j, w) ∷ seen) e = elim (Bool-cases (str_eq j k)) [
  | inl y ↦ cc (rw y at e)
  | inr n ↦ cc (rw n at e)
]

set_default-ne-nil :
    (k v : String) (o : Option String) (seen : Dict String)
    → seen ≢ []
    → set_default k v o seen ≢ []
set_default-ne-nil k v none seen h = put-ne-nil k v seen
set_default-ne-nil k v (some w) seen h = h

first_quotes-ne-nil_onto :
    (cs : List RawCitation) (seen : Dict String) → seen ≢ [] → first_quotes cs seen ≢ []
unfolding first_quotes
first_quotes-ne-nil_onto [] seen h = h
first_quotes-ne-nil_onto (c ∷ cs) seen h =
    first_quotes-ne-nil_onto cs
      (set_default c.chunk_id c.supporting_quote (Dict.get c.chunk_id seen) seen)
      (set_default-ne-nil c.chunk_id c.supporting_quote (Dict.get c.chunk_id seen) seen h)

first_quotes-ne-nil : (cs : List RawCitation) → cs ≢ [] → first_quotes cs [] ≢ []
unfolding first_quotes Dict.get
first_quotes-ne-nil [] h = absurd (h refl)
first_quotes-ne-nil (c ∷ cs) h =
    first_quotes-ne-nil_onto cs (Dict.put c.chunk_id c.supporting_quote [])
      (put-ne-nil c.chunk_id c.supporting_quote [])

not-not : (b : Bool) → (b ≡ true → ⊥) → b ≡ false
not-not true f = absurd (f refl)
not-not false f = refl

is_nil→nil : {A : Type 0} (xs : List A) → is_nil xs ≡ true → xs ≡ []
is_nil→nil [] h = refl
is_nil→nil (x ∷ xs) h = cc

-- What is true of a reply that is validated.
pub is_validated-eq :
    (t : Texts) (evidence : List Chunk) (r : Reply)
    → is_validated t evidence r ≡ true
    → All (λ c. is_bad t (by_id_of evidence) c ≡ false) r.citations
      × (r.citations ≢ [])
      × (strip r.answer ≢ "")
unfolding is_validated
is_validated-eq t evidence r h =
    let bad = filter (is_bad t (by_id_of evidence)) r.citations in
    let (a, b, c) = three (is_nil bad) (is_nil r.citations) (str_eq (strip r.answer) "") h in
    (
      All-map (λ c. is_bad t (by_id_of evidence) c ≡ true → ⊥)
          (λ c. is_bad t (by_id_of evidence) c ≡ false)
          (λ c f. not-not (is_bad t (by_id_of evidence) c) f) r.citations
          (All-filter_inv (λ c. ⊥) (is_bad t (by_id_of evidence)) r.citations
            (subst (All (λ c. ⊥)) (sym (is_nil→nil bad a)) tt)),
      (λ e. cc (ap is_nil e, b)),
      (λ e. cc (c, (eq_iff (strip r.answer) "").1 e)),
    )
  where
    three : (a b c : Bool) → (a && not b && not c) ≡ true → (a ≡ true) × (b ≡ false) × (c ≡ false)
    three true false false e = (refl, refl, refl)
    three true false true e = cc
    three true true c e = cc
    three false b c e = cc

-- A refusal carries no citation and no text of the model; an answer has text and citations, each of
-- them of the evidence.
abbrev pub IsSound : Texts → List Chunk → AnswerResult → Type 0
IsSound t evidence res =
    ((res.refused ≡ true) × (res.citations ≡ []) × (res.answer_text ≡ placeholder))
    ⊎ ((res.refused ≡ false)
        × (res.answer_text ≢ "")
        × (res.citations ≢ [])
        × All (IsCited t evidence) res.citations)

pub refuse-IsSound :
    (t : Texts) (evidence : List Chunk) (question : String) (gate : Gate)
    → IsSound t evidence (refuse question gate)
unfolding refuse
refuse-IsSound t evidence question gate = inl (refl, refl, refl)

answered-IsSound :
    (t : Texts) (question : String) (evidence : List Chunk) (facts : List GraphFacts) (s : Shaped)
    → is_validated t evidence s.0 ≡ true
    → IsSound t evidence (answered t question evidence facts s)
unfolding answered
answered-IsSound t question evidence facts (r, model) h =
    let (good, some_citation, some_text) = is_validated-eq t evidence r h in
    let seen = first_quotes-IsGood t evidence r.citations [] good tt in
    inr (
      refl,
      some_text,
      citations_for-ne-nil t evidence (first_quotes r.citations []) seen
          (first_quotes-ne-nil r.citations some_citation),
      citations_for-IsCited t evidence (first_quotes r.citations []) seen,
    )

-- Whatever the model replies, the gates either refuse, without a citation and without the model's text,
-- or give an answer with text and at least one citation, and each citation names a chunk of the
-- evidence, carries that chunk's module and place, and quotes it with at least 12 characters.
pub judge-IsSound :
    (t : Texts) (stopwords : Stopwords) (question : String) (evidence : List Chunk)
    (facts : List GraphFacts) (reply : Option Shaped)
    → IsSound t evidence (judge t stopwords question evidence facts reply)
unfolding judge
judge-IsSound t stopwords question evidence facts none =
    refuse-IsSound t evidence question llm_contract
judge-IsSound t stopwords question evidence facts (some (r, model)) =
    chosen r.is_answerable (is_validated t evidence r)
      (is_ungrounded t stopwords question evidence r) refl
  where
    chosen :
        (a v u : Bool)
        → is_validated t evidence r ≡ v
        → IsSound t evidence (
            if not a
            then refuse question (top_gate llm evidence)
            else if not v
            then refuse question (top_gate citation_validation evidence)
            else if u
            then refuse question figure_out_of_description
            else answered t question evidence facts (r, model))
    chosen false v u h = refuse-IsSound t evidence question (top_gate llm evidence)
    chosen true false u h =
        refuse-IsSound t evidence question (top_gate citation_validation evidence)
    chosen true true true h = refuse-IsSound t evidence question figure_out_of_description
    chosen true true false h = answered-IsSound t question evidence facts (r, model) h

-- ===== src/Clearance.antt =====
-- src/learnarken/clearance.py: authorisation before reasoning. An f-string is a value of `Detail`
-- with what it interpolates; a Python set is the list it is built from, read by membership.
pub mod Levels
pub mod Partition
pub mod Leaks
pub mod Graph
mod Samples
use learn_arken.Prelude.{
  ℕ, ◌+◌, ◌-◌, String, ◌≡◌, Bool, true, false, not, Option, none, some, List, [], ◌∷◌, map, length,
  filter, ltb, elem, str_eq, str_le, strip, or_empty, if◌then◌else◌, is_none, Result, ok, raise,
  ◌>>=◌,
}
use learn_arken.Package.Chunk.{Chunk, Document}

abbrev pub classifications : List String
classifications = "01" ∷ "02" ∷ "03" ∷ "04" ∷ "05" ∷ []

pub data Detail : Type 0 where
  unlabelled : Detail
  unknown_label : String → Detail
  exceeds : (raw ceiling : String) → Detail

pub record Exclusion : Type 0 where
  pub chunk_id : String
  pub dmc : String
  pub reason : String
  pub detail : Detail

-- `ClearanceError`, by the text that it is raised with
pub data ClearanceError : Type 0 where
  unknown_clearance : String → ClearanceError
  mixed : List String → ClearanceError
  leaked : (clearance : String) → List String → ClearanceError

abbrev pub Checked {ℓ} : Type ℓ → Type ℓ
Checked A = Result ClearanceError A

unfoldable pub is_known : String → Bool
is_known value = elem value classifications

unfoldable pub normalise : String → Checked String
normalise clearance =
    let value = strip clearance in
    if is_known value then ok value else raise (unknown_clearance clearance)

-- `[c for c in CLASSIFICATIONS if c <= ceiling]`
unfoldable pub labels_to : String → List String
labels_to ceiling = filter (λ c. str_le c ceiling) classifications

unfoldable pub admissible_classifications : String → Checked (List String)
admissible_classifications clearance = do ceiling ← normalise clearance; ok (labels_to ceiling)

-- `max(allowed)`
abbrev max_str : List String → String
max_str [] = ""
max_str (s ∷ []) = s
max_str (s ∷ t ∷ r) = let m = max_str (t ∷ r) in if str_le s m then m else s

unfoldable pub verdict_of : String → List String → Option Detail
verdict_of raw allowed =
    if str_eq raw ""
    then some unlabelled
    else if not (is_known raw)
    then some (unknown_label raw)
    else if not (elem raw allowed)
    then some (exceeds raw (max_str allowed))
    else none

abbrev pub label : Chunk → String
label chunk = strip (or_empty chunk.security_classification)

unfoldable pub verdict : Chunk → List String → Option Detail
unfolding verdict_of
verdict chunk allowed = verdict_of (label chunk) allowed

abbrev pub exclusion : Chunk → Detail → Exclusion
exclusion chunk reason = record {
  chunk_id = chunk.chunk_id;
  dmc = chunk.dmc;
  reason = "authorisation";
  detail = reason;
}

abbrev pub Split : Type 0
Split = List Chunk × List Exclusion

abbrev pub place : Chunk → Option Detail → Split → Split
place chunk none (admitted, withheld) = (chunk ∷ admitted, withheld)
place chunk (some reason) (admitted, withheld) = (admitted, exclusion chunk reason ∷ withheld)

-- The loop of `partition`.
unfoldable pub sift : List String → List Chunk → Split
sift allowed [] = ([], [])
sift allowed (chunk ∷ rest) = place chunk (verdict chunk allowed) (sift allowed rest)

unfoldable pub partition : List Chunk → Option String → Checked Split
unfolding sift admissible_classifications
partition chunks none = ok (chunks, [])
partition chunks (some clearance) = do
  allowed ← admissible_classifications clearance
  ok (sift allowed chunks)

abbrev pub insert_new : String → List String → List String
insert_new s xs = if elem s xs then xs else s ∷ xs

-- The distinct labels of a corpus.
unfoldable pub levels : List Chunk → List String
levels [] = []
levels (c ∷ rest) = insert_new (label c) (levels rest)

unfoldable pub assert_uniform_or_scoped : List Chunk → Option String → Checked (Unit {0})
unfolding levels
assert_uniform_or_scoped chunks (some clearance) = ok tt
assert_uniform_or_scoped chunks none =
    if ltb 1 (length (levels chunks)) then raise (mixed (levels chunks)) else ok tt

pub record GraphFacts : Type 0 where
  pub dmc : String
  pub title : String
  pub outbound_refs : List String
  pub inbound_refs : List String
  pub icns : List String
  pub withheld_refs : ℕ

unfoldable pub redact : List String → GraphFacts → GraphFacts
redact admitted_dmcs fact =
    let kept_out = filter (λ d. elem d admitted_dmcs) fact.outbound_refs in
    let kept_in = filter (λ d. elem d admitted_dmcs) fact.inbound_refs in
    record fact {
      outbound_refs = kept_out;
      inbound_refs = kept_in;
      withheld_refs =
          (length fact.outbound_refs - length kept_out)
          + (length fact.inbound_refs - length kept_in);
    }

unfoldable pub redact_graph_facts : List GraphFacts → List String → Option String → List GraphFacts
unfolding redact
redact_graph_facts facts admitted_dmcs none = facts
redact_graph_facts facts admitted_dmcs (some clearance) = map (redact admitted_dmcs) facts

abbrev pub refuse_leaked : String → List String → Checked (Unit {0})
refuse_leaked clearance [] = ok tt
refuse_leaked clearance (c ∷ r) = raise (leaked clearance (c ∷ r))

abbrev pub document_label : Document → String
document_label d = strip (or_empty d.metadata.security_classification)

unfoldable pub leaked_documents : List String → List Document → List String
leaked_documents allowed docs =
    map (λ (d : Document). d.metadata.chunk_id)
      (filter (λ d. not (elem (document_label d) allowed)) docs)

unfoldable pub assert_documents_admissible : List Document → Option String → Checked (Unit {0})
unfolding leaked_documents admissible_classifications
assert_documents_admissible documents none = ok tt
assert_documents_admissible documents (some clearance) = do
  allowed ← admissible_classifications clearance
  refuse_leaked clearance (leaked_documents allowed documents)

unfoldable pub leaked_chunks : List String → List Chunk → List String
leaked_chunks allowed chunks =
    map (λ (c : Chunk). c.chunk_id) (filter (λ c. not (is_none (verdict c allowed))) chunks)

unfoldable pub assert_admissible : List Chunk → Option String → Checked (Unit {0})
unfolding leaked_chunks admissible_classifications
assert_admissible chunks none = ok tt
assert_admissible chunks (some clearance) = do
  allowed ← admissible_classifications clearance
  refuse_leaked clearance (leaked_chunks allowed chunks)

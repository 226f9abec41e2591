-- ===== src/Gaps/Refusal.antt =====
-- src/learnarken/refusal.py: a refusal as a routed action. `upper` and `mentions`, the codes that the
-- pattern `DMC_IN_TEXT` finds in a text, are parameters; a reason is a value with what it interpolates. The
-- text of `why` names the gate and is left out.
pub mod Routed
use learn_arken.Prelude.{
  String, Bool, true, false, Option, none, some, List, [], ◌∷◌, map, filter, elem, if◌then◌else◌,
  str_le, Result, ok, raise,
}
use learn_arken.Prelude.Dict
use learn_arken.Prelude.Dict.{Dict}
use learn_arken.Prelude.Sort.{sort}
use learn_arken.Gaps.{Gap, GapReport, admitted_gaps, pre_admission_gaps}

pub data Reason : Type 0 where
  no_dmc_in_question no_package_scope : Reason
  lookup_failed dmc_not_a_gap pre_admission_not_routable : String → Reason
  of_gap : Option String → Reason

-- The advice is a value of the gate's name.
pub data Advice : Type 0 where
  advice unknown_gate : (gate : String) → Advice

pub record RefusalAction : Type 0 where
  pub gate : String
  pub what_would_resolve : Advice
  pub owner : Option String
  pub owner_reason : Option Reason
  pub gap_signature : Option String

abbrev pub gates : List String
gates =
    "threshold" ∷ "llm" ∷ "llm-contract" ∷ "citation-validation" ∷ "figure-out-of-description" ∷ []

unfoldable pub resolution : String → Advice
resolution gate = if elem gate gates then advice gate else unknown_gate gate

abbrev pub unrouted : String → Reason → RefusalAction
unrouted gate reason = record {
  gate = gate;
  what_would_resolve = resolution gate;
  owner = none;
  owner_reason = some reason;
  gap_signature = none;
}

abbrev pub routed_by : String → Gap → RefusalAction
routed_by gate g = record {
  gate = gate;
  what_would_resolve = resolution gate;
  owner = g.owner;
  owner_reason = some (of_gap g.owner_reason);
  gap_signature = some g.signature;
}

module _ (upper : String → String) where
  -- `{g.signature.upper(): g for g in gaps}`
  unfoldable pub index_gaps : List Gap → Dict Gap → Dict Gap
  index_gaps [] d = d
  index_gaps (g ∷ gs) d = index_gaps gs (Dict.put (upper g.signature) g d)

  -- The loop over the codes that the question names.
  unfoldable pub first_gap : Dict Gap → List String → Option Gap
  first_gap d [] = none
  first_gap d (c ∷ cs) = elim (Dict.get c d) [ none ↦ first_gap d cs | some g ↦ some g ]

  abbrev pub named_pre_admission : GapReport → List String → List String
  named_pre_admission r mentioned =
      sort str_le (
        filter (λ s. elem s mentioned)
          (map (λ (g : Gap). upper g.signature) (pre_admission_gaps r)))

  abbrev pub not_found : String → String → List String → RefusalAction
  not_found gate first [] = unrouted gate (dmc_not_a_gap first)
  not_found gate first (s ∷ rest) = unrouted gate (pre_admission_not_routable s)

  abbrev pub route_gap : String → String → List String → GapReport → Option Gap → RefusalAction
  route_gap gate first mentioned r (some g) = routed_by gate g
  route_gap gate first mentioned r none = not_found gate first (named_pre_admission r mentioned)

  abbrev pub route_report : String → String → List String → Result String GapReport → RefusalAction
  route_report gate first mentioned (raise exc) = unrouted gate (lookup_failed exc)
  route_report gate first mentioned (ok r) =
      route_gap gate first mentioned r (first_gap (index_gaps (admitted_gaps r) []) mentioned)

  -- With no package scope, `collected` is `none`.
  abbrev pub route_scope :
      String → String → List String → Option (Result String GapReport) → RefusalAction
  route_scope gate first mentioned none = unrouted gate no_package_scope
  route_scope gate first mentioned (some collected) = route_report gate first mentioned collected

  abbrev pub route_mentioned :
      String → Option (Result String GapReport) → List String → RefusalAction
  route_mentioned gate collected [] = unrouted gate no_dmc_in_question
  route_mentioned gate collected (c ∷ cs) = route_scope gate c (c ∷ cs) collected

  unfoldable pub route :
      (mentions : String → List String)
      → (question gate : String) → Option (Result String GapReport)
      → RefusalAction
  route mentions question gate collected =
      route_mentioned gate collected (map upper (mentions question))

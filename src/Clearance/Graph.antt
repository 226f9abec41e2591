-- ===== src/Clearance/Graph.antt =====
-- The redaction of graph facts in src/learnarken/clearance.py.
use learn_arken.Prelude.{
  ◌+◌, String, ◌≡◌, refl, true, some, List, [], ◌∷◌, arith, filter-All, All, elem, length,
  length-filter-le,
}
use learn_arken.Clearance.{GraphFacts, redact, redact_graph_facts}

-- What a fact may hold after the redaction of `before`: only admitted neighbours, everything else of
-- it unchanged, and a count of exactly the references that were taken out.
pub record IsRedacted (admitted_dmcs : List String) (before after : GraphFacts) : Type 0 where
  pub same_dmc : after.dmc ≡ before.dmc
  pub same_title : after.title ≡ before.title
  pub same_icns : after.icns ≡ before.icns
  pub out_admitted : All (λ d. elem d admitted_dmcs ≡ true) after.outbound_refs
  pub in_admitted : All (λ d. elem d admitted_dmcs ≡ true) after.inbound_refs
  pub counted :
      after.withheld_refs + length after.outbound_refs + length after.inbound_refs
      ≡ length before.outbound_refs + length before.inbound_refs

-- Facts paired with what became of them, in order.
abbrev pub Pairwise :
    (GraphFacts → GraphFacts → Type 0) → List GraphFacts → List GraphFacts → Type 0
Pairwise R [] [] = Unit
Pairwise R [] (b ∷ bs) = ⊥
Pairwise R (a ∷ as') [] = ⊥
Pairwise R (a ∷ as') (b ∷ bs) = R a b × Pairwise R as' bs

redact-IsRedacted :
    (admitted_dmcs : List String) (fact : GraphFacts)
    → IsRedacted admitted_dmcs fact (redact admitted_dmcs fact)
unfolding redact
redact-IsRedacted dmcs fact =
    let kept = λ (d : String). elem d dmcs in
    record {
      same_dmc = refl;
      same_title = refl;
      same_icns = refl;
      out_admitted = filter-All kept fact.outbound_refs;
      in_admitted = filter-All kept fact.inbound_refs;
      counted = omega (
        arith,
        length-filter-le kept fact.outbound_refs,
        length-filter-le kept fact.inbound_refs,
      );
    }

-- With a clearance every graph fact is redacted, one for one: its references are all among the
-- admitted modules, the number withheld and the number kept add up to the number given, and its own
-- module, title and figures are unchanged.
pub redact_graph_facts-IsRedacted :
    (facts : List GraphFacts) (admitted_dmcs : List String) (clearance : String)
    → Pairwise
        (IsRedacted admitted_dmcs)
        facts
        (redact_graph_facts facts admitted_dmcs (some clearance))
unfolding redact_graph_facts
redact_graph_facts-IsRedacted [] dmcs clearance = tt
redact_graph_facts-IsRedacted (f ∷ rest) dmcs clearance =
    (redact-IsRedacted dmcs f, redact_graph_facts-IsRedacted rest dmcs clearance)

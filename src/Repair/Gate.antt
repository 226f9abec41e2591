-- ===== src/Repair/Gate.antt =====
-- src/learnarken/repair/core.py: the repair run and its apply gate. The agent that proposes a patch for
-- a finding (an LLM loop on a sandbox with state `S`), the human who approves, the upper case of a text
-- and the commit are parameters; a human's answer depends on the patch shown.
pub mod Approved
use learn_arken.Prelude.{
  ℕ, String, ◌≡◌, Bool, true, false, not, ◌&&◌, ◌||◌, Option, none, some, List, [], ◌∷◌, ◌++◌, map,
  filter, elem, str_eq, length, leb, if◌then◌else◌, Result, ok, raise,
}
use learn_arken.Prelude.Dict
use learn_arken.Prelude.Sort.{sort}
use learn_arken.Validation.Report.{Finding, Layer, l0_wellformed, l1_schema, l2_brex, l3_crossfile}
use learn_arken.Repair.Models.{
  RepairMode, dry_run, apply, RiskTier, apply_eligible, dry_run_only, PatchStatus, patched, applied,
  declined, shown_only, EditOp, ProposedPatch, RepairReport, risk_tier_for,
}
use learn_arken.Repair.Apply.{Files}
use learn_arken.Repair.Commit.{
  ApplyError, unsafe_name, unknown_target, bad_edit, introduces, os_error, ApplyResult, Edits,
}

abbrev pub is_eligible : RiskTier → Bool
is_eligible apply_eligible = true
is_eligible dry_run_only = false

abbrev pub is_patched : PatchStatus → Bool
is_patched patched = true
is_patched _ = false

-- `str(layer)` in upper case
abbrev layer_name : Layer → String
layer_name l0_wellformed = "L0"
layer_name l1_schema = "L1"
layer_name l2_brex = "L2"
layer_name l3_crossfile = "L3"

abbrev pub Commit : Type 0
Commit = Files → Edits → Result (ApplyError × Files) (ApplyResult × Files)

abbrev pub Approver : Type 0
Approver = ProposedPatch → Bool

-- Whether the gate offers a patch: the tier is recomputed from the rule.
unfoldable pub is_offered : ProposedPatch → Bool
is_offered p = is_eligible (risk_tier_for p.rule_id) && is_patched p.status

unfoldable pub decline : Approver → ProposedPatch → ProposedPatch
decline approver p = if is_offered p && not (approver p) then record p { status = declined } else p

unfoldable pub is_approved : Approver → ProposedPatch → Bool
is_approved approver p = is_offered p && approver p

-- `edits_by_file.setdefault(file, []).extend(edits)`
abbrev pub or_no_edits : Option (List EditOp) → List EditOp
or_no_edits none = []
or_no_edits (some es) = es

unfoldable pub extend : ProposedPatch → Edits → Edits
extend p edits = Dict.put p.file (or_no_edits (Dict.get p.file edits) ++ p.edits) edits

unfoldable pub collect : List ProposedPatch → Edits → Edits
collect [] edits = edits
collect (p ∷ ps) edits = collect ps (extend p edits)

-- The status of a patch after a commit that has written these files.
unfoldable pub settle : Approver → List String → ProposedPatch → ProposedPatch
settle approver written p =
    if is_approved approver p && elem p.file written
    then record p { status = applied }
    else decline approver p

abbrev pub is_refusal : ApplyError → Bool
is_refusal (unknown_target name) = true
is_refusal (introduces ks) = true
is_refusal _ = false

abbrev pub Outcome : Type 0
Outcome = Result (ApplyError × Files) (List ProposedPatch × Files)

-- After the commit. A refusal is logged, and the other exceptions pass on.
abbrev pub after_commit :
    Approver → List ProposedPatch → Result (ApplyError × Files) (ApplyResult × Files) → Outcome
after_commit approver ps (ok (r, fs)) = ok (map (settle approver r.written) ps, fs)
after_commit approver ps (raise (e, fs)) =
    if is_refusal e then ok (map (decline approver) ps, fs) else raise (e, fs)

abbrev pub commit_approved :
    Commit → Approver → List ProposedPatch → Files → List ProposedPatch → Outcome
commit_approved commit approver ps fs [] = ok (map (decline approver) ps, fs)
commit_approved commit approver ps fs (a ∷ more) =
    after_commit approver ps (commit fs (collect (a ∷ more) []))

unfoldable pub run_apply_gate : Commit → Approver → List ProposedPatch → Files → Outcome
run_apply_gate commit approver ps fs =
    commit_approved commit approver ps fs (filter (is_approved approver) ps)

-- `_targeted`, with `upper` for `str.upper`
unfoldable pub targeted : (String → String) → List String → List Finding → List Finding
targeted upper [] findings = findings
targeted upper (o ∷ only) findings =
    filter
      (λ (f : Finding).
        elem (upper f.rule_id) (map upper (o ∷ only))
        || elem (layer_name f.layer) (map upper (o ∷ only)))
      findings

unfoldable pub tier_order : Finding → ℕ
tier_order f = if is_eligible (risk_tier_for f.rule_id) then 0 else 1

unfoldable pub hold_back : RiskTier → ProposedPatch → ProposedPatch
hold_back tier p =
    if not (is_eligible tier) && is_patched p.status then record p { status = shown_only } else p

abbrev pub Agent : Type 0 → Type 0
Agent S = S → Finding → RiskTier → ProposedPatch × S

unfoldable pub repair_all : {S : Type 0} → Agent S → S → List Finding → List ProposedPatch
repair_all agent s [] = []
repair_all agent s (f ∷ fs) =
    let tier = risk_tier_for f.rule_id in
    let (p, s') = agent s f tier in hold_back tier p ∷ repair_all agent s' fs

unfoldable pub run_repair :
    {S : Type 0}
    → (String → String)
    → Agent S
    → S
    → Commit
    → Approver
    → RepairMode
    → List String
    → List Finding
    → Files
    → Outcome
run_repair upper agent s commit approver mode only findings fs =
    let wanted = sort (λ a b. leb (tier_order a) (tier_order b)) (targeted upper only findings) in
    let patches = repair_all agent s wanted in
    elim mode [ dry_run ↦ ok (patches, fs) | apply ↦ run_apply_gate commit approver patches fs ]

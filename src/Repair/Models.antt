-- ===== src/Repair/Models.antt =====
-- src/learnarken/repair/models.py: patches, their status, and the risk tier of a finding's rule.
use learn_arken.Prelude.{
  ℕ, String, Bool, true, false, ◌&&◌, Option, none, List, [], ◌∷◌, filter, length, elem, ltb, ◌==◌,
  if◌then◌else◌,
}
use learn_arken.Validation.Report.{Finding, Layer, Message}

pub data RepairMode : Type 0 where
  dry_run apply : RepairMode

pub data RiskTier : Type 0 where
  apply_eligible dry_run_only : RiskTier

pub data PatchStatus : Type 0 where
  patched applied declined shown_only refused budget_exhausted : PatchStatus

-- The rules of `_HIGH_RISK`, which the code lists and does not read.
abbrev pub high_risk : List String
high_risk = "PARSE-001" ∷ "PARSE-002" ∷ "SCHEMA-001" ∷ "MODEL-001" ∷ "XREF-004" ∷ []

abbrev pub eligible_rules : List String
eligible_rules =
    "BREX-001" ∷ "BREX-002" ∷ "BREX-003" ∷ "BREX-004" ∷ "BREX-005" ∷ "XREF-001" ∷ "XREF-002"
    ∷ "XREF-003" ∷ "XREF-005" ∷ "XREF-008" ∷ []

unfoldable pub risk_tier_for : String → RiskTier
risk_tier_for rule_id = if elem rule_id eligible_rules then apply_eligible else dry_run_only

pub record EditOp : Type 0 where
  pub op : String
  pub xpath : String
  pub attr : Option String
  pub value : Option String
  pub xml : Option String
  pub position : String

pub record ValidatorDelta : Type 0 where
  pub findings_before : ℕ
  pub findings_after : ℕ
  pub cleared : List String
  pub introduced : List String

abbrev pub is_empty : List String → Bool
is_empty [] = true
is_empty (x ∷ xs) = false

unfoldable pub is_clean_fix : ValidatorDelta → Bool
is_clean_fix d = is_empty d.introduced && ltb d.findings_after d.findings_before

pub record ProposedPatch : Type 0 where
  pub rule_id : String
  pub layer : Layer
  pub file : String
  pub message : Message
  pub risk_tier : RiskTier
  pub status : PatchStatus
  pub edits : List EditOp
  pub diff : String
  pub rationale : String
  pub evidence : List String
  pub validator_delta : Option ValidatorDelta
  pub iterations_used : ℕ
  pub tokens_used : ℕ

unfoldable pub from_finding : Finding → RiskTier → PatchStatus → ProposedPatch
from_finding f tier status = record {
  rule_id = f.rule_id;
  layer = f.layer;
  file = f.file;
  message = f.message;
  risk_tier = tier;
  status = status;
  edits = [];
  diff = "";
  rationale = "";
  evidence = [];
  validator_delta = none;
  iterations_used = 0;
  tokens_used = 0;
}

pub record RepairReport : Type 0 where
  pub package_dir : String
  pub mode : RepairMode
  pub seed : ℕ
  pub findings_targeted : ℕ
  pub patches : List ProposedPatch

abbrev pub is_fixed : PatchStatus → Bool
is_fixed patched = true
is_fixed applied = true
is_fixed _ = false

abbrev pub is_applied : PatchStatus → Bool
is_applied applied = true
is_applied _ = false

abbrev pub is_refused : PatchStatus → Bool
is_refused refused = true
is_refused budget_exhausted = true
is_refused _ = false

unfoldable pub fixed_count : RepairReport → ℕ
fixed_count r = length (filter (λ (p : ProposedPatch). is_fixed p.status) r.patches)

unfoldable pub applied_count : RepairReport → ℕ
applied_count r = length (filter (λ (p : ProposedPatch). is_applied p.status) r.patches)

unfoldable pub refused_count : RepairReport → ℕ
refused_count r = length (filter (λ (p : ProposedPatch). is_refused p.status) r.patches)

unfoldable pub all_resolved : RepairReport → Bool
all_resolved r = refused_count r == 0

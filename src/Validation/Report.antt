-- ===== src/Validation/Report.antt =====
-- src/learnarken/validation/report.py. A finding's message is a value of `Message`, one constructor
-- for each f-string with what that interpolates; the fix hints, constant for each rule, are left out.
use learn_arken.Prelude.{ℕ, String, Bool, true, false, Option, List, filter, length, str_eq}

pub data Severity : Type 0 where
  error warning info : Severity

pub data Layer : Type 0 where
  l0_wellformed l1_schema l2_brex l3_crossfile : Layer

pub data Message : Type 0 where
  too_large : (size : ℕ) → Message
  not_wellformed : (exc : String) → Message
  schema_error : (err : String) → Message
  cannot_build : (exc : String) → Message
  rule_raised : (rule exc : String) → Message
  hazard : (hits : List String) → Message
  malformed_fields : (bad : List String) → Message
  wrong_file_name : (dmc : String) → Message
  no_step : Message
  no_applic : Message
  dates_out_of_order : (effective expiry : ℕ) → Message
  ref_absent : (target : String) → Message
  icn_absent : (ident : String) → Message
  issue_mismatch : (dmc claimed dml registered : String) → Message
  out_of_domain : (model : String) → (accepted : List String) → Message
  cycle : (members : List String) → Message
  same_issue : (dmc earlier later issue : String) → Message
  superseded : (dmc : String) → (copies : List (String × String)) → Message
  dangling_registration : (target : String) → Message

pub record Finding : Type 0 where
  pub rule_id : String
  pub layer : Layer
  pub severity : Severity
  pub file : String
  pub line : Option ℕ
  pub path : Option String
  pub message : Message

pub record ValidationReport : Type 0 where
  pub package_dir : String
  pub files_checked : ℕ
  pub brex_rules_evaluated : ℕ
  pub findings : List Finding

abbrev pub is_error : Severity → Bool
is_error error = true
is_error _ = false

abbrev pub is_warning : Severity → Bool
is_warning warning = true
is_warning _ = false

unfoldable pub error_count : ValidationReport → ℕ
error_count r = length (filter (λ (f : Finding). is_error f.severity) r.findings)

unfoldable pub warning_count : ValidationReport → ℕ
warning_count r = length (filter (λ (f : Finding). is_warning f.severity) r.findings)

unfoldable pub findings_for : ValidationReport → String → List Finding
findings_for r file = filter (λ (f : Finding). str_eq f.file file) r.findings

-- ===== src/Validation/CrossFile.antt =====
-- `_crossfile_findings` of src/learnarken/validation/engine.py: the checks over the whole package.
-- The components that `_find_cycles` returns come in as an argument.
pub mod Sound
use learn_arken.Prelude.{
  ℕ, String, ◌≡◌, Bool, true, false, not, ◌&&◌, ◌||◌, Option, none, some, List, [], ◌∷◌, ◌++◌, map,
  filter, str_eq, str_le, elem, is_none, if◌then◌else◌,
}
use learn_arken.Prelude.Dict
use learn_arken.Prelude.Dict.{Dict}
use learn_arken.Prelude.Sort.{sort}
use learn_arken.Package.Model.{
  DataModule, DataModuleList, DmlEntry, DmRef, IcnRef, IssueInfo, PackageModel, PublicationModule,
  code_str, dmc, issue_str,
}
use learn_arken.Validation.Report.{
  Finding, Severity, error, warning, l3_crossfile, Message, ref_absent, icn_absent, issue_mismatch,
  out_of_domain, cycle, dangling_registration,
}
use learn_arken.Validation.Identity.{Index}

-- The local function `finding`.
abbrev pub finding : String → Severity → String → Message → Option ℕ → Finding
finding rule_id severity file message line = record {
  rule_id = rule_id;
  layer = l3_crossfile;
  severity = severity;
  file = file;
  line = line;
  path = none;
  message = message;
}

abbrev pub indexed_code : Index → String → Bool
indexed_code index code = not (is_none (Dict.get code index))

-- `for x in xs: …` where the body appends findings.
abbrev pub each {ℓ} : {A : Type ℓ} → (A → List Finding) → List A → List Finding
each f [] = []
each f (x ∷ xs) = f x ++ each f xs

abbrev pub unless : Bool → Finding → List Finding
unless true f = []
unless false f = f ∷ []

-- XREF-001
unfoldable pub check_ref : Index → String → DmRef → List Finding
check_ref index owner_file ref =
    let target = code_str ref.dm_code in
    unless (indexed_code index target)
      (finding "XREF-001" error owner_file (ref_absent target) ref.line)

-- XREF-002
unfoldable pub check_icn : List String → String → IcnRef → List Finding
check_icn icn_idents file icn =
    unless (elem icn.ident icn_idents)
      (finding "XREF-002" error file (icn_absent icn.ident) icn.line)

-- XREF-008
unfoldable pub check_registration : Index → String → DmlEntry → List Finding
check_registration index file entry =
    let target = code_str entry.dm_code in
    unless (indexed_code index target)
      (finding "XREF-008" error file (dangling_registration target) entry.line)

-- XREF-003, where the module is indexed and both sides have an issue.
abbrev pub compare_issues :
    (dml_file : String) (dm : DataModule) → Option IssueInfo → Option IssueInfo → List Finding
compare_issues dml_file dm (some claimed) (some registered) =
    unless (str_eq (issue_str claimed) (issue_str registered)) (
      finding "XREF-003" error dm.file
        (issue_mismatch (dmc dm) (issue_str claimed) dml_file (issue_str registered)) none)
compare_issues dml_file dm _ _ = []

abbrev pub compare_indexed : String → Option DataModule → DmlEntry → List Finding
compare_indexed dml_file none entry = []
compare_indexed dml_file (some dm) entry = compare_issues dml_file dm dm.issue_info entry.issue_info

unfoldable pub check_issue : Index → String → DmlEntry → List Finding
check_issue index dml_file entry =
    compare_indexed dml_file (Dict.get (code_str entry.dm_code) index) entry

-- XREF-004
unfoldable pub check_domain : List String → DataModule → List Finding
check_domain accepted_models dm = unless (elem dm.dm_code.model_ident_code accepted_models) (
    finding "XREF-004" error dm.file
      (out_of_domain dm.dm_code.model_ident_code (sort str_le accepted_models)) none)

abbrev get_or : String → Dict String → String → String
get_or k m d = elim (Dict.get k m) [ none ↦ d | some v ↦ v ]

-- XREF-005. A component is not empty; its first member carries the finding.
unfoldable pub check_cycle : Dict String → List String → List Finding
check_cycle dm_files [] = []
check_cycle dm_files (carrier ∷ rest) =
    finding "XREF-005" warning (get_or carrier dm_files carrier) (cycle (carrier ∷ rest)) none ∷ []

abbrev add_new : String → List String → List String
add_new s xs = if elem s xs then xs else s ∷ xs

abbrev distinct : List String → List String
distinct [] = []
distinct (x ∷ xs) = add_new x (distinct xs)

-- The reference graph: `{dm.dmc: sorted({…}) for dm in data_modules}`, where a later module of one
-- code replaces the targets and keeps the place of the earlier one.
abbrev pub targets : Index → DataModule → List String
targets index dm =
    sort str_le
      (distinct (filter (indexed_code index) (map (λ (r : DmRef). code_str r.dm_code) dm.dm_refs)))

abbrev pub Graph : Type 0
Graph = Dict (List String)

unfoldable pub graph_into : Index → Graph → List DataModule → Graph
graph_into index graph [] = graph
graph_into index graph (dm ∷ rest) =
    graph_into index (Dict.put (dmc dm) (targets index dm) graph) rest

unfoldable pub reference_graph : Index → List DataModule → Graph
unfolding graph_into
reference_graph index dms = graph_into index [] dms

unfoldable pub ref_findings : PackageModel → Index → List Finding
ref_findings package_model index =
    each (λ (dm : DataModule). each (check_ref index dm.file) dm.dm_refs) package_model.data_modules
    ++ each (λ (pm : PublicationModule). each (check_ref index pm.file) pm.dm_refs)
        package_model.publication_modules

unfoldable pub icn_findings : PackageModel → List Finding
icn_findings package_model =
    each (λ (dm : DataModule). each (check_icn package_model.icn_idents dm.file) dm.icn_refs)
      package_model.data_modules

unfoldable pub registration_findings : PackageModel → Index → List Finding
registration_findings package_model index =
    each (λ (dml : DataModuleList). each (check_registration index dml.file) dml.entries)
      package_model.dmls

unfoldable pub issue_findings : PackageModel → Index → List Finding
issue_findings package_model index =
    each (λ (dml : DataModuleList). each (check_issue index dml.file) dml.entries)
      package_model.dmls

unfoldable pub crossfile_findings :
    (Graph → List (List String)) → PackageModel → Index → Dict String → List String → List Finding
crossfile_findings find_cycles package_model index dm_files accepted_models =
    ref_findings package_model index
    ++ (icn_findings package_model
        ++ (registration_findings package_model index
            ++ (issue_findings package_model index
                ++ (each (check_domain accepted_models) package_model.data_modules
                    ++ each (check_cycle dm_files)
                        (find_cycles (reference_graph index package_model.data_modules))))))

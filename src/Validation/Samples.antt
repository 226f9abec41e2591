-- ===== src/Validation/Samples.antt =====
-- A package of two modules and a list, read without the XML library.
use learn_arken.Prelude.{
  str_eq, if◌then◌else◌, Option, String, ◌≡◌, ◌≢◌, refl, true, none, some, List, [], ◌∷◌, filter,
  All, ok, raise,
}
use learn_arken.Prelude.Dict
use learn_arken.Prelude.Sort.{sort}
use learn_arken.Prelude.Int.{int_of}
use learn_arken.Validation.Issue.{key_le, issue_key, IsNumbered}
use learn_arken.Validation.Identity.Groups.{claims}
use learn_arken.Perf.Shard.{Pool, traverse}
use learn_arken.Package.Model.{
  DmCode, DataModule, DmRef, PackageModel, data_module, descriptive, dmc, code_str, issue_str,
}
use learn_arken.Validation.Report.{error}
use learn_arken.Validation.Identity.{resolve_dm_identities}
use learn_arken.Validation.Identity.Newest.{IsNewest, dm_index-IsNewest}
use learn_arken.Validation.Identity.Conflicts.{AtMostOne, is_conflict, no_conflict-AtMostOne}
use learn_arken.Validation.CrossFile.{
  Graph, crossfile_findings, ref_findings, check_ref, icn_findings, registration_findings,
  issue_findings, check_domain,
}
use learn_arken.Validation.CrossFile.Sound.{errors, IsConsistent, no_errors-IsConsistent}
use learn_arken.Validation.File.{
  Exn, Reader, FileResult, process_file, has_prefix, build, schema_findings, brex_findings,
}
use learn_arken.Validation.File.FailClosed.{LogsErrors, IsAdmitted, process_file-IsAdmitted}
use learn_arken.Validation.Engine.{Directory, PackageError}

abbrev code_of : String → DmCode
code_of system = record {
  model_ident_code = "ARK";
  system_diff_code = "A";
  system_code = system;
  sub_system_code = "0";
  sub_sub_system_code = "0";
  assy_code = "00";
  disassy_code = "00";
  disassy_code_variant = "A";
  info_code = "040";
  info_code_variant = "A";
  item_location_code = "A";
}

abbrev module_of : String → String → String → List DmRef → DataModule
module_of file system issue refs = record {
  file = file;
  dm_code = code_of system;
  issue_info = some (record { issue_number = issue; in_work = "00" });
  tech_name = "Hydraulics";
  info_name = "Description";
  security_classification = some "01";
  applicability = none;
  extension = none;
  content_type = descriptive;
  steps = 0;
  warnings = 0;
  cautions = 0;
  dm_refs = refs;
  icn_refs = [];
}

abbrev first_issue : DataModule
first_issue = module_of "DMC-1.xml" "29" "001" []

abbrev second_issue : DataModule
second_issue = module_of "DMC-2.xml" "29" "002" []

dm_index-IsNewest_example :
    ((m : DataModule)
      → Dict.get
          (dmc first_issue)
          (resolve_dm_identities (first_issue ∷ second_issue ∷ [])).dm_index
        ≡ some m
      → IsNewest (first_issue ∷ second_issue ∷ []) (dmc first_issue) m)
    × (Dict.get (dmc first_issue) (resolve_dm_identities (first_issue ∷ second_issue ∷ [])).dm_index
          ≡ none
        → All (λ x. dmc x ≢ dmc first_issue) (first_issue ∷ second_issue ∷ []))
dm_index-IsNewest_example = dm_index-IsNewest (first_issue ∷ second_issue ∷ []) (dmc first_issue)

no_conflict :
    filter is_conflict (resolve_dm_identities (first_issue ∷ second_issue ∷ [])).findings ≡ []
unfolding resolve_dm_identities Dict.put dmc code_str Dict.get sort key_le issue_key int_of
    issue_str
no_conflict = refl

no_conflict-AtMostOne_example :
    AtMostOne
      (λ dm. (claims (dmc first_issue) dm ≡ true) × IsNumbered 1 "001-00" dm)
      (first_issue ∷ second_issue ∷ [])
no_conflict-AtMostOne_example =
    no_conflict-AtMostOne (first_issue ∷ second_issue ∷ []) (dmc first_issue) 1 "001-00" no_conflict

abbrev referring : DataModule
referring =
    module_of "DMC-3.xml" "30" "001"
      (record { dm_code = code_of "29"; issue_info = none; line = some 12 } ∷ [])

abbrev sample_package : PackageModel
sample_package = record {
  path = "samples";
  data_modules = referring ∷ second_issue ∷ [];
  publication_modules = [];
  dmls = [];
  icn_idents = [];
}

abbrev no_cycles : Graph → List (List String)
no_cycles g = []

sample-errors :
    errors (
      crossfile_findings no_cycles sample_package
        ((dmc second_issue, second_issue) ∷ (dmc referring, referring) ∷ [])
        []
        ("ARK" ∷ []))
    ≡ []
unfolding crossfile_findings ref_findings check_ref Dict.get dmc code_str icn_findings
    registration_findings issue_findings check_domain
sample-errors = refl

no_errors-IsConsistent_example :
    IsConsistent sample_package
      ((dmc second_issue, second_issue) ∷ (dmc referring, referring) ∷ [])
      ("ARK" ∷ [])
no_errors-IsConsistent_example =
    no_errors-IsConsistent no_cycles sample_package
      ((dmc second_issue, second_issue) ∷ (dmc referring, referring) ∷ []) [] ("ARK" ∷ [])
      sample-errors

abbrev exn : Exn
exn = record { text = "no such loader"; lineno = none }

-- A file's tree is its name.
abbrev reader : Reader String
reader = record {
  size = λ f. ok 100;
  parse_file = λ f. ok (f, f);
  validate = λ t. true;
  error_log = λ t. [];
  load_data_module = λ f t. ok (data_module (module_of f "29" "001" []));
  load_publication_module = λ f t. raise exn;
  load_dml = λ f t. raise exn;
  brex_rules = record { rule_id = "BREX-004"; severity = error; check = λ t dm f. ok [] } ∷ [];
}

reader-LogsErrors : LogsErrors reader
reader-LogsErrors t h e = cc h

clean : errors (process_file reader "DMC-1.xml").findings ≡ []
unfolding process_file build has_prefix schema_findings brex_findings
clean = refl

process_file-IsAdmitted_example : IsAdmitted reader "DMC-1.xml" (process_file reader "DMC-1.xml")
process_file-IsAdmitted_example = process_file-IsAdmitted reader "DMC-1.xml" reader-LogsErrors clean

abbrev directory : Directory
directory = record {
  path = "samples";
  xml_files = some ("DMC-2.xml" ∷ "DMC-1.xml" ∷ []);
  icn_idents = [];
}

abbrev in_order : Pool PackageError String FileResult
in_order size worker shards = traverse worker shards

-- The XML library raises in the second file.
abbrev at_second : String → Option String
at_second f = if str_eq f "DMC-2.xml" then some "MemoryError" else none

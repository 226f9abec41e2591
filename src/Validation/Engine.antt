-- ===== src/Validation/Engine.antt =====
-- `list_package_files`, `_merge_file_results` and `analyze_package` of
-- src/learnarken/validation/engine.py, and `analyze_package_sharded` of
-- src/learnarken/validation/parallel.py.
pub mod Sharded
use learn_arken.Prelude.{
  ℕ, suc, zero, String, ◌≡◌, Bool, true, false, ◌&&◌, ◌||◌, Option, none, some, List, [], ◌∷◌, ◌++◌,
  map, length, filter, str_le, elem, if◌then◌else◌, Result, ok, raise, ◌>>=◌, is_none, not,
}
use learn_arken.Prelude.Dict
use learn_arken.Prelude.Dict.{Dict}
use learn_arken.Prelude.Sort.{sort}
use learn_arken.Perf.Shard.{Pool, ShardError, make_shards, run_sharded, traverse}
use learn_arken.Package.Model.{
  AnyModel, data_module, publication_module, data_module_list, DataModule, PublicationModule,
  DataModuleList, PackageModel,
}
use learn_arken.Validation.Report.{Finding, ValidationReport}
use learn_arken.Validation.Identity.{resolve_dm_identities}
use learn_arken.Validation.CrossFile.{Graph, crossfile_findings}
use learn_arken.Validation.File.{Reader, FileResult, process_file, has_prefix}

pub data PackageError : Type 0 where
  not_a_directory : PackageError
  no_recognizable_file : PackageError
  -- `results[path.name]` for a name that is not there
  key_error : String → PackageError
  bad_workers : ℕ → PackageError
  -- an exception that `_process_file` lets through, and the one that a worker makes of it
  file_failed : String → PackageError
  shard_failed : List String → (cause : PackageError) → PackageError

-- What the engine reads of a directory: the names of its `*.xml` files, if it is a directory, and
-- the idents of its `icn` folder.
pub record Directory : Type 0 where
  pub path : String
  pub xml_files : Option (List String)
  pub icn_idents : List String

abbrev recognizable : String → Bool
recognizable name = has_prefix "DMC-" name || has_prefix "PMC-" name || has_prefix "DML-" name

abbrev some_files : List String → Result PackageError (List String)
some_files [] = raise no_recognizable_file
some_files (f ∷ fs) = ok (f ∷ fs)

unfoldable pub list_package_files : Directory → Result PackageError (List String)
list_package_files directory = elim directory.xml_files [
  | none ↦ raise not_a_directory
  | some names ↦ some_files (filter recognizable (sort str_le names))
]

-- What the loop over the files has gathered.
pub record Folded : Type 0 where
  pub findings : List Finding
  pub data_modules : List DataModule
  pub publication_modules : List PublicationModule
  pub dmls : List DataModuleList

abbrev add_model : Option AnyModel → Folded → Folded
add_model none f = f
add_model (some (data_module m)) f = record f { data_modules = m ∷ f.data_modules }
add_model (some (publication_module m)) f = record f {
  publication_modules = m ∷ f.publication_modules;
}
add_model (some (data_module_list m)) f = record f { dmls = m ∷ f.dmls }

abbrev pub add_result : FileResult → Folded → Folded
add_result r f = add_model r.model (record f { findings = r.findings ++ f.findings })

-- `res.digest is not None and res.digest in seen_digests`
abbrev pub is_seen : Dict String → Option String → Bool
is_seen seen none = false
is_seen seen (some d) = not (is_none (Dict.get d seen))

abbrev pub note_digest : Dict String → Option String → String → Dict String
note_digest seen none name = seen
note_digest seen (some d) name = Dict.put d name seen

-- The loop of `_merge_file_results`: a later copy of a digest is dropped with its findings.
unfoldable pub fold_results :
    Dict FileResult → (seen_digests : Dict String) → List String → Result PackageError Folded
fold_results results seen [] =
    ok (record { findings = []; data_modules = []; publication_modules = []; dmls = [] })
fold_results results seen (name ∷ rest) = elim (Dict.get name results) [
  | none ↦ raise (key_error name)
  | some r ↦ elim (is_seen seen r.digest) [
    | true ↦ fold_results results seen rest
    | false ↦ do
      later ← fold_results results (note_digest seen r.digest name) rest
      ok (add_result r later)
  ]
]

module _ (find_cycles : Graph → List (List String)) (rules : ℕ) (directory : Directory) where
  abbrev package_of : Folded → PackageModel
  package_of f = record {
    path = directory.path;
    data_modules = f.data_modules;
    publication_modules = f.publication_modules;
    dmls = f.dmls;
    icn_idents = directory.icn_idents;
  }

  -- The report and the package, with the cross-file layer run over what was gathered.
  unfoldable pub finish : List String → List String → Folded → ValidationReport × PackageModel
  finish files accepted_models f =
      let ids = resolve_dm_identities f.data_modules in
      (
        record {
          package_dir = directory.path;
          files_checked = length files;
          brex_rules_evaluated = rules;
          findings =
              f.findings
              ++ (ids.findings
                  ++ crossfile_findings find_cycles (package_of f) ids.dm_index ids.dm_files
                      accepted_models);
        },
        package_of f,
      )

  unfoldable pub merge_file_results :
      List String
      → Dict FileResult
      → List String
      → Result PackageError (ValidationReport × PackageModel)
  unfolding finish
  merge_file_results files results accepted_models = do
    folded ← fold_results results [] files
    ok (finish files accepted_models folded)

-- `{r.file: r for r in results}`
unfoldable pub index_results : Dict FileResult → List FileResult → Dict FileResult
index_results d [] = d
index_results d (r ∷ rs) = index_results (Dict.put r.file r d) rs

-- `_process_file` on the file of a name. Exceptions of the reading, of the models and of the rules become findings in it;
-- `escapes` is one that the XML library raises elsewhere.
abbrev pub process :
    {Tree : Type 0}
    → Reader Tree
    → (escapes : String → Option String) → String
    → Result PackageError FileResult
process reader escapes f = elim (escapes f) [
  | none ↦ ok (process_file reader f)
  | some e ↦ raise (file_failed e)
]

abbrev pub wrap :
    List String → Result PackageError (List FileResult) → Result PackageError (List FileResult)
wrap files (ok results) = ok results
wrap files (raise e) = raise (shard_failed files e)

-- A worker of the pool validates the files of its shard one by one.
abbrev pub validate_shard :
    {Tree : Type 0}
    → Reader Tree
    → (escapes : String → Option String) → List String
    → Result PackageError (List FileResult)
validate_shard reader escapes files = wrap files (traverse (process reader escapes) files)

abbrev pub shards_of : List String → ℕ → Result PackageError (List (List String))
shards_of files workers = elim (make_shards files workers) [
  | ok shards ↦ ok shards
  | raise e ↦ raise (bad_workers workers)
]

module _ (find_cycles : Graph → List (List String)) {Tree : Type 0} (reader : Reader Tree)
    (escapes : String → Option String) (directory : Directory) (accepted_models : List String) where
  unfoldable pub analyze_package : Result PackageError (ValidationReport × PackageModel)
  analyze_package = do
    files ← list_package_files directory
    results ← traverse (process reader escapes) files
    merge_file_results find_cycles (length reader.brex_rules) directory files
        (index_results [] results) accepted_models

  unfoldable pub analyze_package_sharded :
      Pool PackageError String FileResult
      → (cpu workers : ℕ) → Result PackageError (ValidationReport × PackageModel)
  analyze_package_sharded pool cpu workers = do
    files ← list_package_files directory
    shards ← shards_of files workers
    results ← run_sharded pool cpu shards (validate_shard reader escapes) workers
    merge_file_results find_cycles (length reader.brex_rules) directory files
        (index_results [] results) accepted_models

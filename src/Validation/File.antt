-- ===== src/Validation/File.antt =====
-- `_process_file` of src/learnarken/validation/engine.py: the layers L0 to L2 for one file. The XML
-- library, the loader of src/learnarken/loader.py and the BREX rules of
-- src/learnarken/validation/rules.py are the fields of `Reader`; whatever they raise is an `Exn`.
pub mod FailClosed
use learn_arken.Prelude.{
  ℕ, ◌+◌, ◌-◌, ◌*◌, String, ◌≡◌, Bool, true, false, not, ◌&&◌, ◌||◌, Option, none, some, List, [],
  ◌∷◌, ◌++◌, map, leb, ltb, ◌==◌, if◌then◌else◌, Result, ok, raise, is_none,
}
use learn_arken.Prelude.Int.{codes}
use learn_arken.Package.Model.{AnyModel, data_module, DataModule}
use learn_arken.Validation.Report.{
  Finding, Severity, error, Layer, l0_wellformed, l1_schema, l2_brex, Message, too_large,
  not_wellformed, schema_error, cannot_build, rule_raised,
}
use learn_arken.Validation.CrossFile.{each}

pub record Exn : Type 0 where
  pub text : String
  pub lineno : Option ℕ

pub record SchemaError : Type 0 where
  pub line : Option ℕ
  pub path : Option String
  pub message : String

-- `_elem_location` of a violation's element, and its message
pub record Violation : Type 0 where
  pub line : Option ℕ
  pub path : Option String
  pub message : Message

pub record BrexRule (Tree : Type 0) : Type 0 where
  pub rule_id : String
  pub severity : Severity
  pub check : Tree → DataModule → String → Result Exn (List Violation)

pub record Reader (Tree : Type 0) : Type 0 where
  pub size : String → Result Exn ℕ
  pub parse_file : String → Result Exn (Tree × String)
  pub validate : Tree → Bool
  pub error_log : Tree → List SchemaError
  pub load_data_module : String → Tree → Result Exn AnyModel
  pub load_publication_module : String → Tree → Result Exn AnyModel
  pub load_dml : String → Tree → Result Exn AnyModel
  pub brex_rules : List (BrexRule Tree)

pub record FileResult : Type 0 where
  pub file : String
  pub findings : List Finding
  pub digest : Option String
  pub model : Option AnyModel

abbrev pub max_file_bytes : ℕ
max_file_bytes = 50 * 1024 * 1024

abbrev upper : ℕ → ℕ
upper c = if leb 97 c && leb c 122 then c - 32 else c

prefix_upper : List ℕ → List ℕ → Bool
prefix_upper [] name = true
prefix_upper (p ∷ ps) [] = false
prefix_upper (p ∷ ps) (c ∷ cs) = upper c == p && prefix_upper ps cs

-- `name.upper().startswith(prefix)` for a prefix of capital letters and a dash, of which no character
-- outside ASCII is the capital.
unfoldable pub has_prefix : String → String → Bool
unfolding prefix_upper
has_prefix prefix name = prefix_upper (codes prefix) (codes name)

abbrev file_finding : String → Layer → String → Option ℕ → Message → Finding
file_finding rule_id layer file line message = record {
  rule_id = rule_id;
  layer = layer;
  severity = error;
  file = file;
  line = line;
  path = none;
  message = message;
}

abbrev failed : String → Finding → FileResult
failed file f = record { file = file; findings = f ∷ []; digest = none; model = none }

module _ {Tree : Type 0} (reader : Reader Tree) (file : String) where
  abbrev schema_finding : SchemaError → Finding
  schema_finding err = record {
    rule_id = "SCHEMA-001";
    layer = l1_schema;
    severity = error;
    file = file;
    line = err.line;
    path = err.path;
    message = schema_error err.message;
  }

  unfoldable pub schema_findings : Tree → List Finding
  schema_findings tree =
      if reader.validate tree then [] else map schema_finding (reader.error_log tree)

  -- The model, `none` for a name that is of no known kind.
  unfoldable pub build : Tree → Result Exn (Option AnyModel)
  build tree =
      if has_prefix "DMC-" file
      then elim (reader.load_data_module file tree) [ ok m ↦ ok (some m) | raise e ↦ raise e ]
      else if has_prefix "PMC-" file
      then elim (reader.load_publication_module file tree) [
        | ok m ↦ ok (some m)
        | raise e ↦ raise e
      ]
      else if has_prefix "DML-" file
      then elim (reader.load_dml file tree) [ ok m ↦ ok (some m) | raise e ↦ raise e ]
      else ok none

  abbrev violation_finding : BrexRule Tree → Violation → Finding
  violation_finding rule v = record {
    rule_id = rule.rule_id;
    layer = l2_brex;
    severity = rule.severity;
    file = file;
    line = v.line;
    path = v.path;
    message = v.message;
  }

  abbrev rule_outcome : BrexRule Tree → Result Exn (List Violation) → List Finding
  rule_outcome rule (raise e) =
      file_finding "BREX-999" l2_brex file none (rule_raised rule.rule_id e.text) ∷ []
  rule_outcome rule (ok vs) = map (violation_finding rule) vs

  unfoldable pub brex_findings : Tree → Bool → Option AnyModel → List Finding
  brex_findings tree true (some (data_module dm)) =
      each (λ (rule : BrexRule Tree). rule_outcome rule (rule.check tree dm file)) reader.brex_rules
  brex_findings tree _ _ = []

  abbrev after_build : Tree → String → Result Exn (Option AnyModel) → FileResult
  after_build tree digest (raise e) = record {
    file = file;
    findings =
        schema_findings tree
        ++ file_finding "MODEL-001" l1_schema file none (cannot_build e.text) ∷ [];
    digest = some digest;
    model = none;
  }
  after_build tree digest (ok m) = record {
    file = file;
    findings = schema_findings tree ++ brex_findings tree (reader.validate tree) m;
    digest = some digest;
    model = m;
  }

  abbrev unreadable : Exn → FileResult
  unreadable e =
      failed file (file_finding "PARSE-001" l0_wellformed file e.lineno (not_wellformed e.text))

  abbrev after_parse : Result Exn (Tree × String) → FileResult
  after_parse (raise e) = unreadable e
  after_parse (ok (tree, digest)) = after_build tree digest (build tree)

  abbrev after_size : Result Exn ℕ → FileResult
  after_size (raise e) = unreadable e
  after_size (ok size) =
      if ltb max_file_bytes size
      then failed file (file_finding "PARSE-002" l0_wellformed file none (too_large size))
      else after_parse (reader.parse_file file)

  unfoldable pub process_file : FileResult
  process_file = after_size (reader.size file)

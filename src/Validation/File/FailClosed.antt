-- ===== src/Validation/File/FailClosed.antt =====
-- `_process_file` of src/learnarken/validation/engine.py fails closed: what it does not report, it
-- has checked.
use learn_arken.Prelude.{
  ℕ, ◌≤◌, String, ◌≡◌, ◌≢◌, refl, true, false, Option, some, List, [], ◌∷◌, map, arith, ltb, All,
  All-map, Result, ok, raise, Bool-cases, inl, inr,
}
use learn_arken.Package.Model.{AnyModel, data_module, DataModule}
use learn_arken.Validation.Report.{is_error}
use learn_arken.Validation.CrossFile.Sound.{errors, errors-append, errors-each}
use learn_arken.Validation.File.{
  schema_finding, Exn, SchemaError, Violation, BrexRule, Reader, FileResult, max_file_bytes,
  process_file, schema_findings, build, brex_findings, rule_outcome, violation_finding, after_build,
  after_parse, after_size,
}

-- A rule has run to its end, and found nothing if its severity is that of an error.
abbrev pub Passed : {Tree : Type 0} → Tree → DataModule → String → BrexRule Tree → Type 0
Passed tree dm file rule =
    (vs : List Violation) × (rule.check tree dm file ≡ ok vs)
    × (is_error rule.severity ≡ true → vs ≡ [])

abbrev pub PassedAll : {Tree : Type 0} → Reader Tree → Tree → String → Option AnyModel → Type 0
PassedAll reader tree file (some (data_module dm)) = All (Passed tree dm file) reader.brex_rules
PassedAll reader tree file _ = Unit

-- The file has gone through each layer.
pub record IsAdmitted {Tree : Type 0} (reader : Reader Tree) (file : String) (r : FileResult)
    : Type 0 where
  pub size : ℕ
  pub sized : reader.size file ≡ ok size
  pub within : size ≤ max_file_bytes
  pub tree : Tree
  pub digest : String
  pub parsed : reader.parse_file file ≡ ok (tree, digest)
  pub has_digest : r.digest ≡ some digest
  pub valid : reader.validate tree ≡ true
  pub built : build reader file tree ≡ ok r.model
  pub rules : PassedAll reader tree file r.model

-- What the schema validator documents: a tree that it rejects has an entry in the error log.
abbrev pub LogsErrors : {Tree : Type 0} → Reader Tree → Type 0
LogsErrors {Tree} reader = (tree : Tree) → reader.validate tree ≡ false → reader.error_log tree ≢ []

module _ {Tree : Type 0} (reader : Reader Tree) (file : String) where
  errors-violations :
      (rule : BrexRule Tree) (vs : List Violation)
      → errors (map (violation_finding reader file rule) vs) ≡ []
      → is_error rule.severity ≡ true
      → vs ≡ []
  errors-violations rule [] h e = refl
  errors-violations rule (v ∷ vs) h e = cc (rw e at h)

  rule-Passed :
      (tree : Tree) (dm : DataModule) (rule : BrexRule Tree) (r : Result Exn (List Violation))
      → rule.check tree dm file ≡ r
      → errors (rule_outcome reader file rule r) ≡ []
      → Passed tree dm file rule
  rule-Passed tree dm rule (raise e) q h = cc h
  rule-Passed tree dm rule (ok vs) q h = (vs, q, errors-violations rule vs h)

  brex_passed :
      (tree : Tree) (m : Option AnyModel)
      → errors (brex_findings reader file tree true m) ≡ []
      → PassedAll reader tree file m
  unfolding brex_findings
  brex_passed tree (some (data_module dm)) h =
      All-map _ (Passed tree dm file)
        (λ rule e. rule-Passed tree dm rule (rule.check tree dm file) refl e) reader.brex_rules
        (errors-each
          (λ (rule : BrexRule Tree). rule_outcome reader file rule (rule.check tree dm file))
          reader.brex_rules h)
  brex_passed tree _ h = tt

  schema_passed :
      LogsErrors reader
      → (tree : Tree) → errors (schema_findings reader file tree) ≡ []
      → reader.validate tree ≡ true
  unfolding schema_findings
  schema_passed logs tree h = elim (Bool-cases (reader.validate tree)) [
    | inl y ↦ y
    | inr n ↦ absurd (logged (reader.error_log tree) (logs tree n) (rw n at h))
  ]
    where
      logged :
          (log : List SchemaError)
          → log ≢ []
          → errors (map (λ err. schema_finding reader file err) log) ≡ []
          → ⊥
      logged [] ne e = ne refl
      logged (x ∷ xs) ne e = cc e

  module _ (logs : LogsErrors reader) (size : ℕ) (sized : reader.size file ≡ ok size)
      (within : size ≤ max_file_bytes) (tree : Tree) (digest : String)
      (parsed : reader.parse_file file ≡ ok (tree, digest)) where
    at_build :
        (r : Result Exn (Option AnyModel))
        → build reader file tree ≡ r
        → errors (after_build reader file tree digest r).findings ≡ []
        → IsAdmitted reader file (after_build reader file tree digest r)
    at_build (raise e) q h = cc (errors-append (schema_findings reader file tree) _ h).1
    at_build (ok m) q h =
        let (schema, brex) = errors-append (schema_findings reader file tree) _ h in
        let valid = schema_passed logs tree schema in
        record {
          size = size;
          sized = sized;
          within = within;
          tree = tree;
          digest = digest;
          parsed = parsed;
          has_digest = refl;
          valid = valid;
          built = q;
          rules = brex_passed tree m (rw valid at brex);
        }

  at_parse :
      LogsErrors reader
      → (size : ℕ) → reader.size file ≡ ok size
      → size ≤ max_file_bytes
      → (r : Result Exn (Tree × String)) → reader.parse_file file ≡ r
      → errors (after_parse reader file r).findings ≡ []
      → IsAdmitted reader file (after_parse reader file r)
  at_parse logs size sized within (raise e) q h = cc h
  at_parse logs size sized within (ok (tree, digest)) q h =
      at_build logs size sized within tree digest q (build reader file tree) refl h

  at_size :
      LogsErrors reader
      → (r : Result Exn ℕ) → reader.size file ≡ r
      → errors (after_size reader file r).findings ≡ []
      → IsAdmitted reader file (after_size reader file r)
  at_size logs (raise e) q h = cc h
  at_size logs (ok size) q h = elim (Bool-cases (ltb max_file_bytes size)) [
    | inl y ↦ cc (rw y at h)
    | inr n ↦ rw n (at_parse logs size q (ground arith) (reader.parse_file file) refl (rw n at h))
  ]

-- If a file comes out with no error, then it was within the size cap, it was parsed, the schema
-- accepted it, its model was built (or its name is of no known kind), and for a data module every BREX
-- rule ran to its end, those of error severity with no violation. The schema validator logs an error
-- for each tree that it rejects.
pub process_file-IsAdmitted :
    {Tree : Type 0} (reader : Reader Tree) (file : String)
    → LogsErrors reader
    → errors (process_file reader file).findings ≡ []
    → IsAdmitted reader file (process_file reader file)
unfolding process_file
process_file-IsAdmitted reader file logs h = at_size reader file logs (reader.size file) refl h

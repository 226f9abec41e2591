-- ===== src/Answer/Status.antt =====
-- src/learnarken/citation_status.py: the status of a cited source by the registry of the DMLs. The
-- packages come from `analyze_package`; a basis is a value of `Basis` with what the text interpolates.
pub mod Honest
use learn_arken.Prelude.{
  String, ◌≡◌, Bool, true, false, not, Option, none, some, List, [], ◌∷◌, map, str_eq,
  if◌then◌else◌, Result, ok, raise,
}
use learn_arken.Prelude.Dict
use learn_arken.Prelude.Dict.{Dict}
use learn_arken.Package.Model.{
  code_str, issue_str, IssueInfo, DmlEntry, DataModuleList, PackageModel,
}

pub data State : Type 0 where
  current superseded unregistered unknown : State

pub data Basis : Type 0 where
  basis_current basis_unregistered basis_no_issue : Basis
  basis_superseded : (issue registered : String) → Basis
  basis_unknown : (error : String) → Basis

pub record CitationStatus : Type 0 where
  pub dmc : String
  pub issue : Option String
  pub registered_issue : Option String
  pub state : State
  pub basis : Basis

-- The entry's assignment in the innermost loop.
abbrev register_as : String → Option IssueInfo → Dict String → Dict String
register_as dmc none registered = registered
register_as dmc (some info) registered = Dict.put dmc (issue_str info) registered

unfoldable pub register : DmlEntry → Dict String → Dict String
register e registered = register_as (code_str e.dm_code) e.issue_info registered

unfoldable pub register_entries : List DmlEntry → Dict String → Dict String
register_entries [] registered = registered
register_entries (e ∷ es) registered = register_entries es (register e registered)

unfoldable pub register_dmls : List DataModuleList → Dict String → Dict String
register_dmls [] registered = registered
register_dmls (d ∷ ds) registered = register_dmls ds (register_entries d.entries registered)

unfoldable pub register_packages : List PackageModel → Dict String → Dict String
register_packages [] registered = registered
register_packages (p ∷ ps) registered = register_packages ps (register_dmls p.dmls registered)

abbrev pub registry : List PackageModel → Dict String
registry packages = register_packages packages []

-- `issue or None`
abbrev pub or_none : String → Option String
or_none issue = if str_eq issue "" then none else some issue

abbrev pub unregistered_status : String → String → CitationStatus
unregistered_status dmc issue = record {
  dmc = dmc;
  issue = or_none issue;
  registered_issue = none;
  state = unregistered;
  basis = basis_unregistered;
}

abbrev pub registered_status : String → String → String → CitationStatus
registered_status dmc issue reg =
    if str_eq issue ""
    then record {
      dmc = dmc;
      issue = none;
      registered_issue = some reg;
      state = unknown;
      basis = basis_no_issue;
    }
    else if not (str_eq issue reg)
    then record {
      dmc = dmc;
      issue = some issue;
      registered_issue = some reg;
      state = superseded;
      basis = basis_superseded issue reg;
    }
    else record {
      dmc = dmc;
      issue = or_none issue;
      registered_issue = some reg;
      state = current;
      basis = basis_current;
    }

abbrev pub status_by : String → String → Option String → CitationStatus
status_by dmc issue none = unregistered_status dmc issue
status_by dmc issue (some reg) = registered_status dmc issue reg

unfoldable pub status_in : Dict String → String × String → CitationStatus
status_in registered (dmc, issue) = status_by dmc issue (Dict.get dmc registered)

unfoldable pub unknown_status : String → String × String → CitationStatus
unknown_status error (dmc, issue) = record {
  dmc = dmc;
  issue = or_none issue;
  registered_issue = none;
  state = unknown;
  basis = basis_unknown error;
}

-- The packages of the directories, or the name of the exception that is caught.
unfoldable pub statuses_for :
    List (String × String) → Result String (List PackageModel) → List CitationStatus
statuses_for cited (raise error) = map (unknown_status error) cited
statuses_for cited (ok packages) = map (status_in (registry packages)) cited

-- ===== src/Validation/Identity.antt =====
-- `_resolve_dm_identities` of src/learnarken/validation/engine.py: one module for each data module
-- code, the newest of those that claim it, and the findings on the rest.
pub mod Groups
pub mod Newest
pub mod Conflicts
use learn_arken.Prelude.{
  ℕ, String, ◌≡◌, Bool, true, false, ◌&&◌, ◌||◌, Option, none, some, List, [], ◌∷◌, ◌++◌, map,
  str_eq, if◌then◌else◌, elem, any,
}
use learn_arken.Prelude.Dict
use learn_arken.Prelude.Dict.{Dict}
use learn_arken.Prelude.Sort.{sort}
use learn_arken.Package.Model.{DataModule, IssueInfo, issue_str, dmc}
use learn_arken.Validation.Report.{Finding, error, warning, l3_crossfile, same_issue, superseded}
use learn_arken.Validation.Issue.{issue_key, key_le, key_lt}

abbrev pub older_first : DataModule → DataModule → Bool
older_first a b = key_le (issue_key a) (issue_key b)

-- A non-empty list, as the entries of one code are.
pub record Group : Type 0 where
  pub first : DataModule
  pub others : List DataModule

abbrev pub entries : Group → List DataModule
entries g = g.first ∷ g.others

-- `by_dmc.setdefault(dm.dmc, []).append(dm)`
abbrev add_to : DataModule → Option Group → Group
add_to dm none = record { first = dm; others = [] }
add_to dm (some g) = record { first = g.first; others = g.others ++ dm ∷ [] }

unfoldable pub group_into : Dict Group → List DataModule → Dict Group
group_into groups [] = groups
group_into groups (dm ∷ rest) =
    group_into (Dict.put (dmc dm) (add_to dm (Dict.get (dmc dm) groups)) groups) rest

unfoldable pub by_dmc : List DataModule → Dict Group
unfolding group_into
by_dmc dms = group_into [] dms

-- The issues of two modules, if both have one and these read the same.
abbrev pub shared_issue : Option IssueInfo → Option IssueInfo → Option String
shared_issue (some i) (some j) =
    if str_eq (issue_str i) (issue_str j) then some (issue_str j) else none
shared_issue _ _ = none

abbrev conflict : (code : String) (earlier later : DataModule) → String → Finding
conflict code earlier later issue = record {
  rule_id = "XREF-006";
  layer = l3_crossfile;
  severity = error;
  file = later.file;
  line = none;
  path = none;
  message = same_issue code earlier.file later.file issue;
}

abbrev report_pair : String → DataModule → DataModule → Option String → List Finding → List Finding
report_pair code earlier later none rest = rest
report_pair code earlier later (some issue) rest = conflict code earlier later issue ∷ rest

-- The loop over the neighbours of the sorted entries.
unfoldable pub conflicts : String → List DataModule → List Finding
conflicts code [] = []
conflicts code (dm ∷ []) = []
conflicts code (earlier ∷ later ∷ rest) =
    report_pair code earlier later (shared_issue earlier.issue_info later.issue_info)
      (conflicts code (later ∷ rest))

abbrev pub last : DataModule → List DataModule → DataModule
last d [] = d
last d (x ∷ xs) = last x xs

abbrev issue_or_mark : Option IssueInfo → String
issue_or_mark none = "?"
issue_or_mark (some i) = issue_str i

abbrev superseding : String → DataModule → List DataModule → Finding
superseding code newest sorted = record {
  rule_id = "XREF-007";
  layer = l3_crossfile;
  severity = warning;
  file = newest.file;
  line = none;
  path = none;
  message = superseded code (map (λ (e : DataModule). (e.file, issue_or_mark e.issue_info)) sorted);
}

abbrev report_superseded : String → List DataModule → List Finding
report_superseded code [] = []
report_superseded code (oldest ∷ rest) =
    let newest = last oldest rest in
    if key_lt (issue_key oldest) (issue_key newest)
    then superseding code newest (oldest ∷ rest) ∷ []
    else []

-- One code: the module that the index gets, and the findings.
unfoldable pub resolve :
    (code : String) (first : DataModule) (others : List DataModule) → DataModule × List Finding
unfolding conflicts
resolve code first [] = (first, [])
resolve code first (x ∷ xs) =
    let sorted = sort older_first (first ∷ x ∷ xs) in
    (last first sorted, conflicts code sorted ++ report_superseded code sorted)

abbrev pub Index : Type 0
Index = Dict DataModule

unfoldable pub resolve_groups : Dict Group → Index × List Finding
resolve_groups [] = ([], [])
resolve_groups ((code, g) ∷ rest) =
    let (newest, found) = resolve code g.first g.others in
    let (index, more) = resolve_groups rest in ((code, newest) ∷ index, found ++ more)

unfoldable pub files_of : Index → Dict String
files_of [] = []
files_of ((code, dm) ∷ rest) = (code, dm.file) ∷ files_of rest

pub record Identities : Type 0 where
  pub dm_index : Index
  pub dm_files : Dict String
  pub findings : List Finding

unfoldable pub resolve_dm_identities : List DataModule → Identities
unfolding by_dmc resolve_groups files_of resolve
resolve_dm_identities dms =
    let (index, found) = resolve_groups (by_dmc dms) in
    record { dm_index = index; dm_files = files_of index; findings = found }

-- ===== src/Gaps.antt =====
-- src/learnarken/gaps.py: the modules that a corpus declares and does not have. A package comes with
-- whether the validator found no error in it, and with its map of owners.
pub mod Declared
pub mod Missing
pub mod Refusal
mod Samples
use learn_arken.Prelude.{
  String, Bool, true, false, Option, none, some, List, [], ◌∷◌, ◌++◌, map, filter, elem, is_none,
  if◌then◌else◌,
}
use learn_arken.Package.Model.{
  DataModule, PublicationModule, DataModuleList, DmRef, DmlEntry, PackageModel, code_str, dmc,
}

pub data GapKind : Type 0 where
  admitted_declared_missing pre_admission_declared_missing : GapKind

pub data Via : Type 0 where
  dm_ref dml_registration : Via

pub record OwnerRef : Type 0 where
  pub owner : Option String
  pub reason : Option String
  pub source : String

pub record Gap : Type 0 where
  pub signature : String
  pub kind : GapKind
  pub declared_by : String
  pub declared_in_package : String
  pub detected_via : Via
  pub owner : Option String
  pub owner_reason : Option String
  pub owner_source : Option String

pub record Loaded : Type 0 where
  pub directory : String
  pub package_model : PackageModel
  pub admitted : Bool
  pub resolve_owner : String → OwnerRef

pub record GapReport : Type 0 where
  pub admitted_packages : List String
  pub rejected_packages : List String
  pub gaps : List Gap

abbrev pub is_admitted : GapKind → Bool
is_admitted admitted_declared_missing = true
is_admitted pre_admission_declared_missing = false

abbrev pub is_pre_admission : GapKind → Bool
is_pre_admission admitted_declared_missing = false
is_pre_admission pre_admission_declared_missing = true

unfoldable pub admitted_gaps : GapReport → List Gap
admitted_gaps r = filter (λ (g : Gap). is_admitted g.kind) r.gaps

unfoldable pub pre_admission_gaps : GapReport → List Gap
pre_admission_gaps r = filter (λ (g : Gap). is_pre_admission g.kind) r.gaps

pub record Declaration : Type 0 where
  pub target : String
  pub declared_by : String
  pub via : Via

abbrev pub refs_of : String → List DmRef → List Declaration
refs_of file refs =
    map (λ (r : DmRef). record { target = code_str r.dm_code; declared_by = file; via = dm_ref })
      refs

abbrev pub registrations_of : String → List DmlEntry → List Declaration
registrations_of file es =
    map
      (λ (e : DmlEntry). record {
        target = code_str e.dm_code;
        declared_by = file;
        via = dml_registration;
      })
      es

abbrev pub flatten : List (List Declaration) → List Declaration
flatten [] = []
flatten (ds ∷ rest) = ds ++ flatten rest

unfoldable pub declarations : PackageModel → List Declaration
declarations p =
    flatten (map (λ (dm : DataModule). refs_of dm.file dm.dm_refs) p.data_modules)
    ++ (flatten (map (λ (pm : PublicationModule). refs_of pm.file pm.dm_refs) p.publication_modules)
        ++ flatten (map (λ (l : DataModuleList). registrations_of l.file l.entries) p.dmls))

abbrev pub present_in : Loaded → List String
present_in l = map dmc l.package_model.data_modules

-- The union over the admitted packages.
unfoldable pub admitted_dmcs : List Loaded → List String
admitted_dmcs [] = []
admitted_dmcs (l ∷ ls) =
    let rest = admitted_dmcs ls in if l.admitted then present_in l ++ rest else rest

unfoldable pub known_to : List String → Loaded → List String
known_to dmcs l = if l.admitted then dmcs ++ present_in l else present_in l

abbrev pub gap_of : Loaded → Declaration → Gap
gap_of l d = record {
  signature = d.target;
  kind = if l.admitted then admitted_declared_missing else pre_admission_declared_missing;
  declared_by = d.declared_by;
  declared_in_package = l.directory;
  detected_via = d.via;
  owner = (l.resolve_owner d.target).owner;
  owner_reason = (l.resolve_owner d.target).reason;
  owner_source =
      if is_none (l.resolve_owner d.target).owner
      then none
      else some (l.resolve_owner d.target).source;
}

unfoldable pub gaps_in : List String → Loaded → List Declaration → List Gap
gaps_in known l [] = []
gaps_in known l (d ∷ ds) =
    let rest = gaps_in known l ds in if elem d.target known then rest else gap_of l d ∷ rest

unfoldable pub gaps_over : List String → List Loaded → List Gap
gaps_over dmcs [] = []
gaps_over dmcs (l ∷ ls) =
    gaps_in (known_to dmcs l) l (declarations l.package_model) ++ gaps_over dmcs ls

abbrev pub directories : Bool → List Loaded → List String
directories wanted [] = []
directories true (l ∷ ls) =
    let rest = directories true ls in if l.admitted then l.directory ∷ rest else rest
directories false (l ∷ ls) =
    let rest = directories false ls in if l.admitted then rest else l.directory ∷ rest

unfoldable pub collect_gaps : List Loaded → GapReport
collect_gaps loaded = record {
  admitted_packages = directories true loaded;
  rejected_packages = directories false loaded;
  gaps = gaps_over (admitted_dmcs loaded) loaded;
}

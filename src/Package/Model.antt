-- ===== src/Package/Model.antt =====
-- src/learnarken/models.py: the classes that the validator and the answer path read.
use learn_arken.Prelude.{ℕ, String, Option, List, ◌⧺◌}
use mathlib.Core.List.{[], ◌∷◌}

pub record DmCode : Type 0 where
  pub model_ident_code : String
  pub system_diff_code : String
  pub system_code : String
  pub sub_system_code : String
  pub sub_sub_system_code : String
  pub assy_code : String
  pub disassy_code : String
  pub disassy_code_variant : String
  pub info_code : String
  pub info_code_variant : String
  pub item_location_code : String

-- `"-".join(parts)`
unfoldable pub join_dash : List String → String
join_dash [] = ""
join_dash (s ∷ []) = s
join_dash (s ∷ t ∷ r) = s ⧺ "-" ⧺ join_dash (t ∷ r)

-- The data module code as text: the identity of a module.
unfoldable pub code_str : DmCode → String
unfolding join_dash
code_str c =
    "DMC-"
    ⧺ join_dash (
        c.model_ident_code
        ∷ c.system_diff_code
        ∷ c.system_code
        ∷ c.sub_system_code ⧺ c.sub_sub_system_code
        ∷ c.assy_code
        ∷ c.disassy_code ⧺ c.disassy_code_variant
        ∷ c.info_code ⧺ c.info_code_variant
        ∷ c.item_location_code
        ∷ [])

pub record IssueInfo : Type 0 where
  pub issue_number : String
  pub in_work : String

unfoldable pub issue_str : IssueInfo → String
issue_str i = i.issue_number ⧺ "-" ⧺ i.in_work

pub data ContentType : Type 0 where
  descriptive procedural fault_isolation ipd unknown : ContentType

pub record ApplicAssertion : Type 0 where
  pub property_ident : String
  pub property_type : String
  pub values : String

pub record Applicability : Type 0 where
  pub display_text : String
  pub assertions : List ApplicAssertion

pub record ExtensionDates : Type 0 where
  pub effective_date : Option ℕ
  pub expiry_date : Option ℕ

pub record DmRef : Type 0 where
  pub dm_code : DmCode
  pub issue_info : Option IssueInfo
  pub line : Option ℕ

pub record IcnRef : Type 0 where
  pub ident : String
  pub line : Option ℕ

pub record DataModule : Type 0 where
  pub file : String
  pub dm_code : DmCode
  pub issue_info : Option IssueInfo
  pub tech_name : String
  pub info_name : String
  pub security_classification : Option String
  pub applicability : Option Applicability
  pub extension : Option ExtensionDates
  pub content_type : ContentType
  pub steps : ℕ
  pub warnings : ℕ
  pub cautions : ℕ
  pub dm_refs : List DmRef
  pub icn_refs : List IcnRef

unfoldable pub dmc : DataModule → String
dmc dm = code_str dm.dm_code

pub record PublicationModule : Type 0 where
  pub file : String
  pub issue_info : Option IssueInfo
  pub dm_refs : List DmRef

pub record DmlEntry : Type 0 where
  pub dm_code : DmCode
  pub issue_info : Option IssueInfo
  pub line : Option ℕ

pub record DataModuleList : Type 0 where
  pub file : String
  pub issue_info : Option IssueInfo
  pub entries : List DmlEntry

pub record PackageModel : Type 0 where
  pub path : String
  pub data_modules : List DataModule
  pub publication_modules : List PublicationModule
  pub dmls : List DataModuleList
  pub icn_idents : List String

-- What `isinstance` tells apart.
pub data AnyModel : Type 0 where
  data_module : DataModule → AnyModel
  publication_module : PublicationModule → AnyModel
  data_module_list : DataModuleList → AnyModel

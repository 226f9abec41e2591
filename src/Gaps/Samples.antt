-- ===== src/Gaps/Samples.antt =====
-- An admitted package that refers to a module it lacks, and a question that names this module.
use mathlib.Core.List.{Memᴰ}
use learn_arken.Prelude.{refl, String, true, none, some, List, [], ◌∷◌, map, All, ok}
use learn_arken.Package.Model.{DmCode, DataModule, descriptive, code_str, dmc}
use learn_arken.Gaps.{admitted_dmcs, dm_ref, Declaration, Loaded, gap_of, collect_gaps}
use learn_arken.Gaps.Declared.{Declares, absent-HasModule, absent-IsAdmitted}
use learn_arken.Gaps.Missing.{IsGap, collect_gaps-IsGap, mem-collect_gaps}
use learn_arken.Gaps.Refusal.{route}
use learn_arken.Gaps.Refusal.Routed.{IsRouted, route-IsRouted}

abbrev code_of : String → DmCode
code_of system = record {
  model_ident_code = "LA100";
  system_diff_code = "A";
  system_code = system;
  sub_system_code = "0";
  sub_sub_system_code = "0";
  assy_code = "00";
  disassy_code = "00";
  disassy_code_variant = "A";
  info_code = "040";
  info_code_variant = "A";
  item_location_code = "A";
}

abbrev referring : DataModule
referring = record {
  file = "DMC-29.xml";
  dm_code = code_of "29";
  issue_info = none;
  tech_name = "Hydraulics";
  info_name = "Description";
  security_classification = some "01";
  applicability = none;
  extension = none;
  content_type = descriptive;
  steps = 0;
  warnings = 0;
  cautions = 0;
  dm_refs = record { dm_code = code_of "49"; issue_info = none; line = some 7 } ∷ [];
  icn_refs = [];
}

abbrev package_a : Loaded
package_a = record {
  directory = "samples/package-a";
  package_model = record {
    path = "samples/package-a";
    data_modules = referring ∷ [];
    publication_modules = [];
    dmls = [];
    icn_idents = [];
  };
  admitted = true;
  resolve_owner = λ c. record { owner = some "APU team"; reason = none; source = "owners.json" };
}

abbrev loaded : List Loaded
loaded = package_a ∷ []

collect_gaps-IsGap_example : All (IsGap loaded) (collect_gaps loaded).gaps
collect_gaps-IsGap_example = collect_gaps-IsGap loaded

abbrev apu : String
apu = "DMC-LA100-A-49-00-00-00A-040A-A"

route-IsRouted_example :
    IsRouted
      (λ s. s)
      (map (λ s. s) (apu ∷ []))
      (some (ok (collect_gaps loaded)))
      (route (λ s. s) (λ s. s ∷ []) apu "threshold" (some (ok (collect_gaps loaded))))
route-IsRouted_example =
    route-IsRouted (λ s. s) (λ s. s ∷ []) apu "threshold" (some (ok (collect_gaps loaded)))

abbrev dangling : Declaration
dangling = record { target = apu; declared_by = "DMC-29.xml"; via = dm_ref }

mem-collect_gaps_example : Memᴰ (gap_of package_a dangling) (collect_gaps loaded).gaps
unfolding code_str dmc admitted_dmcs
mem-collect_gaps_example =
    mem-collect_gaps loaded package_a dangling (Memᴰ.head refl)
      (Declares.by_data_module (Memᴰ.head refl) (Memᴰ.head refl))
      (absent-HasModule package_a apu refl) (absent-IsAdmitted loaded apu refl)

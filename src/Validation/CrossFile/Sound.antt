-- ===== src/Validation/CrossFile/Sound.antt =====
-- A package without cross-file errors has referential integrity.
use learn_arken.Prelude.{
  String, ◌≡◌, refl, Bool, true, false, some, List, [], ◌∷◌, ◌++◌, filter, str_eq, eq_iff, elem,
  All, All-map, Bool-cases, inl, inr,
}
use learn_arken.Prelude.Dict.{Dict, get}
use learn_arken.Package.Model.{
  DataModule, DataModuleList, DmlEntry, DmRef, IcnRef, IssueInfo, PackageModel, PublicationModule,
  code_str, issue_str,
}
use learn_arken.Validation.Report.{Finding, is_error}
use learn_arken.Validation.Identity.{Index}
use learn_arken.Validation.CrossFile.{
  each, unless, indexed_code, check_ref, check_icn, check_registration, check_issue, check_domain,
  ref_findings, icn_findings, registration_findings, issue_findings, crossfile_findings, Graph,
}

abbrev pub errors : List Finding → List Finding
errors fs = filter (λ (f : Finding). is_error f.severity) fs

pub errors-append :
    (xs ys : List Finding) → errors (xs ++ ys) ≡ [] → (errors xs ≡ []) × (errors ys ≡ [])
errors-append [] ys h = (refl, h)
errors-append (x ∷ xs) ys h = elim (Bool-cases (is_error x.severity)) [
  | inl y ↦ cc (rw y at h)
  | inr n ↦ rw n (errors-append xs ys (rw n at h))
]

-- A loop reports no error exactly if no round does.
pub errors-each :
    {A : Type 0} (f : A → List Finding) (xs : List A)
    → errors (each f xs) ≡ []
    → All (λ x. errors (f x) ≡ []) xs
errors-each f [] h = tt
errors-each f (x ∷ xs) h =
    let (here, later) = errors-append (f x) (each f xs) h in (here, errors-each f xs later)

errors-unless :
    (b : Bool) (f : Finding) → is_error f.severity ≡ true → errors (unless b f) ≡ [] → b ≡ true
errors-unless true f e h = refl
errors-unless false f e h = cc (rw e at h)

errors-each_each :
    {A B : Type 0} (f : A → B → List Finding) (items : A → List B) (P : A → B → Type 0)
    (xs : List A)
    → ((x : A) (y : B) → errors (f x y) ≡ [] → P x y)
    → errors (each (λ x. each (f x) (items x)) xs) ≡ []
    → All (λ x. All (P x) (items x)) xs
errors-each_each f items P xs one h =
    All-map (λ x. errors (each (f x) (items x)) ≡ []) (λ x. All (P x) (items x))
      (λ x e.
        All-map (λ y. errors (f x y) ≡ []) (P x) (one x) (items x) (errors-each (f x) (items x) e))
      xs (errors-each (λ x. each (f x) (items x)) xs h)

-- The registered issue of an entry is that of the module in the index, where both are there.
abbrev pub IssueAgrees : Index → DmlEntry → Type 0
IssueAgrees index entry =
    (dm : DataModule) (claimed registered : IssueInfo)
    → get (code_str entry.dm_code) index ≡ some dm
    → dm.issue_info ≡ some claimed
    → entry.issue_info ≡ some registered
    → issue_str claimed ≡ issue_str registered

-- What holds of a package whose cross-file checks found no error.
pub record IsConsistent (p : PackageModel) (index : Index) (accepted : List String) : Type 0 where
  pub dm_refs :
      All
        (λ (dm : DataModule). All (λ r. indexed_code index (code_str r.dm_code) ≡ true) dm.dm_refs)
        p.data_modules
  pub pm_refs :
      All
        (λ (pm : PublicationModule).
          All (λ r. indexed_code index (code_str r.dm_code) ≡ true) pm.dm_refs)
        p.publication_modules
  pub icn_refs :
      All
        (λ (dm : DataModule). All (λ r. elem r.ident p.icn_idents ≡ true) dm.icn_refs)
        p.data_modules
  pub registrations :
      All
        (λ (l : DataModuleList).
          All (λ e. indexed_code index (code_str e.dm_code) ≡ true) l.entries)
        p.dmls
  pub issues : All (λ (l : DataModuleList). All (IssueAgrees index) l.entries) p.dmls
  pub domain :
      All (λ (dm : DataModule). elem dm.dm_code.model_ident_code accepted ≡ true) p.data_modules

check_issue-none :
    (index : Index) (file : String) (e : DmlEntry)
    → errors (check_issue index file e) ≡ []
    → IssueAgrees index e
unfolding check_issue
check_issue-none index file e h dm claimed registered found a b = (eq_iff _ _).0 (
    errors-unless (str_eq (issue_str claimed) (issue_str registered)) _ refl
      (rw (found, a, b) at h))

module _ (index : Index) (file : String) where
  check_ref-none :
      (r : DmRef)
      → errors (check_ref index file r) ≡ []
      → indexed_code index (code_str r.dm_code) ≡ true
  unfolding check_ref
  check_ref-none r h = errors-unless (indexed_code index (code_str r.dm_code)) _ refl h

  check_registration-none :
      (e : DmlEntry)
      → errors (check_registration index file e) ≡ []
      → indexed_code index (code_str e.dm_code) ≡ true
  unfolding check_registration
  check_registration-none e h = errors-unless (indexed_code index (code_str e.dm_code)) _ refl h

check_icn-none :
    (icns : List String) (file : String) (r : IcnRef)
    → errors (check_icn icns file r) ≡ []
    → elem r.ident icns ≡ true
unfolding check_icn
check_icn-none icns file r h = errors-unless (elem r.ident icns) _ refl h

check_domain-none :
    (accepted : List String) (dm : DataModule)
    → errors (check_domain accepted dm) ≡ []
    → elem dm.dm_code.model_ident_code accepted ≡ true
unfolding check_domain
check_domain-none accepted dm h = errors-unless (elem dm.dm_code.model_ident_code accepted) _ refl h

-- If the cross-file checks report no error, then every reference of a data module or a publication
-- module and every registration of a DML names a module of the index, every figure reference names an
-- ICN of the package, a module and its registration that both carry an issue carry the same, and every
-- data module is of an accepted model.
pub no_errors-IsConsistent :
    (find_cycles : Graph → List (List String)) (p : PackageModel) (index : Index)
    (dm_files : Dict String) (accepted : List String)
    → errors (crossfile_findings find_cycles p index dm_files accepted) ≡ []
    → IsConsistent p index accepted
unfolding crossfile_findings ref_findings icn_findings registration_findings issue_findings
no_errors-IsConsistent find_cycles p index dm_files accepted h =
    let (refs, h1) = errors-append (ref_findings p index) _ h in
    let (icns, h2) = errors-append (icn_findings p) _ h1 in
    let (regs, h3) = errors-append (registration_findings p index) _ h2 in
    let (issues, h4) = errors-append (issue_findings p index) _ h3 in
    let (domain, _) = errors-append (each (check_domain accepted) p.data_modules) _ h4 in
    let (dms, pms) =
      errors-append
        (each (λ (dm : DataModule). each (check_ref index dm.file) dm.dm_refs) p.data_modules) _
        refs in
    record {
      dm_refs =
          errors-each_each (λ (dm : DataModule). check_ref index dm.file) (λ dm. dm.dm_refs) _
            p.data_modules (λ dm. check_ref-none index dm.file) dms;
      pm_refs =
          errors-each_each (λ (pm : PublicationModule). check_ref index pm.file) (λ pm. pm.dm_refs)
            _ p.publication_modules (λ pm. check_ref-none index pm.file) pms;
      icn_refs =
          errors-each_each (λ (dm : DataModule). check_icn p.icn_idents dm.file) (λ dm. dm.icn_refs)
            _ p.data_modules (λ dm. check_icn-none p.icn_idents dm.file) icns;
      registrations =
          errors-each_each (λ (l : DataModuleList). check_registration index l.file)
            (λ l. l.entries) _ p.dmls (λ l. check_registration-none index l.file) regs;
      issues =
          errors-each_each (λ (l : DataModuleList). check_issue index l.file) (λ l. l.entries) _
            p.dmls (λ l. check_issue-none index l.file) issues;
      domain =
          All-map (λ (dm : DataModule). errors (check_domain accepted dm) ≡ []) _
            (check_domain-none accepted) p.data_modules
            (errors-each (check_domain accepted) p.data_modules domain);
    }

-- ===== src/Answer/Status/Honest.antt =====
-- src/learnarken/citation_status.py calls a source current only on the word of a DML.
use mathlib.Core.List.{Memᴰ}
use learn_arken.Prelude.{
  String, ◌≡◌, ◌≢◌, ◌⊎◌, inl, inr, refl, sym, ap, ◌∙◌, Option, none, some, List, [], ◌∷◌, str_eq,
  eq_iff, Bool-cases, some_injective, Result, ok, raise,
}
use learn_arken.Prelude.Dict
use learn_arken.Prelude.Dict.{Dict}
use learn_arken.Package.Model.{
  code_str, issue_str, IssueInfo, DmlEntry, DataModuleList, PackageModel,
}
use learn_arken.Answer.Status.{
  current, superseded, unknown, CitationStatus, register_as, register, register_entries,
  register_dmls, register_packages, registry, status_by, status_in, unknown_status, statuses_for,
}

-- Some DML of the packages registers the module with this issue.
pub record IsRegistered (packages : List PackageModel) (dmc issue : String) : Type 0 where
  pub package_model : PackageModel
  pub dml : DataModuleList
  pub entry : DmlEntry
  pub info : IssueInfo
  pub in_packages : Memᴰ package_model packages
  pub in_dmls : Memᴰ dml package_model.dmls
  pub in_entries : Memᴰ entry dml.entries
  pub named : code_str entry.dm_code ≡ dmc
  pub stated : entry.issue_info ≡ some info
  pub same_issue : issue_str info ≡ issue

abbrev InEntry : DmlEntry → String → String → Type 0
InEntry e dmc issue =
    (code_str e.dm_code ≡ dmc)
    × ((info : IssueInfo) × (e.issue_info ≡ some info) × (issue_str info ≡ issue))

abbrev InEntries : List DmlEntry → String → String → Type 0
InEntries es dmc issue = (e : DmlEntry) × Memᴰ e es × InEntry e dmc issue

abbrev InDmls : List DataModuleList → String → String → Type 0
InDmls ds dmc issue = (d : DataModuleList) × Memᴰ d ds × InEntries d.entries dmc issue

module _ (dmc issue : String) where
  register-get :
      (e : DmlEntry) (o : Option IssueInfo) (registered : Dict String)
      → e.issue_info ≡ o
      → Dict.get dmc (register_as (code_str e.dm_code) o registered) ≡ some issue
      → (Dict.get dmc registered ≡ some issue) ⊎ InEntry e dmc issue
  register-get e none registered s h = inl h
  register-get e (some info) registered s h =
      let found = sym (Dict.get-put (code_str e.dm_code) dmc (issue_str info) registered) ∙ h in
      elim (Bool-cases (str_eq (code_str e.dm_code) dmc)) [
        | inl y ↦
            inr ((eq_iff (code_str e.dm_code) dmc).0 y, (info, s, some_injective (rw y at found)))
        | inr n ↦ inl (rw n at found)
      ]

  register_entries-get :
      (es : List DmlEntry) (registered : Dict String)
      → Dict.get dmc (register_entries es registered) ≡ some issue
      → (Dict.get dmc registered ≡ some issue) ⊎ InEntries es dmc issue
  unfolding register_entries register
  register_entries-get [] registered h = inl h
  register_entries-get (e ∷ es) registered h =
      elim (register_entries-get es (register e registered) h) [
        | inr (x, m, i) ↦ inr (x, Memᴰ.tail m, i)
        | inl g ↦ elim (register-get e e.issue_info registered refl g) [
          | inl old ↦ inl old
          | inr i ↦ inr (e, Memᴰ.head refl, i)
        ]
      ]

  register_dmls-get :
      (ds : List DataModuleList) (registered : Dict String)
      → Dict.get dmc (register_dmls ds registered) ≡ some issue
      → (Dict.get dmc registered ≡ some issue) ⊎ InDmls ds dmc issue
  unfolding register_dmls
  register_dmls-get [] registered h = inl h
  register_dmls-get (d ∷ ds) registered h =
      elim (register_dmls-get ds (register_entries d.entries registered) h) [
        | inr (x, m, i) ↦ inr (x, Memᴰ.tail m, i)
        | inl g ↦ elim (register_entries-get d.entries registered g) [
          | inl old ↦ inl old
          | inr i ↦ inr (d, Memᴰ.head refl, i)
        ]
      ]

  register_packages-get :
      (ps : List PackageModel) (registered : Dict String)
      → Dict.get dmc (register_packages ps registered) ≡ some issue
      → (Dict.get dmc registered ≡ some issue)
        ⊎ ((p : PackageModel) × Memᴰ p ps × InDmls p.dmls dmc issue)
  unfolding register_packages
  register_packages-get [] registered h = inl h
  register_packages-get (p ∷ ps) registered h =
      elim (register_packages-get ps (register_dmls p.dmls registered) h) [
        | inr (x, m, i) ↦ inr (x, Memᴰ.tail m, i)
        | inl g ↦ elim (register_dmls-get p.dmls registered g) [
          | inl old ↦ inl old
          | inr i ↦ inr (p, Memᴰ.head refl, i)
        ]
      ]

  registry-IsRegistered :
      (ps : List PackageModel) → Dict.get dmc (registry ps) ≡ some issue → IsRegistered ps dmc issue
  unfolding Dict.get
  registry-IsRegistered ps h = elim (register_packages-get ps [] h) [
    | inl g ↦ absurd (cc g)
    | inr (p, mp, (d, md, (e, me, (named, (info, stated, same))))) ↦ record {
      package_model = p;
      dml = d;
      entry = e;
      info = info;
      in_packages = mp;
      in_dmls = md;
      in_entries = me;
      named = named;
      stated = stated;
      same_issue = same;
    }
  ]

-- The status of one citation. It claims to be current only if the citation has an issue and a DML registers the cited
-- module with that very issue, and superseded only if a DML registers it with another one.
abbrev pub IsHonest : Result String (List PackageModel) → String → String → CitationStatus → Type 0
IsHonest (raise error) dmc issue s = (s.dmc ≡ dmc) × (s.state ≡ unknown)
IsHonest (ok packages) dmc issue s =
    (s.dmc ≡ dmc)
    × ((s.state ≢ current)
        ⊎ ((issue ≢ "")
            × (s.issue ≡ some issue)
            × (s.registered_issue ≡ some issue)
            × IsRegistered packages dmc issue))
    × ((s.state ≢ superseded)
        ⊎ ((registered : String) × (issue ≢ "")
            × (issue ≢ registered)
            × (s.registered_issue ≡ some registered)
            × IsRegistered packages dmc registered))

status-IsHonest :
    (packages : List PackageModel) (dmc issue : String) (o : Option String)
    → Dict.get dmc (registry packages) ≡ o
    → IsHonest (ok packages) dmc issue (status_by dmc issue o)
status-IsHonest packages dmc issue none h = (refl, inl (λ e. cc), inl (λ e. cc))
status-IsHonest packages dmc issue (some reg) h = elim (Bool-cases (str_eq issue "")) [
  | inl y ↦ rw y (refl, inl (λ e. cc), inl (λ e. cc))
  | inr n ↦ elim (Bool-cases (str_eq issue reg)) [
    | inr m ↦
        rw (n, m)
          (
            refl,
            inl (λ e. cc),
            inr (
              reg,
              (λ z. cc (n, (eq_iff issue "").1 z)),
              (λ z. cc (m, (eq_iff issue reg).1 z)),
              refl,
              registry-IsRegistered dmc reg packages h,
            ),
          )
    | inl s ↦
        let same : issue ≡ reg = (eq_iff issue reg).0 s in
        rw (n, s)
          (
            refl,
            inr (
              (λ z. cc (n, (eq_iff issue "").1 z)),
              refl,
              ap (λ r. some r) (sym same),
              registry-IsRegistered dmc issue packages (h ∙ ap (λ r. some r) (sym same)),
            ),
            inl (λ e. cc),
          )
  ]
]

-- One status for each citation, in order.
abbrev pub AreHonest :
    Result String (List PackageModel) → List (String × String) → List CitationStatus → Type 0
AreHonest packages [] [] = Unit
AreHonest packages ((dmc, issue) ∷ cited) (s ∷ statuses) =
    IsHonest packages dmc issue s × AreHonest packages cited statuses
AreHonest packages _ _ = ⊥

-- Each citation gets one status, of its module, in order. If the packages cannot be loaded, every status is unknown. Else
-- a status is current only if its citation has an issue, the status reports this issue as the citation's and as the
-- registered one, and a DML of some package registers the cited module with it; and it is superseded only if its citation
-- has an issue, the status reports another as the registered one, and a DML of some package registers the cited module
-- with that other issue.
pub statuses_for-IsHonest :
    (cited : List (String × String)) (packages : Result String (List PackageModel))
    → AreHonest packages cited (statuses_for cited packages)
unfolding statuses_for status_in unknown_status
statuses_for-IsHonest [] (raise error) = tt
statuses_for-IsHonest [] (ok packages) = tt
statuses_for-IsHonest ((dmc, issue) ∷ cited) (raise error) =
    ((refl, refl), statuses_for-IsHonest cited (raise error))
statuses_for-IsHonest ((dmc, issue) ∷ cited) (ok packages) = (
  status-IsHonest packages dmc issue (Dict.get dmc (registry packages)) refl,
  statuses_for-IsHonest cited (ok packages),
)

-- ===== src/Gaps/Declared.antt =====
-- What the packages of src/learnarken/gaps.py declare and have, apart from the lists that the code collects.
use mathlib.Core.List.{Memᴰ}
use mathlib.Core.List.Memᴰ
use learn_arken.Prelude.{
  map, All-map, str_eq, eq_iff, sym, ap, subst, ◌∙◌, All-mem, String, ◌≡◌, inl, inr, refl, true,
  false, ◌||◌, List, [], ◌∷◌, ◌++◌, elem, All, All-append, arith, Bool-cases,
}
use learn_arken.Package.Model.{
  DataModule, PublicationModule, DataModuleList, DmRef, DmlEntry, PackageModel, code_str, dmc,
}
use learn_arken.Gaps.{
  dm_ref, dml_registration, refs_of, registrations_of, flatten, Loaded, Declaration, declarations,
  present_in, admitted_dmcs,
}

pub elem-append : (s : String) (xs ys : List String) → elem s (xs ++ ys) ≡ (elem s xs || elem s ys)
elem-append s [] ys = refl
elem-append s (x ∷ xs) ys = ground (arith, elem-append s xs ys)

-- The data modules of a package include one of this code.
abbrev pub HasModule : Loaded → String → Type 0
HasModule l code = (dm : DataModule) × Memᴰ dm l.package_model.data_modules × (dmc dm ≡ code)

-- What a package may declare: a reference of one of its data modules or publication modules, or an entry of one of its
-- lists.
pub data Declares (p : PackageModel) : Declaration → Type 0 where
  by_data_module :
      {dm : DataModule} {r : DmRef}
      → Memᴰ dm p.data_modules
      → Memᴰ r dm.dm_refs
      → Declares p (record { target = code_str r.dm_code; declared_by = dm.file; via = dm_ref })
  by_publication_module :
      {pm : PublicationModule} {r : DmRef}
      → Memᴰ pm p.publication_modules
      → Memᴰ r pm.dm_refs
      → Declares p (record { target = code_str r.dm_code; declared_by = pm.file; via = dm_ref })
  by_list :
      {l : DataModuleList} {e : DmlEntry}
      → Memᴰ l p.dmls
      → Memᴰ e l.entries
      → Declares p
          (record { target = code_str e.dm_code; declared_by = l.file; via = dml_registration })

module _ {X : Type 0} where
  All-map_of :
      (P : Declaration → Type 0) (g : X → Declaration) (xs : List X)
      → All (λ x. P (g x)) xs
      → All P (map g xs)
  All-map_of P g [] h = tt
  All-map_of P g (x ∷ xs) h = (h.0, All-map_of P g xs h.1)

  All-flatten :
      (P : Declaration → Type 0) (f : X → List Declaration) (xs : List X)
      → All (λ x. All P (f x)) xs
      → All P (flatten (map f xs))
  All-flatten P f [] h = tt
  All-flatten P f (x ∷ xs) h = All-append P (f x) (flatten (map f xs)) h.0 (All-flatten P f xs h.1)

  mem-map_of : (g : X → Declaration) {x : X} (xs : List X) → Memᴰ x xs → Memᴰ (g x) (map g xs)
  mem-map_of g [] m = elim m [ ]
  mem-map_of g (y ∷ xs) (Memᴰ.head e) = Memᴰ.head (ap g e)
  mem-map_of g (y ∷ xs) (Memᴰ.tail m) = Memᴰ.tail (mem-map_of g xs m)

  mem-flatten :
      (f : X → List Declaration) {x : X} {d : Declaration} (xs : List X)
      → Memᴰ x xs
      → Memᴰ d (f x)
      → Memᴰ d (flatten (map f xs))
  mem-flatten f [] m h = elim m [ ]
  mem-flatten f {x} {d} (y ∷ xs) (Memᴰ.head e) h =
      Memᴰ.append_left (flatten (map f xs)) (subst (λ z. Memᴰ d (f z)) e h)
  mem-flatten f (y ∷ xs) (Memᴰ.tail m) h = Memᴰ.append_right (f y) (mem-flatten f xs m h)

  All-each : (Q : X → Type 0) (xs : List X) → ((x : X) → Memᴰ x xs → Q x) → All Q xs
  All-each Q xs h = All-map (λ x. Memᴰ x xs) Q h xs (All-mem xs)

pub declarations-Declares : (p : PackageModel) → All (Declares p) (declarations p)
unfolding declarations
declarations-Declares p =
    All-append (Declares p) _ _
      (All-flatten (Declares p) (λ (dm : DataModule). refs_of dm.file dm.dm_refs) p.data_modules
        (All-each _ p.data_modules (λ dm m.
          All-map_of (Declares p) _ dm.dm_refs
            (All-each _ dm.dm_refs (λ r k. Declares.by_data_module m k)))))
      (All-append (Declares p) _ _
        (All-flatten (Declares p) (λ (pm : PublicationModule). refs_of pm.file pm.dm_refs)
          p.publication_modules
          (All-each _ p.publication_modules (λ pm m.
            All-map_of (Declares p) _ pm.dm_refs
              (All-each _ pm.dm_refs (λ r k. Declares.by_publication_module m k)))))
        (All-flatten (Declares p) (λ (l : DataModuleList). registrations_of l.file l.entries) p.dmls
          (All-each _ p.dmls (λ l m.
            All-map_of (Declares p) _ l.entries
              (All-each _ l.entries (λ e k. Declares.by_list m k))))))

pub mem-declarations : (p : PackageModel) (d : Declaration) → Declares p d → Memᴰ d (declarations p)
unfolding declarations
mem-declarations p d (by_data_module {dm} {r} m k) = Memᴰ.append_left _ (
    mem-flatten (λ (dm : DataModule). refs_of dm.file dm.dm_refs) p.data_modules m
      (mem-map_of _ dm.dm_refs k))
mem-declarations p d (by_publication_module {pm} {r} m k) = Memᴰ.append_right _ (
    Memᴰ.append_left _ (
      mem-flatten (λ (pm : PublicationModule). refs_of pm.file pm.dm_refs) p.publication_modules m
        (mem-map_of _ pm.dm_refs k)))
mem-declarations p d (by_list {l} {e} m k) = Memᴰ.append_right _ (
    Memᴰ.append_right _ (
      mem-flatten (λ (l : DataModuleList). registrations_of l.file l.entries) p.dmls m
        (mem-map_of _ l.entries k)))

elem-present :
    (code : String) (dms : List DataModule) {dm : DataModule}
    → Memᴰ dm dms
    → dmc dm ≡ code
    → elem code (map dmc dms) ≡ true
elem-present code [] m e = elim m [ ]
elem-present code (x ∷ dms) (Memᴰ.head same) e =
    let here : str_eq code (dmc x) ≡ true = (eq_iff code (dmc x)).1 (sym (ap dmc (sym same) ∙ e)) in
    rw here refl
elem-present code (x ∷ dms) (Memᴰ.tail m) e = ground (arith, elem-present code dms m e)

pub present-elem :
    (code : String) (dms : List DataModule)
    → elem code (map dmc dms) ≡ true
    → (dm : DataModule) × Memᴰ dm dms × (dmc dm ≡ code)
present-elem code [] h = cc
present-elem code (x ∷ dms) h = elim (Bool-cases (str_eq code (dmc x))) [
  | inl y ↦ (x, Memᴰ.head refl, sym ((eq_iff code (dmc x)).0 y))
  | inr n ↦ let (dm, m, e) = present-elem code dms (rw n at h) in (dm, Memᴰ.tail m, e)
]

-- A module of some admitted package.
abbrev pub IsAdmitted : List Loaded → String → Type 0
IsAdmitted loaded code = (l : Loaded) × Memᴰ l loaded × (l.admitted ≡ true) × HasModule l code

elem-admitted_dmcs :
    (code : String) (loaded : List Loaded) (l : Loaded)
    → Memᴰ l loaded
    → l.admitted ≡ true
    → elem code (present_in l) ≡ true
    → elem code (admitted_dmcs loaded) ≡ true
unfolding admitted_dmcs
elem-admitted_dmcs code [] l m a h = elim m [ ]
elem-admitted_dmcs code (x ∷ ls) l (Memᴰ.head e) a h =
    rw (ap (λ (z : Loaded). z.admitted) (sym e) ∙ a) (
      elem-append code (present_in x) (admitted_dmcs ls)
      ∙ rw (ap (λ (z : Loaded). elem code (present_in z)) (sym e) ∙ h) refl)
elem-admitted_dmcs code (x ∷ ls) l (Memᴰ.tail m) a h =
    let rest = elem-admitted_dmcs code ls l m a h in
    elim (Bool-cases x.admitted) [
      | inl y ↦ rw y (elem-append code (present_in x) (admitted_dmcs ls) ∙ rw rest (ground arith))
      | inr n ↦ rw n rest
    ]

pub admitted_dmcs-IsAdmitted :
    (code : String) (loaded : List Loaded)
    → elem code (admitted_dmcs loaded) ≡ true
    → IsAdmitted loaded code
unfolding admitted_dmcs
admitted_dmcs-IsAdmitted code [] h = cc
admitted_dmcs-IsAdmitted code (x ∷ ls) h = elim (Bool-cases x.admitted) [
  | inr n ↦
      let (l, m, a, has) = admitted_dmcs-IsAdmitted code ls (rw n at h) in (l, Memᴰ.tail m, a, has)
  | inl y ↦
      let both = sym (elem-append code (present_in x) (admitted_dmcs ls)) ∙ (rw y at h) in
      elim (Bool-cases (elem code (present_in x))) [
        | inl here ↦ (x, Memᴰ.head refl, y, present-elem code x.package_model.data_modules here)
        | inr off ↦
            let (l, m, a, has) = admitted_dmcs-IsAdmitted code ls (rw off at both) in
            (l, Memᴰ.tail m, a, has)
      ]
]

pub absent-HasModule :
    (l : Loaded) (code : String) → elem code (present_in l) ≡ false → HasModule l code → ⊥
absent-HasModule l code h (dm, m, e) = cc (h, elem-present code l.package_model.data_modules m e)

pub absent-IsAdmitted :
    (loaded : List Loaded) (code : String)
    → elem code (admitted_dmcs loaded) ≡ false
    → IsAdmitted loaded code
    → ⊥
absent-IsAdmitted loaded code h (l, m, a, (dm, k, e)) =
    cc
      (h, elem-admitted_dmcs code loaded l m a (elem-present code l.package_model.data_modules k e))

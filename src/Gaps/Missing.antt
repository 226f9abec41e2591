-- ===== src/Gaps/Missing.antt =====
-- What src/learnarken/gaps.py reports is declared and missing.
use mathlib.Core.List.{Memᴰ}
use mathlib.Core.List.Memᴰ
use learn_arken.Prelude.{
  subst, ◌∙◌, All-mem, String, ◌≡◌, ◌⊎◌, inl, inr, refl, Bool, true, false, ◌||◌, List, [], ◌∷◌,
  ◌++◌, elem, All, All-append, arith, Bool-cases,
}
use learn_arken.Gaps.{
  Gap, Loaded, Declaration, declarations, present_in, admitted_dmcs, known_to, gap_of, gaps_in,
  gaps_over, collect_gaps,
}
use learn_arken.Gaps.Declared.{
  HasModule, Declares, IsAdmitted, elem-append, declarations-Declares, mem-declarations,
  present-elem, admitted_dmcs-IsAdmitted, absent-HasModule, absent-IsAdmitted,
}

-- A package declares the gap's module and does not have it; for an admitted package, no admitted package has it.
pub record IsGap (loaded : List Loaded) (g : Gap) : Type 0 where
  pub by : Loaded
  pub declaration : Declaration
  pub in_loaded : Memᴰ by loaded
  pub declared : Declares by.package_model declaration
  pub same : g ≡ gap_of by declaration
  pub not_here : HasModule by declaration.target → ⊥
  pub nowhere :
      by.admitted ≡ true
      → (other : Loaded) → Memᴰ other loaded
      → other.admitted ≡ true
      → HasModule other declaration.target
      → ⊥

or-false : (a b : Bool) → (a || b) ≡ false → (a ≡ false) × (b ≡ false)
or-false true b h = cc
or-false false b h = (refl, h)

unknown-eq :
    (dmcs : List String) (l : Loaded) (target : String)
    → elem target (known_to dmcs l) ≡ false
    → (elem target (present_in l) ≡ false) × ((l.admitted ≡ false) ⊎ (elem target dmcs ≡ false))
unfolding known_to
unknown-eq dmcs l target h = elim (Bool-cases l.admitted) [
  | inl y ↦
      let both : (elem target dmcs || elem target (present_in l)) ≡ false = split (rw y at h) in
      let (a, b) = or-false (elem target dmcs) (elem target (present_in l)) both in (b, inr a)
  | inr n ↦ (rw n at h, inl n)
]
  where
    split :
        elem target (dmcs ++ present_in l) ≡ false
        → (elem target dmcs || elem target (present_in l)) ≡ false
    split e = ground (arith, elem-append target dmcs (present_in l))

module _ (loaded : List Loaded) where
  gaps_in-IsGap :
      (l : Loaded)
      → Memᴰ l loaded
      → (ds : List Declaration) → All (Declares l.package_model) ds
      → All (IsGap loaded) (gaps_in (known_to (admitted_dmcs loaded) l) l ds)
  unfolding gaps_in
  gaps_in-IsGap l m [] h = tt
  gaps_in-IsGap l m (d ∷ ds) h =
      elim (Bool-cases (elem d.target (known_to (admitted_dmcs loaded) l))) [
        | inl y ↦ rw y (gaps_in-IsGap l m ds h.1)
        | inr n ↦
            let (here, nowhere) = unknown-eq (admitted_dmcs loaded) l d.target n in
            rw n (
              record {
                by = l;
                declaration = d;
                in_loaded = m;
                declared = h.0;
                same = refl;
                not_here = absent-HasModule l d.target here;
                nowhere = λ a other k b has. elim nowhere [
                  | inl off ↦ cc (a, off)
                  | inr none_there ↦ absent-IsAdmitted loaded d.target none_there (other, k, b, has)
                ];
              },
              gaps_in-IsGap l m ds h.1,
            )
      ]

  gaps_over-IsGap :
      (ls : List Loaded)
      → All (λ l. Memᴰ l loaded) ls
      → All (IsGap loaded) (gaps_over (admitted_dmcs loaded) ls)
  unfolding gaps_over
  gaps_over-IsGap [] h = tt
  gaps_over-IsGap (l ∷ ls) h =
      All-append (IsGap loaded)
        (gaps_in (known_to (admitted_dmcs loaded) l) l (declarations l.package_model))
        (gaps_over (admitted_dmcs loaded) ls)
        (gaps_in-IsGap l h.0 (declarations l.package_model) (declarations-Declares l.package_model))
        (gaps_over-IsGap ls h.1)

  -- Each gap of the report comes from a declaration of one of the packages, that is a reference of one of its data modules
  -- or publication modules or an entry of one of its lists, with that package's owner for it. The package has no data
  -- module of that code, and if the package is admitted, no admitted package has one.
  pub collect_gaps-IsGap : All (IsGap loaded) (collect_gaps loaded).gaps
  unfolding collect_gaps
  collect_gaps-IsGap = gaps_over-IsGap loaded (All-mem loaded)

mem-gaps_in :
    (known : List String) (l : Loaded) (d : Declaration) (ds : List Declaration)
    → Memᴰ d ds
    → elem d.target known ≡ false
    → Memᴰ (gap_of l d) (gaps_in known l ds)
unfolding gaps_in
mem-gaps_in known l d [] m h = elim m [ ]
mem-gaps_in known l d (x ∷ ds) (Memᴰ.head e) h =
    subst (λ y. Memᴰ (gap_of l d) (gaps_in known l (y ∷ ds))) e (rw h (Memᴰ.head refl))
mem-gaps_in known l d (x ∷ ds) (Memᴰ.tail m) h =
    let rest = mem-gaps_in known l d ds m h in
    elim (Bool-cases (elem x.target known)) [ inl y ↦ rw y rest | inr n ↦ rw n (Memᴰ.tail rest) ]

mem-gaps_over :
    (dmcs : List String) (l : Loaded) (d : Declaration) (ls : List Loaded)
    → Memᴰ l ls
    → Memᴰ d (declarations l.package_model)
    → elem d.target (known_to dmcs l) ≡ false
    → Memᴰ (gap_of l d) (gaps_over dmcs ls)
unfolding gaps_over
mem-gaps_over dmcs l d [] k m h = elim k [ ]
mem-gaps_over dmcs l d (x ∷ ls) (Memᴰ.head e) m h =
    subst (λ y. Memᴰ (gap_of l d) (gaps_over dmcs (y ∷ ls))) e
      (Memᴰ.append_left (gaps_over dmcs ls)
        (mem-gaps_in (known_to dmcs l) l d (declarations l.package_model) m h))
mem-gaps_over dmcs l d (x ∷ ls) (Memᴰ.tail k) m h =
    Memᴰ.append_right (gaps_in (known_to dmcs x) x (declarations x.package_model))
      (mem-gaps_over dmcs l d ls k m h)

unknown :
    (dmcs : List String) (l : Loaded) (target : String)
    → elem target (present_in l) ≡ false
    → elem target dmcs ≡ false
    → elem target (known_to dmcs l) ≡ false
unfolding known_to
unknown dmcs l target here nowhere = elim (Bool-cases l.admitted) [
  | inl y ↦ rw y (elem-append target dmcs (present_in l) ∙ rw (nowhere, here) refl)
  | inr n ↦ rw n here
]

-- No declaration is passed over: if one of the packages declares a module, by a reference of one of its data modules or
-- publication modules or by an entry of one of its lists, and neither it nor any admitted package has the module, then
-- the report has the gap of that declaration.
pub mem-collect_gaps :
    (loaded : List Loaded) (l : Loaded) (d : Declaration)
    → Memᴰ l loaded
    → Declares l.package_model d
    → (HasModule l d.target → ⊥)
    → (IsAdmitted loaded d.target → ⊥)
    → Memᴰ (gap_of l d) (collect_gaps loaded).gaps
unfolding collect_gaps
mem-collect_gaps loaded l d in_loaded declared here nowhere =
    mem-gaps_over (admitted_dmcs loaded) l d loaded in_loaded
      (mem-declarations l.package_model d declared)
      (unknown (admitted_dmcs loaded) l d.target
        (elim (Bool-cases (elem d.target (present_in l))) [
          | inl y ↦ absurd (here (present-elem d.target l.package_model.data_modules y))
          | inr n ↦ n
        ])
        (elim (Bool-cases (elem d.target (admitted_dmcs loaded))) [
          | inl y ↦ absurd (nowhere (admitted_dmcs-IsAdmitted d.target loaded y))
          | inr n ↦ n
        ]))

-- ===== src/Validation/Identity/Conflicts.antt =====
-- XREF-006 of `_resolve_dm_identities`: two contents that claim one code at one issue.
use learn_arken.Prelude.{
  ℕ, String, ◌≡◌, refl, subst, Bool, true, Option, none, some, List, [], ◌∷◌, ◌++◌, filter, str_eq,
  eq_refl, All, All-map, Bool-cases, inl, inr, All-filter_inv, some_injective,
}
use learn_arken.Prelude.Dict.{Dict, get}
use learn_arken.Prelude.Sort.{insert, sort, IsSorted, sort-IsSorted, All-insert_inv, All-sort_inv}
use learn_arken.Prelude.Int.{pos}
use learn_arken.Package.Model.{DataModule}
use learn_arken.Validation.Report.{Finding}
use learn_arken.Validation.Issue.{
  issue_key, key_le_total, key_le_trans, key_le_antisym, IsNumbered, issue_key-numbered,
  IsNumbered-issue_key,
}
use learn_arken.Validation.Identity.{
  Group, older_first, shared_issue, report_pair, conflicts, report_superseded, resolve,
  resolve_groups, by_dmc, resolve_dm_identities,
}
use learn_arken.Validation.Identity.Groups.{claims, group_of, get-by_dmc}

-- Of the members for which `P` holds there is at most one.
abbrev pub AtMostOne {ℓ} : {A : Type ℓ} → (A → Type 0) → List A → Type 0
AtMostOne P [] = Unit
AtMostOne P (x ∷ xs) = (P x → All (λ y. ¬ P y) xs) × AtMostOne P xs

module _ {A : Type 0} (P : A → Type 0) where
  AtMostOne-insert_inv :
      (le : A → A → Bool) (a : A) (xs : List A)
      → AtMostOne P (insert le a xs)
      → AtMostOne P (a ∷ xs)
  unfolding insert
  AtMostOne-insert_inv le a [] h = h
  AtMostOne-insert_inv le a (x ∷ xs) h = elim (Bool-cases (le a x)) [
    | inl e ↦ rw e at h
    | inr e ↦
        let h' : (P x → All (λ y. ¬ P y) (insert le a xs)) × AtMostOne P (insert le a xs) =
          rw e at h in
        let (alone, rest) = AtMostOne-insert_inv le a xs h'.1 in
        let apart = λ (px : P x). All-insert_inv le (λ y. ¬ P y) a xs (h'.0 px) in
        ((λ pa. ((λ px. (apart px).0 pa), alone pa)), ((λ px. (apart px).1), rest))
  ]

  AtMostOne-sort_inv : (le : A → A → Bool) (xs : List A) → AtMostOne P (sort le xs) → AtMostOne P xs
  unfolding sort
  AtMostOne-sort_inv le [] h = tt
  AtMostOne-sort_inv le (x ∷ xs) h =
      let (alone, rest) = AtMostOne-insert_inv le x (sort le xs) h in
      ((λ px. All-sort_inv le (λ y. ¬ P y) xs (alone px)), AtMostOne-sort_inv le xs rest)

  AtMostOne-filter_inv :
      (p : A → Bool) (xs : List A)
      → AtMostOne P (filter p xs)
      → AtMostOne (λ x. (p x ≡ true) × P x) xs
  AtMostOne-filter_inv p [] h = tt
  AtMostOne-filter_inv p (x ∷ xs) h = elim (Bool-cases (p x)) [
    | inl e ↦
        let h' : (P x → All (λ y. ¬ P y) (filter p xs)) × AtMostOne P (filter p xs) = rw e at h in
        (
          (λ q.
              All-map (λ y. p y ≡ true → ¬ P y) (λ y. ¬ ((p y ≡ true) × P y)) (λ y f z. f z.0 z.1)
                xs (All-filter_inv (λ y. ¬ P y) p xs (h'.0 q.1))),
          AtMostOne-filter_inv p xs h'.1,
        )
    | inr e ↦ ((λ q. absurd (cc (e, q.0))), AtMostOne-filter_inv p xs (rw e at h))
  ]

-- In a sorted list the first entry is at most each later one.
first-oldest :
    (x : DataModule) (xs : List DataModule)
    → IsSorted older_first (x ∷ xs)
    → All (λ z. older_first x z ≡ true) xs
first-oldest x [] h = tt
first-oldest x (y ∷ r) h = (
  h.0,
  All-map (λ z. older_first y z ≡ true) (λ z. older_first x z ≡ true)
      (λ z le. key_le_trans (issue_key x) (issue_key y) (issue_key z) h.0 le) r
      (first-oldest y r h.1),
)

module _ (n : ℕ) (s : String) where
  shared_issue-numbered :
      (x y : DataModule)
      → IsNumbered n s x
      → IsNumbered n s y
      → shared_issue x.issue_info y.issue_info ≡ some s
  shared_issue-numbered x y hx hy =
      rw (hx.carries, hy.carries) (rw (hx.prints, hy.prints) (rw (eq_refl s)))

  -- What stands between two entries of one numbered issue is of that issue.
  between :
      (x y z : DataModule)
      → older_first x y ≡ true
      → older_first y z ≡ true
      → IsNumbered n s x
      → IsNumbered n s z
      → IsNumbered n s y
  between x y z xy yz hx hz =
      let kx = issue_key-numbered n s x hx in
      let kz = issue_key-numbered n s z hz in
      IsNumbered-issue_key n s y
        (key_le_antisym (issue_key y) (pos n, s) (rw kz at yz) (rw kx at xy))

  conflicts-none :
      (code : String) (xs : List DataModule)
      → IsSorted older_first xs
      → conflicts code xs ≡ []
      → AtMostOne (IsNumbered n s) xs
  unfolding conflicts
  conflicts-none code [] sorted h = tt
  conflicts-none code (x ∷ []) sorted h = ((λ _. tt), tt)
  conflicts-none code (x ∷ y ∷ r) sorted h = (
    (λ hx. (
      apart hx,
      All-map (λ z. older_first y z ≡ true) _
          (λ z yz hz. apart hx (between x y z sorted.0 yz hx hz)) r (first-oldest y r sorted.1),
    )),
    conflicts-none code (y ∷ r) sorted.1 later,
  )
    where
      pair : Option String → List Finding
      pair o = report_pair code x y o (conflicts code (y ∷ r))

      apart : IsNumbered n s x → ¬ IsNumbered n s y
      apart hx hy = cc (rw (shared_issue-numbered x y hx hy) at h)

      later_of : (o : Option String) → pair o ≡ [] → conflicts code (y ∷ r) ≡ []
      later_of none e = e
      later_of (some t) e = cc e

      later : conflicts code (y ∷ r) ≡ []
      later = later_of (shared_issue x.issue_info y.issue_info) h

abbrev pub is_conflict : Finding → Bool
is_conflict f = str_eq f.rule_id "XREF-006"

-- Every conflict is reported under the rule's id.
conflicts-is_conflict :
    (code : String) (xs : List DataModule)
    → filter is_conflict (conflicts code xs) ≡ []
    → conflicts code xs ≡ []
unfolding conflicts
conflicts-is_conflict code [] h = refl
conflicts-is_conflict code (x ∷ []) h = refl
conflicts-is_conflict code (x ∷ y ∷ r) h =
    of (shared_issue x.issue_info y.issue_info) (conflicts-is_conflict code (y ∷ r)) h
  where
    of :
        (o : Option String)
        → (filter is_conflict (conflicts code (y ∷ r)) ≡ [] → conflicts code (y ∷ r) ≡ [])
        → filter is_conflict (report_pair code x y o (conflicts code (y ∷ r))) ≡ []
        → report_pair code x y o (conflicts code (y ∷ r)) ≡ []
    of none ih e = ih e
    of (some t) ih e = cc e

filter-append-nil :
    (p : Finding → Bool) (xs ys : List Finding)
    → filter p (xs ++ ys) ≡ []
    → (filter p xs ≡ []) × (filter p ys ≡ [])
filter-append-nil p [] ys h = (refl, h)
filter-append-nil p (x ∷ xs) ys h = elim (Bool-cases (p x)) [
  | inl y ↦ cc (rw y at h)
  | inr n ↦ rw n (filter-append-nil p xs ys (rw n at h))
]

module _ (n : ℕ) (s : String) where
  resolve-none :
      (code : String) (first : DataModule) (others : List DataModule)
      → filter is_conflict (resolve code first others).1 ≡ []
      → AtMostOne (IsNumbered n s) (first ∷ others)
  unfolding resolve
  resolve-none code first [] h = ((λ _. tt), tt)
  resolve-none code first (x ∷ xs) h =
      let es = first ∷ x ∷ xs in
      let sorted = sort older_first es in
      AtMostOne-sort_inv (IsNumbered n s) older_first es (
        conflicts-none n s code sorted
          (sort-IsSorted older_first (λ a b. key_le_total (issue_key a) (issue_key b)) es)
          (conflicts-is_conflict code sorted
            (filter-append-nil is_conflict (conflicts code sorted) (report_superseded code sorted)
              h).0))

  resolve_groups-none :
      (code : String) (groups : Dict Group) (g : Group)
      → get code groups ≡ some g
      → filter is_conflict (resolve_groups groups).1 ≡ []
      → AtMostOne (IsNumbered n s) (g.first ∷ g.others)
  unfolding resolve_groups get
  resolve_groups-none code [] g e h = cc
  resolve_groups-none code ((k, o) ∷ rest) g e h =
      let (here, later) =
        filter-append-nil is_conflict (resolve k o.first o.others).1 (resolve_groups rest).1 h in
      elim (Bool-cases (str_eq k code)) [
        | inl y ↦
            let same : o ≡ g = some_injective (rw y at e) in
            subst (λ (u : Group). AtMostOne (IsNumbered n s) (u.first ∷ u.others)) same
              (resolve-none k o.first o.others here)
        | inr m ↦ resolve_groups-none code rest g (rw m at e) later
      ]

  grouped-none :
      (code : String) (dms es : List DataModule)
      → get code (by_dmc dms) ≡ group_of es
      → filter is_conflict (resolve_groups (by_dmc dms)).1 ≡ []
      → AtMostOne (IsNumbered n s) es
  grouped-none code dms [] e h = tt
  grouped-none code dms (x ∷ xs) e h = resolve_groups-none code (by_dmc dms) _ e h

-- If no XREF-006 is reported, then no two modules of the package carry one code at one issue: among
-- those that claim a code, whose issue number reads as a natural number `n` and whose issue prints as
-- `s`, there is at most one.
pub no_conflict-AtMostOne :
    (dms : List DataModule) (code : String) (n : ℕ) (s : String)
    → filter is_conflict (resolve_dm_identities dms).findings ≡ []
    → AtMostOne (λ dm. (claims code dm ≡ true) × IsNumbered n s dm) dms
unfolding resolve_dm_identities
no_conflict-AtMostOne dms code n s h =
    AtMostOne-filter_inv (IsNumbered n s) (claims code) dms
      (grouped-none n s code dms (filter (claims code) dms) (get-by_dmc code dms) h)

-- ===== src/Validation/Identity/Newest.antt =====
-- `_resolve_dm_identities` indexes the newest module of each code.
use learn_arken.Prelude.{
  String, ◌≡◌, refl, sym, ◌∙◌, subst, true, none, some, List, [], ◌∷◌, filter, eq_iff, All, All-map,
  All-mem, All-filter, All-filter_inv, Bool-cases, inl, inr, ◌≢◌, All-lookup, some_injective,
}
use mathlib.Core.List.{Memᴰ}
use learn_arken.Prelude.Dict.{get}
use learn_arken.Prelude.Sort.{sort, IsSorted, sort-IsSorted, All-sort, All-sort_inv}
use learn_arken.Package.Model.{DataModule, dmc}
use learn_arken.Validation.Issue.{IssueKey, issue_key, key_le, key_le_total, key_le_trans}
use learn_arken.Validation.Identity.{older_first, last, resolve, resolve_dm_identities}
use learn_arken.Validation.Identity.Groups.{claims, indexed, get-dm_index}

key_le_refl : (k : IssueKey) → key_le k k ≡ true
key_le_refl k = elim (Bool-cases (key_le k k)) [ inl y ↦ y | inr n ↦ key_le_total k k n ]

-- The last entry of a sorted list is the newest.
pub last-newest :
    (d : DataModule) (xs : List DataModule)
    → IsSorted older_first (d ∷ xs)
    → All (λ x. older_first x (last d xs) ≡ true) (d ∷ xs)
last-newest d [] h = (key_le_refl (issue_key d), tt)
last-newest d (x ∷ xs) h =
    let rest = last-newest x xs h.1 in
    (key_le_trans (issue_key d) (issue_key x) (issue_key (last x xs)) h.0 rest.0, rest)

last-All :
    (P : DataModule → Type 0) (d : DataModule) (xs : List DataModule)
    → P d
    → All P xs
    → P (last d xs)
last-All P d [] h hs = h
last-All P d (x ∷ xs) h hs = last-All P x xs hs.0 hs.1

last-newest_or :
    (d : DataModule) (xs : List DataModule)
    → IsSorted older_first xs
    → All (λ x. older_first x (last d xs) ≡ true) xs
last-newest_or d [] h = tt
last-newest_or d (x ∷ xs) h = last-newest x xs h

-- What `resolve` picks is among the entries, and no entry is newer.
resolve_lem :
    (code : String) (first : DataModule) (others : List DataModule)
    → Memᴰ (resolve code first others).0 (first ∷ others)
      × All (λ x. older_first x (resolve code first others).0 ≡ true) (first ∷ others)
unfolding resolve
resolve_lem code first [] = (Memᴰ.head refl, (key_le_refl (issue_key first), tt))
resolve_lem code first (x ∷ xs) =
    let es = first ∷ x ∷ xs in
    (
      last-All (λ m. Memᴰ m es) first (sort older_first es) (Memᴰ.head refl)
          (All-sort older_first (λ m. Memᴰ m es) es (All-mem es)),
      All-sort_inv older_first (λ y. older_first y (last first (sort older_first es)) ≡ true) es
          (last-newest_or first (sort older_first es)
            (sort-IsSorted older_first (λ a b. key_le_total (issue_key a) (issue_key b)) es)),
    )

-- `m` is one of the modules that claim the code, and no other of them has a newer issue.
pub record IsNewest (dms : List DataModule) (code : String) (m : DataModule) : Type 0 where
  pub member : Memᴰ m dms
  pub claims_code : dmc m ≡ code
  pub newest : All (λ x. dmc x ≡ code → key_le (issue_key x) (issue_key m) ≡ true) dms

module _ (dms : List DataModule) (code : String) where
  filtered-IsNewest :
      (es : List DataModule) (m : DataModule)
      → es ≡ filter (claims code) dms
      → Memᴰ m es
      → All (λ x. older_first x m ≡ true) es
      → IsNewest dms code m
  filtered-IsNewest es m e mem newest =
      let from : All (λ x. Memᴰ x dms × (claims code x ≡ true)) (filter (claims code) dms) =
        All-filter (λ x. Memᴰ x dms) (claims code) dms (All-mem dms) in
      let found : Memᴰ m dms × (claims code m ≡ true) =
        All-lookup (λ x. Memᴰ x dms × (claims code x ≡ true)) (filter (claims code) dms) from
          (rw e at mem) in
      record {
        member = found.0;
        claims_code = (eq_iff (dmc m) code).0 found.1;
        newest =
            All-map (λ x. claims code x ≡ true → older_first x m ≡ true) _
              (λ x h same. h ((eq_iff (dmc x) code).1 same)) dms
              (All-filter_inv (λ x. older_first x m ≡ true) (claims code) dms (rw e at newest));
      }

  indexed-IsNewest :
      (es : List DataModule) (m : DataModule)
      → es ≡ filter (claims code) dms
      → indexed code es ≡ some m
      → IsNewest dms code m
  indexed-IsNewest [] m e h = cc
  indexed-IsNewest (x ∷ xs) m e h =
      let (mem, newest) = resolve_lem code x xs in
      subst (IsNewest dms code) (some_injective h)
        (filtered-IsNewest (x ∷ xs) (resolve code x xs).0 e mem newest)

  indexed-none :
      (es : List DataModule)
      → es ≡ filter (claims code) dms
      → indexed code es ≡ none
      → All (λ x. dmc x ≢ code) dms
  indexed-none [] e h =
      All-map (λ x. claims code x ≡ true → ⊥) _
        (λ x none_here same. none_here ((eq_iff (dmc x) code).1 same)) dms
        (All-filter_inv (λ x. ⊥) (claims code) dms (subst (All (λ x. ⊥)) e tt))
  indexed-none (x ∷ xs) e h = cc

-- The index holds a code exactly if some module of the package claims it, and then it holds one of
-- those that claim it, of which none has a newer issue.
pub dm_index-IsNewest :
    (dms : List DataModule) (code : String)
    → ((m : DataModule)
        → get code (resolve_dm_identities dms).dm_index ≡ some m
        → IsNewest dms code m)
      × (get code (resolve_dm_identities dms).dm_index ≡ none → All (λ x. dmc x ≢ code) dms)
dm_index-IsNewest dms code = (
  λ m h.
      indexed-IsNewest dms code (filter (claims code) dms) m refl (sym (get-dm_index code dms) ∙ h),
  λ h. indexed-none dms code (filter (claims code) dms) refl (sym (get-dm_index code dms) ∙ h),
)

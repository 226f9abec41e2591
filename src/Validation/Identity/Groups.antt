-- ===== src/Validation/Identity/Groups.antt =====
-- What `_resolve_dm_identities` files under one data module code.
use learn_arken.Prelude.{
  String, ◌≡◌, refl, ◌∙◌, ap, Bool, true, false, Option, none, some, List, [], ◌∷◌, ◌++◌, filter,
  str_eq, eq_iff, if◌then◌else◌, Bool-cases, inl, inr,
}
use mathlib.Core.List.{append_assoc}
use learn_arken.Prelude.Dict
use learn_arken.Prelude.Dict.{Dict, get, get-put}
use learn_arken.Package.Model.{DataModule, dmc}
use learn_arken.Validation.Identity.{
  Group, add_to, group_into, by_dmc, resolve, resolve_groups, resolve_dm_identities,
}

abbrev pub claims : String → DataModule → Bool
claims code dm = str_eq (dmc dm) code

-- The entries of a code, in order, added to those that are there.
abbrev extend : Option Group → List DataModule → Option Group
extend o [] = o
extend none (x ∷ xs) = some (record { first = x; others = xs })
extend (some g) (x ∷ xs) = some (record { first = g.first; others = g.others ++ x ∷ xs })

extend-add_to :
    (o : Option Group) (x : DataModule) (xs : List DataModule)
    → extend (some (add_to x o)) xs ≡ extend o (x ∷ xs)
extend-add_to none x [] = refl
extend-add_to none x (y ∷ ys) = refl
extend-add_to (some g) x [] = refl
extend-add_to (some g) x (y ∷ ys) =
    ap (λ l. some (record { first = g.first; others = l }))
      (append_assoc g.others (x ∷ []) (y ∷ ys))

abbrev filed : DataModule → Dict Group → Dict Group
filed dm groups = Dict.put (dmc dm) (add_to dm (get (dmc dm) groups)) groups

get-filed :
    (code : String) (dm : DataModule) (groups : Dict Group)
    → get code (filed dm groups)
      ≡ (if claims code dm then some (add_to dm (get code groups)) else get code groups)
get-filed code dm groups = elim (Bool-cases (str_eq (dmc dm) code)) [
  | inl y ↦ rw (get-put, y, (eq_iff (dmc dm) code).0 y)
  | inr n ↦ rw (get-put, n)
]

get-group_into :
    (code : String) (groups : Dict Group) (dms : List DataModule)
    → get code (group_into groups dms) ≡ extend (get code groups) (filter (claims code) dms)
unfolding group_into
get-group_into code groups [] = refl
get-group_into code groups (dm ∷ rest) =
    get-group_into code (filed dm groups) rest
    ∙ ap (λ o. extend o (filter (claims code) rest)) (get-filed code dm groups)
    ∙ extend_if (claims code dm)
  where
    extend_if :
        (b : Bool)
        → extend
            (if b then some (add_to dm (get code groups)) else get code groups)
            (filter (claims code) rest)
          ≡ extend
              (get code groups)
              (if b then dm ∷ filter (claims code) rest else filter (claims code) rest)
    extend_if true = extend-add_to (get code groups) dm (filter (claims code) rest)
    extend_if false = refl

-- The module that is indexed for the entries of a code.
abbrev pub indexed : String → List DataModule → Option DataModule
indexed code [] = none
indexed code (x ∷ xs) = some (resolve code x xs).0

abbrev from_group : String → Option Group → Option DataModule
from_group code none = none
from_group code (some g) = some (resolve code g.first g.others).0

get-resolve_groups :
    (code : String) (groups : Dict Group)
    → get code (resolve_groups groups).0 ≡ from_group code (get code groups)
unfolding resolve_groups get
get-resolve_groups code [] = refl
get-resolve_groups code ((k, g) ∷ rest) = elim (Bool-cases (str_eq k code)) [
  | inl y ↦ rw y (ap (λ c. some (resolve c g.first g.others).0) ((eq_iff k code).0 y))
  | inr n ↦ rw n (get-resolve_groups code rest)
]

abbrev pub group_of : List DataModule → Option Group
group_of [] = none
group_of (x ∷ xs) = some (record { first = x; others = xs })

extend-none : (xs : List DataModule) → extend none xs ≡ group_of xs
extend-none [] = refl
extend-none (x ∷ xs) = refl

pub get-by_dmc :
    (code : String) (dms : List DataModule)
    → get code (by_dmc dms) ≡ group_of (filter (claims code) dms)
unfolding by_dmc get
get-by_dmc code dms = get-group_into code [] dms ∙ extend-none (filter (claims code) dms)

from_group_of :
    (code : String) (xs : List DataModule) → from_group code (group_of xs) ≡ indexed code xs
from_group_of code [] = refl
from_group_of code (x ∷ xs) = refl

pub get-dm_index :
    (code : String) (dms : List DataModule)
    → get code (resolve_dm_identities dms).dm_index ≡ indexed code (filter (claims code) dms)
unfolding resolve_dm_identities
get-dm_index code dms =
    get-resolve_groups code (by_dmc dms)
    ∙ ap (from_group code) (get-by_dmc code dms)
    ∙ from_group_of code (filter (claims code) dms)

-- ===== src/Retrieval/Applies.antt =====
-- `_values_match` and `applies_to` of src/learnarken/chunking/base.py.
use Prim.Native.Char.{Char, code}
use learn_arken.Prelude.{
  String, ◌≡◌, refl, Bool, true, false, ◌&&◌, Option, none, some, List, [], ◌∷◌, ◌==◌, str_eq,
  strip, any, all, filter, if◌then◌else◌,
}
use learn_arken.Prelude.Int.{int_of, le_ℤ}
use learn_arken.Package.Model.{Applicability, ApplicAssertion}
use learn_arken.Package.Chunk.{Chunk}

abbrev put_first : Char → List String → List String
put_first c [] = String.◌∷◌ c String.[] ∷ []
put_first c (word ∷ words) = String.◌∷◌ c word ∷ words

-- `s.split(",")`
unfoldable pub split_commas : String → List String
split_commas String.[] = String.[] ∷ []
split_commas (String.◌∷◌ c s) =
    let rest = split_commas s in if code c == 44 then String.[] ∷ rest else put_first c rest

abbrev after_first : Char → Option (String × String) → Option (String × String)
after_first c none = none
after_first c (some (low, high)) = some (String.◌∷◌ c low, high)

-- `token.split("~", 1)`, where the sign occurs.
unfoldable pub split_tilde : String → Option (String × String)
split_tilde String.[] = none
split_tilde (String.◌∷◌ c s) =
    let rest = split_tilde s in if code c == 126 then some (String.[], s) else after_first c rest

-- `int(low) <= int(query) <= int(high)`; a `ValueError` is no match.
unfoldable pub in_range : String → String → String → Bool
in_range query low high = elim (int_of (strip low)) [
  | none ↦ false
  | some l ↦ elim (int_of query) [
    | none ↦ false
    | some q ↦ elim (int_of (strip high)) [ none ↦ false | some h ↦ le_ℤ l q && le_ℤ q h ]
  ]
]

abbrev pub value_matches : String → String → Bool
value_matches query token = elim (split_tilde token) [
  | none ↦ str_eq token query
  | some (low, high) ↦ in_range query low high
]

unfoldable pub values_match : String → String → Bool
values_match query values = any (λ token. value_matches query (strip token)) (split_commas values)

-- The assertions on one property, and whether they keep the chunk.
abbrev pub keeps : Applicability → String × String → Bool
keeps applicability (prop, value) =
    let constraints =
      filter (λ (a : ApplicAssertion). str_eq a.property_ident prop) applicability.assertions in
    elim constraints [
      | [] ↦ true
      | first ∷ rest ↦ any (λ (a : ApplicAssertion). values_match value a.values) (first ∷ rest)
    ]

unfoldable pub applies_to : Chunk → List (String × String) → Bool
applies_to chunk context = elim chunk.applicability [
  | none ↦ true
  | some applicability ↦ all (keeps applicability) context
]

-- A range takes its ends and numbers only.
values_match_runs :
    (values_match "12" "3, 10~20" ≡ true)
    × (values_match "A2" "A10~A20" ≡ false)
    × (values_match "21" "10~20,x" ≡ false)
    × (values_match "x" "10~20, x" ≡ true)
unfolding values_match split_commas split_tilde in_range int_of strip
values_match_runs = (refl, refl, refl, refl)

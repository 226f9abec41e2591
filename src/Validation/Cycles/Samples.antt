-- ===== src/Validation/Cycles/Samples.antt =====
-- Four modules: two that refer to each other, one that refers to itself, and one that only refers to another.
use learn_arken.Prelude.{String, ◌≡◌, refl, List, [], ◌∷◌, All, ok}
use learn_arken.Validation.CrossFile.{Graph}
use learn_arken.Prelude.Dict
use learn_arken.Prelude.Sort.{sort}
use learn_arken.Validation.Cycles.{
  find_cycles, search_from, explore, round, scan, finish, lookup, close, pop_until, lower, list_le,
  nodes,
}
use learn_arken.Validation.Cycles.Rounds.{IsCyclic}
use learn_arken.Validation.Cycles.Total.{find_cycles-total}

abbrev four : Graph
four =
    ("fuel", "pump" ∷ "valve" ∷ [])
    ∷ ("hook", "hook" ∷ [])
    ∷ ("pump", "seal" ∷ "fuel" ∷ [])
    ∷ ("tank", "fuel" ∷ [])
    ∷ []

cycles_of_four : find_cycles four ≡ ok (("fuel" ∷ "pump" ∷ []) ∷ ("hook" ∷ []) ∷ [])
unfolding find_cycles search_from explore round scan finish lookup close pop_until lower list_le
    nodes sort Dict.get Dict.put
cycles_of_four = refl

find_cycles-total_example :
    (cycles : List (List String)) × (find_cycles four ≡ ok cycles) × All (IsCyclic four) cycles
find_cycles-total_example = find_cycles-total four

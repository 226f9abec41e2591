-- ===== src/Perf/Shard/Samples.antt =====
-- Shards of a small list, and a pool that keeps their order.
use learn_arken.Prelude.{
  ℕ, ◌+◌, ◌≡◌, refl, List, [], ◌∷◌, String, Result, ok, raise, leb, if◌then◌else◌,
}
use learn_arken.Perf.Shard.{Pool, bad_count, make_shards, traverse}
use learn_arken.Perf.Shard.Even.{IsCut, make_shards-IsCut}

abbrev five : List ℕ
five = 1 ∷ 2 ∷ 3 ∷ 4 ∷ 5 ∷ []

abbrev three_shards : List (List ℕ)
three_shards = (1 ∷ 2 ∷ []) ∷ (3 ∷ 4 ∷ []) ∷ (5 ∷ []) ∷ []

make_shards-five : make_shards five 3 ≡ ok three_shards
unfolding make_shards
make_shards-five = refl

make_shards-IsCut_example :
    (make_shards five 0 ≡ raise (bad_count 0))
    × ((shards : List (List ℕ)) × (make_shards five 3 ≡ ok shards) × IsCut five 3 shards)
make_shards-IsCut_example = make_shards-IsCut five 2

abbrev ordered : Pool String ℕ ℕ
ordered size worker shards = traverse worker shards

-- Fails on 4.
abbrev check : ℕ → Result String ℕ
check n = if leb 4 n then raise "too large" else ok (n + 1)

-- ===== src/Perf/Shard.antt =====
-- src/learnarken/perf/shard.py. The process pool is a parameter: it maps a function over the shards
-- and yields the results in the order of the shards, which `Executor.map` documents. A worker may
-- raise, and then the first exception in the order of the shards is the outcome.
pub mod Even
pub mod Run
mod Samples
use learn_arken.Prelude.{
  ℕ, zero, suc, ◌+◌, ◌/◌, ◌%◌, min, ◌≤◌, ◌≡◌, List, [], ◌∷◌, ◌++◌, length, take, drop, ltb, leb,
  if◌then◌else◌, Result, ok, raise, ◌>>=◌,
}

pub data ShardError : Type 0 where
  bad_count : ℕ → ShardError

module _ {ℓ} {T : Type ℓ} (items : List T) (quotient remainder : ℕ) where
  abbrev pub shard_size : ℕ → ℕ
  shard_size i = quotient + (if ltb i remainder then 1 else 0)

  -- The loop over `range(n)`, with `left` rounds to go at `i`.
  unfoldable pub shard_loop : (left i start : ℕ) → List (List T)
  shard_loop zero i start = []
  shard_loop (suc left) i start =
      take (shard_size i) (drop start items) ∷ shard_loop left (i + 1) (start + shard_size i)

module _ {ℓ} {T : Type ℓ} where
  unfoldable pub make_shards : List T → ℕ → Result ShardError (List (List T))
  unfolding shard_loop
  make_shards items zero = raise (bad_count 0)
  make_shards [] (suc n) = ok []
  make_shards (x ∷ xs) (suc n) =
      let items = x ∷ xs in
      let n' = min (suc n) (length items) in
      ok (shard_loop items (length items / n') (length items % n') n' 0 0)

-- `flat.extend(part)` for each part
abbrev pub concat {ℓ} : {A : Type ℓ} → List (List A) → List A
concat [] = []
concat (xs ∷ xss) = xs ++ concat xss

-- `[f(x) for x in xs]` where `f` may raise.
abbrev pub traverse {ℓ κ μ} :
    {E : Type ℓ} {A : Type κ} {B : Type μ} → (A → Result E B) → List A → Result E (List B)
traverse f [] = ok []
traverse f (x ∷ xs) = f x >>= λ y. traverse f xs >>= λ ys. ok (y ∷ ys)

abbrev pub Worker : (E T R : Type 0) → Type 0
Worker E T R = List T → Result E (List R)

abbrev pub Pool : (E T R : Type 0) → Type 0
Pool E T R = ℕ → Worker E T R → List (List T) → Result E (List (List R))

-- A pool of at least one process maps in the order of the shards.
abbrev pub KeepsOrder : {E T R : Type 0} → Pool E T R → Type 0
KeepsOrder {E} {T} {R} pool =
    (size : ℕ) (worker : Worker E T R) (shards : List (List T))
    → 1 ≤ size
    → pool size worker shards ≡ traverse worker shards

unfoldable pub run_sharded :
    {E T R : Type 0} (pool : Pool E T R) (cpu : ℕ) (shards : List (List T)) (worker : Worker E T R)
    (workers : ℕ)
    → Result E (List R)
run_sharded pool cpu [] worker workers = ok []
run_sharded pool cpu (s ∷ ss) worker workers = do
  parts ←
      if leb workers 1
      then traverse worker (s ∷ ss)
      else pool (min (min workers (length (s ∷ ss))) cpu) worker (s ∷ ss)
  ok (concat parts)

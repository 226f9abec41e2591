-- ===== src/Perf/Shard/Run.antt =====
-- `run_sharded` of src/learnarken/perf/shard.py has the outcome of a loop over the items.
use learn_arken.Prelude.{
  ok-injective, suc, sym, ℕ, zero, min, ◌≤◌, ◌≡◌, refl, ap, ◌∙◌, false, List, [], ◌∷◌, ◌++◌, length,
  leb, Result, ok, raise, ◌>>=◌, arith, Bool-cases, inl, inr,
}
use learn_arken.Perf.Shard.{Worker, Pool, KeepsOrder, make_shards, run_sharded, concat, traverse}
use learn_arken.Perf.Shard.Even.{make_shards-IsCut}

-- Whatever the number of workers, the shards are worked on one after the other.
pub run_sharded-traverse :
    {E A B : Type 0} (pool : Pool E A B)
    → KeepsOrder pool
    → (cpu : ℕ) → 1 ≤ cpu
    → (worker : Worker E A B) (shards : List (List A)) (workers : ℕ)
    → run_sharded pool cpu shards worker workers
      ≡ (traverse worker shards >>= λ parts. ok (concat parts))
unfolding run_sharded
run_sharded-traverse pool keeps cpu has_cpu worker [] workers = refl
run_sharded-traverse pool keeps cpu has_cpu worker (s ∷ ss) workers =
    elim (Bool-cases (leb workers 1)) [
      | inl one ↦ rw one refl
      | inr more ↦ rw (more, keeps _ worker (s ∷ ss) (pool_size more)) refl
    ]
  where
    pool_size : leb workers 1 ≡ false → 1 ≤ min (min workers (length (s ∷ ss))) cpu
    pool_size more = ground arith

module _ {E A B : Type 0} (f : A → Result E B) where
  -- The results of one shard, joined with those of the rest.
  abbrev pub joined : Result E (List B) → Result E (List B) → Result E (List B)
  joined m k = m >>= λ xs. k >>= λ ys. ok (xs ++ ys)

  joined-cons :
      (y : B) (m k : Result E (List B))
      → (joined m k >>= λ zs. ok (y ∷ zs)) ≡ joined (m >>= λ ys. ok (y ∷ ys)) k
  joined-cons y (ok a) (ok b) = refl
  joined-cons y (ok a) (raise e) = refl
  joined-cons y (raise e) k = refl

  traverse_step :
      (r : Result E B) (m k n : Result E (List B))
      → n ≡ joined m k
      → (r >>= λ y. n >>= λ ys. ok (y ∷ ys)) ≡ joined (r >>= λ y. m >>= λ ys. ok (y ∷ ys)) k
  traverse_step (ok y) m k n e = rw e (joined-cons y m k)
  traverse_step (raise e') m k n e = refl

  joined-nil : (k : Result E (List B)) → k ≡ joined (ok []) k
  joined-nil (ok b) = refl
  joined-nil (raise e) = refl

  pub traverse-append :
      (xs ys : List A) → traverse f (xs ++ ys) ≡ joined (traverse f xs) (traverse f ys)
  traverse-append [] ys = joined-nil (traverse f ys)
  traverse-append (x ∷ xs) ys =
      traverse_step (f x) (traverse f xs) (traverse f ys) (traverse f (xs ++ ys))
        (traverse-append xs ys)

  concat_step :
      (m : Result E (List B)) (p : Result E (List (List B)))
      → ((m >>= λ y. p >>= λ ys. ok (y ∷ ys)) >>= λ parts. ok (concat parts))
        ≡ joined m (p >>= λ parts. ok (concat parts))
  concat_step (ok a) (ok p) = refl
  concat_step (ok a) (raise e) = refl
  concat_step (raise e) p = refl

  traverse-concat :
      (xss : List (List A))
      → (traverse (traverse f) xss >>= λ parts. ok (concat parts)) ≡ traverse f (concat xss)
  traverse-concat [] = refl
  traverse-concat (xs ∷ xss) =
      concat_step (traverse f xs) (traverse (traverse f) xss)
      ∙ ap (joined (traverse f xs)) (traverse-concat xss)
      ∙ sym (traverse-append xs (concat xss))

  module _ (pool : Pool E A B) (keeps : KeepsOrder pool) (cpu : ℕ) (has_cpu : 1 ≤ cpu) where
    -- Whatever the number of workers, the shards give the outcome of the concatenation, whether a
    -- list of results or the first exception.
    pub run_sharded-concat :
        (shards : List (List A)) (workers : ℕ)
        → run_sharded pool cpu shards (traverse f) workers ≡ traverse f (concat shards)
    run_sharded-concat shards workers =
        run_sharded-traverse pool keeps cpu has_cpu (traverse f) shards workers
        ∙ traverse-concat shards

-- Cut into any number of shards and run by any number of workers, a worker that handles its items one
-- by one gives what a loop over all the items in one process gives: the same list of results in the
-- same order, or the same first exception. The pool keeps the order of the shards and there is a
-- processor.
pub run_sharded-make_shards :
    {E A B : Type 0} (f : A → Result E B) (pool : Pool E A B)
    → KeepsOrder pool
    → (cpu : ℕ) → 1 ≤ cpu
    → (items : List A) (n workers : ℕ) (shards : List (List A)) → make_shards items n ≡ ok shards
    → run_sharded pool cpu shards (traverse f) workers ≡ traverse f items
run_sharded-make_shards f pool keeps cpu has_cpu items zero workers shards h =
    absurd (unfold make_shards in cc h)
run_sharded-make_shards f pool keeps cpu has_cpu items (suc n) workers shards h =
    let (shards', made, cut) = (make_shards-IsCut items n).1 in
    run_sharded-concat f pool keeps cpu has_cpu shards workers
    ∙ ap (λ s. traverse f (concat s)) (ok-injective (sym h ∙ made))
    ∙ ap (traverse f) cut.whole

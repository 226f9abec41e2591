-- ===== src/Perf/Shard/Even.antt =====
-- `make_shards` of src/learnarken/perf/shard.py cuts a list into near-equal runs.
use learn_arken.Prelude.{
  ℕ, zero, suc, ◌+◌, ◌-◌, ◌*◌, ◌/◌, ◌%◌, min, ◌≤◌, ◌<◌, ◌≡◌, refl, sym, ◌∙◌, ap, List, [], ◌∷◌,
  ◌++◌, length, take, drop, ok, raise, arith, All, length-take, length-drop, take-append-drop,
}
use mathlib.Core.List.{append_assoc, append-nil}
use learn_arken.Perf.Shard.{bad_count, shard_size, shard_loop, make_shards, concat}

module _ {ℓ} {T : Type ℓ} where
  drop_nil : (n : ℕ) → drop {A = T} n [] ≡ []
  drop_nil zero = refl
  drop_nil (suc n) = refl

  drop-drop : (a b : ℕ) (xs : List T) → drop b (drop a xs) ≡ drop (a + b) xs
  drop-drop zero b xs = let e : 0 + b ≡ b = omega arith in rw e
  drop-drop (suc a) b [] = drop_nil b ∙ sym (drop_nil (suc a + b))
  drop-drop (suc a) b (x ∷ xs) =
      let e : suc a + b ≡ suc (a + b) = omega arith in rw e (drop-drop a b xs)

  drop-length : (xs : List T) → drop (length xs) xs ≡ []
  drop-length [] = refl
  drop-length (x ∷ xs) = drop-length xs

module _ {ℓ} {T : Type ℓ} (items : List T) (q r : ℕ) where
  -- What `left` rounds from `i` take.
  abbrev total : ℕ → ℕ → ℕ
  total zero i = 0
  total (suc left) i = shard_size items q r i + total left (i + 1)

  total_closed : (left i : ℕ) → total left i ≡ left * q + min left (r - i)
  total_closed zero i = omega arith
  total_closed (suc left) i = ground (arith, total_closed left (i + 1))

  concat-shard_loop :
      (left i start : ℕ)
      → concat (shard_loop items q r left i start) ++ drop (start + total left i) items
        ≡ drop start items
  unfolding shard_loop
  concat-shard_loop zero i start = let e : start + 0 ≡ start = omega arith in rw e
  concat-shard_loop (suc left) i start =
      let size = shard_size items q r i in
      let e : start + (size + total left (i + 1)) ≡ start + size + total left (i + 1) =
        omega arith in
      rw (append_assoc, e)
        (ap (λ t. take size (drop start items) ++ t) (concat-shard_loop left (i + 1) (start + size))
          ∙ ap (λ t. take size (drop start items) ++ t) (sym (drop-drop start size items))
          ∙ take-append-drop size (drop start items))

  length-shard_loop : (left i start : ℕ) → length (shard_loop items q r left i start) ≡ left
  unfolding shard_loop
  length-shard_loop zero i start = refl
  length-shard_loop (suc left) i start = ap suc (length-shard_loop left (i + 1) _)

  -- Near-equal: the sizes differ by one at most.
  abbrev NearEqual : List T → Type 0
  NearEqual s = (q ≤ length s) × (length s ≤ q + 1)

  shard_loop-NearEqual :
      (left i start : ℕ)
      → start + total left i ≤ length items
      → All NearEqual (shard_loop items q r left i start)
  unfolding shard_loop
  shard_loop-NearEqual zero i start h = tt
  shard_loop-NearEqual (suc left) i start h = (
    ground
        (arith, length-take (shard_size items q r i) (drop start items), length-drop start items),
    shard_loop-NearEqual left (i + 1) _ (omega arith),
  )

  pub shard_loop_lem :
      (n : ℕ)
      → n * q + r ≡ length items
      → r < n
      → (concat (shard_loop items q r n 0 0) ≡ items)
        × (length (shard_loop items q r n 0 0) ≡ n)
        × All NearEqual (shard_loop items q r n 0 0)
  shard_loop_lem n e small =
      let t : 0 + total n 0 ≡ length items = omega (arith, total_closed n 0) in
      (
        sym (append-nil _)
            ∙ ap (λ z. concat (shard_loop items q r n 0 0) ++ z) (sym (drop-length items))
            ∙ rw t at (concat-shard_loop n 0 0),
        length-shard_loop n 0 0,
        shard_loop-NearEqual n 0 0 (omega (arith, t)),
      )

quotient_positive : (a b : ℕ) → 1 ≤ b → b ≤ a → 1 ≤ a / b
quotient_positive a b h k = grind arith

module _ {ℓ} {T : Type ℓ} where
  -- The shards are the items, cut in their order into `n` runs, or into one for each item if there
  -- are fewer than `n`; no run is empty, and any two differ in length by one at most.
  pub record IsCut (items : List T) (n : ℕ) (shards : List (List T)) : Type ℓ where
    pub whole : concat shards ≡ items
    pub count : length shards ≡ min n (length items)
    pub low : ℕ
    pub positive : 1 ≤ low
    pub sizes : All (λ s. (low ≤ length s) × (length s ≤ low + 1)) shards

  IsCut-items :
      (items : List T) (n n' : ℕ)
      → 1 ≤ n'
      → n' ≤ length items
      → n' ≡ min n (length items)
      → IsCut items n (shard_loop items (length items / n') (length items % n') n' 0 0)
  IsCut-items items n n' pos fits e =
      let q = length items / n' in
      let r = length items % n' in
      let (whole, count, sizes) = shard_loop_lem items q r n' (grind arith) (omega arith) in
      record {
        whole = whole;
        count = count ∙ e;
        low = q;
        positive = quotient_positive (length items) n' pos fits;
        sizes = sizes;
      }

-- For any list and any number of shards that is accepted, the shards are the items, cut in their
-- order into that many runs, or into one for each item if there are fewer items; no run is empty, and
-- any two differ in length by one at most. Zero shards are refused.
pub make_shards-IsCut :
    {T : Type 0} (items : List T) (n : ℕ)
    → (make_shards items 0 ≡ raise (bad_count 0))
      × ((shards : List (List T)) × (make_shards items (suc n) ≡ ok shards)
          × IsCut items (suc n) shards)
unfolding make_shards
make_shards-IsCut [] n = (
  refl,
  (
    [],
    refl,
    record { whole = refl; count = omega arith; low = 1; positive = omega arith; sizes = tt },
  ),
)
make_shards-IsCut (x ∷ xs) n =
    (refl, (_, refl, IsCut-items (x ∷ xs) (suc n) _ (omega arith) (omega arith) refl))

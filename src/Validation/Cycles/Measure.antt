-- ===== src/Validation/Cycles/Measure.antt =====
-- `_find_cycles` of src/learnarken/validation/engine.py: the nodes that are not indexed yet, and where the nodes stand.
use mathlib.Core.List.{Memᴰ}
use mathlib.Core.List.Memᴰ
use learn_arken.Prelude.{
  ℕ, zero, suc, ◌+◌, ◌≤◌, String, ◌≡◌, refl, ◌∙◌, subst, Bool, true, false, List, [], ◌∷◌, ◌++◌,
  length, drop, str_eq, eq_iff, inl, inr, Bool-cases, is_none, filter, arith, All, All-map, All-mem,
  if◌then◌else◌,
}
use learn_arken.Prelude.Dict
use learn_arken.Prelude.Dict.{Dict}
use learn_arken.Validation.CrossFile.{Graph}
use learn_arken.Validation.Cycles.{nodes, children}

abbrev pub is_new : Dict ℕ → String → Bool
is_new index v = is_none (Dict.get v index)

-- How many of the nodes are not indexed.
abbrev pub count_new : Dict ℕ → List String → ℕ
count_new index vs = length (filter (is_new index) vs)

is_new-put :
    (index : Dict ℕ) (node v : String) (n : ℕ)
    → is_new (Dict.put node n index) v ≡ (if str_eq node v then false else is_new index v)
is_new-put index node v n = elim (Bool-cases (str_eq node v)) [
  | inl y ↦ rw (Dict.get-put node v n index) (rw y refl)
  | inr o ↦ rw (Dict.get-put node v n index) (rw o refl)
]

count_new-put_le :
    (index : Dict ℕ) (node : String) (n : ℕ) (vs : List String)
    → count_new (Dict.put node n index) vs ≤ count_new index vs
count_new-put_le index node n [] = omega arith
count_new-put_le index node n (v ∷ vs) =
    ground (arith, is_new-put index node v n, count_new-put_le index node n vs)

pub count_new_le : (index : Dict ℕ) (vs : List String) → count_new index vs ≤ length vs
count_new_le index [] = omega arith
count_new_le index (v ∷ vs) = ground (arith, count_new_le index vs)

-- Indexing a new node leaves fewer new ones.
pub count_new-put :
    (index : Dict ℕ) (node : String) (n : ℕ) (vs : List String)
    → is_new index node ≡ true
    → Memᴰ node vs
    → count_new (Dict.put node n index) vs + 1 ≤ count_new index vs
count_new-put index node n [] h m = elim m [ ]
count_new-put index node n (v ∷ vs) h (Memᴰ.head e) =
    let same = subst (λ (z : String). is_new index z ≡ true) e h in
    let gone : is_new (Dict.put node n index) v ≡ false =
      is_new-put index node v n ∙ rw ((eq_iff node v).1 e) refl in
    let rest = count_new-put_le index node n vs in rw (same, gone) (omega (arith, rest))
count_new-put index node n (v ∷ vs) h (Memᴰ.tail m) =
    ground (arith, is_new-put index node v n, count_new-put index node n vs h m)

pub keys-nodes : (graph : Graph) → All (λ v. Memᴰ v (nodes graph)) (Dict.keys graph)
unfolding nodes
keys-nodes [] = tt
keys-nodes ((node, cs) ∷ graph) = (
  Memᴰ.head refl,
  All-map (λ v. Memᴰ v (nodes graph)) (λ v. Memᴰ v (node ∷ (cs ++ nodes graph)))
      (λ v m. Memᴰ.tail (Memᴰ.append_right cs m)) (Dict.keys graph) (keys-nodes graph),
)

children-cons :
    (k node : String) (cs : List String) (graph : Graph)
    → children ((k, cs) ∷ graph) node ≡ (if str_eq k node then cs else children graph node)
unfolding Dict.get
children-cons k node cs graph = elim (Bool-cases (str_eq k node)) [
  | inl y ↦ rw (y, children) refl
  | inr n ↦ rw (n, children) refl
]

pub children-nodes :
    (graph : Graph) (node : String) → All (λ v. Memᴰ v (nodes graph)) (children graph node)
unfolding nodes Dict.get
children-nodes [] node = tt
children-nodes ((k, cs) ∷ graph) node =
    rw (children-cons k node cs graph) (picked (children-nodes graph node) (str_eq k node))
  where
    Known : List String → Type 0
    Known vs = All (λ v. Memᴰ v (k ∷ (cs ++ nodes graph))) vs

    picked :
        All (λ v. Memᴰ v (nodes graph)) (children graph node)
        → (b : Bool) → Known (if b then cs else children graph node)
    picked rest true =
        All-map (λ v. Memᴰ v cs) (λ v. Memᴰ v (k ∷ (cs ++ nodes graph)))
          (λ v m. Memᴰ.tail (Memᴰ.append_left (nodes graph) m)) cs (All-mem cs)
    picked rest false =
        All-map (λ v. Memᴰ v (nodes graph)) (λ v. Memᴰ v (k ∷ (cs ++ nodes graph)))
          (λ v m. Memᴰ.tail (Memᴰ.append_right cs m)) (children graph node) rest

pub drop-All : (P : String → Type 0) (n : ℕ) (xs : List String) → All P xs → All P (drop n xs)
drop-All P zero xs h = h
drop-All P (suc n) [] h = tt
drop-All P (suc n) (x ∷ xs) h = drop-All P n xs h.1

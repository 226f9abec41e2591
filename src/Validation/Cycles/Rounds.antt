-- ===== src/Validation/Cycles/Rounds.antt =====
-- `_find_cycles` of src/learnarken/validation/engine.py: no lookup and no pop of a round fails.
use mathlib.Core.List.{Memᴰ, append_assoc}
use learn_arken.Prelude.{
  ℕ, suc, ◌≤◌, min, String, ◌≡◌, ◌⊎◌, refl, sym, ap, ◌∙◌, true, false, Option, none, some, List, [],
  ◌∷◌, ◌++◌, length, elem, str_eq, eq_iff, eq_refl, inl, inr, Bool-cases, Option-cases, arith, All,
  ok,
}
use learn_arken.Prelude.Dict
use learn_arken.Prelude.Dict.{Dict}
use learn_arken.Validation.CrossFile.{Graph}
use learn_arken.Validation.Cycles.{
  Search, Work, lookup, is_indexed, children, lower, scan, pop_until,
}

-- What has an index has a lowlink.
abbrev pub IsPaired : Search → Type 0
IsPaired s = (v : String) → is_indexed s v ≡ true → (n : ℕ) × (Dict.get v s.lowlink ≡ some n)

abbrev pub with_lowlink : Search → Dict ℕ → Search
with_lowlink s d = record s { lowlink = d }

pub indexed :
    (s : Search) (v : String) → is_indexed s v ≡ true → (n : ℕ) × (Dict.get v s.index ≡ some n)
indexed s v h = elim (Option-cases (Dict.get v s.index)) [
  | inl n ↦ absurd (cc (rw n at h))
  | inr found ↦ found
]

pub lookup-eq-ok :
    (key : String) (d : Dict ℕ) (n : ℕ) → Dict.get key d ≡ some n → lookup key d ≡ ok n
unfolding lookup
lookup-eq-ok key d n h = rw (h, lookup) refl

put-IsPaired :
    (s : Search) (node : String) (n : ℕ)
    → IsPaired s
    → IsPaired (with_lowlink s (Dict.put node n s.lowlink))
put-IsPaired s node n p v h = elim (Bool-cases (str_eq node v)) [
  | inl y ↦ (n, Dict.get-put node v n s.lowlink ∙ rw y refl)
  | inr o ↦ let (m, e) = p v h in (m, Dict.get-put node v n s.lowlink ∙ rw o e)
]

pub lower-total :
    (s : Search) (node : String) (n : ℕ)
    → IsPaired s
    → is_indexed s node ≡ true
    → (d : Dict ℕ) × (lower node n s ≡ ok (with_lowlink s d)) × IsPaired (with_lowlink s d)
unfolding lower
lower-total s node n p h =
    let (low, e) = p node h in
    (
      Dict.put node (min low n) s.lowlink,
      rw (lookup-eq-ok node s.lowlink low e) refl,
      put-IsPaired s node (min low n) p,
    )

-- A child that the search advances to is new, and its node is taken up again after it.
abbrev pub IsNext : Search → List String → Option (String × ℕ) → Type 0
IsNext s cs none = Unit
IsNext s cs (some (child, j)) = (is_indexed s child ≡ false) × Memᴰ child cs × (1 ≤ j)

IsNext-tail :
    (s : Search) (c : String) (cs : List String) (next : Option (String × ℕ))
    → IsNext s cs next
    → IsNext s (c ∷ cs) next
IsNext-tail s c cs none h = tt
IsNext-tail s c cs (some (child, j)) h = (h.0, Memᴰ.tail h.1, h.2)

abbrev pub IsScanned : String → ℕ → List String → Search → Type 0
IsScanned node i cs s =
    (d : Dict ℕ) × (next : Option (String × ℕ)) × (scan node i cs s ≡ ok (with_lowlink s d, next))
    × IsPaired (with_lowlink s d)
    × IsNext s cs next

pub scan-total :
    (node : String) (i : ℕ) (cs : List String) (s : Search)
    → IsPaired s
    → is_indexed s node ≡ true
    → IsScanned node i cs s
unfolding scan
scan-total node i [] s p h = (s.lowlink, none, refl, p, tt)
scan-total node i (child ∷ cs) s p h = elim (Bool-cases (is_indexed s child)) [
  | inr new ↦ (s.lowlink, some (child, suc i), rw new refl, p, (new, Memᴰ.head refl, omega arith))
  | inl old ↦ elim (Bool-cases (elem child s.on_stack)) [
    | inr off ↦
        let (d, next, e, q, m) = scan-total node (suc i) cs s p h in
        (d, next, rw (old, off) e, q, IsNext-tail s child cs next m)
    | inl on ↦
        let (n, found) = indexed s child old in
        let (d1, lowered, q1) = lower-total s node n p h in
        let (d, next, e, q, m) = scan-total node (suc i) cs (with_lowlink s d1) q1 h in
        (
          d,
          next,
          rw (old, on) (rw (lookup-eq-ok child s.index n found) (rw lowered e)),
          q,
          IsNext-tail s child cs next m,
        )
  ]
]

-- The members that are popped end in `node`.
pub pop_until-total :
    (node : String) (above below : List String)
    → (front : List String) × (rest : List String) × (pop_until node (above ++ node ∷ below)
        ≡ ok (front ++ node ∷ [], rest ++ below))
unfolding pop_until
pop_until-total node [] below = ([], [], rw (eq_refl node) refl)
pop_until-total node (m ∷ above) below = elim (Bool-cases (str_eq m node)) [
  | inl y ↦
      let same = (eq_iff m node).0 y in
      (
        [],
        above ++ node ∷ [],
        rw y (
            ap (λ (z : String). ok (z ∷ [], above ++ node ∷ below)) same
            ∙ ap (λ (z : List String). ok (node ∷ [], z))
                (sym (append_assoc above (node ∷ []) below))),
      )
  | inr n ↦
      let (front, rest, e) = pop_until-total node above below in (m ∷ front, rest, rw n (rw e refl))
]

-- The open calls below the top, each with its node further down the stack.
abbrev pub Under : List String → Work → Type 0
Under stack [] = Unit
Under stack ((node, i) ∷ work) =
    (1 ≤ i)
    × ((above : List String) × (below : List String) × (stack ≡ above ++ node ∷ below)
        × Under below work)

pub Under-append :
    (rest stack : List String) (work : Work) → Under stack work → Under (rest ++ stack) work
Under-append rest stack [] h = tt
Under-append rest stack ((node, i) ∷ work) (j, (above, below, e, u)) = (
  j,
  (
    rest ++ above,
    below,
    ap (λ (z : List String). rest ++ z) e ∙ sym (append_assoc rest above (node ∷ below)),
    u,
  ),
)

-- More than one member, or one that refers to itself.
abbrev pub IsCyclic : Graph → List String → Type 0
IsCyclic graph scc =
    (2 ≤ length scc)
    ⊎ ((node : String) × (scc ≡ node ∷ []) × (elem node (children graph node) ≡ true))

abbrev pub AreIndexed : Search → Work → Type 0
AreIndexed s work = All (λ (e : String × ℕ). is_indexed s e.0 ≡ true) work

-- What holds between two rounds, for the calls that have begun.
pub record Holds (graph : Graph) (s : Search) (work : Work) : Type 0 where
  pub paired : IsPaired s
  pub cyclic : All (IsCyclic graph) s.sccs
  pub under : Under s.stack work
  pub begun : AreIndexed s work

-- ===== src/Validation/Cycles/Total.antt =====
-- `_find_cycles` of src/learnarken/validation/engine.py: the fuel is enough, and no lookup or pop of the search fails.
use mathlib.Core.List.{Memᴰ}
use learn_arken.Prelude.{
  ℕ, zero, suc, ◌+◌, ◌*◌, ◌≤◌, String, ◌≡◌, refl, ◌∙◌, Bool, true, false, Option, none, some, List,
  [], ◌∷◌, length, drop, ◌==◌, str_eq, str_le, inl, inr, Bool-cases, is_none, not, arith, All,
  All-map, All-lookup, Result, ok, ◌>>=◌,
}
use learn_arken.Prelude.Dict
use learn_arken.Prelude.Dict.{Dict}
use learn_arken.Prelude.Sort.{sort, All-sort}
use learn_arken.Validation.CrossFile.{Graph}
use learn_arken.Validation.Cycles.{
  Fault, Search, Work, is_indexed, children, visit, scan, advance, round, explore, search_from,
  new_search, list_le, nodes, enough, find_cycles,
}
use learn_arken.Validation.Cycles.Measure.{
  count_new, count_new_le, count_new-put, keys-nodes, children-nodes, drop-All,
}
use learn_arken.Validation.Cycles.Rounds.{
  IsPaired, scan-total, IsNext, IsCyclic, Holds, with_lowlink,
}
use learn_arken.Validation.Cycles.Finish.{finish-total}

module _ (graph : Graph) where
  -- The rounds that are left suffice: two for a node that is not indexed, and one for a call that has begun.
  abbrev Ready : ℕ → Search → Work → Type 0
  Ready fuel s [] = Holds graph s []
  Ready fuel s ((node, zero) ∷ work) =
      (is_indexed s node ≡ false)
      × Memᴰ node (nodes graph)
      × Holds graph s work
      × (2 * count_new s.index (nodes graph) + length work ≤ fuel)
  Ready fuel s ((node, suc i) ∷ work) =
      Holds graph s ((node, suc i) ∷ work)
      × (2 * count_new s.index (nodes graph) + length work + 2 ≤ fuel)

  visit-IsPaired : (node : String) (s : Search) → IsPaired s → IsPaired (visit node s)
  visit-IsPaired node s p v h = elim (Bool-cases (str_eq node v)) [
    | inl y ↦ (s.counter, Dict.get-put node v s.counter s.lowlink ∙ rw y refl)
    | inr n ↦
        let old = rw (Dict.get-put node v s.counter s.index, n) at h in
        let (m, e) = p v old in (m, Dict.get-put node v s.counter s.lowlink ∙ rw n e)
  ]

  visit_indexed :
      (node : String) (s : Search) (v : String)
      → is_indexed s v ≡ true
      → is_indexed (visit node s) v ≡ true
  visit_indexed node s v h = elim (Bool-cases (str_eq node v)) [
    | inl y ↦ rw (Dict.get-put node v s.counter s.index, y) refl
    | inr n ↦ rw (Dict.get-put node v s.counter s.index, n) h
  ]

  visit_self : (node : String) (s : Search) → is_indexed (visit node s) node ≡ true
  visit_self node s = rw (Dict.get-put_self node s.counter s.index) refl

  visit-Holds :
      (node : String) (work : Work) (s : Search)
      → Holds graph s work
      → Holds graph (visit node s) ((node, 1) ∷ work)
  visit-Holds node work s h = record {
    paired = visit-IsPaired node s h.paired;
    cyclic = h.cyclic;
    under = (omega arith, ([], s.stack, refl, h.under));
    begun = (
      visit_self node s,
      All-map (λ (e : String × ℕ). is_indexed s e.0 ≡ true)
          (λ (e : String × ℕ). is_indexed (visit node s) e.0 ≡ true)
          (λ e i. visit_indexed node s e.0 i) work h.begun,
    );
  }

  not-false : (b : Bool) → not b ≡ false → b ≡ true
  not-false true h = refl
  not-false false h = absurd (cc h)

  fewer :
      (node : String) (s : Search)
      → is_indexed s node ≡ false
      → Memᴰ node (nodes graph)
      → count_new (visit node s).index (nodes graph) + 1 ≤ count_new s.index (nodes graph)
  fewer node s h m =
      count_new-put s.index node s.counter (nodes graph)
        (not-false (is_none (Dict.get node s.index)) h) m

  visit-Ready :
      (fuel : ℕ) (node : String) (work : Work) (s : Search)
      → Ready fuel s ((node, zero) ∷ work)
      → Ready fuel (visit node s) ((node, 1) ∷ work)
  visit-Ready fuel node work s (new, m, h, bound) =
      (visit-Holds node work s h, omega (arith, fewer node s new m, bound))

  abbrev AreReady : ℕ → Result Fault (Search × Work) → Type 0
  AreReady fuel r = (s : Search) × (work : Work) × (r ≡ ok (s, work)) × Ready fuel s work

  resume-Ready :
      (fuel : ℕ) (work : Work) (s : Search)
      → Holds graph s work
      → 2 * count_new s.index (nodes graph) + length work + 2 ≤ suc fuel
      → Ready fuel s work
  resume-Ready fuel [] s h bound = h
  resume-Ready fuel ((node, zero) ∷ work) s h bound = absurd (omega (arith, h.under.0))
  resume-Ready fuel ((node, suc i) ∷ work) s h bound = (h, omega (arith, bound))

  advance-Ready :
      (fuel : ℕ) (node : String) (i : ℕ) (cs : List String) (work : Work) (s : Search)
      (next : Option (String × ℕ))
      → All (λ v. Memᴰ v (nodes graph)) cs
      → Ready (suc fuel) s ((node, suc i) ∷ work)
      → IsNext s cs next
      → AreReady fuel (advance graph node work s next)
  advance-Ready fuel node i cs work s none known (h, bound) m =
      let (s', finished, h', same) = finish-total graph node (suc i) work s h in
      (s', work, rw finished refl, resume-Ready fuel work s' h' (rw same bound))
  advance-Ready fuel node i cs work s (some (child, zero)) known (h, bound) (new, m, j) =
      absurd (omega (arith, j))
  advance-Ready fuel node i cs work s (some (child, suc j)) known (h, bound) (new, m, one) = (
    s,
    (child, 0) ∷ (node, suc j) ∷ work,
    refl,
    (
      new,
      All-lookup (λ v. Memᴰ v (nodes graph)) cs known m,
      record {
        paired = h.paired;
        cyclic = h.cyclic;
        under = (omega arith, h.under.1);
        begun = h.begun;
      },
      omega (arith, bound),
    ),
  )

  -- A round that has entered its node.
  scanned-Ready :
      (fuel : ℕ) (node : String) (i j : ℕ) (work : Work) (s : Search)
      → Ready (suc fuel) s ((node, suc i) ∷ work)
      → AreReady fuel
          (scan node j (drop j (children graph node)) s >>= λ r. advance graph node work r.0 r.1)
  scanned-Ready fuel node i j work s (h, bound) =
      let cs = drop j (children graph node) in
      let (d, next, scanned, p, m) = scan-total node j cs s h.paired h.begun.0 in
      let known =
        drop-All (λ v. Memᴰ v (nodes graph)) j (children graph node) (children-nodes graph node) in
      let h' : Holds graph (with_lowlink s d) ((node, suc i) ∷ work) = record {
        paired = p;
        cyclic = h.cyclic;
        under = h.under;
        begun = h.begun;
      } in
      rw scanned (advance-Ready fuel node i cs work (with_lowlink s d) next known (h', bound) m)

  suc-==-zero : (i : ℕ) → (suc i == 0) ≡ false
  suc-==-zero i = ground arith

  round-Ready :
      (fuel : ℕ) (node : String) (i : ℕ) (work : Work) (s : Search)
      → Ready (suc fuel) s ((node, i) ∷ work)
      → AreReady fuel (round graph node i work s)
  unfolding round
  round-Ready fuel node zero work s r =
      scanned-Ready fuel node 0 0 work (visit node s) (visit-Ready (suc fuel) node work s r)
  round-Ready fuel node (suc i) work s r =
      rw (suc-==-zero i) (scanned-Ready fuel node i (suc i) work s r)

  abbrev IsOver : Result Fault Search → Type 0
  IsOver r = (s : Search) × (r ≡ ok s) × Holds graph s []

  -- The fuel is enough for the rounds that are left.
  explore-total :
      (fuel : ℕ) (work : Work) (s : Search) → Ready fuel s work → IsOver (explore fuel graph s work)
  unfolding explore
  explore-total zero [] s h = (s, refl, h)
  explore-total (suc fuel) [] s h = (s, refl, h)
  explore-total zero ((node, zero) ∷ work) s (new, m, h, bound) =
      absurd (omega (arith, fewer node s new m, bound))
  explore-total zero ((node, suc i) ∷ work) s (h, bound) = absurd (omega (arith, bound))
  explore-total (suc fuel) ((node, i) ∷ work) s r =
      let (s', work', e, ready) = round-Ready fuel node i work s r in
      let (s'', e', over) = explore-total fuel work' s' ready in (s'', rw e e', over)

  search_from-total :
      (starts : List String) (s : Search)
      → All (λ v. Memᴰ v (nodes graph)) starts
      → Holds graph s []
      → IsOver (search_from (enough graph) graph starts s)
  unfolding search_from
  search_from-total [] s known h = (s, refl, h)
  search_from-total (start ∷ later) s known h = elim (Bool-cases (is_indexed s start)) [
    | inl y ↦ rw y (search_from-total later s known.1 h)
    | inr n ↦
        let ready : Ready (enough graph) s ((start, 0) ∷ []) =
          (n, known.0, h, omega (arith, count_new_le s.index (nodes graph))) in
        let (s', e, h') = explore-total (enough graph) ((start, 0) ∷ []) s ready in
        let (s'', e', over) = search_from-total later s' known.1 h' in (s'', rw n (rw e e'), over)
  ]

  new_search-Holds : Holds graph new_search []
  unfolding Dict.get
  new_search-Holds = record { paired = λ v h. absurd (cc h); cyclic = tt; under = tt; begun = tt }

-- The search for cycles ends without a failed lookup or pop and within its fuel, on every graph. Each component that
-- it returns has more than one node, or is one node that the graph lists among its own children.
pub find_cycles-total :
    (graph : Graph)
    → (cycles : List (List String)) × (find_cycles graph ≡ ok cycles) × All (IsCyclic graph) cycles
unfolding find_cycles
find_cycles-total graph =
    let starts = sort str_le (Dict.keys graph) in
    let known = All-sort str_le (λ v. Memᴰ v (nodes graph)) (Dict.keys graph) (keys-nodes graph) in
    let (s, e, h) = search_from-total graph starts new_search known (new_search-Holds graph) in
    (sort list_le s.sccs, rw e refl, All-sort list_le (IsCyclic graph) s.sccs h.cyclic)

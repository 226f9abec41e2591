-- ===== src/Validation/Cycles/Finish.antt =====
-- `_find_cycles` of src/learnarken/validation/engine.py: a call ends, its component is closed and its parent goes on.
use mathlib.Core.List.{append_assoc}
use learn_arken.Prelude.{
  some, ℕ, ◌≤◌, String, ◌≡◌, refl, sym, ap, ◌∙◌, subst, true, List, [], ◌∷◌, ◌++◌, length, ◌==◌,
  str_le, inl, inr, Bool-cases, arith, All, All-append, if◌then◌else◌, ok,
}
use learn_arken.Prelude.Dict
use learn_arken.Prelude.Dict.{Dict}
use learn_arken.Prelude.Sort.{sort, insert, length-sort}
use learn_arken.Validation.CrossFile.{Graph}
use learn_arken.Validation.Cycles.{
  Search, Work, pop_until, discard_all, is_cycle, close, pass_up, finish,
}
use learn_arken.Validation.Cycles.Rounds.{
  with_lowlink, indexed, lookup-eq-ok, lower-total, pop_until-total, Under, Under-append, IsCyclic,
  Holds,
}

is_cycle-IsCyclic :
    (graph : Graph) (node : String) (front : List String)
    → is_cycle graph node (front ++ node ∷ []) ≡ true
    → IsCyclic graph (sort str_le (front ++ node ∷ []))
unfolding sort insert
is_cycle-IsCyclic graph node [] h = inr (node, refl, h)
is_cycle-IsCyclic graph node (m ∷ front) h =
    inl (grind (arith, length-sort str_le (m ∷ front ++ node ∷ []), length-snoc front))
  where
    length-snoc : (xs : List String) → 1 ≤ length (xs ++ node ∷ [])
    length-snoc [] = omega arith
    length-snoc (x ∷ xs) = omega (arith, length-snoc xs)

grown-IsCyclic :
    (graph : Graph) (node : String) (front : List String) (sccs : List (List String))
    → All (IsCyclic graph) sccs
    → All (IsCyclic graph) (
        if is_cycle graph node (front ++ node ∷ [])
        then sccs ++ sort str_le (front ++ node ∷ []) ∷ []
        else sccs)
grown-IsCyclic graph node front sccs h =
    elim (Bool-cases (is_cycle graph node (front ++ node ∷ []))) [
      | inl y ↦ rw y (
          All-append (IsCyclic graph) sccs (sort str_le (front ++ node ∷ []) ∷ []) h
            (is_cycle-IsCyclic graph node front y, tt))
      | inr n ↦ rw n h
    ]

-- The component of `node` is closed: the calls below it are still open.
abbrev IsClosed : Graph → String → Work → Search → Type 0
IsClosed graph node work s =
    (s' : Search) × (close graph node s ≡ ok s')
    × Holds graph s' work
    × (s'.index ≡ s.index)
    × (s'.lowlink ≡ s.lowlink)

close-total :
    (graph : Graph) (node : String) (i : ℕ) (work : Work) (s : Search)
    → Holds graph s ((node, i) ∷ work)
    → IsClosed graph node work s
unfolding close
close-total graph node i work s h =
    let (above, below, e, u) = h.under.1 in
    let (front, rest, popped) = pop_until-total node above below in
    let scc = front ++ node ∷ [] in
    let found : pop_until node s.stack ≡ ok (scc, rest ++ below) = ap (pop_until node) e ∙ popped in
    (
      record s {
        stack = rest ++ below;
        on_stack = discard_all scc s.on_stack;
        sccs = if is_cycle graph node scc then s.sccs ++ sort str_le scc ∷ [] else s.sccs;
      },
      rw found refl,
      record {
        paired = h.paired;
        cyclic = grown-IsCyclic graph node front s.sccs h.cyclic;
        under = Under-append rest below work u;
        begun = h.begun.1;
      },
      refl,
      refl,
    )

-- A call has ended; the calls below it go on.
abbrev pub IsFinished : Graph → String → Work → Search → Type 0
IsFinished graph node work s =
    (s' : Search) × (finish graph node work s ≡ ok s') × Holds graph s' work × (s'.index ≡ s.index)

abbrev IsPassed : Graph → String → Work → Search → Type 0
IsPassed graph node work s =
    (s' : Search) × (pass_up node work s ≡ ok s') × Holds graph s' work × (s'.index ≡ s.index)

pass_up-total :
    (graph : Graph) (node : String) (low : ℕ) (work : Work) (s : Search)
    → Holds graph s work
    → Dict.get node s.lowlink ≡ some low
    → IsPassed graph node work s
pass_up-total graph node low [] s h e = (s, refl, h, refl)
pass_up-total graph node low ((parent, i) ∷ work) s h e =
    let (d, lowered, p) = lower-total s parent low h.paired h.begun.0 in
    (
      with_lowlink s d,
      rw (lookup-eq-ok node s.lowlink low e) lowered,
      record { paired = p; cyclic = h.cyclic; under = h.under; begun = h.begun },
      refl,
    )

-- `s` without the top call: its node stays on the stack.
Holds-leave :
    (graph : Graph) (node : String) (i : ℕ) (work : Work) (s : Search)
    → Holds graph s ((node, i) ∷ work)
    → Holds graph s work
Holds-leave graph node i work s h =
    let (above, below, e, u) = h.under.1 in
    record {
      paired = h.paired;
      cyclic = h.cyclic;
      under =
          subst (λ (z : List String). Under z work) (append_assoc above (node ∷ []) below ∙ sym e)
            (Under-append (above ++ node ∷ []) below work u);
      begun = h.begun.1;
    }

pub finish-total :
    (graph : Graph) (node : String) (i : ℕ) (work : Work) (s : Search)
    → Holds graph s ((node, i) ∷ work)
    → IsFinished graph node work s
unfolding finish
finish-total graph node i work s h =
    let (low, e) = h.paired node h.begun.0 in
    let (first, f) = indexed s node h.begun.0 in
    let lows = lookup-eq-ok node s.lowlink low e in
    let firsts = lookup-eq-ok node s.index first f in
    elim (Bool-cases (low == first)) [
      | inl y ↦
          let (s1, closed, h1, same, lows1) = close-total graph node i work s h in
          let (s2, passed, h2, same2) =
            pass_up-total graph node low work s1 h1 (ap (Dict.get node) lows1 ∙ e) in
          (s2, rw (lows, firsts) (rw (y, closed) passed), h2, same2 ∙ same)
      | inr n ↦
          let (s2, passed, h2, same2) =
            pass_up-total graph node low work s (Holds-leave graph node i work s h) e in
          (s2, rw (lows, firsts) (rw n passed), h2, same2)
    ]

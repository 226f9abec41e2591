-- ===== src/Validation/Cycles.antt =====
-- `_find_cycles` of src/learnarken/validation/engine.py: Tarjan's algorithm with an explicit stack. The stack and the
-- list of open calls have their top first. A failed lookup or pop is a `Fault`, and so is the end of the fuel.
pub mod Measure
pub mod Rounds
pub mod Finish
pub mod Total
pub mod Samples
use learn_arken.Prelude.{
  ℕ, zero, suc, ◌+◌, ◌*◌, min, String, Bool, true, false, ◌||◌, not, Option, none, some, List, [],
  ◌∷◌, ◌++◌, length, drop, elem, ltb, ◌==◌, str_eq, str_le, str_lt, filter, is_none, if◌then◌else◌,
  Result, ok, raise, ◌>>=◌,
}
use learn_arken.Prelude.Dict
use learn_arken.Prelude.Dict.{Dict}
use learn_arken.Prelude.Sort.{sort}
use learn_arken.Validation.CrossFile.{Graph}

pub data Fault : Type 0 where
  key_error index_error out_of_fuel : Fault

-- The variables of the search; `work` is apart.
pub record Search : Type 0 where
  pub index : Dict ℕ
  pub lowlink : Dict ℕ
  pub on_stack : List String
  pub stack : List String
  pub counter : ℕ
  pub sccs : List (List String)

abbrev pub Work : Type 0
Work = List (String × ℕ)

-- `d[key]`
unfoldable pub lookup : String → Dict ℕ → Result Fault ℕ
lookup key d = elim (Dict.get key d) [ none ↦ raise key_error | some n ↦ ok n ]

-- `graph.get(node, [])`
abbrev pub children : Graph → String → List String
children graph node = elim (Dict.get node graph) [ none ↦ [] | some cs ↦ cs ]

abbrev pub is_indexed : Search → String → Bool
is_indexed s node = not (is_none (Dict.get node s.index))

abbrev pub visit : String → Search → Search
visit node s = record s {
  index = Dict.put node s.counter s.index;
  lowlink = Dict.put node s.counter s.lowlink;
  counter = s.counter + 1;
  stack = node ∷ s.stack;
  on_stack = node ∷ s.on_stack;
}

-- `lowlink[node] = min(lowlink[node], n)`
unfoldable pub lower : String → ℕ → Search → Result Fault Search
lower node n s = do
  low ← lookup node s.lowlink
  ok (record s { lowlink = Dict.put node (min low n) s.lowlink })

-- The state after the `for` loop, and the child that it advances to with the place of the next one.
abbrev pub Scanned : Type 0
Scanned = Result Fault (Search × Option (String × ℕ))

-- The `for` loop over the children from place `i` on.
unfoldable pub scan : String → ℕ → List String → Search → Scanned
scan node i [] s = ok (s, none)
scan node i (child ∷ rest) s =
    let skip = scan node (suc i) rest s in
    let lowered : Scanned =
      lookup child s.index >>= λ n. lower node n s >>= λ s'. scan node (suc i) rest s' in
    if not (is_indexed s child)
    then ok (s, some (child, suc i))
    else if elem child s.on_stack
    then lowered
    else skip

abbrev pub discard : String → List String → List String
discard member names = filter (λ n. not (str_eq n member)) names

-- The `while True` loop: the members down to `node`, and the stack below it.
unfoldable pub pop_until : String → List String → Result Fault (List String × List String)
pop_until node [] = raise index_error
pop_until node (member ∷ stack) =
    let more : Result Fault (List String × List String) =
      pop_until node stack >>= λ popped. ok (member ∷ popped.0, popped.1) in
    if str_eq member node then ok (member ∷ [], stack) else more

abbrev pub discard_all : List String → List String → List String
discard_all [] names = names
discard_all (member ∷ scc) names = discard_all scc (discard member names)

-- `len(scc) > 1 or node in graph.get(node, [])`
abbrev pub is_cycle : Graph → String → List String → Bool
is_cycle graph node scc = ltb 1 (length scc) || elem node (children graph node)

unfoldable pub close : Graph → String → Search → Result Fault Search
close graph node s = do
  (scc, below) ← pop_until node s.stack
  ok (record s {
    stack = below;
    on_stack = discard_all scc s.on_stack;
    sccs = if is_cycle graph node scc then s.sccs ++ sort str_le scc ∷ [] else s.sccs;
  })

-- The parent takes over the child's lowlink.
abbrev pub pass_up : String → Work → Search → Result Fault Search
pass_up node [] s = ok s
pass_up node ((parent, i) ∷ work) s = do low ← lookup node s.lowlink; lower parent low s

-- The end of a call: `node` has no child left.
unfoldable pub finish : Graph → String → Work → Search → Result Fault Search
finish graph node work s = do
  low ← lookup node s.lowlink
  first ← lookup node s.index
  s' ← if low == first then close graph node s else ok s
  pass_up node work s'

abbrev pub advance :
    Graph → String → Work → Search → Option (String × ℕ) → Result Fault (Search × Work)
advance graph node work s (some (child, j)) = ok (s, (child, 0) ∷ (node, j) ∷ work)
advance graph node work s none = do s' ← finish graph node work s; ok (s', work)

-- One round of the `while` loop, with `(node, i)` on top of `work`.
unfoldable pub round : Graph → String → ℕ → Work → Search → Result Fault (Search × Work)
round graph node i work s = do
  (s', next) ← scan node i (drop i (children graph node)) (if i == 0 then visit node s else s)
  advance graph node work s' next

unfoldable pub explore : ℕ → Graph → Search → Work → Result Fault Search
explore fuel graph s [] = ok s
explore zero graph s (top ∷ work) = raise out_of_fuel
explore (suc fuel) graph s ((node, i) ∷ work) =
    round graph node i work s >>= λ r. explore fuel graph r.0 r.1

-- The `for` loop over the starts.
unfoldable pub search_from : ℕ → Graph → List String → Search → Result Fault Search
search_from fuel graph [] s = ok s
search_from fuel graph (start ∷ later) s =
    let searched : Result Fault Search =
      explore fuel graph s ((start, 0) ∷ []) >>= λ s'. search_from fuel graph later s' in
    let skipped = search_from fuel graph later s in if is_indexed s start then skipped else searched

abbrev pub new_search : Search
new_search = record { index = []; lowlink = []; on_stack = []; stack = []; counter = 0; sccs = [] }

-- Python's order of lists
unfoldable pub list_le : List String → List String → Bool
list_le [] ys = true
list_le (x ∷ xs) [] = false
list_le (x ∷ xs) (y ∷ ys) = let rest = list_le xs ys in if str_eq x y then rest else str_lt x y

-- Every node that the search can meet, some more than once.
unfoldable pub nodes : Graph → List String
nodes [] = []
nodes ((node, cs) ∷ graph) = node ∷ (cs ++ nodes graph)

-- A node is entered and left once at most.
abbrev pub enough : Graph → ℕ
enough graph = 2 * length (nodes graph) + 1

unfoldable pub find_cycles : Graph → Result Fault (List (List String))
find_cycles graph = do
  s ← search_from (enough graph) graph (sort str_le (Dict.keys graph)) new_search
  ok (sort list_le s.sccs)

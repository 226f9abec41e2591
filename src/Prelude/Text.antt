-- ===== src/Prelude/Text.antt =====
-- Python's `str`: `strip`, the order by code points, and membership in a collection of texts.
use Prim.Native.Nat.{ℕ, Ordering}
use Prim.Native.Char.{Char, code}
use Prim.Native.String.{String, compare, ◌++◌ as append}
use mathlib.Core.Bool.{Bool, true, false, ◌&&◌, ◌||◌}
use mathlib.Core.Option.{Option, none, some}
use mathlib.Core.List.{List, [], ◌∷◌}
use text.Mathlib.Text.{◌==◌ as str_eq}
use learn_arken.Prelude.Tests.{leb, ◌==◌, if◌then◌else◌}

abbrev pub str_le : String → String → Bool
str_le s t = elim (compare s t) [ Ordering.gt ↦ false | _ ↦ true ]

abbrev pub str_lt : String → String → Bool
str_lt s t = elim (compare s t) [ Ordering.lt ↦ true | _ ↦ false ]

-- The characters that `str.strip` removes: those for which `str.isspace` holds.
unfoldable pub is_space : ℕ → Bool
is_space c =
    leb 9 c && leb c 13
    || leb 28 c && leb c 32
    || c == 0x85
    || c == 0xa0
    || c == 0x1680
    || leb 0x2000 c && leb c 0x200a
    || c == 0x2028
    || c == 0x2029
    || c == 0x202f
    || c == 0x205f
    || c == 0x3000

unfoldable pub lstrip : String → String
lstrip String.[] = String.[]
lstrip (String.◌∷◌ c s) = let rest = lstrip s in if is_space (code c) then rest else String.◌∷◌ c s

-- Puts a character before a text that has been stripped at its right end.
abbrev put_left : Char → String → String
put_left c String.[] = if is_space (code c) then String.[] else String.◌∷◌ c String.[]
put_left c (String.◌∷◌ d s) = String.◌∷◌ c (String.◌∷◌ d s)

unfoldable pub rstrip : String → String
rstrip String.[] = String.[]
rstrip (String.◌∷◌ c s) = put_left c (rstrip s)

unfoldable pub strip : String → String
unfolding lstrip rstrip is_space
strip s = rstrip (lstrip s)

-- `s or ""` for an optional text
abbrev pub or_empty : Option String → String
or_empty none = ""
or_empty (some s) = s

infixl 68 ◌⧺◌
-- Concatenation of texts, as in an f-string.
abbrev pub ◌⧺◌ : String → String → String
s ⧺ t = append s t

-- `s in xs`, for a list, tuple, set or the keys of a dictionary
abbrev pub elem : String → List String → Bool
elem s [] = false
elem s (x ∷ xs) = str_eq s x || elem s xs

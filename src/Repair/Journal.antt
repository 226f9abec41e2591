-- ===== src/Repair/Journal.antt =====
-- The names in the journal of src/learnarken/repair/apply.py, written with `"\n".join` and read with
-- `str.split`, and the names that `_safe_basename` of src/learnarken/repair/sandbox.py lets through.
pub mod Words
use Prim.Native.Char.{Char, code}
use learn_arken.Prelude.{
  ℕ, String, ◌⧺◌, ◌≡◌, refl, Bool, true, false, not, ◌&&◌, ◌||◌, List, [], ◌∷◌, is_space, ◌==◌,
  if◌then◌else◌, str_eq,
}

unfoldable pub join_lines : List String → String
join_lines [] = ""
join_lines (n ∷ []) = n
join_lines (n ∷ m ∷ ns) = n ⧺ ("\n" ⧺ join_lines (m ∷ ns))

abbrev pub emit : String → List String → List String
emit String.[] ws = ws
emit (String.◌∷◌ c w) ws = String.◌∷◌ c w ∷ ws

-- The word that the text begins with, empty at a space, and the words after it.
unfoldable pub scan : String → String × List String
scan String.[] = ("", [])
scan (String.◌∷◌ c s) =
    let (w, ws) : String × List String = scan s in
    if is_space (code c) then ("", emit w ws) else (String.◌∷◌ c w, ws)

-- `text.split()`
unfoldable pub words : String → List String
words s = let (w, ws) : String × List String = scan s in emit w ws

abbrev has_separator : String → Bool
has_separator String.[] = false
has_separator (String.◌∷◌ c s) = code c == 47 || code c == 92 || has_separator s

abbrev begins_with_dot : String → Bool
begins_with_dot String.[] = false
begins_with_dot (String.◌∷◌ c s) = code c == 46

abbrev has_two_dots : String → Bool
has_two_dots String.[] = false
has_two_dots (String.◌∷◌ c s) = code c == 46 && begins_with_dot s || has_two_dots s

unfoldable pub is_safe : String → Bool
is_safe name =
    not (str_eq name "" || has_separator name || has_two_dots name || begins_with_dot name)

-- No character of the text is a space.
abbrev pub is_word : String → Bool
is_word String.[] = true
is_word (String.◌∷◌ c s) = not (is_space (code c)) && is_word s

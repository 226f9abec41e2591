-- ===== src/Llm/Json.antt =====
-- The values that Python's `json.loads` gives, as src/learnarken/llm/minimax.py reads them. A float is taken as a
-- number like an integer: only its being zero matters.
use learn_arken.Prelude.{
  ℕ, zero, suc, String, Bool, true, false, Option, none, some, str_eq, if◌then◌else◌,
}
use learn_arken.Prelude.Int.{ℤ, pos}
use Prim.Native.String.{count}

mutual
  pub data Value : Type 0 where
    null : Value
    flag : Bool → Value
    number : ℤ → Value
    text : String → Value
    array : Items → Value
    object : Fields → Value

  pub data Items : Type 0 where
    no_item : Items
    item : Value → Items → Items

  pub data Fields : Type 0 where
    no_entry : Fields
    entry : String → Value → Fields → Fields

-- `d.get(key)` of a dictionary
abbrev pub get : String → Fields → Option Value
get key no_entry = none
get key (entry k v rest) = let later = get key rest in if str_eq k key then some v else later

abbrev pub size : Fields → ℕ
size no_entry = 0
size (entry k v rest) = suc (size rest)

abbrev pub items_length : Items → ℕ
items_length no_item = 0
items_length (item v rest) = suc (items_length rest)

-- `len(v)`; `none` is a `TypeError`.
abbrev pub len : Value → Option ℕ
len null = none
len (flag b) = none
len (number n) = none
len (text s) = some (count s)
len (array xs) = some (items_length xs)
len (object fs) = some (size fs)

-- `bool(v)`
abbrev pub is_truthy : Value → Bool
is_truthy null = false
is_truthy (flag b) = b
is_truthy (number (pos zero)) = false
is_truthy (number n) = true
is_truthy (text String.[]) = false
is_truthy (text s) = true
is_truthy (array no_item) = false
is_truthy (array xs) = true
is_truthy (object no_entry) = false
is_truthy (object fs) = true

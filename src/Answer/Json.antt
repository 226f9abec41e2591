-- ===== src/Answer/Json.antt =====
-- The shape of the model's object that `generate_well_shaped` of src/learnarken/answer/engine.py checks.
use learn_arken.Prelude.{String, Bool, Option, none, some, List, [], ◌∷◌}
use learn_arken.Prelude.Dict
use learn_arken.Prelude.Dict.{Dict}

-- The values of the parsed object, as far as the shape check tells them apart.
infixl 5 ◌>>=◌
-- The conjunction of the shape check: the first test that fails decides.
abbrev ◌>>=◌ : {A : Type 0} {B : Type 0} → Option A → (A → Option B) → Option B
none >>= f = none
some a >>= f = f a

pub data Leaf : Type 0 where
  leaf_text : String → Leaf
  leaf_other : Leaf

pub data Item : Type 0 where
  item_dict : Dict Leaf → Item
  item_other : Item

pub data Value : Type 0 where
  value_bool : Bool → Value
  value_text : String → Value
  value_list : List Item → Value
  value_other : Value

pub record RawCitation : Type 0 where
  pub chunk_id : String
  pub supporting_quote : String

pub record Reply : Type 0 where
  pub is_answerable : Bool
  pub answer : String
  pub citations : List RawCitation

abbrev pub leaf_of : Option Leaf → Option String
leaf_of (some (leaf_text s)) = some s
leaf_of (some leaf_other) = none
leaf_of none = none

unfoldable pub citation_of : Item → Option RawCitation
citation_of item_other = none
citation_of (item_dict d) = do
  chunk_id ← leaf_of (Dict.get "chunk_id" d)
  quote ← leaf_of (Dict.get "supporting_quote" d)
  some (record { chunk_id = chunk_id; supporting_quote = quote })

unfoldable pub citations_of : List Item → Option (List RawCitation)
citations_of [] = some []
citations_of (i ∷ is) = do c ← citation_of i; cs ← citations_of is; some (c ∷ cs)

abbrev pub bool_of : Option Value → Option Bool
bool_of (some (value_bool b)) = some b
bool_of _ = none

abbrev pub text_of : Option Value → Option String
text_of (some (value_text s)) = some s
text_of _ = none

abbrev pub list_of : Option Value → Option (List Item)
list_of (some (value_list is)) = some is
list_of _ = none

unfoldable pub shape : Dict Value → Option Reply
shape parsed = do
  items ← list_of (Dict.get "citations" parsed)
  is_answerable ← bool_of (Dict.get "is_answerable" parsed)
  answer ← text_of (Dict.get "answer" parsed)
  citations ← citations_of items
  some (record { is_answerable = is_answerable; answer = answer; citations = citations })

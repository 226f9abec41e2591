-- ===== src/Llm/Contract.antt =====
-- src/learnarken/llm/minimax.py: what a completion must be. `loads` is `json.loads`, with `none` for a
-- `JSONDecodeError`; a message is a value with what the f-string interpolates. `crashed` is an exception
-- that is no `LLMError`: an `AttributeError` or a `TypeError` of a value with an unexpected type.
use learn_arken.Prelude.{
  zero, ℕ, String, Bool, true, false, Option, none, some, str_eq, if◌then◌else◌, Result, ok, raise,
  lstrip, rstrip, is_space,
}
use learn_arken.Prelude.Int.{pos}
use learn_arken.Llm.Json.{Value, null, flag, number, text, object, Fields, get, len}

pub data Violation : Type 0 where
  body_not_json body_no_object no_choice_object content_not_json content_no_object : Violation
  no_content chunk_not_json chunk_choices late_delta too_long : Violation
  choices_count : ℕ → Violation
  truncated : (max_tokens : ℕ) → Violation
  finished : Option Value → Violation

-- `LLMError` and its subclass `LLMContractError`
pub data LlmError : Type 0 where
  http : (code : ℕ) → LlmError
  unreachable : (attempts : ℕ) (exc : String) → LlmError
  mid_stream : (exc : String) → LlmError
  past_deadline : LlmError
  base_status : Option Value → LlmError
  contract : Violation → LlmError
  crashed : LlmError

-- `exc.retryable`
abbrev pub is_retryable : LlmError → Bool
is_retryable (contract content_not_json) = true
is_retryable _ = false

-- `s.removeprefix(p)`, if `s` begins with `p`.
unfoldable pub strip_prefix : String → String → Option String
strip_prefix String.[] s = some s
strip_prefix (String.◌∷◌ c p) String.[] = none
strip_prefix (String.◌∷◌ c p) (String.◌∷◌ d s) =
    let rest = strip_prefix p s in
    if str_eq (String.◌∷◌ c String.[]) (String.◌∷◌ d String.[]) then rest else none

-- What follows the first place where `p` stands in `s`.
unfoldable pub find_after : String → String → Option String
find_after p String.[] = strip_prefix p String.[]
find_after p (String.◌∷◌ c s) = elim (strip_prefix p (String.◌∷◌ c s)) [
  | none ↦ find_after p s
  | some rest ↦ some rest
]

-- What stands before `p` at the end of `s`.
unfoldable pub strip_suffix : String → String → Option String
strip_suffix p String.[] = if str_eq p String.[] then some String.[] else none
strip_suffix p (String.◌∷◌ c s) =
    let shorter = strip_suffix p s in
    if str_eq p (String.◌∷◌ c s)
    then some String.[]
    else elim shorter [ none ↦ none | some t ↦ some (String.◌∷◌ c t) ]

-- `_THINK.sub("", content, count=1)`
unfoldable pub without_think : String → String
without_think content = elim (strip_prefix "<think>" (lstrip content)) [
  | none ↦ content
  | some rest ↦ elim (find_after "</think>" rest) [ none ↦ content | some after ↦ lstrip after ]
]

-- `(?:json)?`
abbrev pub without_json : String → String
without_json s = elim (strip_prefix "json" s) [ none ↦ s | some rest ↦ rest ]

-- The group of `_FENCE`, if it matches.
unfoldable pub fenced : String → Option String
fenced s = elim (strip_prefix "```" (lstrip s)) [
  | none ↦ none
  | some rest ↦ elim (strip_suffix "```" (rstrip (lstrip (without_json rest)))) [
    | none ↦ none
    | some inner ↦ some (rstrip inner)
  ]
]

unfoldable pub strip_think : String → String
unfolding without_think fenced find_after strip_prefix strip_suffix lstrip rstrip is_space
strip_think content = elim (fenced (without_think content)) [
  | none ↦ without_think content
  | some inner ↦ inner
]

abbrev pub fails : {A : Type 0} → Violation → Result LlmError A
fails v = raise (contract v)

unfoldable pub check_finish_reason : Option Value → ℕ → Result LlmError (Unit {0})
check_finish_reason (some (text reason)) max_tokens =
    if str_eq reason "length"
    then fails (truncated max_tokens)
    else if str_eq reason "stop"
    then ok tt
    else fails (finished (some (text reason)))
check_finish_reason reason max_tokens = fails (finished reason)

-- `status == 0`, true of `False` too
abbrev pub is_zero : Option Value → Bool
is_zero (some (number (pos zero))) = true
is_zero (some (flag false)) = true
is_zero _ = false

-- `body.get("base_resp", {}).get("status_code")`
unfoldable pub status_of : Fields → Result LlmError (Option Value)
status_of body = elim (get "base_resp" body) [
  | none ↦ ok none
  | some (object fs) ↦ ok (get "status_code" fs)
  | some _ ↦ raise crashed
]

-- `len(choices or [])`, where `choices` is no list of one.
abbrev pub count_choices : Option Value → Result LlmError ℕ
count_choices none = ok 0
count_choices (some null) = ok 0
count_choices (some (flag false)) = ok 0
count_choices (some (number (pos zero))) = ok 0
count_choices (some v) = elim (len v) [ none ↦ raise crashed | some n ↦ ok n ]

abbrev pub object_of : Option Value → Result LlmError Fields
object_of none = fails content_not_json
object_of (some (object fs)) = ok fs
object_of (some _) = fails content_no_object

module _ (loads : String → Option Value) where
  unfoldable pub parse_contract : String → Result LlmError Fields
  parse_contract content = object_of (loads (strip_think content))

-- ===== src/Llm/Chat.antt =====
-- `chat_json` of src/learnarken/llm/minimax.py. What the service and the clock do in one attempt is a value of
-- `Exchange`; the attempts take them in turn, and an attempt with none left is a failed connection. The back-off
-- between attempts is left out.
pub mod Accepted
pub mod Attempts
use learn_arken.Prelude.{
  zero, ℕ, suc, ◌+◌, String, Bool, true, false, ◌||◌, not, Option, none, some, List, [], ◌∷◌, elem,
  ◌==◌, any, if◌then◌else◌, Result, ok, raise, ◌>>=◌, ◌>>◌,
}
use learn_arken.Llm.Json.{
  Value, null, flag, number, text, array, object, Items, no_item, item, Fields, get,
}
use learn_arken.Llm.Contract.{
  Violation, body_not_json, body_no_object, no_choice_object, choices_count, LlmError, http,
  unreachable, crashed, base_status, fails, check_finish_reason, is_zero, status_of, count_choices,
  parse_contract,
}

abbrev pub retries : ℕ
retries = 3

abbrev pub retryable_http : List ℕ
retryable_http = 408 ∷ 429 ∷ 500 ∷ 502 ∷ 503 ∷ 504 ∷ []

abbrev pub is_retryable_http : ℕ → Bool
is_retryable_http code = any (λ c. c == code) retryable_http

-- `late`: the deadline has passed when the failure is handled. A body in no encoding of JSON raises a
-- `UnicodeDecodeError`, which no handler names.
pub data Exchange : Type 0 where
  http_failure : (code : ℕ) (late : Bool) → Exchange
  connection_failure : (exc : String) (late : Bool) → Exchange
  received : (raw : String) → Exchange
  undecodable : Exchange

pub record ChatResult : Type 0 where
  pub parsed : Fields
  pub raw_content : String
  pub model : Option Value
  pub usage : Option Value

abbrev pub body_from : Option Value → Result LlmError Fields
body_from none = fails body_not_json
body_from (some (object fs)) = ok fs
body_from (some _) = fails body_no_object

-- `choices[0]["message"]["content"]`; `none` is a `KeyError` or a `TypeError`.
unfoldable pub content_of : Value → Option Value
content_of (object choice) = elim (get "message" choice) [
  | some (object message) ↦ get "content" message
  | _ ↦ none
]
content_of _ = none

-- `_parse_contract` of a content that is no text raises a `TypeError` in `re.sub`.
abbrev pub text_of : Value → Result LlmError String
text_of (text s) = ok s
text_of _ = raise crashed

unfoldable pub single_choice : Option Value → Result LlmError Value
single_choice (some (array (item choice no_item))) = ok choice
single_choice choices = do n ← count_choices choices; fails (choices_count n)

-- `body`, the parsed object that the loop leaves with
module _ (loads : String → Option Value) where
  unfoldable pub body_of : String → Result LlmError Fields
  body_of raw = body_from (loads raw)

  -- The attempts from `attempt` on, `left` of them before the last one. With the number of requests that
  -- were sent.
  unfoldable pub exchange : (left attempt : ℕ) → List Exchange → ℕ × Result LlmError Fields
  exchange left attempt [] = (attempt, raise (unreachable attempt "no connection"))
  exchange left attempt (received raw ∷ later) = (attempt, body_of raw)
  exchange left attempt (undecodable ∷ later) = (attempt, raise crashed)
  exchange zero attempt (http_failure code late ∷ later) = (attempt, raise (http code))
  exchange zero attempt (connection_failure exc late ∷ later) =
      (attempt, raise (unreachable attempt exc))
  exchange (suc left) attempt (http_failure code late ∷ later) =
      let again = exchange left (suc attempt) later in
      if not (is_retryable_http code) || late then (attempt, raise (http code)) else again
  exchange (suc left) attempt (connection_failure exc late ∷ later) =
      let again = exchange left (suc attempt) later in
      if late then (attempt, raise (unreachable attempt exc)) else again

  unfoldable pub finish_choice :
      (max_tokens : ℕ) (body : Fields) (finish_reason : Option Value) (content : Value)
      → Result LlmError ChatResult
  finish_choice max_tokens body finish_reason content = do
    check_finish_reason finish_reason max_tokens
    raw_content ← text_of content
    parsed ← parse_contract loads raw_content
    ok (record {
      parsed = parsed;
      raw_content = raw_content;
      model = get "model" body;
      usage = get "usage" body;
    })

  unfoldable pub only_choice :
      (max_tokens : ℕ) (body : Fields) (choice : Value) → Result LlmError ChatResult
  only_choice max_tokens body (object choice) = elim (content_of (object choice)) [
    | none ↦ fails no_choice_object
    | some content ↦ finish_choice max_tokens body (get "finish_reason" choice) content
  ]
  only_choice max_tokens body _ = fails no_choice_object

  unfoldable pub read_body : (max_tokens : ℕ) (body : Fields) → Result LlmError ChatResult
  read_body max_tokens body = do
    status ← status_of body
    if is_zero status
        then (single_choice (get "choices" body) >>= only_choice max_tokens body)
        else raise (base_status status)

  unfoldable pub chat_json : (max_tokens : ℕ) → List Exchange → ℕ × Result LlmError ChatResult
  chat_json max_tokens world =
      let (sent, body) = exchange 2 1 world in (sent, body >>= read_body max_tokens)

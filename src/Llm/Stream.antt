-- ===== src/Llm/Stream.antt =====
-- `chat_json_stream` of src/learnarken/llm/minimax.py. What the service and the clock do in one attempt is a
-- value of `Opening`: the lines of the reply, each with whether the deadline had passed when it was read,
-- and how the reply ends. The calls of `on_delta` are the list of what it is given.
pub mod Once
use learn_arken.Prelude.{
  ℕ, zero, suc, ◌+◌, String, Bool, true, false, ◌||◌, not, Option, none, some, List, [], ◌∷◌, ◌++◌,
  ltb, str_eq, if◌then◌else◌, Result, ok, raise, ◌>>=◌, ◌>>◌, strip, ◌⧺◌,
}
use learn_arken.Llm.Json.{
  Value, null, flag, number, text, array, object, Items, no_item, item, Fields, get, len, is_truthy,
}
use learn_arken.Llm.Contract.{
  Violation, chunk_not_json, chunk_choices, late_delta, too_long, no_content, LlmError, http,
  unreachable, mid_stream, past_deadline, crashed, base_status, fails, check_finish_reason, is_zero,
  status_of, parse_contract, strip_prefix,
}
use learn_arken.Llm.Chat.{ChatResult, is_retryable_http}

abbrev pub max_content_chars : ℕ
max_content_chars = 4194304

pub record Line : Type 0 where
  pub expired : Bool
  pub line : String

pub data Ending : Type 0 where
  eof : Ending
  broken : (exc : String) → Ending

pub data Opening : Type 0 where
  refused : (code : ℕ) (late : Bool) → Opening
  failed : (exc : String) (late : Bool) → Opening
  opened : List Line → Ending → (late : Bool) → Opening

-- What `_iter_stream_deltas` does with a line: nothing, return, or yield.
pub data Frame : Type 0 where
  ignored done keepalive : Frame
  frame : (delta : Value) (choice chunk : Fields) → Frame

-- Python's `None`, for a missing key and for a JSON null
abbrev pub present : Option Value → Option Value
present none = none
present (some null) = none
present (some v) = some v

-- `v or w`
abbrev pub or_else : Option Value → Value → Value
or_else none w = w
or_else (some v) w = if is_truthy v then v else w

-- `choice.get("delta", {}).get("content")`
unfoldable pub delta_of : Fields → Result LlmError (Option Value)
delta_of choice = elim (get "delta" choice) [
  | none ↦ ok none
  | some (object fs) ↦ ok (get "content" fs)
  | some _ ↦ raise crashed
]

-- `status not in (None, 0)`
abbrev pub is_failure : Option Value → Bool
is_failure none = false
is_failure (some status) = not (is_zero (some status))

unfoldable pub frame_of : Fields → Option Value → Result LlmError Frame
frame_of chunk none = ok keepalive
frame_of chunk (some (array (item (object choice) no_item))) = do
  delta ← delta_of choice
  ok (frame (or_else delta (text "")) choice chunk)
frame_of chunk (some _) = fails chunk_choices

module _ (loads : String → Option Value) where
  unfoldable pub read_chunk : Option Value → Result LlmError Frame
  read_chunk none = fails chunk_not_json
  read_chunk (some (object chunk)) = do
    status ← status_of chunk
    if is_failure (present status)
        then raise (base_status status)
        else frame_of chunk (present (get "choices" chunk))
  read_chunk (some _) = raise crashed

  unfoldable pub read_line : Line → Result LlmError Frame
  read_line l =
      if l.expired then raise past_deadline else elim (strip_prefix "data:" (strip l.line)) [
        | none ↦ ok ignored
        | some rest ↦
            if str_eq (strip rest) "[DONE]" then ok done else read_chunk (loads (strip rest))
      ]

-- The variables of one attempt. `pieces` is also what `on_delta` was given.
pub record Streaming : Type 0 where
  pub started : Bool
  pub pieces : List Value
  pub streamed : ℕ
  pub model : Option Value
  pub usage : Value
  pub finish_reason : Option Value

abbrev pub fresh : Streaming
fresh = record {
  started = false;
  pieces = [];
  streamed = 0;
  model = none;
  usage = object Fields.no_entry;
  finish_reason = none;
}

-- `chunk.get("model", model)` and `reason if reason is not None else finish_reason`
abbrev pub or_old : Option Value → Option Value → Option Value
or_old none old = old
or_old (some v) old = some v

abbrev pub begin_frame : Fields → Streaming → Streaming
begin_frame chunk s = record s {
  started = true;
  model = or_old (get "model" chunk) s.model;
  usage = or_else (get "usage" chunk) s.usage;
}

abbrev pub end_frame : Fields → Streaming → Streaming
end_frame choice s = record s {
  finish_reason = or_old (present (get "finish_reason" choice)) s.finish_reason;
}

unfoldable pub append_delta : Value → Streaming → Option ℕ → Result LlmError Streaming
append_delta delta s none = raise crashed
append_delta delta s (some n) =
    if ltb max_content_chars (s.streamed + n)
    then fails too_long
    else ok (record s { pieces = s.pieces ++ delta ∷ []; streamed = s.streamed + n })

unfoldable pub take_delta : Value → Streaming → Option Value → Result LlmError Streaming
take_delta delta s none = append_delta delta s (len delta)
take_delta delta s (some reason) = fails late_delta

abbrev pub begin_delta : Value → Fields → Streaming → Result LlmError Streaming
begin_delta delta chunk s =
    if is_truthy delta
    then take_delta delta (begin_frame chunk s) s.finish_reason
    else ok (begin_frame chunk s)

unfoldable pub consume : Value → Fields → Fields → Streaming → Result LlmError Streaming
consume delta choice chunk s = do s' ← begin_delta delta chunk s; ok (end_frame choice s')

-- How the loop over the reply ends.
pub data Outcome : Type 0 where
  complete : Outcome
  stopped : LlmError → Outcome
  cut : (exc : String) → Outcome

abbrev pub outcome_of : Ending → Outcome
outcome_of eof = complete
outcome_of (broken exc) = cut exc

abbrev pub failure_of : Bool → (attempt : ℕ) (exc : String) → LlmError
failure_of started attempt exc = if started then mid_stream exc else unreachable attempt exc

-- Whether a reply that ends so is followed by another attempt, if one is left.
abbrev pub is_asked_again : (started late : Bool) → Outcome → Bool
is_asked_again started late (cut exc) = not (started || late)
is_asked_again started late _ = false

-- `"".join(pieces)`
unfoldable pub join : List Value → Result LlmError String
join [] = ok ""
join (text piece ∷ rest) = do later ← join rest; ok (piece ⧺ later)
join (_ ∷ rest) = raise crashed

module _ (loads : String → Option Value) where
  -- A failing frame has set `started`; the rest of its variables is not read again.
  unfoldable pub read_stream : Ending → List Line → Streaming → Streaming × Outcome
  read_stream ending [] s = (s, outcome_of ending)
  read_stream ending (l ∷ ls) s = elim (read_line loads l) [
    | raise e ↦ (s, stopped e)
    | ok ignored ↦ read_stream ending ls s
    | ok done ↦ (s, complete)
    | ok keepalive ↦ read_stream ending ls s
    | ok (frame delta choice chunk) ↦ elim (consume delta choice chunk s) [
      | raise e ↦ (begin_frame chunk s, stopped e)
      | ok s' ↦ read_stream ending ls s'
    ]
  ]

  abbrev pub or_empty_error : String → Result LlmError (Unit {0})
  or_empty_error content = if str_eq content "" then fails no_content else ok tt

  unfoldable pub finish_stream : (max_tokens : ℕ) → Streaming → Result LlmError ChatResult
  finish_stream max_tokens s = do
    check_finish_reason s.finish_reason max_tokens
    content ← join s.pieces
    or_empty_error content
    parsed ← parse_contract loads content
    ok (record { parsed = parsed; raw_content = content; model = s.model; usage = some s.usage })

  -- The end of an attempt after which none follows.
  abbrev pub settle : (max_tokens attempt : ℕ) → Streaming → Outcome → Result LlmError ChatResult
  settle max_tokens attempt s complete = finish_stream max_tokens s
  settle max_tokens attempt s (stopped e) = raise e
  settle max_tokens attempt s (cut exc) = raise (failure_of s.started attempt exc)

  -- What `on_delta` was given, the number of requests that were sent, and the result.
  unfoldable pub attempts :
      (max_tokens left attempt : ℕ) → List Opening → List Value × ℕ × Result LlmError ChatResult
  attempts max_tokens left attempt [] = ([], attempt, raise (unreachable attempt "no connection"))
  attempts max_tokens zero attempt (refused code late ∷ later) = ([], attempt, raise (http code))
  attempts max_tokens (suc left) attempt (refused code late ∷ later) =
      let again = attempts max_tokens left (suc attempt) later in
      if not (is_retryable_http code) || late then ([], attempt, raise (http code)) else again
  attempts max_tokens zero attempt (failed exc late ∷ later) =
      ([], attempt, raise (unreachable attempt exc))
  attempts max_tokens (suc left) attempt (failed exc late ∷ later) =
      let again = attempts max_tokens left (suc attempt) later in
      if late then ([], attempt, raise (unreachable attempt exc)) else again
  attempts max_tokens zero attempt (opened ls ending late ∷ later) =
      let (s, outcome) = read_stream ending ls fresh in
      (s.pieces, attempt, settle max_tokens attempt s outcome)
  attempts max_tokens (suc left) attempt (opened ls ending late ∷ later) =
      let again = attempts max_tokens left (suc attempt) later in
      let (s, outcome) = read_stream ending ls fresh in
      if is_asked_again s.started late outcome
      then (s.pieces ++ again.0, again.1, again.2)
      else (s.pieces, attempt, settle max_tokens attempt s outcome)

  unfoldable pub chat_json_stream :
      (max_tokens : ℕ) → List Opening → List Value × ℕ × Result LlmError ChatResult
  chat_json_stream max_tokens world = attempts max_tokens 2 1 world

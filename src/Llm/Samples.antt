-- ===== src/Llm/Samples.antt =====
-- A reply of the service after one overloaded attempt, and a streamed one after a refused connection.
use learn_arken.Prelude.{
  String, ◌≡◌, ◌≤◌, ◌-◌, refl, false, Option, none, some, List, [], ◌∷◌, str_eq, strip,
  if◌then◌else◌, ok, take,
}
use learn_arken.Prelude.Int.{pos}
use learn_arken.Llm.Json.{
  Value, number, text, array, object, no_item, item, Fields, no_entry, entry,
}
use learn_arken.Llm.Contract.{
  strip_prefix, strip_think, check_finish_reason, status_of, parse_contract,
}
use learn_arken.Llm.Chat.{
  ChatResult, Exchange, http_failure, received, body_of, exchange, content_of, single_choice,
  only_choice, finish_choice, read_body, chat_json,
}
use learn_arken.Llm.Chat.Attempts.{AreTransient, chat_json-IsBounded}
use learn_arken.Llm.Chat.Accepted.{IsAccepted, chat_json-IsAccepted}
use learn_arken.Llm.Stream.{
  Opening, failed, opened, eof, read_line, read_chunk, frame_of, delta_of, read_stream, consume,
  take_delta, append_delta, finish_stream, attempts, chat_json_stream, join,
}
use learn_arken.Llm.Stream.Once.{chat_json_stream-eq-ok}

abbrev completion : String
completion = "<think>why</think>\n```json\n{}\n```"

strip_think_runs : strip_think completion ≡ "{}"
unfolding strip_think
strip_think_runs = refl

abbrev message : Fields
message = entry "content" (text completion) no_entry

abbrev choice : Fields
choice = entry "message" (object message) (entry "finish_reason" (text "stop") no_entry)

abbrev body : Fields
body =
    entry "base_resp" (object (entry "status_code" (number (pos 0)) no_entry))
      (entry "choices" (array (item (object choice) no_item)) no_entry)

abbrev chunk : Fields
chunk =
    entry "choices"
      (array (
        item
          (object (entry "delta" (object message) (entry "finish_reason" (text "stop") no_entry)))
          no_item))
      no_entry

-- `json.loads` on three texts
unfoldable loads : String → Option Value
loads s =
    if str_eq s "{}"
    then some (object no_entry)
    else if str_eq s "reply"
    then some (object body)
    else if str_eq s "chunk"
    then some (object chunk)
    else none

abbrev world : List Exchange
world = http_failure 503 false ∷ received "reply" ∷ []

abbrev answer : ChatResult
answer = record { parsed = no_entry; raw_content = completion; model = none; usage = none }

chat_json-IsBounded_example :
    ((chat_json loads 16384 world).0 ≤ 3)
    × AreTransient (take ((chat_json loads 16384 world).0 - 1) world)
chat_json-IsBounded_example = chat_json-IsBounded loads 16384 world

chat_json-IsAccepted_example : IsAccepted loads world answer
unfolding loads chat_json exchange body_of read_body status_of single_choice only_choice content_of
    finish_choice check_finish_reason parse_contract strip_think
chat_json-IsAccepted_example = chat_json-IsAccepted loads 16384 world refl

abbrev openings : List Opening
openings =
    failed "reset" false
    ∷ opened (record { expired = false; line = "data: chunk" } ∷ []) eof false
    ∷ []

abbrev streamed : ChatResult
streamed = record {
  parsed = no_entry;
  raw_content = completion;
  model = none;
  usage = some (object no_entry);
}

chat_json_stream-eq-ok_example :
    ((chat_json_stream loads 16384 openings).1 ≤ 3)
    × (join (chat_json_stream loads 16384 openings).0 ≡ ok completion)
    × (parse_contract loads completion ≡ ok no_entry)
unfolding loads chat_json_stream attempts read_stream read_line read_chunk status_of frame_of
    delta_of consume take_delta append_delta finish_stream check_finish_reason join parse_contract
    strip_think strip_prefix strip
chat_json_stream-eq-ok_example = chat_json_stream-eq-ok loads 16384 openings {r = streamed} refl

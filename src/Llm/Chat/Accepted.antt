-- ===== src/Llm/Chat/Accepted.antt =====
-- `chat_json` of src/learnarken/llm/minimax.py: what a completion has passed when it is returned.
use mathlib.Core.List.{Memᴰ}
use learn_arken.Prelude.{
  ◌≢◌, Option-cases, ℕ, String, ◌≡◌, refl, ap, ◌∙◌, subst, true, Option, none, some, List, inl, inr,
  Bool-cases, ok, ◌>>=◌, >>=-eq-ok, ok-injective, str_eq, eq_iff,
}
use learn_arken.Llm.Json.{
  Value, null, flag, number, text, array, object, no_item, item, Fields, get,
}
use learn_arken.Llm.Contract.{
  parse_contract, check_finish_reason, strip_think, status_of, is_zero, object_of, count_choices,
  fails, choices_count,
}
use learn_arken.Llm.Chat.{
  single_choice, text_of, ChatResult, Exchange, received, exchange, content_of, finish_choice,
  only_choice, read_body, chat_json,
}
use learn_arken.Llm.Chat.Attempts.{exchange-eq-ok}

object_of-eq-ok : (o : Option Value) {fs : Fields} → object_of o ≡ ok fs → o ≡ some (object fs)
object_of-eq-ok none h = cc
object_of-eq-ok (some null) h = cc
object_of-eq-ok (some (flag b)) h = cc
object_of-eq-ok (some (number n)) h = cc
object_of-eq-ok (some (text s)) h = cc
object_of-eq-ok (some (array xs)) h = cc
object_of-eq-ok (some (object fs)) h = ap (λ (z : Fields). some (object z)) (ok-injective h)

stop-text :
    (reason : String) (max_tokens : ℕ) {u : Unit {0}}
    → check_finish_reason (some (text reason)) max_tokens ≡ ok u
    → reason ≡ "stop"
unfolding check_finish_reason
stop-text reason max_tokens h = elim (Bool-cases (str_eq reason "stop")) [
  | inl y ↦ (eq_iff reason "stop").0 y
  | inr n ↦ elim (Bool-cases (str_eq reason "length")) [
    | inl l ↦ absurd (cc (rw l at h))
    | inr o ↦ absurd (cc (rw (o, n) at h))
  ]
]

check_finish_reason-eq-ok :
    (reason : Option Value) (max_tokens : ℕ) {u : Unit {0}}
    → check_finish_reason reason max_tokens ≡ ok u
    → reason ≡ some (text "stop")
unfolding check_finish_reason
check_finish_reason-eq-ok none max_tokens h = cc
check_finish_reason-eq-ok (some null) max_tokens h = cc
check_finish_reason-eq-ok (some (flag b)) max_tokens h = cc
check_finish_reason-eq-ok (some (number n)) max_tokens h = cc
check_finish_reason-eq-ok (some (text s)) max_tokens h =
    ap (λ (z : String). some (text z)) (stop-text s max_tokens h)
check_finish_reason-eq-ok (some (array xs)) max_tokens h = cc
check_finish_reason-eq-ok (some (object fs)) max_tokens h = cc

text_of-eq-ok : (v : Value) {s : String} → text_of v ≡ ok s → v ≡ text s
text_of-eq-ok null h = cc
text_of-eq-ok (flag b) h = cc
text_of-eq-ok (number n) h = cc
text_of-eq-ok (text s) h = ap text (ok-injective h)
text_of-eq-ok (array xs) h = cc
text_of-eq-ok (object fs) h = cc

uncounted :
    (o : Option Value) {v : Value} → (count_choices o >>= λ n. fails (choices_count n)) ≢ ok v
uncounted o h = let (n, c, h1) = >>=-eq-ok (count_choices o) _ h in cc h1

single_choice-eq-ok :
    (o : Option Value) {v : Value} → single_choice o ≡ ok v → o ≡ some (array (item v no_item))
unfolding single_choice
single_choice-eq-ok none h = absurd (uncounted none h)
single_choice-eq-ok (some (array (item v no_item))) h =
    ap (λ (z : Value). some (array (item z no_item))) (ok-injective h)
single_choice-eq-ok (some v) h = absurd (uncounted (some v) h)

module _ (loads : String → Option Value) where
  -- The choice that a result was read from.
  pub record IsStopped (choice : Fields) (r : ChatResult) : Type 0 where
    pub content : content_of (object choice) ≡ some (text r.raw_content)
    pub stop : get "finish_reason" choice ≡ some (text "stop")
    pub parsed : loads (strip_think r.raw_content) ≡ some (object r.parsed)

  finish_choice-IsStopped :
      (max_tokens : ℕ) (body choice : Fields) (content : Value) {r : ChatResult}
      → content_of (object choice) ≡ some content
      → finish_choice loads max_tokens body (get "finish_reason" choice) content ≡ ok r
      → IsStopped choice r
  unfolding finish_choice parse_contract
  finish_choice-IsStopped max_tokens body choice content {r} c h =
      let reason = get "finish_reason" choice in
      let (_, s, h1) = >>=-eq-ok (check_finish_reason reason max_tokens) _ h in
      let (raw, is_text, h2) = >>=-eq-ok (text_of content) _ h1 in
      let (parsed, p, h3) = >>=-eq-ok (parse_contract loads raw) _ h2 in
      let same = ok-injective h3 in
      record {
        content =
            c
            ∙ ap some (text_of-eq-ok content is_text)
            ∙ ap (λ (z : ChatResult). some (text z.raw_content)) same;
        stop = check_finish_reason-eq-ok reason max_tokens s;
        parsed =
            subst (λ (z : ChatResult). loads (strip_think z.raw_content) ≡ some (object z.parsed))
              same (object_of-eq-ok (loads (strip_think raw)) p);
      }

  only_choice-eq-ok :
      (max_tokens : ℕ) (body : Fields) (v : Value) {r : ChatResult}
      → only_choice loads max_tokens body v ≡ ok r
      → (choice : Fields) × (v ≡ object choice) × IsStopped choice r
  unfolding only_choice
  only_choice-eq-ok max_tokens body null h = cc
  only_choice-eq-ok max_tokens body (flag b) h = cc
  only_choice-eq-ok max_tokens body (number n) h = cc
  only_choice-eq-ok max_tokens body (text s) h = cc
  only_choice-eq-ok max_tokens body (array xs) h = cc
  only_choice-eq-ok max_tokens body (object choice) h =
      elim (Option-cases (content_of (object choice))) [
        | inl n ↦ absurd (cc (rw (n, only_choice) at h))
        | inr (content, c) ↦ (
          choice,
          refl,
          finish_choice-IsStopped max_tokens body choice content c (rw (c, only_choice) at h),
        )
      ]

  -- What a returned result was read from: a body that was received in one of the attempts, that reports
  -- no error and has one choice.
  pub record IsAccepted (world : List Exchange) (r : ChatResult) : Type 0 where
    pub raw : String
    pub body : Fields
    pub choice : Fields
    pub arrived : Memᴰ (received raw) world
    pub decoded : loads raw ≡ some (object body)
    pub healthy : (status : Option Value) × (status_of body ≡ ok status) × (is_zero status ≡ true)
    pub single : get "choices" body ≡ some (array (item (object choice) no_item))
    pub stopped : IsStopped choice r

  read_body-eq-ok :
      (max_tokens : ℕ) (body : Fields) {r : ChatResult}
      → read_body loads max_tokens body ≡ ok r
      → ((status : Option Value) × (status_of body ≡ ok status) × (is_zero status ≡ true))
        × ((choice : Fields) × (get "choices" body ≡ some (array (item (object choice) no_item)))
            × IsStopped choice r)
  unfolding read_body
  read_body-eq-ok max_tokens body h =
      let (status, s, h1) = >>=-eq-ok (status_of body) _ h in
      elim (Bool-cases (is_zero status)) [
        | inr n ↦ absurd (cc (rw n at h1))
        | inl y ↦
            let (v, one, h2) =
              >>=-eq-ok (single_choice (get "choices" body)) (only_choice loads max_tokens body)
                (rw y at h1) in
            let (choice, e, stopped) = only_choice-eq-ok max_tokens body v h2 in
            (
              (status, s, y),
              (
                choice,
                single_choice-eq-ok (get "choices" body) one
                    ∙ ap (λ (z : Value). some (array (item z no_item))) e,
                stopped,
              ),
            )
      ]

  -- A result is only returned for a body that was received and decoded, whose status is zero, that has exactly one
  -- choice, whose reason to finish is `stop`; the text of this choice, without its think block and fence, is the
  -- JSON of the object that is returned.
  pub chat_json-IsAccepted :
      (max_tokens : ℕ) (world : List Exchange) {r : ChatResult}
      → (chat_json loads max_tokens world).1 ≡ ok r
      → IsAccepted world r
  unfolding chat_json
  chat_json-IsAccepted max_tokens world h =
      let (body, b, h1) = >>=-eq-ok (exchange loads 2 1 world).1 (read_body loads max_tokens) h in
      let (raw, arrived, decoded) = exchange-eq-ok loads 2 1 world b in
      let (healthy, chosen) = read_body-eq-ok max_tokens body h1 in
      record {
        raw = raw;
        body = body;
        choice = chosen.0;
        arrived = arrived;
        decoded = decoded;
        healthy = healthy;
        single = chosen.1;
        stopped = chosen.2;
      }

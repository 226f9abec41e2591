-- ===== src/Llm/Stream/Once.antt =====
-- `chat_json_stream` of src/learnarken/llm/minimax.py: what was streamed is what was parsed.
use learn_arken.Prelude.{
  Result-cases, Result-cases, ℕ, zero, suc, ◌+◌, ◌≤◌, String, ◌≡◌, refl, sym, ap, ◌∙◌, subst, Bool,
  true, false, ◌||◌, not, Option, none, some, List, [], ◌∷◌, inl, inr, Bool-cases, Result, ok,
  raise, >>=-eq-ok, ok-injective, arith, if◌then◌else◌,
}
use learn_arken.Llm.Json.{is_truthy, Value, Fields}
use learn_arken.Llm.Contract.{unreachable, http, LlmError, parse_contract, check_finish_reason}
use learn_arken.Llm.Chat.{ChatResult, is_retryable_http}
use learn_arken.Llm.Stream.{
  begin_delta, Line, Ending, Opening, refused, failed, opened, Frame, ignored, done, keepalive,
  frame, read_line, Streaming, fresh, Outcome, complete, stopped, cut, consume, take_delta,
  append_delta, begin_delta, begin_frame, end_frame, read_stream, join, finish_stream,
  or_empty_error, settle, is_asked_again, attempts, chat_json_stream,
}

-- Nothing is forwarded before the generation has started.
abbrev IsQuiet : Streaming → Type 0
IsQuiet s = s.started ≡ false → s.pieces ≡ []

append_delta-started :
    (delta : Value) (s : Streaming) (n : Option ℕ) {s' : Streaming}
    → append_delta delta s n ≡ ok s'
    → s'.started ≡ s.started
unfolding append_delta
append_delta-started delta s none h = cc
append_delta-started delta s (some n) h = ground arith

take_delta-started :
    (delta : Value) (s : Streaming) (reason : Option Value) {s' : Streaming}
    → take_delta delta s reason ≡ ok s'
    → s'.started ≡ s.started
unfolding take_delta
take_delta-started delta s none h = append_delta-started delta s _ h
take_delta-started delta s (some reason) h = cc

begin_delta-started :
    (delta : Value) (chunk : Fields) (s : Streaming) {s' : Streaming}
    → begin_delta delta chunk s ≡ ok s'
    → s'.started ≡ true
begin_delta-started delta chunk s h = elim (Bool-cases (is_truthy delta)) [
  | inl y ↦ take_delta-started delta (begin_frame chunk s) s.finish_reason (rw y at h)
  | inr n ↦
      let same : begin_frame chunk s ≡ _ = ok-injective (rw n at h) in
      ap (λ (z : Streaming). z.started) (sym same)
]

consume-started :
    (delta : Value) (choice chunk : Fields) (s : Streaming) {s' : Streaming}
    → consume delta choice chunk s ≡ ok s'
    → s'.started ≡ true
unfolding consume
consume-started delta choice chunk s h =
    let (mid, first, last) =
      >>=-eq-ok (begin_delta delta chunk s) (λ z. ok (end_frame choice z)) h in
    ap (λ (z : Streaming). z.started) (sym (ok-injective last))
    ∙ begin_delta-started delta chunk s first

module _ (loads : String → Option Value) (ending : Ending) where
  -- One line, with the claim for the lines after it.
  line-IsQuiet :
      (l : Line) (ls : List Line) (s : Streaming)
      → IsQuiet s
      → ((z : Streaming) → IsQuiet z → IsQuiet (read_stream loads ending ls z).0)
      → (r : Result LlmError Frame) → read_line loads l ≡ r
      → IsQuiet (read_stream loads ending (l ∷ ls) s).0
  unfolding read_stream
  line-IsQuiet l ls s q later (raise err) e = rw (e, read_stream) q
  line-IsQuiet l ls s q later (ok ignored) e = rw (e, read_stream) (later s q)
  line-IsQuiet l ls s q later (ok done) e = rw (e, read_stream) q
  line-IsQuiet l ls s q later (ok keepalive) e = rw (e, read_stream) (later s q)
  line-IsQuiet l ls s q later (ok (frame delta choice chunk)) e =
      rw (e, read_stream)
        (elim (Result-cases (consume delta choice chunk s)) [
          | inl (s', c) ↦
              rw (c, read_stream) (later s' (λ off. cc (consume-started delta choice chunk s c)))
          | inr (err, c) ↦ rw (c, read_stream) (λ off. cc)
        ])

  read_stream-IsQuiet :
      (ls : List Line) (s : Streaming) → IsQuiet s → IsQuiet (read_stream loads ending ls s).0
  unfolding read_stream
  read_stream-IsQuiet [] s q = q
  read_stream-IsQuiet (l ∷ ls) s q = line-IsQuiet l ls s q (read_stream-IsQuiet ls) _ refl

module _ (loads : String → Option Value) (max_tokens : ℕ) where
  finish_stream-eq-ok :
      (s : Streaming) {r : ChatResult}
      → finish_stream loads max_tokens s ≡ ok r
      → (join s.pieces ≡ ok r.raw_content) × (parse_contract loads r.raw_content ≡ ok r.parsed)
  unfolding finish_stream
  finish_stream-eq-ok s h =
      let (_, _, h1) = >>=-eq-ok (check_finish_reason s.finish_reason max_tokens) _ h in
      let (content, joined, h2) = >>=-eq-ok (join s.pieces) _ h1 in
      let (_, _, h3) = >>=-eq-ok (or_empty_error loads content) _ h2 in
      let (parsed, p, h4) = >>=-eq-ok (parse_contract loads content) _ h3 in
      let same = ok-injective h4 in
      (
        joined ∙ ap (λ (z : ChatResult). ok z.raw_content) same,
        subst (λ (z : ChatResult). parse_contract loads z.raw_content ≡ ok z.parsed) same p,
      )

  settle-eq-ok :
      (attempt : ℕ) (s : Streaming) (o : Outcome) {r : ChatResult}
      → settle loads max_tokens attempt s o ≡ ok r
      → (join s.pieces ≡ ok r.raw_content) × (parse_contract loads r.raw_content ≡ ok r.parsed)
  settle-eq-ok attempt s complete h = finish_stream-eq-ok s h
  settle-eq-ok attempt s (stopped e) h = cc
  settle-eq-ok attempt s (cut exc) h = cc

  asked_again-quiet :
      (started late : Bool) (o : Outcome) → is_asked_again started late o ≡ true → started ≡ false
  asked_again-quiet true late complete h = cc
  asked_again-quiet true late (stopped e) h = cc
  asked_again-quiet true late (cut exc) h = cc
  asked_again-quiet false late o h = refl

  -- What an attempt and those after it forward, and what they return.
  abbrev IsOnce : ℕ → List Value × ℕ × Result LlmError ChatResult → Type 0
  IsOnce last run =
      (run.1 ≤ last)
      × ((r : ChatResult)
          → run.2 ≡ ok r
          → (join run.0 ≡ ok r.raw_content) × (parse_contract loads r.raw_content ≡ ok r.parsed))

  if-IsOnce :
      (last : ℕ) (b : Bool) (x y : List Value × ℕ × Result LlmError ChatResult)
      → IsOnce last x
      → IsOnce last y
      → IsOnce last (if b then x else y)
  if-IsOnce last true x y p q = p
  if-IsOnce last false x y p q = q

  abbrev next : ℕ → ℕ → List Opening → List Value × ℕ × Result LlmError ChatResult
  next left attempt later = attempts loads max_tokens left (suc attempt) later

  next-IsOnce :
      (left attempt : ℕ) (later : List Opening)
      → IsOnce (suc attempt + left) (next left attempt later)
      → IsOnce (attempt + suc left) (next left attempt later)
  next-IsOnce left attempt later h = (omega (arith, h.0), h.1)

  attempts-IsOnce :
      (left attempt : ℕ) (world : List Opening)
      → IsOnce (attempt + left) (attempts loads max_tokens left attempt world)
  unfolding attempts
  attempts-IsOnce left attempt [] = (omega arith, λ r h. cc)
  attempts-IsOnce zero attempt (refused code late ∷ later) = (omega arith, λ r h. cc)
  attempts-IsOnce (suc left) attempt (refused code late ∷ later) =
      if-IsOnce (attempt + suc left) (not (is_retryable_http code) || late)
        ([], attempt, raise (http code)) (next left attempt later) (omega arith, λ r h. cc)
        (next-IsOnce left attempt later (attempts-IsOnce left (suc attempt) later))
  attempts-IsOnce zero attempt (failed exc late ∷ later) = (omega arith, λ r h. cc)
  attempts-IsOnce (suc left) attempt (failed exc late ∷ later) =
      if-IsOnce (attempt + suc left) late ([], attempt, raise (unreachable attempt exc))
        (next left attempt later) (omega arith, λ r h. cc)
        (next-IsOnce left attempt later (attempts-IsOnce left (suc attempt) later))
  attempts-IsOnce zero attempt (opened ls ending late ∷ later) =
      (omega arith, λ r h. settle-eq-ok attempt _ _ h)
  attempts-IsOnce (suc left) attempt (opened ls ending late ∷ later) =
      let s = (read_stream loads ending ls fresh).0 in
      let o = (read_stream loads ending ls fresh).1 in
      let after = next-IsOnce left attempt later (attempts-IsOnce left (suc attempt) later) in
      elim (Bool-cases (is_asked_again s.started late o)) [
        | inl y ↦
            let quiet =
              read_stream-IsQuiet loads ending ls fresh (λ off. refl)
                (asked_again-quiet s.started late o y) in
            rw (y, quiet) after
        | inr n ↦ rw n (omega arith, λ r h. settle-eq-ok attempt s o h)
      ]

  -- If a result is returned, at most three requests were sent; the deltas that were forwarded, over all attempts,
  -- are the text that was parsed, and its object is what the contract reads from that text.
  pub chat_json_stream-eq-ok :
      (world : List Opening) {r : ChatResult}
      → (chat_json_stream loads max_tokens world).2 ≡ ok r
      → ((chat_json_stream loads max_tokens world).1 ≤ 3)
        × (join (chat_json_stream loads max_tokens world).0 ≡ ok r.raw_content)
        × (parse_contract loads r.raw_content ≡ ok r.parsed)
  unfolding chat_json_stream
  chat_json_stream-eq-ok world {r} h =
      let once = attempts-IsOnce 2 1 world in let same = once.1 r h in (once.0, same.0, same.1)

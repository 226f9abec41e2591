-- ===== src/Llm/Chat/Attempts.antt =====
-- `chat_json` of src/learnarken/llm/minimax.py: which failures are asked again, and what an answer has passed.
use mathlib.Core.List.{Memᴰ}
use learn_arken.Prelude.{
  ℕ, zero, suc, ◌+◌, ◌-◌, ◌≤◌, String, ◌≡◌, refl, ap, Bool, true, false, ◌||◌, ◌&&◌, not, Option,
  none, some, List, [], ◌∷◌, inl, inr, Bool-cases, ok, ok-injective, arith, All, take,
}
use learn_arken.Llm.Json.{Value, null, flag, number, text, array, object, Fields}
use learn_arken.Llm.Chat.{
  body_from, Exchange, http_failure, connection_failure, received, undecodable, is_retryable_http,
  body_of, exchange, chat_json,
}

-- A failure after which the service is asked again.
abbrev pub is_transient : Exchange → Bool
is_transient (http_failure code late) = is_retryable_http code && not late
is_transient (connection_failure exc late) = not late
is_transient (received raw) = false
is_transient undecodable = false

abbrev pub AreTransient : List Exchange → Type 0
AreTransient world = All (λ e. is_transient e ≡ true) world

abbrev IsBounded : ℕ → ℕ → List Exchange → ℕ → Type 0
IsBounded attempt left world sent =
    (attempt ≤ sent) × (sent ≤ attempt + left) × AreTransient (take (sent - attempt) world)

IsBounded-now : (attempt left : ℕ) (world : List Exchange) → IsBounded attempt left world attempt
IsBounded-now attempt left world = (omega arith, omega arith, rw (zero_span attempt) tt)
  where
    zero_span : (n : ℕ) → n - n ≡ 0
    zero_span n = omega arith

IsBounded-later :
    (attempt left : ℕ) (e : Exchange) (world : List Exchange) (sent : ℕ)
    → is_transient e ≡ true
    → IsBounded (suc attempt) left world sent
    → IsBounded attempt (suc left) (e ∷ world) sent
IsBounded-later attempt left e world sent t h =
    let longer : sent - attempt ≡ suc (sent - suc attempt) = omega (arith, h.0) in
    (omega (arith, h.0), omega (arith, h.1), rw longer (t, h.2))

-- `body_of` and `object_of` keep only an object.
object_only : (o : Option Value) {body : Fields} → body_from o ≡ ok body → o ≡ some (object body)
object_only none h = cc
object_only (some null) h = cc
object_only (some (flag b)) h = cc
object_only (some (number n)) h = cc
object_only (some (text s)) h = cc
object_only (some (array xs)) h = cc
object_only (some (object fs)) h = ap (λ (z : Fields). some (object z)) (ok-injective h)

module _ (loads : String → Option Value) where
  exchange-IsBounded :
      (left attempt : ℕ) (world : List Exchange)
      → IsBounded attempt left world (exchange loads left attempt world).0
  unfolding exchange
  exchange-IsBounded left attempt [] = IsBounded-now attempt left []
  exchange-IsBounded left attempt (received raw ∷ later) = IsBounded-now attempt left _
  exchange-IsBounded left attempt (undecodable ∷ later) = IsBounded-now attempt left _
  exchange-IsBounded zero attempt (http_failure code late ∷ later) = IsBounded-now attempt 0 _
  exchange-IsBounded zero attempt (connection_failure exc late ∷ later) = IsBounded-now attempt 0 _
  exchange-IsBounded (suc left) attempt (http_failure code late ∷ later) =
      elim (Bool-cases (is_retryable_http code)) [
        | inr n ↦ rw n (IsBounded-now attempt (suc left) _)
        | inl y ↦ elim (Bool-cases late) [
          | inl l ↦ rw (y, l) (IsBounded-now attempt (suc left) _)
          | inr o ↦
              rw (y, o)
                (IsBounded-later attempt left (http_failure code false) later
                  (exchange loads left (suc attempt) later).0 (rw y refl)
                  (exchange-IsBounded left (suc attempt) later))
        ]
      ]
  exchange-IsBounded (suc left) attempt (connection_failure exc late ∷ later) =
      elim (Bool-cases late) [
        | inl l ↦ rw l (IsBounded-now attempt (suc left) _)
        | inr o ↦ rw o (
            IsBounded-later attempt left (connection_failure exc false) later
              (exchange loads left (suc attempt) later).0 refl
              (exchange-IsBounded left (suc attempt) later))
      ]

  -- At most three requests are sent, and each but the last one failed in a way that is worth asking again, before
  -- the deadline.
  pub chat_json-IsBounded :
      (max_tokens : ℕ) (world : List Exchange)
      → ((chat_json loads max_tokens world).0 ≤ 3)
        × AreTransient (take ((chat_json loads max_tokens world).0 - 1) world)
  unfolding chat_json
  chat_json-IsBounded max_tokens world =
      let bounded = exchange-IsBounded 2 1 world in (bounded.1, bounded.2)

  pub exchange-eq-ok :
      (left attempt : ℕ) (world : List Exchange) {body : Fields}
      → (exchange loads left attempt world).1 ≡ ok body
      → (raw : String) × Memᴰ (received raw) world × (loads raw ≡ some (object body))
  unfolding exchange body_of
  exchange-eq-ok left attempt [] h = cc
  exchange-eq-ok left attempt (received raw ∷ later) h =
      (raw, Memᴰ.head refl, object_only (loads raw) h)
  exchange-eq-ok left attempt (undecodable ∷ later) h = cc
  exchange-eq-ok zero attempt (http_failure code late ∷ later) h = cc
  exchange-eq-ok zero attempt (connection_failure exc late ∷ later) h = cc
  exchange-eq-ok (suc left) attempt (http_failure code late ∷ later) h =
      elim (Bool-cases (not (is_retryable_http code) || late)) [
        | inl y ↦ absurd (cc (rw y at h))
        | inr n ↦
            let (raw, m, e) = exchange-eq-ok left (suc attempt) later (rw n at h) in
            (raw, Memᴰ.tail m, e)
      ]
  exchange-eq-ok (suc left) attempt (connection_failure exc late ∷ later) h =
      elim (Bool-cases late) [
        | inl y ↦ absurd (cc (rw y at h))
        | inr n ↦
            let (raw, m, e) = exchange-eq-ok left (suc attempt) later (rw n at h) in
            (raw, Memᴰ.tail m, e)
      ]

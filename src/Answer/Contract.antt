-- ===== src/Answer/Contract.antt =====
-- The contract with the language model in src/learnarken/answer/engine.py: the shape of its object, and
-- one more attempt after a malformed one. `chat n` is the answer of the n-th generation.
pub mod Retry
use learn_arken.Prelude.{
  ℕ, ◌+◌, String, ◌≡◌, Bool, true, false, Option, none, some, List, [], ◌∷◌, Result, ok, raise,
  ◌>>=◌,
}
use learn_arken.Prelude.Dict.{Dict}
use learn_arken.Answer.Json.{Value, Reply, shape}
use learn_arken.Answer.Models.{Failure, llm_error}

pub record Generation : Type 0 where
  pub parsed : Dict Value
  pub model : String

-- `LLMContractError` with its flag, and the other errors of the client.
pub data LlmError : Type 0 where
  contract : (retryable : Bool) → LlmError
  transport : (exc : String) → LlmError

abbrev pub Chat : Type 0
Chat = ℕ → Result LlmError Generation

abbrev pub Shaped : Type 0
Shaped = Reply × String

abbrev pub or_malformed : String → Option Reply → Result LlmError Shaped
or_malformed model none = raise (contract true)
or_malformed model (some r) = ok (r, model)

unfoldable pub generate_well_shaped : Chat → ℕ → Result LlmError Shaped
generate_well_shaped chat n = chat n >>= λ (g : Generation). or_malformed g.model (shape g.parsed)

-- The number of generations asked for, and what comes of them: `none` is the refusal at the gate
-- `llm-contract`. `may_retry` is the caller's answer, if it wants to be asked.
abbrev pub Asked : Type 0
Asked = ℕ × Result Failure (Option Shaped)

abbrev pub second_attempt : Result LlmError Shaped → Asked
second_attempt (ok s) = (2, ok (some s))
second_attempt (raise (contract retryable)) = (2, ok none)
second_attempt (raise (transport exc)) = (2, raise (llm_error exc))

abbrev pub is_funded : Option Bool → Bool
is_funded none = true
is_funded (some b) = b

abbrev pub first_attempt : Result LlmError Shaped → Bool → Asked → Asked
first_attempt (ok s) funded again = (1, ok (some s))
first_attempt (raise (transport exc)) funded again = (1, raise (llm_error exc))
first_attempt (raise (contract false)) funded again = (1, ok none)
first_attempt (raise (contract true)) false again = (1, ok none)
first_attempt (raise (contract true)) true again = again

unfoldable pub ask : Chat → Option Bool → Asked
ask chat may_retry =
    first_attempt (generate_well_shaped chat 0) (is_funded may_retry)
      (second_attempt (generate_well_shaped chat 1))

-- ===== src/Answer/Contract/Retry.antt =====
-- The retry of src/learnarken/answer/engine.py is bounded and funded.
use learn_arken.Prelude.{
  ◌≡◌, ◌⊎◌, inl, inr, refl, Bool, true, false, Option, none, some, Result, ok, raise,
}
use learn_arken.Answer.Contract.{
  LlmError, contract, transport, Chat, Shaped, generate_well_shaped, Asked, second_attempt,
  is_funded, first_attempt, ask,
}

-- One generation, or a second one after a retryable breach of the contract that the caller funds.
abbrev pub IsBounded : Chat → Option Bool → Asked → Type 0
IsBounded chat may_retry (n, r) =
    (n ≡ 1)
    ⊎ ((n ≡ 2)
        × (generate_well_shaped chat 0 ≡ raise (contract true))
        × (is_funded may_retry ≡ true))

-- The reply that goes on is, unchanged, that of the last generation asked for.
abbrev pub IsLast : Chat → Asked → Type 0
IsLast chat (n, ok (some s)) =
    ((n ≡ 1) × (generate_well_shaped chat 0 ≡ ok s))
    ⊎ ((n ≡ 2) × (generate_well_shaped chat 1 ≡ ok s))
IsLast chat (n, ok none) = Unit
IsLast chat (n, raise e) = Unit

module _ (chat : Chat) (may_retry : Option Bool) where
  second-IsAsked :
      (m : Result LlmError Shaped)
      → generate_well_shaped chat 1 ≡ m
      → generate_well_shaped chat 0 ≡ raise (contract true)
      → is_funded may_retry ≡ true
      → IsBounded chat may_retry (second_attempt m) × IsLast chat (second_attempt m)
  second-IsAsked (ok s) e broken funded = (inr (refl, broken, funded), inr (refl, e))
  second-IsAsked (raise (contract r)) e broken funded = (inr (refl, broken, funded), tt)
  second-IsAsked (raise (transport x)) e broken funded = (inr (refl, broken, funded), tt)

  first-IsAsked :
      (m : Result LlmError Shaped)
      → generate_well_shaped chat 0 ≡ m
      → (funded : Bool) → is_funded may_retry ≡ funded
      → let again = second_attempt (generate_well_shaped chat 1) in
        IsBounded chat may_retry (first_attempt m funded again)
        × IsLast chat (first_attempt m funded again)
  first-IsAsked (ok s) e funded f = (inl refl, inl (refl, e))
  first-IsAsked (raise (transport x)) e funded f = (inl refl, tt)
  first-IsAsked (raise (contract false)) e funded f = (inl refl, tt)
  first-IsAsked (raise (contract true)) e false f = (inl refl, tt)
  first-IsAsked (raise (contract true)) e true f =
      second-IsAsked (generate_well_shaped chat 1) refl e f

  -- The engine asks for one generation, or for two when the first broke the contract in a way that may be
  -- retried and the caller, if asked, funds it. A reply that goes on is that of the last generation.
  pub ask-IsBounded :
      IsBounded chat may_retry (ask chat may_retry) × IsLast chat (ask chat may_retry)
  unfolding ask
  ask-IsBounded = first-IsAsked (generate_well_shaped chat 0) refl (is_funded may_retry) refl

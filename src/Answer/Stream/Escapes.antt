-- ===== src/Answer/Stream/Escapes.antt =====
-- An escape in a text that grows, and the loop over the string.
use learn_arken.Prelude.{
  ℕ, ◌≤◌, ◌≡◌, inl, inr, refl, Option, none, some, List, [], ◌∷◌, ◌++◌, length, ◌==◌, ◌&&◌,
  Bool-cases, arith,
}
use learn_arken.Prelude.Int.{ℤ, pos, negsuc}
use learn_arken.Answer.Stream.{
  backslash, Escape, incomplete, crash, decoded, is_between, low_half, high_surrogate, of_code,
  unicode_escape, decode_escape,
}

-- What is decoded stays decoded, with more text after it.
abbrev pub Grows : Escape → List ℕ → Escape → Type 0
Grows incomplete more later = Unit
Grows crash more later = later ≡ crash
Grows (decoded d rest) more later = later ≡ decoded d (rest ++ more)

-- What is left is shorter.
abbrev pub Shrinks : Escape → ℕ → Type 0
Shrinks (decoded d rest) n = length rest ≤ n
Shrinks e n = Unit

module _ (hex : List ℕ → Option ℤ) where
  low_half-append :
      (code : ℕ) (rest later more : List ℕ) (o : Option ℤ)
      → Grows (low_half code rest later o) more (low_half code (rest ++ more) (later ++ more) o)
  low_half-append code rest later more none = refl
  low_half-append code rest later more (some (negsuc n)) = refl
  low_half-append code rest later more (some (pos low)) =
      elim (Bool-cases (is_between 0xdc00 0xdfff low)) [ inl y ↦ rw y refl | inr n ↦ rw n refl ]

  high_surrogate-append :
      (code : ℕ) (rest more : List ℕ)
      → Grows (high_surrogate hex code rest) more (high_surrogate hex code (rest ++ more))
  high_surrogate-append code (a ∷ b ∷ c ∷ d ∷ e ∷ f ∷ later) more =
      elim (Bool-cases (a == backslash && b == b'u')) [
        | inl y ↦ rw y (
            low_half-append code (a ∷ b ∷ c ∷ d ∷ e ∷ f ∷ later) later more
              (hex (c ∷ d ∷ e ∷ f ∷ [])))
        | inr n ↦ rw n refl
      ]
  high_surrogate-append code rest more = tt

  of_code-append :
      (rest more : List ℕ) (o : Option ℤ)
      → Grows (of_code hex rest o) more (of_code hex (rest ++ more) o)
  of_code-append rest more none = refl
  of_code-append rest more (some (negsuc n)) = refl
  of_code-append rest more (some (pos code)) = elim (Bool-cases (is_between 0xd800 0xdbff code)) [
    | inl y ↦ rw y (high_surrogate-append code rest more)
    | inr n ↦ elim (Bool-cases (is_between 0xdc00 0xdfff code)) [
      | inl y ↦ rw (n, y) refl
      | inr o ↦ rw (n, o) refl
    ]
  ]

  unicode_escape-append :
      (s more : List ℕ) → Grows (unicode_escape hex s) more (unicode_escape hex (s ++ more))
  unicode_escape-append (c ∷ d ∷ e ∷ f ∷ rest) more =
      of_code-append rest more (hex (c ∷ d ∷ e ∷ f ∷ []))
  unicode_escape-append s more = tt

  pub decode_escape-append :
      (s more : List ℕ) → Grows (decode_escape hex s) more (decode_escape hex (s ++ more))
  unfolding decode_escape
  decode_escape-append [] more = tt
  decode_escape-append (esc ∷ rest) more = elim (Bool-cases (esc == b'u')) [
    | inl y ↦ rw y (unicode_escape-append rest more)
    | inr n ↦ rw n refl
  ]

  low_half-Shrinks :
      (code : ℕ) (rest later : List ℕ) (o : Option ℤ)
      → length later ≤ length rest
      → Shrinks (low_half code rest later o) (length rest)
  low_half-Shrinks code rest later none h = h
  low_half-Shrinks code rest later (some (negsuc n)) h = omega arith
  low_half-Shrinks code rest later (some (pos low)) h =
      elim (Bool-cases (is_between 0xdc00 0xdfff low)) [
        | inl y ↦ rw y h
        | inr n ↦ rw n (omega arith)
      ]

  high_surrogate-Shrinks :
      (code : ℕ) (rest : List ℕ) → Shrinks (high_surrogate hex code rest) (length rest)
  high_surrogate-Shrinks code (a ∷ b ∷ c ∷ d ∷ e ∷ f ∷ later) =
      elim (Bool-cases (a == backslash && b == b'u')) [
        | inl y ↦ rw y (
            low_half-Shrinks code (a ∷ b ∷ c ∷ d ∷ e ∷ f ∷ later) later (hex (c ∷ d ∷ e ∷ f ∷ []))
              (omega arith))
        | inr n ↦ rw n (omega arith)
      ]
  high_surrogate-Shrinks code rest = tt

  of_code-Shrinks : (rest : List ℕ) (o : Option ℤ) → Shrinks (of_code hex rest o) (length rest)
  of_code-Shrinks rest none = omega arith
  of_code-Shrinks rest (some (negsuc n)) = tt
  of_code-Shrinks rest (some (pos code)) = elim (Bool-cases (is_between 0xd800 0xdbff code)) [
    | inl y ↦ rw y (high_surrogate-Shrinks code rest)
    | inr n ↦ elim (Bool-cases (is_between 0xdc00 0xdfff code)) [
      | inl y ↦ rw (n, y) (omega arith)
      | inr o ↦ rw (n, o) (omega arith)
    ]
  ]

  Shrinks-le : (e : Escape) (n m : ℕ) → n ≤ m → Shrinks e n → Shrinks e m
  Shrinks-le incomplete n m l h = tt
  Shrinks-le crash n m l h = tt
  Shrinks-le (decoded d rest) n m l h = omega arith

  unicode_escape-Shrinks : (s : List ℕ) → Shrinks (unicode_escape hex s) (length s)
  unicode_escape-Shrinks (c ∷ d ∷ e ∷ f ∷ rest) =
      Shrinks-le (of_code hex rest (hex (c ∷ d ∷ e ∷ f ∷ []))) (length rest) _ (omega arith)
        (of_code-Shrinks rest (hex (c ∷ d ∷ e ∷ f ∷ [])))
  unicode_escape-Shrinks s = tt

  pub decode_escape-Shrinks : (s : List ℕ) → Shrinks (decode_escape hex s) (length s)
  unfolding decode_escape
  decode_escape-Shrinks [] = tt
  decode_escape-Shrinks (esc ∷ rest) = elim (Bool-cases (esc == b'u')) [
    | inl y ↦ rw y (
        Shrinks-le (unicode_escape hex rest) (length rest) _ (omega arith)
          (unicode_escape-Shrinks rest))
    | inr n ↦ rw n (omega arith)
  ]

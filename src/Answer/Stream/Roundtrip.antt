-- ===== src/Answer/Stream/Roundtrip.antt =====
-- A text comes out of src/learnarken/answer/stream.py as it was, however JSON spells it (RFC 8259, section 7).
use learn_arken.Prelude.{
  ℕ, zero, suc, ◌+◌, ◌-◌, ◌*◌, ◌<◌, ◌≡◌, refl, ap, true, false, Option, some, List, [], ◌∷◌, ◌++◌,
  length, ◌==◌, arith, ok,
}
use learn_arken.Prelude.Int.{ℤ, pos}
use learn_arken.Answer.Stream.{
  quote, is_between, decode_escape, done, emit, consume, consume_string, Fed,
}

-- The letter after a backslash, and the character that the two stand for.
pub data IsShort : ℕ → ℕ → Type 0 where
  for_quote : IsShort b'"' b'"'
  for_backslash : IsShort 92 92
  for_slash : IsShort b'/' b'/'
  for_backspace : IsShort b'b' 8
  for_form_feed : IsShort b'f' 12
  for_line_feed : IsShort b'n' 10
  for_carriage_return : IsShort b'r' 13
  for_tab : IsShort b't' 9

module _ (hex : List ℕ → Option ℤ) where
  -- A text, and a way to write it between the quotes of a JSON string: each character as it is, by a short escape, by the
  -- four hexadecimal digits of its code, or by those of the two halves of a surrogate pair.
  pub data Spells : List ℕ → List ℕ → Type 0 where
    nothing : Spells [] []
    plain :
        {s t : List ℕ} (c : ℕ)
        → (c == b'"') ≡ false
        → (c == 92) ≡ false
        → Spells s t
        → Spells (c ∷ s) (c ∷ t)
    short : {s t : List ℕ} {e c : ℕ} → IsShort e c → Spells s t → Spells (c ∷ s) (92 ∷ e ∷ t)
    by_code :
        {s t : List ℕ} {n : ℕ} (a b c d : ℕ)
        → hex (a ∷ b ∷ c ∷ d ∷ []) ≡ some (pos n)
        → is_between 0xd800 0xdbff n ≡ false
        → is_between 0xdc00 0xdfff n ≡ false
        → Spells s t
        → Spells (n ∷ s) (92 ∷ b'u' ∷ a ∷ b ∷ c ∷ d ∷ t)
    by_pair :
        {s t : List ℕ} {hi lo : ℕ} (a b c d e f g h : ℕ)
        → hex (a ∷ b ∷ c ∷ d ∷ []) ≡ some (pos hi)
        → is_between 0xd800 0xdbff hi ≡ true
        → hex (e ∷ f ∷ g ∷ h ∷ []) ≡ some (pos lo)
        → is_between 0xdc00 0xdfff lo ≡ true
        → Spells s t
        → Spells
            ((0x10000 + (hi - 0xd800) * 1024 + (lo - 0xdc00)) ∷ s)
            (92 ∷ b'u' ∷ a ∷ b ∷ c ∷ d ∷ 92 ∷ b'u' ∷ e ∷ f ∷ g ∷ h ∷ t)

  module _ (tail : List ℕ) where
    abbrev pub whole : List ℕ → Fed
    whole s = ok (record { stage = done; buf = [] }, s)

    consume-short :
        (f : ℕ) {e c : ℕ} (s t : List ℕ)
        → IsShort e c
        → consume hex f t ≡ whole s
        → consume hex (suc f) (92 ∷ e ∷ t) ≡ whole (c ∷ s)
    unfolding consume decode_escape
    consume-short f s t for_quote h = ap (emit b'"') h
    consume-short f s t for_backslash h = ap (emit 92) h
    consume-short f s t for_slash h = ap (emit b'/') h
    consume-short f s t for_backspace h = ap (emit 8) h
    consume-short f s t for_form_feed h = ap (emit 12) h
    consume-short f s t for_line_feed h = ap (emit 10) h
    consume-short f s t for_carriage_return h = ap (emit 13) h
    consume-short f s t for_tab h = ap (emit 9) h

    consume-Spells :
        (f : ℕ) {s t : List ℕ}
        → Spells s t
        → length (t ++ quote ∷ tail) < f
        → consume hex f (t ++ quote ∷ tail) ≡ whole s
    unfolding consume decode_escape
    consume-Spells zero w l = absurd (omega (arith, l))
    consume-Spells (suc f) nothing l = refl
    consume-Spells (suc f) (plain c q b w) l =
        rw (q, b) (ap (emit c) (consume-Spells f w (omega (arith, l))))
    consume-Spells (suc f) (short {s} {t} e w) l =
        consume-short f s (t ++ quote ∷ tail) e (consume-Spells f w (omega (arith, l)))
    consume-Spells (suc f) (by_code {n = n} a b c d x hi lo w) l =
        rw (x, hi, lo) (ap (emit n) (consume-Spells f w (omega (arith, l))))
    consume-Spells (suc f) (by_pair {hi = hi} {lo = lo} a b c d e g h i x high y low w) l =
        rw (x, high, y, low)
          (ap (emit (0x10000 + (hi - 0xd800) * 1024 + (lo - 0xdc00)))
            (consume-Spells f w (omega (arith, l))))

    -- However JSON spells a text between quotes, with any choice of characters as they are, the eight short escapes,
    -- codes and surrogate pairs, the text comes out as it was and the extractor is done, whatever follows the closing
    -- quote. What four digits stand for is what `hex` reads in them.
    pub consume_string-Spells :
        (s t : List ℕ) → Spells s t → consume_string hex (t ++ quote ∷ tail) ≡ whole s
    consume_string-Spells s t w = consume-Spells (suc (length (t ++ quote ∷ tail))) w (omega arith)

-- ===== src/Answer/Stream.antt =====
-- src/learnarken/answer/stream.py: the answer's text out of a reply that arrives in pieces. A text is the
-- list of its code points. `hex` is Python's `int(s, 16)`, with `none` for a `ValueError`; a sign is let
-- through by it, and `chr` of a negative number raises.
pub mod Prefixes
pub mod Think
pub mod Key
pub mod Escapes
pub mod Loop
pub mod Pieces
pub mod Roundtrip
mod Samples
use learn_arken.Prelude.{
  ℕ, zero, suc, ◌+◌, ◌-◌, ◌*◌, Bool, true, false, ◌&&◌, ◌||◌, Option, none, some, List, [], ◌∷◌,
  ◌++◌, length, drop, leb, ltb, ◌==◌, if◌then◌else◌, is_space, Result, ok, raise, ◌>>=◌,
}
use learn_arken.Prelude.Int.{ℤ, pos, negsuc, codes}

abbrev pub quote : ℕ
quote = b'"'

abbrev pub backslash : ℕ
backslash = 92

abbrev pub think_open : List ℕ
think_open = codes "<think>"

abbrev pub think_close : List ℕ
think_close = codes "</think>"

abbrev pub answer_key : List ℕ
answer_key = codes "\"answer\""

-- U+FFFD
abbrev pub replacement : ℕ
replacement = 0xfffd

unfoldable pub lstrip : List ℕ → List ℕ
lstrip [] = []
lstrip (c ∷ s) = let rest = lstrip s in if is_space c then rest else c ∷ s

-- What follows `p`, if the text begins with it.
unfoldable pub strip_prefix : List ℕ → List ℕ → Option (List ℕ)
strip_prefix [] s = some s
strip_prefix (c ∷ p) [] = none
strip_prefix (c ∷ p) (d ∷ s) = let rest = strip_prefix p s in if c == d then rest else none

-- What follows the first place where `p` stands.
unfoldable pub find_after : List ℕ → List ℕ → Option (List ℕ)
find_after p [] = strip_prefix p []
find_after p (c ∷ s) =
    let later = find_after p s in
    elim (strip_prefix p (c ∷ s)) [ none ↦ later | some rest ↦ some rest ]

-- `\s*` and then the character
abbrev pub after_char : ℕ → List ℕ → Option (List ℕ)
after_char c s = strip_prefix (c ∷ []) (lstrip s)

infixl 5 ◌>=>◌
abbrev pub ◌>=>◌ : Option (List ℕ) → (List ℕ → Option (List ℕ)) → Option (List ℕ)
none >=> f = none
some s >=> f = f s

-- `_KEY.match`
unfoldable pub match_key : List ℕ → Option (List ℕ)
match_key s = strip_prefix answer_key s >=> after_char b':' >=> after_char quote

-- What follows the first match of `_KEY`.
unfoldable pub find_key : List ℕ → Option (List ℕ)
find_key [] = none
find_key (c ∷ s) =
    let later = find_key s in elim (match_key (c ∷ s)) [ none ↦ later | some rest ↦ some rest ]

-- `buf[-n:]`, for a positive `n`
abbrev pub last : ℕ → List ℕ → List ℕ
last n s = drop (length s - n) s

pub data Stage : Type 0 where
  prelude think seek in_string done : Stage

pub record Extractor : Type 0 where
  pub stage : Stage
  pub buf : List ℕ

abbrev pub new : Extractor
new = record { stage = prelude; buf = [] }

-- How the text without its leading space compares with the tag: it is neither a part of the tag nor goes on
-- from it, it is a proper part, or it goes on with `rest`.
pub data Opening : Type 0 where
  no_think undecided : Opening
  opened : (rest : List ℕ) → Opening

unfoldable pub compare_tag : (tag head : List ℕ) → Opening
compare_tag [] head = opened head
compare_tag (c ∷ tag) [] = undecided
compare_tag (c ∷ tag) (d ∷ head) =
    let rest = compare_tag tag head in if c == d then rest else no_think

abbrev pub simple_escape : ℕ → ℕ
simple_escape esc =
    if esc == b'b'
    then 8
    else if esc == b'f'
    then 12
    else if esc == b'n'
    then 10
    else if esc == b'r'
    then 13
    else if esc == b't'
    then 9
    else esc

-- The text after a backslash: cut off inside an escape, `chr` raises, or the character and what follows.
pub data Escape : Type 0 where
  incomplete crash : Escape
  decoded : ℕ → List ℕ → Escape

abbrev pub is_between : ℕ → ℕ → ℕ → Bool
is_between lo hi n = leb lo n && leb n hi

-- The second half of a pair: a backslash, `u` and four digits.
abbrev pub low_half : (code : ℕ) (rest later : List ℕ) → Option ℤ → Escape
low_half code rest later none = decoded replacement later
low_half code rest later (some (negsuc n)) = decoded replacement rest
low_half code rest later (some (pos low)) =
    if is_between 0xdc00 0xdfff low
    then decoded (0x10000 + (code - 0xd800) * 1024 + (low - 0xdc00)) later
    else decoded replacement rest

module _ (hex : List ℕ → Option ℤ) where
  -- `rest` begins after the first escape, whose code is a high surrogate.
  abbrev pub high_surrogate : (code : ℕ) (rest : List ℕ) → Escape
  high_surrogate code (a ∷ b ∷ c ∷ d ∷ e ∷ f ∷ later) =
      if a == backslash && b == b'u'
      then low_half code (a ∷ b ∷ c ∷ d ∷ e ∷ f ∷ later) later (hex (c ∷ d ∷ e ∷ f ∷ []))
      else decoded replacement (a ∷ b ∷ c ∷ d ∷ e ∷ f ∷ later)
  high_surrogate code rest = incomplete

  abbrev pub of_code : (rest : List ℕ) → Option ℤ → Escape
  of_code rest none = decoded replacement rest
  of_code rest (some (negsuc n)) = crash
  of_code rest (some (pos code)) =
      if is_between 0xd800 0xdbff code
      then high_surrogate code rest
      else if is_between 0xdc00 0xdfff code
      then decoded replacement rest
      else decoded code rest

  abbrev pub unicode_escape : List ℕ → Escape
  unicode_escape (c ∷ d ∷ e ∷ f ∷ rest) = of_code rest (hex (c ∷ d ∷ e ∷ f ∷ []))
  unicode_escape rest = incomplete

  unfoldable pub decode_escape : List ℕ → Escape
  decode_escape [] = incomplete
  decode_escape (esc ∷ rest) =
      if esc == b'u' then unicode_escape rest else decoded (simple_escape esc) rest

abbrev pub Fed : Type 0
Fed = Result (Unit {0}) (Extractor × List ℕ)

-- `out.append(c)` before the rest of the loop
abbrev pub emit : ℕ → Fed → Fed
emit c (ok (e, out)) = ok (e, c ∷ out)
emit c (raise r) = raise r

-- After a backslash `c`, with `s` after it and `loop` for the rest of the loop.
abbrev pub after_escape : (c : ℕ) (s : List ℕ) → Escape → (loop : List ℕ → Fed) → Fed
after_escape c s incomplete loop = ok (record { stage = in_string; buf = c ∷ s }, [])
after_escape c s crash loop = raise tt
after_escape c s (decoded d rest) loop = emit d (loop rest)

module _ (hex : List ℕ → Option ℤ) where
  -- The loop of `_consume_string`. Each round takes a character at least, so fuel above the length is enough.
  unfoldable pub consume : (fuel : ℕ) → List ℕ → Fed
  consume zero s = ok (record { stage = in_string; buf = s }, [])
  consume (suc fuel) [] = ok (record { stage = in_string; buf = [] }, [])
  consume (suc fuel) (c ∷ s) =
      let plain = emit c (consume fuel s) in
      let escaped = after_escape c s (decode_escape hex s) (consume fuel) in
      if c == quote
      then ok (record { stage = done; buf = [] }, [])
      else if c == backslash
      then escaped
      else plain

  abbrev pub consume_string : List ℕ → Fed
  consume_string s = consume (suc (length s)) s

  unfoldable pub from_seek : List ℕ → Fed
  from_seek buf = elim (find_key buf) [
    | none ↦ ok (record { stage = seek; buf = buf }, [])
    | some rest ↦ consume_string rest
  ]

  unfoldable pub from_think : List ℕ → Fed
  from_think buf = elim (find_after think_close buf) [
    | none ↦ ok (record { stage = think; buf = last 7 buf }, [])
    | some rest ↦ from_seek rest
  ]

  -- An empty head and a proper part of the tag both wait for more.
  unfoldable pub from_prelude : List ℕ → Fed
  from_prelude buf = elim (compare_tag think_open (lstrip buf)) [
    | no_think ↦ from_seek buf
    | undecided ↦ ok (record { stage = prelude; buf = buf }, [])
    | opened rest ↦ from_think rest
  ]

  -- The stages in turn, from the extractor's own on.
  unfoldable pub run : Stage → List ℕ → Fed
  run prelude buf = from_prelude buf
  run think buf = from_think buf
  run seek buf = from_seek buf
  run in_string buf = consume_string buf
  run done buf = ok (record { stage = done; buf = buf }, [])

  abbrev pub feed_at : Stage → Extractor → List ℕ → Fed
  feed_at done e delta = ok (e, [])
  feed_at prelude e delta = run prelude (e.buf ++ delta)
  feed_at think e delta = run think (e.buf ++ delta)
  feed_at seek e delta = run seek (e.buf ++ delta)
  feed_at in_string e delta = run in_string (e.buf ++ delta)

  unfoldable pub feed : Extractor → List ℕ → Fed
  feed e [] = ok (e, [])
  feed e (c ∷ delta) = feed_at e.stage e (c ∷ delta)

  -- The pieces of one reply in turn, with all that is handed out.
  unfoldable pub feed_all : Extractor → List (List ℕ) → Fed
  feed_all e [] = ok (e, [])
  feed_all e (delta ∷ later) = do
    (e1, first) ← feed e delta
    (e2, rest) ← feed_all e1 later
    ok (e2, first ++ rest)

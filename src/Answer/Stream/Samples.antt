-- ===== src/Answer/Stream/Samples.antt =====
-- A reply that arrives in three pieces, cut inside the tag and inside an escape.
use learn_arken.Prelude.{
  ℕ, ◌+◌, ◌-◌, ◌*◌, ◌≡◌, refl, ◌&&◌, Option, none, some, List, [], ◌∷◌, ◌++◌, leb, if◌then◌else◌,
  ok, is_space,
}
use learn_arken.Prelude.Int.{ℤ, pos, codes}
use learn_arken.Answer.Stream.{
  quote, new, done, lstrip, strip_prefix, find_after, match_key, find_key, compare_tag,
  decode_escape, consume, consume_string, from_seek, from_think, from_prelude, run, feed, feed_all,
}
use learn_arken.Answer.Stream.Pieces.{concat, feed_all-concat}
use learn_arken.Answer.Stream.Roundtrip.{
  Spells, nothing, plain, short, by_code, by_pair, for_tab, for_quote, consume_string-Spells,
}

-- `int(s, 16)` of decimal digits and small letters
abbrev digit : ℕ → Option ℕ
digit c =
    if leb b'0' c && leb c b'9'
    then some (c - 48)
    else if leb b'a' c && leb c b'f'
    then some (c - 87)
    else none

abbrev hex_from : ℕ → List ℕ → Option ℤ
hex_from n [] = some (pos n)
hex_from n (c ∷ s) = elim (digit c) [ none ↦ none | some d ↦ hex_from (n * 16 + d) s ]

abbrev hex : List ℕ → Option ℤ
hex s = hex_from 0 s

abbrev pieces : List (List ℕ)
pieces =
    codes " <th"
    ∷ codes "ink>\"answer\": \"no\"</think>{\"answer\" : \"a\\u00"
    ∷ codes "e9\\n\\ud83d\\ude00\", \"citations\": []}"
    ∷ []

runs :
    feed_all hex new pieces ≡ ok (record { stage = done; buf = [] }, 97 ∷ 233 ∷ 10 ∷ 0x1f600 ∷ [])
unfolding lstrip is_space strip_prefix find_after match_key find_key compare_tag decode_escape
    consume from_seek from_think from_prelude run feed feed_all
runs = refl

feed_all-concat_example : feed_all hex new pieces ≡ feed hex new (concat pieces)
feed_all-concat_example = feed_all-concat hex new pieces

-- `a`, a tab, a quote, an accented letter by its code and a face by its pair
abbrev spelled : List ℕ
spelled = codes "a\\t\\\"\\u00e9\\ud83d\\ude00"

spelled-Spells : Spells hex (97 ∷ 9 ∷ 34 ∷ 233 ∷ 0x1f600 ∷ []) spelled
spelled-Spells = plain 97 refl refl (
    short for_tab (
      short for_quote (
        by_code b'0' b'0' b'e' b'9' refl refl refl
          (by_pair b'd' b'8' b'3' b'd' b'd' b'e' b'0' b'0' refl refl refl refl nothing))))

consume_string-Spells_example :
    consume_string hex (spelled ++ quote ∷ codes "}")
    ≡ ok (record { stage = done; buf = [] }, 97 ∷ 9 ∷ 34 ∷ 233 ∷ 0x1f600 ∷ [])
consume_string-Spells_example =
    consume_string-Spells hex (codes "}") (97 ∷ 9 ∷ 34 ∷ 233 ∷ 0x1f600 ∷ []) spelled spelled-Spells

-- ===== src/Deploy/Trigger/Samples.antt =====
-- A lock taken at a moment, tried by another visitor; a token's second start.
use learn_arken.Prelude.{
  ◌==◌, arith, ℕ, String, ◌≡◌, refl, Option, none, some, [], ◌∷◌, str_eq, if◌then◌else◌,
}
use learn_arken.Prelude.Dict.{Dict}
use learn_arken.Deploy.Trigger.{Instant, Reading, after_zero, start_lock_left, start_lock_label}
use learn_arken.Deploy.Trigger.Lock.{start_lock_left-frees}

abbrev at_noon : Instant
at_noon = record { seconds = 43200; micros = 500000 }

abbrev soon : Instant
soon = record { seconds = 43260; micros = 0 }

abbrev late : Instant
late = record { seconds = 43400; micros = 0 }

-- `float` on two texts.
unfoldable parse : String → Option Reading
parse s = if str_eq s "43201" then some (after_zero 43201000000) else none

unfoldable print : ℕ → String
print n = if n == 43201 then "43201" else ""

abbrev idle_labels : Dict String
idle_labels = ("env", "demo") ∷ []

abbrev locked_labels : Dict String
locked_labels = ("env", "demo") ∷ (start_lock_label, "43201") ∷ []

start_lock_left-frees_example : start_lock_left parse (some "43201") late ≡ 0
unfolding parse start_lock_left
start_lock_left-frees_example =
    start_lock_left-frees parse (some "43201") at_noon late (omega arith) refl

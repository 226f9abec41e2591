-- ===== src/Api/DemoGuard/Samples.antt =====
-- A guard of src/learnarken/api/demo_guard.py in public mode, and what requests do to it.
use learn_arken.Prelude.{String, ◌≡◌, ◌↔◌, refl, true, false, some, [], ◌∷◌, arith}
use learn_arken.Prelude.Int.{pos}
use learn_arken.Prelude.Dict
use learn_arken.Api.DemoGuard.{
  Environ, DemoGuard, init, key_ok, enter_slot, leave_slot, try_extra_llm_call,
}
use learn_arken.Api.DemoGuard.Fence.{
  World, start, enter, extra, leave, Reach, here, next, IsFenced, Reach-IsFenced,
}
use learn_arken.Api.DemoGuard.Key.{IsConfigured, key_ok-init}

abbrev guard : DemoGuard
guard = record {
  public = true;
  gate_key = "a key of some length";
  max_calls = pos 3;
  max_concurrency = pos 1;
  allow_upload = false;
}

abbrev entered : World
entered = record { counters = record { calls = 1; active = 1 }; open_slots = 1; granted = 1 }

abbrev asked_again : World
asked_again = record { counters = record { calls = 2; active = 1 }; open_slots = 1; granted = 2 }

abbrev left : World
left = record { counters = record { calls = 2; active = 0 }; open_slots = 0; granted = 2 }

one_request : Reach guard start left
unfolding enter_slot try_extra_llm_call leave_slot
one_request =
    next {w = asked_again}
      (next {w = entered} (next here (enter (record { calls = 1; active = 1 }) refl refl))
        (extra (record { calls = 2; active = 1 }) refl refl))
      (leave (omega arith) refl)

Reach-IsFenced_example : IsFenced guard left
Reach-IsFenced_example = Reach-IsFenced guard refl left one_request

abbrev env : Environ
env = ("DEMO_PUBLIC", "1") ∷ ("DEMO_GATE_KEY", "0123456789abcdef") ∷ []

env-public : Dict.get "DEMO_PUBLIC" env ≡ some "1"
unfolding Dict.get
env-public = refl

env-key : Dict.get "DEMO_GATE_KEY" env ≡ some "0123456789abcdef"
unfolding Dict.get
env-key = refl

abbrev guess : String
guess = "0123456789ABCDEF"

key_ok-init_example :
    (key_ok (init env) (some guess) ≡ true)
    ↔ (IsConfigured "0123456789abcdef" × (guess ≡ "0123456789abcdef"))
key_ok-init_example = key_ok-init env "0123456789abcdef" guess env-public env-key

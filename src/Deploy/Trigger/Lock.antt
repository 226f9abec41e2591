-- ===== src/Deploy/Trigger/Lock.antt =====
-- deploy/trigger/logic.py: the lock on a start excludes a second start, and does not last.
use learn_arken.Prelude.{
  if◌then◌else◌, str_eq, inr, inl, ℕ, ◌+◌, ◌≤◌, String, ◌≡◌, refl, true, Option, none, some, ltb,
  arith, Bool-cases, some_injective,
}
use learn_arken.Prelude.Dict
use learn_arken.Prelude.Dict.{Dict}
use learn_arken.Deploy.Trigger.{
  Instant, span, since, ceil, Reading, after_zero, before_zero, not_finite, lock_left,
  start_lock_left, plan_start_lock, release_start_lock, start_lock_label, start_lock_ttl,
  start_lock_max_skew,
}

ceil-since :
    (t : Instant)
    → t.micros ≤ 999999
    → (since t ≤ span (ceil t)) × (span (ceil t) ≤ since t + 1000000)
ceil-since t h = ground arith

lock_left-holds :
    (taken : ℕ) (now : Instant)
    → taken ≤ since now + 5000000
    → since now + 1 ≤ taken + 120000000
    → ltb 0 (lock_left (some (after_zero taken)) now) ≡ true
lock_left-holds taken now a b = ground arith

lock_left-frees :
    (r : Option Reading) (now later : Instant)
    → since now + 125000000 ≤ since later
    → ltb 0 (lock_left r now) ≡ true
    → lock_left r later ≡ 0
lock_left-frees none now later h held = refl
lock_left-frees (some not_finite) now later h held = refl
lock_left-frees (some (before_zero t)) now later h held = omega arith
lock_left-frees (some (after_zero t)) now later h held = ground arith

module _ (float_of : String → Option Reading) where
  -- A lock that holds at some moment, whatever text its label has, is free from 125 seconds later on.
  pub start_lock_left-frees :
      (label : Option String) (now later : Instant)
      → since now + span (start_lock_ttl + start_lock_max_skew) ≤ since later
      → ltb 0 (start_lock_left float_of label now) ≡ true
      → start_lock_left float_of label later ≡ 0
  unfolding start_lock_left
  start_lock_left-frees none now later h held = refl
  start_lock_left-frees (some label) now later h held =
      lock_left-frees (float_of label) now later h held

  -- If `float` reads the stamp back, then whoever takes the lock keeps everyone out whose clock is at most four
  -- seconds behind the taker's and less than 120 seconds ahead of it.
  pub plan_start_lock-excludes :
      (str_of : ℕ → String) (labels taken : Dict String) (now other : Instant)
      → now.micros ≤ 999999
      → float_of (str_of (ceil now)) ≡ some (after_zero (span (ceil now)))
      → plan_start_lock float_of str_of labels now ≡ some taken
      → since now ≤ since other + span 4
      → since other + 1 ≤ since now + span start_lock_ttl
      → plan_start_lock float_of str_of taken other ≡ none
  unfolding plan_start_lock start_lock_left
  plan_start_lock-excludes str_of labels taken now other m reads e behind ahead =
      elim (Bool-cases (ltb 0 (start_lock_left float_of (Dict.get start_lock_label labels) now))) [
        | inl y ↦ absurd (cc (rw y at e))
        | inr n ↦
            let written : Dict.put start_lock_label (str_of (ceil now)) labels ≡ taken =
              some_injective (rw n at e) in
            let (low, high) = ceil-since now m in
            let held = lock_left-holds (span (ceil now)) other (omega arith) (omega arith) in
            rw
              (
                ← written,
                Dict.get-put_self start_lock_label (str_of (ceil now)) labels,
                reads,
                held,
              )
              refl
      ]

  -- Releasing a lock that was taken leaves no lock, and every other label as it was before the lock.
  pub release_start_lock-plan :
      (str_of : ℕ → String) (labels taken : Dict String) (now : Instant) (k : String)
      → plan_start_lock float_of str_of labels now ≡ some taken
      → Dict.get k (release_start_lock taken)
        ≡ (if str_eq start_lock_label k then none else Dict.get k labels)
  unfolding plan_start_lock release_start_lock
  release_start_lock-plan str_of labels taken now k e =
      elim (Bool-cases (ltb 0 (start_lock_left float_of (Dict.get start_lock_label labels) now))) [
        | inl y ↦ absurd (cc (rw y at e))
        | inr n ↦
            let written : Dict.put start_lock_label (str_of (ceil now)) labels ≡ taken =
              some_injective (rw n at e) in
            rw (← written, Dict.get-remove, Dict.get-put)
              (elim (Bool-cases (str_eq start_lock_label k)) [
                | inl y ↦ rw y refl
                | inr z ↦ rw z refl
              ])
      ]

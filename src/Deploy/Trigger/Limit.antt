-- ===== src/Deploy/Trigger/Limit.antt =====
-- deploy/trigger/logic.py: one start per token and hour.
use learn_arken.Prelude.{◌+◌, inl, inr, String, ◌≡◌, refl, ltb, str_eq, if◌then◌else◌, Bool-cases}
use learn_arken.Prelude.Dict
use learn_arken.Prelude.Dict.{Dict}
use learn_arken.Deploy.Trigger.{
  Instant, span, since, min_start_interval, is_rate_limited, record_start,
}

-- After a start is recorded, its token is limited for one hour from then, and every other token as before.
pub is_rate_limited-record_start :
    (history : Dict Instant) (token other : String) (now later : Instant)
    → is_rate_limited (record_start history token now) other later ≡ (
        if str_eq token other
        then ltb (since later) (since now + span min_start_interval)
        else is_rate_limited history other later)
unfolding is_rate_limited record_start
is_rate_limited-record_start history token other now later =
    rw (Dict.get-put)
      (elim (Bool-cases (str_eq token other)) [ inl y ↦ rw y refl | inr n ↦ rw n refl ])

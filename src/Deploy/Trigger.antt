-- ===== src/Deploy/Trigger.antt =====
-- deploy/trigger/logic.py: who may start the demo machine, and when. A clock reading is a number of
-- seconds and of microseconds; spans are in microseconds, and a difference below zero is zero where the
-- code takes `max(0.0, ...)` of it. `float_of` and `str_of` are Python's `float` of a text, with `none` for a
-- `ValueError`, and `str` of an integer.
pub mod Limit
pub mod Lock
mod Samples
use learn_arken.Prelude.{
  ℕ, ◌+◌, ◌-◌, ◌*◌, String, Bool, true, false, ◌||◌, Option, none, some, List, [], ◌∷◌, elem, ltb,
  str_eq, if◌then◌else◌, ◌==◌,
}
use learn_arken.Prelude.Dict
use learn_arken.Prelude.Dict.{Dict}

pub record Instant : Type 0 where
  pub seconds : ℕ
  pub micros : ℕ

abbrev pub span : ℕ → ℕ
span seconds = seconds * 1000000

abbrev pub since : Instant → ℕ
since t = span t.seconds + t.micros

abbrev pub ceil : Instant → ℕ
ceil t = if t.micros == 0 then t.seconds else t.seconds + 1

abbrev pub min_start_interval : ℕ
min_start_interval = 3600

abbrev pub min_global_start_interval : ℕ
min_global_start_interval = 300

abbrev pub starting_statuses : List String
starting_statuses = "PROVISIONING" ∷ "STAGING" ∷ "REPAIRING" ∷ []

abbrev pub closing_statuses : List String
closing_statuses = "STOPPING" ∷ "SUSPENDING" ∷ []

-- The scan over every entry: the last one that matches.
unfoldable pub resolve_token : String → Dict String → Option String → Option String
resolve_token token [] found = found
resolve_token token ((known, recipient) ∷ rest) found =
    resolve_token token rest (if str_eq token known then some recipient else found)

unfoldable pub start_floor_left : Option Instant → Instant → ℕ
start_floor_left none now = 0
start_floor_left (some last) now = span min_global_start_interval + since last - since now

-- `now - last < MIN_START_INTERVAL_S`
abbrev pub is_within : Option Instant → Instant → Bool
is_within none now = false
is_within (some last) now = ltb (since now) (since last + span min_start_interval)

unfoldable pub is_rate_limited : Dict Instant → String → Instant → Bool
is_rate_limited history token now = is_within (Dict.get token history) now

unfoldable pub record_start : Dict Instant → String → Instant → Dict Instant
record_start history token now = Dict.put token now history

abbrev pub start_lock_label : String
start_lock_label = "demo-start-lock"

abbrev pub start_lock_ttl : ℕ
start_lock_ttl = 120

abbrev pub start_lock_max_skew : ℕ
start_lock_max_skew = 5

-- What `float` gives: microseconds after or before zero, or `inf` and `nan`.
pub data Reading : Type 0 where
  after_zero before_zero : (micros : ℕ) → Reading
  not_finite : Reading

-- `max(0.0, START_LOCK_TTL_S - (now - taken))`
abbrev pub lock_left : Option Reading → Instant → ℕ
lock_left none now = 0
lock_left (some not_finite) now = 0
lock_left (some (before_zero t)) now = span start_lock_ttl - (since now + t)
lock_left (some (after_zero t)) now =
    if ltb (since now + span start_lock_max_skew) t then 0 else span start_lock_ttl + t - since now

module _ (float_of : String → Option Reading) where
  -- `float(None)` is a `TypeError`.
  unfoldable pub start_lock_left : Option String → Instant → ℕ
  start_lock_left none now = 0
  start_lock_left (some label) now = lock_left (float_of label) now

  unfoldable pub plan_start_lock :
      (str_of : ℕ → String) → Dict String → Instant → Option (Dict String)
  plan_start_lock str_of labels now =
      if ltb 0 (start_lock_left (Dict.get start_lock_label labels) now)
      then none
      else some (Dict.put start_lock_label (str_of (ceil now)) labels)

unfoldable pub release_start_lock : Dict String → Dict String
release_start_lock labels = Dict.remove start_lock_label labels

unfoldable pub page_state : Option String → Bool → String
page_state none app_ready = "closed"
page_state (some status) app_ready =
    if str_eq status "RUNNING"
    then (if app_ready then "running" else "starting")
    else if elem status starting_statuses
    then "starting"
    else if elem status closing_statuses
    then "closing"
    else "closed"

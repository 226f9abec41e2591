-- ===== src/Deploy/Gate/Samples.antt =====
-- One request that starts the machine.
use learn_arken.Prelude.{ℕ, String, refl, Option, none, some, [], ◌∷◌, str_eq, if◌then◌else◌, ◌==◌}
use learn_arken.Prelude.Dict
use learn_arken.Prelude.Dict.{Dict}
use learn_arken.Deploy.Trigger.{
  Instant, Reading, after_zero, resolve_token, start_floor_left, is_rate_limited, start_lock_left,
  plan_start_lock,
}
use learn_arken.Deploy.Gate.{
  Memory, Instance, Cloud, written, started, demo_gate, serve, route_of, start_request, with_lock,
  after_start, take_start_lock, lock_writes,
}
use learn_arken.Deploy.Gate.Guarded.{IsGuarded, demo_gate-IsGuarded}
use learn_arken.Deploy.Gate.Hours.{HistoryKept, demo_gate-HistoryKept}

abbrev at_noon : Instant
at_noon = record { seconds = 43200; micros = 500000 }

-- `float` on one text, and the text of an integer
unfoldable parse : String → Option Reading
parse s = if str_eq s "43201" then some (after_zero 43201000000) else none

unfoldable print : ℕ → String
print n = if n == 43201 then "43201" else "0"

abbrev tokens : Dict String
tokens = ("t0ken", "anna") ∷ []

abbrev machine : String → Instance
machine status = record {
  status = status;
  labels = [];
  last_start = none;
  external_ip = some "10.0.0.7";
}

abbrev fresh_memory : Memory
fresh_memory = record { start_history = []; ready_notified = []; write_broken_until = 0 }

abbrev cloud : String → Cloud
cloud status = record {
  instance_read = some (machine status);
  app = some (some "ready");
  write = written;
  reread = none;
  start = started;
  release_read = none;
}

demo_gate-IsGuarded_example :
    IsGuarded parse print tokens "key" "/api/start" "POST" "t0ken" fresh_memory at_noon
      (cloud "TERMINATED")
unfolding demo_gate resolve_token route_of serve start_request is_rate_limited start_floor_left
    take_start_lock lock_writes with_lock after_start plan_start_lock start_lock_left Dict.get
    Dict.put parse print
demo_gate-IsGuarded_example =
    demo_gate-IsGuarded parse print tokens "key" "/api/start" "POST" "t0ken" fresh_memory at_noon
      (cloud "TERMINATED") refl

demo_gate-HistoryKept_example : HistoryKept fresh_memory "t0ken" at_noon (cloud "TERMINATED") (
    demo_gate parse print tokens "key" "/api/start" "POST" "t0ken" fresh_memory at_noon
      (cloud "TERMINATED"))
demo_gate-HistoryKept_example =
    demo_gate-HistoryKept parse print tokens "key" "/api/start" "POST" "t0ken" fresh_memory at_noon
      (cloud "TERMINATED")

-- ===== src/Deploy/Gate/Guarded.antt =====
-- deploy/trigger/main.py: when the machine is started, when an hour is used up, and when the key is shown.
use learn_arken.Prelude.{
  ℕ, any, String, ◌≡◌, inl, inr, refl, Bool, true, false, not, ◌&&◌, Option, none, some, List, elem,
  ltb, str_eq, Bool-cases, Option-cases,
}
use learn_arken.Prelude.Dict.{Dict}
use learn_arken.Deploy.Trigger.{
  Instant, Reading, resolve_token, start_floor_left, is_rate_limited, plan_start_lock, page_state,
}
use learn_arken.Deploy.Gate.{
  Memory, Instance, Cloud, Effect, start_machine, set_labels, notify_ready, notify_started,
  Response, is_stopped, route_of, Route, start_route, state_route, page_route, other_route,
  demo_gate, serve, start_request, state_request, locked_start, take_start_lock, with_lock,
  lock_writes, is_ready, app_answer, lock_is_live,
}

abbrev pub is_start : Effect → Bool
is_start start_machine = true
is_start (set_labels labels) = false
is_start (notify_ready recipient) = false
is_start (notify_started recipient) = false

-- Whether the machine's start is asked for.
abbrev pub starts : Memory × Response × List Effect → Bool
starts run = any is_start run.2

state_request-quiet :
    (gate_key : String) (m : Memory) (recipient : String) (c : Cloud) (o : Option Instance)
    → starts (state_request gate_key m recipient c o) ≡ false
unfolding state_request
state_request-quiet gate_key m recipient c none = refl
state_request-quiet gate_key m recipient c (some i) =
    elim (Bool-cases (
      str_eq (page_state (some i.status) (is_ready (app_answer i c))) "running"
      && not (elem recipient m.ready_notified))) [ inl y ↦ rw y refl | inr n ↦ rw n refl ]

module _ (float_of : String → Option Reading) (str_of : ℕ → String) where
  -- What has been passed before the machine is started for a request.
  pub record MayStart (m : Memory) (token : String) (now : Instant) (i : Instance) : Type 0 where
    pub stopped : is_stopped i.status ≡ true
    pub in_turn : is_rate_limited m.start_history token now ≡ false
    pub settled : ltb 0 (start_floor_left i.last_start now) ≡ false
    pub unlocked : lock_is_live float_of str_of i.labels now ≡ false

  locked_start-MayStart :
      (m : Memory) (token recipient : String) (now : Instant) (c : Cloud) (i : Instance)
      → starts (locked_start float_of str_of m token recipient now c i) ≡ true
      → lock_is_live float_of str_of i.labels now ≡ false
  unfolding take_start_lock with_lock lock_writes
  locked_start-MayStart m token recipient now c i mem =
      elim (Option-cases (plan_start_lock float_of str_of i.labels now)) [
        | inr (taken, e) ↦ rw e refl
        | inl e ↦ absurd (cc (rw (e, lock_writes) at mem))
      ]

  start_request-MayStart :
      (m : Memory) (token recipient : String) (now : Instant) (c : Cloud) (o : Option Instance)
      → starts (start_request float_of str_of m token recipient now c o) ≡ true
      → (i : Instance) × (o ≡ some i) × MayStart m token now i
  unfolding start_request
  start_request-MayStart m token recipient now c none mem = cc
  start_request-MayStart m token recipient now c (some i) mem =
      elim (Bool-cases (is_stopped i.status)) [
        | inr a ↦ absurd (cc (rw a at mem))
        | inl a ↦ elim (Bool-cases (is_rate_limited m.start_history token now)) [
          | inl b ↦ absurd (cc (rw (a, b) at mem))
          | inr b ↦ elim (Bool-cases (ltb 0 (start_floor_left i.last_start now))) [
            | inl d ↦ absurd (cc (rw (a, b, d) at mem))
            | inr d ↦ (
              i,
              refl,
              record {
                stopped = a;
                in_turn = b;
                settled = d;
                unlocked = locked_start-MayStart m token recipient now c i (rw (a, b, d) at mem);
              },
            )
          ]
        ]
      ]

module _ (float_of : String → Option Reading) (str_of : ℕ → String) (tokens : Dict String)
    (gate_key : String) where
  -- The start is asked for by a known token through its route.
  pub record IsGuarded (path method token : String) (m : Memory) (now : Instant) (c : Cloud)
      : Type 0 where
    pub recipient : String
    pub known : resolve_token token tokens none ≡ some recipient
    pub routed : route_of path method ≡ start_route
    pub instance_now : Instance
    pub read : c.instance_read ≡ some instance_now
    pub may_start : MayStart float_of str_of m token now instance_now

  serve-start :
      (r : Route) (m : Memory) (token recipient : String) (now : Instant) (c : Cloud)
      → starts (serve float_of str_of tokens gate_key r m token recipient now c) ≡ true
      → (r ≡ start_route)
        × ((i : Instance) × (c.instance_read ≡ some i) × MayStart float_of str_of m token now i)
  unfolding serve
  serve-start page_route m token recipient now c h = cc
  serve-start state_route m token recipient now c h =
      absurd (cc (state_request-quiet gate_key m recipient c c.instance_read))
  serve-start start_route m token recipient now c h =
      (refl, start_request-MayStart float_of str_of m token recipient now c c.instance_read h)
  serve-start other_route m token recipient now c h = cc

  -- The machine's start is asked for only for a known token on the route of a start, when the machine was read as
  -- stopped, the token's hour and the floor since the last start are over, and no lock holds.
  pub demo_gate-IsGuarded :
      (path method token : String) (m : Memory) (now : Instant) (c : Cloud)
      → starts (demo_gate float_of str_of tokens gate_key path method token m now c) ≡ true
      → IsGuarded path method token m now c
  unfolding demo_gate
  demo_gate-IsGuarded path method token m now c h =
      elim (Option-cases (resolve_token token tokens none)) [
        | inl e ↦ absurd (cc (rw (e, demo_gate) at h))
        | inr (recipient, e) ↦
            let (routed, (i, read, may)) =
              serve-start (route_of path method) m token recipient now c (rw (e, demo_gate) at h) in
            record {
              recipient = recipient;
              known = e;
              routed = routed;
              instance_now = i;
              read = read;
              may_start = may;
            }
      ]

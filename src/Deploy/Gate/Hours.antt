-- ===== src/Deploy/Gate/Hours.antt =====
-- deploy/trigger/main.py: a token's hour is used up only by a start that succeeded.
use learn_arken.Prelude.{
  ◌++◌, ◌∷◌, ◌&&◌, not, elem, str_eq, ltb, List, [], arith, true, String, ◌≡◌, ◌⊎◌, inl, inr, refl,
  ap, ℕ, Option, none, some, Bool-cases, Option-cases, any,
}
use learn_arken.Prelude.Dict.{Dict}
use learn_arken.Deploy.Trigger.{
  page_state, Instant, Reading, is_rate_limited, record_start, plan_start_lock, start_floor_left,
  resolve_token,
}
use learn_arken.Deploy.Gate.{
  app_answer, is_ready, lock_writes, Memory, Instance, Cloud, Effect, Response, Write, written,
  failed, Lock, won, held, error, Start, started, start_failed, after_write, try_lock,
  take_start_lock, is_broken, is_contended, with_lock, after_start, locked_start, start_request,
  is_stopped, state_request, serve, Route, start_route, state_route, page_route, other_route,
  demo_gate, route_of, start_machine,
}
use learn_arken.Deploy.Gate.Guarded.{is_start, starts}

-- The start history after a request: as before, or with the start that was asked for and succeeded.
abbrev pub HistoryKept :
    Memory → (token : String) → Instant → Cloud → Memory × Response × List Effect → Type 0
HistoryKept m token now c run =
    (run.0.start_history ≡ m.start_history)
    ⊎ ((starts run ≡ true)
        × (c.start ≡ started)
        × (run.0.start_history ≡ record_start m.start_history token now))

starts-append : (before after : List Effect) → any is_start (before ++ start_machine ∷ after) ≡ true
starts-append [] after = refl
starts-append (e ∷ before) after = ground (arith, starts-append before after)

-- The start was called, after the effects `before`.
called_start :
    (m m' : Memory) (token recipient : String) (now : Instant) (c : Cloud) (value : Option String)
    (before : List Effect) (s : Start)
    → c.start ≡ s
    → m'.start_history ≡ m.start_history
    → HistoryKept m token now c (
      (after_start m' token recipient now c value s).0,
      (after_start m' token recipient now c value s).1,
      before ++ start_machine ∷ (after_start m' token recipient now c value s).2,
    )
unfolding after_start
called_start m m' token recipient now c value before start_failed e h = inl h
called_start m m' token recipient now c value before started e h =
    inr (starts-append before _, e, ap (λ (d : Dict Instant). record_start d token now) h)

with_lock-history :
    (m m' : Memory) (token recipient : String) (now : Instant) (c : Cloud) (lock : Lock)
    (value : Option String) (before : List Effect)
    → m'.start_history ≡ m.start_history
    → HistoryKept m token now c (
      (with_lock token recipient now c lock value m').0,
      (with_lock token recipient now c lock value m').1,
      before ++ (with_lock token recipient now c lock value m').2,
    )
unfolding with_lock
with_lock-history m m' token recipient now c held value before h = inl h
with_lock-history m m' token recipient now c won value before h =
    called_start m m' token recipient now c value before c.start refl h
with_lock-history m m' token recipient now c error value before h =
    called_start m m' token recipient now c value before c.start refl h

state_request-history :
    (gate_key : String) (m : Memory) (recipient : String) (c : Cloud) (o : Option Instance)
    → (state_request gate_key m recipient c o).0.start_history ≡ m.start_history
unfolding state_request
state_request-history gate_key m recipient c none = refl
state_request-history gate_key m recipient c (some i) =
    elim (Bool-cases (
      str_eq (page_state (some i.status) (is_ready (app_answer i c))) "running"
      && not (elem recipient m.ready_notified))) [ inl y ↦ rw y refl | inr n ↦ rw n refl ]

module _ (float_of : String → Option Reading) (str_of : ℕ → String) where
  after_write-history :
      (m : Memory) (now : Instant) (c : Cloud) (taken : Dict String) (w : Write)
      → (after_write float_of str_of m now c taken w).2.start_history ≡ m.start_history
  after_write-history m now c taken written = refl
  after_write-history m now c taken (failed code) = elim (Bool-cases (is_contended code)) [
    | inl y ↦ rw y refl
    | inr n ↦ rw n refl
  ]

  try_lock-history :
      (m : Memory) (now : Instant) (c : Cloud) (o : Option (Dict String))
      → (try_lock float_of str_of m now c o).2.start_history ≡ m.start_history
  try_lock-history m now c none = refl
  try_lock-history m now c (some taken) = elim (Bool-cases (is_broken m now)) [
    | inl y ↦ rw y refl
    | inr n ↦ rw n (after_write-history m now c taken c.write)
  ]

  locked_start-history :
      (m : Memory) (token recipient : String) (now : Instant) (c : Cloud) (i : Instance)
      → HistoryKept m token now c (locked_start float_of str_of m token recipient now c i)
  unfolding take_start_lock
  locked_start-history m token recipient now c i =
      let plan = plan_start_lock float_of str_of i.labels now in
      let (lock, value, m') = try_lock float_of str_of m now c plan in
      with_lock-history m m' token recipient now c lock value
        (lock_writes float_of str_of m now i.labels) (try_lock-history m now c plan)

  start_request-history :
      (m : Memory) (token recipient : String) (now : Instant) (c : Cloud) (o : Option Instance)
      → HistoryKept m token now c (start_request float_of str_of m token recipient now c o)
  unfolding start_request
  start_request-history m token recipient now c none = inl refl
  start_request-history m token recipient now c (some i) = elim (Bool-cases (is_stopped i.status)) [
    | inr a ↦ rw a (inl refl)
    | inl a ↦ elim (Bool-cases (is_rate_limited m.start_history token now)) [
      | inl b ↦ rw (a, b) (inl refl)
      | inr b ↦ elim (Bool-cases (ltb 0 (start_floor_left i.last_start now))) [
        | inl d ↦ rw (a, b, d) (inl refl)
        | inr d ↦ rw (a, b, d) (locked_start-history m token recipient now c i)
      ]
    ]
  ]

  -- A request leaves the history of starts as it is, or its start was asked for and succeeded, and the history has
  -- the token with the time of the request.
  pub demo_gate-HistoryKept :
      (tokens : Dict String) (gate_key path method token : String) (m : Memory) (now : Instant)
      (c : Cloud)
      → HistoryKept m token now c
          (demo_gate float_of str_of tokens gate_key path method token m now c)
  unfolding demo_gate serve
  demo_gate-HistoryKept tokens gate_key path method token m now c =
      elim (Option-cases (resolve_token token tokens none)) [
        | inl e ↦ rw (e, demo_gate) (inl refl)
        | inr (recipient, e) ↦ rw (e, demo_gate) (served recipient (route_of path method))
      ]
    where
      served :
          (recipient : String) (r : Route)
          → HistoryKept m token now c
              (serve float_of str_of tokens gate_key r m token recipient now c)
      served recipient page_route = inl refl
      served recipient state_route =
          inl (state_request-history gate_key m recipient c c.instance_read)
      served recipient start_route = start_request-history m token recipient now c c.instance_read
      served recipient other_route = inl refl

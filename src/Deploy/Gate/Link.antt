-- ===== src/Deploy/Gate/Link.antt =====
-- deploy/trigger/main.py: who gets the link with the key, and when.
use learn_arken.Prelude.{
  some_injective, inr, inl, ◌&&◌, not, elem, str_eq, eq_iff, ltb, Bool, true, false, String, ◌≡◌,
  refl, sym, ap, Option, none, some, Bool-cases, Option-cases, is_none, ℕ, ◌≢◌,
}
use learn_arken.Prelude.Dict.{Dict}
use learn_arken.Deploy.Trigger.{
  page_state, Instant, Reading, resolve_token, is_rate_limited, start_floor_left,
}
use learn_arken.Deploy.Gate.{
  Memory, Instance, Cloud, Response, state_reply, is_ready, app_answer, demo_url, state_request,
  serve, Route, start_route, state_route, page_route, other_route, demo_gate, route_of,
  start_request, is_stopped, Lock, won, held, error, with_lock, after_start, Start, started,
  start_failed, take_start_lock,
}

-- The machine runs and its self-check has passed.
abbrev pub IsUp : Cloud → Instance → Type 0
IsUp c i = (i.status ≡ "RUNNING") × (c.app ≡ some (some "ready"))

is_ready-eq : (o : Option (Option String)) → is_ready o ≡ true → o ≡ some (some "ready")
is_ready-eq none h = cc
is_ready-eq (some none) h = cc
is_ready-eq (some (some s)) h = ap (λ (z : String). some (some z)) ((eq_iff s "ready").0 h)

app_answer-IsUp : (i : Instance) (c : Cloud) → is_ready (app_answer i c) ≡ true → IsUp c i
app_answer-IsUp i c h = elim (Bool-cases (str_eq i.status "RUNNING")) [
  | inr n ↦ absurd (cc (rw n at h))
  | inl y ↦ elim (Bool-cases (is_none i.external_ip)) [
    | inl none_given ↦ absurd (cc (rw (y, none_given) at h))
    | inr given ↦ ((eq_iff i.status "RUNNING").0 y, is_ready-eq c.app (rw (y, given) at h))
  ]
]

demo_url-eq-some :
    (gate_key : String) (ready : Bool) (ip : Option String) {url : String × String}
    → demo_url gate_key ready ip ≡ some url
    → (ready ≡ true) × (ip ≡ some url.0) × (url.1 ≡ gate_key)
demo_url-eq-some gate_key true (some ip) h =
    let same : (ip, gate_key) ≡ _ = some_injective h in
    (
      refl,
      ap (λ (z : String × String). some z.0) same,
      sym (ap (λ (z : String × String). z.1) same),
    )
demo_url-eq-some gate_key true none h = cc
demo_url-eq-some gate_key false ip h = cc

-- The link of a response, if it has one.
abbrev pub link : Response → Option (String × String)
link (state_reply state url) = url
link _ = none

state_request-link :
    (gate_key : String) (m : Memory) (recipient : String) (c : Cloud) (o : Option Instance)
    {url : String × String}
    → link (state_request gate_key m recipient c o).1 ≡ some url
    → (i : Instance) × (o ≡ some i) × IsUp c i × (i.external_ip ≡ some url.0) × (url.1 ≡ gate_key)
unfolding state_request
state_request-link gate_key m recipient c none h = cc
state_request-link gate_key m recipient c (some i) h =
    let ready = is_ready (app_answer i c) in
    let (up, ip, key) = demo_url-eq-some gate_key ready i.external_ip (shown h) in
    (i, refl, app_answer-IsUp i c up, ip, key)
  where
    shown :
        {url : String × String}
        → link (state_request gate_key m recipient c (some i)).1 ≡ some url
        → demo_url gate_key (is_ready (app_answer i c)) i.external_ip ≡ some url
    shown h =
        elim (Bool-cases (
          str_eq (page_state (some i.status) (is_ready (app_answer i c))) "running"
          && not (elem recipient m.ready_notified))) [ inl y ↦ rw y at h | inr n ↦ rw n at h ]

after_start-link :
    (m : Memory) (token recipient : String) (now : Instant) (c : Cloud) (value : Option String)
    (s : Start)
    → link (after_start m token recipient now c value s).1 ≡ none
unfolding after_start
after_start-link m token recipient now c value start_failed = refl
after_start-link m token recipient now c value started = refl

with_lock-link :
    (m : Memory) (token recipient : String) (now : Instant) (c : Cloud) (lock : Lock)
    (value : Option String)
    → link (with_lock token recipient now c lock value m).1 ≡ none
unfolding with_lock
with_lock-link m token recipient now c held value = refl
with_lock-link m token recipient now c won value =
    after_start-link m token recipient now c value c.start
with_lock-link m token recipient now c error value =
    after_start-link m token recipient now c value c.start

module _ (float_of : String → Option Reading) (str_of : ℕ → String) where
  start_request-link :
      (m : Memory) (token recipient : String) (now : Instant) (c : Cloud) (o : Option Instance)
      → link (start_request float_of str_of m token recipient now c o).1 ≡ none
  unfolding start_request
  start_request-link m token recipient now c none = refl
  start_request-link m token recipient now c (some i) = elim (Bool-cases (is_stopped i.status)) [
    | inr a ↦ rw a refl
    | inl a ↦ elim (Bool-cases (is_rate_limited m.start_history token now)) [
      | inl b ↦ rw (a, b) refl
      | inr b ↦ elim (Bool-cases (ltb 0 (start_floor_left i.last_start now))) [
        | inl d ↦ rw (a, b, d) refl
        | inr d ↦
            let (lock, value, m') = take_start_lock float_of str_of m now c i.labels in
            rw (a, b, d) (with_lock-link m' token recipient now c lock value)
      ]
    ]
  ]

  -- A response has the link only for a known token and while the machine runs, its self-check has passed and
  -- it has an address; the link is then this address with the key.
  pub demo_gate-link :
      (tokens : Dict String) (gate_key path method token : String) (m : Memory) (now : Instant)
      (c : Cloud) {url : String × String}
      → link (demo_gate float_of str_of tokens gate_key path method token m now c).1 ≡ some url
      → (resolve_token token tokens none ≢ none)
        × ((i : Instance) × (c.instance_read ≡ some i)
            × IsUp c i
            × (i.external_ip ≡ some url.0)
            × (url.1 ≡ gate_key))
  unfolding demo_gate serve
  demo_gate-link tokens gate_key path method token m now c {url} h =
      elim (Option-cases (resolve_token token tokens none)) [
        | inl e ↦ absurd (cc (rw (e, demo_gate) at h))
        | inr (recipient, e) ↦
            (λ n. cc, served recipient (route_of path method) (rw (e, demo_gate) at h))
      ]
    where
      served :
          (recipient : String) (r : Route)
          → link (serve float_of str_of tokens gate_key r m token recipient now c).1 ≡ some url
          → (i : Instance) × (c.instance_read ≡ some i)
            × IsUp c i
            × (i.external_ip ≡ some url.0)
            × (url.1 ≡ gate_key)
      served recipient page_route g = cc
      served recipient state_route g = state_request-link gate_key m recipient c c.instance_read g
      served recipient start_route g =
          absurd (cc (start_request-link m token recipient now c c.instance_read))
      served recipient other_route g = cc

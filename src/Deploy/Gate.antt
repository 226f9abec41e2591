-- ===== src/Deploy/Gate.antt =====
-- deploy/trigger/main.py: the function behind the page. What the cloud and the machine answer to one request are
-- fields of `Cloud`, in the order of the calls; the calls that change something are `Effect`s. Logging
-- is left out, and mail is an effect that cannot fail the request.
pub mod Guarded
pub mod Hours
pub mod Link
mod Samples
use learn_arken.Prelude.{
  ℕ, ◌+◌, ◌-◌, ◌*◌, ◌/◌, String, Bool, true, false, ◌||◌, ◌&&◌, not, Option, none, some, List, [],
  ◌∷◌, ◌++◌, elem, ltb, filter, any, str_eq, if◌then◌else◌, ◌==◌, is_none, ◌⧺◌,
}
use learn_arken.Prelude.Dict
use learn_arken.Prelude.Dict.{Dict}
use learn_arken.Deploy.Trigger.{
  Instant, since, span, Reading, resolve_token, start_floor_left, is_rate_limited, record_start,
  start_lock_label, plan_start_lock, release_start_lock, page_state,
}

-- The globals of one instance of the function.
pub record Memory : Type 0 where
  pub start_history : Dict Instant
  pub ready_notified : List String
  pub write_broken_until : ℕ

pub record Instance : Type 0 where
  pub status : String
  pub labels : Dict String
  pub last_start : Option Instant
  pub external_ip : Option String

-- What `set_labels` does: it returns, or raises an exception with that `code`.
pub data Write : Type 0 where
  written : Write
  failed : (code : Option ℕ) → Write

-- `started` is also an operation that is still running when the wait for it expires.
pub data Start : Type 0 where
  started start_failed : Start

-- `none` is an exception of the call. `app` is `_app_status`: the `status` of the answer, if there is one.
pub record Cloud : Type 0 where
  pub instance_read : Option Instance
  pub app : Option (Option String)
  pub write : Write
  pub reread : Option Instance
  pub start : Start
  pub release_read : Option Instance

pub data Lock : Type 0 where
  won held error : Lock

abbrev pub contended_codes : List ℕ
contended_codes = 409 ∷ 412 ∷ []

abbrev pub lock_write_backoff : ℕ
lock_write_backoff = 300

abbrev pub is_contended : Option ℕ → Bool
is_contended none = false
is_contended (some code) = any (λ c. c == code) contended_codes

pub data Effect : Type 0 where
  set_labels : Dict String → Effect
  start_machine : Effect
  notify_ready notify_started : (recipient : String) → Effect

pub data Response : Type 0 where
  forbidden page internal_error starting limited_per_hour unavailable not_found : Response
  limited_until : (seconds : ℕ) → Response
  state_reply : (state : String) (demo_url : Option (String × String)) → Response

-- `now < _lock_write_broken_until`
abbrev pub is_broken : Memory → Instant → Bool
is_broken m now = ltb (since now) m.write_broken_until

module _ (float_of : String → Option Reading) (str_of : ℕ → String) where
  abbrev pub lock_is_live : Dict String → Instant → Bool
  lock_is_live labels now = is_none (plan_start_lock float_of str_of labels now)

  -- After a write with a stale fingerprint.
  abbrev pub after_contention : Option Instance → Instant → Lock
  after_contention none now = error
  after_contention (some fresh) now = if lock_is_live fresh.labels now then held else error

  abbrev pub after_write :
      (m : Memory) (now : Instant) (c : Cloud) (labels : Dict String)
      → Write
      → Lock × Option String × Memory
  after_write m now c labels written = (won, Dict.get start_lock_label labels, m)
  after_write m now c labels (failed code) =
      if is_contended code
      then (after_contention c.reread now, none, m)
      else (error, none, record m { write_broken_until = since now + span lock_write_backoff })

  abbrev pub try_lock :
      (m : Memory) (now : Instant) (c : Cloud)
      → Option (Dict String)
      → Lock × Option String × Memory
  try_lock m now c none = (held, none, m)
  try_lock m now c (some labels) =
      if is_broken m now then (error, none, m) else after_write m now c labels c.write

  -- The outcome, the value that was written, and the memory.
  unfoldable pub take_start_lock :
      Memory → Instant → Cloud → (labels : Dict String) → Lock × Option String × Memory
  take_start_lock m now c labels = try_lock m now c (plan_start_lock float_of str_of labels now)

  -- The labels that the request writes to take the lock, if it gets to the write.
  unfoldable pub lock_writes : Memory → Instant → (labels : Dict String) → List Effect
  lock_writes m now labels = elim (plan_start_lock float_of str_of labels now) [
    | none ↦ []
    | some taken ↦ if is_broken m now then [] else set_labels taken ∷ []
  ]

-- Whether `labels.get(START_LOCK_LABEL)` is the value that the request wrote.
abbrev pub is_ours : String → Option String → Bool
is_ours value none = false
is_ours value (some current) = str_eq current value

unfoldable pub release : Option String → Option Instance → List Effect
release none read = []
release (some value) none = []
release (some value) (some i) =
    if is_ours value (Dict.get start_lock_label i.labels)
    then set_labels (release_start_lock i.labels) ∷ []
    else []

abbrev pub forget : String → List String → List String
forget recipient names = filter (λ n. not (str_eq n recipient)) names

-- `instances.start` has been called.
unfoldable pub after_start :
    Memory
    → (token recipient : String) → Instant
    → Cloud
    → Option String
    → Start
    → Memory × Response × List Effect
after_start m token recipient now c value start_failed =
    (m, unavailable, release value c.release_read)
after_start m token recipient now c value started = (
  record m {
    start_history = record_start m.start_history token now;
    ready_notified = forget recipient m.ready_notified;
  },
  starting,
  notify_started recipient ∷ [],
)

unfoldable pub with_lock :
    (token recipient : String)
    → Instant
    → Cloud
    → Lock
    → Option String
    → Memory
    → Memory × Response × List Effect
with_lock token recipient now c held value m = (m, starting, [])
with_lock token recipient now c won value m =
    let (m', response, effects) = after_start m token recipient now c value c.start in
    (m', response, start_machine ∷ effects)
with_lock token recipient now c error value m =
    let (m', response, effects) = after_start m token recipient now c value c.start in
    (m', response, start_machine ∷ effects)

abbrev pub is_stopped : String → Bool
is_stopped status = elem status ("TERMINATED" ∷ "SUSPENDED" ∷ [])

module _ (float_of : String → Option Reading) (str_of : ℕ → String) where
  abbrev pub locked_start :
      Memory
      → (token recipient : String) → Instant
      → Cloud
      → Instance
      → Memory × Response × List Effect
  locked_start m token recipient now c i =
      let (lock, value, m') = take_start_lock float_of str_of m now c i.labels in
      let (m'', response, effects) = with_lock token recipient now c lock value m' in
      (m'', response, lock_writes float_of str_of m now i.labels ++ effects)

  -- `POST /api/start`
  unfoldable pub start_request :
      Memory
      → (token recipient : String) → Instant
      → Cloud
      → Option Instance
      → Memory × Response × List Effect
  start_request m token recipient now c none = (m, internal_error, [])
  start_request m token recipient now c (some i) =
      if not (is_stopped i.status)
      then (m, starting, [])
      else if is_rate_limited m.start_history token now
      then (m, limited_per_hour, [])
      else if ltb 0 (start_floor_left i.last_start now)
      then (m, limited_until (start_floor_left i.last_start now / 1000000), [])
      else locked_start m token recipient now c i

abbrev pub is_ready : Option (Option String) → Bool
is_ready (some (some status)) = str_eq status "ready"
is_ready _ = false

-- `_app_status(ip) if instance.status == "RUNNING" and ip else None`
abbrev pub app_answer : Instance → Cloud → Option (Option String)
app_answer i c = if str_eq i.status "RUNNING" && not (is_none i.external_ip) then c.app else none

-- The host and the key of the link.
abbrev pub demo_url : (gate_key : String) → Bool → Option String → Option (String × String)
demo_url gate_key true (some ip) = some (ip, gate_key)
demo_url gate_key _ _ = none

-- `GET /api/state`
unfoldable pub state_request :
    (gate_key : String)
    → Memory
    → (recipient : String) → Cloud
    → Option Instance
    → Memory × Response × List Effect
state_request gate_key m recipient c none = (m, internal_error, [])
state_request gate_key m recipient c (some i) =
    let ready = is_ready (app_answer i c) in
    let state = page_state (some i.status) ready in
    let reply = state_reply state (demo_url gate_key ready i.external_ip) in
    if str_eq state "running" && not (elem recipient m.ready_notified)
    then (
      record m { ready_notified = recipient ∷ m.ready_notified },
      reply,
      notify_ready recipient ∷ [],
    )
    else (m, reply, [])

pub data Route : Type 0 where
  page_route state_route start_route other_route : Route

-- `path.rstrip("/")`
abbrev put_before : String → String → String
put_before slash String.[] = if str_eq slash "/" then String.[] else slash
put_before first (String.◌∷◌ c s) = first ⧺ String.◌∷◌ c s

unfoldable pub without_slashes : String → String
without_slashes String.[] = String.[]
without_slashes (String.◌∷◌ c s) = put_before (String.◌∷◌ c String.[]) (without_slashes s)

abbrev pub or_root : String → String
or_root path = if str_eq path "" then "/" else path

abbrev pub route_at : (path method : String) → Route
route_at path method =
    if str_eq path "/" && str_eq method "GET"
    then page_route
    else if str_eq path "/api/state" && str_eq method "GET"
    then state_route
    else if str_eq path "/api/start" && str_eq method "POST"
    then start_route
    else other_route

unfoldable pub route_of : (path method : String) → Route
unfolding without_slashes
route_of path method = route_at (or_root (without_slashes path)) method

module _ (float_of : String → Option Reading) (str_of : ℕ → String) (tokens : Dict String)
    (gate_key : String) where
  unfoldable pub serve :
      Route
      → Memory
      → (token recipient : String) → Instant
      → Cloud
      → Memory × Response × List Effect
  serve page_route m token recipient now c = (m, page, [])
  serve state_route m token recipient now c = state_request gate_key m recipient c c.instance_read
  serve start_route m token recipient now c =
      start_request float_of str_of m token recipient now c c.instance_read
  serve other_route m token recipient now c = (m, not_found, [])

  unfoldable pub demo_gate :
      (path method token : String) → Memory → Instant → Cloud → Memory × Response × List Effect
  demo_gate path method token m now c = elim (resolve_token token tokens none) [
    | none ↦ (m, forbidden, [])
    | some recipient ↦ serve (route_of path method) m token recipient now c
  ]

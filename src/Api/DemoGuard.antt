-- ===== src/Api/DemoGuard.antt =====
-- src/learnarken/api/demo_guard.py: the spend and concurrency fence of the public demo. `threading.Lock`
-- makes each method's test and update one step, so a method is a function on the counters; the body of
-- `with guard.llm_slot()` runs between `enter_slot` and `leave_slot`.
pub mod Fence
pub mod Key
mod Samples
use Prim.Native.String.{count}
use learn_arken.Prelude.{
  ℕ, ◌+◌, ◌-◌, String, ◌≡◌, Bool, true, false, not, ◌&&◌, ◌||◌, Option, none, some, ltb, str_eq,
  if◌then◌else◌, Result, ok, raise,
}
use learn_arken.Prelude.Dict
use learn_arken.Prelude.Dict.{Dict}
use learn_arken.Prelude.Int.{ℤ, pos, le_ℤ, int_of}

-- `DemoQuotaExceeded`, by its two messages
pub data QuotaExceeded : Type 0 where
  daily_limit busy : QuotaExceeded

abbrev pub placeholder_key : String
placeholder_key = "CHANGE-ME-must-match-the-Cloud-Function-link-key"

abbrev pub min_key_len : ℕ
min_key_len = 16

abbrev pub Environ : Type 0
Environ = Dict String

abbrev or_default : Option ℤ → ℤ → ℤ
or_default none d = d
or_default (some n) d = n

unfoldable pub int_env : Environ → String → ℤ → ℤ
int_env env name default = elim (Dict.get name env) [
  | none ↦ default
  | some text ↦ or_default (int_of text) default
]

abbrev pub env_text : Environ → String → String
env_text env name = elim (Dict.get name env) [ none ↦ "" | some t ↦ t ]

-- What the constructor reads once.
pub record DemoGuard : Type 0 where
  pub public : Bool
  pub gate_key : String
  pub max_calls : ℤ
  pub max_concurrency : ℤ
  pub allow_upload : Bool

unfoldable pub gate_key_of : String → String
gate_key_of key = if str_eq key placeholder_key || ltb (count key) min_key_len then "" else key

unfoldable pub init : Environ → DemoGuard
unfolding gate_key_of int_env
init env = record {
  public = str_eq (env_text env "DEMO_PUBLIC") "1";
  gate_key = gate_key_of (env_text env "DEMO_GATE_KEY");
  max_calls = int_env env "DEMO_MAX_LLM_CALLS" (pos 200);
  max_concurrency = int_env env "DEMO_MAX_CONCURRENCY" (pos 2);
  allow_upload = str_eq (env_text env "DEMO_ALLOW_UPLOAD") "1";
}

-- The counters under the lock.
pub record Counters : Type 0 where
  pub calls : ℕ
  pub active : ℕ

abbrev pub fresh : Counters
fresh = record { calls = 0; active = 0 }

unfoldable pub try_extra_llm_call : DemoGuard → Counters → Bool × Counters
try_extra_llm_call g c =
    if not g.public
    then (true, c)
    else if le_ℤ g.max_calls (pos c.calls)
    then (false, c)
    else (true, record c { calls = c.calls + 1 })

abbrev key_matches : String → Option String → Bool
key_matches gate_key none = false
key_matches gate_key (some provided) =
    not (str_eq gate_key "") && not (str_eq provided "") && str_eq provided gate_key

unfoldable pub key_ok : DemoGuard → Option String → Bool
key_ok g provided = if not g.public then true else key_matches g.gate_key provided

unfoldable pub uploads_allowed : DemoGuard → Bool
uploads_allowed g = g.allow_upload || not g.public

unfoldable pub enter_slot : DemoGuard → Counters → Result QuotaExceeded Counters
enter_slot g c =
    if not g.public
    then ok c
    else if le_ℤ g.max_calls (pos c.calls)
    then raise daily_limit
    else if le_ℤ g.max_concurrency (pos c.active)
    then raise busy
    else ok (record { calls = c.calls + 1; active = c.active + 1 })

-- The `finally` of a slot that was entered, also when its body raises.
unfoldable pub leave_slot : DemoGuard → Counters → Counters
leave_slot g c = if not g.public then c else record c { active = c.active - 1 }

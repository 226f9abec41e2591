-- ===== src/Deploy/Watchdog.antt =====
-- deploy/vm/idle_watchdog.py. A clock reading, a float, enters by its floor, which decides each comparison
-- with the limits, whole numbers of seconds; `none` is `math.inf`. A power-off is the request of one.
pub mod Strikes
mod Samples
use learn_arken.Prelude.{
  ◌+◌, zero, suc, Bool, not, ◌||◌, Option, none, some, List, [], ◌∷◌, true, if◌then◌else◌,
}
use learn_arken.Prelude.Int.{ℤ, pos, negsuc, le_ℤ}

abbrev pub idle_limit : ℤ
idle_limit = pos 1800

abbrev pub hard_cap : ℤ
hard_cap = pos 10800

abbrev pub boot_grace : ℤ
boot_grace = pos 900

abbrev pub fail_limit : ℤ
fail_limit = pos 10

pub data Action : Type 0 where
  keep shutdown_idle shutdown_cap : Action

-- `reading >= limit`
abbrev pub reaches : ℤ → Option ℤ → Bool
reaches limit none = true
reaches limit (some s) = le_ℤ limit s

unfoldable pub decide : (idle : ℤ) (uptime : Option ℤ) → Action
decide idle uptime =
    if reaches hard_cap uptime
    then shutdown_cap
    else if le_ℤ idle_limit idle
    then shutdown_idle
    else keep

pub data Reason : Type 0 where
  idle_reason cap_reason unreachable_reason : Reason

-- What a run of the timer finds: the API's reply, with `malformed` for one that is no finite number.
pub data Reply : Type 0 where
  unreachable malformed : Reply
  idle_seconds : ℤ → Reply

-- The clock as it reads at the three calls of `vm_uptime_seconds`.
pub record Probe : Type 0 where
  pub uptime : Option ℤ
  pub uptime_in_window : Option ℤ
  pub uptime_at_end : Option ℤ
  pub provisioning : Bool
  pub reply : Reply

-- The count's file, if it is there and holds a number, and the power-off that a run asks for.
abbrev pub Fails : Type 0
Fails = Option ℤ

abbrev pub Ran : Type 0
Ran = Fails × Option Reason

-- `int(text)`, which may be negative
abbrev pub read_fail_count : Fails → ℤ
read_fail_count none = pos 0
read_fail_count (some n) = n

-- `n + 1`
abbrev pub next : ℤ → ℤ
next (pos n) = pos (n + 1)
next (negsuc zero) = pos 0
next (negsuc (suc n)) = negsuc n

unfoldable pub strike : Fails → Ran
strike fails =
    let n = next (read_fail_count fails) in
    (some n, if le_ℤ fail_limit n then some unreachable_reason else none)

unfoldable pub boot_window : Probe → Bool
boot_window p = p.provisioning || not (reaches boot_grace p.uptime_in_window)

abbrev pub reason_of : Action → Option Reason
reason_of keep = none
reason_of shutdown_idle = some idle_reason
reason_of shutdown_cap = some cap_reason

abbrev pub on_reply : Probe → Fails → Reply → Ran
on_reply p fails unreachable = if boot_window p then (fails, none) else strike fails
on_reply p fails malformed = strike fails
on_reply p fails (idle_seconds idle) = (some (pos 0), reason_of (decide idle p.uptime_at_end))

unfoldable pub main : Probe → Fails → Ran
main p fails =
    if reaches hard_cap p.uptime then (fails, some cap_reason) else on_reply p fails p.reply

-- Runs of the timer, with what each asks for.
unfoldable pub runs : List Probe → Fails → Fails × List (Option Reason)
runs [] fails = (fails, [])
runs (p ∷ ps) fails =
    let (fails', asked) : Ran = main p fails in
    let (last, more) : Fails × List (Option Reason) = runs ps fails' in (last, asked ∷ more)

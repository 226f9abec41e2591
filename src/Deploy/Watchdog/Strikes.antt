-- ===== src/Deploy/Watchdog/Strikes.antt =====
-- deploy/vm/idle_watchdog.py fails toward off.
use learn_arken.Prelude.{
  ℕ, ◌+◌, ◌≤◌, ◌≡◌, ◌↔◌, ◌⊎◌, inl, inr, refl, ap, ◌∙◌, Bool, true, false, none, some, List, [], ◌∷◌,
  length, leb, arith, All, Bool-cases,
}
use learn_arken.Prelude.Int.{pos, le_ℤ}
use learn_arken.Deploy.Watchdog.{
  next, hard_cap, idle_limit, fail_limit, reaches, decide, unreachable_reason, Reply, unreachable,
  malformed, idle_seconds, Probe, Fails, Ran, read_fail_count, strike, boot_window, on_reply, main,
  runs,
}

-- Why a reply leaves the machine on, below the hard cap.
abbrev pub KeptBy : Probe → Fails → Reply → Type 0
KeptBy p fails unreachable =
    (boot_window p ≡ true) ⊎ (le_ℤ fail_limit (next (read_fail_count fails)) ≡ false)
KeptBy p fails malformed = le_ℤ fail_limit (next (read_fail_count fails)) ≡ false
KeptBy p fails (idle_seconds idle) =
    (reaches hard_cap p.uptime_at_end ≡ false) × (le_ℤ idle_limit idle ≡ false)

strike-none :
    (fails : Fails)
    → ((strike fails).1 ≡ none) ↔ (le_ℤ fail_limit (next (read_fail_count fails)) ≡ false)
unfolding strike
strike-none fails = elim (Bool-cases (le_ℤ fail_limit (next (read_fail_count fails)))) [
  | inl y ↦ ((λ h. cc (rw y at h)), (λ h. cc h))
  | inr n ↦ ((λ h. n), (λ h. rw n refl))
]

on_reply-none :
    (p : Probe) (fails : Fails) (r : Reply) → ((on_reply p fails r).1 ≡ none) ↔ KeptBy p fails r
unfolding decide
on_reply-none p fails malformed = strike-none fails
on_reply-none p fails unreachable = elim (Bool-cases (boot_window p)) [
  | inl y ↦ ((λ h. inl y), (λ h. rw y refl))
  | inr n ↦ (
    (λ h. inr ((strike-none fails).0 (rw n at h))),
    (λ h. rw n (elim h [ inl y ↦ cc (n, y) | inr k ↦ (strike-none fails).1 k ])),
  )
]
on_reply-none p fails (idle_seconds idle) = elim (Bool-cases (reaches hard_cap p.uptime_at_end)) [
  | inl y ↦ ((λ h. cc (rw y at h)), (λ h. cc (y, h.0)))
  | inr n ↦ elim (Bool-cases (le_ℤ idle_limit idle)) [
    | inl y ↦ ((λ h. cc (rw (n, y) at h)), (λ h. cc (y, h.1)))
    | inr m ↦ ((λ h. (n, m)), (λ h. rw (n, m) refl))
  ]
]

-- A run of the watchdog asks for no power-off exactly if the uptime is below the hard cap and: the API
-- is unreachable in the boot window or for fewer than 10 strikes, or it gives no finite number for fewer
-- than 10 strikes, or it reports less than the idle limit while the uptime is still below the cap.
pub main-none :
    (p : Probe) (fails : Fails)
    → ((main p fails).1 ≡ none) ↔ ((reaches hard_cap p.uptime ≡ false) × KeptBy p fails p.reply)
unfolding main
main-none p fails =
    let replied = on_reply-none p fails p.reply in
    elim (Bool-cases (reaches hard_cap p.uptime)) [
      | inl y ↦ ((λ h. cc (rw y at h)), (λ h. cc (y, h.0)))
      | inr n ↦ ((λ h. (n, replied.0 (rw n at h))), (λ h. rw n (replied.1 h.1)))
    ]

abbrev pub is_failure : Reply → Bool
is_failure unreachable = true
is_failure malformed = true
is_failure (idle_seconds s) = false

-- A run in which the API is unusable, after the boot window and below the hard cap.
abbrev pub IsFailing : Probe → Type 0
IsFailing p =
    (reaches hard_cap p.uptime ≡ false) × (boot_window p ≡ false) × (is_failure p.reply ≡ true)

failing-on_reply :
    (p : Probe) (fails : Fails) (r : Reply)
    → boot_window p ≡ false
    → is_failure r ≡ true
    → on_reply p fails r ≡ strike fails
failing-on_reply p fails unreachable b f = rw b refl
failing-on_reply p fails malformed b f = refl
failing-on_reply p fails (idle_seconds s) b f = cc

failing-main : (p : Probe) (fails : Fails) → IsFailing p → main p fails ≡ strike fails
unfolding main
failing-main p fails h = rw h.0 (failing-on_reply p fails p.reply h.1 h.2)

-- The file holds no negative number.
abbrev pub IsCount : Fails → Type 0
IsCount fails = (n : ℕ) × (read_fail_count fails ≡ pos n)

failing-count :
    (ps : List Probe) (fails : Fails) (n : ℕ)
    → All IsFailing ps
    → read_fail_count fails ≡ pos n
    → read_fail_count (runs ps fails).0 ≡ pos (n + length ps)
unfolding runs strike
failing-count [] fails n h e = e ∙ ap pos (omega arith)
failing-count (p ∷ ps) fails n h e =
    failing-count ps (main p fails).0 (n + 1) h.1
      (ap (λ (r : Ran). read_fail_count r.0) (failing-main p fails h.0) ∙ ap next e)
    ∙ ap pos (omega arith)

-- After at least 9 runs in a row in which the API is unusable, outside the boot window and below the hard cap, the next
-- such run asks for the power-off, whatever the count's file held before, unless it held a negative number.
pub main-runs :
    (ps : List Probe) (p : Probe) (fails : Fails)
    → IsCount fails
    → All IsFailing ps
    → IsFailing p
    → 10 ≤ length ps + 1
    → (main p (runs ps fails).0).1 ≡ some unreachable_reason
unfolding strike
main-runs ps p fails (n, e) h last enough =
    let count = failing-count ps fails n h e in
    let reached : leb 10 (n + length ps + 1) ≡ true = ground (arith, enough) in
    ap (λ (r : Ran). r.1) (failing-main p (runs ps fails).0 last) ∙ rw count (rw reached refl)

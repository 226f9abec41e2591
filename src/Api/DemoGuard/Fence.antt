-- ===== src/Api/DemoGuard/Fence.antt =====
-- The fence of src/learnarken/api/demo_guard.py holds under every interleaving of requests.
use learn_arken.Prelude.{
  sym, ap, subst, ok-injective, ℕ, ◌+◌, ◌-◌, ◌≤◌, ◌<◌, ◌≡◌, refl, Bool, true, false, arith, ok,
  raise, Bool-cases, inl, inr, ◌⊎◌,
}
use learn_arken.Prelude.Int.{ℤ, pos, negsuc, le_ℤ}
use learn_arken.Api.DemoGuard.{
  DemoGuard, Counters, fresh, QuotaExceeded, enter_slot, leave_slot, try_extra_llm_call,
}

-- The counters, the slots that are open, and the generations that were let through, which the program
-- does not store.
pub record World : Type 0 where
  pub counters : Counters
  pub open_slots : ℕ
  pub granted : ℕ

abbrev pub start : World
start = record { counters = fresh; open_slots = 0; granted = 0 }

-- One step of some request. A request may leave only a slot that is open.
pub data Step (g : DemoGuard) (w : World) (w' : World) : Type 0 where
  enter :
      (c : Counters)
      → enter_slot g w.counters ≡ ok c
      → w' ≡ record { counters = c; open_slots = w.open_slots + 1; granted = w.granted + 1 }
      → Step g w w'
  turned_away : (e : QuotaExceeded) → enter_slot g w.counters ≡ raise e → w' ≡ w → Step g w w'
  extra :
      (c : Counters)
      → try_extra_llm_call g w.counters ≡ (true, c)
      → w' ≡ record w { counters = c; granted = w.granted + 1 }
      → Step g w w'
  no_extra :
      (c : Counters)
      → try_extra_llm_call g w.counters ≡ (false, c)
      → w' ≡ record w { counters = c }
      → Step g w w'
  leave :
      0 < w.open_slots
      → w' ≡ record w { counters = leave_slot g w.counters; open_slots = w.open_slots - 1 }
      → Step g w w'

pub data Reach (g : DemoGuard) (s : World) : World → Type 0 where
  here : Reach g s s
  next : {w w' : World} → Reach g s w → Step g w w' → Reach g s w'

-- `n` is within a limit that may be negative, in which case it is 0.
abbrev pub Within : ℤ → ℕ → Type 0
Within (pos m) n = n ≤ m
Within (negsuc m) n = n ≡ 0

-- In public mode.
pub record IsFenced (g : DemoGuard) (w : World) : Type 0 where
  pub counted : w.counters.calls ≡ w.granted
  pub held : w.counters.active ≡ w.open_slots
  pub under_calls : Within g.max_calls w.granted
  pub under_active : Within g.max_concurrency w.open_slots

Within-suc : (m : ℤ) (n : ℕ) → Within m n → le_ℤ m (pos n) ≡ false → Within m (n + 1)
Within-suc (pos m) n h e = ground arith
Within-suc (negsuc m) n h e = cc

zero-Within : (m : ℤ) → Within m 0
zero-Within (pos m) = omega arith
zero-Within (negsuc m) = refl

Within-pred : (m : ℤ) (n : ℕ) → Within m n → Within m (n - 1)
Within-pred (pos m) n h = omega arith
Within-pred (negsuc m) n h = omega arith

module _ (g : DemoGuard) (public : g.public ≡ true) where
  enter-eq-ok :
      (c c' : Counters)
      → enter_slot g c ≡ ok c'
      → (le_ℤ g.max_calls (pos c.calls) ≡ false)
        × (le_ℤ g.max_concurrency (pos c.active) ≡ false)
        × (record { calls = c.calls + 1; active = c.active + 1 } ≡ c')
  unfolding enter_slot
  enter-eq-ok c c' e = elim (Bool-cases (le_ℤ g.max_calls (pos c.calls))) [
    | inl y ↦ cc (rw (public, y) at e)
    | inr n ↦ elim (Bool-cases (le_ℤ g.max_concurrency (pos c.active))) [
      | inl y ↦ cc (rw (public, n, y) at e)
      | inr m ↦ (n, m, ok-injective (rw (public, n, m) at e))
    ]
  ]

  enter-IsFenced :
      (w : World) (c : Counters)
      → IsFenced g w
      → enter_slot g w.counters ≡ ok c
      → IsFenced g (record { counters = c; open_slots = w.open_slots + 1; granted = w.granted + 1 })
  enter-IsFenced w c f e =
      let (calls_left, slot_left, same) = enter-eq-ok w.counters c e in
      subst
        (λ c.
          IsFenced g
            (record { counters = c; open_slots = w.open_slots + 1; granted = w.granted + 1 }))
        same
        (record {
          counted = ap (λ n. n + 1) f.counted;
          held = ap (λ n. n + 1) f.held;
          under_calls = Within-suc g.max_calls w.granted f.under_calls (rw f.counted at calls_left);
          under_active =
              Within-suc g.max_concurrency w.open_slots f.under_active (rw f.held at slot_left);
        })

  extra-eq :
      (c c' : Counters) (b : Bool)
      → try_extra_llm_call g c ≡ (b, c')
      → ((b ≡ true)
          × (le_ℤ g.max_calls (pos c.calls) ≡ false)
          × (record c { calls = c.calls + 1 } ≡ c'))
        ⊎ ((b ≡ false) × (c ≡ c'))
  unfolding try_extra_llm_call
  extra-eq c c' b e = elim (Bool-cases (le_ℤ g.max_calls (pos c.calls))) [
    | inl y ↦
        let h : ◌≡◌ {A = Bool × Counters} (false, c) (b, c') = rw (public, y) at e in
        inr (sym (ap (λ p. p.0) h), ap (λ p. p.1) h)
    | inr n ↦
        let h : ◌≡◌ {A = Bool × Counters} (true, record c { calls = c.calls + 1 }) (b, c') =
          rw (public, n) at e in
        inl (sym (ap (λ p. p.0) h), n, ap (λ p. p.1) h)
  ]

  extra-IsFenced :
      (w : World) (c : Counters)
      → IsFenced g w
      → try_extra_llm_call g w.counters ≡ (true, c)
      → IsFenced g (record w { counters = c; granted = w.granted + 1 })
  extra-IsFenced w c f e = elim (extra-eq w.counters c true e) [
    | inl (_, calls_left, same) ↦
        subst (λ c. IsFenced g (record w { counters = c; granted = w.granted + 1 })) same
          (record {
            counted = ap (λ n. n + 1) f.counted;
            held = f.held;
            under_calls =
                Within-suc g.max_calls w.granted f.under_calls (rw f.counted at calls_left);
            under_active = f.under_active;
          })
    | inr (p, _) ↦ cc
  ]

  no_extra-IsFenced :
      (w : World) (c : Counters)
      → IsFenced g w
      → try_extra_llm_call g w.counters ≡ (false, c)
      → IsFenced g (record w { counters = c })
  no_extra-IsFenced w c f e = elim (extra-eq w.counters c false e) [
    | inl (p, _, _) ↦ cc
    | inr (_, same) ↦ subst (λ c. IsFenced g (record w { counters = c })) same f
  ]

  leave-IsFenced :
      (w : World)
      → IsFenced g w
      → 0 < w.open_slots
      → IsFenced g (record w { counters = leave_slot g w.counters; open_slots = w.open_slots - 1 })
  unfolding leave_slot
  leave-IsFenced w f h = rw public (record {
    counted = f.counted;
    held = ap (λ n. n - 1) f.held;
    under_calls = f.under_calls;
    under_active = Within-pred g.max_concurrency w.open_slots f.under_active;
  })

  Step-IsFenced : (w w' : World) → IsFenced g w → Step g w w' → IsFenced g w'
  Step-IsFenced w w' f (enter c e same) = subst (IsFenced g) (sym same) (enter-IsFenced w c f e)
  Step-IsFenced w w' f (turned_away r e same) = subst (IsFenced g) (sym same) f
  Step-IsFenced w w' f (extra c e same) = subst (IsFenced g) (sym same) (extra-IsFenced w c f e)
  Step-IsFenced w w' f (no_extra c e same) =
      subst (IsFenced g) (sym same) (no_extra-IsFenced w c f e)
  Step-IsFenced w w' f (leave h same) = subst (IsFenced g) (sym same) (leave-IsFenced w f h)

  start-IsFenced : IsFenced g start
  start-IsFenced = record {
    counted = refl;
    held = refl;
    under_calls = zero-Within g.max_calls;
    under_active = zero-Within g.max_concurrency;
  }

-- In public mode, after any sequence of requests that enter a slot, are turned away, ask for an extra
-- generation or leave a slot that is open, in any interleaving: the counters are the generations let
-- through and the slots that are open, the first are within `max_calls`, the second within
-- `max_concurrency`, and a limit below 0 lets nothing through.
pub Reach-IsFenced :
    (g : DemoGuard) (public : g.public ≡ true) (w : World) → Reach g start w → IsFenced g w
Reach-IsFenced g public w here = start-IsFenced g public
Reach-IsFenced g public w (next {w = v} r s) =
    Step-IsFenced g public v w (Reach-IsFenced g public v r) s

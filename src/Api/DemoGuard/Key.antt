-- ===== src/Api/DemoGuard/Key.antt =====
-- The access key of src/learnarken/api/demo_guard.py fails closed.
use learn_arken.Prelude.{
  subst, ◌∙◌, eq_refl, ◌<◌, String, ◌≡◌, ◌≢◌, ◌↔◌, ◌⊎◌, inl, inr, refl, sym, true, some, eq_iff,
  arith,
}
use learn_arken.Prelude.Dict
use learn_arken.Api.DemoGuard.{
  DemoGuard, Environ, init, env_text, gate_key_of, key_ok, placeholder_key, min_key_len,
}
use Prim.Native.String.{count}

-- A key that the operator has set: not the placeholder of the provisioning, and long enough.
abbrev pub IsConfigured : String → Type 0
IsConfigured key = (key ≢ placeholder_key) × ¬ (count key < min_key_len)

IsConfigured-nonempty : (key : String) → IsConfigured key → key ≢ ""
IsConfigured-nonempty key c e = c.1 (subst (λ k. count k < min_key_len) (sym e) (omega arith))

gate_key_of-cases :
    (key : String)
    → (IsConfigured key × (gate_key_of key ≡ key)) ⊎ ((¬ IsConfigured key) × (gate_key_of key ≡ ""))
unfolding gate_key_of
gate_key_of-cases key = ground (arith, eq_iff key placeholder_key)

key_ok-public :
    (g : DemoGuard) (provided : String)
    → g.public ≡ true
    → (key_ok g (some provided) ≡ true) ↔ ((g.gate_key ≢ "") × (provided ≡ g.gate_key))
unfolding key_ok
key_ok-public g provided p =
    rw p (ground (arith, eq_iff g.gate_key "", eq_iff provided "", eq_iff provided g.gate_key))

init-public : (env : Environ) → Dict.get "DEMO_PUBLIC" env ≡ some "1" → (init env).public ≡ true
unfolding init
init-public env p = rw (p, env_text) (eq_refl "1")

init-gate_key :
    (env : Environ) (key : String)
    → Dict.get "DEMO_GATE_KEY" env ≡ some key
    → (init env).gate_key ≡ gate_key_of key
unfolding init
init-gate_key env key k = rw (k, env_text) refl

-- In public mode with `DEMO_GATE_KEY` set to `key`, a request's key is accepted exactly if the
-- configured key is neither the placeholder nor shorter than 16 characters, and the request gives it.
pub key_ok-init :
    (env : Environ) (key provided : String)
    → Dict.get "DEMO_PUBLIC" env ≡ some "1"
    → Dict.get "DEMO_GATE_KEY" env ≡ some key
    → (key_ok (init env) (some provided) ≡ true) ↔ (IsConfigured key × (provided ≡ key))
key_ok-init env key provided p k =
    let public = key_ok-public (init env) provided (init-public env p) in
    let same : (init env).gate_key ≡ gate_key_of key = init-gate_key env key k in
    elim (gate_key_of-cases key) [
      | inl (c, e) ↦ (
        (λ h. (c, (public.0 h).1 ∙ same ∙ e)),
        (λ h.
            public.1
              ((λ z. IsConfigured-nonempty key c (sym (same ∙ e) ∙ z)), h.1 ∙ sym (same ∙ e))),
      )
      | inr (n, e) ↦ ((λ h. absurd ((public.0 h).0 (same ∙ e))), (λ h. absurd (n h.0)))
    ]

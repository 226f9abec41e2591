-- ===== src/Repair/Apply/Names.antt =====
-- The names that src/learnarken/repair/apply.py derives from a file's name, and the journal's.
use text.Mathlib.TextLemmas.{length-append, append_cancel_right, append_inj}
use Prim.Native.String.{count}
use learn_arken.Prelude.{String, ◌⧺◌, ◌≡◌, ◌≢◌, ap, eq_iff, arith}
use learn_arken.Repair.Apply.{bak, new, journal_name}

pub bak-injective : (a b : String) → bak a ≡ bak b → a ≡ b
unfolding bak
bak-injective a b h = append_cancel_right a b ".bak" h

suffixes-differ : ◌≡◌ {A = String} ".bak" ".new" → ⊥
suffixes-differ e = ground (arith, eq_iff ".bak" ".new")

pub bak-ne-new : (a b : String) → bak a ≢ new b
unfolding bak new
bak-ne-new a b h =
    suffixes-differ
      (append_inj h (omega (arith, ap count h, length-append a ".bak", length-append b ".new"))).1

pub ne-bak : (a : String) → a ≢ bak a
unfolding bak
ne-bak a h = omega (arith, ap count h, length-append a ".bak")

pub ne-new : (a : String) → a ≢ new a
unfolding new
ne-new a h = omega (arith, ap count h, length-append a ".new")

pub new-injective : (a b : String) → new a ≡ new b → a ≡ b
unfolding new
new-injective a b h = append_cancel_right a b ".new" h

endings-differ : ◌≡◌ {A = String} "rnal" ".bak" → ⊥
endings-differ e = ground (arith, eq_iff "rnal" ".bak")

new_ending-differs : ◌≡◌ {A = String} "rnal" ".new" → ⊥
new_ending-differs e = ground (arith, eq_iff "rnal" ".new")

pub journal-ne-bak : (n : String) → journal_name ≢ bak n
unfolding bak
journal-ne-bak n e =
    let h : ".repair-apply.jou" ⧺ "rnal" ≡ n ⧺ ".bak" = e in
    endings-differ
      (append_inj {s₁ = ".repair-apply.jou"} h (
        omega
          (arith, ap count h, length-append ".repair-apply.jou" "rnal", length-append n ".bak"))).1

pub journal-ne-new : (n : String) → journal_name ≢ new n
unfolding new
journal-ne-new n e =
    let h : ".repair-apply.jou" ⧺ "rnal" ≡ n ⧺ ".new" = e in
    new_ending-differs
      (append_inj {s₁ = ".repair-apply.jou"} h (
        omega
          (arith, ap count h, length-append ".repair-apply.jou" "rnal", length-append n ".new"))).1

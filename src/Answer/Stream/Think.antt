-- ===== src/Answer/Stream/Think.antt =====
-- The search for the end of the think block in a text that grows.
use learn_arken.Prelude.{
  ℕ, suc, ◌+◌, ◌-◌, ◌≤◌, ◌≡◌, inl, inr, refl, sym, ap, ◌∙◌, none, some, List, [], ◌∷◌, ◌++◌, length,
  Option-cases, Bool-cases, ltb, ltb→lt, some_injective, arith, length-append,
}
use learn_arken.Answer.Stream.{strip_prefix, find_after, last}
use learn_arken.Answer.Stream.Prefixes.{strip_prefix-append, strip_prefix-long, strip_prefix-length}

find_after-length :
    (p s : List ℕ) {rest : List ℕ} → find_after p s ≡ some rest → length p + length rest ≤ length s
unfolding find_after
find_after-length p [] h = omega (arith, strip_prefix-length p [] h)
find_after-length p (c ∷ s) h = elim (Option-cases (strip_prefix p (c ∷ s))) [
  | inl n ↦ omega (arith, find_after-length p s (rw (n, find_after) at h))
  | inr (r, e) ↦
      let same = some_injective (rw (e, find_after) at h) in
      omega (arith, strip_prefix-length p (c ∷ s) e, ap length same)
]

-- What has been found stays the first one.
pub find_after-append :
    (p s : List ℕ) {rest : List ℕ} (more : List ℕ)
    → 1 ≤ length p
    → find_after p s ≡ some rest
    → find_after p (s ++ more) ≡ some (rest ++ more)
unfolding find_after
find_after-append p [] more l h = absurd (omega (arith, strip_prefix-length p [] h))
find_after-append p (c ∷ s) more l h = elim (Option-cases (strip_prefix p (c ∷ s))) [
  | inl n ↦
      let later = rw (n, find_after) at h in
      let long = strip_prefix-long p (c ∷ s) more (omega (arith, find_after-length p s later)) n in
      rw (long, find_after) (find_after-append p s more l later)
  | inr (r, e) ↦
      let same = some_injective (rw (e, find_after) at h) in
      rw (strip_prefix-append p (c ∷ s) more e, find_after)
        (ap (λ (z : List ℕ). some (z ++ more)) same)
]

last-short : (n : ℕ) (s : List ℕ) → length s ≤ n → last n s ≡ s
last-short n s h = let e : length s - n ≡ 0 = omega arith in rw e refl

last-cons : (n c : ℕ) (s : List ℕ) → n ≤ length s → last n (c ∷ s) ≡ last n s
last-cons n c s h = let e : suc (length s) - n ≡ suc (length s - n) = omega arith in rw e refl

-- Only the last characters can take part in a place that is not found yet.
pub find_after-last :
    (n : ℕ) (p s more : List ℕ)
    → length p ≡ suc n
    → find_after p s ≡ none
    → find_after p (s ++ more) ≡ find_after p (last n s ++ more)
unfolding find_after
find_after-last n p [] more l h = rw (last-short n [] (omega arith)) refl
find_after-last n p (c ∷ s) more l h = elim (Bool-cases (ltb (length s) n)) [
  | inl y ↦ rw (last-short n (c ∷ s) (omega (arith, ltb→lt (length s) n y))) refl
  | inr f ↦
      let fits : n ≤ length s = ground arith in
      elim (Option-cases (strip_prefix p (c ∷ s))) [
        | inr (r, e) ↦ absurd (cc (rw (e, find_after) at h))
        | inl none_here ↦
            let long = strip_prefix-long p (c ∷ s) more (omega arith) none_here in
            let later = find_after-last n p s more l (rw (none_here, find_after) at h) in
            rw (long, find_after) (rw (last-cons n c s fits) later)
      ]
]

pub last-append : (n : ℕ) (s more : List ℕ) → last n (last n s ++ more) ≡ last n (s ++ more)
last-append n [] more = rw (last-short n [] (omega arith)) refl
last-append n (c ∷ s) more = elim (Bool-cases (ltb (length s) n)) [
  | inl y ↦ rw (last-short n (c ∷ s) (omega (arith, ltb→lt (length s) n y))) refl
  | inr f ↦
      let fits : n ≤ length s = ground arith in
      let more_fits : n ≤ length (s ++ more) = omega (arith, length-append s more) in
      rw (last-cons n c s fits) (last-append n s more ∙ sym (last-cons n c (s ++ more) more_fits))
]

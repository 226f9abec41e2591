-- ===== src/Answer/Stream/Prefixes.antt =====
-- Texts that begin with a tag, and what more text does to that.
use learn_arken.Prelude.{
  ℕ, ◌+◌, ◌≤◌, ◌≡◌, ◌⊎◌, inl, inr, refl, ap, none, some, List, [], ◌∷◌, ◌++◌, length, ◌==◌,
  is_space, Bool-cases, some_injective, arith,
}
use learn_arken.Answer.Stream.{
  lstrip, strip_prefix, Opening, no_think, undecided, opened, compare_tag,
}

-- A prefix that has been found stays found.
pub strip_prefix-append :
    (p s : List ℕ) {rest : List ℕ} (more : List ℕ)
    → strip_prefix p s ≡ some rest
    → strip_prefix p (s ++ more) ≡ some (rest ++ more)
unfolding strip_prefix
strip_prefix-append [] s more h = ap (λ (z : List ℕ). some (z ++ more)) (some_injective h)
strip_prefix-append (c ∷ p) [] more h = cc
strip_prefix-append (c ∷ p) (d ∷ s) more h = elim (Bool-cases (c == d)) [
  | inl y ↦ rw y (strip_prefix-append p s more (rw y at h))
  | inr n ↦ absurd (cc (rw n at h))
]

-- A prefix that fits into the text is found or not, whatever follows.
pub strip_prefix-long :
    (p s more : List ℕ)
    → length p ≤ length s
    → strip_prefix p s ≡ none
    → strip_prefix p (s ++ more) ≡ none
unfolding strip_prefix
strip_prefix-long [] s more l h = cc
strip_prefix-long (c ∷ p) [] more l h = absurd (omega arith)
strip_prefix-long (c ∷ p) (d ∷ s) more l h = elim (Bool-cases (c == d)) [
  | inl y ↦ rw y (strip_prefix-long p s more (omega arith) (rw y at h))
  | inr n ↦ rw n refl
]

pub strip_prefix-length :
    (p s : List ℕ) {rest : List ℕ}
    → strip_prefix p s ≡ some rest
    → length s ≡ length p + length rest
unfolding strip_prefix
strip_prefix-length [] s h = ground (arith, ap length (some_injective h))
strip_prefix-length (c ∷ p) [] h = cc
strip_prefix-length (c ∷ p) (d ∷ s) h = elim (Bool-cases (c == d)) [
  | inl y ↦ omega (arith, strip_prefix-length p s (rw y at h))
  | inr n ↦ absurd (cc (rw n at h))
]

-- A text of space only, or with more than space.
pub lstrip-append :
    (s more : List ℕ)
    → ((lstrip s ≡ []) × (lstrip (s ++ more) ≡ lstrip more))
      ⊎ ((c : ℕ) × (rest : List ℕ) × (lstrip s ≡ c ∷ rest)
          × (lstrip (s ++ more) ≡ (c ∷ rest) ++ more))
unfolding lstrip
lstrip-append [] more = inl (refl, refl)
lstrip-append (c ∷ s) more = elim (Bool-cases (is_space c)) [
  | inl y ↦ rw y (lstrip-append s more)
  | inr n ↦ rw n (inr (c, s, refl, refl))
]

-- How the comparison with a tag goes on.
abbrev pub Extends : Opening → List ℕ → Opening → Type 0
Extends no_think more later = later ≡ no_think
Extends undecided more later = Unit
Extends (opened rest) more later = later ≡ opened (rest ++ more)

pub compare_tag-append :
    (tag head more : List ℕ) → Extends (compare_tag tag head) more (compare_tag tag (head ++ more))
unfolding compare_tag
compare_tag-append [] head more = refl
compare_tag-append (c ∷ tag) [] more = tt
compare_tag-append (c ∷ tag) (d ∷ head) more = elim (Bool-cases (c == d)) [
  | inl y ↦ rw y (compare_tag-append tag head more)
  | inr n ↦ rw n refl
]

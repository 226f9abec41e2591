-- ===== src/Answer/Stream/Key.antt =====
-- The search for the key in a text that grows: a match that is found stays the first one.
use learn_arken.Prelude.{
  ℕ, ◌+◌, ◌≤◌, ◌≡◌, ◌⊎◌, inl, inr, refl, sym, ap, ◌∙◌, subst, true, false, Option, none, some, List,
  [], ◌∷◌, ◌++◌, length, drop, ◌==◌, ==_iff, Option-cases, Bool-cases, some_injective, arith,
  is_space, All,
}
use learn_arken.Prelude.Int.{codes}
use learn_arken.Answer.Stream.{
  quote, answer_key, lstrip, strip_prefix, after_char, ◌>=>◌, match_key, find_key,
}
use learn_arken.Answer.Stream.Prefixes.{
  strip_prefix-append, strip_prefix-long, strip_prefix-length, lstrip-append,
}

lstrip-length : (s : List ℕ) → length (lstrip s) ≤ length s
unfolding lstrip
lstrip-length [] = omega arith
lstrip-length (c ∷ s) = elim (Bool-cases (is_space c)) [
  | inl y ↦ rw y (omega (arith, lstrip-length s))
  | inr n ↦ rw n (omega arith)
]

after_char-length :
    (k : ℕ) (s : List ℕ) {rest : List ℕ} → after_char k s ≡ some rest → length rest + 1 ≤ length s
after_char-length k s h = omega (arith, strip_prefix-length (k ∷ []) (lstrip s) h, lstrip-length s)

after_char-append :
    (k : ℕ) (s : List ℕ) {rest : List ℕ} (more : List ℕ)
    → after_char k s ≡ some rest
    → after_char k (s ++ more) ≡ some (rest ++ more)
after_char-append k s more h = elim (lstrip-append s more) [
  | inl (e, _) ↦ absurd (omega (arith, strip_prefix-length (k ∷ []) (lstrip s) h, ap length e))
  | inr (c, rest, e, f) ↦ rw f (strip_prefix-append (k ∷ []) (c ∷ rest) more (rw e at h))
]

-- A character that only more text shows: all before it is space.
late_char :
    (k : ℕ) (s more : List ℕ) {rest : List ℕ}
    → after_char k s ≡ none
    → after_char k (s ++ more) ≡ some rest
    → lstrip s ≡ []
late_char k s more h g = elim (lstrip-append s more) [
  | inl (e, _) ↦ e
  | inr (c, rest, e, f) ↦
      let stays = strip_prefix-long (k ∷ []) (c ∷ rest) more (omega arith) (rw e at h) in
      absurd (cc (sym stays ∙ ap (strip_prefix (k ∷ [])) (sym f) ∙ g))
]

>=>-eq-some :
    (o : Option (List ℕ)) (f : List ℕ → Option (List ℕ)) {r : List ℕ}
    → (o >=> f) ≡ some r
    → (s : List ℕ) × (o ≡ some s) × (f s ≡ some r)
>=>-eq-some none f h = cc
>=>-eq-some (some s) f h = (s, refl, h)

-- The parts of a match.
match_key-eq-some :
    (s : List ℕ) {r : List ℕ}
    → match_key s ≡ some r
    → (w : List ℕ) × (v : List ℕ) × (strip_prefix answer_key s ≡ some w)
      × (after_char b':' w ≡ some v)
      × (after_char quote v ≡ some r)
unfolding match_key
match_key-eq-some s h =
    let (v, both, last) =
      >=>-eq-some (strip_prefix answer_key s >=> after_char b':') (after_char quote) h in
    let (w, first, second) = >=>-eq-some (strip_prefix answer_key s) (after_char b':') both in
    (w, v, first, second, last)

match_key-append :
    (s : List ℕ) {r : List ℕ} (more : List ℕ)
    → match_key s ≡ some r
    → match_key (s ++ more) ≡ some (r ++ more)
unfolding match_key
match_key-append s more h =
    let (w, v, first, second, last) = match_key-eq-some s h in
    rw (strip_prefix-append answer_key s more first)
      (rw (after_char-append b':' w more second) (after_char-append quote v more last))

match_key-length : (s : List ℕ) {r : List ℕ} → match_key s ≡ some r → length r + 10 ≤ length s
match_key-length s h =
    let (w, v, first, second, last) = match_key-eq-some s h in
    omega (
      arith,
      strip_prefix-length answer_key s first,
      after_char-length b':' w second,
      after_char-length quote v last,
    )

find_key-length : (s : List ℕ) {r : List ℕ} → find_key s ≡ some r → length r + 10 ≤ length s
unfolding find_key
find_key-length [] h = cc
find_key-length (c ∷ s) h = elim (Option-cases (match_key (c ∷ s))) [
  | inl n ↦ omega (arith, find_key-length s (rw (n, find_key) at h))
  | inr (r, e) ↦
      omega (arith, match_key-length (c ∷ s) e, ap length (some_injective (rw (e, find_key) at h)))
]

-- Space or a colon: no place for the key to begin.
abbrev IsFiller : ℕ → Type 0
IsFiller c = (is_space c ≡ true) ⊎ (c ≡ b':')

filler-ne-quote : (c : ℕ) → IsFiller c → (quote == c) ≡ false
unfolding is_space
filler-ne-quote c (inl h) = ground arith
filler-ne-quote c (inr h) = ground arith

filler-ne-letter : (c : ℕ) → IsFiller c → (b'a' == c) ≡ false
unfolding is_space
filler-ne-letter c (inl h) = ground arith
filler-ne-letter c (inr h) = ground arith

space-AreFiller : (s : List ℕ) → lstrip s ≡ [] → All IsFiller s
unfolding lstrip
space-AreFiller [] h = tt
space-AreFiller (c ∷ s) h = elim (Bool-cases (is_space c)) [
  | inl y ↦ (inl y, space-AreFiller s (rw y at h))
  | inr n ↦ absurd (cc (rw n at h))
]

colon-AreFiller :
    (w : List ℕ) {v : List ℕ} → after_char b':' w ≡ some v → All IsFiller v → All IsFiller w
unfolding lstrip strip_prefix
colon-AreFiller [] h f = cc
colon-AreFiller (c ∷ w) {v} h f = elim (Bool-cases (is_space c)) [
  | inl y ↦ (inl y, colon-AreFiller w (rw y at h) f)
  | inr n ↦ elim (Bool-cases (b':' == c)) [
    | inl e ↦
        let same : w ≡ v = some_injective (rw (n, e) at h) in
        (inr (sym ((==_iff b':' c).0 e)), subst (λ z. All IsFiller z) (sym same) f)
    | inr e ↦ absurd (cc (rw (n, e) at h))
  ]
]

-- A match of the rest of the key that only more text completes.
late_rest :
    (w more : List ℕ) {r : List ℕ}
    → (after_char b':' w >=> after_char quote) ≡ none
    → (after_char b':' (w ++ more) >=> after_char quote) ≡ some r
    → All IsFiller w
late_rest w more h g = elim (Option-cases (after_char b':' w)) [
  | inl n ↦
      let (v, second, _) = >=>-eq-some (after_char b':' (w ++ more)) (after_char quote) g in
      space-AreFiller w (late_char b':' w more n second)
  | inr (v, e) ↦
      let wider = after_char-append b':' w more e in
      colon-AreFiller w e (space-AreFiller v (late_char quote v more (rw e at h) (rw wider at g)))
]

filler-no-key : (w : List ℕ) → All IsFiller w → find_key w ≡ none
unfolding find_key match_key strip_prefix
filler-no-key [] h = refl
filler-no-key (c ∷ w) h = rw (filler-ne-quote c h.0, find_key) (filler-no-key w h.1)

-- After a key without its colon and quote, no other begins before the text goes on.
answer_key-no-key : (w : List ℕ) → All IsFiller w → find_key (codes "answer\"" ++ w) ≡ none
unfolding find_key match_key strip_prefix
answer_key-no-key [] h = refl
answer_key-no-key (c ∷ w) h = rw (filler-ne-letter c h.0, find_key) (filler-no-key (c ∷ w) h)

strip_prefix-eq : (p s : List ℕ) {w : List ℕ} → strip_prefix p s ≡ some w → s ≡ p ++ w
unfolding strip_prefix
strip_prefix-eq [] s h = some_injective h
strip_prefix-eq (c ∷ p) [] h = cc
strip_prefix-eq (c ∷ p) (d ∷ s) {w} h = elim (Bool-cases (c == d)) [
  | inl y ↦
      let same = sym ((==_iff c d).0 y) in
      rw same (ap (λ (z : List ℕ). c ∷ z) (strip_prefix-eq p s (rw y at h)))
  | inr n ↦ absurd (cc (rw n at h))
]

-- A place that matches only with more text leaves no match behind it.
late_match :
    (c : ℕ) (s more : List ℕ) {r : List ℕ}
    → match_key (c ∷ s) ≡ none
    → match_key ((c ∷ s) ++ more) ≡ some r
    → find_key s ≡ none
unfolding match_key
late_match c s more h g = elim (Option-cases (find_key s)) [
  | inl n ↦ n
  | inr (found, e) ↦ elim (Option-cases (strip_prefix answer_key (c ∷ s))) [
    | inl none_here ↦
        let long = find_key-length s e in
        let stays = strip_prefix-long answer_key (c ∷ s) more (omega arith) none_here in
        let (w, v, first, _, _) = match_key-eq-some ((c ∷ s) ++ more) g in
        absurd (cc (sym stays ∙ first))
    | inr (w, begins) ↦
        let whole = strip_prefix-eq answer_key (c ∷ s) begins in
        let tail : s ≡ codes "answer\"" ++ w = ap (λ (z : List ℕ). drop 1 z) whole in
        let cut : (after_char b':' w >=> after_char quote) ≡ none = rw begins at h in
        let full : (after_char b':' (w ++ more) >=> after_char quote) ≡ some _ =
          rw (strip_prefix-append answer_key (c ∷ s) more begins) at g in
        ap find_key tail ∙ answer_key-no-key w (late_rest w more cut full)
  ]
]

-- A match that has been found stays the first one.
pub find_key-append :
    (s : List ℕ) {r : List ℕ} (more : List ℕ)
    → find_key s ≡ some r
    → find_key (s ++ more) ≡ some (r ++ more)
unfolding find_key
find_key-append [] more h = cc
find_key-append (c ∷ s) more h = elim (Option-cases (match_key (c ∷ s))) [
  | inr (r, e) ↦
      let same = some_injective (rw (e, find_key) at h) in
      rw (match_key-append (c ∷ s) more e, find_key) (ap (λ (z : List ℕ). some (z ++ more)) same)
  | inl n ↦
      let later = rw (n, find_key) at h in
      elim (Option-cases (match_key ((c ∷ s) ++ more))) [
        | inl still ↦ rw (still, find_key) (find_key-append s more later)
        | inr (q, e) ↦ absurd (cc (sym (late_match c s more n e) ∙ later))
      ]
]

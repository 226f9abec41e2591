-- ===== src/Answer/Stream/Loop.antt =====
-- The loop over the string: enough fuel is enough, and it may stop between any two pieces.
use learn_arken.Prelude.{
  ℕ, zero, suc, ◌≤◌, ◌<◌, ◌≡◌, refl, sym, ap, ◌∙◌, inl, inr, Option, List, [], ◌∷◌, ◌++◌, length,
  ◌==◌, Bool-cases, arith, length-append, ok, raise, ◌>>=◌,
}
use learn_arken.Prelude.Int.{ℤ}
use learn_arken.Answer.Stream.{
  quote, backslash, Escape, incomplete, crash, decoded, after_escape, decode_escape, Fed, in_string,
  done, emit, consume, consume_string, feed, run,
}
use learn_arken.Answer.Stream.Escapes.{Grows, Shrinks, decode_escape-append, decode_escape-Shrinks}

after_escape-cong :
    (c : ℕ) (s : List ℕ) (e : Escape) (n : ℕ) (k l : List ℕ → Fed)
    → Shrinks e n
    → ((rest : List ℕ) → length rest ≤ n → k rest ≡ l rest)
    → after_escape c s e k ≡ after_escape c s e l
after_escape-cong c s incomplete n k l h same = refl
after_escape-cong c s crash n k l h same = refl
after_escape-cong c s (decoded d rest) n k l h same = ap (emit d) (same rest h)

module _ (hex : List ℕ → Option ℤ) where
  -- One more piece after what has been fed.
  abbrev pub resume : Fed → List ℕ → Fed
  resume r more = r >>= λ fed. feed hex fed.0 more >>= λ next. ok (next.0, fed.1 ++ next.1)

  pub consume-fuel :
      (f g : ℕ) (s : List ℕ) → length s < f → length s < g → consume hex f s ≡ consume hex g s
  unfolding consume
  consume-fuel zero g s l m = absurd (omega arith)
  consume-fuel (suc f) zero s l m = absurd (omega arith)
  consume-fuel (suc f) (suc g) [] l m = refl
  consume-fuel (suc f) (suc g) (c ∷ s) l m = elim (Bool-cases (c == quote)) [
    | inl q ↦ rw q refl
    | inr q ↦ elim (Bool-cases (c == backslash)) [
      | inr b ↦ rw (q, b) (ap (emit c) (consume-fuel f g s (omega arith) (omega arith)))
      | inl b ↦
          rw (q, b)
            (after_escape-cong c s (decode_escape hex s) (length s) (consume hex f) (consume hex g)
              (decode_escape-Shrinks hex s)
              (λ rest short. consume-fuel f g rest (omega arith) (omega arith)))
    ]
  ]

  -- The bind that puts nothing before.
  pub bind_same : (r : Fed) → (r >>= λ next. ok (next.0, [] ++ next.1)) ≡ r
  bind_same (ok next) = refl
  bind_same (raise e) = refl

  emit-resume : (c : ℕ) (r : Fed) (more : List ℕ) → emit c (resume r more) ≡ resume (emit c r) more
  emit-resume c (raise e) more = refl
  emit-resume c (ok (e, out)) more = emit_bind (feed hex e more)
    where
      emit_bind :
          (r : Fed)
          → emit c (r >>= λ next. ok (next.0, out ++ next.1))
            ≡ (r >>= λ next. ok (next.0, (c ∷ out) ++ next.1))
      emit_bind (ok next) = refl
      emit_bind (raise e) = refl

  module _ (d : ℕ) (more : List ℕ) where
    -- A loop that stops at `s` goes on from there.
    stopped :
        (f : ℕ) (s : List ℕ)
        → length (s ++ d ∷ more) < f
        → consume hex f (s ++ d ∷ more)
          ≡ resume (ok (record { stage = in_string; buf = s }, [])) (d ∷ more)
    unfolding feed run
    stopped f s l =
        consume-fuel f (suc (length (s ++ d ∷ more))) (s ++ d ∷ more) l (omega arith)
        ∙ sym (bind_same (consume_string hex (s ++ d ∷ more)))

    after_escape-append :
        (f c : ℕ) (s : List ℕ) (e later : Escape)
        → Grows e (d ∷ more) later
        → Shrinks e (length s)
        → ((rest : List ℕ)
            → length rest ≤ length s
            → consume hex f (rest ++ d ∷ more) ≡ resume (consume hex f rest) (d ∷ more))
        → after_escape c (s ++ d ∷ more) later (consume hex f)
          ≡ resume (ok (record { stage = in_string; buf = c ∷ s }, [])) (d ∷ more)
        → after_escape c (s ++ d ∷ more) later (consume hex f)
          ≡ resume (after_escape c s e (consume hex f)) (d ∷ more)
    after_escape-append f c s incomplete later g k ih stop = stop
    after_escape-append f c s crash later g k ih stop = rw g refl
    after_escape-append f c s (decoded x rest) later g k ih stop =
        rw g (ap (emit x) (ih rest k) ∙ emit-resume x (consume hex f rest) (d ∷ more))

    finished :
        ok (record { stage = done; buf = [] }, [])
        ≡ resume (ok (record { stage = done; buf = [] }, [])) (d ∷ more)
    unfolding feed
    finished = refl

    pub consume-append :
        (f : ℕ) (s : List ℕ)
        → length (s ++ d ∷ more) < f
        → consume hex f (s ++ d ∷ more) ≡ resume (consume hex f s) (d ∷ more)
    unfolding consume
    consume-append zero s l = absurd (omega arith)
    consume-append (suc f) [] l = stopped (suc f) [] l
    consume-append (suc f) (c ∷ s) l = elim (Bool-cases (c == quote)) [
      | inl q ↦ rw q finished
      | inr q ↦ elim (Bool-cases (c == backslash)) [
        | inr b ↦
            rw (q, b)
              (ap (emit c) (consume-append f s (omega arith))
                ∙ emit-resume c (consume hex f s) (d ∷ more))
        | inl b ↦
            let stop : after_escape c (s ++ d ∷ more) (decode_escape hex (s ++ d ∷ more))
                  (consume hex f)
                ≡ resume (ok (record { stage = in_string; buf = c ∷ s }, [])) (d ∷ more) =
              rw (q, b) at (stopped (suc f) (c ∷ s) l) in
            rw (q, b)
              (after_escape-append f c s (decode_escape hex s) (decode_escape hex (s ++ d ∷ more))
                (decode_escape-append hex s (d ∷ more)) (decode_escape-Shrinks hex s)
                (λ rest short.
                  consume-append f rest
                    (omega (arith, length-append rest (d ∷ more), length-append s (d ∷ more))))
                stop)
      ]
    ]

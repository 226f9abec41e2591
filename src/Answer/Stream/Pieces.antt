-- ===== src/Answer/Stream/Pieces.antt =====
-- What the extractor hands out does not depend on how the reply is cut into pieces.
use mathlib.Core.List.{append_assoc, append-nil}
use mathlib.Core.Path.{fun_ext}
use learn_arken.Prelude.{
  ℕ, suc, ◌≡◌, inl, inr, refl, sym, ap, ◌∙◌, Option, none, List, [], ◌∷◌, ◌++◌, length,
  Option-cases, arith, length-append, ok, raise, ◌>>=◌,
}
use learn_arken.Prelude.Int.{ℤ}
use learn_arken.Answer.Stream.{
  Stage, prelude, think, seek, in_string, done, Extractor, Fed, Opening, no_think, undecided,
  opened, compare_tag, think_open, think_close, lstrip, last, find_after, find_key, consume_string,
  from_seek, from_think, from_prelude, run, feed_at, feed, feed_all,
}
use learn_arken.Answer.Stream.Prefixes.{lstrip-append, Extends, compare_tag-append}
use learn_arken.Answer.Stream.Think.{find_after-append, find_after-last, last-append}
use learn_arken.Answer.Stream.Key.{find_key-append}
use learn_arken.Answer.Stream.Loop.{resume, consume-fuel, consume-append, bind_same}

abbrev pub concat : List (List ℕ) → List ℕ
concat [] = []
concat (piece ∷ pieces) = piece ++ concat pieces

module _ (hex : List ℕ → Option ℤ) where
  module _ (d : ℕ) (more : List ℕ) where
    consume_string-append :
        (s : List ℕ)
        → consume_string hex (s ++ d ∷ more) ≡ resume hex (consume_string hex s) (d ∷ more)
    consume_string-append s =
        let fuel = suc (length (s ++ d ∷ more)) in
        consume-append hex d more fuel s (omega arith)
        ∙ ap (λ (z : Fed). resume hex z (d ∷ more))
            (consume-fuel hex fuel (suc (length s)) s (omega (arith, length-append s (d ∷ more)))
              (omega arith))

    from_seek-append :
        (s : List ℕ) → from_seek hex (s ++ d ∷ more) ≡ resume hex (from_seek hex s) (d ∷ more)
    unfolding from_seek feed run
    from_seek-append s = elim (Option-cases (find_key s)) [
      | inr (rest, e) ↦
          rw (e, from_seek)
            (rw (find_key-append s (d ∷ more) e, from_seek) (consume_string-append rest))
      | inl n ↦ rw (n, from_seek) (sym (bind_same hex (from_seek hex (s ++ d ∷ more))))
    ]

    -- What was cut off the buffer inside the think block makes no difference.
    from_think-last :
        (s : List ℕ)
        → find_after think_close s ≡ none
        → from_think hex (s ++ d ∷ more) ≡ from_think hex (last 7 s ++ d ∷ more)
    unfolding from_think
    from_think-last s n =
        let same = find_after-last 7 think_close s (d ∷ more) (omega arith) n in
        elim (Option-cases (find_after think_close (last 7 s ++ d ∷ more))) [
          | inr (rest, e) ↦ rw (same ∙ e, from_think) (rw (e, from_think) refl)
          | inl e ↦
              rw (same ∙ e, from_think)
                (rw (e, from_think)
                  (ap (λ (z : List ℕ). ok (record { stage = think; buf = z }, []))
                    (sym (last-append 7 s (d ∷ more)))))
        ]

    from_think-append :
        (s : List ℕ) → from_think hex (s ++ d ∷ more) ≡ resume hex (from_think hex s) (d ∷ more)
    unfolding from_think feed run
    from_think-append s = elim (Option-cases (find_after think_close s)) [
      | inr (rest, e) ↦
          rw (e, from_think)
            (rw (find_after-append think_close s (d ∷ more) (omega arith) e, from_think)
              (from_seek-append rest))
      | inl n ↦
          rw (n, from_think)
            (from_think-last s n ∙ sym (bind_same hex (from_think hex (last 7 s ++ d ∷ more))))
    ]

    -- The comparisons with the tag before and after the piece.
    compared :
        (s : List ℕ) (o later : Opening)
        → compare_tag think_open (lstrip s) ≡ o
        → compare_tag think_open (lstrip (s ++ d ∷ more)) ≡ later
        → Extends o (d ∷ more) later
        → from_prelude hex (s ++ d ∷ more) ≡ resume hex (from_prelude hex s) (d ∷ more)
    unfolding from_prelude feed run
    compared s no_think later e f x =
        rw (e, from_prelude) (rw (f ∙ x, from_prelude) (from_seek-append s))
    compared s undecided later e f x =
        rw (e, from_prelude) (sym (bind_same hex (from_prelude hex (s ++ d ∷ more))))
    compared s (opened rest) later e f x =
        rw (e, from_prelude) (rw (f ∙ x, from_prelude) (from_think-append rest))

    from_prelude-append :
        (s : List ℕ) → from_prelude hex (s ++ d ∷ more) ≡ resume hex (from_prelude hex s) (d ∷ more)
    unfolding compare_tag
    from_prelude-append s = elim (lstrip-append s (d ∷ more)) [
      | inl (e, f) ↦ compared s undecided _ (ap (compare_tag think_open) e) refl tt
      | inr (c, rest, e, f) ↦
          compared s (compare_tag think_open (c ∷ rest))
            (compare_tag think_open ((c ∷ rest) ++ d ∷ more)) (ap (compare_tag think_open) e)
            (ap (compare_tag think_open) f) (compare_tag-append think_open (c ∷ rest) (d ∷ more))
    ]

    feed_done : (e : Extractor) → e.stage ≡ done → feed hex e (d ∷ more) ≡ ok (e, [])
    unfolding feed
    feed_done e s = ap (λ (st : Stage). feed_at hex st e (d ∷ more)) s

    feed_at-append :
        (st : Stage) (e : Extractor) (c : ℕ) (delta : List ℕ)
        → e.stage ≡ st
        → feed_at hex st e ((c ∷ delta) ++ d ∷ more)
          ≡ resume hex (feed_at hex st e (c ∷ delta)) (d ∷ more)
    unfolding run
    feed_at-append done e c delta s = rw (feed_done e s) refl
    feed_at-append prelude e c delta s =
        ap (from_prelude hex) (sym (append_assoc e.buf (c ∷ delta) (d ∷ more)))
        ∙ from_prelude-append (e.buf ++ c ∷ delta)
    feed_at-append think e c delta s =
        ap (from_think hex) (sym (append_assoc e.buf (c ∷ delta) (d ∷ more)))
        ∙ from_think-append (e.buf ++ c ∷ delta)
    feed_at-append seek e c delta s =
        ap (from_seek hex) (sym (append_assoc e.buf (c ∷ delta) (d ∷ more)))
        ∙ from_seek-append (e.buf ++ c ∷ delta)
    feed_at-append in_string e c delta s =
        ap (consume_string hex) (sym (append_assoc e.buf (c ∷ delta) (d ∷ more)))
        ∙ consume_string-append (e.buf ++ c ∷ delta)

  resume_nil : (r : Fed) → resume hex r [] ≡ r
  unfolding feed
  resume_nil (ok (e, out)) = ap (λ (z : List ℕ). ok (e, z)) (append-nil out)
  resume_nil (raise x) = refl

  -- Two pieces in turn are one.
  feed-append :
      (e : Extractor) (first second : List ℕ)
      → feed hex e (first ++ second) ≡ resume hex (feed hex e first) second
  unfolding feed
  feed-append e [] second = sym (bind_same hex (feed hex e second))
  feed-append e (c ∷ first) [] =
      ap (feed hex e) (append-nil (c ∷ first)) ∙ sym (resume_nil (feed hex e (c ∷ first)))
  feed-append e (c ∷ first) (d ∷ second) = feed_at-append d second e.stage e c first refl

  nothing_fed : (e : Extractor) → feed hex e [] ≡ ok (e, [])
  unfolding feed
  nothing_fed e = refl

  -- Feeding the pieces of a reply in turn hands out the same text, and leaves the extractor in the same state, or
  -- raises as well, as feeding the whole reply at once: from every state, and for every way to cut it.
  pub feed_all-concat :
      (e : Extractor) (pieces : List (List ℕ)) → feed_all hex e pieces ≡ feed hex e (concat pieces)
  unfolding feed_all
  feed_all-concat e [] = sym (nothing_fed e)
  feed_all-concat e (piece ∷ pieces) =
      ap
        (λ (k : Extractor → Fed).
          feed hex e piece >>= λ fed. k fed.0 >>= λ next. ok (next.0, fed.1 ++ next.1))
        (fun_ext (λ z. feed_all-concat z pieces))
      ∙ sym (feed-append e piece (concat pieces))

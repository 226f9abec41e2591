-- ===== src/Repair/Journal/Words.antt =====
-- The journal of src/learnarken/repair/apply.py gives back names that have no space in them.
use Prim.Native.Char.{Char, code}
use text.Mathlib.TextLemmas.{nil-append, cons-append}
use learn_arken.Prelude.{
  String, ◌⧺◌, ◌≡◌, ◌≢◌, refl, ap, ◌∙◌, Bool, true, false, not, ◌&&◌, List, [], ◌∷◌, All, is_space,
  Bool-cases, inl, inr,
}
use learn_arken.Repair.Journal.{join_lines, words, scan, emit, is_word}

both : (p q : Bool) → (p && q) ≡ true → (p ≡ true) × (q ≡ true)
both true q h = (refl, h)
both false q h = cc

scan-nil : scan "" ≡ ("", [])
unfolding scan
scan-nil = refl

scan-space :
    (c : Char) (s : String) → is_space (code c) ≡ true → scan (String.◌∷◌ c s) ≡ ("", words s)
unfolding scan words
scan-space c s h = rw h refl

scan-cons :
    (c : Char) (s : String)
    → not (is_space (code c)) ≡ true
    → scan (String.◌∷◌ c s) ≡ (String.◌∷◌ c (scan s).0, (scan s).1)
unfolding scan
scan-cons c s h = elim (Bool-cases (is_space (code c))) [
  | inl y ↦ cc (rw y at h)
  | inr n ↦ rw n refl
]

abbrev Scanned : Type 0
Scanned = String × List String

scan-append : (n s : String) → is_word n ≡ true → (scan s).0 ≡ "" → scan (n ⧺ s) ≡ (n, (scan s).1)
unfolding scan
scan-append String.[] s h e = ap scan (nil-append s) ∙ ap (λ w. (w, (scan s).1)) e
scan-append (String.◌∷◌ c n) s h e =
    ap scan (cons-append c n s)
    ∙ scan-cons c (n ⧺ s) (both (not (is_space (code c))) (is_word n) h).0
    ∙ ap (λ (p : Scanned). (String.◌∷◌ c p.0, p.1))
        (scan-append n s (both (not (is_space (code c))) (is_word n) h).1 e)

abbrev newline : Char
newline = "\n"

scan-newline : (s : String) → scan ("\n" ⧺ s) ≡ ("", words s)
unfolding is_space
scan-newline s =
    ap scan (cons-append newline "" s ∙ ap (λ t. String.◌∷◌ newline t) (nil-append s))
    ∙ scan-space newline s refl

scan-word : (n : String) → is_word n ≡ true → scan n ≡ (n, [])
unfolding scan
scan-word String.[] h = refl
scan-word (String.◌∷◌ c n) h =
    scan-cons c n (both (not (is_space (code c))) (is_word n) h).0
    ∙ ap (λ (p : Scanned). (String.◌∷◌ c p.0, p.1))
        (scan-word n (both (not (is_space (code c))) (is_word n) h).1)

-- A name to journal: not empty, and without spaces.
abbrev pub IsName : String → Type 0
IsName n = (n ≢ "") × (is_word n ≡ true)

emit-cons : (n : String) (ws : List String) → n ≢ "" → emit n ws ≡ n ∷ ws
emit-cons String.[] ws h = absurd (h refl)
emit-cons (String.◌∷◌ c n) ws h = refl

words-eq : (s w : String) (ws : List String) → scan s ≡ (w, ws) → words s ≡ emit w ws
unfolding words
words-eq s w ws h = ap (λ (p : Scanned). emit p.0 p.1) h

-- Names that are not empty and have no space in them are read back from the journal as they were written.
pub words-join_lines : (ns : List String) → All IsName ns → words (join_lines ns) ≡ ns
unfolding join_lines
words-join_lines [] h = words-eq "" "" [] scan-nil
words-join_lines (n ∷ []) h = words-eq n n [] (scan-word n h.0.1) ∙ emit-cons n [] h.0.0
words-join_lines (n ∷ m ∷ ns) h =
    words-eq (n ⧺ ("\n" ⧺ join_lines (m ∷ ns))) n (words (join_lines (m ∷ ns))) split
    ∙ emit-cons n (words (join_lines (m ∷ ns))) h.0.0
    ∙ ap (λ ws. n ∷ ws) (words-join_lines (m ∷ ns) h.1)
  where
    line : scan ("\n" ⧺ join_lines (m ∷ ns)) ≡ ("", words (join_lines (m ∷ ns)))
    line = scan-newline (join_lines (m ∷ ns))

    split : scan (n ⧺ ("\n" ⧺ join_lines (m ∷ ns))) ≡ (n, words (join_lines (m ∷ ns)))
    split =
        scan-append n ("\n" ⧺ join_lines (m ∷ ns)) h.0.1 (ap (λ (p : Scanned). p.0) line)
        ∙ ap (λ (p : Scanned). (n, p.1)) line

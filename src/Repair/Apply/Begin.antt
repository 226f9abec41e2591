-- ===== src/Repair/Apply/Begin.antt =====
-- The directory with the journal of a swap of src/learnarken/repair/apply.py, before its loop.
use learn_arken.Prelude.{
  false, All-map, true, String, ◌≡◌, ◌≢◌, refl, sym, ◌∙◌, ap, some, List, [], ◌∷◌, All,
}
use learn_arken.Prelude.Dict
use learn_arken.Repair.Journal.{is_safe}
use learn_arken.Repair.Apply.{
  file, Files, bak, new, Target, names, write_journal, journal_name, join_lines, is_link,
}
use learn_arken.Repair.Apply.Paths.{IsPlain, CanWrite, get-write_self, get-write_other}
use learn_arken.Repair.Apply.Names.{journal-ne-bak, journal-ne-new}
use learn_arken.Repair.Apply.Run.{Absent}

-- The journal is no edited file's backup or temporary.
pub bak-ne-journal : (n : String) → bak n ≢ journal_name
bak-ne-journal n e = journal-ne-bak n (sym e)

new-ne-journal : (n : String) → new n ≢ journal_name
new-ne-journal n e = journal-ne-new n (sym e)

pub write_journal-CanWrite :
    (ts : List Target) (fs : Files) (ns : List String)
    → IsPlain (Dict.get journal_name fs)
    → Absent journal_name ns
    → All (CanWrite fs) ns
    → All (CanWrite (write_journal ts fs)) ns
unfolding write_journal
write_journal-CanWrite ts fs [] j a w = tt
write_journal-CanWrite ts fs (n ∷ ns) j a w = (
  (
    ap is_link (same n (λ e. a.0 (sym e))) ∙ w.0.0,
    ap is_link (same (bak n) (bak-ne-journal n)) ∙ w.0.1,
    ap is_link (same (new n) (new-ne-journal n)) ∙ w.0.2,
  ),
  write_journal-CanWrite ts fs ns j a.1 w.1,
)
  where
    same : (q : String) → q ≢ journal_name → Dict.get q (write_journal ts fs) ≡ Dict.get q fs
    same q n = get-write_other journal_name q (join_lines (names ts)) fs j n

pub write_journal-same :
    (ts : List Target) (fs : Files) (p : String)
    → IsPlain (Dict.get journal_name fs)
    → p ≢ journal_name
    → Dict.get p (write_journal ts fs) ≡ Dict.get p fs
unfolding write_journal
write_journal-same ts fs p h j = get-write_other journal_name p (join_lines (names ts)) fs h j

pub get-write_journal :
    (ts : List Target) (fs : Files)
    → IsPlain (Dict.get journal_name fs)
    → Dict.get journal_name (write_journal ts fs) ≡ some (file (join_lines (names ts)))
unfolding write_journal
get-write_journal ts fs h = get-write_self journal_name (join_lines (names ts)) fs h

-- The journal is no file of a safe name.
journal-refused : is_safe journal_name ≡ false
unfolding is_safe
journal-refused = refl

pub journal-Absent : (ns : List String) → All (λ n. is_safe n ≡ true) ns → Absent journal_name ns
journal-Absent ns h =
    All-map (λ n. is_safe n ≡ true) (λ n. journal_name ≢ n) (λ n s e. cc (e, s, journal-refused)) ns
      h

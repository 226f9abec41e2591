-- ===== src/Repair/Apply/Recovery.antt =====
-- `recover_interrupted_apply` of src/learnarken/repair/apply.py undoes a swap that was cut off.
use learn_arken.Prelude.{
  String, ◌≡◌, ◌≢◌, inl, inr, refl, sym, ◌∙◌, ap, subst, true, none, some, List, [], ◌∷◌, All,
  All-map, All-lookup, Result, ok, raise, ◌>>=◌, if◌then◌else◌,
}
use learn_arken.Prelude.Dict
use learn_arken.Prelude.Dict.{dict_laws}
use learn_arken.Repair.Journal.{join_lines, is_safe}
use learn_arken.Repair.Journal.Words.{IsName, words-join_lines}
use learn_arken.Repair.Apply.{
  is_link, put_back, file, Files, bak, new, Target, Disk, Swapped, swap_files, restore, names,
  write_journal, journal_name, is_regular, bytes_of, recover_one, recover_names, without_journal,
  recover_interrupted_apply, recover_from,
}
use learn_arken.Repair.Apply.Paths.{CanWrite, IsPlain, read-plain, get-remove_ne}
use learn_arken.Repair.Apply.Turn.{IsWhole}
use learn_arken.Repair.Apply.Names.{
  journal-ne-new, journal-ne-bak, bak-injective, bak-ne-new, ne-new,
}
use learn_arken.Repair.Apply.Run.{
  Clear, IsApart, IsOther, Absent, member, All-zip, Run, swap_files-Run, done-All, get-Run,
}
use learn_arken.Repair.Apply.Begin.{
  journal-Absent, bak-ne-journal, write_journal-same, get-write_journal, write_journal-CanWrite,
}
use learn_arken.Repair.Apply.Rollback.{get-put_back, get-put_back_self}
use learn_arken.Repair.Apply.Kept.{IsKept, NoBackup, IsKept-later, names-IsKept}

get-recover_one :
    (p n : String) (fs : Files)
    → p ≢ n
    → p ≢ bak n
    → p ≢ new n
    → Dict.get p (recover_one n fs) ≡ Dict.get p fs
unfolding recover_one restore
get-recover_one p n fs a b c =
    get-remove_ne (new n) p (restore n fs) c
    ∙ get-put_back (is_regular (Dict.get (bak n) fs)) p n fs a b

restore-none : (n : String) (fs : Files) → Dict.get (bak n) fs ≡ none → restore n fs ≡ fs
unfolding restore put_back
restore-none n fs h = ap (λ o. put_back (is_regular o) n fs) h

-- Recovery of one file that is kept gives it back.
get-recover_one_kept :
    (n : String) (fs fs' : Files) → IsKept fs fs' n → Dict.get n (recover_one n fs') ≡ Dict.get n fs
unfolding recover_one restore
get-recover_one_kept n fs fs' (inl k) =
    get-remove_ne (new n) n (restore n fs') (ne-new n)
    ∙ ap (Dict.get n) (restore-none n fs' k.0)
    ∙ k.1
get-recover_one_kept n fs fs' (inr (b, k, g)) =
    get-remove_ne (new n) n (restore n fs') (ne-new n)
    ∙ get-put_back_self (is_regular (Dict.get (bak n) fs')) n fs' (file b) (ap is_regular k) k
    ∙ sym g

-- What `recover_names` leaves when no name is refused.
unfoldable recovered : List String → Files → Files
recovered [] fs = fs
recovered (n ∷ ns) fs = recovered ns (recover_one n fs)

recover_names-recovered :
    (ns : List String) (fs : Files)
    → All (λ n. is_safe n ≡ true) ns
    → (restored : List String) × (recover_names ns fs ≡ ok (restored, recovered ns fs))
unfolding recover_names recovered
recover_names-recovered [] fs h = ([], refl)
recover_names-recovered (n ∷ ns) fs h =
    let (restored, e) = recover_names-recovered ns (recover_one n fs) h.1 in
    ((if is_regular (Dict.get (bak n) fs) then n ∷ restored else restored), rw (h.0, e) refl)

get-recovered :
    (p : String) (ns : List String) (fs : Files)
    → Absent p ns
    → IsOther p ns
    → Dict.get p (recovered ns fs) ≡ Dict.get p fs
unfolding recovered
get-recovered p [] fs a o = refl
get-recovered p (n ∷ ns) fs a o =
    get-recovered p ns (recover_one n fs) a.1 o.1 ∙ get-recover_one p n fs a.0 o.0.0 o.0.1

get-recovered_kept :
    (ns : List String) (fs fs' : Files)
    → IsApart ns
    → All (IsKept fs fs') ns
    → All (λ n. Dict.get n (recovered ns fs') ≡ Dict.get n fs) ns
unfolding recovered
get-recovered_kept [] fs fs' a k = tt
get-recovered_kept (n ∷ ns) fs fs' a k = (
  get-recovered n ns (recover_one n fs') (All-map (Clear n) (λ m. n ≢ m) (λ m c. c.0) ns a.0)
        (All-map (Clear n) (λ m. (n ≢ bak m) × (n ≢ new m)) (λ m c. (c.1, c.2)) ns a.0)
      ∙ get-recover_one_kept n fs fs' k.0,
  get-recovered_kept ns fs (recover_one n fs') a.1 (
      All-map (λ m. Clear n m × IsKept fs fs' m) (IsKept fs (recover_one n fs'))
        (λ m c. later m c.0 c.1) ns (All-zip (Clear n) (IsKept fs fs') ns a.0 k.1)),
)
  where
    later : (m : String) → Clear n m → IsKept fs fs' m → IsKept fs (recover_one n fs') m
    later m c =
        IsKept-later fs fs' (recover_one n fs') m
          (get-recover_one (bak m) n fs' (λ e. c.1 (sym e)) (λ e. c.0 (bak-injective n m (sym e)))
            (bak-ne-new m n))
          (get-recover_one m n fs' (λ e. c.0 (sym e)) c.3 c.4)

-- The journal is no edited file's backup or temporary, and no file of a safe name.
journal-IsOther : (ns : List String) → IsOther journal_name ns
journal-IsOther [] = tt
journal-IsOther (n ∷ ns) = ((journal-ne-bak n, journal-ne-new n), journal-IsOther ns)

-- An edited file's name that can be journalled and read again.
abbrev pub CanJournal : String → Type 0
CanJournal n = (is_safe n ≡ true) × IsName n

abbrev pub RecoveredAt : String → Files → Result Files (List String × Files) → Type 0
RecoveredAt p fs (ok (restored, fs')) =
    (Dict.get p fs' ≡ Dict.get p fs) × (Dict.get journal_name fs' ≡ none)
RecoveredAt p fs (raise fs') = ⊥

recover-eq-ok :
    (ns : List String) (fs : Files)
    → Dict.get journal_name fs ≡ some (file (join_lines ns))
    → All CanJournal ns
    → (restored : List String) × (recover_interrupted_apply fs
        ≡ ok (restored, Dict.remove journal_name (recovered ns fs)))
unfolding recover_interrupted_apply
recover-eq-ok ns fs e c =
    let (restored, r) =
      recover_names-recovered ns fs
        (All-map CanJournal (λ n. is_safe n ≡ true) (λ n d. d.0) ns c) in
    (
      restored,
      ap (recover_from fs) (read-plain journal_name fs (ap is_link e) ∙ ap bytes_of e)
          ∙ ap (λ ws. recover_names ws fs >>= without_journal)
              (words-join_lines ns (All-map CanJournal IsName (λ n d. d.1) ns c))
          ∙ ap (λ m. m >>= without_journal) r,
    )

recover-RecoveredAt :
    (ns : List String) (fs fs' : Files) (p : String)
    → Dict.get journal_name fs' ≡ some (file (join_lines ns))
    → All CanJournal ns
    → Dict.get p (recovered ns fs') ≡ Dict.get p fs
    → p ≢ journal_name
    → RecoveredAt p fs (recover_interrupted_apply fs')
recover-RecoveredAt ns fs fs' p e c h j =
    let (restored, r) = recover-eq-ok ns fs' e c in
    subst (RecoveredAt p fs) (sym r)
      (get-remove_ne journal_name p (recovered ns fs') j ∙ h, simp dict_laws)

-- The edited files are apart from one another and from each other's backups and temporaries, their
-- names are safe and without spaces, none has a backup when the swap begins, no symbolic link stands
-- at the journal, an edited file or its temporary, and no copy to a backup is cut short. Then wherever
-- the loop is cut off, a recovery of which no call on the file system fails, from what is on disk then,
-- gives back, at each path but the backups, the temporaries and the journal, what stood there before,
-- and the journal is gone.
pub recover-swap_files :
    (disk : Disk) (ts : List Target) (fs : Files) (p : String)
    → ((n : String) → IsWhole (disk n))
    → IsApart (names ts)
    → All CanJournal (names ts)
    → All (NoBackup fs) (names ts)
    → IsPlain (Dict.get journal_name fs)
    → All (CanWrite fs) (names ts)
    → IsOther p (names ts)
    → p ≢ journal_name
    → RecoveredAt p fs (recover_interrupted_apply (swap_files disk ts (write_journal ts fs)).files)
recover-swap_files disk ts fs p whole a c z plain w o j =
    recover-RecoveredAt (names ts) fs r.files p
      (get-Run journal_name run (journal-IsOther (names ts))
          (done-All (λ n. journal_name ≢ n) run free)
        ∙ journalled)
      c
      (elim (member p (names ts)) [
        | inl absent ↦
            get-recovered p (names ts) r.files absent o
            ∙ get-Run p run o (done-All (λ n. p ≢ n) run absent)
        | inr m ↦
            All-lookup (λ n. Dict.get n (recovered (names ts) r.files) ≡ Dict.get n start)
              (names ts)
              (get-recovered_kept (names ts) start r.files a (
                names-IsKept whole run a (
                  All-map (NoBackup fs) (NoBackup start)
                    (λ n b. start-same (bak n) (bak-ne-journal n) ∙ b) (names ts) z)))
              m
      ]
        ∙ start-same p j)
      j
  where
    free : Absent journal_name (names ts)
    free =
        journal-Absent (names ts)
          (All-map CanJournal (λ n. is_safe n ≡ true) (λ n d. d.0) (names ts) c)

    start : Files
    start = write_journal ts fs

    journalled : Dict.get journal_name start ≡ some (file (join_lines (names ts)))
    journalled = get-write_journal ts fs plain

    r : Swapped
    r = swap_files disk ts start

    run : Run disk ts start r
    run = swap_files-Run disk ts start a (write_journal-CanWrite ts fs (names ts) plain free w)

    start-same : (q : String) → q ≢ journal_name → Dict.get q start ≡ Dict.get q fs
    start-same q n = write_journal-same ts fs q plain n

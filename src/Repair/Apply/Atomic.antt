-- ===== src/Repair/Apply/Atomic.antt =====
-- The swap of src/learnarken/repair/apply.py writes all of the edited files or none.
use mathlib.Core.List.{Memᴰ}
use learn_arken.Prelude.{
  String, ◌≡◌, ◌≢◌, ◌⊎◌, inl, inr, refl, sym, ◌∙◌, ap, subst, Bool, false, Option, none, some, List,
  [], ◌∷◌, All, All-map, str_eq, eq_iff, arith, Result, ok, raise, Bool-cases, Option-cases,
  if◌then◌else◌,
}
use learn_arken.Prelude.Dict
use learn_arken.Prelude.Dict.{dict_laws}
use learn_arken.Repair.Apply.{
  Entry, file, Files, bak, new, Target, Disk, Swapped, rollback, unlink_all, names, write_journal,
  atomic_swap, journal_name, Late, Where, at_journal, rolled_back, in_rollback, in_cleanup,
  after_swap, Failed, cleaned, undone, committed, after_loop,
}
use learn_arken.Repair.Apply.Paths.{IsPlain, CanWrite, get-remove_ne, get-leave_partial}
use learn_arken.Repair.Apply.Run.{
  different, Clear, IsApart, IsOther, Absent, Run, swap_files-Run, done-All, get-Run, ended,
  stopped, turned,
}
use learn_arken.Repair.Apply.Begin.{write_journal-CanWrite, write_journal-same}
use learn_arken.Repair.Apply.Rollback.{either_way, get-rollback-Run, get-rollback-either}

-- What stands at a path after the swap, where `o` stands before it.
unfoldable pub edited : String → List Target → Option Entry → Option Entry
edited p [] o = o
edited p (t ∷ ts) o =
    let rest = edited p ts o in if str_eq p t.name then some (file t.content) else rest

edited-Absent :
    (p : String) (ts : List Target) (o : Option Entry) → Absent p (names ts) → edited p ts o ≡ o
unfolding edited
edited-Absent p [] o a = refl
edited-Absent p (t ∷ ts) o a = ground (arith, eq_iff p t.name, edited-Absent p ts o a.1)

get-Run-edited :
    {disk : Disk} (p : String) {ts : List Target} {fs : Files} {r : Swapped}
    → Run disk ts fs r
    → IsApart (names ts)
    → IsOther p (names ts)
    → r.failed ≡ false
    → (r.done ≡ names ts) × (Dict.get p r.files ≡ edited p ts (Dict.get p fs))
unfolding edited
get-Run-edited p ended a o e = (refl, refl)
get-Run-edited p (stopped h) a o e = cc
get-Run-edited p {r} (turned {t} {ts} {fs} {fs'} h run) a o e =
    let rest = get-Run-edited p run a.1 o.1 e in
    elim (Bool-cases (str_eq p t.name)) [
      | inl y ↦
          let same : p ≡ t.name = (eq_iff p t.name).0 y in
          (
            ap (λ ns. t.name ∷ ns) rest.0,
            rw y (
                rest.1
                ∙ edited-Absent p ts (Dict.get p fs') (
                    subst (λ q. Absent q (names ts)) (sym same)
                      (All-map (Clear t.name) (λ m. t.name ≢ m) (λ m c. c.0) (names ts) a.0))
                ∙ ap (λ q. Dict.get q fs') same
                ∙ h.becomes),
          )
      | inr n ↦ (
        ap (λ ns. t.name ∷ ns) rest.0,
        rw n (
            rest.1 ∙ ap (edited p ts) (h.frame p (λ q. cc (n, (eq_iff p t.name).1 q)) o.0.0 o.0.1)),
      )
    ]

later : {p n : String} {ns : List String} → p ≢ n → Memᴰ p (n ∷ ns) → Memᴰ p ns
later h (Memᴰ.head e) = absurd (h e)
later h (Memᴰ.tail m) = m

get-Run-done :
    {disk : Disk} (p : String) {ts : List Target} {fs : Files} {r : Swapped}
    → Run disk ts fs r
    → IsApart (names ts)
    → IsOther p (names ts)
    → Memᴰ p r.done
    → Dict.get p r.files ≡ edited p ts (Dict.get p fs)
unfolding edited
get-Run-done p ended a o m = elim m [ ]
get-Run-done p (stopped h) a o m = elim m [ ]
get-Run-done p (turned {t} {ts} {fs} {fs'} {r} h run) a o m = elim (Bool-cases (str_eq p t.name)) [
  | inl y ↦
      let same : p ≡ t.name = (eq_iff p t.name).0 y in
      rw y (
        get-Run p run o.1 (
          subst (λ q. Absent q r.done) (sym same)
            (done-All (λ m. t.name ≢ m) run
              (All-map (Clear t.name) (λ m. t.name ≢ m) (λ m c. c.0) (names ts) a.0)))
        ∙ ap (λ q. Dict.get q fs') same
        ∙ h.becomes)
  | inr n ↦
      let apart : p ≢ t.name = different p t.name n in
      rw n (
        get-Run-done p run a.1 o.1 (later apart m) ∙ ap (edited p ts) (h.frame p apart o.0.0 o.0.1))
]

get-unlink_all :
    (fails : String → Bool) (path : String → String) (p : String) (ns : List String) (fs : Files)
    → All (λ n. p ≢ path n) ns
    → Dict.get p (either_way (unlink_all fails path ns fs)) ≡ Dict.get p fs
unfolding unlink_all
get-unlink_all fails path p [] fs o = refl
get-unlink_all fails path p (n ∷ ns) fs o = elim (Bool-cases (fails n)) [
  | inl y ↦ rw y refl
  | inr m ↦ rw m (
      get-unlink_all fails path p ns (Dict.remove (path n) fs) o.1
      ∙ get-remove_ne (path n) p fs o.0)
]

-- What stands at a path when the swap raises, from where it does.
abbrev pub RaisedAt : Where → String → List Target → Files → Files → Type 0
RaisedAt at_journal p ts fs fs' = Dict.get p fs' ≡ Dict.get p fs
RaisedAt rolled_back p ts fs fs' =
    (Dict.get p fs' ≡ Dict.get p fs) × (Dict.get journal_name fs' ≡ none)
RaisedAt in_rollback p ts fs fs' =
    (Dict.get p fs' ≡ Dict.get p fs) ⊎ (Dict.get p fs' ≡ edited p ts (Dict.get p fs))
RaisedAt in_cleanup p ts fs fs' = Dict.get p fs' ≡ Dict.get p fs
RaisedAt after_swap p ts fs fs' = Dict.get p fs' ≡ edited p ts (Dict.get p fs)

-- The outcome of the swap at a path, and at the journal.
abbrev pub SwapAt : String → List Target → Files → Result Failed (List String × Files) → Type 0
SwapAt p ts fs (ok (done, fs')) =
    (done ≡ names ts)
    × (Dict.get p fs' ≡ edited p ts (Dict.get p fs))
    × (Dict.get journal_name fs' ≡ none)
SwapAt p ts fs (raise x) = RaisedAt x.at p ts fs x.files

no_journal : (fs : Files) → Dict.get journal_name (Dict.remove journal_name fs) ≡ none
no_journal fs = simp dict_laws

module _ (late : Late) (ts : List Target) (fs : Files) (p : String) (j : p ≢ journal_name) where
  cleaned-SwapAt :
      (m : Result Files Files)
      → Dict.get p (either_way m) ≡ Dict.get p fs
      → SwapAt p ts fs (raise (cleaned late m))
  cleaned-SwapAt (raise fs') h = h
  cleaned-SwapAt (ok fs') h = elim (Bool-cases late.unlink_journal) [
    | inl y ↦ rw y h
    | inr n ↦ rw n (get-remove_ne journal_name p fs' j ∙ h, no_journal fs')
  ]

  committed-SwapAt :
      (done : List String) (m : Result Files Files)
      → done ≡ names ts
      → Dict.get p (either_way m) ≡ edited p ts (Dict.get p fs)
      → SwapAt p ts fs (committed late done m)
  committed-SwapAt done (raise fs') e h = h
  committed-SwapAt done (ok fs') e h = elim (Bool-cases late.unlink_journal) [
    | inl y ↦ rw y h
    | inr n ↦ rw n (e, get-remove_ne journal_name p fs' j ∙ h, no_journal fs')
  ]

  module _ {disk : Disk} {start : Files} {r : Swapped} (run : Run disk ts start r)
      (a : IsApart (names ts)) (o : IsOther p (names ts))
      (same : Dict.get p start ≡ Dict.get p fs) where
    undone-SwapAt :
        (m : Result Files Files)
        → rollback late.put_back r.done r.files ≡ m
        → SwapAt p ts fs (raise (undone late ts m))
    undone-SwapAt (ok fs') h = cleaned-SwapAt (unlink_all late.clean new (names ts) fs') (
        get-unlink_all late.clean new p (names ts) fs'
          (All-map (λ n. (p ≢ bak n) × (p ≢ new n)) (λ n. p ≢ new n) (λ n c. c.1) (names ts) o)
        ∙ get-rollback-Run p run a o late.put_back fs' h
        ∙ same)
    undone-SwapAt (raise fs') h = elim (get-rollback-either p run a o late.put_back) [
      | inl e ↦ inl (ap (λ m. Dict.get p (either_way m)) (sym h) ∙ e ∙ same)
      | inr (m, e) ↦ inr (
          ap (λ m. Dict.get p (either_way m)) (sym h)
          ∙ e
          ∙ get-Run-done p run a o m
          ∙ ap (edited p ts) same)
    ]

    after_loop-SwapAt : SwapAt p ts fs (after_loop late ts r)
    after_loop-SwapAt = elim (Bool-cases r.failed) [
      | inl y ↦ rw y (undone-SwapAt (rollback late.put_back r.done r.files) refl)
      | inr n ↦
          let all = get-Run-edited p run a o n in
          rw n (
            committed-SwapAt r.done (unlink_all late.drop bak r.done r.files) all.0 (
              get-unlink_all late.drop bak p r.done r.files (
                All-map (λ n. (p ≢ bak n) × (p ≢ new n)) (λ n. p ≢ bak n) (λ n c. c.0) r.done
                  (done-All (λ n. (p ≢ bak n) × (p ≢ new n)) run o))
              ∙ all.1
              ∙ ap (edited p ts) same))
    ]

-- The edited files are apart from one another and from each other's backups and temporaries, none is
-- the journal, and no symbolic link stands at the journal, an edited file, its backup or its temporary.
-- Whichever calls on the file system fail, at each path but a backup, a temporary and the journal: if
-- the swap returns, it has swapped all of the files, the path has the edited content of the file of that
-- name or what stood there, and the journal is gone. If it raises because the journal cannot be written,
-- or in the cleaning after a rollback, the path has what stood there; if it raises after a rollback and
-- its cleaning, also, and the journal is gone; if it raises in the rollback, the path has what stood there
-- or the edited content; if it raises in the removals after the last file was swapped, the path has the
-- edited content of the file of that name or what stood there.
pub atomic_swap-SwapAt :
    (disk : Disk) (late : Late) (ts : List Target) (fs : Files) (p : String)
    → IsApart (names ts)
    → Absent journal_name (names ts)
    → IsPlain (Dict.get journal_name fs)
    → All (CanWrite fs) (names ts)
    → IsOther p (names ts)
    → p ≢ journal_name
    → SwapAt p ts fs (atomic_swap disk late ts fs)
unfolding atomic_swap
atomic_swap-SwapAt disk late ts fs p a free plain w o j = elim (Option-cases late.journal) [
  | inr (left, h) ↦ rw h (get-leave_partial journal_name p left fs plain j)
  | inl h ↦ rw h (
      after_loop-SwapAt late ts fs p j
        (swap_files-Run disk ts (write_journal ts fs) a
          (write_journal-CanWrite ts fs (names ts) plain free w))
        a o (write_journal-same ts fs p plain j))
]

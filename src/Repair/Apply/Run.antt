-- ===== src/Repair/Apply/Run.antt =====
-- The loop of `_atomic_swap` in src/learnarken/repair/apply.py: what it has changed when it stops.
use mathlib.Core.List.{Memᴰ}
use learn_arken.Prelude.{
  ap, String, ◌≡◌, ◌≢◌, ◌⊎◌, inl, inr, refl, sym, ◌∙◌, true, false, some, List, [], ◌∷◌, All,
  All-map, str_eq, eq_iff, arith, Result, ok, raise, Bool-cases,
}
use learn_arken.Prelude.Dict
use learn_arken.Repair.Apply.{
  is_link, file, Files, Bytes, bak, new, Target, Disk, swap_one, Swapped, swap_files, names,
}
use learn_arken.Repair.Apply.Paths.{CanWrite}
use learn_arken.Repair.Apply.Turn.{Outcome, Stopped, Replaced, swap_one-Outcome}
use learn_arken.Repair.Apply.Names.{new-injective, bak-injective, bak-ne-new}

-- Two edited files of which neither has the name of the other, of its backup or of its temporary.
abbrev pub Clear : String → String → Type 0
Clear n m = (n ≢ m) × (n ≢ bak m) × (n ≢ new m) × (m ≢ bak n) × (m ≢ new n)

abbrev pub IsApart : List String → Type 0
IsApart [] = Unit
IsApart (n ∷ ns) = All (Clear n) ns × IsApart ns

-- `p` is no backup and no temporary of the files.
abbrev pub IsOther : String → List String → Type 0
IsOther p ns = All (λ n. (p ≢ bak n) × (p ≢ new n)) ns

abbrev pub Absent : String → List String → Type 0
Absent p ns = All (λ n. p ≢ n) ns

pub different : (p n : String) → str_eq p n ≡ false → p ≢ n
different p n h e = ground (arith, eq_iff p n)

pub member : (p : String) (ns : List String) → Absent p ns ⊎ Memᴰ p ns
member p [] = inl tt
member p (n ∷ ns) = elim (Bool-cases (str_eq p n)) [
  | inl y ↦ inr (Memᴰ.head ((eq_iff p n).0 y))
  | inr no_match ↦ elim (member p ns) [
    | inl a ↦ inl ((λ e. different p n no_match e), a)
    | inr m ↦ inr (Memᴰ.tail m)
  ]
]

pub All-zip :
    (P Q : String → Type 0) (ns : List String) → All P ns → All Q ns → All (λ n. P n × Q n) ns
All-zip P Q [] a b = tt
All-zip P Q (n ∷ ns) a b = ((a.0, b.0), All-zip P Q ns a.1 b.1)

-- The runs of the loop: from a directory, to a directory and the files that were swapped.
pub data Run (disk : Disk) : List Target → Files → Swapped → Type 0 where
  ended : {fs : Files} → Run disk [] fs (record { files = fs; done = []; failed = false })
  stopped :
      {t : Target} {ts : List Target} {fs fs' : Files}
      → Stopped (disk t.name) t fs fs'
      → Run disk (t ∷ ts) fs (record { files = fs'; done = []; failed = true })
  turned :
      {t : Target} {ts : List Target} {fs fs' : Files} {r : Swapped}
      → Replaced t fs fs'
      → Run disk ts fs' r
      → Run disk (t ∷ ts) fs (record { files = r.files; done = t.name ∷ r.done; failed = r.failed })

abbrev after_turn : Disk → Target → List Target → Result Files Files → Swapped
after_turn disk t ts (ok fs) =
    let rest = swap_files disk ts fs in
    record { files = rest.files; done = t.name ∷ rest.done; failed = rest.failed }
after_turn disk t ts (raise fs) = record { files = fs; done = []; failed = true }

later-CanWrite :
    {t : Target} {fs fs' : Files} (m : String)
    → Replaced t fs fs'
    → Clear t.name m
    → CanWrite fs m
    → CanWrite fs' m
later-CanWrite {t} m h c w = (
  ap is_link (h.frame m (λ e. c.0 (sym e)) c.3 c.4) ∙ w.0,
  ap is_link (
        h.frame (bak m) (λ e. c.1 (sym e)) (λ e. c.0 (bak-injective t.name m (sym e)))
          (bak-ne-new m t.name))
      ∙ w.1,
  ap is_link (
        h.frame (new m) (λ e. c.2 (sym e)) (λ e. bak-ne-new t.name m (sym e))
          (λ e. c.0 (new-injective t.name m (sym e))))
      ∙ w.2,
)

turn-Run :
    (disk : Disk) (t : Target) (ts : List Target) (fs : Files)
    → ((fs' : Files) → Replaced t fs fs' → Run disk ts fs' (swap_files disk ts fs'))
    → (o : Result Files Files) → Outcome (disk t.name) t fs o
    → Run disk (t ∷ ts) fs (after_turn disk t ts o)
turn-Run disk t ts fs rest (ok fs') h = turned h (rest fs' h)
turn-Run disk t ts fs rest (raise fs') h = stopped h

pub swap_files-Run :
    (disk : Disk) (ts : List Target) (fs : Files)
    → IsApart (names ts)
    → All (CanWrite fs) (names ts)
    → Run disk ts fs (swap_files disk ts fs)
unfolding swap_files
swap_files-Run disk [] fs a w = ended
swap_files-Run disk (t ∷ ts) fs a w =
    turn-Run disk t ts fs
      (λ fs' h. swap_files-Run disk ts fs' a.1 (
        All-map (λ m. Clear t.name m × CanWrite fs m) (CanWrite fs')
          (λ m c. later-CanWrite m h c.0 c.1) (names ts)
          (All-zip (Clear t.name) (CanWrite fs) (names ts) a.0 w.1)))
      (swap_one (disk t.name) t fs) (swap_one-Outcome (disk t.name) t fs w.0)

pub bak-IsOther : (n : String) (ns : List String) → All (Clear n) ns → IsOther (bak n) ns
bak-IsOther n ns =
    All-map (Clear n) (λ m. (bak n ≢ bak m) × (bak n ≢ new m))
      (λ m c. ((λ e. c.0 (bak-injective n m e)), bak-ne-new n m)) ns

pub bak-Absent : (n : String) (ns : List String) → All (Clear n) ns → Absent (bak n) ns
bak-Absent n ns = All-map (Clear n) (λ m. bak n ≢ m) (λ m c e. c.3 (sym e)) ns

-- The backup of a file that was swapped is the file as it was before.
abbrev pub IsBacked : Files → Files → String → Type 0
IsBacked fs fs' n =
    (Dict.get (bak n) fs' ≡ Dict.get n fs) × ((b : Bytes) × (Dict.get n fs ≡ some (file b)))

module _ {disk : Disk} where
  pub done-All :
      (P : String → Type 0) {ts : List Target} {fs : Files} {r : Swapped}
      → Run disk ts fs r
      → All P (names ts)
      → All P r.done
  done-All P ended a = tt
  done-All P (stopped h) a = tt
  done-All P (turned h run) a = (a.0, done-All P run a.1)

  pub done-IsApart :
      {ts : List Target} {fs : Files} {r : Swapped}
      → Run disk ts fs r
      → IsApart (names ts)
      → IsApart r.done
  done-IsApart ended a = tt
  done-IsApart (stopped h) a = tt
  done-IsApart (turned {t} h run) a = (done-All (Clear t.name) run a.0, done-IsApart run a.1)

  -- A path that the loop has not swapped stands as before.
  pub get-Run :
      (p : String) {ts : List Target} {fs : Files} {r : Swapped}
      → Run disk ts fs r
      → IsOther p (names ts)
      → Absent p r.done
      → Dict.get p r.files ≡ Dict.get p fs
  get-Run p ended o a = refl
  get-Run p (stopped h) o a = h.frame p o.0.0 o.0.1
  get-Run p (turned h run) o a = get-Run p run o.1 a.1 ∙ h.frame p a.0 o.0.0 o.0.1

  pub done-IsBacked :
      {ts : List Target} {fs : Files} {r : Swapped}
      → Run disk ts fs r
      → IsApart (names ts)
      → All (IsBacked fs r.files) r.done
  done-IsBacked ended a = tt
  done-IsBacked (stopped h) a = tt
  done-IsBacked (turned {t} {ts} {fs} {fs'} {r} h run) a = (
    (
      get-Run (bak t.name) run (bak-IsOther t.name (names ts) a.0)
            (done-All (λ m. bak t.name ≢ m) run (bak-Absent t.name (names ts) a.0))
          ∙ h.backup
          ∙ sym h.was,
      (t.original, h.was),
    ),
    All-map (λ m. Clear t.name m × IsBacked fs' r.files m) (IsBacked fs r.files)
        (λ m c. earlier m c.0 c.1) r.done
        (All-zip (Clear t.name) (IsBacked fs' r.files) r.done (done-All (Clear t.name) run a.0)
          (done-IsBacked run a.1)),
  )
    where
      earlier : (m : String) → Clear t.name m → IsBacked fs' r.files m → IsBacked fs r.files m
      earlier m c b =
          let same : Dict.get m fs' ≡ Dict.get m fs = h.frame m (λ e. c.0 (sym e)) c.3 c.4 in
          (b.0 ∙ same, (b.1.0, sym same ∙ b.1.1))

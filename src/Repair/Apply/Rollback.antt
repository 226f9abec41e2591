-- ===== src/Repair/Apply/Rollback.antt =====
-- The rollback of `_atomic_swap` in src/learnarken/repair/apply.py gives back what was swapped.
use mathlib.Core.List.{Memᴰ}
use learn_arken.Prelude.{
  String, ◌≡◌, ◌≢◌, ◌⊎◌, inl, inr, refl, sym, ◌∙◌, ap, Bool, true, false, ◌&&◌, some, List, [], ◌∷◌,
  All, All-map, All-lookup, str_eq, eq_iff, Result, ok, raise, ok-injective, Bool-cases,
  if◌then◌else◌,
}
use learn_arken.Prelude.Dict
use learn_arken.Repair.Apply.{
  Entry, file, Files, Bytes, bak, Target, Disk, Swapped, put_back, rollback, is_file, is_regular,
  followed, names, new,
}
use learn_arken.Repair.Apply.Paths.{get-replace_target, get-replace_ne}
use learn_arken.Repair.Apply.Names.{bak-injective}
use learn_arken.Repair.Apply.Run.{
  Clear, IsApart, IsOther, Absent, different, member, All-zip, Run, done-All, done-IsApart, get-Run,
  IsBacked, done-IsBacked,
}

-- The directory, whether the calls have succeeded or not.
abbrev pub either_way : Result Files Files → Files
either_way (ok fs) = fs
either_way (raise fs) = fs

pub get-put_back :
    (there : Bool) (p n : String) (fs : Files)
    → p ≢ n
    → p ≢ bak n
    → Dict.get p (put_back there n fs) ≡ Dict.get p fs
unfolding put_back
get-put_back true p n fs a b = get-replace_ne (bak n) n p fs b a
get-put_back false p n fs a b = refl

pub get-put_back_self :
    (there : Bool) (n : String) (fs : Files) (e : Entry)
    → there ≡ true
    → Dict.get (bak n) fs ≡ some e
    → Dict.get n (put_back there n fs) ≡ some e
unfolding put_back
get-put_back_self there n fs e y h = rw y (get-replace_target (bak n) n fs e h)

-- A file whose backup stands there as a regular file.
abbrev pub IsSaved : Files → String → Type 0
IsSaved fs n = (b : Bytes) × (Dict.get (bak n) fs ≡ some (file b))

is_file-saved :
    (path : String) (fs : Files) (b : Bytes)
    → Dict.get path fs ≡ some (file b)
    → is_file path fs ≡ true
unfolding is_file
is_file-saved path fs b h = ap (λ o. is_regular (Dict.get (followed path o) fs)) h ∙ ap is_regular h

-- The directory after the first turn of a rollback.
abbrev first : String → Files → Files
first n fs = put_back (is_file (bak n) fs) n fs

module _ (fails : String → Bool) where
  rollback-first :
      (n : String) (done : List String) (fs fs' : Files)
      → rollback fails (n ∷ done) fs ≡ ok fs'
      → rollback fails done (first n fs) ≡ ok fs'
  unfolding rollback
  rollback-first n done fs fs' h = elim (Bool-cases (is_file (bak n) fs && fails n)) [
    | inl y ↦ cc (h, y)
    | inr m ↦ sym (ap (λ b. if b then raise fs else rollback fails done (first n fs)) m) ∙ h
  ]

  get-rollback :
      (p : String) (done : List String) (fs fs' : Files)
      → rollback fails done fs ≡ ok fs'
      → Absent p done
      → All (λ n. p ≢ bak n) done
      → Dict.get p fs' ≡ Dict.get p fs
  unfolding rollback
  get-rollback p [] fs fs' h a b = ap (Dict.get p) (sym (ok-injective h))
  get-rollback p (n ∷ done) fs fs' h a b =
      get-rollback p done (first n fs) fs' (rollback-first n done fs fs' h) a.1 b.1
      ∙ get-put_back (is_file (bak n) fs) p n fs a.0 b.0

  first_apart :
      (n m : String) (fs : Files) → Clear n m → Dict.get (bak m) (first n fs) ≡ Dict.get (bak m) fs
  first_apart n m fs c =
      get-put_back (is_file (bak n) fs) (bak m) n fs (λ e. c.1 (sym e))
        (λ e. c.0 (bak-injective n m (sym e)))

  first_self :
      (n : String) (fs : Files) → IsSaved fs n → Dict.get n (first n fs) ≡ Dict.get (bak n) fs
  first_self n fs (b, h) =
      get-put_back_self (is_file (bak n) fs) n fs (file b) (is_file-saved (bak n) fs b h) h ∙ sym h

  first-IsSaved :
      (n : String) (done : List String) (fs : Files)
      → All (Clear n) done
      → All (IsSaved fs) done
      → All (IsSaved (first n fs)) done
  first-IsSaved n done fs a s =
      All-map (λ m. Clear n m × IsSaved fs m) (IsSaved (first n fs))
        (λ m c. (c.1.0, first_apart n m fs c.0 ∙ c.1.1)) done
        (All-zip (Clear n) (IsSaved fs) done a s)

  get-rollback_done :
      (done : List String) (fs fs' : Files)
      → rollback fails done fs ≡ ok fs'
      → IsApart done
      → All (IsSaved fs) done
      → All (λ n. Dict.get n fs' ≡ Dict.get (bak n) fs) done
  get-rollback_done [] fs fs' h a s = tt
  get-rollback_done (n ∷ done) fs fs' h a s =
      let h' = rollback-first n done fs fs' h in
      (
        get-rollback n done (first n fs) fs' h'
              (All-map (Clear n) (λ m. n ≢ m) (λ m c. c.0) done a.0)
              (All-map (Clear n) (λ m. n ≢ bak m) (λ m c. c.1) done a.0)
            ∙ first_self n fs s.0,
        All-map (λ m. Clear n m × (Dict.get m fs' ≡ Dict.get (bak m) (first n fs)))
            (λ m. Dict.get m fs' ≡ Dict.get (bak m) fs) (λ m c. c.1 ∙ first_apart n m fs c.0) done
            (All-zip (Clear n) (λ m. Dict.get m fs' ≡ Dict.get (bak m) (first n fs)) done a.0
              (get-rollback_done done (first n fs) fs' h' a.1 (first-IsSaved n done fs a.0 s.1))),
      )

  -- A rollback that a failing call stops has given back a path, or has not reached it.
  unfoldable Reached : String → List String → Files → Result Files Files → Type 0
  Reached p done fs o =
      (Dict.get p (either_way o) ≡ Dict.get p fs)
      ⊎ (Memᴰ p done × (Dict.get p (either_way o) ≡ Dict.get (bak p) fs))

  first-Reached :
      (p n : String) (done : List String) (fs : Files) (o : Result Files Files)
      → All (Clear n) done
      → IsSaved fs n
      → p ≢ bak n
      → Reached p done (first n fs) o
      → Reached p (n ∷ done) fs o
  unfolding Reached
  first-Reached p n done fs o a s b (inr (m, e)) =
      inr (Memᴰ.tail m, e ∙ first_apart n p fs (All-lookup (Clear n) done a m))
  first-Reached p n done fs o a s b (inl e) = elim (Bool-cases (str_eq p n)) [
    | inl y ↦
        let same : p ≡ n = (eq_iff p n).0 y in
        inr (
          Memᴰ.head same,
          e
              ∙ ap (λ q. Dict.get q (first n fs)) same
              ∙ first_self n fs s
              ∙ ap (λ q. Dict.get (bak q) fs) (sym same),
        )
    | inr m ↦ inl (e ∙ get-put_back (is_file (bak n) fs) p n fs (different p n m) b)
  ]

  rollback-Reached :
      (p : String) (done : List String) (fs : Files)
      → IsApart done
      → All (IsSaved fs) done
      → All (λ n. p ≢ bak n) done
      → Reached p done fs (rollback fails done fs)
  unfolding rollback Reached
  rollback-Reached p [] fs a s b = inl refl
  rollback-Reached p (n ∷ done) fs a s b = elim (Bool-cases (is_file (bak n) fs && fails n)) [
    | inl y ↦ rw y (inl refl)
    | inr m ↦ rw m (
        first-Reached p n done fs (rollback fails done (first n fs)) a.0 s.0 b.0
          (rollback-Reached p done (first n fs) a.1 (first-IsSaved n done fs a.0 s.1) b.1))
  ]

-- After the rollback of the files swapped, whatever stops it.
module _ {disk : Disk} (p : String) {ts : List Target} {fs : Files} {r : Swapped}
    (run : Run disk ts fs r) (a : IsApart (names ts)) (o : IsOther p (names ts)) where
  no_backup : All (λ n. p ≢ bak n) r.done
  no_backup =
      All-map (λ n. (p ≢ bak n) × (p ≢ new n)) (λ n. p ≢ bak n) (λ n c. c.0) r.done
        (done-All (λ n. (p ≢ bak n) × (p ≢ new n)) run o)

  done-IsSaved : All (IsSaved r.files) r.done
  done-IsSaved =
      All-map (IsBacked fs r.files) (IsSaved r.files) (λ n b. (b.1.0, b.0 ∙ b.1.1)) r.done
        (done-IsBacked run a)

  -- Every path that is no backup of the files swapped is as it was before the loop.
  pub get-rollback-Run :
      (fails : String → Bool) (fs' : Files)
      → rollback fails r.done r.files ≡ ok fs'
      → Dict.get p fs' ≡ Dict.get p fs
  get-rollback-Run fails fs' h = elim (member p r.done) [
    | inl absent ↦
        get-rollback fails p r.done r.files fs' h absent no_backup ∙ get-Run p run o absent
    | inr m ↦
        All-lookup (λ n. Dict.get n fs' ≡ Dict.get (bak n) r.files) r.done
          (get-rollback_done fails r.done r.files fs' h (done-IsApart run a) done-IsSaved) m
        ∙ (All-lookup (IsBacked fs r.files) r.done (done-IsBacked run a) m).0
  ]

  pub get-rollback-either :
      (fails : String → Bool)
      → (Dict.get p (either_way (rollback fails r.done r.files)) ≡ Dict.get p fs)
        ⊎ (Memᴰ p r.done
            × (Dict.get p (either_way (rollback fails r.done r.files)) ≡ Dict.get p r.files))
  unfolding Reached
  get-rollback-either fails =
      elim (rollback-Reached fails p r.done r.files (done-IsApart run a) done-IsSaved no_backup) [
        | inr (m, e) ↦ inl (e ∙ (All-lookup (IsBacked fs r.files) r.done (done-IsBacked run a) m).0)
        | inl e ↦ elim (member p r.done) [
          | inl absent ↦ inl (e ∙ get-Run p run o absent)
          | inr m ↦ inr (m, e)
        ]
      ]

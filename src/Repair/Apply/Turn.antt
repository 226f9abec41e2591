-- ===== src/Repair/Apply/Turn.antt =====
-- One turn of the loop of `_atomic_swap` in src/learnarken/repair/apply.py.
use learn_arken.Prelude.{
  some_injective, String, ◌≡◌, ◌≢◌, ◌⊎◌, inl, inr, refl, sym, ◌∙◌, ap, Option, none, some, str_eq,
  eq_iff, Result, ok, raise, Bool-cases, ◌>>=◌,
}
use learn_arken.Prelude.Dict
use learn_arken.Repair.Apply.Names.{bak-ne-new, ne-bak}
use learn_arken.Prelude.Dict.{dict_laws}
use learn_arken.Repair.Apply.{
  is_link, write, Entry, file, symlink, Files, Bytes, bak, new, Target, Fault, no_fault, at_read,
  at_replace, at_copy, at_write, read_checked, copy_back, write_new, move_over, unchanged, swap_one,
  bytes_of,
}
use learn_arken.Repair.Apply.Paths.{
  IsPlain, CanWrite, read-plain, get-replace_target, get-replace_ne, get-write_self,
  get-write_other, get-leave_partial,
}

-- No copy to a backup is cut short.
abbrev pub IsWhole : Fault → Type 0
IsWhole (at_copy none) = Unit
IsWhole (at_copy (some b)) = ⊥
IsWhole _ = Unit

-- What one turn of the loop does: after an `OSError` only the backup and the temporary of the file may
-- differ, and the backup is whole if no copy was cut short; else the file has its new content.
pub record Stopped (fault : Fault) (t : Target) (fs fs' : Files) : Type 0 where
  pub frame : (p : String) → p ≢ bak t.name → p ≢ new t.name → Dict.get p fs' ≡ Dict.get p fs
  pub backup :
      IsWhole fault
      → (Dict.get (bak t.name) fs' ≡ Dict.get (bak t.name) fs)
        ⊎ ((Dict.get (bak t.name) fs' ≡ some (file t.original))
            × (Dict.get t.name fs ≡ some (file t.original)))

pub record Replaced (t : Target) (fs fs' : Files) : Type 0 where
  pub frame :
      (p : String) → p ≢ t.name → p ≢ bak t.name → p ≢ new t.name → Dict.get p fs' ≡ Dict.get p fs
  pub was : Dict.get t.name fs ≡ some (file t.original)
  pub becomes : Dict.get t.name fs' ≡ some (file t.content)
  pub backup : Dict.get (bak t.name) fs' ≡ some (file t.original)

abbrev pub Outcome : Fault → Target → Files → Result Files Files → Type 0
Outcome fault t fs (ok fs') = Replaced t fs fs'
Outcome fault t fs (raise fs') = Stopped fault t fs fs'

bytes_of-eq-some : (o : Option Entry) (b : Bytes) → bytes_of o ≡ some b → o ≡ some (file b)
bytes_of-eq-some none b h = cc
bytes_of-eq-some (some (file c)) b h = ap (λ x. some (file x)) (some_injective h)
bytes_of-eq-some (some (symlink target)) b h = cc

unchanged-cases :
    (fault : Fault) (t : Target) (fs : Files)
    → fault ≢ at_read
    → (o : Option Entry) → Dict.get t.name fs ≡ o
    → (unchanged t fs (bytes_of o) ≡ raise fs)
      ⊎ ((unchanged t fs (bytes_of o) ≡ ok t.original)
          × (fault ≢ at_read)
          × (Dict.get t.name fs ≡ some (file t.original)))
unchanged-cases fault t fs n none h = inl refl
unchanged-cases fault t fs n (some (symlink target)) h = inl refl
unchanged-cases fault t fs n (some (file b)) h = elim (Bool-cases (str_eq b t.original)) [
  | inl y ↦
      let e : b ≡ t.original = (eq_iff b t.original).0 y in
      inr (rw y (ap (λ c. ok c) e), n, h ∙ ap (λ c. some (file c)) e)
  | inr m ↦ inl (rw m refl)
]

read_checked-cases :
    (fault : Fault) (t : Target) (fs : Files)
    → IsPlain (Dict.get t.name fs)
    → (read_checked fault t fs ≡ raise fs)
      ⊎ ((read_checked fault t fs ≡ ok t.original)
          × (fault ≢ at_read)
          × (Dict.get t.name fs ≡ some (file t.original)))
unfolding read_checked
read_checked-cases at_read t fs p = inl refl
read_checked-cases no_fault t fs p =
    rw (read-plain t.name fs p) (unchanged-cases no_fault t fs (λ e. cc) (Dict.get t.name fs) refl)
read_checked-cases at_replace t fs p =
    rw (read-plain t.name fs p)
      (unchanged-cases at_replace t fs (λ e. cc) (Dict.get t.name fs) refl)
read_checked-cases (at_copy left) t fs p =
    rw (read-plain t.name fs p)
      (unchanged-cases (at_copy left) t fs (λ e. cc) (Dict.get t.name fs) refl)
read_checked-cases (at_write left) t fs p =
    rw (read-plain t.name fs p)
      (unchanged-cases (at_write left) t fs (λ e. cc) (Dict.get t.name fs) refl)

same-Stopped : (fault : Fault) (t : Target) (fs : Files) → Stopped fault t fs fs
same-Stopped fault t fs = record { frame = λ p n m. refl; backup = λ w. inl refl }

abbrev after_read : Fault → Target → Files → Result Files Files
after_read fault t fs =
    copy_back fault t t.original fs >>= λ fs. write_new fault t fs >>= λ fs. move_over fault t fs

-- The directory with the backup, and with the temporary besides.
abbrev backed_up : Target → Files → Files
backed_up t fs = write (bak t.name) t.original fs

abbrev written : Target → Files → Files
written t fs = write (new t.name) t.content (backed_up t fs)

module _ (t : Target) (fs : Files) (c : CanWrite fs t.name) where
  new-IsPlain : IsPlain (Dict.get (new t.name) (backed_up t fs))
  new-IsPlain =
      ap is_link (
        get-write_other (bak t.name) (new t.name) t.original fs c.1
          (λ e. bak-ne-new t.name t.name (sym e)))
      ∙ c.2

  get-backed_up : (p : String) → p ≢ bak t.name → Dict.get p (backed_up t fs) ≡ Dict.get p fs
  get-backed_up p n = get-write_other (bak t.name) p t.original fs c.1 n

  get-written :
      (p : String) → p ≢ bak t.name → p ≢ new t.name → Dict.get p (written t fs) ≡ Dict.get p fs
  get-written p n m =
      get-write_other (new t.name) p t.content (backed_up t fs) new-IsPlain m ∙ get-backed_up p n

  backed_up_backup : Dict.get (bak t.name) (backed_up t fs) ≡ some (file t.original)
  backed_up_backup = get-write_self (bak t.name) t.original fs c.1

  written_backup : Dict.get (bak t.name) (written t fs) ≡ some (file t.original)
  written_backup =
      get-write_other (new t.name) (bak t.name) t.content (backed_up t fs) new-IsPlain
        (bak-ne-new t.name t.name)
      ∙ backed_up_backup

  after_read-Outcome :
      (fault : Fault)
      → fault ≢ at_read
      → Dict.get t.name fs ≡ some (file t.original)
      → Outcome fault t fs (after_read fault t fs)
  unfolding copy_back write_new move_over
  after_read-Outcome at_read n h = absurd (n refl)
  after_read-Outcome (at_copy none) n h = same-Stopped (at_copy none) t fs
  after_read-Outcome (at_copy (some b)) n h = record {
    frame = λ p n m. get-write_other (bak t.name) p b fs c.1 n;
    backup = λ w. absurd w;
  }
  after_read-Outcome (at_write left) n h = record {
    frame = λ p n m.
        get-leave_partial (new t.name) p left (backed_up t fs) new-IsPlain m ∙ get-backed_up p n;
    backup = λ w. inr (
      get-leave_partial (new t.name) (bak t.name) left (backed_up t fs) new-IsPlain
            (bak-ne-new t.name t.name)
          ∙ backed_up_backup,
      h,
    );
  }
  after_read-Outcome at_replace n h = record {
    frame = λ p n m. get-written p n m;
    backup = λ w. inr (written_backup, h);
  }
  after_read-Outcome no_fault n h = record {
    frame = λ p k n m. get-replace_ne (new t.name) t.name p (written t fs) m k ∙ get-written p n m;
    was = h;
    becomes =
        get-replace_target (new t.name) t.name (written t fs) (file t.content)
          (get-write_self (new t.name) t.content (backed_up t fs) new-IsPlain);
    backup =
        get-replace_ne (new t.name) t.name (bak t.name) (written t fs) (bak-ne-new t.name t.name)
          (λ e. ne-bak t.name (sym e))
        ∙ written_backup;
  }

pub swap_one-Outcome :
    (fault : Fault) (t : Target) (fs : Files)
    → CanWrite fs t.name
    → Outcome fault t fs (swap_one fault t fs)
unfolding swap_one
swap_one-Outcome fault t fs c = elim (read_checked-cases fault t fs c.0) [
  | inl h ↦ rw h (same-Stopped fault t fs)
  | inr (h, n, g) ↦ rw h (after_read-Outcome t fs c fault n g)
]

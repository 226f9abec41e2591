-- ===== src/Repair/Commit/Verified.antt =====
-- The commit of src/learnarken/repair/apply.py writes only what the validator has passed.
use learn_arken.Prelude.{
  All-filter_inv, All-map, String, ◌≡◌, ◌≢◌, refl, sym, subst, Bool, true, false, not, List, [],
  ◌∷◌, filter, elem, All, str_le, Result, ok, raise,
}
use learn_arken.Prelude.Dict
use learn_arken.Prelude.Sort.{All-sort_inv}
use learn_arken.Repair.Models.{EditOp}
use learn_arken.Repair.Apply.{
  Where, Failed, Late, Bytes, Files, Target, Disk, names, atomic_swap, journal_name,
}
use learn_arken.Repair.Apply.Paths.{IsPlain, CanWrite}
use learn_arken.Repair.Apply.Begin.{journal-Absent}
use learn_arken.Repair.Apply.Run.{IsApart, IsOther}
use learn_arken.Repair.Apply.Atomic.{edited, RaisedAt, SwapAt, atomic_swap-SwapAt}
use learn_arken.Repair.Commit.Targets.{
  IsEarly, IsEarlyOr, edited_targets-early, edited_targets-names, edited_targets-safe,
}
use learn_arken.Repair.Commit.{
  is_safe, introduces, bad_edit, unknown_target, unsafe_name, os_error, ApplyError, ApplyResult,
  Edits, package_xml, overlay, minus, edited_targets, introduced_by, written_result, swap_unless,
  verify_edited, verify_and_apply,
}

not-not : (b : Bool) → (not b ≡ true → ⊥) → b ≡ true
not-not true f = refl
not-not false f = absurd (f refl)

minus-nil : (xs ys : List String) → minus xs ys ≡ [] → All (λ k. elem k ys ≡ true) xs
unfolding minus
minus-nil xs ys h =
    All-map (λ k. not (elem k ys) ≡ true → ⊥) (λ k. elem k ys ≡ true) (λ k f. not-not (elem k ys) f)
      xs
      (All-filter_inv (λ k. ⊥) (λ k. not (elem k ys)) xs
        (All-sort_inv str_le (λ k. ⊥) (filter (λ k. not (elem k ys)) xs)
          (subst (All (λ k. ⊥)) (sym h) tt)))

module _ (apply_edits : Bytes → List EditOp → Result String Bytes)
    (keys : Files → List String) where
  -- The package that the commit leaves at a path, and the check it has passed.
  pub record Committed (p : String) (fs : Files) (edits : Edits) (r : ApplyResult) (fs' : Files)
      : Type 0 where
    pub targets : List Target
    pub tried : edited_targets apply_edits keys fs edits ≡ ok targets
    pub nothing_new : All (λ k. elem k (keys fs) ≡ true) (keys (overlay targets (package_xml fs)))
    pub all_written : r.written ≡ names targets
    pub at_path : Dict.get p fs' ≡ edited p targets (Dict.get p fs)

  -- The same check, where the swap has raised.
  pub record Interrupted (p : String) (fs : Files) (edits : Edits) (at : Where) (fs' : Files)
      : Type 0 where
    pub targets : List Target
    pub tried : edited_targets apply_edits keys fs edits ≡ ok targets
    pub nothing_new : All (λ k. elem k (keys fs) ≡ true) (keys (overlay targets (package_xml fs)))
    pub at_path : RaisedAt at p targets fs fs'

  abbrev pub RefusedAt : String → Files → Edits → ApplyError → Files → Type 0
  RefusedAt p fs edits (os_error at) fs' = Interrupted p fs edits at fs'
  RefusedAt p fs edits _ fs' = Dict.get p fs' ≡ Dict.get p fs

  abbrev pub CommitAt :
      String → Files → Edits → Result (ApplyError × Files) (ApplyResult × Files) → Type 0
  CommitAt p fs edits (ok (r, fs')) = Committed p fs edits r fs'
  CommitAt p fs edits (raise (e, fs')) = RefusedAt p fs edits e fs'

  swapped-CommitAt :
      (p : String) (fs : Files) (edits : Edits) (ts : List Target)
      → edited_targets apply_edits keys fs edits ≡ ok ts
      → introduced_by apply_edits keys ts fs ≡ []
      → (m : Result Failed (List String × Files)) → SwapAt p ts fs m
      → CommitAt p fs edits (written_result apply_edits keys ts fs m)
  unfolding introduced_by
  swapped-CommitAt p fs edits ts e none_new (raise x) h = record {
    targets = ts;
    tried = e;
    nothing_new = minus-nil (keys (overlay ts (package_xml fs))) (keys fs) none_new;
    at_path = h;
  }
  swapped-CommitAt p fs edits ts e none_new (ok (written, fs')) h = record {
    targets = ts;
    tried = e;
    nothing_new = minus-nil (keys (overlay ts (package_xml fs))) (keys fs) none_new;
    all_written = h.0;
    at_path = h.1;
  }

  unless-CommitAt :
      (disk : Disk) (late : Late) (p : String) (fs : Files) (edits : Edits) (ts : List Target)
      → edited_targets apply_edits keys fs edits ≡ ok ts
      → SwapAt p ts fs (atomic_swap disk late ts fs)
      → (new_keys : List String) → introduced_by apply_edits keys ts fs ≡ new_keys
      → CommitAt p fs edits (swap_unless apply_edits keys disk late ts fs new_keys)
  unless-CommitAt disk late p fs edits ts e h [] n =
      swapped-CommitAt p fs edits ts e n (atomic_swap disk late ts fs) h
  unless-CommitAt disk late p fs edits ts e h (k ∷ ks) n = refl

  early-RefusedAt :
      (p : String) (fs : Files) (edits : Edits) (e : ApplyError)
      → IsEarly e
      → RefusedAt p fs edits e fs
  early-RefusedAt p fs edits (unsafe_name name) h = refl
  early-RefusedAt p fs edits (unknown_target name) h = refl
  early-RefusedAt p fs edits (bad_edit exc) h = refl
  early-RefusedAt p fs edits (introduces ks) h = refl
  early-RefusedAt p fs edits (os_error at) h = absurd h

  edited-CommitAt :
      (disk : Disk) (late : Late) (p : String) (fs : Files) (edits : Edits)
      → IsApart (Dict.keys edits)
      → IsPlain (Dict.get journal_name fs)
      → All (CanWrite fs) (Dict.keys edits)
      → IsOther p (Dict.keys edits)
      → p ≢ journal_name
      → (m : Result ApplyError (List Target)) → edited_targets apply_edits keys fs edits ≡ m
      → CommitAt p fs edits (verify_edited apply_edits keys disk late fs m)
  edited-CommitAt disk late p fs edits a plain w o j (raise e) h =
      early-RefusedAt p fs edits e
        (subst IsEarlyOr (h) (edited_targets-early apply_edits keys fs edits))
  edited-CommitAt disk late p fs edits a plain w o j (ok ts) h =
      let same : Dict.keys edits ≡ names ts =
        sym (edited_targets-names apply_edits keys fs edits ts h) in
      unless-CommitAt disk late p fs edits ts h
        (atomic_swap-SwapAt disk late ts fs p (subst IsApart same a)
          (journal-Absent (names ts) (
            subst (All (λ n. is_safe n ≡ true)) same
              (edited_targets-safe apply_edits keys fs edits ts h)))
          plain (subst (All (CanWrite fs)) same w) (subst (IsOther p) same o) j)
        (introduced_by apply_edits keys ts fs) refl

  -- The edited files are apart from one another and from each other's backups and temporaries, and no
  -- symbolic link stands at the journal, an edited file, its backup or its temporary. If edits are
  -- committed, every finding of the package with the edits is a finding of the package before them, all
  -- of the files are reported as written, and each path but a backup, a temporary and the journal has
  -- the edited bytes of the file of that name, or what stood there. If the commit raises before the swap,
  -- each of these paths has what stood there. If the swap raises, the edits had passed the same check, and
  -- these paths have what stood there, unless a removal failed after the last file was swapped, which
  -- leaves them as after a commit, or a call of the rollback failed, which leaves each of them in one of
  -- the two ways.
  pub verify_and_apply-CommitAt :
      (disk : Disk) (late : Late) (p : String) (fs : Files) (name : String) (es : List EditOp)
      (rest : Edits)
      → IsApart (Dict.keys ((name, es) ∷ rest))
      → IsPlain (Dict.get journal_name fs)
      → All (CanWrite fs) (Dict.keys ((name, es) ∷ rest))
      → IsOther p (Dict.keys ((name, es) ∷ rest))
      → p ≢ journal_name
      → CommitAt p fs
          ((name, es) ∷ rest)
          (verify_and_apply apply_edits keys disk late fs ((name, es) ∷ rest))
  unfolding verify_and_apply
  verify_and_apply-CommitAt disk late p fs name es rest a plain w o j =
      edited-CommitAt disk late p fs ((name, es) ∷ rest) a plain w o j
        (edited_targets apply_edits keys fs ((name, es) ∷ rest)) refl

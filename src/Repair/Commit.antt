-- ===== src/Repair/Commit.antt =====
-- `verify_and_apply` of src/learnarken/repair/apply.py: the approved edits are tried on a copy of the
-- package and refused if the validator finds anything new. `apply_edits` (lxml, in
-- src/learnarken/repair/patch.py) and `keys`, the finding keys that the validator gives for a directory,
-- are parameters; the folder `icn`, which the commit copies and never writes, belongs to `keys`.
pub mod Targets
pub mod Verified
use Prim.Native.String.{count}
use learn_arken.Prelude.{
  ℕ, String, ◌≡◌, Bool, true, false, not, ◌&&◌, ◌||◌, Option, none, some, List, [], ◌∷◌, filter,
  elem, str_eq, str_le, length, if◌then◌else◌, Result, ok, raise, ◌>>=◌,
}
use learn_arken.Prelude.Dict
use learn_arken.Prelude.Dict.{Dict}
use learn_arken.Prelude.Sort.{sort}
use learn_arken.Repair.Models.{EditOp, ValidatorDelta}
use learn_arken.Repair.Journal.{is_safe}
use learn_arken.Repair.Apply.{
  Entry, file, symlink, Bytes, Files, Target, Disk, Late, Where, Failed, is_regular, bytes_of,
  atomic_swap,
}

pub data ApplyError : Type 0 where
  unsafe_name unknown_target : (name : String) → ApplyError
  bad_edit : (exc : String) → ApplyError
  introduces : List String → ApplyError
  os_error : Where → ApplyError

pub record ApplyResult : Type 0 where
  pub written : List String
  pub delta : ValidatorDelta

-- A file with its edits, and the bytes that `_validated_targets` has read.
pub record Source : Type 0 where
  pub name : String
  pub original : Bytes
  pub edits : List EditOp

abbrev pub Edits : Type 0
Edits = Dict (List EditOp)

abbrev pub or_unknown : String → Option Bytes → Result ApplyError Bytes
or_unknown name none = raise (unknown_target name)
or_unknown name (some b) = ok b

unfoldable pub validated_target : Files → String → Result ApplyError Bytes
validated_target fs name =
    if is_safe name then or_unknown name (bytes_of (Dict.get name fs)) else raise (unsafe_name name)

unfoldable pub validated_targets : Files → Edits → Result ApplyError (List Source)
validated_targets fs [] = ok []
validated_targets fs ((name, edits) ∷ rest) = validated_target fs name >>= λ b.
    validated_targets fs rest >>= λ sources.
    ok (record { name = name; original = b; edits = edits } ∷ sources)

-- `name.endswith(".xml")`
abbrev pub is_xml : String → Bool
is_xml String.[] = false
is_xml (String.◌∷◌ c s) = str_eq (String.◌∷◌ c s) ".xml" || is_xml s

unfoldable pub package_xml : Files → Files
package_xml fs = filter (λ (entry : String × Entry). is_xml entry.0 && is_regular (some entry.1)) fs

unfoldable pub overlay : List Target → Files → Files
overlay [] fs = fs
overlay (t ∷ ts) fs = overlay ts (Dict.put t.name (file t.content) fs)

-- `sorted(xs - ys)`
unfoldable pub minus : List String → List String → List String
minus xs ys = sort str_le (filter (λ k. not (elem k ys)) xs)

abbrev pub no_change : ValidatorDelta
no_change = record { findings_before = 0; findings_after = 0; cleared = []; introduced = [] }

module _ (apply_edits : Bytes → List EditOp → Result String Bytes)
    (keys : Files → List String) where
  abbrev pub or_bad_edit : Result String Bytes → Result ApplyError Bytes
  or_bad_edit (ok b) = ok b
  or_bad_edit (raise exc) = raise (bad_edit exc)

  unfoldable pub edit_all : List Source → Result ApplyError (List Target)
  edit_all [] = ok []
  edit_all (s ∷ ss) = or_bad_edit (apply_edits s.original s.edits) >>= λ content.
      edit_all ss >>= λ ts.
      ok (record { name = s.name; original = s.original; content = content } ∷ ts)

  unfoldable pub edited_targets : Files → Edits → Result ApplyError (List Target)
  edited_targets fs edits = validated_targets fs edits >>= edit_all

  unfoldable pub introduced_by : List Target → Files → List String
  introduced_by ts fs = minus (keys (overlay ts (package_xml fs))) (keys fs)

  abbrev pub written_result :
      List Target
      → Files
      → Result Failed (List String × Files)
      → Result (ApplyError × Files) (ApplyResult × Files)
  written_result ts fs (raise x) = raise (os_error x.at, x.files)
  written_result ts fs (ok (written, fs')) =
      let before = keys fs in
      let after = keys (overlay ts (package_xml fs)) in
      ok (
        record {
          written = written;
          delta = record {
            findings_before = length before;
            findings_after = length after;
            cleared = minus before after;
            introduced = [];
          };
        },
        fs',
      )

  abbrev pub swap_unless :
      Disk
      → Late
      → List Target
      → Files
      → List String
      → Result (ApplyError × Files) (ApplyResult × Files)
  swap_unless disk late ts fs [] = written_result ts fs (atomic_swap disk late ts fs)
  swap_unless disk late ts fs (k ∷ ks) = raise (introduces (k ∷ ks), fs)

  abbrev pub verify_edited :
      Disk
      → Late
      → Files
      → Result ApplyError (List Target)
      → Result (ApplyError × Files) (ApplyResult × Files)
  verify_edited disk late fs (raise e) = raise (e, fs)
  verify_edited disk late fs (ok ts) = swap_unless disk late ts fs (introduced_by ts fs)

  unfoldable pub verify_and_apply :
      Disk → Late → Files → Edits → Result (ApplyError × Files) (ApplyResult × Files)
  verify_and_apply disk late fs [] = ok (record { written = []; delta = no_change }, fs)
  verify_and_apply disk late fs (e ∷ es) = verify_edited disk late fs (edited_targets fs (e ∷ es))

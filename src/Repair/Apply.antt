-- ===== src/Repair/Apply.antt =====
-- src/learnarken/repair/apply.py: the commit of approved edits. The package's directory is an
-- association list from a path's name to what stands there. `Disk` says, for each edited file, at
-- which call of the loop the operating system fails, with what a failed write leaves behind, and `Late`
-- which calls before and after the loop fail. Bytes are texts.
pub mod Names
pub mod Paths
pub mod Turn
pub mod Run
pub mod Rollback
pub mod Begin
pub mod Atomic
pub mod Kept
pub mod Recovery
use Prim.Native.Char.{Char, code}
use learn_arken.Prelude.{
  ℕ, zero, suc, ◌+◌, String, ◌⧺◌, ◌≡◌, Bool, true, false, not, ◌&&◌, ◌||◌, Option, none, some, List,
  [], ◌∷◌, map, filter, elem, is_space, is_none, str_eq, ltb, length, if◌then◌else◌, Result, ok,
  raise, ◌>>=◌,
}
use learn_arken.Prelude.Dict
use learn_arken.Prelude.Dict.{Dict}
use learn_arken.Repair.Models.{EditOp, ValidatorDelta}
use learn_arken.Repair.Journal.{join_lines, words, is_safe}

abbrev pub Bytes : Type 0
Bytes = String

pub data Entry : Type 0 where
  file : Bytes → Entry
  symlink : (target : String) → Entry

abbrev pub Files : Type 0
Files = Dict Entry

abbrev pub journal_name : String
journal_name = ".repair-apply.journal"

unfoldable pub bak : String → String
bak name = name ⧺ ".bak"

unfoldable pub new : String → String
new name = name ⧺ ".new"

-- `path.is_file() and not path.is_symlink()`
abbrev pub is_regular : Option Entry → Bool
is_regular (some (file b)) = true
is_regular (some (symlink target)) = false
is_regular none = false

abbrev pub bytes_of : Option Entry → Option Bytes
bytes_of (some (file b)) = some b
bytes_of (some (symlink target)) = none
bytes_of none = none

-- `path.is_symlink()`
abbrev pub is_link : Option Entry → Bool
is_link (some (symlink target)) = true
is_link (some (file b)) = false
is_link none = false

-- A read, a write and `path.is_file()` go through a symbolic link, here one that names a file of the directory.
abbrev pub followed : String → Option Entry → String
followed path (some (symlink target)) = target
followed path (some (file b)) = path
followed path none = path

unfoldable pub read : String → Files → Option Bytes
read path fs = bytes_of (Dict.get (followed path (Dict.get path fs)) fs)

unfoldable pub write : String → Bytes → Files → Files
write path b fs = Dict.put (followed path (Dict.get path fs)) (file b) fs

unfoldable pub is_file : String → Files → Bool
is_file path fs = is_regular (Dict.get (followed path (Dict.get path fs)) fs)

-- `os.replace(a, b)`
unfoldable pub replace : String → String → Files → Files
replace a b fs = elim (Dict.get a fs) [ none ↦ fs | some e ↦ Dict.put b e (Dict.remove a fs) ]

-- One edited file, with the bytes that the preview validated.
pub record Target : Type 0 where
  pub name : String
  pub original : Bytes
  pub content : Bytes

pub data Fault : Type 0 where
  no_fault at_read at_replace : Fault
  at_copy at_write : (left : Option Bytes) → Fault

abbrev pub Disk : Type 0
Disk = String → Fault

abbrev pub leave_partial : String → Option Bytes → Files → Files
leave_partial path none fs = fs
leave_partial path (some b) fs = write path b fs

-- The steps of one turn of the loop. `raise fs` is an `OSError`, with the directory as it is then.
abbrev pub unchanged : Target → Files → Option Bytes → Result Files Bytes
unchanged t fs none = raise fs
unchanged t fs (some b) = if str_eq b t.original then ok b else raise fs

unfoldable pub read_checked : Fault → Target → Files → Result Files Bytes
read_checked at_read t fs = raise fs
read_checked fault t fs = unchanged t fs (read t.name fs)

unfoldable pub copy_back : Fault → Target → Bytes → Files → Result Files Files
copy_back (at_copy left) t b fs = raise (leave_partial (bak t.name) left fs)
copy_back fault t b fs = ok (write (bak t.name) b fs)

unfoldable pub write_new : Fault → Target → Files → Result Files Files
write_new (at_write left) t fs = raise (leave_partial (new t.name) left fs)
write_new fault t fs = ok (write (new t.name) t.content fs)

unfoldable pub move_over : Fault → Target → Files → Result Files Files
move_over at_replace t fs = raise fs
move_over fault t fs = ok (replace (new t.name) t.name fs)

unfoldable pub swap_one : Fault → Target → Files → Result Files Files
swap_one fault t fs = read_checked fault t fs >>= λ b.
    copy_back fault t b fs >>= λ fs. write_new fault t fs >>= λ fs. move_over fault t fs

-- The loop: the directory and `done` when it ends or when an `OSError` stops it.
pub record Swapped : Type 0 where
  pub files : Files
  pub done : List String
  pub failed : Bool

unfoldable pub swap_files : Disk → List Target → Files → Swapped
swap_files disk [] fs = record { files = fs; done = []; failed = false }
swap_files disk (t ∷ ts) fs = elim (swap_one (disk t.name) t fs) [
  | ok fs' ↦
      let rest = swap_files disk ts fs' in
      record { files = rest.files; done = t.name ∷ rest.done; failed = rest.failed }
  | raise fs' ↦ record { files = fs'; done = []; failed = true }
]

abbrev pub names : List Target → List String
names ts = map (λ (t : Target). t.name) ts

-- The calls around the loop that fail: the write of the journal, with what it leaves, the move of a backup to the file of
-- a name, the removal of a file's temporary and of its backup, and the removal of the journal.
pub record Late : Type 0 where
  pub journal : Option (Option Bytes)
  pub put_back : String → Bool
  pub clean : String → Bool
  pub drop : String → Bool
  pub unlink_journal : Bool

-- Where an exception of the swap comes from: the write of the journal; the loop, and all has been rolled back; a call of
-- the rollback; the cleaning that follows it; the cleaning after the last file has been swapped.
pub data Where : Type 0 where
  at_journal rolled_back in_rollback in_cleanup after_swap : Where

pub record Failed : Type 0 where
  pub at : Where
  pub files : Files

-- The backup goes back if the test holds.
unfoldable pub put_back : Bool → String → Files → Files
put_back there name fs = if there then replace (bak name) name fs else fs

unfoldable pub rollback : (String → Bool) → List String → Files → Result Files Files
rollback fails [] fs = ok fs
rollback fails (n ∷ done) fs =
    let rest = rollback fails done (put_back (is_file (bak n) fs) n fs) in
    if is_file (bak n) fs && fails n then raise fs else rest

-- `unlink(missing_ok=True)` for the temporaries, or for the backups
unfoldable pub unlink_all :
    (String → Bool) → (String → String) → List String → Files → Result Files Files
unlink_all fails path [] fs = ok fs
unlink_all fails path (n ∷ names) fs =
    let rest = unlink_all fails path names (Dict.remove (path n) fs) in
    if fails n then raise fs else rest

unfoldable pub write_journal : List Target → Files → Files
write_journal ts fs = write journal_name (join_lines (names ts)) fs

abbrev pub failed_at : Where → Files → Failed
failed_at place fs = record { at = place; files = fs }

-- After the rollback: the temporaries and the journal are removed, and the exception goes on.
abbrev pub cleaned : Late → Result Files Files → Failed
cleaned late (raise fs) = failed_at in_cleanup fs
cleaned late (ok fs) =
    if late.unlink_journal
    then failed_at in_cleanup fs
    else failed_at rolled_back (Dict.remove journal_name fs)

abbrev pub undone : Late → List Target → Result Files Files → Failed
undone late ts (raise fs) = failed_at in_rollback fs
undone late ts (ok fs) = cleaned late (unlink_all late.clean new (names ts) fs)

-- After the loop: the backups and the journal are removed.
abbrev pub committed : Late → List String → Result Files Files → Result Failed (List String × Files)
committed late done (raise fs) = raise (failed_at after_swap fs)
committed late done (ok fs) =
    if late.unlink_journal
    then raise (failed_at after_swap fs)
    else ok (done, Dict.remove journal_name fs)

abbrev pub after_loop : Late → List Target → Swapped → Result Failed (List String × Files)
after_loop late ts r =
    if r.failed
    then raise (undone late ts (rollback late.put_back r.done r.files))
    else committed late r.done (unlink_all late.drop bak r.done r.files)

unfoldable pub atomic_swap : Disk → Late → List Target → Files → Result Failed (List String × Files)
atomic_swap disk late ts fs = elim late.journal [
  | some left ↦ raise (failed_at at_journal (leave_partial journal_name left fs))
  | none ↦ after_loop late ts (swap_files disk ts (write_journal ts fs))
]

-- `recover_interrupted_apply`: the names restored, or a `SandboxViolation` with the directory then.
unfoldable pub restore : String → Files → Files
restore name fs = put_back (is_regular (Dict.get (bak name) fs)) name fs

unfoldable pub recover_one : String → Files → Files
recover_one name fs = Dict.remove (new name) (restore name fs)

unfoldable pub recover_names : List String → Files → Result Files (List String × Files)
recover_names [] fs = ok ([], fs)
recover_names (n ∷ ns) fs =
    let rest = recover_names ns (recover_one n fs) in
    if not (is_safe n)
    then raise fs
    else rest >>= λ (restored, fs').
        ok (if is_regular (Dict.get (bak n) fs) then n ∷ restored else restored, fs')

abbrev pub without_journal : List String × Files → Result Files (List String × Files)
without_journal (restored, fs) = ok (restored, Dict.remove journal_name fs)

-- From the journal's text, if there is a journal.
abbrev pub recover_from : Files → Option Bytes → Result Files (List String × Files)
recover_from fs none = ok ([], fs)
recover_from fs (some text) = recover_names (words text) fs >>= without_journal

unfoldable pub recover_interrupted_apply : Files → Result Files (List String × Files)
recover_interrupted_apply fs = recover_from fs (read journal_name fs)

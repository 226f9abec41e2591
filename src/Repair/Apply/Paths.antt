-- ===== src/Repair/Apply/Paths.antt =====
-- What the steps of src/learnarken/repair/apply.py write: the directory, path by path.
use learn_arken.Prelude.{
  false, String, ◌≡◌, ◌≢◌, inl, inr, refl, sym, ◌∙◌, ap, Option, none, some, eq_iff, arith,
  Option-cases,
}
use learn_arken.Prelude.Dict
use learn_arken.Prelude.Dict.{dict_laws}
use learn_arken.Repair.Apply.{
  is_link, read, write, followed, Entry, file, symlink, Files, Bytes, bak, new, replace,
  leave_partial, bytes_of,
}

replace-eq :
    (a b : String) (fs : Files) (e : Entry)
    → Dict.get a fs ≡ some e
    → replace a b fs ≡ Dict.put b e (Dict.remove a fs)
unfolding replace
replace-eq a b fs e h = rw (h, replace) refl

replace-none : (a b : String) (fs : Files) → Dict.get a fs ≡ none → replace a b fs ≡ fs
unfolding replace
replace-none a b fs h = rw (h, replace) refl

pub get-replace_target :
    (a b : String) (fs : Files) (e : Entry)
    → Dict.get a fs ≡ some e
    → Dict.get b (replace a b fs) ≡ some e
get-replace_target a b fs e h =
    rw (replace-eq a b fs e h) (Dict.get-put_self b e (Dict.remove a fs))

pub get-remove_ne :
    (k j : String) (fs : Files) → j ≢ k → Dict.get j (Dict.remove k fs) ≡ Dict.get j fs
get-remove_ne k j fs h = ground (arith, Dict.get-remove k j fs, eq_iff k j)

pub get-put_other :
    (k j : String) (e : Entry) (fs : Files) → j ≢ k → Dict.get j (Dict.put k e fs) ≡ Dict.get j fs
get-put_other k j e fs h = Dict.get-put_ne k j e fs (λ z. h (sym z))

pub get-replace_ne :
    (a b p : String) (fs : Files) → p ≢ a → p ≢ b → Dict.get p (replace a b fs) ≡ Dict.get p fs
get-replace_ne a b p fs n m = elim (Option-cases (Dict.get a fs)) [
  | inl h ↦ rw (replace-none a b fs h) refl
  | inr (e, h) ↦
      rw (replace-eq a b fs e h) (get-put_other b p e (Dict.remove a fs) m ∙ get-remove_ne a p fs n)
]

abbrev pub IsPlain : Option Entry → Type 0
IsPlain o = is_link o ≡ false

followed-plain : (path : String) (o : Option Entry) → IsPlain o → followed path o ≡ path
followed-plain path none h = refl
followed-plain path (some (file b)) h = refl
followed-plain path (some (symlink target)) h = cc

pub read-plain :
    (path : String) (fs : Files)
    → IsPlain (Dict.get path fs)
    → read path fs ≡ bytes_of (Dict.get path fs)
unfolding read
read-plain path fs h = ap (λ q. bytes_of (Dict.get q fs)) (followed-plain path (Dict.get path fs) h)

pub write-plain :
    (path : String) (b : Bytes) (fs : Files)
    → IsPlain (Dict.get path fs)
    → write path b fs ≡ Dict.put path (file b) fs
unfolding write
write-plain path b fs h =
    ap (λ q. Dict.put q (file b) fs) (followed-plain path (Dict.get path fs) h)

pub get-write_self :
    (path : String) (b : Bytes) (fs : Files)
    → IsPlain (Dict.get path fs)
    → Dict.get path (write path b fs) ≡ some (file b)
get-write_self path b fs h =
    ap (Dict.get path) (write-plain path b fs h) ∙ Dict.get-put_self path (file b) fs

pub get-write_other :
    (path p : String) (b : Bytes) (fs : Files)
    → IsPlain (Dict.get path fs)
    → p ≢ path
    → Dict.get p (write path b fs) ≡ Dict.get p fs
get-write_other path p b fs h n =
    ap (Dict.get p) (write-plain path b fs h) ∙ get-put_other path p (file b) fs n

-- No symbolic link stands at the file, its backup or its temporary.
abbrev pub CanWrite : Files → String → Type 0
CanWrite fs n =
    IsPlain (Dict.get n fs) × IsPlain (Dict.get (bak n) fs) × IsPlain (Dict.get (new n) fs)

pub get-leave_partial :
    (path p : String) (left : Option Bytes) (fs : Files)
    → IsPlain (Dict.get path fs)
    → p ≢ path
    → Dict.get p (leave_partial path left fs) ≡ Dict.get p fs
get-leave_partial path p none fs h n = refl
get-leave_partial path p (some b) fs h n = get-write_other path p b fs h n

-- ===== src/Validation/Issue.antt =====
-- `_issue_key` of src/learnarken/validation/engine.py, by which the issues of a module are ordered.
use learn_arken.Prelude.{
  ap, ℕ, String, ◌≡◌, refl, Bool, true, false, not, Option, none, some, arith, str_le,
  if◌then◌else◌,
}
use learn_arken.Prelude.Int.{ℤ, pos, negsuc, le_ℤ, eq_ℤ, int_of}
use learn_arken.Prelude.Order.{str_le_total, str_le_trans, str_le_antisym}
use learn_arken.Package.Model.{DataModule, IssueInfo, issue_str}

abbrev pub IssueKey : Type 0
IssueKey = ℤ × String

abbrev pub raw_issue : Option IssueInfo → String
raw_issue none = ""
raw_issue (some i) = i.issue_number

abbrev pub issue_text : Option IssueInfo → String
issue_text none = ""
issue_text (some i) = issue_str i

abbrev key_from : Option ℤ → Option IssueInfo → IssueKey
key_from (some n) info = (n, issue_text info)
key_from none info = (negsuc 0, raw_issue info)

unfoldable pub issue_key : DataModule → IssueKey
issue_key dm = key_from (int_of (raw_issue dm.issue_info)) dm.issue_info

-- Python's order on pairs.
unfoldable pub key_le : IssueKey → IssueKey → Bool
key_le (a, s) (b, t) = if eq_ℤ a b then str_le s t else le_ℤ a b

pub key_le_total : (k l : IssueKey) → key_le k l ≡ false → key_le l k ≡ true
unfolding key_le
key_le_total (pos a, s) (pos b, t) h = ground (arith, str_le_total s t)
key_le_total (pos a, s) (negsuc b, t) h = refl
key_le_total (negsuc a, s) (pos b, t) h = cc
key_le_total (negsuc a, s) (negsuc b, t) h = ground (arith, str_le_total s t)

pub key_le_trans : (k l m : IssueKey) → key_le k l ≡ true → key_le l m ≡ true → key_le k m ≡ true
unfolding key_le
key_le_trans (pos a, s) (pos b, t) (pos c, u) h j = ground (arith, str_le_trans s t u)
key_le_trans (pos a, s) (pos b, t) (negsuc c, u) h j = cc
key_le_trans (pos a, s) (negsuc b, t) (z, u) h j = cc
key_le_trans (negsuc a, s) (pos b, t) (pos c, u) h j = refl
key_le_trans (negsuc a, s) (pos b, t) (negsuc c, u) h j = cc
key_le_trans (negsuc a, s) (negsuc b, t) (pos c, u) h j = refl
key_le_trans (negsuc a, s) (negsuc b, t) (negsuc c, u) h j = ground (arith, str_le_trans s t u)

abbrev pub key_lt : IssueKey → IssueKey → Bool
key_lt k l = not (key_le l k)

pub key_le_antisym : (k l : IssueKey) → key_le k l ≡ true → key_le l k ≡ true → k ≡ l
unfolding key_le
key_le_antisym (pos a, s) (pos b, t) h j = ground (arith, str_le_antisym s t)
key_le_antisym (pos a, s) (negsuc b, t) h j = cc
key_le_antisym (negsuc a, s) (pos b, t) h j = cc
key_le_antisym (negsuc a, s) (negsuc b, t) h j = ground (arith, str_le_antisym s t)

-- The module carries an issue whose number reads as `n` and which prints as `s`.
pub record IsNumbered (n : ℕ) (s : String) (dm : DataModule) : Type 0 where
  pub info : IssueInfo
  pub carries : dm.issue_info ≡ some info
  pub number : int_of info.issue_number ≡ some (pos n)
  pub prints : issue_str info ≡ s

pub issue_key-numbered :
    (n : ℕ) (s : String) (dm : DataModule) → IsNumbered n s dm → issue_key dm ≡ (pos n, s)
unfolding issue_key
issue_key-numbered n s dm h = rw (h.carries) (rw h.number (ap (λ t. (pos n, t)) h.prints))

key_from-number :
    (n : ℕ) (s : String) (o : Option ℤ) (info : Option IssueInfo)
    → key_from o info ≡ (pos n, s)
    → (o ≡ some (pos n)) × (issue_text info ≡ s)
key_from-number n s none info h = let bad : negsuc 0 ≡ pos n = ap (λ k. k.0) h in cc bad
key_from-number n s (some z) info h = (ap (λ k. some k.0) h, ap (λ k. k.1) h)

no_number : int_of "" ≡ none
unfolding int_of
no_number = refl

key_from-pos :
    (n : ℕ) (s : String) (dm : DataModule) (info : Option IssueInfo)
    → dm.issue_info ≡ info
    → key_from (int_of (raw_issue info)) info ≡ (pos n, s)
    → IsNumbered n s dm
key_from-pos n s dm none e h = cc ((key_from-number n s (int_of "") none h).0, no_number)
key_from-pos n s dm (some i) e h =
    let (number, prints) = key_from-number n s (int_of i.issue_number) (some i) h in
    record { info = i; carries = e; number = number; prints = prints }

pub IsNumbered-issue_key :
    (n : ℕ) (s : String) (dm : DataModule) → issue_key dm ≡ (pos n, s) → IsNumbered n s dm
unfolding issue_key
IsNumbered-issue_key n s dm h = key_from-pos n s dm dm.issue_info refl h

-- ===== src/Repair/Samples.antt =====
-- A package of two files, and repairs of it.
use learn_arken.Prelude.{
  is_space, false, ℕ, String, ◌⧺◌, ◌≡◌, ◌≢◌, refl, true, none, some, List, [], ◌∷◌, All, str_eq,
  Result, ok, if◌then◌else◌,
}
use learn_arken.Prelude.Dict
use learn_arken.Validation.Report.{Finding, l2_brex, error, no_step}
use learn_arken.Repair.Models.{
  apply, RiskTier, apply_eligible, EditOp, ProposedPatch, patched, from_finding,
}
use learn_arken.Repair.Journal.{join_lines, words, is_safe}
use learn_arken.Repair.Journal.Words.{words-join_lines}
use learn_arken.Repair.Apply.{
  file, Files, Bytes, bak, new, Target, Disk, Late, no_fault, at_replace, swap_files, write_journal,
  atomic_swap, recover_interrupted_apply, journal_name,
}
use learn_arken.Repair.Apply.Paths.{IsPlain, CanWrite}
use learn_arken.Repair.Apply.Run.{IsApart, IsOther, Absent, different}
use learn_arken.Repair.Apply.Atomic.{SwapAt, atomic_swap-SwapAt}
use learn_arken.Repair.Apply.Kept.{NoBackup}
use learn_arken.Repair.Apply.Recovery.{CanJournal, RecoveredAt, recover-swap_files}
use learn_arken.Repair.Commit.{verify_and_apply}
use learn_arken.Repair.Commit.Verified.{CommitAt, verify_and_apply-CommitAt}
use learn_arken.Repair.Gate.{Agent, Commit, run_repair}
use learn_arken.Repair.Gate.Approved.{GatedOutcome, NotApplied, run_repair-GatedOutcome}

abbrev package_files : Files
package_files = ("a.xml", file "old a") ∷ ("b.xml", file "old b") ∷ []

abbrev two_targets : List Target
two_targets =
    record { name = "a.xml"; original = "old a"; content = "new a" }
    ∷ record { name = "b.xml"; original = "old b"; content = "new b" }
    ∷ []

-- The second file cannot be moved into place.
abbrev fails_at_b : Disk
fails_at_b name = if str_eq name "b.xml" then at_replace else no_fault

-- No call around the loop fails, or the first backup cannot be removed at the end.
abbrev no_failure : Late
no_failure = record {
  journal = none;
  put_back = λ n. false;
  clean = λ n. false;
  drop = λ n. false;
  unlink_journal = false;
}

abbrev keeps_backup : Late
keeps_backup = record no_failure { drop = λ n. true }

abbrev always_cut : Disk
always_cut name = at_replace

two-IsApart : IsApart ("a.xml" ∷ "b.xml" ∷ [])
unfolding bak new
two-IsApart = (
  (
    (
      different "a.xml" "b.xml" refl,
      different "a.xml" "b.xml.bak" refl,
      different "a.xml" "b.xml.new" refl,
      different "b.xml" "a.xml.bak" refl,
      different "b.xml" "a.xml.new" refl,
    ),
    tt,
  ),
  (tt, tt),
)

a-IsOther : IsOther "a.xml" ("a.xml" ∷ "b.xml" ∷ [])
unfolding bak new
a-IsOther = (
  (different "a.xml" "a.xml.bak" refl, different "a.xml" "a.xml.new" refl),
  ((different "a.xml" "b.xml.bak" refl, different "a.xml" "b.xml.new" refl), tt),
)

a-ne-journal : "a.xml" ≢ journal_name
a-ne-journal = different "a.xml" journal_name refl

two-CanWrite : All (CanWrite package_files) ("a.xml" ∷ "b.xml" ∷ [])
unfolding Dict.get bak new
two-CanWrite = ((refl, refl, refl), ((refl, refl, refl), tt))

journal-IsPlain : IsPlain (Dict.get journal_name package_files)
unfolding Dict.get
journal-IsPlain = refl

journal-Absent_two : Absent journal_name ("a.xml" ∷ "b.xml" ∷ [])
journal-Absent_two =
    (different journal_name "a.xml" refl, (different journal_name "b.xml" refl, tt))

atomic_swap-SwapAt_example :
    SwapAt "a.xml" two_targets package_files
      (atomic_swap fails_at_b no_failure two_targets package_files)
atomic_swap-SwapAt_example =
    atomic_swap-SwapAt fails_at_b no_failure two_targets package_files "a.xml" two-IsApart
      journal-Absent_two journal-IsPlain two-CanWrite a-IsOther a-ne-journal

two-CanJournal : All CanJournal ("a.xml" ∷ "b.xml" ∷ [])
unfolding is_safe is_space
two-CanJournal =
    ((refl, (different "a.xml" "" refl, refl)), ((refl, (different "b.xml" "" refl, refl)), tt))

two-NoBackup : All (NoBackup package_files) ("a.xml" ∷ "b.xml" ∷ [])
unfolding Dict.get bak
two-NoBackup = (refl, (refl, tt))

recover-swap_files_example : RecoveredAt "a.xml" package_files (
    recover_interrupted_apply
      (swap_files always_cut two_targets (write_journal two_targets package_files)).files)
recover-swap_files_example =
    recover-swap_files always_cut two_targets package_files "a.xml" (λ n. tt) two-IsApart
      two-CanJournal two-NoBackup journal-IsPlain two-CanWrite a-IsOther a-ne-journal

words-join_lines_example : words (join_lines ("a.xml" ∷ "b.xml" ∷ [])) ≡ "a.xml" ∷ "b.xml" ∷ []
words-join_lines_example =
    words-join_lines ("a.xml" ∷ "b.xml" ∷ []) (two-CanJournal.0.1, (two-CanJournal.1.0.1, tt))

abbrev an_edit : EditOp
an_edit = record {
  op = "set_text";
  xpath = "//title";
  attr = none;
  value = some "Title";
  xml = none;
  position = "before";
}

abbrev appends : Bytes → List EditOp → Result String Bytes
appends b [] = ok b
appends b (e ∷ es) = ok (b ⧺ "!")

abbrev one_finding : Files → List String
one_finding fs = "BREX-001@a.xml" ∷ []

verify_and_apply-CommitAt_example :
    CommitAt appends one_finding "a.xml" package_files
      (("a.xml", an_edit ∷ []) ∷ ("b.xml", []) ∷ [])
      (verify_and_apply appends one_finding
        (λ n. no_fault)
        keeps_backup
        package_files
        (("a.xml", an_edit ∷ []) ∷ ("b.xml", []) ∷ []))
verify_and_apply-CommitAt_example =
    verify_and_apply-CommitAt appends one_finding (λ n. no_fault) keeps_backup "a.xml" package_files
      "a.xml" (an_edit ∷ []) (("b.xml", []) ∷ []) two-IsApart journal-IsPlain two-CanWrite a-IsOther
      a-ne-journal

abbrev missing_step : Finding
missing_step = record {
  rule_id = "BREX-003";
  layer = l2_brex;
  severity = error;
  file = "a.xml";
  line = none;
  path = none;
  message = no_step;
}

abbrev proposes : Agent ℕ
proposes s f t = (record (from_finding f t patched) { edits = an_edit ∷ [] }, s)

proposes-NotApplied : (s : ℕ) (f : Finding) (t : RiskTier) → NotApplied (proposes s f t).0
unfolding from_finding
proposes-NotApplied s f t = refl

abbrev commits : Commit
commits fs edits = verify_and_apply appends one_finding fails_at_b no_failure fs edits

run_repair-GatedOutcome_example :
    GatedOutcome commits
      (λ p. true)
      apply
      package_files
      (run_repair
        (λ s. s)
        proposes
        0
        commits
        (λ p. true)
        apply
        []
        (missing_step ∷ [])
        package_files)
run_repair-GatedOutcome_example =
    run_repair-GatedOutcome proposes (λ s. s) 0 commits (λ p. true) apply [] (missing_step ∷ [])
      package_files proposes-NotApplied

abbrev a_patch : ProposedPatch
a_patch = (proposes 0 missing_step apply_eligible).0

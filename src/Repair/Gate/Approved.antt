-- ===== src/Repair/Gate/Approved.antt =====
-- The apply gate of src/learnarken/repair/core.py writes only edits that a human approved, of rules whose
-- risk tier allows it.
use learn_arken.Prelude.{
  String, ◌≡◌, ◌⊎◌, inl, inr, refl, sym, ap, ◌∙◌, Bool, true, false, not, ◌&&◌, List, [], ◌∷◌, ◌++◌,
  map, filter-All, elem, str_eq, All, All-map, Result, ok, raise, arith, Bool-cases, if◌then◌else◌,
  eq_iff,
}
use mathlib.Core.List.{append_assoc, append-nil}
use learn_arken.Prelude.Dict
use learn_arken.Validation.Report.{Finding}
use learn_arken.Repair.Models.{
  RepairMode, dry_run, apply, RiskTier, apply_eligible, dry_run_only, applied, EditOp,
  ProposedPatch, risk_tier_for, is_applied,
}
use learn_arken.Repair.Apply.{Files}
use learn_arken.Repair.Commit.{ApplyError, ApplyResult, Edits}
use learn_arken.Repair.Gate.{
  is_eligible, is_patched, Commit, Approver, is_offered, decline, is_approved, or_no_edits, extend,
  collect, settle, is_refusal, Outcome, after_commit, commit_approved, run_apply_gate, hold_back,
  Agent, repair_all, run_repair,
}

-- The edits of the patches for a file, in their order.
unfoldable pub edits_for : String → List ProposedPatch → List EditOp
edits_for file [] = []
edits_for file (p ∷ ps) =
    let rest = edits_for file ps in if str_eq p.file file then p.edits ++ rest else rest

get-extend :
    (file : String) (p : ProposedPatch) (edits : Edits)
    → or_no_edits (Dict.get file (extend p edits)) ≡ (
        if str_eq p.file file
        then or_no_edits (Dict.get file edits) ++ p.edits
        else or_no_edits (Dict.get file edits))
unfolding extend
get-extend file p edits = elim (Bool-cases (str_eq p.file file)) [
  | inl y ↦
      let same : p.file ≡ file = (eq_iff p.file file).0 y in
      rw y (
        ap or_no_edits
          (Dict.get-put p.file file (or_no_edits (Dict.get p.file edits) ++ p.edits) edits)
        ∙ rw y (ap (λ f. or_no_edits (Dict.get f edits) ++ p.edits) same))
  | inr n ↦ rw n (
      ap or_no_edits
        (Dict.get-put p.file file (or_no_edits (Dict.get p.file edits) ++ p.edits) edits)
      ∙ rw n refl)
]

-- What is collected for a file from some patches is what was there and then the edits of each of the
-- patches for that file, in the order of the patches.
pub get-collect :
    (file : String) (ps : List ProposedPatch) (edits : Edits)
    → or_no_edits (Dict.get file (collect ps edits))
      ≡ or_no_edits (Dict.get file edits) ++ edits_for file ps
unfolding collect edits_for
get-collect file [] edits = sym (append-nil (or_no_edits (Dict.get file edits)))
get-collect file (p ∷ ps) edits =
    get-collect file ps (extend p edits)
    ∙ ap (λ es. es ++ edits_for file ps) (get-extend file p edits)
    ∙ moved (str_eq p.file file)
  where
    moved :
        (b : Bool)
        → (if b
              then or_no_edits (Dict.get file edits) ++ p.edits
              else or_no_edits (Dict.get file edits))
            ++ edits_for file ps
          ≡ or_no_edits (Dict.get file edits)
            ++ (if b then p.edits ++ edits_for file ps else edits_for file ps)
    moved true = append_assoc (or_no_edits (Dict.get file edits)) p.edits (edits_for file ps)
    moved false = refl

-- A patch that is applied only if it was offered and the human said yes.
abbrev pub IsGated : Approver → ProposedPatch → Type 0
IsGated approver p =
    (is_applied p.status ≡ false)
    ⊎ ((q : ProposedPatch) × (risk_tier_for q.rule_id ≡ apply_eligible)
        × (approver q ≡ true)
        × (p ≡ record q { status = applied }))

abbrev pub NotApplied : ProposedPatch → Type 0
NotApplied p = is_applied p.status ≡ false

decline-NotApplied :
    (approver : Approver) (p : ProposedPatch) → NotApplied p → NotApplied (decline approver p)
unfolding decline
decline-NotApplied approver p h = elim (Bool-cases (is_offered p && not (approver p))) [
  | inl y ↦ rw y refl
  | inr n ↦ rw n h
]

is_eligible_iff : (t : RiskTier) → is_eligible t ≡ true → t ≡ apply_eligible
is_eligible_iff apply_eligible h = refl
is_eligible_iff dry_run_only h = cc

is_approved-eq :
    (approver : Approver) (p : ProposedPatch)
    → is_approved approver p ≡ true
    → (risk_tier_for p.rule_id ≡ apply_eligible) × (approver p ≡ true)
unfolding is_approved is_offered
is_approved-eq approver p h = elim (Bool-cases (is_eligible (risk_tier_for p.rule_id))) [
  | inl y ↦ elim (Bool-cases (approver p)) [
    | inl z ↦ (is_eligible_iff (risk_tier_for p.rule_id) y, z)
    | inr n ↦ ground arith
  ]
  | inr n ↦ cc (rw n at h)
]

settle-IsGated :
    (approver : Approver) (written : List String) (p : ProposedPatch)
    → NotApplied p
    → IsGated approver (settle approver written p)
unfolding settle
settle-IsGated approver written p h = elim (Bool-cases (is_approved approver p)) [
  | inl y ↦ elim (Bool-cases (elem p.file written)) [
    | inl z ↦ let e = is_approved-eq approver p y in rw (y, z) (inr (p, e.0, e.1, refl))
    | inr n ↦ rw (y, n) (inl (decline-NotApplied approver p h))
  ]
  | inr n ↦ rw n (inl (decline-NotApplied approver p h))
]

All-image :
    {A : Type 0} {B : Type 0} (P : A → Type 0) (Q : B → Type 0) (f : A → B)
    → ((a : A) → P a → Q (f a))
    → (xs : List A) → All P xs
    → All Q (map f xs)
All-image P Q f h [] a = tt
All-image P Q f h (x ∷ xs) a = (h x a.0, All-image P Q f h xs a.1)

abbrev pub files_after : Result (ApplyError × Files) (ApplyResult × Files) → Files
files_after (ok (r, fs)) = fs
files_after (raise (e, fs)) = fs

-- What is on disk after the run: the same, or what the commit of approved edits of eligible rules left.
abbrev pub IsGatedWrite : Commit → Approver → RepairMode → Files → Files → Type 0
IsGatedWrite commit approver mode fs fs' =
    (fs' ≡ fs)
    ⊎ ((approved : List ProposedPatch) × (mode ≡ apply)
        × All (λ p. (risk_tier_for p.rule_id ≡ apply_eligible) × (approver p ≡ true)) approved
        × (files_after (commit fs (collect approved [])) ≡ fs'))

abbrev pub GatedOutcome : Commit → Approver → RepairMode → Files → Outcome → Type 0
GatedOutcome commit approver mode fs (ok (ps, fs')) =
    All (IsGated approver) ps × IsGatedWrite commit approver mode fs fs'
GatedOutcome commit approver mode fs (raise (e, fs')) = IsGatedWrite commit approver mode fs fs'

module _ (commit : Commit) (approver : Approver) where
  declined-IsGated :
      (ps : List ProposedPatch)
      → All NotApplied ps
      → All (IsGated approver) (map (decline approver) ps)
  declined-IsGated ps h =
      All-image NotApplied (IsGated approver) (decline approver)
        (λ p n. inl (decline-NotApplied approver p n)) ps h

  after_commit-GatedOutcome :
      (ps approved : List ProposedPatch) (fs : Files)
      → All NotApplied ps
      → All (λ p. (risk_tier_for p.rule_id ≡ apply_eligible) × (approver p ≡ true)) approved
      → (m : Result (ApplyError × Files) (ApplyResult × Files))
      → commit fs (collect approved []) ≡ m
      → GatedOutcome commit approver apply fs (after_commit approver ps m)
  after_commit-GatedOutcome ps approved fs h a (ok (r, fs')) e = (
    All-image NotApplied (IsGated approver) (settle approver r.written)
        (settle-IsGated approver r.written) ps h,
    inr (approved, refl, a, ap files_after e),
  )
  after_commit-GatedOutcome ps approved fs h a (raise (x, fs')) e =
      elim (Bool-cases (is_refusal x)) [
        | inl y ↦ rw y (declined-IsGated ps h, inr (approved, refl, a, ap files_after e))
        | inr n ↦ rw n (inr (approved, refl, a, ap files_after e))
      ]

  gate-GatedOutcome :
      (ps : List ProposedPatch) (fs : Files)
      → All NotApplied ps
      → (approved : List ProposedPatch) → All (λ p. is_approved approver p ≡ true) approved
      → GatedOutcome commit approver apply fs (commit_approved commit approver ps fs approved)
  gate-GatedOutcome ps fs h [] a = (declined-IsGated ps h, inl refl)
  gate-GatedOutcome ps fs h (p ∷ more) a =
      after_commit-GatedOutcome ps (p ∷ more) fs h
        (All-map (λ q. is_approved approver q ≡ true)
          (λ q. (risk_tier_for q.rule_id ≡ apply_eligible) × (approver q ≡ true))
          (is_approved-eq approver) (p ∷ more) a)
        (commit fs (collect (p ∷ more) [])) refl

hold_back-NotApplied :
    (t : RiskTier) (p : ProposedPatch) → NotApplied p → NotApplied (hold_back t p)
unfolding hold_back
hold_back-NotApplied t p h = elim (Bool-cases (not (is_eligible t) && is_patched p.status)) [
  | inl y ↦ rw y refl
  | inr n ↦ rw n h
]

module _ {S : Type 0} (agent : Agent S) where
  repair_all-NotApplied :
      ((s : S) (f : Finding) (t : RiskTier) → NotApplied (agent s f t).0)
      → (s : S) (fs : List Finding) → All NotApplied (repair_all agent s fs)
  unfolding repair_all
  repair_all-NotApplied h s [] = tt
  repair_all-NotApplied h s (f ∷ fs) =
      let t = risk_tier_for f.rule_id in
      (hold_back-NotApplied t (agent s f t).0 (h s f t), repair_all-NotApplied h (agent s f t).1 fs)

  -- The agent never reports a patch as applied. Then, in either mode and whatever the commit does: a
  -- patch comes out as applied only if its rule's tier is apply-eligible and the human approved it, and
  -- the directory is as before, or the mode is apply and it is what the commit left of the edits of
  -- patches that are all apply-eligible by their rule and approved.
  pub run_repair-GatedOutcome :
      (upper : String → String) (s : S) (commit : Commit) (approver : Approver) (mode : RepairMode)
      (only : List String) (findings : List Finding) (fs : Files)
      → ((s : S) (f : Finding) (t : RiskTier) → NotApplied (agent s f t).0)
      → GatedOutcome commit approver mode fs
          (run_repair upper agent s commit approver mode only findings fs)
  unfolding run_repair run_apply_gate
  run_repair-GatedOutcome upper s commit approver dry_run only findings fs h = (
    All-map NotApplied (IsGated approver) (λ p n. inl n) _ (repair_all-NotApplied h s _),
    inl refl,
  )
  run_repair-GatedOutcome upper s commit approver apply only findings fs h =
      gate-GatedOutcome commit approver _ fs (repair_all-NotApplied h s _) _
        (filter-All (is_approved approver) _)

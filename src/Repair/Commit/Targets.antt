-- ===== src/Repair/Commit/Targets.antt =====
-- The edited files that src/learnarken/repair/apply.py tries: their names, and the errors before the swap.
use learn_arken.Prelude.{
  some, Option, String, ◌≡◌, none, inl, inr, sym, ap, ◌∙◌, true, List, [], ◌∷◌, map, All, Result,
  ok, raise, ◌>>=◌, >>=-eq-ok, ok-injective, Bool-cases, if◌then◌else◌,
}
use learn_arken.Prelude.Dict
use learn_arken.Repair.Models.{EditOp}
use learn_arken.Repair.Journal.{is_safe}
use learn_arken.Repair.Apply.{Bytes, Files, Target, names, bytes_of}
use learn_arken.Repair.Commit.{
  ApplyError, unsafe_name, os_error, Source, Edits, validated_target, validated_targets, edit_all,
  edited_targets, or_bad_edit, or_unknown,
}

-- An error that stands before the swap.
abbrev pub IsEarly : ApplyError → Type 0
IsEarly (os_error at) = ⊥
IsEarly _ = Unit

abbrev pub IsEarlyOr : {A : Type 0} → Result ApplyError A → Type 0
IsEarlyOr (ok a) = Unit
IsEarlyOr (raise e) = IsEarly e

>>=-early :
    {A B : Type 0} (m : Result ApplyError A) (f : A → Result ApplyError B)
    → IsEarlyOr m
    → ((a : A) → IsEarlyOr (f a))
    → IsEarlyOr (m >>= f)
>>=-early (ok a) f h g = g a
>>=-early (raise e) f h g = h

or_unknown-early : (name : String) (o : Option Bytes) → IsEarlyOr (or_unknown name o)
or_unknown-early name none = tt
or_unknown-early name (some b) = tt

validated_target-early : (fs : Files) (name : String) → IsEarlyOr (validated_target fs name)
unfolding validated_target
validated_target-early fs name = elim (Bool-cases (is_safe name)) [
  | inl y ↦ rw y (or_unknown-early name (bytes_of (Dict.get name fs)))
  | inr n ↦ rw n tt
]

validated_targets-early : (fs : Files) (edits : Edits) → IsEarlyOr (validated_targets fs edits)
unfolding validated_targets
validated_targets-early fs [] = tt
validated_targets-early fs ((name, es) ∷ edits) =
    >>=-early (validated_target fs name)
      (λ b. validated_targets fs edits >>= λ ss. ok (source b ∷ ss))
      (validated_target-early fs name)
      (λ b.
        >>=-early (validated_targets fs edits) (λ ss. ok (source b ∷ ss))
          (validated_targets-early fs edits) (λ ss. tt))
  where
    source : Bytes → Source
    source b = record { name = name; original = b; edits = es }

module _ (apply_edits : Bytes → List EditOp → Result String Bytes)
    (keys : Files → List String) where
  or_bad_edit-early : (r : Result String Bytes) → IsEarlyOr (or_bad_edit apply_edits keys r)
  or_bad_edit-early (ok b) = tt
  or_bad_edit-early (raise exc) = tt

  edit_all-early : (ss : List Source) → IsEarlyOr (edit_all apply_edits keys ss)
  unfolding edit_all
  edit_all-early [] = tt
  edit_all-early (s ∷ ss) =
      >>=-early (or_bad_edit apply_edits keys (apply_edits s.original s.edits))
        (λ c. edit_all apply_edits keys ss >>= λ ts. ok (target c ∷ ts))
        (or_bad_edit-early (apply_edits s.original s.edits))
        (λ c.
          >>=-early (edit_all apply_edits keys ss) (λ ts. ok (target c ∷ ts)) (edit_all-early ss)
            (λ ts. tt))
    where
      target : Bytes → Target
      target c = record { name = s.name; original = s.original; content = c }

  pub edited_targets-early :
      (fs : Files) (edits : Edits) → IsEarlyOr (edited_targets apply_edits keys fs edits)
  unfolding edited_targets
  edited_targets-early fs edits =
      >>=-early (validated_targets fs edits) (edit_all apply_edits keys)
        (validated_targets-early fs edits) edit_all-early

  source_names : List Source → List String
  source_names ss = map (λ (s : Source). s.name) ss

  validated_targets-names :
      (fs : Files) (edits : Edits) (ss : List Source)
      → validated_targets fs edits ≡ ok ss
      → source_names ss ≡ Dict.keys edits
  unfolding validated_targets source_names
  validated_targets-names fs [] ss h = ap source_names (sym (ok-injective h))
  validated_targets-names fs ((name, es) ∷ edits) ss h =
      let (b, _, h1) =
        >>=-eq-ok (validated_target fs name)
          (λ b. validated_targets fs edits >>= λ ss. ok (source b ∷ ss)) h in
      let (rest, e, h2) = >>=-eq-ok (validated_targets fs edits) (λ ss. ok (source b ∷ ss)) h1 in
      ap source_names (sym (ok-injective h2))
      ∙ ap (λ ns. name ∷ ns) (validated_targets-names fs edits rest e)
    where
      source : Bytes → Source
      source b = record { name = name; original = b; edits = es }

  edit_all-names :
      (ss : List Source) (ts : List Target)
      → edit_all apply_edits keys ss ≡ ok ts
      → names ts ≡ source_names ss
  unfolding edit_all source_names
  edit_all-names [] ts h = ap names (sym (ok-injective h))
  edit_all-names (s ∷ ss) ts h =
      let (c, _, h1) =
        >>=-eq-ok (or_bad_edit apply_edits keys (apply_edits s.original s.edits))
          (λ c. edit_all apply_edits keys ss >>= λ ts. ok (target c ∷ ts)) h in
      let (rest, e, h2) = >>=-eq-ok (edit_all apply_edits keys ss) (λ ts. ok (target c ∷ ts)) h1 in
      ap names (sym (ok-injective h2)) ∙ ap (λ ns. s.name ∷ ns) (edit_all-names ss rest e)
    where
      target : Bytes → Target
      target c = record { name = s.name; original = s.original; content = c }

  pub edited_targets-names :
      (fs : Files) (edits : Edits) (ts : List Target)
      → edited_targets apply_edits keys fs edits ≡ ok ts
      → names ts ≡ Dict.keys edits
  unfolding edited_targets
  edited_targets-names fs edits ts h =
      let (ss, e, h1) = >>=-eq-ok (validated_targets fs edits) (edit_all apply_edits keys) h in
      edit_all-names ss ts h1 ∙ validated_targets-names fs edits ss e

  validated_target-safe :
      (fs : Files) (name : String) (b : Bytes)
      → validated_target fs name ≡ ok b
      → is_safe name ≡ true
  unfolding validated_target
  validated_target-safe fs name b h = elim (Bool-cases (is_safe name)) [
    | inl y ↦ y
    | inr n ↦ cc (
      h,
      ap
          (λ c.
            if c then or_unknown name (bytes_of (Dict.get name fs)) else raise (unsafe_name name))
          n,
    )
  ]

  validated_targets-safe :
      (fs : Files) (edits : Edits) (ss : List Source)
      → validated_targets fs edits ≡ ok ss
      → All (λ n. is_safe n ≡ true) (Dict.keys edits)
  unfolding validated_targets
  validated_targets-safe fs [] ss h = tt
  validated_targets-safe fs ((name, es) ∷ edits) ss h =
      let (b, e1, h1) =
        >>=-eq-ok (validated_target fs name)
          (λ b. validated_targets fs edits >>= λ ss. ok (source b ∷ ss)) h in
      let (rest, e, h2) = >>=-eq-ok (validated_targets fs edits) (λ ss. ok (source b ∷ ss)) h1 in
      (validated_target-safe fs name b e1, validated_targets-safe fs edits rest e)
    where
      source : Bytes → Source
      source b = record { name = name; original = b; edits = es }

  pub edited_targets-safe :
      (fs : Files) (edits : Edits) (ts : List Target)
      → edited_targets apply_edits keys fs edits ≡ ok ts
      → All (λ n. is_safe n ≡ true) (Dict.keys edits)
  unfolding edited_targets
  edited_targets-safe fs edits ts h =
      let (ss, e, h1) = >>=-eq-ok (validated_targets fs edits) (edit_all apply_edits keys) h in
      validated_targets-safe fs edits ss e

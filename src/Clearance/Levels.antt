-- ===== src/Clearance/Levels.antt =====
-- What a clearance admits (src/learnarken/clearance.py), against an order on the five labels.
use learn_arken.Prelude.{
  ℕ, String, ◌≡◌, refl, true, false, ◌&&◌, List, arith, ltb, leb, elem, str_eq, strip,
  if◌then◌else◌, is_none, ok, eq_iff, inl, inr, Bool-cases,
}
use learn_arken.Clearance.{is_known, labels_to, normalise, admissible_classifications, verdict_of}

-- The rank of a label, 0 for a text that is no label.
abbrev pub level : String → ℕ
level s =
    if str_eq s "01"
    then 1
    else if str_eq s "02"
    then 2
    else if str_eq s "03"
    then 3
    else if str_eq s "04"
    then 4
    else if str_eq s "05"
    then 5
    else 0

-- A known label is one of the five.
label_cases :
    (P : String → Type 0) (v : String)
    → is_known v ≡ true
    → P "01"
    → P "02"
    → P "03"
    → P "04"
    → P "05"
    → P v
unfolding is_known
label_cases P v known p1 p2 p3 p4 p5 = elim (Bool-cases (str_eq v "01")) [
  | inl e ↦ rw ((eq_iff v "01").0 e) p1
  | inr n1 ↦ elim (Bool-cases (str_eq v "02")) [
    | inl e ↦ rw ((eq_iff v "02").0 e) p2
    | inr n2 ↦ elim (Bool-cases (str_eq v "03")) [
      | inl e ↦ rw ((eq_iff v "03").0 e) p3
      | inr n3 ↦ elim (Bool-cases (str_eq v "04")) [
        | inl e ↦ rw ((eq_iff v "04").0 e) p4
        | inr n4 ↦ rw ((eq_iff v "05").0 (ground arith)) p5
      ]
    ]
  ]
]

abbrev Agrees : String → String → Type 0
Agrees v raw =
    is_none (verdict_of raw (labels_to v)) ≡ (ltb 0 (level raw) && leb (level raw) (level v))

level-unknown : (raw : String) → is_known raw ≡ false → level raw ≡ 0
unfolding is_known
level-unknown raw h = ground arith

Agrees-known : (v raw : String) → is_known v ≡ true → is_known raw ≡ true → Agrees v raw
unfolding verdict_of labels_to is_known
Agrees-known v raw kv kr =
    label_cases (λ v. Agrees v raw) v kv (label_cases (Agrees "01") raw kr refl refl refl refl refl)
      (label_cases (Agrees "02") raw kr refl refl refl refl refl)
      (label_cases (Agrees "03") raw kr refl refl refl refl refl)
      (label_cases (Agrees "04") raw kr refl refl refl refl refl)
      (label_cases (Agrees "05") raw kr refl refl refl refl refl)

verdict_of-unknown :
    (raw : String) (allowed : List String)
    → is_known raw ≡ false
    → is_none (verdict_of raw allowed) ≡ false
unfolding verdict_of
verdict_of-unknown raw allowed h = elim (Bool-cases (str_eq raw "")) [
  | inl e ↦ rw e
  | inr e ↦ rw (e, h)
]

agrees : (v raw : String) → is_known v ≡ true → Agrees v raw
agrees v raw kv = elim (Bool-cases (is_known raw)) [
  | inl kr ↦ Agrees-known v raw kv kr
  | inr u ↦ rw (verdict_of-unknown raw (labels_to v) u, level-unknown raw u)
]

-- The clearance that `admissible_classifications` accepts, and its result.
pub admissible_classifications-ok :
    (clearance : String) (allowed : List String)
    → admissible_classifications clearance ≡ ok allowed
    → (is_known (strip clearance) ≡ true) × (allowed ≡ labels_to (strip clearance))
unfolding admissible_classifications normalise
admissible_classifications-ok clearance allowed h = elim (Bool-cases (is_known (strip clearance))) [
  | inl k ↦ (k, ground arith)
  | inr u ↦ ground arith
]

-- Under a clearance that is accepted, a label is admissible exactly when it is a known label and does
-- not rank above the clearance.
pub verdict_of-level :
    (clearance raw : String) (allowed : List String)
    → admissible_classifications clearance ≡ ok allowed
    → is_none (verdict_of raw allowed)
      ≡ (ltb 0 (level raw) && leb (level raw) (level (strip clearance)))
verdict_of-level clearance raw allowed h =
    let (known, e) = admissible_classifications-ok clearance allowed h in
    rw e (agrees (strip clearance) raw known)

elem_unknown :
    (v raw : String) → is_known v ≡ true → is_known raw ≡ false → elem raw (labels_to v) ≡ false
unfolding is_known labels_to
elem_unknown v raw kv u =
    label_cases (λ v. elem raw (labels_to v) ≡ false) v kv (ground arith) (ground arith)
      (ground arith) (ground arith) (ground arith)

Admits : String → String → Type 0
Admits v raw = elem raw (labels_to v) ≡ (ltb 0 (level raw) && leb (level raw) (level v))

elem_known : (v raw : String) → is_known v ≡ true → is_known raw ≡ true → Admits v raw
unfolding Admits labels_to is_known
elem_known v raw kv kr =
    label_cases (λ v. Admits v raw) v kv (label_cases (Admits "01") raw kr refl refl refl refl refl)
      (label_cases (Admits "02") raw kr refl refl refl refl refl)
      (label_cases (Admits "03") raw kr refl refl refl refl refl)
      (label_cases (Admits "04") raw kr refl refl refl refl refl)
      (label_cases (Admits "05") raw kr refl refl refl refl refl)

-- The set of labels that an accepted clearance admits holds exactly the known labels that do not rank
-- above the clearance.
pub elem-admissible_classifications :
    (clearance raw : String) (allowed : List String)
    → admissible_classifications clearance ≡ ok allowed
    → elem raw allowed ≡ (ltb 0 (level raw) && leb (level raw) (level (strip clearance)))
unfolding Admits
elem-admissible_classifications clearance raw allowed h =
    let (kv, e) = admissible_classifications-ok clearance allowed h in
    elim (Bool-cases (is_known raw)) [
      | inl kr ↦ rw e (elem_known (strip clearance) raw kv kr)
      | inr u ↦ rw (e, elem_unknown (strip clearance) raw kv u, level-unknown raw u)
    ]

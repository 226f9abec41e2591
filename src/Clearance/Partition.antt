-- ===== src/Clearance/Partition.antt =====
-- `partition` of src/learnarken/clearance.py, and the guards that check its outcome later.
use learn_arken.Prelude.{
  ℕ, ◌≤◌, String, ◌≡◌, refl, sym, ◌∙◌, ap, Bool, true, false, not, ◌&&◌, Option, none, some, List,
  [], ◌∷◌, map, arith, ltb, leb, filter, strip, is_none, ok, >>=-eq-ok, ok-injective, subst,
  filter-filter, Bool-cases, inl, inr, if◌then◌else◌,
}
use learn_arken.Package.Chunk.{Chunk}
use learn_arken.Clearance.{
  Detail, Exclusion, Split, place, label, verdict, sift, partition, admissible_classifications,
}
use learn_arken.Clearance.Levels.{level, verdict_of-level}

-- The label of the chunk is known and does not rank above the clearance.
abbrev pub cleared : String → Chunk → Bool
cleared clearance chunk =
    ltb 0 (level (label chunk)) && leb (level (label chunk)) (level (strip clearance))

abbrev pub withheld_ids : List Exclusion → List String
withheld_ids xs = map (λ (e : Exclusion). e.chunk_id) xs

abbrev pub chunk_ids : List Chunk → List String
chunk_ids xs = map (λ (c : Chunk). c.chunk_id) xs

place-filter :
    (chunk : Chunk) (p : Bool) (v : Option Detail) (s : Split)
    → is_none v ≡ p
    → ((place chunk v s).0 ≡ (if p then chunk ∷ s.0 else s.0))
      × (withheld_ids (place chunk v s).1
          ≡ (if p then withheld_ids s.1 else chunk.chunk_id ∷ withheld_ids s.1))
place-filter chunk true none s h = (refl, refl)
place-filter chunk false none s h = cc
place-filter chunk true (some d) s h = cc
place-filter chunk false (some d) s h = (refl, refl)

-- What a split has kept and what it has withheld, by the test that decides.
abbrev pub SplitsBy : (Chunk → Bool) → List Chunk → Split → Type 0
SplitsBy p chunks s =
    (s.0 ≡ filter p chunks) × (withheld_ids s.1 ≡ chunk_ids (filter (λ c. not (p c)) chunks))

place-SplitsBy :
    (p : Chunk → Bool) (chunk : Chunk) (rest : List Chunk) (v : Option Detail) (s : Split)
    → is_none v ≡ p chunk
    → SplitsBy p rest s
    → SplitsBy p (chunk ∷ rest) (place chunk v s)
place-SplitsBy p chunk rest v s e h = elim (Bool-cases (p chunk)) [
  | inl y ↦
      let (a, b) = place-filter chunk true v s (e ∙ y) in
      rw y (a ∙ ap (λ t. chunk ∷ t) h.0, b ∙ h.1)
  | inr n ↦
      let (a, b) = place-filter chunk false v s (e ∙ n) in
      rw n (a ∙ h.0, b ∙ ap (λ t. chunk.chunk_id ∷ t) h.1)
]

cleared_mono : (l n w : ℕ) → n ≤ w → (ltb 0 l && leb l n) ≡ true → (ltb 0 l && leb l w) ≡ true
cleared_mono l n w h e = ground arith

module _ (clearance : String) (allowed : List String)
    (parsed : admissible_classifications clearance ≡ ok allowed) where
  pub verdict-cleared : (chunk : Chunk) → is_none (verdict chunk allowed) ≡ cleared clearance chunk
  unfolding verdict
  verdict-cleared chunk = verdict_of-level clearance (label chunk) allowed parsed

  sift-SplitsBy : (chunks : List Chunk) → SplitsBy (cleared clearance) chunks (sift allowed chunks)
  unfolding sift
  sift-SplitsBy [] = (refl, refl)
  sift-SplitsBy (chunk ∷ rest) =
      place-SplitsBy (cleared clearance) chunk rest (verdict chunk allowed) (sift allowed rest)
        (verdict-cleared chunk) (sift-SplitsBy rest)

pub partition-parsed :
    (chunks : List Chunk) (clearance : String) (s : Split)
    → partition chunks (some clearance) ≡ ok s
    → (allowed : List String) × (admissible_classifications clearance ≡ ok allowed)
unfolding partition
partition-parsed chunks clearance s h =
    let (allowed, parsed, _) = >>=-eq-ok (admissible_classifications clearance) _ h in
    (allowed, parsed)

-- With a clearance, the admitted chunks are those whose label is known and does not rank above it,
-- in the order of the corpus, and the exclusions name the others, each in its order.
pub partition-splits :
    (chunks : List Chunk) (clearance : String) (s : Split)
    → partition chunks (some clearance) ≡ ok s
    → SplitsBy (cleared clearance) chunks s
unfolding partition
partition-splits chunks clearance s h =
    let (allowed, parsed, e) = >>=-eq-ok (admissible_classifications clearance) _ h in
    subst (SplitsBy (cleared clearance) chunks) (ok-injective e)
      (sift-SplitsBy clearance allowed parsed chunks)

-- The cut does not depend on what a smaller clearance would have cut before: to partition twice, by
-- a clearance and then by one that does not rank above it, is to partition once by the second.
pub partition_narrows :
    (chunks : List Chunk) (wide narrow : String) (s t u : Split)
    → level (strip narrow) ≤ level (strip wide)
    → partition chunks (some wide) ≡ ok s
    → partition s.0 (some narrow) ≡ ok t
    → partition chunks (some narrow) ≡ ok u
    → t.0 ≡ u.0
partition_narrows chunks wide narrow s t u below hs ht hu =
    (partition-splits s.0 narrow t ht).0
    ∙ ap (filter (cleared narrow)) (partition-splits chunks wide s hs).0
    ∙ filter-filter (cleared wide) (cleared narrow) chunks
        (λ c. cleared_mono (level (label c)) (level (strip narrow)) (level (strip wide)) below)
    ∙ sym (partition-splits chunks narrow u hu).0

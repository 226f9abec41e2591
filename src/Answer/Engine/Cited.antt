-- ===== src/Answer/Engine/Cited.antt =====
-- The citations of an answer of src/learnarken/answer/engine.py: each quotes a piece of the evidence.
use mathlib.Core.List.{Memᴰ}
use Prim.Native.String.{count}
use learn_arken.Prelude.{
  String, ◌≡◌, ◌≢◌, ◌⊎◌, inl, inr, refl, sym, ap, ◌∙◌, subst, Bool, true, false, not, ◌||◌, Option,
  none, some, List, [], ◌∷◌, ◌++◌, All, All-append, str_eq, eq_iff, ltb, Bool-cases, some_injective,
}
use learn_arken.Prelude.Dict
use learn_arken.Prelude.Dict.{Dict}
use learn_arken.Package.Chunk.{Chunk}
use learn_arken.Answer.Models.{Citation}
use learn_arken.Answer.Json.{RawCitation}
use learn_arken.Answer.Engine.{
  Texts, min_quote_chars, normalize, contains, index_onto, by_id_of, is_boilerplate, is_bad_in,
  is_bad, set_default, first_quotes, cite, cite_at, citations_for,
}

index_onto-get :
    (cs : List Chunk) (by_id : Dict Chunk) (k : String) (c : Chunk)
    → Dict.get k (index_onto cs by_id) ≡ some c
    → (Dict.get k by_id ≡ some c) ⊎ (Memᴰ c cs × (c.chunk_id ≡ k))
unfolding index_onto
index_onto-get [] by_id k c h = inl h
index_onto-get (x ∷ cs) by_id k c h = elim (index_onto-get cs (Dict.put x.chunk_id x by_id) k c h) [
  | inr (m, e) ↦ inr (Memᴰ.tail m, e)
  | inl g ↦
      let found = sym (Dict.get-put x.chunk_id k x by_id) ∙ g in
      elim (Bool-cases (str_eq x.chunk_id k)) [
        | inl y ↦
            let same : x ≡ c = some_injective (rw y at found) in
            inr (
              Memᴰ.head (sym same),
              ap (λ (z : Chunk). z.chunk_id) (sym same) ∙ (eq_iff x.chunk_id k).0 y,
            )
        | inr n ↦ inl (rw n at found)
      ]
]

by_id_of-get :
    (evidence : List Chunk) (k : String) (c : Chunk)
    → Dict.get k (by_id_of evidence) ≡ some c
    → Memᴰ c evidence × (c.chunk_id ≡ k)
unfolding by_id_of Dict.get
by_id_of-get evidence k c h = elim (index_onto-get evidence [] k c h) [
  | inl g ↦ absurd (nothing g)
  | inr m ↦ m
]
  where
    nothing : Dict.get k [] ≡ some c → ⊥
    nothing g = cc

-- The citation names a chunk of the evidence and carries its module and place, and its quote is at
-- least 12 characters long and stands in the chunk, both after normalisation.
abbrev pub IsCited : Texts → List Chunk → Citation → Type 0
IsCited t evidence c =
    (chunk : Chunk) × Memᴰ chunk evidence
    × (chunk.chunk_id ≡ c.chunk_id)
    × (c.dmc ≡ chunk.dmc)
    × (c.source_path ≡ chunk.source_path)
    × (ltb (count (normalize t c.supporting_quote)) min_quote_chars ≡ false)
    × (contains (normalize t c.supporting_quote) (normalize t chunk.text) ≡ true)

module _ (t : Texts) (evidence : List Chunk) where
  abbrev pub IsGood : String × String → Type 0
  IsGood (cid, quote) =
      is_bad_in t (by_id_of evidence) quote (Dict.get cid (by_id_of evidence)) ≡ false

  put-IsGood :
      (k v : String) (seen : Dict String)
      → IsGood (k, v)
      → All IsGood seen
      → All IsGood (Dict.put k v seen)
  unfolding Dict.put
  put-IsGood k v [] h a = (h, tt)
  put-IsGood k v ((j, w) ∷ seen) h a = elim (Bool-cases (str_eq j k)) [
    | inl y ↦ rw y (subst (λ i. IsGood (i, v)) (sym ((eq_iff j k).0 y)) h, a.1)
    | inr n ↦ rw n (a.0, put-IsGood k v seen h a.1)
  ]

  default-IsGood :
      (k v : String) (o : Option String) (seen : Dict String)
      → IsGood (k, v)
      → All IsGood seen
      → All IsGood (set_default k v o seen)
  default-IsGood k v none seen h a = put-IsGood k v seen h a
  default-IsGood k v (some w) seen h a = a

  pub first_quotes-IsGood :
      (cs : List RawCitation) (seen : Dict String)
      → All (λ c. is_bad t (by_id_of evidence) c ≡ false) cs
      → All IsGood seen
      → All IsGood (first_quotes cs seen)
  unfolding first_quotes is_bad
  first_quotes-IsGood [] seen h a = a
  first_quotes-IsGood (c ∷ cs) seen h a =
      first_quotes-IsGood cs
        (set_default c.chunk_id c.supporting_quote (Dict.get c.chunk_id seen) seen) h.1
        (default-IsGood c.chunk_id c.supporting_quote (Dict.get c.chunk_id seen) seen h.0 a)

  good-tests :
      (quote : String) (chunk : Chunk)
      → is_bad_in t (by_id_of evidence) quote (some chunk) ≡ false
      → (ltb (count (normalize t quote)) min_quote_chars ≡ false)
        × (contains (normalize t quote) (normalize t chunk.text) ≡ true)
  good-tests quote chunk h =
      three (ltb (count (normalize t quote)) min_quote_chars)
        (contains (normalize t quote) (normalize t chunk.text))
        (is_boilerplate t (by_id_of evidence) quote) h
    where
      three : (a b c : Bool) → (a || not b || c) ≡ false → (a ≡ false) × (b ≡ true)
      three true b c e = cc
      three false true c e = (refl, refl)
      three false false c e = cc

  cite_at-IsCited :
      (cid quote : String) (o : Option Chunk)
      → Dict.get cid (by_id_of evidence) ≡ o
      → is_bad_in t (by_id_of evidence) quote o ≡ false
      → All (IsCited t evidence) (cite_at t cid quote o) × (cite_at t cid quote o ≢ [])
  unfolding cite
  cite_at-IsCited cid quote none e h = cc
  cite_at-IsCited cid quote (some chunk) e h =
      let (m, same) = by_id_of-get evidence cid chunk e in
      let tests = good-tests quote chunk h in
      (((chunk, m, same, refl, refl, tests.0, tests.1), tt), (λ z. cc))

  pub citations_for-IsCited :
      (seen : Dict String)
      → All IsGood seen
      → All (IsCited t evidence) (citations_for t (by_id_of evidence) seen)
  unfolding citations_for
  citations_for-IsCited [] a = tt
  citations_for-IsCited ((cid, quote) ∷ seen) a =
      All-append (IsCited t evidence) (cite_at t cid quote (Dict.get cid (by_id_of evidence)))
        (citations_for t (by_id_of evidence) seen)
        (cite_at-IsCited cid quote (Dict.get cid (by_id_of evidence)) refl a.0).0
        (citations_for-IsCited seen a.1)

  append-ne-nil : {A : Type 0} (xs ys : List A) → xs ≢ [] → xs ++ ys ≢ []
  append-ne-nil [] ys h e = h refl
  append-ne-nil (x ∷ xs) ys h e = cc

  pub citations_for-ne-nil :
      (seen : Dict String)
      → All IsGood seen
      → seen ≢ []
      → citations_for t (by_id_of evidence) seen ≢ []
  unfolding citations_for
  citations_for-ne-nil [] a h = absurd (h refl)
  citations_for-ne-nil ((cid, quote) ∷ seen) a h =
      append-ne-nil (cite_at t cid quote (Dict.get cid (by_id_of evidence)))
        (citations_for t (by_id_of evidence) seen)
        (cite_at-IsCited cid quote (Dict.get cid (by_id_of evidence)) refl a.0).1

-- ===== src/Retrieval/Corpus/Merged.antt =====
-- `_dedupe_chunks` of src/learnarken/retrieval/__init__.py: one chunk for each id, and one id for each anchor.
use mathlib.Core.List.{Memᴰ}
use learn_arken.Prelude.{
  String, ◌≡◌, refl, sym, ap, ◌∙◌, subst, Bool, true, false, not, ◌||◌, inl, inr, Bool-cases,
  some_injective, some, List, [], ◌∷◌, elem, str_eq, eq_iff, eq_refl, arith, All, All-map, All-mem,
  if◌then◌else◌, ok, >>=-eq-ok, ok-injective,
}
use learn_arken.Prelude.Dict
use learn_arken.Prelude.Dict.{Dict}
use learn_arken.Package.Chunk.{Chunk}
use learn_arken.Retrieval.Search.{ids}
use learn_arken.Retrieval.Corpus.{
  Anchors, same_anchor, get_anchor, put_anchor, set_default, in_conflict, merge, values,
  dedupe_chunks,
}

-- No id occurs twice.
abbrev pub AreDistinct : List String → Type 0
AreDistinct [] = Unit
AreDistinct (i ∷ later) = (elem i later ≡ false) × AreDistinct later

same_anchor_eq : (a b c d : String) → same_anchor a b c d ≡ true → (a ≡ c) × (b ≡ d)
same_anchor_eq a b c d h = elim (Bool-cases (str_eq a c)) [
  | inl y ↦ ((eq_iff a c).0 y, (eq_iff b d).0 (rw y at h))
  | inr n ↦ cc (rw n at h)
]

get_anchor-put_anchor :
    (dmc path id dmc' path' : String) (m : Anchors)
    → get_anchor dmc' path' (put_anchor dmc path id m)
      ≡ (if same_anchor dmc path dmc' path' then some id else get_anchor dmc' path' m)
unfolding get_anchor put_anchor
get_anchor-put_anchor dmc path id dmc' path' [] = refl
get_anchor-put_anchor dmc path id dmc' path' ((a, b, old) ∷ m) = ground (
  get_anchor-put_anchor dmc path id dmc' path' m,
  eq_iff a dmc,
  eq_iff b path,
  eq_iff a dmc',
  eq_iff b path',
  eq_iff dmc dmc',
  eq_iff path path',
  arith,
)

abbrev pub IsAnchored : Anchors → Chunk → Type 0
IsAnchored m c = get_anchor c.dmc c.source_path m ≡ some c.chunk_id

-- An entry that is not in conflict leaves what other chunks have entered.
put_anchor-IsAnchored :
    (c d : Chunk) (m : Anchors)
    → in_conflict c m ≡ false
    → IsAnchored m d
    → IsAnchored (put_anchor c.dmc c.source_path c.chunk_id m) d
put_anchor-IsAnchored c d m agrees h =
    get_anchor-put_anchor c.dmc c.source_path c.chunk_id d.dmc d.source_path m
    ∙ elim (Bool-cases (same_anchor c.dmc c.source_path d.dmc d.source_path)) [
      | inr n ↦ rw n h
      | inl y ↦
          let (x, z) = same_anchor_eq c.dmc c.source_path d.dmc d.source_path y in
          let there : get_anchor c.dmc c.source_path m ≡ some d.chunk_id = rw (x, z) h in
          let equal : str_eq d.chunk_id c.chunk_id ≡ true =
            not-eq-false (str_eq d.chunk_id c.chunk_id) (rw (there, in_conflict) at agrees) in
          rw y (ap (λ i. some i) (sym ((eq_iff d.chunk_id c.chunk_id).0 equal)))
    ]
  where
    not-eq-false : (b : Bool) → not b ≡ false → b ≡ true
    not-eq-false true e = refl
    not-eq-false false e = cc

put_anchor-own :
    (c : Chunk) (m : Anchors) → IsAnchored (put_anchor c.dmc c.source_path c.chunk_id m) c
put_anchor-own c m =
    get_anchor-put_anchor c.dmc c.source_path c.chunk_id c.dmc c.source_path m
    ∙ rw (eq_refl c.dmc, eq_refl c.source_path) refl

-- The anchors at the end: those of the chunks, and those that were there before.
merge-IsAnchored :
    (cs : List Chunk) (by_id out : Dict Chunk) (m : Anchors)
    → merge cs by_id m ≡ ok out
    → (last : Anchors) × All (IsAnchored last) cs
      × ((d : Chunk) → IsAnchored m d → IsAnchored last d)
unfolding merge
merge-IsAnchored [] by_id out m h = (m, tt, λ d e. e)
merge-IsAnchored (c ∷ cs) by_id out m h = elim (Bool-cases (in_conflict c m)) [
  | inl clash ↦ cc (rw clash at h)
  | inr agrees ↦
      let (last, anchored, kept) =
        merge-IsAnchored cs (set_default c.chunk_id c by_id) out
          (put_anchor c.dmc c.source_path c.chunk_id m) (rw agrees at h) in
      (
        last,
        (kept c (put_anchor-own c m), anchored),
        λ d e. kept d (put_anchor-IsAnchored c d m agrees e),
      )
]

-- What the dictionary of the ids holds while it grows.
record Keeps (P : Chunk → Type 0) (by_id : Dict Chunk) : Type 0 where
  distinct : AreDistinct (Dict.keys by_id)
  named : All (λ (e : String × Chunk). e.0 ≡ e.1.chunk_id) by_id
  hold : All (λ (e : String × Chunk). P e.1) by_id

elem-set_default :
    (i id : String) (c : Chunk) (m : Dict Chunk)
    → elem i (Dict.keys (set_default id c m)) ≡ (elem i (Dict.keys m) || str_eq i id)
unfolding set_default
elem-set_default i id c [] = ground arith
elem-set_default i id c ((k, d) ∷ m) =
    ground (elem-set_default i id c m, eq_iff k id, eq_iff i k, eq_iff i id, arith)

set_default-distinct :
    (id : String) (c : Chunk) (m : Dict Chunk)
    → AreDistinct (Dict.keys m)
    → AreDistinct (Dict.keys (set_default id c m))
unfolding set_default
set_default-distinct id c [] h = (refl, tt)
set_default-distinct id c ((k, d) ∷ m) h = elim (Bool-cases (str_eq k id)) [
  | inl y ↦ rw y h
  | inr n ↦ rw n (elem-set_default k id c m ∙ rw (h.0, n) refl, set_default-distinct id c m h.1)
]

set_default-All :
    (P : String × Chunk → Type 0) (id : String) (c : Chunk) (m : Dict Chunk)
    → P (id, c)
    → All P m
    → All P (set_default id c m)
unfolding set_default
set_default-All P id c [] p h = (p, tt)
set_default-All P id c ((k, d) ∷ m) p h = elim (Bool-cases (str_eq k id)) [
  | inl y ↦ rw y h
  | inr n ↦ rw n (h.0, set_default-All P id c m p h.1)
]

merge-Keeps :
    (P : Chunk → Type 0) (cs : List Chunk) (by_id out : Dict Chunk) (m : Anchors)
    → All P cs
    → Keeps P by_id
    → merge cs by_id m ≡ ok out
    → Keeps P out
      × All (λ c. elem c.chunk_id (Dict.keys out) ≡ true) cs
      × ((i : String) → elem i (Dict.keys by_id) ≡ true → elem i (Dict.keys out) ≡ true)
unfolding merge
merge-Keeps P [] by_id out m p k h =
    let same = ok-injective h in
    (
      subst (Keeps P) same k,
      tt,
      λ i e. subst (λ (z : Dict Chunk). elem i (Dict.keys z) ≡ true) same e,
    )
merge-Keeps P (c ∷ cs) by_id out m p k h = elim (Bool-cases (in_conflict c m)) [
  | inl clash ↦ cc (rw clash at h)
  | inr agrees ↦
      let next : Keeps P (set_default c.chunk_id c by_id) = record {
        distinct = set_default-distinct c.chunk_id c by_id k.distinct;
        named =
            set_default-All (λ (e : String × Chunk). e.0 ≡ e.1.chunk_id) c.chunk_id c by_id refl
              k.named;
        hold = set_default-All (λ (e : String × Chunk). P e.1) c.chunk_id c by_id p.0 k.hold;
      } in
      let (kept, found, grows) =
        merge-Keeps P cs (set_default c.chunk_id c by_id) out
          (put_anchor c.dmc c.source_path c.chunk_id m) p.1 next (rw agrees at h) in
      (
        kept,
        (
          grows c.chunk_id (
              elem-set_default c.chunk_id c.chunk_id c by_id
              ∙ rw (eq_refl c.chunk_id) (or-true (elem c.chunk_id (Dict.keys by_id)))),
          found,
        ),
        λ i e. grows i (elem-set_default i c.chunk_id c by_id ∙ rw e refl),
      )
]
  where
    or-true : (b : Bool) → (b || true) ≡ true
    or-true b = ground arith

ids-values :
    (m : Dict Chunk)
    → All (λ (e : String × Chunk). e.0 ≡ e.1.chunk_id) m
    → ids (values m) ≡ Dict.keys m
ids-values [] h = refl
ids-values ((k, c) ∷ m) h = rw (sym h.0, ids-values m h.1) refl

values-All :
    (P : Chunk → Type 0) (m : Dict Chunk) → All (λ (e : String × Chunk). P e.1) m → All P (values m)
values-All P [] h = tt
values-All P ((k, c) ∷ m) h = (h.0, values-All P m h.1)

-- One content for each anchor
abbrev pub AgreeAtAnchors : List Chunk → Type 0
AgreeAtAnchors chunks =
    All
      (λ c.
        All (λ d. c.dmc ≡ d.dmc → c.source_path ≡ d.source_path → c.chunk_id ≡ d.chunk_id) chunks)
      chunks

anchored-AgreeAtAnchors :
    (last : Anchors) (chunks : List Chunk) → All (IsAnchored last) chunks → AgreeAtAnchors chunks
anchored-AgreeAtAnchors last chunks h =
    All-map (IsAnchored last) _
      (λ c p.
        All-map (IsAnchored last)
          (λ d. c.dmc ≡ d.dmc → c.source_path ≡ d.source_path → c.chunk_id ≡ d.chunk_id)
          (λ d q x y. some_injective (sym p ∙ rw (x, y) q)) chunks h)
      chunks h

-- A merged corpus has no id twice, only chunks of the input, and the id of every chunk of the input. It is only returned
-- where any two chunks of the input with one data module and one path have one id.
pub dedupe_chunks-IsMerged :
    (chunks out : List Chunk)
    → dedupe_chunks chunks ≡ ok out
    → AreDistinct (ids out)
      × All (λ c. Memᴰ c chunks) out
      × All (λ c. elem c.chunk_id (ids out) ≡ true) chunks
      × AgreeAtAnchors chunks
unfolding dedupe_chunks
dedupe_chunks-IsMerged chunks out h =
    let (by_id, merged, e) = >>=-eq-ok (merge chunks [] []) _ h in
    let (last, anchored, rest) = merge-IsAnchored chunks [] by_id [] merged in
    let Member : Chunk → Type 0 = λ c. Memᴰ c chunks in
    let (kept, found, grows) =
      merge-Keeps Member chunks [] by_id [] (All-mem chunks)
        (record { distinct = tt; named = tt; hold = tt }) merged in
    let named = sym (ids-values by_id kept.named) ∙ ap ids (ok-injective e) in
    (
      subst AreDistinct named kept.distinct,
      subst (All Member) (ok-injective e) (values-All Member by_id kept.hold),
      subst (λ (z : List String). All (λ c. elem c.chunk_id z ≡ true) chunks) named found,
      anchored-AgreeAtAnchors last chunks anchored,
    )

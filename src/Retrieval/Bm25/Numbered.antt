-- ===== src/Retrieval/Bm25/Numbered.antt =====
-- `BM25Index.search` of src/learnarken/retrieval/bm25.py, whatever the scores are: where its hits come from.
use learn_arken.Prelude.{
  ℕ, zero, suc, ◌+◌, ◌≤◌, String, ◌≡◌, refl, sym, ap, ◌∙◌, subst, inl, inr, Bool-cases,
  Option-cases, some_injective, some, List, [], ◌∷◌, ◌++◌, map, length, leb, arith, All, All-append,
  length-append, ok, >>=-eq-ok, ok-injective,
}
use learn_arken.Package.Chunk.{Chunk}
use learn_arken.Retrieval.Tokens.{Token, tokenize, overlaps}
use learn_arken.Retrieval.Bm25.{Engine, ScoredChunk, nth, item, token_sets, ranked, collect, search}

abbrev pub upto : ℕ → ℕ → List ℕ
upto start zero = []
upto start (suc n) = start ∷ upto (suc start) n

upto-snoc : (start n : ℕ) → upto start (n + 1) ≡ upto start n ++ (start + n) ∷ []
upto-snoc start zero = ap (λ (z : ℕ). z ∷ []) (omega arith)
upto-snoc start (suc n) =
    let e : suc n + 1 ≡ suc (n + 1) = omega arith in
    let f : suc start + n ≡ start + suc n = omega arith in
    rw e (
      ap (λ (z : List ℕ). start ∷ z)
        (upto-snoc (suc start) n ∙ ap (λ (z : ℕ). upto (suc start) n ++ z ∷ []) f))

All-nth {ℓ} :
    {A : Type ℓ} (P : A → Type 0) (i : ℕ) (xs : List A) (x : A) → All P xs → nth i xs ≡ some x → P x
unfolding nth
All-nth P i [] x h e = cc
All-nth P zero (y ∷ ys) x h e = subst P (some_injective e) h.0
All-nth P (suc i) (y ∷ ys) x h e = All-nth P i ys x h.1 e

item-nth {ℓ} : {A : Type ℓ} (i : ℕ) (xs : List A) (x : A) → item i xs ≡ ok x → nth i xs ≡ some x
item-nth i xs x h = elim (Option-cases (nth i xs)) [
  | inl n ↦ cc (rw (n, item) at h)
  | inr (y, e) ↦ e ∙ ap (λ z. some z) (ok-injective (rw (e, item) at h))
]

module _ {Score : Type 0} where
  abbrev pub ranks : List (ScoredChunk Score) → List ℕ
  ranks hits = map (λ (h : ScoredChunk Score). h.rank) hits

  -- At most `k` hits, numbered from 1, each on a chunk with the property.
  pub record IsHitList (P : Chunk → Type 0) (k : ℕ) (hits : List (ScoredChunk Score)) : Type 0 where
    pub chunks_hold : All (λ (h : ScoredChunk Score). P h.chunk) hits
    pub in_order : ranks hits ≡ upto 1 (length hits)
    pub at_most : length hits ≤ k

  ranks-append :
      (front back : List (ScoredChunk Score)) → ranks (front ++ back) ≡ ranks front ++ ranks back
  ranks-append [] back = refl
  ranks-append (h ∷ front) back = ap (λ (z : List ℕ). h.rank ∷ z) (ranks-append front back)

  IsHitList-snoc :
      (P : Chunk → Type 0) (k : ℕ) (out : List (ScoredChunk Score)) (s : Score) (c : Chunk)
      → P c
      → length out + 1 ≤ k
      → IsHitList P k out
      → IsHitList P k (out ++ record { rank = length out + 1; score = s; chunk = c } ∷ [])
  IsHitList-snoc P k out s c p room h =
      let last : ScoredChunk Score = record { rank = length out + 1; score = s; chunk = c } in
      let long : length (out ++ last ∷ []) ≡ length out + 1 = length-append out (last ∷ []) in
      let count : length out + 1 ≡ 1 + length out = omega arith in
      record {
        chunks_hold =
            All-append (λ (h : ScoredChunk Score). P h.chunk) out (last ∷ []) h.chunks_hold (p, tt);
        in_order =
            ranks-append out (last ∷ [])
            ∙ ap (λ (z : List ℕ). z ++ (length out + 1) ∷ []) h.in_order
            ∙ ap (λ (z : ℕ). upto 1 (length out) ++ z ∷ []) count
            ∙ sym (upto-snoc 1 (length out))
            ∙ ap (upto 1) (sym long);
        at_most = omega (arith, long, room);
      }

module _ {Score : Type 0} (engine : Engine Score) (P : Chunk → Type 0) (k : ℕ) (query : List Token)
    (sets : List (List Token)) (chunks : List Chunk) (known : All P chunks) where
  collect-IsHitList :
      (out : List (ScoredChunk Score)) (places : List (ℕ × Score)) (hits : List (ScoredChunk Score))
      → length out + 1 ≤ k
      → IsHitList P k out
      → collect engine k query sets chunks out places ≡ ok hits
      → IsHitList P k hits
  unfolding collect
  collect-IsHitList out [] hits room h e = subst (IsHitList P k) (ok-injective e) h
  collect-IsHitList out ((i, s) ∷ places) hits room h e =
      let (tokens, t, e1) = >>=-eq-ok (item i sets) _ e in
      elim (Bool-cases (overlaps query tokens)) [
        | inr apart ↦ collect-IsHitList out places hits room h (rw apart at e1)
        | inl met ↦
            let (c, found, e2) = >>=-eq-ok (item i chunks) _ (rw met at e1) in
            let grown =
              out ++ record { rank = length out + 1; score = engine.rounded s; chunk = c } ∷ [] in
            let more =
              IsHitList-snoc P k out (engine.rounded s) c
                (All-nth P i chunks c known (item-nth i chunks c found)) room h in
            elim (Bool-cases (leb k (length grown))) [
              | inl full ↦ subst (IsHitList P k) (ok-injective (rw full at e2)) more
              | inr free ↦ collect-IsHitList grown places hits (ground arith) more (rw free at e2)
            ]
      ]

pub search-IsHitList :
    {Score : Type 0} (engine : Engine Score) (P : Chunk → Type 0) (chunks : List Chunk)
    (query : String) (k : ℕ) (hits : List (ScoredChunk Score))
    → All P chunks
    → search engine chunks query k ≡ ok hits
    → IsHitList P k hits
unfolding search
search-IsHitList {Score = Score} engine P [] query k hits known e =
    subst (IsHitList {Score = Score} P k) (ok-injective e)
      (record { chunks_hold = tt; in_order = refl; at_most = omega arith })
search-IsHitList {Score = Score} engine P (c ∷ cs) query zero hits known e =
    subst (IsHitList {Score = Score} P zero) (ok-injective e)
      (record { chunks_hold = tt; in_order = refl; at_most = omega arith })
search-IsHitList engine P (c ∷ cs) query (suc k) hits known e =
    collect-IsHitList engine P (suc k) (tokenize query) (token_sets (c ∷ cs)) (c ∷ cs) known []
      (ranked engine (engine.get_scores (token_sets (c ∷ cs)) (tokenize query))) hits (omega arith)
      (record { chunks_hold = tt; in_order = refl; at_most = omega arith }) e

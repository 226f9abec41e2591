-- ===== src/Gaps/Refusal/Routed.antt =====
-- src/learnarken/refusal.py names an owner only for a gap that the question names.
use mathlib.Core.List.{Memᴰ}
use learn_arken.Prelude.{
  String, ◌≡◌, ◌⊎◌, inl, inr, refl, sym, ap, ◌∙◌, subst, Option, none, some, List, [], ◌∷◌, map,
  str_eq, eq_iff, Bool-cases, Option-cases, some_injective, Result, ok, raise,
}
use learn_arken.Prelude.Dict
use learn_arken.Prelude.Dict.{Dict}
use learn_arken.Gaps.{Gap, GapReport, admitted_gaps}
use learn_arken.Gaps.Refusal.{
  RefusalAction, index_gaps, first_gap, not_found, named_pre_admission, route_gap, route_mentioned,
  route,
}

module _ (upper : String → String) where
  index_gaps-get :
      (gs : List Gap) (d : Dict Gap) (k : String) (g : Gap)
      → Dict.get k (index_gaps upper gs d) ≡ some g
      → (Dict.get k d ≡ some g) ⊎ (Memᴰ g gs × (upper g.signature ≡ k))
  unfolding index_gaps
  index_gaps-get [] d k g h = inl h
  index_gaps-get (x ∷ gs) d k g h =
      elim (index_gaps-get gs (Dict.put (upper x.signature) x d) k g h) [
        | inr (m, e) ↦ inr (Memᴰ.tail m, e)
        | inl put_there ↦
            let found = sym (Dict.get-put (upper x.signature) k x d) ∙ put_there in
            elim (Bool-cases (str_eq (upper x.signature) k)) [
              | inl y ↦
                  let same : x ≡ g = some_injective (rw y at found) in
                  inr (
                    Memᴰ.head (sym same),
                    ap (λ (z : Gap). upper z.signature) (sym same)
                        ∙ (eq_iff (upper x.signature) k).0 y,
                  )
              | inr n ↦ inl (rw n at found)
            ]
      ]

  first_gap-get :
      (d : Dict Gap) (cs : List String) (g : Gap)
      → first_gap upper d cs ≡ some g
      → (c : String) × Memᴰ c cs × (Dict.get c d ≡ some g)
  unfolding first_gap
  first_gap-get d [] g h = cc
  first_gap-get d (c ∷ cs) g h = elim (Option-cases (Dict.get c d)) [
    | inr (x, e) ↦ (c, Memᴰ.head refl, e ∙ (rw (e, first_gap) at h))
    | inl e ↦ let (b, m, f) = first_gap-get d cs g (rw (e, first_gap) at h) in (b, Memᴰ.tail m, f)
  ]

  -- No owner and no gap, or the owner and the signature of an admitted gap that is named.
  abbrev pub IsRouted : List String → Option (Result String GapReport) → RefusalAction → Type 0
  IsRouted mentioned (some (ok r)) a =
      ((a.owner ≡ none) × (a.gap_signature ≡ none))
      ⊎ ((g : Gap) × Memᴰ g (admitted_gaps r)
          × Memᴰ (upper g.signature) mentioned
          × (a.owner ≡ g.owner)
          × (a.gap_signature ≡ some g.signature))
  IsRouted mentioned (some (raise exc)) a = (a.owner ≡ none) × (a.gap_signature ≡ none)
  IsRouted mentioned none a = (a.owner ≡ none) × (a.gap_signature ≡ none)

  not_found-IsRouted :
      (gate first : String) (mentioned found : List String) (r : GapReport)
      → IsRouted mentioned (some (ok r)) (not_found upper gate first found)
  not_found-IsRouted gate first mentioned [] r = inl (refl, refl)
  not_found-IsRouted gate first mentioned (s ∷ rest) r = inl (refl, refl)

  route_gap-IsRouted :
      (gate first : String) (mentioned : List String) (r : GapReport) (o : Option Gap)
      → first_gap upper (index_gaps upper (admitted_gaps r) []) mentioned ≡ o
      → IsRouted mentioned (some (ok r)) (route_gap upper gate first mentioned r o)
  unfolding Dict.get
  route_gap-IsRouted gate first mentioned r none h =
      not_found-IsRouted gate first mentioned (named_pre_admission upper r mentioned) r
  route_gap-IsRouted gate first mentioned r (some g) h =
      let (c, m, e) = first_gap-get (index_gaps upper (admitted_gaps r) []) mentioned g h in
      elim (index_gaps-get (admitted_gaps r) [] c g e) [
        | inl nothing ↦ absurd (cc nothing)
        | inr (in_report, same) ↦
            inr (g, in_report, subst (λ x. Memᴰ x mentioned) (sym same) m, refl, refl)
      ]

  mentioned-IsRouted :
      (gate : String) (collected : Option (Result String GapReport)) (mentioned : List String)
      → IsRouted mentioned collected (route_mentioned upper gate collected mentioned)
  mentioned-IsRouted gate none [] = (refl, refl)
  mentioned-IsRouted gate (some (raise e)) [] = (refl, refl)
  mentioned-IsRouted gate (some (ok r)) [] = inl (refl, refl)
  mentioned-IsRouted gate none (c ∷ cs) = (refl, refl)
  mentioned-IsRouted gate (some (raise e)) (c ∷ cs) = (refl, refl)
  mentioned-IsRouted gate (some (ok r)) (c ∷ cs) = route_gap-IsRouted gate c (c ∷ cs) r _ refl

  -- A refusal carries an owner or a gap only if the gaps could be collected and one of the admitted
  -- packages' gaps has a signature, in upper case, that is a code which the question names; owner and
  -- signature are then those of that gap.
  pub route-IsRouted :
      (mentions : String → List String) (question gate : String)
      (collected : Option (Result String GapReport))
      → IsRouted
          (map upper (mentions question))
          collected
          (route upper mentions question gate collected)
  unfolding route
  route-IsRouted mentions question gate collected =
      mentioned-IsRouted gate collected (map upper (mentions question))

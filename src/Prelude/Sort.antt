-- ===== src/Prelude/Sort.antt =====
-- Python's `sorted`: a stable sort, here by insertion, of a list by a Boolean order.
use Prim.Native.Nat.{suc}
use mathlib.Core.Path.{◌≡◌, refl, ap, ◌∙◌}
use mathlib.Core.Bool.{Bool, true, false}
use mathlib.Core.Logic.{inl, inr}
use mathlib.Core.List.{List, [], ◌∷◌, Perm}
use mathlib.Core.List.Perm
use learn_arken.Prelude.Tests.{if◌then◌else◌, Bool-cases}
use learn_arken.Prelude.Lists.{All, length}

-- `le a b`: `a` may stand before `b`. Equal keys keep their order.
module _ {ℓ} {A : Type ℓ} (le : A → A → Bool) where
  unfoldable pub insert : A → List A → List A
  insert a [] = a ∷ []
  insert a (x ∷ xs) = if le a x then a ∷ x ∷ xs else x ∷ insert a xs

  unfoldable pub sort : List A → List A
  unfolding insert
  sort [] = []
  sort (x ∷ xs) = insert x (sort xs)

  abbrev pub IsSorted : List A → Type 0
  IsSorted [] = Unit
  IsSorted (x ∷ []) = Unit
  IsSorted (x ∷ y ∷ r) = (le x y ≡ true) × IsSorted (y ∷ r)

  pub insert-perm : (a : A) (xs : List A) → Perm (insert a xs) (a ∷ xs)
  unfolding insert
  insert-perm a [] = Perm.refl _
  insert-perm a (x ∷ xs) = elim (Bool-cases (le a x)) [
    | inl e ↦ rw e (Perm.refl _)
    | inr e ↦ rw e (Perm.trans (Perm.cons x (insert-perm a xs)) (Perm.swap _ _ _))
  ]

  pub sort-perm : (xs : List A) → Perm (sort xs) xs
  unfolding sort
  sort-perm [] = Perm.refl _
  sort-perm (x ∷ xs) = Perm.trans (insert-perm x (sort xs)) (Perm.cons x (sort-perm xs))

  pub All-insert {κ} : (P : A → Type κ) (a : A) (xs : List A) → P a → All P xs → All P (insert a xs)
  unfolding insert
  All-insert P a [] pa h = (pa, tt)
  All-insert P a (x ∷ xs) pa h = elim (Bool-cases (le a x)) [
    | inl e ↦ rw e (pa, h)
    | inr e ↦ rw e (h.0, All-insert P a xs pa h.1)
  ]

  pub All-sort {κ} : (P : A → Type κ) (xs : List A) → All P xs → All P (sort xs)
  unfolding sort
  All-sort P [] h = tt
  All-sort P (x ∷ xs) h = All-insert P x (sort xs) h.0 (All-sort P xs h.1)

  pub All-insert_inv {κ} :
      (P : A → Type κ) (a : A) (xs : List A) → All P (insert a xs) → P a × All P xs
  unfolding insert
  All-insert_inv P a [] h = (h.0, tt)
  All-insert_inv P a (x ∷ xs) h = elim (Bool-cases (le a x)) [
    | inl e ↦ rw e at h
    | inr e ↦
        let (px, rest) : P x × All P (insert a xs) = rw e at h in
        let (pa, pxs) = All-insert_inv P a xs rest in (pa, (px, pxs))
  ]

  pub All-sort_inv {κ} : (P : A → Type κ) (xs : List A) → All P (sort xs) → All P xs
  unfolding sort
  All-sort_inv P [] h = tt
  All-sort_inv P (x ∷ xs) h =
      let (px, rest) = All-insert_inv P x (sort xs) h in (px, All-sort_inv P xs rest)

  length-insert : (a : A) (xs : List A) → length (insert a xs) ≡ suc (length xs)
  unfolding insert
  length-insert a [] = refl
  length-insert a (x ∷ xs) = elim (Bool-cases (le a x)) [
    | inl e ↦ rw e refl
    | inr e ↦ rw e (ap suc (length-insert a xs))
  ]

  pub length-sort : (xs : List A) → length (sort xs) ≡ length xs
  unfolding sort
  length-sort [] = refl
  length-sort (x ∷ xs) = length-insert x (sort xs) ∙ ap suc (length-sort xs)

  module _ (total : (a b : A) → le a b ≡ false → le b a ≡ true) where
    insert-IsSorted : (a : A) (xs : List A) → IsSorted xs → IsSorted (insert a xs)
    unfolding insert
    insert-IsSorted a [] h = tt
    insert-IsSorted a (x ∷ []) h = elim (Bool-cases (le a x)) [
      | inl e ↦ rw e (e, tt)
      | inr e ↦ rw e (total a x e, tt)
    ]
    insert-IsSorted a (x ∷ y ∷ r) h = elim (Bool-cases (le a x)) [
      | inl e ↦ rw e (e, h)
      | inr e ↦ rw e (elim (Bool-cases (le a y)) [
        | inl e' ↦ rw e' (total a x e, (e', h.1))
        | inr e' ↦ let ih = insert-IsSorted a (y ∷ r) h.1 in rw e' (h.0, rw e' at ih)
      ])
    ]

    pub sort-IsSorted : (xs : List A) → IsSorted (sort xs)
    unfolding sort
    sort-IsSorted [] = tt
    sort-IsSorted (x ∷ xs) = insert-IsSorted x (sort xs) (sort-IsSorted xs)

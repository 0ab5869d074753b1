-- ===== src/Base/Sort.antt =====
-- slices.SortFunc, as a stable insertion sort by a strict order.
use mathlib.Core.Path.{◌≡◌}
use mathlib.Core.Bool.{Bool, true, false}
use mathlib.Core.List.{List, [], ◌∷◌, Perm}
use mathlib.Core.List.Perm
use bb_action_router.Base.Tests.{if◌then◌else◌, Bool-cases}
use bb_action_router.Base.Lists.{All, All-map}
use mathlib.Core.Logic.{inl, inr}

module _ {ℓ} {A : Type ℓ} (lt : A → A → Bool) where
  unfoldable pub insert_by : A → List A → List A
  insert_by x [] = x ∷ []
  insert_by x (y ∷ ys) = let rest = insert_by x ys in if lt y x then y ∷ rest else x ∷ y ∷ ys

  unfoldable pub sort_by : List A → List A
  unfolding insert_by
  sort_by [] = []
  sort_by (x ∷ xs) = insert_by x (sort_by xs)

  -- Nothing later in the list comes before something earlier.
  abbrev pub IsOrdered : List A → Type 0
  IsOrdered [] = Unit
  IsOrdered (x ∷ xs) = All (λ y. lt y x ≡ false) xs × IsOrdered xs

  pub record OrderingLaws : Type ℓ where
    pub asym : (x y : A) → lt x y ≡ true → lt y x ≡ false
    pub neg_trans : (x y z : A) → lt x y ≡ false → lt y z ≡ false → lt x z ≡ false

  insert_by-perm : (x : A) (xs : List A) → Perm (insert_by x xs) (x ∷ xs)
  unfolding insert_by
  insert_by-perm x [] = Perm.refl _
  insert_by-perm x (y ∷ ys) = elim (Bool-cases (lt y x)) [
    | inl e ↦ rw e (Perm.trans (Perm.cons y (insert_by-perm x ys)) (Perm.swap x y ys))
    | inr e ↦ rw e (Perm.refl _)
  ]

  pub sort_by-perm : (xs : List A) → Perm (sort_by xs) xs
  unfolding sort_by
  sort_by-perm [] = Perm.refl _
  sort_by-perm (x ∷ xs) = Perm.trans (insert_by-perm x (sort_by xs)) (Perm.cons x (sort_by-perm xs))

  All-insert_by {κ} :
      (P : A → Type κ) (x : A) (xs : List A) → P x → All P xs → All P (insert_by x xs)
  unfolding insert_by
  All-insert_by P x [] p h = (p, tt)
  All-insert_by P x (y ∷ ys) p h = elim (Bool-cases (lt y x)) [
    | inl e ↦ rw e (h.0, All-insert_by P x ys p h.1)
    | inr e ↦ rw e (p, h)
  ]

  insert_by-IsOrdered :
      OrderingLaws → (x : A) (xs : List A) → IsOrdered xs → IsOrdered (insert_by x xs)
  unfolding insert_by
  insert_by-IsOrdered laws x [] h = (tt, tt)
  insert_by-IsOrdered laws x (y ∷ ys) h = elim (Bool-cases (lt y x)) [
    | inl e ↦ rw e (
      All-insert_by (λ z. lt z y ≡ false) x ys (laws.asym y x e) h.0,
      insert_by-IsOrdered laws x ys h.1,
    )
    | inr e ↦ rw e ((e, All-map (λ z p. laws.neg_trans z y x p e) ys h.0), h)
  ]

  pub sort_by-IsOrdered : OrderingLaws → (xs : List A) → IsOrdered (sort_by xs)
  unfolding sort_by
  sort_by-IsOrdered laws [] = tt
  sort_by-IsOrdered laws (x ∷ xs) =
      insert_by-IsOrdered laws x (sort_by xs) (sort_by-IsOrdered laws xs)

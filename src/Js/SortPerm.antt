-- ===== src/Js/SortPerm.antt =====
-- Sorting keeps the elements: the sorted list is a permutation of the list.
use mathlib.Core.List.{Perm}
use mathlib.Core.List.Perm
use quiteline.Base.{Bool, List, [], ◌∷◌, Bool-cases, inl, inr}
use quiteline.Js.Sort.{place, sort}

module _ {ℓ} {A : Type ℓ} (gt : A → A → Bool) where
  place-Perm : (x : A) (xs : List A) → Perm (place gt x xs) (x ∷ xs)
  unfolding place
  place-Perm x [] = Perm.rfl
  place-Perm x (y ∷ ys) = elim (Bool-cases (gt x y)) [
    | inl e ↦ rw e (Perm.trans (Perm.cons y (place-Perm x ys)) (Perm.swap x y ys))
    | inr e ↦ rw e Perm.rfl
  ]

  pub sort-Perm : (xs : List A) → Perm (sort gt xs) xs
  unfolding sort
  sort-Perm [] = Perm.rfl
  sort-Perm (x ∷ xs) = Perm.trans (place-Perm x (sort gt xs)) (Perm.cons x (sort-Perm xs))

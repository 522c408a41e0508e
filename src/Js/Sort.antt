-- ===== src/Js/Sort.antt =====
-- `Array.prototype.sort` with a comparator, a stable sort: `gt x y` says that the comparator is
-- positive, so that `x` has to stand after `y`. (A comparator's NaN counts as 0.)
use quiteline.Base.{
  ◌≡◌, Bool, true, false, List, [], ◌∷◌, Option, if◌then◌else◌, All, Bool-cases, inl, inr, ℤ,
}
use quiteline.Js.Number.{num_gt, IsNum, num_gt_asym, num_gt_chain}

module _ {ℓ} {A : Type ℓ} (gt : A → A → Bool) where
  unfoldable pub place : A → List A → List A
  place x [] = x ∷ []
  place x (y ∷ ys) = if gt x y then y ∷ place x ys else x ∷ y ∷ ys

  unfoldable pub sort : List A → List A
  unfolding place
  sort [] = []
  sort (x ∷ xs) = place x (sort xs)

  -- No element has to stand after one that stands later.
  abbrev pub InOrder : List A → Type 0
  InOrder [] = Unit
  InOrder (x ∷ xs) = All (λ y. gt x y ≡ false) xs × InOrder xs

module _ {ℓ κ} {A : Type ℓ} (gt : A → A → Bool) (P : A → Type κ) where
  pub place-All : (x : A) (xs : List A) → P x → All P xs → All P (place gt x xs)
  unfolding place
  place-All x [] p h = (p, tt)
  place-All x (y ∷ ys) p h = elim (Bool-cases (gt x y)) [
    | inl e ↦ rw e (h.0, place-All x ys p h.1)
    | inr e ↦ rw e (p, h)
  ]

  pub sort-All : (xs : List A) → All P xs → All P (sort gt xs)
  unfolding sort
  sort-All [] h = tt
  sort-All (x ∷ xs) h = place-All x (sort gt xs) h.0 (sort-All xs h.1)

-- On elements with the property `P` the comparator is a weak order.
module _ {ℓ κ} {A : Type ℓ} (gt : A → A → Bool) (P : A → Type κ)
    (asym : (x y : A) → P x → P y → gt x y ≡ true → gt y x ≡ false)
    (chain : (x y z : A) → P x → P y → P z → gt x y ≡ false → gt y z ≡ false → gt x z ≡ false) where
  below-All :
      (x y : A) (zs : List A)
      → P x
      → P y
      → All P zs
      → gt x y ≡ false
      → All (λ z. gt y z ≡ false) zs
      → All (λ z. gt x z ≡ false) zs
  below-All x y [] p q r e h = tt
  below-All x y (z ∷ zs) p q r e h = (chain x y z p q r.0 e h.0, below-All x y zs p q r.1 e h.1)

  place-InOrder :
      (x : A) (xs : List A) → P x → All P xs → InOrder gt xs → InOrder gt (place gt x xs)
  unfolding place
  place-InOrder x [] p q h = (tt, tt)
  place-InOrder x (y ∷ ys) p q h = elim (Bool-cases (gt x y)) [
    | inl e ↦ rw e (
      place-All gt (λ z. gt y z ≡ false) x ys (asym x y p q.0 e) h.0,
      place-InOrder x ys p q.1 h.1,
    )
    | inr e ↦ rw e ((e, below-All x y ys p q.0 q.1 e h.0), h)
  ]

  pub sort-InOrder : (xs : List A) → All P xs → InOrder gt (sort gt xs)
  unfolding sort
  sort-InOrder [] h = tt
  sort-InOrder (x ∷ xs) h =
      place-InOrder x (sort gt xs) h.0 (sort-All gt P xs h.1) (sort-InOrder xs h.1)

-- The comparators of the code: `Date.parse(a) - Date.parse(b)`, and the same with the two swapped.
module _ {ℓ} {A : Type ℓ} (key : A → Option ℤ) where
  abbrev pub later : A → A → Bool
  later a b = num_gt (key a) (key b)

  abbrev pub earlier : A → A → Bool
  earlier a b = num_gt (key b) (key a)

  pub sort-later-InOrder :
      (xs : List A) → All (λ x. IsNum (key x)) xs → InOrder later (sort later xs)
  sort-later-InOrder =
      sort-InOrder later (λ x. IsNum (key x)) (λ x y _ _ h. num_gt_asym (key x) (key y) h)
        (λ x y z p q r h k. num_gt_chain (key x) (key y) (key z) p q r h k)

  pub sort-earlier-InOrder :
      (xs : List A) → All (λ x. IsNum (key x)) xs → InOrder earlier (sort earlier xs)
  sort-earlier-InOrder =
      sort-InOrder earlier (λ x. IsNum (key x)) (λ x y _ _ h. num_gt_asym (key y) (key x) h)
        (λ x y z p q r h k. num_gt_chain (key z) (key y) (key x) r q p k h)

-- ===== src/ById/Union.antt =====
-- A filling loop that sets every entry: the union of two lists, in which the later one wins.
use quiteline.Base.{
  ◌≡◌, refl, ◌∙◌, ap, subst, Bool, true, false, List, [], ◌∷◌, ◌++◌, Option, none, some, Str,
  str_eq, str_eq_iff, if◌then◌else◌, All, inl, inr, Bool-cases,
}
use quiteline.ById.{find, HasDistinctIds, choose, merged, find-merged}

-- The test of such a loop.
abbrev pub always {ℓ} : {A : Type ℓ} → A → Option A → Bool
always x o = true

-- The first of two optional values that is there.
abbrev pub first_of_two {ℓ} : {A : Type ℓ} → Option A → Option A → Option A
first_of_two none d = d
first_of_two (some a) d = some a

first_of_two-none {ℓ} : {A : Type ℓ} (o : Option A) → first_of_two o none ≡ o
first_of_two-none none = refl
first_of_two-none (some a) = refl

module _ {ℓ} {A : Type ℓ} (id : A → Str) where
  choose-always-absent :
      (k : Str) (xs : List A) (o : Option A)
      → All (λ y. str_eq (id y) k ≡ false) xs
      → choose id always k xs o ≡ o
  unfolding choose
  choose-always-absent k [] o h = refl
  choose-always-absent k (x ∷ xs) o h = rw h.0 (choose-always-absent k xs o h.1)

  pub choose-always-find :
      (k : Str) (xs : List A) (o : Option A)
      → HasDistinctIds id xs
      → choose id always k xs o ≡ first_of_two (find id k xs) o
  unfolding choose find
  choose-always-find k [] o h = refl
  choose-always-find k (x ∷ xs) o h = elim (Bool-cases (str_eq (id x) k)) [
    | inl e ↦ rw e (
        choose-always-absent k xs (some x)
          (subst (λ j. All (λ y. str_eq (id y) j ≡ false) xs) ((str_eq_iff (id x) k).0 e) h.0))
    | inr e ↦ rw e (choose-always-find k xs o h.1)
  ]

  pub choose-always-append :
      (k : Str) (xs ys : List A) (o : Option A)
      → choose id always k (xs ++ ys) o ≡ choose id always k ys (choose id always k xs o)
  unfolding choose
  choose-always-append k [] ys o = refl
  choose-always-append k (x ∷ xs) ys o =
      choose-always-append k xs ys (if str_eq (id x) k then some x else o)

  -- The second list has no repeated ids.
  pub find-merged-always :
      (gt : A → A → Bool) (xs ys : List A) (k : Str)
      → HasDistinctIds id ys
      → find id k (merged id always gt (xs ++ ys))
        ≡ first_of_two (find id k ys) (choose id always k xs none)
  find-merged-always gt xs ys k h =
      find-merged id always gt k (xs ++ ys)
      ∙ choose-always-append k xs ys none
      ∙ choose-always-find k ys (choose id always k xs none) h

  -- Neither list has repeated ids.
  pub find-merged_union :
      (gt : A → A → Bool) (xs ys : List A) (k : Str)
      → HasDistinctIds id xs
      → HasDistinctIds id ys
      → find id k (merged id always gt (xs ++ ys)) ≡ first_of_two (find id k ys) (find id k xs)
  find-merged_union gt xs ys k h q =
      find-merged-always gt xs ys k q
      ∙ ap (first_of_two (find id k ys))
          (choose-always-find k xs none h ∙ first_of_two-none (find id k xs))

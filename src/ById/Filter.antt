-- ===== src/ById/Filter.antt =====
-- Filtered lists with distinct ids.
use quiteline.Base.{
  ◌≡◌, refl, Bool, true, false, List, [], ◌∷◌, some, Str, str_eq, if◌then◌else◌, All, Any, subst,
  sym, ap, ◌∙◌, str_eq_sym, inl, inr, Bool-cases, keep, arith, All-map,
}
use quiteline.ById.{find, HasDistinctIds}

pub keep-All {ℓ κ} :
    {A : Type ℓ} (P : A → Type κ) (p : A → Bool) (xs : List A) → All P xs → All P (keep p xs)
keep-All P p [] h = tt
keep-All P p (x ∷ xs) h = elim (Bool-cases (p x)) [
  | inl e ↦ rw e (h.0, keep-All P p xs h.1)
  | inr e ↦ rw e (keep-All P p xs h.1)
]

-- What passes the test is in the list and passes the test.
pub keep_passes :
    {A : Type 0} (p : A → Bool) (xs : List A)
    → All (λ x. Any (λ y. y ≡ x) xs × (p x ≡ true)) (keep p xs)
keep_passes p [] = tt
keep_passes p (x ∷ xs) = elim (Bool-cases (p x)) [
  | inl e ↦ rw e ((inl refl, e), All-map-keep (keep_passes p xs))
  | inr e ↦ rw e (All-map-keep (keep_passes p xs))
]
  where
    All-map-keep :
        All (λ z. Any (λ y. y ≡ z) xs × (p z ≡ true)) (keep p xs)
        → All (λ z. Any (λ y. y ≡ z) (x ∷ xs) × (p z ≡ true)) (keep p xs)
    All-map-keep = All-map _ _ (λ z h. (inr h.0, h.1)) (keep p xs)

module _ {ℓ} {A : Type ℓ} (id : A → Str) (p : A → Bool) where
  pub keep-HasDistinctIds : (xs : List A) → HasDistinctIds id xs → HasDistinctIds id (keep p xs)
  keep-HasDistinctIds [] h = tt
  keep-HasDistinctIds (x ∷ xs) h = elim (Bool-cases (p x)) [
    | inl e ↦
        rw e (keep-All (λ y. str_eq (id y) (id x) ≡ false) p xs h.0, keep-HasDistinctIds xs h.1)
    | inr e ↦ rw e (keep-HasDistinctIds xs h.1)
  ]

  pub find-keep :
      (k : Str) (xs : List A) (d : A)
      → find id k xs ≡ some d
      → p d ≡ true
      → find id k (keep p xs) ≡ some d
  unfolding find
  find-keep k [] d h q = cc
  find-keep k (x ∷ xs) d h q = ground (arith, find-keep k xs d)

pub Any-keep :
    {A : Type 0} (p : A → Bool) (m : A) (xs : List A)
    → Any (λ y. y ≡ m) xs
    → p m ≡ true
    → Any (λ y. y ≡ m) (keep p xs)
Any-keep p m [] a e = a
Any-keep p m (x ∷ xs) (inl same) e =
    subst (λ (b : Bool). Any (λ y. y ≡ m) (if b then x ∷ keep p xs else keep p xs))
      (sym (ap p same ∙ e)) (inl same)
Any-keep p m (x ∷ xs) (inr a) e = elim (Bool-cases (p x)) [
  | inl here ↦ rw here (inr (Any-keep p m xs a e))
  | inr not_here ↦ rw not_here (Any-keep p m xs a e)
]

-- To prove something of every element, with its place at hand.
pub All-of_Any :
    {A : Type 0} (P : A → Type 0) (xs : List A) → ((m : A) → Any (λ y. y ≡ m) xs → P m) → All P xs
All-of_Any P [] f = tt
All-of_Any P (x ∷ xs) f = (f x (inl refl), All-of_Any P xs (λ m a. f m (inr a)))

pub All-at :
    {A : Type 0} (P : A → Type 0) (m : A) (xs : List A) → All P xs → Any (λ y. y ≡ m) xs → P m
All-at P m [] h a = elim a [ ]
All-at P m (x ∷ xs) h (inl e) = subst P e h.0
All-at P m (x ∷ xs) h (inr a) = All-at P m xs h.1 a

-- An element that does not pass the test leaves no trace of its id.
pub keep_absent :
    {A : Type 0} (id : A → Str) (p : A → Bool) (m : A) (xs : List A)
    → HasDistinctIds id xs
    → Any (λ y. y ≡ m) xs
    → p m ≡ false
    → All (λ y. str_eq (id y) (id m) ≡ false) (keep p xs)
keep_absent id p m [] h a e = tt
keep_absent id p m (x ∷ xs) h (inl same) e =
    subst
      (λ (b : Bool).
        All (λ y. str_eq (id y) (id m) ≡ false) (if b then x ∷ keep p xs else keep p xs))
      (sym (ap p same ∙ e))
      (subst (λ z. All (λ y. str_eq (id y) (id z) ≡ false) (keep p xs)) same
        (keep-All (λ y. str_eq (id y) (id x) ≡ false) p xs h.0))
keep_absent id p m (x ∷ xs) h (inr a) e = elim (Bool-cases (p x)) [
  | inl here ↦ rw here (
    str_eq_sym (id m) (id x) (All-at (λ y. str_eq (id y) (id x) ≡ false) m xs h.0 a),
    keep_absent id p m xs h.1 a e,
  )
  | inr not_here ↦ rw not_here (keep_absent id p m xs h.1 a e)
]

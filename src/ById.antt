-- ===== src/ById.antt =====
-- The pattern by which the hooks merge lists of things with an id: a `Map` from ids is filled by
-- loops, each with its own test of what may replace what, and its values are sorted.
-- (frontend/src/hooks/useMessages.ts, frontend/src/hooks/useIdentity.ts)
pub mod Best
pub mod Union
pub mod Filter
use quiteline.Base.{
  ◌≡◌, refl, Bool, true, false, List, [], ◌∷◌, ◌++◌, Option, none, some, arith, Str, str_eq,
  str_eq_iff, str_eq_refl, if◌then◌else◌, All, Bool-cases, inl, inr, ◌∙◌,
}
use quiteline.Js.OrderedMap.{get, set, values, get-set, Lacks, IsDistinct, set-IsDistinct}
use quiteline.Js.Sort.{place, sort, place-All, sort-All}

module _ {ℓ} {A : Type ℓ} (id : A → Str) where
  -- The first element with the id.
  unfoldable pub find : Str → List A → Option A
  find k [] = none
  find k (x ∷ xs) = if str_eq (id x) k then some x else find k xs

  -- No two elements have one id.
  abbrev pub HasDistinctIds : List A → Type 0
  HasDistinctIds [] = Unit
  HasDistinctIds (x ∷ xs) = All (λ y. str_eq (id y) (id x) ≡ false) xs × HasDistinctIds xs

  -- One round of a filling loop.
  unfoldable pub put : (A → Option A → Bool) → A → List (Str × A) → List (Str × A)
  put replaces x m = if replaces x (get (id x) m) then set (id x) x m else m

  unfoldable pub put_all : (A → Option A → Bool) → List A → List (Str × A) → List (Str × A)
  unfolding put
  put_all replaces [] m = m
  put_all replaces (x ∷ xs) m = put_all replaces xs (put replaces x m)

  -- What becomes of the entry of one id, without the map: each element with that id in turn
  -- replaces what stands there, if the test says so.
  unfoldable pub choose : (A → Option A → Bool) → Str → List A → Option A → Option A
  choose replaces k [] o = o
  choose replaces k (x ∷ xs) o =
      choose replaces k xs (if str_eq (id x) k then if replaces x o then some x else o else o)

  -- Each value stands under its id.
  abbrev pub IsKeyed : List (Str × A) → Type 0
  IsKeyed = All (λ e. e.0 ≡ id e.1)

module _ {ℓ} {A : Type ℓ} (id : A → Str) (replaces : A → Option A → Bool) where
  get-put :
      (k : Str) (x : A) (m : List (Str × A))
      → get k (put id replaces x m)
        ≡ (if str_eq (id x) k then if replaces x (get k m) then some x else get k m else get k m)
  unfolding put
  get-put k x m = ground (arith, str_eq_iff (id x) k, get-set (id x) k x m)

  pub get-put_all :
      (k : Str) (xs : List A) (m : List (Str × A))
      → get k (put_all id replaces xs m) ≡ choose id replaces k xs (get k m)
  unfolding put_all choose
  get-put_all k [] m = refl
  get-put_all k (x ∷ xs) m = rw (get-put_all k xs (put id replaces x m), get-put k x m)

  put_all-IsDistinct :
      (xs : List A) (m : List (Str × A)) → IsDistinct m → IsDistinct (put_all id replaces xs m)
  unfolding put_all
  put_all-IsDistinct [] m h = h
  put_all-IsDistinct (x ∷ xs) m h =
      put_all-IsDistinct xs (put id replaces x m) (elim (Bool-cases (replaces x (get (id x) m))) [
        | inl e ↦ unfold put in rw e (set-IsDistinct (id x) x m h)
        | inr e ↦ unfold put in rw e h
      ])

  values-set-All {κ} :
      (P : A → Type κ) (k : Str) (x : A) (m : List (Str × A))
      → P x
      → All P (values m)
      → All P (values (set k x m))
  unfolding set
  values-set-All P k x [] p h = (p, tt)
  values-set-All P k x ((j, w) ∷ m) p h = elim (Bool-cases (str_eq j k)) [
    | inl e ↦ rw e (p, h.1)
    | inr e ↦ rw e (h.0, values-set-All P k x m p h.1)
  ]

  pub values-put_all-All {κ} :
      (P : A → Type κ) (xs : List A) (m : List (Str × A))
      → All P xs
      → All P (values m)
      → All P (values (put_all id replaces xs m))
  unfolding put_all
  values-put_all-All P [] m h q = q
  values-put_all-All P (x ∷ xs) m h q =
      values-put_all-All P xs (put id replaces x m) h.1
        (elim (Bool-cases (replaces x (get (id x) m))) [
          | inl e ↦ unfold put in rw e (values-set-All P (id x) x m h.0 q)
          | inr e ↦ unfold put in rw e q
        ])

  set-IsKeyed : (x : A) (m : List (Str × A)) → IsKeyed id m → IsKeyed id (set (id x) x m)
  unfolding set
  set-IsKeyed x [] h = (refl, tt)
  set-IsKeyed x ((j, w) ∷ m) h = elim (Bool-cases (str_eq j (id x))) [
    | inl e ↦ rw e ((str_eq_iff j (id x)).0 e, h.1)
    | inr e ↦ rw e (h.0, set-IsKeyed x m h.1)
  ]

  put_all-IsKeyed :
      (xs : List A) (m : List (Str × A)) → IsKeyed id m → IsKeyed id (put_all id replaces xs m)
  unfolding put_all
  put_all-IsKeyed [] m h = h
  put_all-IsKeyed (x ∷ xs) m h =
      put_all-IsKeyed xs (put id replaces x m) (elim (Bool-cases (replaces x (get (id x) m))) [
        | inl e ↦ unfold put in rw e (set-IsKeyed x m h)
        | inr e ↦ unfold put in rw e h
      ])

module _ {ℓ} {A : Type ℓ} (id : A → Str) where
  find-values : (k : Str) (m : List (Str × A)) → IsKeyed id m → find id k (values m) ≡ get k m
  unfolding find get
  find-values k [] h = refl
  find-values k ((j, w) ∷ m) h = rw (h.0, find-values k m h.1)

  Lacks-values :
      (k : Str) (m : List (Str × A))
      → IsKeyed id m
      → Lacks k m
      → All (λ y. str_eq (id y) k ≡ false) (values m)
  Lacks-values k [] h q = tt
  Lacks-values k ((j, w) ∷ m) h q = (rw h.0 at q.0, Lacks-values k m h.1 q.1)

  values-HasDistinctIds :
      (m : List (Str × A)) → IsKeyed id m → IsDistinct m → HasDistinctIds id (values m)
  values-HasDistinctIds [] h q = tt
  values-HasDistinctIds ((j, w) ∷ m) h q =
      (rw h.0 at (Lacks-values j m h.1 q.0), values-HasDistinctIds m h.1 q.1)

module _ {ℓ} {A : Type ℓ} (id : A → Str) (gt : A → A → Bool) where
  find-place :
      (k : Str) (x : A) (xs : List A)
      → All (λ y. str_eq (id y) (id x) ≡ false) xs
      → find id k (place gt x xs) ≡ (if str_eq (id x) k then some x else find id k xs)
  unfolding find place
  find-place k x [] h = refl
  find-place k x (y ∷ ys) h = ground (
    arith,
    find-place k x ys h.1,
    str_eq_iff (id x) k,
    str_eq_iff (id y) k,
    str_eq_iff (id y) (id x),
  )

  place-HasDistinctIds :
      (x : A) (xs : List A)
      → All (λ y. str_eq (id y) (id x) ≡ false) xs
      → HasDistinctIds id xs
      → HasDistinctIds id (place gt x xs)
  unfolding place
  place-HasDistinctIds x [] h q = (tt, tt)
  place-HasDistinctIds x (y ∷ ys) h q = elim (Bool-cases (gt x y)) [
    | inl e ↦ rw e (
      place-All gt (λ z. str_eq (id z) (id y) ≡ false) x ys
          (ground (arith, str_eq_iff (id x) (id y), str_eq_iff (id y) (id x))) q.0,
      place-HasDistinctIds x ys h.1 q.1,
    )
    | inr e ↦ rw e (h, q)
  ]

  sort-HasDistinctIds : (xs : List A) → HasDistinctIds id xs → HasDistinctIds id (sort gt xs)
  unfolding sort
  sort-HasDistinctIds [] h = tt
  sort-HasDistinctIds (x ∷ xs) h =
      place-HasDistinctIds x (sort gt xs) (sort-All gt (λ y. str_eq (id y) (id x) ≡ false) xs h.0)
        (sort-HasDistinctIds xs h.1)

  find-sort : (k : Str) (xs : List A) → HasDistinctIds id xs → find id k (sort gt xs) ≡ find id k xs
  unfolding find sort
  find-sort k [] h = refl
  find-sort k (x ∷ xs) h = rw (
    find-place k x (sort gt xs) (sort-All gt (λ y. str_eq (id y) (id x) ≡ false) xs h.0),
    find-sort k xs h.1,
  )

-- The whole pattern: fill a map from nothing, take its values, sort them.
module _ {ℓ} {A : Type ℓ} (id : A → Str) (replaces : A → Option A → Bool) (gt : A → A → Bool) where
  unfoldable pub merged : List A → List A
  merged xs = sort gt (values (put_all id replaces xs []))

  pub merged-HasDistinctIds : (xs : List A) → HasDistinctIds id (merged xs)
  unfolding merged
  merged-HasDistinctIds xs = sort-HasDistinctIds id gt (values (put_all id replaces xs [])) (
      values-HasDistinctIds id (put_all id replaces xs []) (put_all-IsKeyed id replaces xs [] tt)
        (put_all-IsDistinct id replaces xs [] tt))

  pub find-merged : (k : Str) (xs : List A) → find id k (merged xs) ≡ choose id replaces k xs none
  unfolding merged
  find-merged k xs =
      find-sort id gt k (values (put_all id replaces xs [])) (
        values-HasDistinctIds id (put_all id replaces xs []) (put_all-IsKeyed id replaces xs [] tt)
          (put_all-IsDistinct id replaces xs [] tt))
      ∙ find-values id k (put_all id replaces xs []) (put_all-IsKeyed id replaces xs [] tt)
      ∙ unfold get in get-put_all id replaces k xs []

  pub merged-All {κ} : (P : A → Type κ) (xs : List A) → All P xs → All P (merged xs)
  unfolding merged
  merged-All P xs h =
      sort-All gt P (values (put_all id replaces xs []))
        (values-put_all-All id replaces P xs [] h tt)

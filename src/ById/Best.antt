-- ===== src/ById/Best.antt =====
-- A filling loop whose test compares versions keeps a newest element of each id.
use quiteline.Base.{
  ◌≡◌, refl, Bool, true, false, List, [], ◌∷◌, Option, none, some, ℤ, Str, str_eq, All, Any,
  Bool-cases, inl, inr, ne_of_str_eq,
}
use quiteline.Js.Number.{NumLe, IsNum, NumLe-trans, NumLe-refl}
use quiteline.ById.{choose}

-- What the test of such a loop has to satisfy.
pub record IsByVersion {A : Type 0} (version : A → Option ℤ) (replaces : A → Option A → Bool)
    : Type 0 where
  pub first : (x : A) → replaces x none ≡ true
  pub up :
      (x c : A)
      → IsNum (version x)
      → IsNum (version c)
      → replaces x (some c) ≡ true
      → NumLe (version c) (version x)
  pub stay :
      (x c : A)
      → IsNum (version x)
      → IsNum (version c)
      → replaces x (some c) ≡ false
      → NumLe (version x) (version c)

-- `w` is at least as new as every element with the id `k`.
abbrev pub IsNewest : {A : Type 0} → (A → Str) → (A → Option ℤ) → Str → A → List A → Type 0
IsNewest id version k w xs = All (λ x. id x ≡ k → NumLe (version x) (version w)) xs

module _ {A : Type 0} (id : A → Str) (version : A → Option ℤ) (replaces : A → Option A → Bool)
    (by : IsByVersion version replaces) where
  IsNewest-choose :
      (k : Str) (xs : List A) (c : A)
      → All (λ x. IsNum (version x)) xs
      → IsNum (version c)
      → (w : A) × (choose id replaces k xs (some c) ≡ some w)
        × NumLe (version c) (version w)
        × IsNewest id version k w xs
  unfolding choose
  IsNewest-choose k [] c h n = (c, refl, NumLe-refl (version c) n, tt)
  IsNewest-choose k (x ∷ xs) c h n = elim (Bool-cases (str_eq (id x) k)) [
    | inl here ↦ elim (Bool-cases (replaces x (some c))) [
      | inl newer ↦
          let (w, e, le, rest) = IsNewest-choose k xs x h.1 h.0 in
          (
            w,
            rw (here, newer) e,
            NumLe-trans (version c) (version x) (version w) (by.up x c h.0 n newer) le,
            (λ _. le, rest),
          )
      | inr older ↦
          let (w, e, le, rest) = IsNewest-choose k xs c h.1 n in
          (
            w,
            rw (here, older) e,
            le,
            (
              λ _. NumLe-trans (version x) (version c) (version w) (by.stay x c h.0 n older) le,
              rest,
            ),
          )
    ]
    | inr other ↦
        let (w, e, le, rest) = IsNewest-choose k xs c h.1 n in
        (w, rw other e, le, (λ same. absurd (ne_of_str_eq (id x) k other same), rest))
  ]

  -- If some element has the id, the loop ends with a newest one for it.
  pub choose-IsNewest :
      (k : Str) (xs : List A)
      → All (λ x. IsNum (version x)) xs
      → Any (λ x. id x ≡ k) xs
      → (w : A) × (choose id replaces k xs none ≡ some w) × IsNewest id version k w xs
  unfolding choose
  choose-IsNewest k [] h m = elim m [ ]
  choose-IsNewest k (x ∷ xs) h m = elim (Bool-cases (str_eq (id x) k)) [
    | inl here ↦
        let (w, e, le, rest) = IsNewest-choose k xs x h.1 h.0 in
        (w, rw (here, by.first x) e, (λ _. le, rest))
    | inr other ↦
        let (w, e, rest) =
          choose-IsNewest k xs h.1
            (elim m [ inl same ↦ absurd (ne_of_str_eq (id x) k other same) | inr n ↦ n ]) in
        (w, rw other e, (λ same. absurd (ne_of_str_eq (id x) k other same), rest))
  ]

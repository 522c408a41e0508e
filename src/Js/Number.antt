-- ===== src/Js/Number.antt =====
-- Results of `Date.parse`: an integer number of milliseconds, or NaN (`none`), with which every
-- comparison is false.
use quiteline.Base.{
  ℤ, ltb_ℤ, eqb_ℤ, ◌≤ℤ◌, Option, none, some, Bool, true, false, ◌||◌, ◌&&◌, ◌≡◌, refl, arith,
}

abbrev pub num_gt : Option ℤ → Option ℤ → Bool
num_gt (some a) (some b) = ltb_ℤ b a
num_gt (some a) none = false
num_gt none b = false

abbrev pub num_eq : Option ℤ → Option ℤ → Bool
num_eq (some a) (some b) = eqb_ℤ a b
num_eq (some a) none = false
num_eq none b = false

-- Both are numbers, and the first is at most the second.
abbrev pub NumLe : Option ℤ → Option ℤ → Type 0
NumLe (some a) (some b) = ◌≤ℤ◌ a b
NumLe (some a) none = ⊥
NumLe none b = ⊥

abbrev pub IsNum : Option ℤ → Type 0
IsNum none = ⊥
IsNum (some a) = Unit

pub NumLe-trans : (a b c : Option ℤ) → NumLe a b → NumLe b c → NumLe a c
NumLe-trans none b c h k = elim h [ ]
NumLe-trans (some a) none c h k = elim h [ ]
NumLe-trans (some a) (some b) none h k = elim k [ ]
NumLe-trans (some a) (some b) (some c) h k = omega arith

pub NumLe-of_not_gt : (a b : Option ℤ) → IsNum a → IsNum b → num_gt a b ≡ false → NumLe a b
NumLe-of_not_gt none b p q h = elim p [ ]
NumLe-of_not_gt (some a) none p q h = elim q [ ]
NumLe-of_not_gt (some a) (some b) p q h = ground arith

pub NumLe-of_gt : (a b : Option ℤ) → num_gt b a ≡ true → NumLe a b
NumLe-of_gt (some a) (some b) h = ground arith
NumLe-of_gt (some a) none h = cc
NumLe-of_gt none b h = ground arith

pub num_gt_asym : (a b : Option ℤ) → num_gt a b ≡ true → num_gt b a ≡ false
num_gt_asym (some a) (some b) h = ground arith
num_gt_asym (some a) none h = cc
num_gt_asym none b h = cc

pub num_gt_chain :
    (a b c : Option ℤ)
    → IsNum a
    → IsNum b
    → IsNum c
    → num_gt a b ≡ false
    → num_gt b c ≡ false
    → num_gt a c ≡ false
num_gt_chain (some a) (some b) (some c) _ _ _ h k = ground arith
num_gt_chain (some a) none c _ q _ h k = elim q [ ]
num_gt_chain (some a) (some b) none _ _ r h k = refl
num_gt_chain none b c p _ _ h k = refl

pub NumLe-refl : (a : Option ℤ) → IsNum a → NumLe a a
NumLe-refl none h = elim h [ ]
NumLe-refl (some a) h = omega arith

-- A test that holds only of a greater or an equal number.
pub NumLe-of_newer :
    (a b : Option ℤ) (r r' t : Bool)
    → (num_gt a b || num_eq a b && r && r' || num_eq a b && t) ≡ true
    → NumLe b a
NumLe-of_newer (some a) (some b) r r' t h = ground arith
NumLe-of_newer (some a) none r r' t h = cc
NumLe-of_newer none b r r' t h = cc

-- A test that holds of every greater number.
pub NumLe-of_not_newer :
    (a b : Option ℤ) (r r' t : Bool)
    → IsNum a
    → IsNum b
    → (num_gt a b || num_eq a b && r && r' || num_eq a b && t) ≡ false
    → NumLe a b
NumLe-of_not_newer none b r r' t p q h = elim p [ ]
NumLe-of_not_newer (some a) none r r' t p q h = elim q [ ]
NumLe-of_not_newer (some a) (some b) r r' t p q h = ground arith

-- `>=` on two numbers.
pub NumLe-of_ge : (a b : Option ℤ) → (num_gt a b || num_eq a b) ≡ true → NumLe b a
NumLe-of_ge (some a) (some b) h = ground arith
NumLe-of_ge (some a) none h = cc
NumLe-of_ge none b h = cc

pub NumLe-of_not_ge :
    (a b : Option ℤ) → IsNum a → IsNum b → (num_gt a b || num_eq a b) ≡ false → NumLe a b
NumLe-of_not_ge none b p q h = elim p [ ]
NumLe-of_not_ge (some a) none p q h = elim q [ ]
NumLe-of_not_ge (some a) (some b) p q h = ground arith

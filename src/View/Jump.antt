-- ===== src/View/Jump.antt =====
-- The scroll to a message that is marked. (frontend/src/components/MessengerApp.tsx)
use quiteline.Base.{
  ◌≡◌, refl, Bool, true, false, Option, none, some, ℕ, zero, suc, ◌+◌, ◌≤◌, ◌<◌, ltb, if◌then◌else◌,
  Bool-cases, inl, inr, arith, tests,
}

pub data Jump : Type 0 where
  -- After so many attempts the message is there, and it is scrolled to.
  reached : ℕ → Jump
  given_up : Jump

-- `tryScroll`, called `attempts` times before; `is_there n` says whether the message's element is
-- there at the call after `n` others. None is a chain of timers that `fuel` calls do not end.
unfoldable pub try_scroll : ℕ → (ℕ → Bool) → ℕ → Option Jump
try_scroll zero is_there attempts = none
try_scroll (suc fuel) is_there attempts =
    let later = try_scroll fuel is_there (attempts + 1) in
    if is_there attempts
    then some (reached attempts)
    else if ltb attempts 20
    then later
    else some given_up

-- What the chain comes to: the first attempt at which the message is there, of 21.
abbrev pub IsFirst : (ℕ → Bool) → ℕ → Jump → Type 0
IsFirst is_there start (reached k) =
    (start ≤ k)
    × (k ≤ 20)
    × (is_there k ≡ true)
    × ((j : ℕ) → start ≤ j → j < k → is_there j ≡ false)
IsFirst is_there start given_up = (j : ℕ) → start ≤ j → j ≤ 20 → is_there j ≡ false

try_scroll-IsFirst :
    (fuel : ℕ) (is_there : ℕ → Bool) (attempts : ℕ)
    → attempts ≤ 20
    → 20 < fuel + attempts
    → (e : Jump) × (try_scroll fuel is_there attempts ≡ some e) × IsFirst is_there attempts e
unfolding try_scroll
try_scroll-IsFirst zero is_there n h k = absurd (omega arith)
try_scroll-IsFirst (suc fuel) is_there n h k = elim (Bool-cases (is_there n)) [
  | inl t ↦
      (reached n, rw (t, try_scroll) refl, (omega arith, h, t, (λ j p q. absurd (omega arith))))
  | inr t ↦ elim (Bool-cases (ltb n 20)) [
    | inr l ↦ (
      given_up,
      rw (t, try_scroll) (rw l refl),
      (λ j p q. only is_there n j t (ground (arith, l))),
    )
    | inl l ↦
        let (e, r, f) = try_scroll-IsFirst fuel is_there (n + 1) (omega tests) (omega arith) in
        (e, rw (t, try_scroll) (rw l r), earlier is_there n e t f)
  ]
]
  where
    only : (p : ℕ → Bool) (n j : ℕ) → p n ≡ false → j ≡ n → p j ≡ false
    only p n j t e = rw e t

    split_le :
        (p : ℕ → Bool) (n j : ℕ) → p n ≡ false → n ≤ j → (n + 1 ≤ j → p j ≡ false) → p j ≡ false
    split_le p n j t h f = elim (Bool-cases (ltb n j)) [
      | inl l ↦ f (omega tests)
      | inr l ↦ only p n j t (ground arith)
    ]

    earlier : (p : ℕ → Bool) (n : ℕ) (e : Jump) → p n ≡ false → IsFirst p (n + 1) e → IsFirst p n e
    earlier p n (reached k) t (a, b, c, d) =
        (omega arith, b, c, (λ j h q. split_le p n j t h (λ g. d j g q)))
    earlier p n given_up t d = λ j h q. split_le p n j t h (λ g. d j g q)

-- A chain of attempts ends after 21 calls at most: at the first at which the message is there, or
-- given up if it is at none of them.
pub try_scroll-ends :
    (is_there : ℕ → Bool) → (e : Jump) × (try_scroll 21 is_there 0 ≡ some e) × IsFirst is_there 0 e
try_scroll-ends is_there = try_scroll-IsFirst 21 is_there 0 (omega arith) (omega arith)

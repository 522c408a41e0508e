-- ===== src/Js/Decimal.antt =====
-- Numbers in template literals: decimal digits.
use quiteline.Base.{
  ◌≡◌, ◌∙◌, ap, ◌<◌, ◌≤◌, ◌*◌, ◌-◌, arith, tests, Bool-cases, inl, inr, ℕ, zero, suc, ◌+◌, ◌/◌, ◌%◌,
  [], ◌∷◌, Str, ltb, if◌then◌else◌, codes, Option, none, some, ℤ, pos, negsuc,
}

-- `fuel` bounds the number of digits.
unfoldable pub decimal_from : ℕ → ℕ → Str → Str
decimal_from zero n acc = acc
decimal_from (suc fuel) n acc =
    let digits = (b'0' + n % 10) ∷ acc in
    let rest = decimal_from fuel (n / 10) digits in if ltb n 10 then digits else rest

-- A number has no more digits than its value, plus one.
unfoldable pub decimal : ℕ → Str
unfolding decimal_from
decimal n = decimal_from (suc n) n []

-- An integer, or NaN.
unfoldable pub show_num : Option ℤ → Str
unfolding decimal
show_num none = codes "NaN"
show_num (some (pos n)) = decimal n
show_num (some (negsuc n)) = b'-' ∷ decimal (suc n)

-- The number that decimal digits stand for, after one that has been read.
abbrev pub read_decimal : ℕ → Str → ℕ
read_decimal v [] = v
read_decimal v (d ∷ s) = read_decimal (v * 10 + (d - b'0')) s

read-decimal_from :
    (fuel n : ℕ) (acc : Str)
    → n < fuel
    → read_decimal 0 (decimal_from fuel n acc) ≡ read_decimal n acc
unfolding decimal_from
read-decimal_from zero n acc h = absurd (omega arith)
read-decimal_from (suc fuel) n acc h = elim (Bool-cases (ltb n 10)) [
  | inl small ↦
      let digit : 0 * 10 + ((b'0' + n % 10) - b'0') ≡ n = omega tests in
      rw small (ap (λ (v : ℕ). read_decimal v acc) digit)
  | inr big ↦
      let large : 10 ≤ n = ground arith in
      let less : n / 10 < fuel = omega arith in
      let value : n / 10 * 10 + ((b'0' + n % 10) - b'0') ≡ n = omega arith in
      rw big (
        read-decimal_from fuel (n / 10) ((b'0' + n % 10) ∷ acc) less
        ∙ ap (λ (v : ℕ). read_decimal v acc) value)
]

-- The fuel is enough: the digits of a number stand for it.
pub read-decimal : (n : ℕ) → read_decimal 0 (decimal n) ≡ n
unfolding decimal
read-decimal n = read-decimal_from (suc n) n [] (omega arith)

-- ===== src/Js/Slice.antt =====
-- `Array.prototype.slice` with a negative start.
use quiteline.Base.{List, ℕ, ◌-◌, ◌≤◌, arith, length, drop, length-drop}

-- `xs.slice(-n)`: the last `n` elements, or all.
unfoldable pub last {ℓ} : {A : Type ℓ} → ℕ → List A → List A
last n xs = drop (length xs - n) xs

pub length-last {ℓ} : {A : Type ℓ} (n : ℕ) (xs : List A) → length (last n xs) ≤ n
unfolding last
length-last n xs = omega (arith, length-drop (length xs - n) xs)

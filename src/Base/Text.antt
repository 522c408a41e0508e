-- ===== src/Base/Text.antt =====
-- JavaScript strings: lists of UTF-16 code units.
use Prim.Native.Char.{code}
use Prim.Native.Nat.{ℕ, ◌+◌, ◌-◌, ◌/◌, ◌%◌}
use Prim.Native.String.{String}
use mathlib.Core.Path.{◌≡◌, refl}
use mathlib.Core.Logic.{◌↔◌}
use mathlib.Core.Bool.{Bool, true, false, ◌&&◌}
use mathlib.Core.Option.{Option, none, some}
use mathlib.Core.List.{List, [], ◌∷◌}
use native.Mathlib.Omega.{arith}
use quiteline.Base.Tests.{ltb, ◌==◌, if◌then◌else◌}

abbrev pub Str : Type 0
Str = List ℕ

-- The code units of a code point: itself, or a surrogate pair.
abbrev pub units : ℕ → Str
units c =
    if ltb c 0x10000
    then c ∷ []
    else (0xd800 + (c - 0x10000) / 0x400) ∷ (0xdc00 + (c - 0x10000) % 0x400) ∷ []

abbrev append_units : Str → Str → Str
append_units [] t = t
append_units (c ∷ s) t = c ∷ append_units s t

-- The code units of a literal.
abbrev pub codes : String → Str
codes String.[] = []
codes (String.◌∷◌ c s) = append_units (units (code c)) (codes s)

-- `a === b` on strings.
unfoldable pub str_eq : Str → Str → Bool
str_eq [] [] = true
str_eq [] (d ∷ t) = false
str_eq (c ∷ s) [] = false
str_eq (c ∷ s) (d ∷ t) = (c == d) && str_eq s t

pub str_eq_iff : (a b : Str) → (str_eq a b ≡ true) ↔ (a ≡ b)
unfolding str_eq
str_eq_iff [] [] = ground arith
str_eq_iff [] (d ∷ t) = ground arith
str_eq_iff (c ∷ s) [] = ground arith
str_eq_iff (c ∷ s) (d ∷ t) = ground (arith, str_eq_iff s t)

pub str_eq_refl : (a : Str) → str_eq a a ≡ true
str_eq_refl a = (str_eq_iff a a).1 refl

-- `Boolean(s)` on a string.
abbrev pub truthy : Str → Bool
truthy [] = false
truthy (c ∷ s) = true

-- `o || d` where `o` is an optional string.
abbrev pub or_str : Option Str → Str → Str
or_str none d = d
or_str (some []) d = d
or_str (some (c ∷ s)) d = c ∷ s

-- `s || d`.
abbrev pub or_else : Str → Str → Str
or_else [] d = d
or_else (c ∷ s) d = c ∷ s

-- `o ?? d`.
abbrev pub get_or {ℓ} : {A : Type ℓ} → Option A → A → A
get_or none d = d
get_or (some a) d = a

pub ne_of_str_eq : (a b : Str) → str_eq a b ≡ false → ¬ (a ≡ b)
ne_of_str_eq a b h e = cc (str_eq_refl b, h)

pub str_eq_sym : (a b : Str) → str_eq a b ≡ false → str_eq b a ≡ false
str_eq_sym a b h = ground (arith, str_eq_iff a b, str_eq_iff b a)

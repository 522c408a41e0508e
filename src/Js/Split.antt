-- ===== src/Js/Split.antt =====
-- `String.prototype.split`, `trim` and `startsWith`, on UTF-16.
use mathlib.Core.List.{reverse}
use quiteline.Base.{
  ◌≡◌, refl, ap, ◌∙◌, Bool, ◌&&◌, ◌||◌, List, [], ◌∷◌, ◌++◌, Option, none, some, ℕ, Str, leb, ◌==◌,
  if◌then◌else◌, Bool-cases, inl, inr, arith,
}

-- Line ends: `.` in a pattern matches anything else.
abbrev pub is_line_end : ℕ → Bool
is_line_end c = (c == 10) || (c == 13) || (c == 0x2028) || (c == 0x2029)

-- `\s` in a pattern, and what `trim` removes.
abbrev pub is_white : ℕ → Bool
is_white c =
    is_line_end c
    || (c == 9)
    || (c == 11)
    || (c == 12)
    || (c == 32)
    || (c == 0xa0)
    || (c == 0x1680)
    || (leb 0x2000 c && leb c 0x200a)
    || (c == 0x202f)
    || (c == 0x205f)
    || (c == 0x3000)
    || (c == 0xfeff)

abbrev pub trim_start : Str → Str
trim_start [] = []
trim_start (c ∷ s) = if is_white c then trim_start s else c ∷ s

unfoldable pub trim : Str → Str
trim s = reverse (trim_start (reverse (trim_start s)))

-- The rest of a text after a prefix, if it begins so.
unfoldable pub strip_prefix : Str → Str → Option Str
strip_prefix [] s = some s
strip_prefix (p ∷ ps) [] = none
strip_prefix (p ∷ ps) (c ∷ s) = if p == c then strip_prefix ps s else none

pub strip_prefix-append : (p s r : Str) → strip_prefix p s ≡ some r → s ≡ p ++ r
unfolding strip_prefix
strip_prefix-append [] s r e = cc
strip_prefix-append (p ∷ ps) [] r e = cc
strip_prefix-append (p ∷ ps) (c ∷ s) r e = ground (arith, strip_prefix-append ps s r)

-- A character before the first part.
abbrev pub before_first : ℕ → List Str → List Str
before_first c [] = (c ∷ []) ∷ []
before_first c (l ∷ ls) = (c ∷ l) ∷ ls

-- `s.split(c)`, for one character.
unfoldable pub split : ℕ → Str → List Str
split c [] = [] ∷ []
split c (d ∷ s) = let parts = split c s in if d == c then [] ∷ parts else before_first d parts

-- `parts.join(c)`.
unfoldable pub join : ℕ → List Str → Str
join c [] = []
join c (l ∷ []) = l
join c (l ∷ m ∷ ls) = l ++ c ∷ join c (m ∷ ls)

split-cons : (c : ℕ) (s : Str) → (l : Str) × (ls : List Str) × (split c s ≡ l ∷ ls)
unfolding split
split-cons c [] = ([], [], refl)
split-cons c (d ∷ s) = elim (Bool-cases (d == c)) [
  | inl e ↦ rw e ([], split c s, refl)
  | inr e ↦ let (l, ls, q) = split-cons c s in rw e (rw q (d ∷ l, ls, refl))
]

join-before_first :
    (c d : ℕ) (l : Str) (ls : List Str) → join c ((d ∷ l) ∷ ls) ≡ d ∷ join c (l ∷ ls)
unfolding join
join-before_first c d l [] = refl
join-before_first c d l (m ∷ ls) = refl

join-empty_first : (c : ℕ) (l : Str) (ls : List Str) → join c ([] ∷ l ∷ ls) ≡ c ∷ join c (l ∷ ls)
unfolding join
join-empty_first c l ls = refl

join-one : (c : ℕ) (l : Str) → join c (l ∷ []) ≡ l
unfolding join
join-one c l = refl

-- The parts of a text are joined to the text.
pub join-split : (c : ℕ) (s : Str) → join c (split c s) ≡ s
unfolding split
join-split c [] = join-one c []
join-split c (d ∷ s) =
    let (l, ls, q) = split-cons c s in
    let ih = join-split c s in
    elim (Bool-cases (d == c)) [
      | inl e ↦
          rw e
            (rw q (join-empty_first c l ls ∙ ap (λ (t : Str). c ∷ t) (rw q at ih) ∙ ground arith))
      | inr e ↦ rw e (rw q (join-before_first c d l ls ∙ ap (λ (t : Str). d ∷ t) (rw q at ih)))
    ]

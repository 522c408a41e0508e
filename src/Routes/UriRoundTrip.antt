-- ===== src/Routes/UriRoundTrip.antt =====
-- A text that is escaped for a URL is read again.
use mathlib.Core.Option.{map as map_option}
use quiteline.Base.{
  ◌≡◌, refl, ap, ◌∙◌, Bool, true, false, List, [], ◌∷◌, ◌++◌, Option, none, some, ℕ, ◌+◌, ◌-◌, ◌*◌,
  ◌/◌, ◌%◌, ◌<◌, ◌≤◌, Str, ltb, ◌==◌, if◌then◌else◌, units, Bool-cases, Option-cases, inl, inr,
  arith, All,
}
use quiteline.Api.Request.{
  is_unreserved, hex, percent, percents, escape, is_high, is_low, encode_from,
}
use quiteline.Routes.Uri.{
  Token, plain, byte, unhex, tokens, ready, assemble, is_scalar, decode_uri_component,
}

unhex-hex : (d : ℕ) → d < 16 → unhex (hex d) ≡ some d
unfolding unhex
unhex-hex d h = ground arith

abbrev put : Token → Option (List Token) → Option (List Token)
put t none = none
put t (some ts) = some (t ∷ ts)

tokens-percent : (b : ℕ) (t : Str) → b < 256 → tokens (percent b ++ t) ≡ put (byte b) (tokens t)
unfolding tokens
tokens-percent b t h =
    ground (arith, unhex-hex (b / 16) (omega arith), unhex-hex (b % 16) (omega arith))

tokens-plain : (c : ℕ) (t : Str) → (c == b'%') ≡ false → tokens (c ∷ t) ≡ put (plain c) (tokens t)
unfolding tokens
tokens-plain c [] h = ground arith
tokens-plain c (d ∷ []) h = ground arith
tokens-plain c (d ∷ e ∷ s) h = ground arith

-- What the decoder makes of a text.
abbrev read : Option (List Token) → Option Str
read none = none
read (some ts) = assemble ready ts

abbrev prefixed : Str → Option Str → Option Str
prefixed p o = map_option (λ (s : Str). p ++ s) o

module _ (o : Option (List Token)) where
  read-plain : (c : ℕ) → read (put (plain c) o) ≡ prefixed (c ∷ []) (read o)
  unfolding assemble
  read-plain c = ground arith

  read-one : (c : ℕ) → c < 0x80 → read (put (byte c) o) ≡ prefixed (units c) (read o)
  unfolding assemble
  read-one c h = ground arith

  read-two :
      (c : ℕ)
      → 0x80 ≤ c
      → c < 0x800
      → read (put (byte (0xc0 + c / 64)) (put (byte (0x80 + c % 64)) o))
        ≡ prefixed (units c) (read o)
  unfolding assemble
  read-two c h k = ground arith

  read-three :
      (c : ℕ)
      → 0x800 ≤ c
      → c < 0x10000
      → is_scalar c ≡ true
      → read (
          put
            (byte (0xe0 + c / 4096))
            (put (byte (0x80 + c / 64 % 64)) (put (byte (0x80 + c % 64)) o)))
        ≡ prefixed (units c) (read o)
  unfolding assemble
  read-three c h k s =
      let value : (c / 4096 * 64 + c / 64 % 64) * 64 + c % 64 ≡ c = omega arith in
      ground (arith, value)

  read-four :
      (c : ℕ)
      → 0x10000 ≤ c
      → c < 0x110000
      → read (
          put (byte (0xf0 + c / 262144)) (
            put
              (byte (0x80 + c / 4096 % 64))
              (put (byte (0x80 + c / 64 % 64)) (put (byte (0x80 + c % 64)) o))))
        ≡ prefixed (units c) (read o)
  unfolding assemble
  read-four c h k =
      let value : ((c / 262144 * 64 + c / 4096 % 64) * 64 + c / 64 % 64) * 64 + c % 64 ≡ c =
        omega arith in
      ground (arith, value)

put-percent :
    (b : ℕ) (t : Str) (p : Option (List Token))
    → b < 256
    → tokens t ≡ p
    → tokens (percent b ++ t) ≡ put (byte b) p
put-percent b t p h e = tokens-percent b t h ∙ ap (put (byte b)) e

percents-read :
    (c : ℕ) (t : Str)
    → c < 0x110000
    → is_scalar c ≡ true
    → read (tokens (percents c ++ t)) ≡ prefixed (units c) (read (tokens t))
percents-read c t h s =
    let o = tokens t in
    let last = put-percent (0x80 + c % 64) t o (omega arith) refl in
    let middle =
      put-percent (0x80 + c / 64 % 64) (percent (0x80 + c % 64) ++ t) _ (omega arith) last in
    elim (Bool-cases (ltb c 0x80)) [
      | inl a ↦ rw a (ap read (put-percent c t o (ground arith) refl) ∙ read-one o c (ground arith))
      | inr a ↦ elim (Bool-cases (ltb c 0x800)) [
        | inl b ↦
            rw (a, b)
              (ap read (put-percent (0xc0 + c / 64) _ _ (ground arith) last)
                ∙ read-two o c (ground arith) (ground arith))
        | inr b ↦ elim (Bool-cases (ltb c 0x10000)) [
          | inl d ↦
              rw (a, b)
                (rw d (
                  ap read (put-percent (0xe0 + c / 4096) _ _ (ground arith) middle)
                  ∙ read-three o c (ground arith) (ground arith) s
                  ∙ ground arith))
          | inr d ↦
              rw (a, b)
                (rw d (
                  ap read (
                    put-percent (0xf0 + c / 262144) _ _ (ground arith)
                      (put-percent (0x80 + c / 4096 % 64) _ _ (omega arith) middle))
                  ∙ read-four o c (ground arith) h
                  ∙ ground arith))
        ]
      ]
    ]

escape-read :
    (c : ℕ) (t : Str)
    → c < 0x110000
    → is_scalar c ≡ true
    → read (tokens (escape c ++ t)) ≡ prefixed (units c) (read (tokens t))
unfolding escape
escape-read c t h s = elim (Bool-cases (is_unreserved c)) [
  | inl u ↦
      rw u (ap read (tokens-plain c t (ground arith)) ∙ read-plain (tokens t) c ∙ ground arith)
  | inr u ↦ rw u (percents-read c t h s)
]

-- A code unit.
abbrev pub IsUnit : ℕ → Type 0
IsUnit c = c < 0x10000

abbrev waiting : Option ℕ → Str
waiting none = []
waiting (some h) = h ∷ []

abbrev WaitsHigh : Option ℕ → Type 0
WaitsHigh none = Unit
WaitsHigh (some h) = is_high h ≡ true

read-nothing : read (tokens []) ≡ some []
unfolding tokens assemble
read-nothing = refl

-- A character's escape, before the escapes of the others.
read-next :
    (c : ℕ) (r s t : Str)
    → c < 0x110000
    → is_scalar c ≡ true
    → read (tokens r) ≡ some s
    → t ≡ escape c ++ r
    → read (tokens t) ≡ some (units c ++ s)
read-next c r s t h k e q = rw q (escape-read c r h k ∙ ap (prefixed (units c)) e)

pair_units :
    (h c : ℕ)
    → is_high h ≡ true
    → is_low c ≡ true
    → units (0x10000 + (h - 0xd800) * 0x400 + (c - 0xdc00)) ≡ h ∷ c ∷ []
pair_units h c a b = ground arith

pair_scalar :
    (h c : ℕ)
    → is_high h ≡ true
    → is_low c ≡ true
    → (0x10000 + (h - 0xd800) * 0x400 + (c - 0xdc00) < 0x110000)
      × (is_scalar (0x10000 + (h - 0xd800) * 0x400 + (c - 0xdc00)) ≡ true)
pair_scalar h c a b = ground arith

some_append :
    (p r t : Str) (o : Option Str)
    → o ≡ some r
    → map_option (λ (z : Str). p ++ z) o ≡ some t
    → t ≡ p ++ r
some_append p r t o e q = ground arith

read-encode_from :
    (w : Option ℕ) (s t : Str)
    → WaitsHigh w
    → All IsUnit s
    → encode_from w s ≡ some t
    → read (tokens t) ≡ some (waiting w ++ s)
unfolding encode_from
read-encode_from none [] t h u e = ground (arith, read-nothing)
read-encode_from (some g) [] t h u e = cc
read-encode_from none (c ∷ s) t h u e = elim (Bool-cases (is_high c)) [
  | inl x ↦ read-encode_from (some c) s t x u.1 (ground arith)
  | inr x ↦ elim (Bool-cases (is_low c)) [
    | inl y ↦ absurd (ground arith)
    | inr y ↦ elim (Option-cases (encode_from none s)) [
      | inl n ↦ absurd (ground arith)
      | inr (r, n) ↦
          read-next c r s t (omega (arith, u.0)) (ground (arith, u.0))
            (read-encode_from none s r tt u.1 n) (ground arith)
          ∙ ground (arith, u.0)
    ]
  ]
]
read-encode_from (some g) (c ∷ s) t h u e = elim (Bool-cases (is_low c)) [
  | inr y ↦ absurd (ground arith)
  | inl y ↦ elim (Option-cases (encode_from none s)) [
    | inl n ↦ absurd (ground arith)
    | inr (r, n) ↦
        let point = 0x10000 + (g - 0xd800) * 0x400 + (c - 0xdc00) in
        let (small, scalar) = pair_scalar g c h y in
        let whole = some_append (escape point) r t (encode_from none s) n (rw y at e) in
        read-next point r s t small scalar (read-encode_from none s r tt u.1 n) whole
        ∙ ap (λ (z : Str). some (z ++ s)) (pair_units g c h y)
  ]
]

-- What a text is escaped to is read as the text.
pub decode_uri_component-encode_from :
    (s t : Str) → All IsUnit s → encode_from none s ≡ some t → decode_uri_component t ≡ some s
unfolding decode_uri_component
decode_uri_component-encode_from s t u e = read_lem (tokens t) ∙ read-encode_from none s t tt u e
  where
    read_lem :
        (o : Option (List Token)) → elim o [ none ↦ none | some ts ↦ assemble ready ts ] ≡ read o
    read_lem none = refl
    read_lem (some ts) = refl

-- A text in which every surrogate is one of a pair.
unfoldable pub is_paired : Option ℕ → Str → Bool
is_paired none [] = true
is_paired (some h) [] = false
is_paired none (c ∷ s) =
    let rest = is_paired (if is_high c then some c else none) s in if is_low c then false else rest
is_paired (some h) (c ∷ s) = let rest = is_paired none s in if is_low c then rest else false

pub encode_from-is_paired :
    (w : Option ℕ) (s : Str) → is_paired w s ≡ true → (t : Str) × (encode_from w s ≡ some t)
unfolding encode_from is_paired
encode_from-is_paired none [] h = ([], refl)
encode_from-is_paired (some g) [] h = absurd (cc)
encode_from-is_paired none (c ∷ s) h = elim (Bool-cases (is_high c)) [
  | inl x ↦ let (t, e) = encode_from-is_paired (some c) s (ground arith) in (t, ground arith)
  | inr x ↦
      let (t, e) = encode_from-is_paired none s (ground arith) in (escape c ++ t, ground arith)
]
encode_from-is_paired (some g) (c ∷ s) h =
    let (t, e) = encode_from-is_paired none s (ground arith) in
    (escape (0x10000 + (g - 0xd800) * 0x400 + (c - 0xdc00)) ++ t, ground arith)

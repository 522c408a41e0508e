-- ===== src/Routes/Uri.antt =====
-- `decodeURIComponent`, on UTF-16: none is the URIError that it throws.
use mathlib.Core.Option.{map as map_option}
use quiteline.Base.{
  Bool, true, false, ◌&&◌, ◌||◌, List, [], ◌∷◌, ◌++◌, Option, none, some, ℕ, zero, suc, ◌+◌, ◌-◌,
  ◌*◌, Str, ltb, leb, ◌==◌, if◌then◌else◌, units,
}

pub data Token : Type 0 where
  -- A character as it is, and a byte that is escaped.
  plain byte : ℕ → Token

unfoldable pub unhex : ℕ → Option ℕ
unhex c =
    if leb b'0' c && leb c b'9'
    then some (c - b'0')
    else if leb b'A' c && leb c b'F'
    then some (c - b'A' + 10)
    else if leb b'a' c && leb c b'f'
    then some (c - b'a' + 10)
    else none

abbrev pub escaped : Option ℕ → Option ℕ → Option (List Token) → Option (List Token)
escaped (some h) (some l) (some ts) = some (byte (h * 16 + l) ∷ ts)
escaped (some h) (some l) none = none
escaped (some h) none ts = none
escaped none l ts = none

unfoldable pub tokens : Str → Option (List Token)
unfolding unhex
tokens [] = some []
tokens (c ∷ []) = if c == b'%' then none else some (plain c ∷ [])
tokens (c ∷ d ∷ []) =
    if c == b'%' then none else map_option (λ (ts : List Token). plain c ∷ ts) (tokens (d ∷ []))
tokens (c ∷ d ∷ e ∷ s) = elim (c == b'%') [
  | true ↦ escaped (unhex d) (unhex e) (tokens s)
  | false ↦ map_option (λ (ts : List Token). plain c ∷ ts) (tokens (d ∷ e ∷ s))
]

-- What the bytes so far begin.
pub data Wait : Type 0 where
  ready broken : Wait
  -- How many bytes are to come after the next, the value so far, and the least that it may have.
  more : ℕ → ℕ → ℕ → Wait

abbrev pub lead : ℕ → Wait
lead b =
    if ltb b 0x80
    then ready
    else if ltb b 0xc0
    then broken
    else if ltb b 0xe0
    then more 0 (b - 0xc0) 0x80
    else if ltb b 0xf0
    then more 1 (b - 0xe0) 0x800
    else if ltb b 0xf8
    then more 2 (b - 0xf0) 0x10000
    else broken

-- A code point that UTF-8 may hold.
abbrev pub is_scalar : ℕ → Bool
is_scalar v = ltb v 0xd800 || (leb 0xe000 v && ltb v 0x110000)

abbrev pub follow : ℕ → ℕ → ℕ → ℕ → Wait
follow (suc n) v least b = more n (v * 64 + (b - 0x80)) least
follow zero v least b =
    if leb least (v * 64 + (b - 0x80)) && is_scalar (v * 64 + (b - 0x80)) then ready else broken

abbrev pub after : Wait → Token → Wait
after ready (plain c) = ready
after ready (byte b) = lead b
after broken t = broken
after (more n v least) (plain c) = broken
after (more n v least) (byte b) = if leb 0x80 b && ltb b 0xc0 then follow n v least b else broken

-- The code units that a token completes.
abbrev pub completed : Wait → Token → Str
completed ready (plain c) = c ∷ []
completed ready (byte b) = if ltb b 0x80 then b ∷ [] else []
completed broken t = []
completed (more n v least) (plain c) = []
completed (more (suc n) v least) (byte b) = []
completed (more zero v least) (byte b) = units (v * 64 + (b - 0x80))

unfoldable pub assemble : Wait → List Token → Option Str
assemble ready [] = some []
assemble broken [] = none
assemble (more n v least) [] = none
assemble w (t ∷ ts) = map_option (λ (s : Str). completed w t ++ s) (assemble (after w t) ts)

unfoldable pub decode_uri_component : Str → Option Str
unfolding tokens assemble
decode_uri_component s = elim (tokens s) [ none ↦ none | some ts ↦ assemble ready ts ]

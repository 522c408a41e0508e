-- ===== src/Api/Request.antt =====
-- What `fetch` is called with, and the URLs that are made of it. (frontend/src/lib/api.ts)
use mathlib.Core.Option.{map as map_option}
use quiteline.Base.{
  Bool, true, false, ◌&&◌, ◌||◌, List, [], ◌∷◌, ◌++◌, Option, none, some, ℕ, ◌+◌, ◌-◌, ◌*◌, ◌/◌,
  ◌%◌, Str, ltb, leb, ◌==◌, if◌then◌else◌, codes, truthy, not, String,
}

-- The values that the bodies hold: `JSON.stringify` leaves out a field that is undefined.
pub data Plain : Type 0 where
  text : Str → Plain
  number : ℕ → Plain
  flag : Bool → Plain
  texts : List Str → Plain

pub data Json : Type 0 where
  plain : Plain → Json
  object : List (Str × Plain) → Json

abbrev pub field : String → Str → Str × Json
field name s = (codes name, plain (text s))

abbrev pub optional_field : String → Option Str → List (Str × Json)
optional_field name none = []
optional_field name (some s) = field name s ∷ []

pub data Part : Type 0 where
  -- The bytes of the blob, and the name of the file.
  blob : List ℕ → Str → Part
  value : Str → Part

pub data Body : Type 0 where
  no_body : Body
  json : List (Str × Json) → Body
  form : List (Str × Part) → Body

pub data Method : Type 0 where
  get post put delete patch : Method

-- A template literal after `BASE`: what stands in it, and what `encodeURIComponent` is applied to.
pub data Piece : Type 0 where
  fixed : Str → Piece
  component : Str → Piece

pub record Request : Type 0 where
  pub method : Method
  pub path : List Piece
  pub headers : List (Str × Str)
  pub body : Body
  -- `credentials: 'include'`.
  pub with_credentials : Bool

abbrev pub bearer : Str → Str × Str
bearer token = (codes "Authorization", codes "Bearer " ++ token)

abbrev pub auth_headers : Str → List (Str × Str)
auth_headers token = (codes "Content-Type", codes "application/json") ∷ bearer token ∷ []

-- `encodeURIComponent`, on UTF-16: none is a URIError, which a lone surrogate raises.
abbrev pub is_unreserved : ℕ → Bool
is_unreserved c =
    (leb b'A' c && leb c b'Z')
    || (leb b'a' c && leb c b'z')
    || (leb b'0' c && leb c b'9')
    || (c == b'-')
    || (c == b'_')
    || (c == b'.')
    || (c == b'!')
    || (c == b'~')
    || (c == b'*')
    || (c == 39)
    || (c == b'(')
    || (c == b')')

abbrev pub hex : ℕ → ℕ
hex d = if ltb d 10 then b'0' + d else b'A' + (d - 10)

abbrev pub percent : ℕ → Str
percent b = b'%' ∷ hex (b / 16) ∷ hex (b % 16) ∷ []

-- The bytes of a code point in UTF-8, each escaped.
abbrev pub percents : ℕ → Str
percents c =
    if ltb c 0x80
    then percent c
    else if ltb c 0x800
    then percent (0xc0 + c / 64) ++ percent (0x80 + c % 64)
    else if ltb c 0x10000
    then percent (0xe0 + c / 4096) ++ percent (0x80 + c / 64 % 64) ++ percent (0x80 + c % 64)
    else percent (0xf0 + c / 262144)
      ++ percent (0x80 + c / 4096 % 64)
      ++ percent (0x80 + c / 64 % 64)
      ++ percent (0x80 + c % 64)

unfoldable pub escape : ℕ → Str
escape c = if is_unreserved c then c ∷ [] else percents c

abbrev pub is_high : ℕ → Bool
is_high c = leb 0xd800 c && ltb c 0xdc00

abbrev pub is_low : ℕ → Bool
is_low c = leb 0xdc00 c && ltb c 0xe000

-- The first argument is a high surrogate that waits for its low one.
unfoldable pub encode_from : Option ℕ → Str → Option Str
unfolding escape
encode_from none [] = some []
encode_from (some h) [] = none
encode_from none (c ∷ s) =
    let rest = encode_from (if is_high c then some c else none) s in
    if is_high c
    then rest
    else if is_low c
    then none
    else map_option (λ (t : Str). escape c ++ t) rest
encode_from (some h) (c ∷ s) =
    let rest = encode_from none s in
    if is_low c
    then map_option (λ (t : Str). escape (0x10000 + (h - 0xd800) * 0x400 + (c - 0xdc00)) ++ t) rest
    else none

-- The URL of a request, after `BASE`.
unfoldable pub url : List Piece → Option Str
unfolding encode_from
url [] = some []
url (fixed t ∷ p) = map_option (λ (u : Str). t ++ u) (url p)
url (component s ∷ p) = elim (encode_from none s) [
  | none ↦ none
  | some t ↦ map_option (λ (u : Str). t ++ u) (url p)
]

abbrev pub starts_with : Str → Str → Bool
starts_with [] s = true
starts_with (p ∷ ps) [] = false
starts_with (p ∷ ps) (c ∷ s) = (p == c) && starts_with ps s

-- `absoluteAvatarUrl`, given `BASE`.
unfoldable pub absolute_avatar_url : Str → Option Str → Str
absolute_avatar_url base none = []
absolute_avatar_url base (some u) =
    if not (truthy u)
    then []
    else if starts_with (codes "http://") u || starts_with (codes "https://") u
    then u
    else base ++ u

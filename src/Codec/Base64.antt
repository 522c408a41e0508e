-- ===== src/Codec/Base64.antt =====
-- Base64 as browsers have it, and its variant for URLs. (frontend/src/lib/crypto.ts)
use mathlib.Core.Option.{map as map_option}
use quiteline.Base.{
  Bool, not, ◌||◌, List, [], ◌∷◌, ◌++◌, map, Option, none, some, ℕ, ◌+◌, ◌-◌, ◌*◌, ◌/◌, ◌%◌, Str,
  ltb, leb, ◌==◌, if◌then◌else◌, length, replicate, keep, ◌&&◌,
}

-- The character of six bits.
unfoldable pub char6 : ℕ → ℕ
char6 i =
    if ltb i 26
    then b'A' + i
    else if ltb i 52
    then b'a' + (i - 26)
    else if ltb i 62
    then b'0' + (i - 52)
    else if i == 62
    then b'+'
    else b'/'

-- The bits of bytes, by six, with zeros at the end.
unfoldable pub sextets : List ℕ → List ℕ
sextets [] = []
sextets (a ∷ []) = a / 4 ∷ a % 4 * 16 ∷ []
sextets (a ∷ b ∷ []) = a / 4 ∷ (a % 4 * 16 + b / 16) ∷ b % 16 * 4 ∷ []
sextets (a ∷ b ∷ c ∷ r) = a / 4 ∷ (a % 4 * 16 + b / 16) ∷ (b % 16 * 4 + c / 64) ∷ c % 64 ∷ sextets r

-- How many characters are missing to a multiple of four.
unfoldable pub missing : ℕ → ℕ
missing n = (n + 3) / 4 * 4 - n

-- `btoa`, of bytes.
unfoldable pub btoa : List ℕ → Str
unfolding char6 sextets missing
btoa bytes = map char6 (sextets bytes) ++ replicate (missing (length (sextets bytes))) b'='

-- `s.replaceAll(a, b)` for characters, and `s.replaceAll(a, '')`.
abbrev pub replaced : ℕ → ℕ → ℕ → ℕ
replaced a b c = if c == a then b else c

unfoldable pub replace_all : ℕ → ℕ → Str → Str
replace_all a b s = map (replaced a b) s

unfoldable pub remove_all : ℕ → Str → Str
remove_all a s = keep (λ c. not (c == a)) s

-- `bytesToBase64URL`.
unfoldable pub bytes_to_base64_url : List ℕ → Str
unfolding btoa replace_all remove_all
bytes_to_base64_url bytes =
    remove_all b'=' (replace_all b'/' b'_' (replace_all b'+' b'-' (btoa bytes)))

-- What `atob` skips.
abbrev pub is_space : ℕ → Bool
is_space c = (c == 9) || (c == 10) || (c == 12) || (c == 13) || (c == 32)

-- The six bits of a character.
unfoldable pub value6 : ℕ → Option ℕ
value6 c =
    if leb b'A' c && leb c b'Z'
    then some (c - b'A')
    else if leb b'a' c && leb c b'z'
    then some (c - b'a' + 26)
    else if leb b'0' c && leb c b'9'
    then some (c - b'0' + 52)
    else if c == b'+'
    then some 62
    else if c == b'/'
    then some 63
    else none

unfoldable pub values6 : Str → Option (List ℕ)
unfolding value6
values6 [] = some []
values6 (c ∷ s) = elim (value6 c) [
  | none ↦ none
  | some v ↦ map_option (λ (vs : List ℕ). v ∷ vs) (values6 s)
]

-- The bytes of six bits each; what is left of the last ones is dropped.
unfoldable pub bytes_of : List ℕ → List ℕ
bytes_of [] = []
bytes_of (a ∷ []) = []
bytes_of (a ∷ b ∷ []) = (a * 4 + b / 16) ∷ []
bytes_of (a ∷ b ∷ c ∷ []) = (a * 4 + b / 16) ∷ (b % 16 * 16 + c / 4) ∷ []
bytes_of (a ∷ b ∷ c ∷ d ∷ r) =
    (a * 4 + b / 16) ∷ (b % 16 * 16 + c / 4) ∷ (c % 4 * 64 + d) ∷ bytes_of r

-- A text without one `=` at its end, if there is one.
unfoldable pub drop_pad : Str → Str
drop_pad [] = []
drop_pad (c ∷ []) = if c == b'=' then [] else c ∷ []
drop_pad (c ∷ d ∷ s) = c ∷ drop_pad (d ∷ s)

-- `atob` of a text without spaces: none is the error that it throws.
unfoldable pub atob_tight : Str → Option (List ℕ)
unfolding drop_pad values6 bytes_of
atob_tight s =
    let t = if length s % 4 == 0 then drop_pad (drop_pad s) else s in
    if length t % 4 == 1 then none else map_option bytes_of (values6 t)

unfoldable pub atob : Str → Option (List ℕ)
unfolding atob_tight
atob s = atob_tight (keep (λ c. not (is_space c)) s)

-- `base64URLToBytes`: `padEnd` puts `=` behind the text up to a multiple of four.
unfoldable pub base64_url_to_bytes : Str → Option (List ℕ)
unfolding atob replace_all missing
base64_url_to_bytes value =
    let s = replace_all b'_' b'/' (replace_all b'-' b'+' value) in
    atob (s ++ replicate (missing (length value)) b'=')

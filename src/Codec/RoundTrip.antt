-- ===== src/Codec/RoundTrip.antt =====
-- Bytes that are written as a text for URLs and read again. (frontend/src/lib/crypto.ts)
use mathlib.Core.Option.{map as map_option}
use mathlib.Core.List.{append-nil, append_assoc}
use quiteline.Base.{
  ◌≡◌, refl, sym, ap, ◌∙◌, false, not, List, [], ◌∷◌, ◌++◌, map, some, ℕ, zero, suc, ◌+◌, ◌%◌, ◌<◌,
  Str, ◌==◌, length, length-append, length-replicate, replicate, keep, All, arith, ◌⊎◌, inl, inr,
}
use quiteline.Codec.Base64.{
  char6, sextets, missing, btoa, replaced, replace_all, remove_all, bytes_to_base64_url, is_space,
  value6, values6, bytes_of, drop_pad, atob_tight, atob, base64_url_to_bytes,
}

abbrev pub IsByte : ℕ → Type 0
IsByte b = b < 256

-- The character of six bits in a URL.
abbrev pub url6 : ℕ → ℕ
url6 i = replaced b'/' b'_' (replaced b'+' b'-' (char6 i))

url6_not_pad : (i : ℕ) → (url6 i == b'=') ≡ false
unfolding char6
url6_not_pad i = ground arith

url6_back : (i : ℕ) → replaced b'_' b'/' (replaced b'-' b'+' (url6 i)) ≡ char6 i
unfolding char6
url6_back i = ground arith

char6_not_space : (i : ℕ) → is_space (char6 i) ≡ false
unfolding char6
char6_not_space i = ground arith

char6_not_pad : (i : ℕ) → (char6 i == b'=') ≡ false
unfolding char6
char6_not_pad i = ground arith

value6-char6 : (i : ℕ) → i < 64 → value6 (char6 i) ≡ some i
unfolding char6 value6
value6-char6 i h = ground arith

values6-char6 : (xs : List ℕ) → All (λ i. i < 64) xs → values6 (map char6 xs) ≡ some xs
unfolding values6
values6-char6 [] h = refl
values6-char6 (i ∷ xs) h = rw (value6-char6 i h.0, values6) (rw (values6-char6 xs h.1) refl)

sextets-small : (bs : List ℕ) → All IsByte bs → All (λ i. i < 64) (sextets bs)
unfolding sextets
sextets-small [] h = tt
sextets-small (a ∷ []) h = (omega arith, (omega arith, tt))
sextets-small (a ∷ b ∷ []) h = (omega arith, (omega arith, (omega arith, tt)))
sextets-small (a ∷ b ∷ c ∷ r) h =
    (omega arith, (omega arith, (omega arith, (omega arith, sextets-small r h.1.1.1))))

cons_eq : {a b : ℕ} {s t : List ℕ} → a ≡ b → s ≡ t → a ∷ s ≡ b ∷ t
cons_eq p q = rw (p, q) refl

bytes_of-sextets : (bs : List ℕ) → All IsByte bs → bytes_of (sextets bs) ≡ bs
unfolding sextets bytes_of
bytes_of-sextets [] h = refl
bytes_of-sextets (a ∷ []) h = ap (λ (x : ℕ). x ∷ []) (omega arith)
bytes_of-sextets (a ∷ b ∷ []) h = cons_eq (omega arith) (ap (λ (x : ℕ). x ∷ []) (omega arith))
bytes_of-sextets (a ∷ b ∷ c ∷ r) h =
    cons_eq (omega arith)
      (cons_eq (omega arith) (cons_eq (omega arith) (bytes_of-sextets r h.1.1.1)))

-- Of the characters that `btoa` makes, a multiple of four is whole, or two or three are over.
abbrev IsFull : ℕ → Type 0
IsFull n = (n % 4 ≡ 0) ⊎ (n % 4 ≡ 2) ⊎ (n % 4 ≡ 3)

length-sextets : (bs : List ℕ) → IsFull (length (sextets bs))
unfolding sextets
length-sextets [] = inl refl
length-sextets (a ∷ []) = inr (inl refl)
length-sextets (a ∷ b ∷ []) = inr (inr refl)
length-sextets (a ∷ b ∷ c ∷ r) = add_four (length (sextets r)) (length-sextets r)
  where
    add_four : (n : ℕ) → IsFull n → IsFull (suc (suc (suc (suc n))))
    add_four n (inl e) = inl (omega arith)
    add_four n (inr (inl e)) = inr (inl (omega arith))
    add_four n (inr (inr e)) = inr (inr (omega arith))

length-map : (f : ℕ → ℕ) (xs : List ℕ) → length (map f xs) ≡ length xs
length-map f [] = refl
length-map f (x ∷ xs) = ap suc (length-map f xs)

-- Writing: the pads go, and every character is the URL's.
remove_pads :
    (n : ℕ)
    → remove_all b'=' (replace_all b'/' b'_' (replace_all b'+' b'-' (replicate n b'='))) ≡ []
unfolding remove_all replace_all
remove_pads zero = refl
remove_pads (suc n) = remove_pads n

written_from :
    (xs : List ℕ) (n : ℕ)
    → remove_all b'='
        (replace_all b'/' b'_' (replace_all b'+' b'-' (map char6 xs ++ replicate n b'=')))
      ≡ map url6 xs
unfolding remove_all replace_all
written_from [] n = remove_pads n
written_from (x ∷ xs) n = rw (url6_not_pad x) (ap (λ (t : Str). url6 x ∷ t) (written_from xs n))

pub written : (bs : List ℕ) → bytes_to_base64_url bs ≡ map url6 (sextets bs)
unfolding bytes_to_base64_url btoa
written bs = written_from (sextets bs) (missing (length (sextets bs)))

read_back :
    (xs : List ℕ) → replace_all b'_' b'/' (replace_all b'-' b'+' (map url6 xs)) ≡ map char6 xs
unfolding replace_all
read_back [] = refl
read_back (x ∷ xs) = cons_eq (url6_back x) (read_back xs)

-- Reading: no space is there, and the pads go again.
tight_pads : (n : ℕ) → keep (λ c. not (is_space c)) (replicate n b'=') ≡ replicate n b'='
tight_pads zero = refl
tight_pads (suc n) = ap (λ (t : Str). b'=' ∷ t) (tight_pads n)

tight :
    (xs : List ℕ) (n : ℕ)
    → keep (λ c. not (is_space c)) (map char6 xs ++ replicate n b'=')
      ≡ map char6 xs ++ replicate n b'='
tight [] n = tight_pads n
tight (x ∷ xs) n = rw (char6_not_space x) (ap (λ (t : Str). char6 x ∷ t) (tight xs n))

drop_pad-none : (xs : List ℕ) → drop_pad (map char6 xs) ≡ map char6 xs
unfolding drop_pad
drop_pad-none [] = refl
drop_pad-none (x ∷ []) = rw (char6_not_pad x) refl
drop_pad-none (x ∷ y ∷ xs) = ap (λ (t : Str). char6 x ∷ t) (drop_pad-none (y ∷ xs))

drop_pad-last : (s : Str) → drop_pad (s ++ b'=' ∷ []) ≡ s
unfolding drop_pad
drop_pad-last [] = refl
drop_pad-last (c ∷ []) = refl
drop_pad-last (c ∷ d ∷ s) = ap (λ (r : Str). c ∷ r) (drop_pad-last (d ∷ s))

atob_padded :
    (s padded : Str)
    → length padded % 4 ≡ 0
    → drop_pad (drop_pad padded) ≡ s
    → (length s % 4 == 1) ≡ false
    → atob_tight padded ≡ map_option bytes_of (values6 s)
unfolding atob_tight
atob_padded s padded l d n = rw l (rw d (rw n refl))

length-char6 : (xs : List ℕ) (n : ℕ) → length (map char6 xs ++ replicate n b'=') ≡ length xs + n
length-char6 xs n =
    length-append (map char6 xs) (replicate n b'=')
    ∙ rw (length-map char6 xs, length-replicate {A = ℕ} n b'=') refl

missing-full :
    (n : ℕ)
    → IsFull n
    → (missing n ≡ 0) × (n % 4 ≡ 0) ⊎ (missing n ≡ 1) × (n % 4 ≡ 3) ⊎ (missing n ≡ 2) × (n % 4 ≡ 2)
unfolding missing
missing-full n (inl e) = inl (omega arith, e)
missing-full n (inr (inl e)) = inr (inr (omega arith, e))
missing-full n (inr (inr e)) = inr (inl (omega arith, e))

not_one : (n : ℕ) → IsFull n → (n % 4 == 1) ≡ false
not_one n (inl e) = rw e refl
not_one n (inr (inl e)) = rw e refl
not_one n (inr (inr e)) = rw e refl

atob_tight-char6 :
    (xs : List ℕ)
    → IsFull (length xs)
    → atob_tight (map char6 xs ++ replicate (missing (length xs)) b'=')
      ≡ map_option bytes_of (values6 (map char6 xs))
atob_tight-char6 xs w =
    let s = map char6 xs in
    let n = length xs in
    let rest : (length s % 4 == 1) ≡ false = rw (length-map char6 xs) (not_one n w) in
    elim (missing-full n w) [
      | inl (z, e) ↦ rw z (
          atob_padded s (s ++ []) (rw (length-char6 xs 0) (omega arith))
            (rw (append-nil s) (rw (drop_pad-none xs) (drop_pad-none xs))) rest)
      | inr (inl (z, e)) ↦ rw z (
          atob_padded s (s ++ b'=' ∷ []) (rw (length-char6 xs 1) (omega arith))
            (rw (drop_pad-last s) (drop_pad-none xs)) rest)
      | inr (inr (z, e)) ↦ rw z (
          atob_padded s (s ++ b'=' ∷ b'=' ∷ []) (rw (length-char6 xs 2) (omega arith))
            (rw (sym (append_assoc s (b'=' ∷ []) (b'=' ∷ [])))
              (rw (drop_pad-last (s ++ b'=' ∷ [])) (drop_pad-last s)))
            rest)
    ]

-- Bytes that are written as a text for URLs are read again as they were.
pub base64_url_to_bytes-bytes_to_base64_url :
    (bytes : List ℕ)
    → All IsByte bytes
    → base64_url_to_bytes (bytes_to_base64_url bytes) ≡ some bytes
unfolding base64_url_to_bytes atob
base64_url_to_bytes-bytes_to_base64_url bytes h =
    let xs = sextets bytes in
    rw (written bytes) (
      rw (read_back xs, length-map url6 xs)
        (rw (tight xs (missing (length xs))) (
          atob_tight-char6 xs (length-sextets bytes)
          ∙ ap (map_option bytes_of) (values6-char6 xs (sextets-small bytes h))
          ∙ ap some (bytes_of-sextets bytes h))))

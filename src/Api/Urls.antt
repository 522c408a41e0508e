-- ===== src/Api/Urls.antt =====
-- The URLs and the headers of the requests. (frontend/src/lib/api.ts)
use mathlib.Core.Option.{map as map_option}
use quiteline.Base.{
  ◌≡◌, refl, sym, ◌∙◌, Bool, true, false, ◌||◌, List, [], ◌∷◌, ◌++◌, map, Option, none, some, ℕ,
  ◌+◌, ◌-◌, ◌*◌, ◌/◌, subst, Bool-cases, ◌%◌, Str, ◌==◌, if◌then◌else◌, arith, All, replicate, zero,
  suc, length, Option-cases, inl, inr,
}
use quiteline.Api.Request.{
  Request, Piece, fixed, component, url, escape, encode_from, percent, percents, hex, bearer,
  is_unreserved, is_high, is_low,
}
use quiteline.Api.All.{Inputs, requests}

-- The characters that part a URL: `/`, `?`, `#`, `&` and `=`.
abbrev pub is_delimiter : ℕ → Bool
is_delimiter c = (c == b'/') || (c == b'?') || (c == b'#') || (c == b'&') || (c == b'=')

abbrev pub count : ℕ → Str → ℕ
count c [] = 0
count c (d ∷ s) = (if c == d then 1 else 0) + count c s

count-append : (c : ℕ) (s t : Str) → count c (s ++ t) ≡ count c s + count c t
count-append c [] t = omega arith
count-append c (d ∷ s) t = omega (arith, count-append c s t)

-- How often a character stands in what is fixed of a URL.
abbrev pub fixed_count : ℕ → List Piece → ℕ
fixed_count c [] = 0
fixed_count c (fixed t ∷ p) = count c t + fixed_count c p
fixed_count c (component s ∷ p) = fixed_count c p

-- What `some` of a text that is put before another comes from.
prefix-some :
    (t u : Str) (o : Option Str)
    → map_option (λ (r : Str). t ++ r) o ≡ some u
    → (r : Str) × (o ≡ some r) × (t ++ r ≡ u)
prefix-some t u none e = cc
prefix-some t u (some r) e = (r, refl, cc e)

module _ (c : ℕ) (h : is_delimiter c ≡ true) where
  count-hex : (d : ℕ) → (c == hex d) ≡ false
  count-hex d = ground arith

  count-percent : (b : ℕ) → count c (percent b) ≡ 0
  count-percent b = rw (count-hex (b / 16), count-hex (b % 16)) (ground arith)

  count-append_none : (s t : Str) → count c s ≡ 0 → count c t ≡ 0 → count c (s ++ t) ≡ 0
  count-append_none s t p q = rw (count-append c s t) (rw (p, q))

  count-if :
      (b : Bool) (s t : Str) → count c s ≡ 0 → count c t ≡ 0 → count c (if b then s else t) ≡ 0
  count-if true s t p q = p
  count-if false s t p q = q

  count-percents : (d : ℕ) → count c (percents d) ≡ 0
  count-percents d = search (count-if, count-append_none, count-percent)

  count-letter : (d : ℕ) → is_unreserved d ≡ true → count c (d ∷ []) ≡ 0
  count-letter d u = ground arith

  count-escape : (d : ℕ) → count c (escape d) ≡ 0
  unfolding escape
  count-escape d = elim (Bool-cases (is_unreserved d)) [
    | inl u ↦ rw u (count-letter d u)
    | inr u ↦ rw u (count-percents d)
  ]

  count-after :
      (d : ℕ) (o : Option Str) (t : Str)
      → ((r : Str) → o ≡ some r → count c r ≡ 0)
      → map_option (λ (r : Str). escape d ++ r) o ≡ some t
      → count c t ≡ 0
  count-after d o t f e =
      let (r, q, v) = prefix-some (escape d) t o e in
      rw (sym v) (count-append_none (escape d) r (count-escape d) (f r q))

  count-test :
      (b : Bool) (o p : Option Str) (t : Str)
      → (o ≡ some t → count c t ≡ 0)
      → (p ≡ some t → count c t ≡ 0)
      → (if b then o else p) ≡ some t
      → count c t ≡ 0
  count-test true o p t f g e = f e
  count-test false o p t f g e = g e

  -- An encoded text, if there is one, has no delimiter.
  pub count-encode_from : (w : Option ℕ) (s t : Str) → encode_from w s ≡ some t → count c t ≡ 0
  unfolding encode_from
  count-encode_from none [] t e = cc
  count-encode_from (some g) [] t e = cc
  count-encode_from none (d ∷ s) t e =
      let rest = encode_from (if is_high d then some d else none) s in
      let ih = count-encode_from (if is_high d then some d else none) s in
      count-test (is_high d) rest _ t (ih t)
        (count-test (is_low d) none _ t (λ n. cc) (count-after d rest t ih)) e
  count-encode_from (some g) (d ∷ s) t e =
      count-test (is_low d) _ none t
        (count-after (0x10000 + (g - 0xd800) * 0x400 + (d - 0xdc00)) (encode_from none s) t
          (count-encode_from none s))
        (λ n. cc) e

  count-url : (p : List Piece) (u : Str) → url p ≡ some u → count c u ≡ fixed_count c p
  unfolding url
  count-url [] u e = cc
  count-url (fixed t ∷ p) u e =
      let (r, q, v) = prefix-some t u (url p) e in
      rw (sym v) (rw (count-append c t r) (rw (count-url p r q)))
  count-url (component s ∷ p) u e = elim (Option-cases (encode_from none s)) [
    | inl n ↦ cc (
        subst
          (λ (o : Option Str).
            elim o [ none ↦ none | some t ↦ map_option (λ (u : Str). t ++ u) (url p) ] ≡ some u)
          n e)
    | inr (t, n) ↦
        let (r, q, v) = prefix-some t u (url p) (
          subst
            (λ (o : Option Str).
              elim o [ none ↦ none | some t ↦ map_option (λ (u : Str). t ++ u) (url p) ] ≡ some u)
            n e) in
        rw (sym v) (
          rw (count-append c t r)
            (rw (count-encode_from none s t n) (omega (arith, count-url p r q))))
  ]

-- `xs[k]`.
abbrev pub get_elem? {ℓ} : {A : Type ℓ} → List A → ℕ → Option A
get_elem? [] k = none
get_elem? (x ∷ xs) zero = some x
get_elem? (x ∷ xs) (suc k) = get_elem? xs k

get_elem?_of_map {ℓ} :
    {A : Type ℓ} (f : A → ℕ) (k : ℕ) (xs ys : List A)
    → map f xs ≡ map f ys
    → (x y : A) → get_elem? xs k ≡ some x
    → get_elem? ys k ≡ some y
    → f x ≡ f y
get_elem?_of_map f k [] ys m x y p q = cc
get_elem?_of_map f k (z ∷ xs) [] m x y p q = cc
get_elem?_of_map f zero (z ∷ xs) (w ∷ ys) m x y p q = cc
get_elem?_of_map f (suc k) (z ∷ xs) (w ∷ ys) m x y p q = get_elem?_of_map f k xs ys (cc m) x y p q

All-of_map {ℓ κ} :
    {A : Type ℓ} {B : Type κ} (f : A → B) (b : B) (xs : List A)
    → map f xs ≡ replicate (length xs) b
    → All (λ x. f x ≡ b) xs
All-of_map f b [] e = tt
All-of_map f b (x ∷ xs) e = (cc e, All-of_map f b xs (cc e))

All-both {ℓ} :
    {A : Type ℓ} (P Q : A → Type 0) (xs : List A) → All P xs → All Q xs → All (λ x. P x × Q x) xs
All-both P Q [] p q = tt
All-both P Q (x ∷ xs) p q = ((p.0, q.0), All-both P Q xs p.1 q.1)

-- `xs.at(-1)`.
abbrev pub last_of {ℓ} : {A : Type ℓ} → List A → Option A
last_of [] = none
last_of (x ∷ []) = some x
last_of (x ∷ y ∷ xs) = last_of (y ∷ xs)

-- A character that parts URLs stands in a request's URL as often as in another's that is made by
-- the same function, whatever texts the two are made of: no id and no date can add a path segment
-- or a query to it. The flag that chooses between two fixed words is the same.
pub same_delimiters :
    (c : ℕ) (i j : Inputs) (k : ℕ) (r q : Request) (u v : Str)
    → is_delimiter c ≡ true
    → i.accept ≡ j.accept
    → get_elem? (requests i) k ≡ some r
    → get_elem? (requests j) k ≡ some q
    → url r.path ≡ some u
    → url q.path ≡ some v
    → count c u ≡ count c v
same_delimiters c i j k r q u v h a p s e f =
    count-url c h r.path u e
    ∙ get_elem?_of_map (λ (r : Request). fixed_count c r.path) k (requests i) (requests j)
        (rw a refl) r q p s
    ∙ sym (count-url c h q.path v f)

abbrev pub Carries : Str → Request → Type 0
Carries token r = (last_of r.headers ≡ some (bearer token)) × (r.with_credentials ≡ false)

-- Every request that is made for a session carries the session's token in its last header, and
-- does not ask for credentials to be included.
pub requests-bearer :
    (i : Inputs)
    → All
        (λ r. (last_of r.headers ≡ some (bearer i.token)) × (r.with_credentials ≡ false))
        (requests i)
requests-bearer i =
    let headers =
      All-of_map (λ (r : Request). last_of r.headers) (some (bearer i.token)) (requests i) refl in
    let cookies = All-of_map (λ (r : Request). r.with_credentials) false (requests i) refl in
    All-both (λ r. last_of r.headers ≡ some (bearer i.token)) (λ r. r.with_credentials ≡ false)
      (requests i) headers cookies

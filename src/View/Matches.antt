-- ===== src/View/Matches.antt =====
-- What the alternatives of the inline pattern match. (frontend/src/components/chat/ChatView.tsx)
use mathlib.Core.List.{append_assoc}
use quiteline.Base.{
  ◌≡◌, refl, ap, sym, Bool, List, [], ◌∷◌, ◌++◌, Option, none, some, ℕ, ◌<◌, Str, ◌==◌, codes,
  length, length-append, Bool-cases, Option-cases, inl, inr, arith, ◌⊎◌, subst, All, false,
}
use quiteline.Js.Split.{strip_prefix, strip_prefix-append}
use quiteline.View.Markdown.{
  Node, text, br, link, strong, em, code, strike, ends_link, span, non_empty, until, between,
  scheme, link_at, code_at, as_node, or_match, match_at,
}

-- What a node is written as.
abbrev pub source : Node → Str
source (text s) = s
source br = 10 ∷ []
source (link u) = u
source (strong s) = codes "**" ++ (s ++ codes "**")
source (em s) = codes "*" ++ (s ++ codes "*")
source (code s) = 96 ∷ (s ++ 96 ∷ [])
source (strike s) = codes "~~" ++ (s ++ codes "~~")

abbrev pub sources : List Node → Str
sources [] = []
sources (n ∷ ns) = source n ++ sources ns

sources-append : (ns ms : List Node) → sources (ns ++ ms) ≡ sources ns ++ sources ms
sources-append [] ms = refl
sources-append (n ∷ ns) ms =
    rw (sources-append ns ms) (sym (append_assoc (source n) (sources ns) (sources ms)))

span-append : (stops : ℕ → Bool) (s l r : Str) → span stops s ≡ (l, r) → s ≡ l ++ r
unfolding span
span-append stops [] l r e = ground arith
span-append stops (c ∷ s) l r e =
    ground (arith, span-append stops s (span stops s).0 (span stops s).1 refl)

until-append : (mark s l r : Str) → until mark s ≡ some (l, r) → s ≡ l ++ (mark ++ r)
unfolding until
until-append mark [] l r e = cc
until-append mark (c ∷ s) l r e = elim (Option-cases (strip_prefix mark s)) [
  | inr (q, k) ↦ ground (arith, strip_prefix-append mark s q k)
  | inl k ↦ elim (Option-cases (until mark s)) [
    | inl n ↦ ground arith
    | inr ((a, b), n) ↦ ground (arith, until-append mark s a b n)
  ]
]

between-append : (mark s l r : Str) → between mark s ≡ some (l, r) → s ≡ mark ++ (l ++ (mark ++ r))
unfolding between
between-append mark s l r e = elim (Option-cases (strip_prefix mark s)) [
  | inl k ↦ ground arith
  | inr (q, k) ↦ ground (arith, strip_prefix-append mark s q k, until-append mark q l r)
]

non_empty-some : (p : Str × Str) (l r : Str) → non_empty p ≡ some (l, r) → p ≡ (l, r)
non_empty-some ([], q) l r e = cc
non_empty-some (c ∷ k, q) l r e = cc

scheme-append : (s l r : Str) → scheme s ≡ some (l, r) → s ≡ l ++ r
unfolding scheme
scheme-append s l r e = elim (Option-cases (strip_prefix (codes "https://") s)) [
  | inr (q, k) ↦ ground (arith, strip_prefix-append (codes "https://") s q k)
  | inl k ↦ elim (Option-cases (strip_prefix (codes "http://") s)) [
    | inl n ↦ ground arith
    | inr (q, n) ↦ ground (arith, strip_prefix-append (codes "http://") s q n)
  ]
]

-- What a link leads to: `http` or `https`, and characters that links may have, one at least.
abbrev pub IsLinkUrl : Str → Type 0
IsLinkUrl u =
    (r : Str) × ((u ≡ codes "https://" ++ r) ⊎ (u ≡ codes "http://" ++ r))
    × (0 < length r)
    × All (λ c. ends_link c ≡ false) r

scheme-some :
    (s p r : Str) → scheme s ≡ some (p, r) → (p ≡ codes "https://") ⊎ (p ≡ codes "http://")
unfolding scheme
scheme-some s p r e = elim (Option-cases (strip_prefix (codes "https://") s)) [
  | inr (q, k) ↦ inl (ground arith)
  | inl k ↦ elim (Option-cases (strip_prefix (codes "http://") s)) [
    | inl n ↦ absurd (ground arith)
    | inr (q, n) ↦ inr (ground arith)
  ]
]

span-All : (stops : ℕ → Bool) (s : Str) → All (λ c. stops c ≡ false) (span stops s).0
unfolding span
span-All stops [] = tt
span-All stops (c ∷ s) = elim (Bool-cases (stops c)) [
  | inl e ↦ rw e tt
  | inr e ↦ rw e (e, span-All stops s)
]

non_empty-length : (p : Str × Str) (l r : Str) → non_empty p ≡ some (l, r) → 0 < length l
non_empty-length ([], q) l r e = cc
non_empty-length (c ∷ k, q) l r e = ground arith

scheme_of :
    (p a l : Str)
    → (p ≡ codes "https://") ⊎ (p ≡ codes "http://")
    → l ≡ p ++ a
    → (l ≡ codes "https://" ++ a) ⊎ (l ≡ codes "http://" ++ a)
scheme_of p a l (inl e) w = inl (cc (e, w))
scheme_of p a l (inr e) w = inr (cc (e, w))

pub link_at-IsLinkUrl : (s l r : Str) → link_at s ≡ some (l, r) → IsLinkUrl l
unfolding link_at
link_at-IsLinkUrl s l r e = elim (Option-cases (scheme s)) [
  | inl k ↦ absurd (ground arith)
  | inr ((p, q), k) ↦ elim (Option-cases (non_empty (span ends_link q))) [
    | inl n ↦ absurd (ground arith)
    | inr ((a, b), n) ↦
        let whole = non_empty-some (span ends_link q) a b n in
        let good : All (λ c. ends_link c ≡ false) a =
          subst (λ (z : Str × Str). All (λ c. ends_link c ≡ false) z.0) whole
            (span-All ends_link q) in
        (
          a,
          scheme_of p a l (scheme-some s p q k) (ground arith),
          non_empty-length (span ends_link q) a b n,
          good,
        )
  ]
]

length-IsLinkUrl : (u : Str) → IsLinkUrl u → 0 < length u
length-IsLinkUrl u (r, inl e, n, g) = rw e (omega arith)
length-IsLinkUrl u (r, inr e, n, g) = rw e (omega arith)

link_at-append : (s l r : Str) → link_at s ≡ some (l, r) → s ≡ l ++ r
unfolding link_at
link_at-append s l r e = elim (Option-cases (scheme s)) [
  | inl k ↦ ground arith
  | inr ((p, q), k) ↦ elim (Option-cases (non_empty (span ends_link q))) [
    | inl n ↦ ground arith
    | inr ((a, b), n) ↦
        let whole = non_empty-some (span ends_link q) a b n in
        ground (arith, scheme-append s p q k, span-append ends_link q a b whole, append_assoc p a b)
  ]
]

code_at-append : (s l r : Str) → code_at s ≡ some (l, r) → s ≡ 96 ∷ (l ++ 96 ∷ r)
unfolding code_at
code_at-append s l r e = elim (Option-cases (strip_prefix (96 ∷ []) s)) [
  | inl k ↦ ground arith
  | inr (q, k) ↦ elim (Option-cases (non_empty (span (λ c. c == 96) q))) [
    | inl n ↦ ground arith
    | inr ((a, b), n) ↦ elim (Option-cases (strip_prefix (96 ∷ []) b)) [
      | inl m ↦ ground arith
      | inr (z, m) ↦
          let whole = non_empty-some (span (λ c. c == 96) q) a b n in
          ground (
            arith,
            strip_prefix-append (96 ∷ []) s q k,
            span-append (λ c. c == 96) q a b whole,
            strip_prefix-append (96 ∷ []) b z m,
          )
    ]
  ]
]

-- A node and the rest are a text.
abbrev pub Reads : Str → Option (Node × Str) → Type 0
Reads s none = Unit
Reads s (some (n, r)) = (s ≡ source n ++ r) × (length r < length s)

or_match-Reads :
    (s : Str) (m n : Option (Node × Str)) → Reads s m → Reads s n → Reads s (or_match m n)
or_match-Reads s none n p q = q
or_match-Reads s (some m) n p q = p

as_node-Reads :
    (f : Str → Node) (s : Str) (o : Option (Str × Str))
    → ((l r : Str) → o ≡ some (l, r) → (s ≡ source (f l) ++ r) × (length r < length s))
    → Reads s (as_node f o)
as_node-Reads f s none h = tt
as_node-Reads f s (some (l, r)) h = h l r refl

length-pieces : (s a r : Str) → s ≡ a ++ r → 0 < length a → length r < length s
length-pieces s a r e h = omega (arith, ap (length {A = ℕ}) e, length-append {A = ℕ} a r)

link_at-Reads : (s l r : Str) → link_at s ≡ some (l, r) → (s ≡ l ++ r) × (length r < length s)
link_at-Reads s l r e = (
  link_at-append s l r e,
  length-pieces s l r (link_at-append s l r e) (length-IsLinkUrl l (link_at-IsLinkUrl s l r e)),
)

between-Reads :
    (mark s l r : Str)
    → 0 < length mark
    → between mark s ≡ some (l, r)
    → (s ≡ (mark ++ (l ++ mark)) ++ r) × (length r < length s)
between-Reads mark s l r h e =
    let whole : s ≡ (mark ++ (l ++ mark)) ++ r =
      rw (append_assoc mark (l ++ mark) r, append_assoc l mark r) (between-append mark s l r e) in
    (
      whole,
      length-pieces s (mark ++ (l ++ mark)) r whole
          (omega (arith, length-append {A = ℕ} mark (l ++ mark))),
    )

code_at-Reads :
    (s l r : Str)
    → code_at s ≡ some (l, r)
    → (s ≡ (96 ∷ (l ++ 96 ∷ [])) ++ r) × (length r < length s)
code_at-Reads s l r e =
    let whole : s ≡ (96 ∷ (l ++ 96 ∷ [])) ++ r =
      rw (append_assoc l (96 ∷ []) r) (code_at-append s l r e) in
    (whole, length-pieces s (96 ∷ (l ++ 96 ∷ [])) r whole (omega arith))

pub match_at-Reads : (s : Str) → Reads s (match_at s)
unfolding match_at
match_at-Reads s = or_match-Reads s _ _ (as_node-Reads link s (link_at s) (link_at-Reads s)) (
    or_match-Reads s _ _
      (as_node-Reads strong s (between (codes "**") s)
        (λ l r. between-Reads (codes "**") s l r (omega arith)))
      (or_match-Reads s _ _
        (as_node-Reads em s (between (codes "*") s)
          (λ l r. between-Reads (codes "*") s l r (omega arith)))
        (or_match-Reads s _ _ (as_node-Reads code s (code_at s) (code_at-Reads s)) (
          as_node-Reads strike s (between (codes "~~") s)
            (λ l r. between-Reads (codes "~~") s l r (omega arith))))))

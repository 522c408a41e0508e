-- ===== src/View/Links.antt =====
-- Where the links of a message lead. (frontend/src/components/chat/ChatView.tsx)
use quiteline.Base.{
  ◌≡◌, refl, List, [], ◌∷◌, ◌++◌, Option, none, some, ℕ, zero, suc, Str, codes, length,
  Option-cases, inl, inr, arith, subst, All, All-append,
}
use quiteline.Js.Split.{split}
use quiteline.View.Markdown.{
  Node, text, br, link, strong, em, code, strike, between, link_at, code_at, as_node, or_match,
  match_at, Match, skip_one, exec, with_breaks, lines_shown, split_newlines, plain_nodes,
  parse_from, parse_inline_markdown,
}
use quiteline.View.Matches.{IsLinkUrl, link_at-IsLinkUrl}

-- A link of a node leads where a link may.
abbrev pub IsSafe : Node → Type 0
IsSafe (text s) = Unit
IsSafe br = Unit
IsSafe (link u) = IsLinkUrl u
IsSafe (strong s) = Unit
IsSafe (em s) = Unit
IsSafe (code s) = Unit
IsSafe (strike s) = Unit

abbrev IsSafeMatch : Option (Node × Str) → Type 0
IsSafeMatch none = Unit
IsSafeMatch (some (n, r)) = IsSafe n

or_match-IsSafe :
    (m n : Option (Node × Str)) → IsSafeMatch m → IsSafeMatch n → IsSafeMatch (or_match m n)
or_match-IsSafe none n p q = q
or_match-IsSafe (some m) n p q = p

as_node-IsSafe :
    (f : Str → Node) (o : Option (Str × Str))
    → ((l r : Str) → o ≡ some (l, r) → IsSafe (f l))
    → IsSafeMatch (as_node f o)
as_node-IsSafe f none h = tt
as_node-IsSafe f (some (l, r)) h = h l r refl

match_at-IsSafe : (s : Str) → IsSafeMatch (match_at s)
unfolding match_at
match_at-IsSafe s = or_match-IsSafe _ _ (as_node-IsSafe link (link_at s) (link_at-IsLinkUrl s)) (
    or_match-IsSafe _ _ (as_node-IsSafe strong (between (codes "**") s) (λ l r e. tt)) (
      or_match-IsSafe _ _ (as_node-IsSafe em (between (codes "*") s) (λ l r e. tt)) (
        or_match-IsSafe _ _ (as_node-IsSafe code (code_at s) (λ l r e. tt))
          (as_node-IsSafe strike (between (codes "~~") s) (λ l r e. tt)))))

IsSafe-found :
    (c : ℕ) (s : Str) (m : Match) (o : Option (Node × Str)) (later : Option Match)
    → IsSafeMatch o
    → ((k : Match) → later ≡ some k → IsSafe k.node)
    → elim o [
      | none ↦ skip_one c later
      | some (n, r) ↦ some (record { before = []; node = n; rest = r })
    ]
      ≡ some m
    → IsSafe m.node
IsSafe-found c s m none none h f e = cc
IsSafe-found c s m none (some k) h f e = subst IsSafe (ground arith) (f k refl)
IsSafe-found c s m (some (n, r)) later h f e = subst IsSafe (ground arith) h

exec-IsSafe : (s : Str) (m : Match) → exec s ≡ some m → IsSafe m.node
unfolding exec
exec-IsSafe [] m e = cc
exec-IsSafe (c ∷ s) m e =
    IsSafe-found c s m (match_at (c ∷ s)) (exec s) (match_at-IsSafe (c ∷ s)) (exec-IsSafe s) e

plain_nodes-IsSafe : (s : Str) → All IsSafe (plain_nodes s)
unfolding plain_nodes split_newlines
plain_nodes-IsSafe [] = tt
plain_nodes-IsSafe (c ∷ s) = lines_safe (split 10 (c ∷ s))
  where
    breaks_safe : (ls : List Str) → All IsSafe (with_breaks ls)
    breaks_safe [] = tt
    breaks_safe (l ∷ ls) = (tt, (tt, breaks_safe ls))

    lines_safe : (ls : List Str) → All IsSafe (lines_shown ls)
    lines_safe [] = tt
    lines_safe (l ∷ ls) = (tt, breaks_safe ls)

parse_from-IsSafe :
    (fuel : ℕ) (s : Str) (nodes : List Node) → parse_from fuel s ≡ some nodes → All IsSafe nodes
unfolding parse_from
parse_from-IsSafe zero s nodes e = cc
parse_from-IsSafe (suc fuel) s nodes e = elim (Option-cases (exec s)) [
  | inl n ↦ subst (All IsSafe) (ground arith) (plain_nodes-IsSafe s)
  | inr (m, n) ↦ elim (Option-cases (parse_from fuel m.rest)) [
    | inl p ↦ absurd (ground arith)
    | inr (more, p) ↦
        let start : All IsSafe (plain_nodes m.before ++ m.node ∷ []) =
          All-append IsSafe (plain_nodes m.before) (m.node ∷ []) (plain_nodes-IsSafe m.before)
            (exec-IsSafe s m n, tt) in
        subst (All IsSafe) (ground arith) (
          All-append IsSafe (plain_nodes m.before ++ m.node ∷ []) more start
            (parse_from-IsSafe fuel m.rest more p))
  ]
]

-- Every link that a text is shown with leads to `http://` or `https://`, with one or more of the
-- characters behind it that a link may have.
pub parse_inline_markdown-IsSafe :
    (s : Str) (nodes : List Node) → parse_inline_markdown s ≡ some nodes → All IsSafe nodes
unfolding parse_inline_markdown
parse_inline_markdown-IsSafe s nodes e = parse_from-IsSafe (suc (length s)) s nodes e

-- ===== src/View/Lossless.antt =====
-- The text that inline markdown is made of. (frontend/src/components/chat/ChatView.tsx)
use mathlib.Core.List.{append-nil, append_assoc}
use quiteline.Base.{
  ◌≡◌, refl, ap, ◌∙◌, sym, List, [], ◌∷◌, ◌++◌, Option, none, some, ℕ, zero, suc, ◌<◌, Str, length,
  Option-cases, inl, inr, arith,
}
use quiteline.Js.Split.{split, join, join-split}
use quiteline.View.Markdown.{
  Node, text, match_at, Match, skip_one, exec, with_breaks, lines_shown, split_newlines,
  plain_nodes, parse_from, parse_inline_markdown,
}
use quiteline.View.Matches.{source, Reads, match_at-Reads}

abbrev pub sources : List Node → Str
sources [] = []
sources (n ∷ ns) = source n ++ sources ns

sources-append : (ns ms : List Node) → sources (ns ++ ms) ≡ sources ns ++ sources ms
sources-append [] ms = refl
sources-append (n ∷ ns) ms =
    rw (sources-append ns ms) (sym (append_assoc (source n) (sources ns) (sources ms)))

abbrev IsMatch : Str → Match → Type 0
IsMatch s m = (s ≡ m.before ++ (source m.node ++ m.rest)) × (length m.rest < length s)

exec-found :
    (c : ℕ) (s : Str) (m : Match) (o : Option (Node × Str)) (later : Option Match)
    → Reads (c ∷ s) o
    → ((k : Match) → later ≡ some k → IsMatch s k)
    → elim o [
      | none ↦ skip_one c later
      | some (n, r) ↦ some (record { before = []; node = n; rest = r })
    ]
      ≡ some m
    → IsMatch (c ∷ s) m
exec-found c s m none none h f e = cc
exec-found c s m none (some k) h f e = ground (arith, f k refl)
exec-found c s m (some (n, r)) later h f e = ground arith

exec-IsMatch : (s : Str) (m : Match) → exec s ≡ some m → IsMatch s m
unfolding exec
exec-IsMatch [] m e = cc
exec-IsMatch (c ∷ s) m e =
    exec-found c s m (match_at (c ∷ s)) (exec s) (match_at-Reads (c ∷ s)) (exec-IsMatch s) e

sources-with_breaks :
    (l : Str) (ls : List Str) → sources (text l ∷ with_breaks ls) ≡ join 10 (l ∷ ls)
unfolding join
sources-with_breaks l [] = append-nil l
sources-with_breaks l (m ∷ ls) = ap (λ (t : Str). l ++ 10 ∷ t) (sources-with_breaks m ls)

sources-lines_shown : (ls : List Str) → sources (lines_shown ls) ≡ join 10 ls
sources-lines_shown [] = unfold join in refl
sources-lines_shown (l ∷ ls) = sources-with_breaks l ls

sources-plain_nodes : (s : Str) → sources (plain_nodes s) ≡ s
unfolding plain_nodes split_newlines
sources-plain_nodes [] = refl
sources-plain_nodes (c ∷ s) = sources-lines_shown (split 10 (c ∷ s)) ∙ join-split 10 (c ∷ s)

sources-around :
    (m : Match) (s : Str) (ns : List Node)
    → IsMatch s m
    → sources ns ≡ m.rest
    → sources (plain_nodes m.before ++ m.node ∷ [] ++ ns) ≡ s
sources-around m s ns h e = ground (
  arith,
  h.0,
  sources-append (plain_nodes m.before ++ m.node ∷ []) ns,
  sources-append (plain_nodes m.before) (m.node ∷ []),
  sources-plain_nodes m.before,
  append_assoc m.before (source m.node) m.rest,
  append-nil (source m.node),
)

parse_from-sources :
    (fuel : ℕ) (s : Str)
    → length s < fuel
    → (nodes : List Node) × (parse_from fuel s ≡ some nodes) × (sources nodes ≡ s)
unfolding parse_from
parse_from-sources zero s h = absurd (omega arith)
parse_from-sources (suc fuel) s h = elim (Option-cases (exec s)) [
  | inl e ↦ (plain_nodes s, rw (e, parse_from) refl, sources-plain_nodes s)
  | inr (m, e) ↦
      let found = exec-IsMatch s m e in
      let (nodes, parsed, whole) = parse_from-sources fuel m.rest (omega (arith, found.1)) in
      (
        plain_nodes m.before ++ m.node ∷ [] ++ nodes,
        rw (e, parse_from) (rw parsed refl),
        sources-around m s nodes found whole,
      )
]

-- A text is shown whole, in as many rounds of the loop as it has characters, plus one, at most:
-- what the nodes are written as is the text.
pub parse_inline_markdown-sources :
    (s : Str) → (nodes : List Node) × (parse_inline_markdown s ≡ some nodes) × (sources nodes ≡ s)
unfolding parse_inline_markdown
parse_inline_markdown-sources s = parse_from-sources (suc (length s)) s (omega arith)

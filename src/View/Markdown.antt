-- ===== src/View/Markdown.antt =====
-- Inline markdown in a message's text. (frontend/src/components/chat/ChatView.tsx)
use mathlib.Core.Option.{map as map_option}
use quiteline.Base.{
  Bool, ◌||◌, List, [], ◌∷◌, ◌++◌, Option, none, some, ℕ, zero, suc, Str, ◌==◌, if◌then◌else◌,
  codes, length,
}
use quiteline.Js.Split.{is_line_end, is_white, strip_prefix, split}

pub data Node : Type 0 where
  text : Str → Node
  br : Node
  link strong em code strike : Str → Node

-- What a character is not that `[^\s<>"{}|\\^`[\]]` matches.
abbrev pub ends_link : ℕ → Bool
ends_link c =
    is_white c
    || (c == b'<')
    || (c == b'>')
    || (c == b'"')
    || (c == b'{')
    || (c == b'}')
    || (c == b'|')
    || (c == 92)
    || (c == b'^')
    || (c == 96)
    || (c == b'[')
    || (c == b']')

-- The longest start of a text with no character that the test stops at, and the rest.
unfoldable pub span : (ℕ → Bool) → Str → Str × Str
span stops [] = ([], [])
span stops (c ∷ s) = let (l, r) = span stops s in if stops c then ([], c ∷ s) else (c ∷ l, r)

abbrev pub non_empty : Str × Str → Option (Str × Str)
non_empty ([], r) = none
non_empty (c ∷ l, r) = some (c ∷ l, r)

abbrev pub put_first : ℕ → Option (Str × Str) → Option (Str × Str)
put_first c none = none
put_first c (some (l, r)) = some (c ∷ l, r)

-- `(.+?)` and the mark that ends it: what stands before the mark, and the rest behind it.
unfoldable pub until : Str → Str → Option (Str × Str)
unfolding strip_prefix
until mark [] = none
until mark (c ∷ s) =
    let later = put_first c (until mark s) in
    if is_line_end c
    then none
    else elim (strip_prefix mark s) [ none ↦ later | some r ↦ some (c ∷ [], r) ]

-- `mark(.+?)mark`.
unfoldable pub between : Str → Str → Option (Str × Str)
unfolding until
between mark s = elim (strip_prefix mark s) [ none ↦ none | some r ↦ until mark r ]

-- The start of a link: `https?://`, and the rest.
unfoldable pub scheme : Str → Option (Str × Str)
unfolding strip_prefix
scheme s = elim (strip_prefix (codes "https://") s) [
  | some r ↦ some (codes "https://", r)
  | none ↦ map_option (λ (r : Str). (codes "http://", r)) (strip_prefix (codes "http://") s)
]

abbrev pub put_before : Str → Option (Str × Str) → Option (Str × Str)
put_before p none = none
put_before p (some (l, r)) = some (p ++ l, r)

-- The first alternative of the pattern.
unfoldable pub link_at : Str → Option (Str × Str)
unfolding scheme span
link_at s = elim (scheme s) [
  | none ↦ none
  | some (p, r) ↦ put_before p (non_empty (span ends_link r))
]

-- "`([^`]+)`".
unfoldable pub code_at : Str → Option (Str × Str)
unfolding strip_prefix span
code_at s = elim (strip_prefix (96 ∷ []) s) [
  | none ↦ none
  | some r ↦ elim (non_empty (span (λ c. c == 96) r)) [
    | none ↦ none
    | some (l, q) ↦ map_option (λ (z : Str). (l, z)) (strip_prefix (96 ∷ []) q)
  ]
]

abbrev pub as_node : (Str → Node) → Option (Str × Str) → Option (Node × Str)
as_node f none = none
as_node f (some (l, r)) = some (f l, r)

abbrev pub or_match : Option (Node × Str) → Option (Node × Str) → Option (Node × Str)
or_match none n = n
or_match (some m) n = some m

-- `INLINE_PATTERN` at the start of a text: the first alternative that matches, as the node that it
-- makes, and the rest.
unfoldable pub match_at : Str → Option (Node × Str)
unfolding link_at between code_at
match_at s = or_match (as_node link (link_at s)) (
    or_match (as_node strong (between (codes "**") s)) (
      or_match (as_node em (between (codes "*") s))
        (or_match (as_node code (code_at s)) (as_node strike (between (codes "~~") s)))))

-- A match: what stands before it, its node, and the rest.
pub record Match : Type 0 where
  pub before : Str
  pub node : Node
  pub rest : Str

abbrev pub skip_one : ℕ → Option Match → Option Match
skip_one c none = none
skip_one c (some m) = some (record m { before = c ∷ m.before })

-- `pattern.exec(text)`: the first match from `lastIndex`.
unfoldable pub exec : Str → Option Match
unfolding match_at
exec [] = none
exec (c ∷ s) =
    let later = skip_one c (exec s) in
    elim (match_at (c ∷ s)) [
      | none ↦ later
      | some (n, r) ↦ some (record { before = []; node = n; rest = r })
    ]

abbrev pub with_breaks : List Str → List Node
with_breaks [] = []
with_breaks (l ∷ ls) = br ∷ text l ∷ with_breaks ls

abbrev pub lines_shown : List Str → List Node
lines_shown [] = []
lines_shown (l ∷ ls) = text l ∷ with_breaks ls

-- `splitNewlines`.
unfoldable pub split_newlines : Str → List Node
unfolding split
split_newlines s = lines_shown (split 10 s)

-- `if (… < …) nodes.push(...splitNewlines(…))`.
unfoldable pub plain_nodes : Str → List Node
unfolding split_newlines
plain_nodes [] = []
plain_nodes (c ∷ s) = split_newlines (c ∷ s)

abbrev pub prepend : List Node → Option (List Node) → Option (List Node)
prepend nodes none = none
prepend nodes (some more) = some (nodes ++ more)

-- The loop of `parseInlineMarkdown` on what stands behind `lastIndex`: none is a loop that `fuel`
-- rounds do not end.
unfoldable pub parse_from : ℕ → Str → Option (List Node)
unfolding exec plain_nodes
parse_from zero s = none
parse_from (suc fuel) s = elim (exec s) [
  | none ↦ some (plain_nodes s)
  | some m ↦ prepend (plain_nodes m.before ++ m.node ∷ []) (parse_from fuel m.rest)
]

-- `parseInlineMarkdown`.
unfoldable pub parse_inline_markdown : Str → Option (List Node)
unfolding parse_from
parse_inline_markdown s = parse_from (suc (length s)) s

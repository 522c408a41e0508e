-- ===== src/View/Animated.antt =====
-- Between two changes of the room no message is animated twice. (frontend/src/components/chat/ChatView.tsx)
use quiteline.Base.{
  ◌≡◌, refl, true, false, ◌&&◌, ◌||◌, List, [], ◌∷◌, ◌++◌, Str, str_eq_refl, truthy, if◌then◌else◌,
  ◌||◌, Bool-cases, inl, inr, arith, All, ◌⊎◌, All-map,
}
use quiteline.Wire.{DecryptedMessage}
use quiteline.Messages.Display.{sent_at}
use quiteline.View.Scroll.{Scroll, has, add, to_animate}

any-append : (k : Str) (xs ys : List Str) → has k (xs ++ ys) ≡ (has k xs || has k ys)
any-append k [] ys = refl
any-append k (x ∷ xs) ys = ground (arith, any-append k xs ys)

has-add_same : (k : Str) (xs : List Str) → has k (add k xs) ≡ true
has-add_same k xs = ground (arith, any-append k xs (k ∷ []), str_eq_refl k)

has-add : (j k : Str) (xs : List Str) → has j xs ≡ true → has j (add k xs) ≡ true
has-add j k xs h = ground (arith, any-append j xs (k ∷ []))

-- The times of sending that are known after a message.
abbrev known : List Str → DecryptedMessage → List Str
known seen m = if truthy (sent_at m) then add (sent_at m) seen else seen

has-known :
    (j : Str) (m : DecryptedMessage) (seen : List Str)
    → has j seen ≡ true
    → has j (known seen m) ≡ true
has-known j m seen h = ground (arith, has-add j (sent_at m) seen h)

to_animate-keeps :
    (j : Str) (seen : List Str) (ms : List DecryptedMessage)
    → has j seen ≡ true
    → has j (to_animate seen ms).1 ≡ true
unfolding to_animate
to_animate-keeps j seen [] h = h
to_animate-keeps j seen (m ∷ ms) h = to_animate-keeps j (known seen m) ms (has-known j m seen h)

-- A message is without a time of sending, or its time is known.
abbrev pub IsKnown : List Str → DecryptedMessage → Type 0
IsKnown seen m = (truthy (sent_at m) ≡ false) ⊎ (has (sent_at m) seen ≡ true)

to_animate-knows :
    (seen : List Str) (ms : List DecryptedMessage) → All (IsKnown (to_animate seen ms).1) ms
unfolding to_animate
to_animate-knows seen [] = tt
to_animate-knows seen (m ∷ ms) = (first m, to_animate-knows (known seen m) ms)
  where
    first : (m : DecryptedMessage) → IsKnown (to_animate (known seen m) ms).1 m
    first m = elim (Bool-cases (truthy (sent_at m))) [
      | inr e ↦ inl e
      | inl e ↦
          inr
            (to_animate-keeps (sent_at m) (known seen m) ms (rw e (has-add_same (sent_at m) seen)))
    ]

IsKnown-map :
    (seen all : List Str)
    → ((j : Str) → has j seen ≡ true → has j all ≡ true)
    → (ms : List DecryptedMessage) → All (IsKnown seen) ms
    → All (IsKnown all) ms
IsKnown-map seen all f ms h = All-map (IsKnown seen) (IsKnown all) (λ m k. keep_known m k) ms h
  where
    keep_known : (m : DecryptedMessage) → IsKnown seen m → IsKnown all m
    keep_known m (inl e) = inl e
    keep_known m (inr e) = inr (f (sent_at m) e)

to_animate-skips :
    (seen : List Str) (ms : List DecryptedMessage)
    → All (IsKnown seen) ms
    → All (λ m. truthy (sent_at m) ≡ false) (to_animate seen ms).0
unfolding to_animate
to_animate-skips seen [] h = tt
to_animate-skips seen (m ∷ ms) h =
    let rest =
      to_animate-skips (known seen m) ms
        (IsKnown-map seen (known seen m) (λ j k. has-known j m seen k) ms h.1) in
    skips m (to_animate (known seen m) ms).0 h.0 rest
  where
    skips :
        (m : DecryptedMessage) (rest : List DecryptedMessage)
        → IsKnown seen m
        → All (λ n. truthy (sent_at n) ≡ false) rest
        → All
            (λ n. truthy (sent_at n) ≡ false)
            (if truthy (sent_at m) && has (sent_at m) seen then rest else m ∷ rest)
    skips m rest (inl e) r = rw e (e, r)
    skips m rest (inr e) r = elim (Bool-cases (truthy (sent_at m))) [
      | inl t ↦ rw (t, e) r
      | inr t ↦ rw t (t, r)
    ]

-- As long as the times of sending that have been animated are kept, which is until the room changes,
-- messages that have been animated once, or left out then because their time of sending was known,
-- are not animated again, whatever came between: only messages without a time of sending are.
pub to_animate-once :
    (seen : List Str) (ms between : List DecryptedMessage)
    → All
        (λ m. truthy (sent_at m) ≡ false)
        (to_animate (to_animate (to_animate seen ms).1 between).1 ms).0
to_animate-once seen ms between =
    let first = (to_animate seen ms).1 in
    to_animate-skips (to_animate first between).1 ms (
      IsKnown-map first (to_animate first between).1 (λ j k. to_animate-keeps j first between k) ms
        (to_animate-knows seen ms))

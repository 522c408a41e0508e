-- ===== src/Messages/Pages.antt =====
-- Pages of older messages: how they are merged, and the cursor from which the next one is asked.
-- (frontend/src/hooks/useMessages.ts)
use quiteline.Base.{
  ◌≡◌, refl, Bool, true, List, [], ◌∷◌, Option, ℤ, Str, if◌then◌else◌, All, Any, subst, sym, ◌⊎◌,
  inl, inr, Bool-cases, truthy,
}
use quiteline.Js.Number.{
  num_gt, NumLe, IsNum, NumLe-of_gt, NumLe-of_not_gt, NumLe-refl, NumLe-trans,
}
use quiteline.Js.Sort.{later}
use quiteline.ById.{find, HasDistinctIds}
use quiteline.ById.Union.{first_of_two, find-merged_union}
use quiteline.Wire.{EncryptedMessage}
use quiteline.Messages.Merge.{
  Sources, paged_messages, created, merge_message_pages, oldest_from, oldest_paged_message_at,
}

at_head : {P : Type 0} {a b : Str} → (a ≡ b) ⊎ P → (b ≡ a) ⊎ P
at_head (inl e) = inl (sym e)
at_head (inr p) = inr p

at_tail : {P Q R : Type 0} → P ⊎ Q → P ⊎ R ⊎ Q
at_tail (inl p) = inl p
at_tail (inr q) = inr (inr q)

module _ (parse_date : Str → Option ℤ) where
  -- Of two pages without repeated ids, the merged page holds for each id the message of the first
  -- page if it has one, and otherwise that of the second.
  pub find-merge_message_pages :
      (prev incoming : List EncryptedMessage) (k : Str)
      → HasDistinctIds (λ m. m.id) prev
      → HasDistinctIds (λ m. m.id) incoming
      → find (λ m. m.id) k (merge_message_pages parse_date prev incoming)
        ≡ first_of_two (find (λ m. m.id) k prev) (find (λ m. m.id) k incoming)
  unfolding merge_message_pages
  find-merge_message_pages prev incoming k h q =
      find-merged_union (λ m. m.id) (later (created parse_date)) incoming prev k q h

  -- Every message has a creation date, and it parses.
  abbrev pub HasCreated : List EncryptedMessage → Type 0
  HasCreated = All (λ m. (truthy m.created_at ≡ true) × IsNum (created parse_date m))

  -- The text `o` is a creation date in the list, and no message of the list is older.
  abbrev pub IsOldest : Str → List EncryptedMessage → Type 0
  IsOldest o msgs =
      Any (λ m. m.created_at ≡ o) msgs × All (λ m. NumLe (parse_date o) (created parse_date m)) msgs

  -- `r` is what the loop may return from `o`.
  abbrev IsMinOf : Str → Str → List EncryptedMessage → Type 0
  IsMinOf o r msgs =
      NumLe (parse_date r) (parse_date o)
      × ((r ≡ o) ⊎ Any (λ m. m.created_at ≡ r) msgs)
      × All (λ m. NumLe (parse_date r) (created parse_date m)) msgs

  IsMinOf-older :
      (o r : Str) (m : EncryptedMessage) (msgs : List EncryptedMessage)
      → num_gt (parse_date o) (created parse_date m) ≡ true
      → IsMinOf m.created_at r msgs
      → IsMinOf o r (m ∷ msgs)
  IsMinOf-older o r m msgs e (le, at, rest) = (
    NumLe-trans (parse_date r) (created parse_date m) (parse_date o) le
        (NumLe-of_gt (created parse_date m) (parse_date o) e),
    inr (at_head at),
    (le, rest),
  )

  IsMinOf-newer :
      (o r : Str) (m : EncryptedMessage) (msgs : List EncryptedMessage)
      → NumLe (parse_date o) (created parse_date m)
      → IsMinOf o r msgs
      → IsMinOf o r (m ∷ msgs)
  IsMinOf-newer o r m msgs n (le, at, rest) = (
    le,
    at_tail at,
    (NumLe-trans (parse_date r) (parse_date o) (created parse_date m) le n, rest),
  )

  oldest_from-IsMinOf :
      (o : Str) (msgs : List EncryptedMessage)
      → truthy o ≡ true
      → IsNum (parse_date o)
      → HasCreated msgs
      → IsMinOf o (oldest_from parse_date o msgs) msgs
  unfolding oldest_from
  oldest_from-IsMinOf [] msgs t n h = cc
  oldest_from-IsMinOf (c ∷ o) [] t n h = (NumLe-refl (parse_date (c ∷ o)) n, inl refl, tt)
  oldest_from-IsMinOf (c ∷ o) (m ∷ msgs) t n h =
      elim (Bool-cases (num_gt (parse_date (c ∷ o)) (created parse_date m))) [
        | inl e ↦
            subst
              (λ (b : Bool).
                IsMinOf (c ∷ o) (oldest_from parse_date (if b then m.created_at else c ∷ o) msgs)
                  (m ∷ msgs))
              (sym e)
              (IsMinOf-older (c ∷ o) _ m msgs e
                (oldest_from-IsMinOf m.created_at msgs h.0.0 h.0.1 h.1))
        | inr e ↦
            subst
              (λ (b : Bool).
                IsMinOf (c ∷ o) (oldest_from parse_date (if b then m.created_at else c ∷ o) msgs)
                  (m ∷ msgs))
              (sym e)
              (IsMinOf-newer (c ∷ o) _ m msgs
                (NumLe-of_not_gt (parse_date (c ∷ o)) (created parse_date m) n h.0.1 e)
                (oldest_from-IsMinOf (c ∷ o) msgs t n h.1))
      ]

  -- The cursor for the next page is the creation date of a loaded message, and no loaded message
  -- is older; with no message loaded it is empty.
  pub oldest_paged_message_at-IsOldest :
      (s : Sources)
      → HasCreated (paged_messages s)
      → ((paged_messages s ≡ []) × (oldest_paged_message_at parse_date s ≡ []))
        ⊎ IsOldest (oldest_paged_message_at parse_date s) (paged_messages s)
  unfolding oldest_paged_message_at
  oldest_paged_message_at-IsOldest s h = go (paged_messages s) h
    where
      go :
          (msgs : List EncryptedMessage)
          → HasCreated msgs
          → ((msgs ≡ []) × (oldest_from parse_date [] msgs ≡ []))
            ⊎ IsOldest (oldest_from parse_date [] msgs) msgs
      go [] h = inl (refl, refl)
      go (m ∷ msgs) h =
          let (le, at, rest) = oldest_from-IsMinOf m.created_at msgs h.0.0 h.0.1 h.1 in
          inr (at_head at, (le, rest))

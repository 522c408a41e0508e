-- ===== src/Messages/Newest.antt =====
-- Which state of a message is shown. (frontend/src/hooks/useMessages.ts)
use quiteline.Base.{
  ◌≡◌, refl, ◌∙◌, Bool, not, List, [], ◌∷◌, Option, some, ℤ, Str, str_eq, str_eq_iff, All, Any,
  All-append, keep, inl, inr, Bool-cases,
}
use quiteline.Js.Number.{IsNum, NumLe-of_newer, NumLe-of_not_newer, NumLe-of_ge, NumLe-of_not_ge}
use quiteline.Js.OrderedMap.{values}
use quiteline.Js.Sort.{InOrder, later, earlier, sort-later-InOrder, sort-earlier-InOrder}
use quiteline.ById.{
  find, HasDistinctIds, values-put_all-All, put_all, merged, merged-HasDistinctIds, find-merged,
  merged-All,
}
use quiteline.ById.Best.{IsByVersion, IsNewest, choose-IsNewest}
use quiteline.Wire.{EncryptedMessage}
use quiteline.Messages.Version.{is_read, message_version, supersedes, is_as_new, reaction_signature}
use quiteline.Messages.Merge.{
  Sources, in_room, paged_messages, candidates, attachment_candidates, created, encrypted_messages,
  encrypted_attachment_messages,
}

-- The comparisons of the messages' dates are between numbers.
abbrev pub HasDates : (Str → Option ℤ) → List EncryptedMessage → Type 0
HasDates parse_date = All (λ m. IsNum (message_version parse_date m) × IsNum (created parse_date m))

keep-InRoom :
    (room : Str) (xs : List EncryptedMessage) → All (λ m. m.room_id ≡ room) (keep (in_room room) xs)
keep-InRoom room [] = tt
keep-InRoom room (x ∷ xs) = elim (Bool-cases (str_eq x.room_id room)) [
  | inl e ↦ rw e ((str_eq_iff x.room_id room).0 e, keep-InRoom room xs)
  | inr e ↦ rw e (keep-InRoom room xs)
]

candidates-InRoom : (s : Sources) → All (λ m. m.room_id ≡ s.active_room) (candidates s)
unfolding candidates
candidates-InRoom s = elim (Bool-cases s.in_context_mode) [
  | inl e ↦ rw e (keep-InRoom s.active_room s.context)
  | inr e ↦ rw e (
      All-append (λ m. m.room_id ≡ s.active_room) (keep (in_room s.active_room) (paged_messages s))
        (keep (in_room s.active_room) s.live) (keep-InRoom s.active_room (paged_messages s))
        (keep-InRoom s.active_room s.live))
]

module _ (parse_date : Str → Option ℤ) where
  HasDates-version :
      (xs : List EncryptedMessage)
      → HasDates parse_date xs
      → All (λ m. IsNum (message_version parse_date m)) xs
  HasDates-version [] h = tt
  HasDates-version (x ∷ xs) h = (h.0.0, HasDates-version xs h.1)

  supersedes-IsByVersion : IsByVersion (message_version parse_date) (supersedes parse_date)
  unfolding supersedes
  supersedes-IsByVersion = record {
    first = λ x. refl;
    up = λ x c p q h.
        NumLe-of_newer (message_version parse_date x) (message_version parse_date c) (is_read x)
          (not (is_read c))
          (not (str_eq (reaction_signature x.reactions) (reaction_signature c.reactions))) h;
    stay = λ x c p q h.
        NumLe-of_not_newer (message_version parse_date x) (message_version parse_date c) (is_read x)
          (not (is_read c))
          (not (str_eq (reaction_signature x.reactions) (reaction_signature c.reactions))) p q h;
  }

  is_as_new-IsByVersion : IsByVersion (message_version parse_date) (is_as_new parse_date)
  unfolding is_as_new
  is_as_new-IsByVersion = record {
    first = λ x. refl;
    up = λ x c p q h. NumLe-of_ge (message_version parse_date x) (message_version parse_date c) h;
    stay = λ x c p q h.
        NumLe-of_not_ge (message_version parse_date x) (message_version parse_date c) p q h;
  }

  HasDates-created :
      (xs : List EncryptedMessage)
      → HasDates parse_date xs
      → All (λ m. IsNum (created parse_date m)) xs
  HasDates-created [] h = tt
  HasDates-created (x ∷ xs) h = (h.0.1, HasDates-created xs h.1)

  values-IsNum :
      (replaces : EncryptedMessage → Option EncryptedMessage → Bool) (xs : List EncryptedMessage)
      → HasDates parse_date xs
      → All (λ m. IsNum (created parse_date m)) (values (put_all (λ m. m.id) replaces xs []))
  values-IsNum replaces xs h =
      values-put_all-All (λ m. m.id) replaces (λ m. IsNum (created parse_date m)) xs []
        (HasDates-created xs h) tt

  merged-InOrder :
      (replaces : EncryptedMessage → Option EncryptedMessage → Bool) (xs : List EncryptedMessage)
      → HasDates parse_date xs
      → InOrder
          (later (created parse_date))
          (merged (λ m. m.id) replaces (later (created parse_date)) xs)
  unfolding merged
  merged-InOrder replaces xs h =
      sort-later-InOrder (created parse_date) _ (values-IsNum replaces xs h)

  merged-InOrder_desc :
      (replaces : EncryptedMessage → Option EncryptedMessage → Bool) (xs : List EncryptedMessage)
      → HasDates parse_date xs
      → InOrder
          (earlier (created parse_date))
          (merged (λ m. m.id) replaces (earlier (created parse_date)) xs)
  unfolding merged
  merged-InOrder_desc replaces xs h =
      sort-earlier-InOrder (created parse_date) _ (values-IsNum replaces xs h)

  -- If the dates of all candidates parse, then for every id among the candidates the message list
  -- shows a message with that id, and it is at least as new (by deletion, else edit, else creation
  -- date) as every candidate with that id.
  pub encrypted_messages-IsNewest :
      (s : Sources) (k : Str)
      → HasDates parse_date (candidates s)
      → Any (λ m. m.id ≡ k) (candidates s)
      → (w : EncryptedMessage) × (find (λ m. m.id) k (encrypted_messages parse_date s) ≡ some w)
        × IsNewest (λ m. m.id) (message_version parse_date) k w (candidates s)
  unfolding encrypted_messages
  encrypted_messages-IsNewest s k h m =
      let (w, e, best) =
        choose-IsNewest (λ m. m.id) (message_version parse_date) (supersedes parse_date)
          supersedes-IsByVersion k (candidates s) (HasDates-version (candidates s) h) m in
      (
        w,
        find-merged (λ m. m.id) (supersedes parse_date) (later (created parse_date)) k
              (candidates s)
            ∙ e,
        best,
      )

  -- The list has no id twice, holds only messages of the active room, and, if the dates of all
  -- candidates parse, stands in the order of the creation dates.
  pub encrypted_messages_wf :
      (s : Sources)
      → HasDates parse_date (candidates s)
      → HasDistinctIds (λ m. m.id) (encrypted_messages parse_date s)
        × All (λ m. m.room_id ≡ s.active_room) (encrypted_messages parse_date s)
        × InOrder (later (created parse_date)) (encrypted_messages parse_date s)
  unfolding encrypted_messages
  encrypted_messages_wf s h = (
    merged-HasDistinctIds (λ m. m.id) (supersedes parse_date) (later (created parse_date))
        (candidates s),
    merged-All (λ m. m.id) (supersedes parse_date) (later (created parse_date))
        (λ m. m.room_id ≡ s.active_room) (candidates s) (candidates-InRoom s),
    merged-InOrder (supersedes parse_date) (candidates s) h,
  )

  -- The attachment list has no id twice; if the dates of the loaded and live messages of the room
  -- parse, it stands in the reverse order of the creation dates, and for every id among those
  -- messages it has a message that is at least as new as each of them with that id.
  pub encrypted_attachment_messages-IsNewest :
      (s : Sources) (k : Str)
      → HasDates parse_date (attachment_candidates s)
      → Any (λ m. m.id ≡ k) (attachment_candidates s)
      → HasDistinctIds (λ m. m.id) (encrypted_attachment_messages parse_date s)
        × InOrder (earlier (created parse_date)) (encrypted_attachment_messages parse_date s)
        × ((w : EncryptedMessage) × (find (λ m. m.id) k (encrypted_attachment_messages parse_date s)
              ≡ some w)
            × IsNewest (λ m. m.id) (message_version parse_date) k w (attachment_candidates s))
  unfolding encrypted_attachment_messages
  encrypted_attachment_messages-IsNewest s k h m =
      let (w, e, best) =
        choose-IsNewest (λ m. m.id) (message_version parse_date) (is_as_new parse_date)
          is_as_new-IsByVersion k (attachment_candidates s)
          (HasDates-version (attachment_candidates s) h) m in
      (
        merged-HasDistinctIds (λ m. m.id) (is_as_new parse_date) (earlier (created parse_date))
            (attachment_candidates s),
        merged-InOrder_desc (is_as_new parse_date) (attachment_candidates s) h,
        (
          w,
          find-merged (λ m. m.id) (is_as_new parse_date) (earlier (created parse_date)) k
                (attachment_candidates s)
              ∙ e,
          best,
        ),
      )

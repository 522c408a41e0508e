-- ===== src/Messages/Shown.antt =====
-- What the chat shows, and what it does not. (frontend/src/hooks/useMessages.ts)
use quiteline.Base.{
  ◌≡◌, ◌∙◌, ap, true, false, ◌&&◌, [], ◌++◌, Option, none, some, ℤ, Str, str_eq_iff, truthy, arith,
  ◌⊎◌, inl, inr, All, Any, All-append, All-map, keep,
}
use quiteline.Js.Number.{IsNum}
use quiteline.Js.Sort.{InOrder, later, sort-later-InOrder}
use quiteline.ById.{
  find, HasDistinctIds, choose, merged, merged-HasDistinctIds, merged-All, values-put_all-All,
}
use quiteline.ById.Union.{always, first_of_two, find-merged-always}
use quiteline.ById.Filter.{keep-HasDistinctIds, find-keep, keep_passes, keep-All}
use quiteline.Wire.{DecryptedMessage}
use quiteline.Messages.State.{Hook, Options}
use quiteline.Messages.Display.{
  sent_at, is_confirmed, is_hidden, shows_pending, shows_decrypted, display_messages,
}

module _ (parse_date : Str → Option ℤ) (o : Options) (h : Hook) where
  -- Why a message may be shown: it is decrypted, or it waits and no own decrypted message was
  -- sent at its time.
  abbrev pub IsShownFor : DecryptedMessage → Type 0
  IsShownFor m =
      (m.room_id ≡ o.active_room)
      × (is_hidden h m.id ≡ false)
      × (Any (λ d. d ≡ m) h.decrypted
          ⊎ Any (λ p. p ≡ m) h.pending
            × ((truthy (sent_at m) && is_confirmed o.identity h.decrypted (sent_at m)) ≡ false))

  pending-IsShownFor :
      (m : DecryptedMessage)
      → Any (λ p. p ≡ m) h.pending × (shows_pending o h m ≡ true)
      → IsShownFor m
  unfolding shows_pending
  pending-IsShownFor m (at, w) =
      (ground (arith, str_eq_iff m.room_id o.active_room), ground arith, inr (at, ground arith))

  decrypted-IsShownFor :
      (m : DecryptedMessage)
      → Any (λ p. p ≡ m) h.decrypted × (shows_decrypted o h m ≡ true)
      → IsShownFor m
  unfolding shows_decrypted
  decrypted-IsShownFor m (at, w) =
      (ground (arith, str_eq_iff m.room_id o.active_room), ground arith, inl at)

  -- The shown list has no id twice. Every message in it belongs to the active room, is not hidden
  -- here, and either is a decrypted message or a waiting one that no own decrypted message confirms
  -- by the time it was sent at.
  pub display_messages_wf :
      HasDistinctIds (λ m. m.id) (display_messages parse_date o h)
      × All IsShownFor (display_messages parse_date o h)
  unfolding display_messages
  display_messages_wf = (
    merged-HasDistinctIds (λ m. m.id) always (later (λ m. parse_date m.created_at)) _,
    merged-All (λ m. m.id) always (later (λ m. parse_date m.created_at)) IsShownFor _
        (All-append IsShownFor (keep (shows_pending o h) h.pending)
          (keep (shows_decrypted o h) h.decrypted)
          (All-map (λ m. Any (λ p. p ≡ m) h.pending × (shows_pending o h m ≡ true)) IsShownFor
            pending-IsShownFor (keep (shows_pending o h) h.pending)
            (keep_passes (shows_pending o h) h.pending))
          (All-map (λ m. Any (λ p. p ≡ m) h.decrypted × (shows_decrypted o h m ≡ true)) IsShownFor
            decrypted-IsShownFor (keep (shows_decrypted o h) h.decrypted)
            (keep_passes (shows_decrypted o h) h.decrypted))),
  )

  -- If the decrypted list has no id twice, each of its messages that belongs to the active room and
  -- is not hidden is shown as it is, whatever waits under the same id.
  pub display_messages-decrypted :
      (d : DecryptedMessage) (k : Str)
      → HasDistinctIds (λ m. m.id) h.decrypted
      → find (λ m. m.id) k h.decrypted ≡ some d
      → d.room_id ≡ o.active_room
      → is_hidden h d.id ≡ false
      → find (λ m. m.id) k (display_messages parse_date o h) ≡ some d
  unfolding display_messages
  display_messages-decrypted d k distinct found same shown =
      find-merged-always (λ m. m.id) (later (λ m. parse_date m.created_at))
        (keep (shows_pending o h) h.pending) (keep (shows_decrypted o h) h.decrypted) k
        (keep-HasDistinctIds (λ m. m.id) (shows_decrypted o h) h.decrypted distinct)
      ∙ ap
          (λ f.
            first_of_two f (choose (λ m. m.id) always k (keep (shows_pending o h) h.pending) none))
          (find-keep (λ m. m.id) (shows_decrypted o h) k h.decrypted d found
            (unfold shows_decrypted in ground (arith, str_eq_iff d.room_id o.active_room)))

  -- If the creation dates of all waiting and decrypted messages parse, the shown list stands in
  -- their order.
  pub display_messages-InOrder :
      All (λ m. IsNum (parse_date m.created_at)) h.pending
      → All (λ m. IsNum (parse_date m.created_at)) h.decrypted
      → InOrder (later (λ m. parse_date m.created_at)) (display_messages parse_date o h)
  unfolding display_messages merged
  display_messages-InOrder p q =
      sort-later-InOrder (λ m. parse_date m.created_at) _
        (values-put_all-All (λ m. m.id) always (λ m. IsNum (parse_date m.created_at))
          (keep (shows_pending o h) h.pending ++ keep (shows_decrypted o h) h.decrypted) []
          (All-append (λ m. IsNum (parse_date m.created_at)) (keep (shows_pending o h) h.pending)
            (keep (shows_decrypted o h) h.decrypted)
            (keep-All (λ m. IsNum (parse_date m.created_at)) (shows_pending o h) h.pending p)
            (keep-All (λ m. IsNum (parse_date m.created_at)) (shows_decrypted o h) h.decrypted q))
          tt)

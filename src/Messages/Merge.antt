-- ===== src/Messages/Merge.antt =====
-- The lists that the hook derives from pages and live messages.
-- (frontend/src/hooks/useMessages.ts)
use quiteline.Base.{
  Bool, List, [], ◌∷◌, ◌++◌, Option, none, some, ℤ, Str, str_eq, if◌then◌else◌, keep, get_or,
}
use quiteline.Js.Number.{num_gt}
use quiteline.Js.Sort.{later, earlier}
use quiteline.ById.{merged}
use quiteline.ById.Union.{always}
use quiteline.Wire.{EncryptedMessage, Page}
use quiteline.Messages.Version.{supersedes, is_as_new}

-- What the derived lists read of the hook's state.
pub record Sources : Type 0 where
  pub active_room : Str
  pub history : Option Page
  pub attachment_history : Option (List EncryptedMessage)
  pub older : List EncryptedMessage
  pub live : List EncryptedMessage
  pub context : List EncryptedMessage
  pub in_context_mode : Bool

abbrev pub in_room : Str → EncryptedMessage → Bool
in_room room msg = str_eq msg.room_id room

-- `history.data?.messages ?? []`.
abbrev pub page_messages : Option Page → List EncryptedMessage
page_messages none = []
page_messages (some p) = p.messages

unfoldable pub paged_messages : Sources → List EncryptedMessage
paged_messages s = s.older ++ page_messages s.history

-- The messages that the loops of `encryptedMessages` put, in turn.
unfoldable pub candidates : Sources → List EncryptedMessage
unfolding paged_messages
candidates s =
    if s.in_context_mode
    then keep (in_room s.active_room) s.context
    else keep (in_room s.active_room) (paged_messages s) ++ keep (in_room s.active_room) s.live

-- The messages that the loops of `encryptedAttachmentMessages` put, in turn.
unfoldable pub attachment_candidates : Sources → List EncryptedMessage
attachment_candidates s =
    keep (in_room s.active_room) (get_or s.attachment_history [])
    ++ keep (in_room s.active_room) s.live

module _ (parse_date : Str → Option ℤ) where
  abbrev pub created : EncryptedMessage → Option ℤ
  created msg = parse_date msg.created_at

  -- The loop of `oldestPagedMessageAt`.
  unfoldable pub oldest_from : Str → List EncryptedMessage → Str
  oldest_from oldest [] = oldest
  oldest_from [] (msg ∷ msgs) = oldest_from msg.created_at msgs
  oldest_from (c ∷ o) (msg ∷ msgs) =
      oldest_from
        (if num_gt (parse_date (c ∷ o)) (parse_date msg.created_at) then msg.created_at else c ∷ o)
        msgs

  unfoldable pub oldest_paged_message_at : Sources → Str
  unfolding oldest_from paged_messages
  oldest_paged_message_at s = oldest_from [] (paged_messages s)

  -- The messages of `prev` win.
  unfoldable pub merge_message_pages :
      List EncryptedMessage → List EncryptedMessage → List EncryptedMessage
  merge_message_pages prev incoming = merged (λ m. m.id) always (later created) (incoming ++ prev)

  unfoldable pub encrypted_messages : Sources → List EncryptedMessage
  unfolding candidates
  encrypted_messages s = merged (λ m. m.id) (supersedes parse_date) (later created) (candidates s)

  unfoldable pub encrypted_attachment_messages : Sources → List EncryptedMessage
  encrypted_attachment_messages s =
      merged (λ m. m.id) (is_as_new parse_date) (earlier created) (attachment_candidates s)

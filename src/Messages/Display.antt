-- ===== src/Messages/Display.antt =====
-- The list that the chat shows: decrypted messages, and the bubbles of messages that wait.
-- (frontend/src/hooks/useMessages.ts)
use quiteline.Base.{
  Bool, true, false, not, ◌&&◌, List, [], ◌++◌, Option, none, some, ℤ, Str, str_eq, truthy, any,
  get_or, keep,
}
use quiteline.Js.OrderedMap.{get}
use quiteline.Js.Sort.{later}
use quiteline.ById.{merged}
use quiteline.ById.Union.{always}
use quiteline.Wire.{Identity, DecryptedMessage, sent}
use quiteline.Messages.State.{Hook, Options}

-- `msg.body?.sentAt`, or an empty text.
abbrev pub sent_at : DecryptedMessage → Str
sent_at msg = elim msg.body [ none ↦ [] | some b ↦ b.sent_at ]

-- `msg.senderId === identity?.userId`.
abbrev pub is_own : Option Identity → DecryptedMessage → Bool
is_own none msg = false
is_own (some me) msg = str_eq msg.sender_id me.user_id

-- `confirmedSentAts.has(at)`: an own decrypted message was sent at that time.
unfoldable pub is_confirmed : Option Identity → List DecryptedMessage → Str → Bool
is_confirmed me decrypted at =
    any (λ m. is_own me m && truthy (sent_at m) && str_eq (sent_at m) at) decrypted

-- `localDeletedMessageIDs[id]`.
abbrev pub is_hidden : Hook → Str → Bool
is_hidden h id = get_or (get id h.local_deleted) false

-- The bubbles that the loop over `pendingMessages` puts.
unfoldable pub shows_pending : Options → Hook → DecryptedMessage → Bool
unfolding is_confirmed
shows_pending o h msg =
    str_eq msg.room_id o.active_room
    && not (is_hidden h msg.id)
    && not (truthy (sent_at msg) && is_confirmed o.identity h.decrypted (sent_at msg))

unfoldable pub shows_decrypted : Options → Hook → DecryptedMessage → Bool
shows_decrypted o h msg = str_eq msg.room_id o.active_room && not (is_hidden h msg.id)

unfoldable pub display_messages : (Str → Option ℤ) → Options → Hook → List DecryptedMessage
unfolding shows_pending shows_decrypted
display_messages parse_date o h =
    merged (λ m. m.id) always (later (λ m. parse_date m.created_at))
      (keep (shows_pending o h) h.pending ++ keep (shows_decrypted o h) h.decrypted)

-- The test of the effect that drops confirmed bubbles.
abbrev pub is_sent : DecryptedMessage → Bool
is_sent msg = elim msg.status [ none ↦ false | some s ↦ elim s [ sent ↦ true | _ ↦ false ] ]

unfoldable pub drop_confirmed : Hook → Hook
drop_confirmed h = record h {
  pending = keep (λ m. not (is_sent m && any (λ d. str_eq d.id m.id) h.decrypted)) h.pending;
}

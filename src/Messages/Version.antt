-- ===== src/Messages/Version.antt =====
-- Versions of a message, and the test by which a newer state of a message replaces an older one.
-- (frontend/src/types/messenger.ts, frontend/src/hooks/useMessages.ts)
use quiteline.Base.{
  Bool, true, false, not, ◌&&◌, ◌||◌, List, [], ◌∷◌, ◌++◌, map, Option, none, some, ℤ, Str, str_eq,
  or_str, get_or,
}
use quiteline.Js.Number.{num_gt, num_eq}
use quiteline.Js.Decimal.{decimal}
use quiteline.Wire.{EncryptedMessage, MessageReaction}

-- `parts.join('|')`.
unfoldable pub join_bar : List Str → Str
join_bar [] = []
join_bar (s ∷ []) = s
join_bar (s ∷ t ∷ r) = s ++ (b'|' ∷ join_bar (t ∷ r))

unfoldable pub show_reaction : MessageReaction → Str
unfolding decimal
show_reaction r = r.emoji ++ (b':' ∷ decimal r.count)

unfoldable pub reaction_signature : Option (List MessageReaction) → Str
unfolding join_bar show_reaction
reaction_signature reactions = join_bar (map show_reaction (get_or reactions []))

-- `Boolean(msg.read)`.
abbrev pub is_read : EncryptedMessage → Bool
is_read msg = get_or msg.read false

module _ (parse_date : Str → Option ℤ) where
  abbrev pub message_version : EncryptedMessage → Option ℤ
  message_version msg = parse_date (or_str msg.deleted_at (or_str msg.edited_at msg.created_at))

  -- The test of `put` in `encryptedMessages`.
  unfoldable pub supersedes : EncryptedMessage → Option EncryptedMessage → Bool
  supersedes msg none = true
  supersedes msg (some current) =
      num_gt (message_version msg) (message_version current)
      || (num_eq (message_version msg) (message_version current)
          && is_read msg
          && not (is_read current))
      || (num_eq (message_version msg) (message_version current)
          && not (str_eq (reaction_signature msg.reactions) (reaction_signature current.reactions)))

  -- The test of `put` in `encryptedAttachmentMessages`.
  unfoldable pub is_as_new : EncryptedMessage → Option EncryptedMessage → Bool
  is_as_new msg none = true
  is_as_new msg (some current) =
      num_gt (message_version msg) (message_version current)
      || num_eq (message_version msg) (message_version current)

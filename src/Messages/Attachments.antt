-- ===== src/Messages/Attachments.antt =====
-- The effect that decrypts the messages with attachments. (frontend/src/hooks/useMessages.ts)
use quiteline.Base.{
  ◌≡◌, ◌↔◌, ◌∙◌, ap, sym, refl, Bool, true, false, List, [], ◌∷◌, Option, none, some, truthy,
  if◌then◌else◌, get_or, Any, inl, inr, or_str, Option-cases, Bool-cases,
}
use quiteline.Wire.{EncryptedMessage, DecryptedMessage, PlainMessage, EncryptedAttachment}
use quiteline.Messages.Version.{is_read}
use quiteline.Messages.State.{Hook}

-- `msg.deletedAt`, as a condition.
abbrev pub is_deleted : EncryptedMessage → Bool
is_deleted msg = truthy (or_str msg.deleted_at [])

-- `decode` is `decodeMessagePayload` of a message, with the room's secret: `none` if it throws.
module _ (decode : EncryptedMessage → Option PlainMessage) where
  abbrev pub decoded : EncryptedMessage → PlainMessage → DecryptedMessage
  decoded msg body = record {
    id = msg.id;
    room_id = msg.room_id;
    sender_id = msg.sender_id;
    body = some body;
    created_at = msg.created_at;
    edited_at = msg.edited_at;
    deleted_at = msg.deleted_at;
    read_by = some (get_or msg.read_by []);
    read_receipts = some (get_or msg.read_receipts []);
    read = some (is_read msg);
    reactions = some (get_or msg.reactions []);
    status = none;
    has_failed = none;
  }

  -- One message: null if it cannot be read, has no attachment or is deleted.
  unfoldable pub attachment_message : EncryptedMessage → Option DecryptedMessage
  attachment_message msg = elim (decode msg) [
    | none ↦ none
    | some body ↦ elim body.attachment [
      | none ↦ none
      | some a ↦ if is_deleted msg then none else some (decoded msg body)
    ]
  ]

  unfoldable pub attachment_messages : List EncryptedMessage → List DecryptedMessage
  unfolding attachment_message
  attachment_messages [] = []
  attachment_messages (msg ∷ msgs) = elim (attachment_message msg) [
    | none ↦ attachment_messages msgs
    | some d ↦ d ∷ attachment_messages msgs
  ]

  -- The end of the effect; `cancelled` says that it has been cleaned up since.
  unfoldable pub finish_attachments : Bool → List EncryptedMessage → Hook → Hook
  unfolding attachment_messages
  finish_attachments true msgs h = h
  finish_attachments false msgs h = record h { attachments = attachment_messages msgs }

  -- What the list of attachments has to do with a message: it is decoded, has an attachment and is
  -- not deleted.
  abbrev pub IsAttachmentOf : DecryptedMessage → EncryptedMessage → Type 0
  IsAttachmentOf d msg =
      (body : PlainMessage) × (decode msg ≡ some body)
      × ((a : EncryptedAttachment) × (body.attachment ≡ some a))
      × (is_deleted msg ≡ false)
      × (d ≡ decoded msg body)

  if_attached :
      (msg : EncryptedMessage) (body : PlainMessage) (t : Option EncryptedAttachment)
      (d : DecryptedMessage)
      → elim t [ none ↦ none | some a ↦ if is_deleted msg then none else some (decoded msg body) ]
        ≡ some d
      → ((a : EncryptedAttachment) × (t ≡ some a))
        × (is_deleted msg ≡ false)
        × (d ≡ decoded msg body)
  if_attached msg body none d e = cc
  if_attached msg body (some a) d e = elim (Bool-cases (is_deleted msg)) [
    | inl gone ↦ cc (rw gone at e)
    | inr there ↦ ((a, refl), there, cc (rw there at e))
  ]

  if_decoded :
      (msg : EncryptedMessage) (o : Option PlainMessage) (d : DecryptedMessage)
      → elim o [
        | none ↦ none
        | some body ↦ elim body.attachment [
          | none ↦ none
          | some a ↦ if is_deleted msg then none else some (decoded msg body)
        ]
      ]
        ≡ some d
      → (body : PlainMessage) × (o ≡ some body)
        × ((a : EncryptedAttachment) × (body.attachment ≡ some a))
        × (is_deleted msg ≡ false)
        × (d ≡ decoded msg body)
  if_decoded msg none d e = cc
  if_decoded msg (some body) d e =
      let (attached, there, same) = if_attached msg body body.attachment d e in
      (body, refl, attached, there, same)

  attachment_message-IsAttachmentOf :
      (msg : EncryptedMessage) (d : DecryptedMessage)
      → attachment_message msg ≡ some d
      → IsAttachmentOf d msg
  unfolding attachment_message
  attachment_message-IsAttachmentOf msg d e = if_decoded msg (decode msg) d e

  IsAttachmentOf-attachment_message :
      (msg : EncryptedMessage) (d : DecryptedMessage)
      → IsAttachmentOf d msg
      → attachment_message msg ≡ some d
  unfolding attachment_message
  IsAttachmentOf-attachment_message msg d (body, e, (a, t), n, same) =
      rw (e, attachment_message) (rw (t, attachment_message) (rw n (ap some (sym same))))

  listed :
      (msgs : List EncryptedMessage) (d : DecryptedMessage)
      → Any (λ x. x ≡ d) (attachment_messages msgs) ↔ Any (IsAttachmentOf d) msgs
  unfolding attachment_messages
  listed [] d = (λ a. a, λ a. a)
  listed (m ∷ ms) d = elim (Option-cases (attachment_message m)) [
    | inl lost ↦
        rw (lost, attachment_messages)
          (
            λ a. inr ((listed ms d).0 a),
            λ a. elim a [
              | inl here ↦ cc (lost, IsAttachmentOf-attachment_message m d here)
              | inr there ↦ (listed ms d).1 there
            ],
          )
    | inr (x, found) ↦
        rw (found, attachment_messages)
          (
            λ a. elim a [
              | inl here ↦ inl (attachment_message-IsAttachmentOf m d (found ∙ ap some here))
              | inr there ↦ inr ((listed ms d).0 there)
            ],
            λ a. elim a [
              | inl here ↦ inl (cc (found, IsAttachmentOf-attachment_message m d here))
              | inr there ↦ inr ((listed ms d).1 there)
            ],
          )
  ]

  -- When a run of the effect has not been cancelled, the list of attachments has just the messages
  -- that are what one of the effect's messages decodes to, which has an attachment and is not deleted.
  pub finish_attachments_iff :
      (msgs : List EncryptedMessage) (h : Hook) (d : DecryptedMessage)
      → Any (λ x. x ≡ d) (finish_attachments false msgs h).attachments ↔ Any (IsAttachmentOf d) msgs
  unfolding finish_attachments
  finish_attachments_iff msgs h d = listed msgs d

-- ===== src/Messages/Transmit.antt =====
-- What the mutations ask the server for. (frontend/src/hooks/useMessages.ts)
use quiteline.Base.{◌≡◌, refl, List, [], Option, none, some, ℕ, Str, codes, inl, not, if◌then◌else◌}
use quiteline.Wire.{
  AuthSession, Identity, EncryptedMessage, DecryptedMessage, PlainMessage, EncryptedAttachment,
  Reply, ok, auth_error, error,
}
use quiteline.Api.Request.{Request}
use quiteline.Api.Calls.{upload_encrypted_file}
use quiteline.Api.Chat.{
  send_encrypted_message, update_encrypted_message, delete_encrypted_message_for_all,
  toggle_message_reaction,
}
use quiteline.Codec.Cipher.{Platform, Payload, encode_plain_message, plain_file_algorithm}
use quiteline.Codec.CipherRoundTrip.{IsWritten, AreBytes}
use quiteline.Messages.State.{File, Hook, Options}
use quiteline.Messages.Sending.{
  MessageDraft, bubble, on_hidden, on_deleted, local_attachment, opt_map,
}
use quiteline.Messages.Secrets.{Carries, decode_body, decode_body_made}

-- `FileUploadResponse`.
pub record Uploaded : Type 0 where
  pub file_id : Str
  pub size : ℕ

-- What the server answers to requests.
pub record Server : Type 0 where
  pub take_file : Request → Reply Uploaded
  pub take_message : Request → Reply EncryptedMessage

abbrev pub attachment_of : File → Uploaded → EncryptedAttachment
attachment_of file uploaded = record {
  file_id = uploaded.file_id;
  name = file.name;
  type = file.type;
  size = file.size;
  ciphertext_size = uploaded.size;
  nonce = [];
  algorithm = plain_file_algorithm;
}

abbrev pub plain_of :
    Identity → AuthSession → MessageDraft → Option EncryptedAttachment → PlainMessage
plain_of me s draft attachment = record {
  text = draft.text;
  sender_name = me.display_name;
  sender_avatar_url = s.principal.avatar_url;
  sent_at = draft.created_at;
  reply_to = draft.reply_to;
  system = none;
  attachment = attachment;
}

abbrev pub with_reply : {A B : Type 0} → Reply A → (A → Reply B) → Reply B
with_reply (ok a) f = f a
with_reply auth_error f = auth_error
with_reply (error e) f = error e

-- What the delete mutation gives: a message that is hidden here only, or the one that the server has
-- deleted for all.
pub data Deleted : Type 0 where
  hidden : DecryptedMessage → Deleted
  deleted : EncryptedMessage → Deleted

-- The function of the delete mutation.
unfoldable pub delete_fn : (Request → Reply EncryptedMessage) → Options → Hook → Reply Deleted
delete_fn take_message o h = elim o.session [
  | none ↦ error (codes "message_not_ready")
  | some s ↦ elim h.delete_target [
    | none ↦ error (codes "message_not_ready")
    | some target ↦
        if not h.delete_for_everyone
        then ok (hidden target)
        else with_reply
            (take_message
              (delete_encrypted_message_for_all target.room_id target.id s.access_token))
            (λ m. ok (deleted m))
  ]
]

-- `onSuccess` of the delete mutation.
unfoldable pub on_delete_success : Deleted → Hook → Hook
unfolding on_hidden on_deleted
on_delete_success (hidden m) h = on_hidden m.id h
on_delete_success (deleted m) h = on_deleted m h

-- The function of the reaction mutation.
unfoldable pub react_fn :
    (Request → Reply EncryptedMessage) → Options → DecryptedMessage → Str → Reply EncryptedMessage
react_fn take_message o message emoji = elim o.session [
  | none ↦ error (codes "message_not_ready")
  | some s ↦ take_message (toggle_message_reaction message.room_id message.id emoji s.access_token)
]

-- `content` is what a file holds.
module _ {Key : Type 0} (p : Platform Key) (content : File → List ℕ) (server : Server) where
  unfoldable pub upload : AuthSession → MessageDraft → Reply (Option EncryptedAttachment)
  upload s draft = elim draft.file [
    | none ↦ ok none
    | some f ↦
        with_reply
          (server.take_file (upload_encrypted_file s.access_token draft.room_id (content f)))
          (λ uploaded. ok (some (attachment_of f uploaded)))
  ]

  abbrev pub request_of : Identity → AuthSession → MessageDraft → Payload → Request
  request_of me s draft q =
      send_encrypted_message draft.room_id me.user_id q.ciphertext q.nonce q.algorithm q.key_id
        s.access_token

  -- The function of the send mutation.
  unfoldable pub send_fn : Options → MessageDraft → Reply EncryptedMessage
  unfolding upload encode_plain_message
  send_fn o draft = elim o.identity [
    | none ↦ error (codes "room_not_ready")
    | some me ↦ elim o.session [
      | none ↦ error (codes "room_not_ready")
      | some s ↦ with_reply (upload s draft) (λ attachment.
          server.take_message
            (request_of me s draft (encode_plain_message p (plain_of me s draft attachment))))
    ]
  ]

  -- The function of the edit mutation.
  unfoldable pub edit_fn : (Str → Str) → Options → Hook → Reply EncryptedMessage
  unfolding encode_plain_message
  edit_fn trim o h = elim o.session [
    | none ↦ error (codes "message_not_ready")
    | some s ↦ elim h.edit_target [
      | none ↦ error (codes "message_not_ready")
      | some target ↦ elim target.body [
        | none ↦ error (codes "message_not_ready")
        | some body ↦
            let q = encode_plain_message p (record body { text = trim h.edit_text }) in
            server.take_message (
              update_encrypted_message target.room_id target.id q.ciphertext q.nonce q.algorithm
                q.key_id s.access_token)
      ]
    ]
  ]

  -- If the user is logged in, the file of the draft, if there is one, has been uploaded, the server
  -- answers with a message that carries what it was sent, and the plain message comes back from its
  -- JSON, then the mutation gives that message, and whatever the room's secret it is decoded as what
  -- the waiting bubble shows, with the uploaded file in place of the local one.
  pub send_fn-decode_body :
      (o : Options) (draft : MessageDraft) (me : Identity) (s : AuthSession)
      → (attachment : Option EncryptedAttachment) (msg : EncryptedMessage) (secret : Str)
      → o.identity ≡ some me
      → o.session ≡ some s
      → upload s draft ≡ ok attachment
      → let m = plain_of me s draft attachment in
        server.take_message (request_of me s draft (encode_plain_message p m)) ≡ ok msg
        → Carries p secret msg (encode_plain_message p m)
        → IsWritten p m
        → AreBytes p (p.stringify m)
        → (send_fn o draft ≡ ok msg)
          × (decode_body p secret msg ≡ some m)
          × ((bubble o me draft).body
              ≡ some (record m { attachment = opt_map local_attachment draft.file }))
  unfolding send_fn bubble
  send_fn-decode_body o draft me s attachment msg secret i e u r c w b = (
    rw (i, e) (rw u r),
    decode_body_made p secret msg (plain_of me s draft attachment) (w, inl (c, b)),
    rw e refl,
  )

-- ===== src/Messages/Sending.antt =====
-- Messages on their way to the server: the bubble that waits, and what the mutations do when the
-- server has answered. (frontend/src/hooks/useMessages.ts)
use quiteline.Base.{
  Bool, true, false, not, ◌||◌, ◌&&◌, List, [], ◌∷◌, ◌++◌, map, Option, none, some, ℕ, ◌*◌, Str,
  str_eq, truthy, codes, or_else, if◌then◌else◌, any, ltb, length, take,
}
use quiteline.Js.OrderedMap.{set}
use quiteline.Js.Slice.{last}
use quiteline.Wire.{
  Identity, EncryptedMessage, DecryptedMessage, PlainMessage, EncryptedAttachment, ReplyTo, Reply,
  ok, auth_error, error, sending, sent, failed,
}
use quiteline.Messages.State.{Hook, Options, File, Failure, auth_expired, request_error}
use quiteline.Codec.Cipher.{plain_file_algorithm}
use quiteline.Messages.Paging.{exit_context_mode}

-- How many live messages are kept.
abbrev pub live_limit : ℕ
live_limit = 200

-- `(prev) => [...prev, msg].slice(-200)`.
unfoldable pub push_live : EncryptedMessage → List EncryptedMessage → List EncryptedMessage
unfolding last
push_live msg prev = last live_limit (prev ++ msg ∷ [])

abbrev pub max_file_bytes : ℕ
max_file_bytes = 100 * 1024 * 1024

abbrev pub is_too_large : Option File → Bool
is_too_large none = false
is_too_large (some f) = ltb max_file_bytes f.size

-- The notices that a handler may show.
pub data Notice : Type 0 where
  file_too_large : Notice

unfoldable pub select_file : Option File → Hook → Hook × Option Notice
select_file file h =
    if is_too_large file
    then (record h { selected_file = none }, some file_too_large)
    else (record h { selected_file = file }, none)

abbrev opt_text : Option PlainMessage → Str
opt_text none = []
opt_text (some b) = b.text

abbrev opt_name : Option PlainMessage → Str
opt_name none = []
opt_name (some b) = elim b.attachment [ none ↦ [] | some a ↦ a.name ]

-- `msg.body?.senderName ?? msg.senderId`.
abbrev preview_sender : DecryptedMessage → Str
preview_sender msg = elim msg.body [ none ↦ msg.sender_id | some b ↦ b.sender_name ]

abbrev preview_text : DecryptedMessage → Str
preview_text msg = or_else (opt_text msg.body) (or_else (opt_name msg.body) (codes "Message"))

unfoldable pub message_reply_preview : DecryptedMessage → ReplyTo
message_reply_preview msg = record {
  id = msg.id;
  sender_name = preview_sender msg;
  text =
      if ltb 120 (length (preview_text msg))
      then take 117 (preview_text msg) ++ codes "..."
      else preview_text msg;
}

pub record MessageDraft : Type 0 where
  pub client_id : Str
  pub room_id : Str
  pub text : Str
  pub file : Option File
  pub created_at : Str
  pub reply_to : Option ReplyTo

abbrev pub local_attachment : File → EncryptedAttachment
local_attachment f = record {
  file_id = [];
  name = f.name;
  type = f.type;
  size = f.size;
  ciphertext_size = f.size;
  nonce = [];
  algorithm = plain_file_algorithm;
}

abbrev pub opt_map : {A B : Type 0} → (A → B) → Option A → Option B
opt_map f none = none
opt_map f (some a) = some (f a)

-- The bubble that `submitMessage` shows while the draft is on its way.
unfoldable pub bubble : Options → Identity → MessageDraft → DecryptedMessage
bubble o me draft = record {
  id = draft.client_id;
  room_id = draft.room_id;
  sender_id = me.user_id;
  body = some (record {
    text = draft.text;
    sender_name = me.display_name;
    sender_avatar_url = elim o.session [ none ↦ none | some s ↦ s.principal.avatar_url ];
    sent_at = draft.created_at;
    reply_to = draft.reply_to;
    system = none;
    attachment = opt_map local_attachment draft.file;
  });
  created_at = draft.created_at;
  edited_at = none;
  deleted_at = none;
  read_by = none;
  read_receipts = none;
  read = none;
  reactions = none;
  status = some sending;
  has_failed = none;
}

-- What `submitMessage` leads to besides the new state.
pub data Submitted : Type 0 where
  ignored : Submitted
  refused : Notice → Submitted
  mutate : MessageDraft → Submitted

-- `trim` is `String.prototype.trim`, `uuid` what `crypto.randomUUID()` returns, and `now` the
-- current time; `is_pending` says that the send mutation is running.
module _ (trim : Str → Str) where
  unfoldable pub draft_of : Options → Str → Str → Hook → MessageDraft
  unfolding message_reply_preview
  draft_of o uuid now h = record {
    client_id = codes "local-" ++ uuid;
    room_id = o.active_room;
    text = trim h.message_text;
    file = h.selected_file;
    created_at = now;
    reply_to = opt_map message_reply_preview h.reply_target;
  }

  unfoldable pub submit_message : Options → Bool → Str → Str → Hook → Hook × Submitted
  unfolding draft_of bubble
  submit_message o is_pending uuid now h = elim o.identity [
    | none ↦ (h, ignored)
    | some me ↦
        if not (truthy (trim h.message_text))
            && elim h.selected_file [ none ↦ true | some f ↦ false ]
          || not (truthy o.active_room)
          || is_pending
        then (h, ignored)
        else if is_too_large h.selected_file
        then (h, refused file_too_large)
        else (
          record h {
            pending = h.pending ++ bubble o me (draft_of o uuid now h) ∷ [];
            message_text = [];
            selected_file = none;
            reply_target = none;
          },
          mutate (draft_of o uuid now h),
        )
  ]

-- The row of `pendingMessages` for a draft that the server has taken.
abbrev pub confirm : Str → Str → DecryptedMessage → DecryptedMessage
confirm client_id id item =
    if str_eq item.id client_id then record item { id = id; status = some sent } else item

abbrev pub give_up : Str → DecryptedMessage → DecryptedMessage
give_up client_id item =
    if str_eq item.id client_id then record item { status = some failed } else item

-- `onSuccess` of the send mutation. (It also invalidates the attachment query, and sends a typing
-- event.)
unfoldable pub on_sent : Str → EncryptedMessage → Hook → Hook
unfolding exit_context_mode push_live
on_sent client_id message h =
    let g = if h.in_context_ref then exit_context_mode h else h in
    record g {
      pending = map (confirm client_id message.id) g.pending;
      live = if any (λ m. str_eq m.id message.id) g.live then g.live else push_live message g.live;
      reply_target = none;
    }

-- `onError` of the send mutation; `title` is `t('sendFailed')`.
unfoldable pub on_send_failed :
    Str → MessageDraft → Reply EncryptedMessage → Hook → Hook × Option Failure
on_send_failed title draft (ok m) h = (h, none)
on_send_failed title draft auth_error h =
    (record h { pending = map (give_up draft.client_id) h.pending }, some auth_expired)
on_send_failed title draft (error e) h =
    (record h { pending = map (give_up draft.client_id) h.pending }, some (request_error e title))

-- `onSuccess` of the edit mutation.
unfoldable pub on_edited : EncryptedMessage → Hook → Hook
unfolding push_live
on_edited message h = record h {
  live = push_live message h.live;
  edit_target = none;
  edit_text = [];
}

-- `onSuccess` of the delete mutation: of a message hidden here only, and of one deleted for all.
unfoldable pub on_hidden : Str → Hook → Hook
on_hidden id h = record h {
  local_deleted = set id true h.local_deleted;
  delete_target = none;
  delete_for_everyone = false;
}

unfoldable pub on_deleted : EncryptedMessage → Hook → Hook
unfolding push_live
on_deleted message h = record h {
  live = push_live message h.live;
  delete_target = none;
  delete_for_everyone = false;
}

-- `onSuccess` of the reaction mutation.
unfoldable pub on_reacted : EncryptedMessage → Hook → Hook
unfolding push_live
on_reacted message h = record h { live = push_live message h.live }

unfoldable pub open_edit_message : DecryptedMessage → Hook → Hook
open_edit_message msg h = record h { edit_target = some msg; edit_text = opt_text msg.body }

unfoldable pub open_delete_message : DecryptedMessage → Hook → Hook
open_delete_message msg h = record h { delete_target = some msg; delete_for_everyone = false }

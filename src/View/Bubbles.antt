-- ===== src/View/Bubbles.antt =====
-- Single messages: calls, their lengths, the status of a message, and what is opened of it.
-- (frontend/src/components/chat/ChatView.tsx, frontend/src/components/layout/AppShell.tsx)
use quiteline.Base.{
  Bool, true, false, not, ◌&&◌, ◌||◌, List, [], ◌∷◌, ◌++◌, Option, none, some, ℕ, ◌-◌, ◌/◌, ◌%◌,
  Str, str_eq, truthy, ltb, length, replicate, codes, or_else, if◌then◌else◌,
}
use quiteline.Js.Decimal.{decimal}
use quiteline.Js.OrderedMap.{get}
use quiteline.Api.Request.{starts_with}
use quiteline.Wire.{
  DecryptedMessage, EncryptedAttachment, System, join, leave, call, CallOutcome, completed, missed,
  declined, sending, sent, seen, failed,
}
use quiteline.View.Scroll.{is_system}

-- `s.padStart(2, '0')`.
abbrev pub pad_two : Str → Str
pad_two s = replicate (2 - length s) b'0' ++ s

-- `${mins}:${secs}` of a number of seconds: `formatCallDuration`, and the same in a bubble.
unfoldable pub format_call_duration : ℕ → Str
unfolding decimal
format_call_duration total =
    pad_two (decimal (total / 60)) ++ (b':' ∷ pad_two (decimal (total % 60)))

pub data CallIcon : Type 0 where
  phone phone_end phone_incoming : CallIcon

pub data CallLabel : Type 0 where
  was_call was_missed was_declined : CallLabel

-- What `CallOrSystemBubble` shows: the text of a system message, or a call's icon, whether it is
-- green, its label and its length.
pub data Bubble : Type 0 where
  notice : Str → Bubble
  call_bubble : CallIcon → Bool → CallLabel → Option Str → Bubble

abbrev pub is_completed : CallOutcome → Bool
is_completed completed = true
is_completed missed = false
is_completed declined = false

abbrev pub label_of : CallOutcome → CallLabel
label_of completed = was_call
label_of missed = was_missed
label_of declined = was_declined

abbrev pub icon_of : Bool → CallOutcome → CallIcon
icon_of true outcome = phone
icon_of false missed = phone_end
icon_of false completed = phone_incoming
icon_of false declined = phone_incoming

unfoldable pub call_or_system_bubble : Str → System → Bubble
unfolding format_call_duration
call_or_system_bubble me (join text) = notice text
call_or_system_bubble me (leave text) = notice text
call_or_system_bubble me (call outcome seconds caller callee) =
    call_bubble (icon_of (str_eq caller me) outcome) (is_completed outcome) (label_of outcome)
      (if is_completed outcome && ltb 0 seconds then some (format_call_duration seconds) else none)

pub data StatusIcon : Type 0 where
  clock cross checks check : StatusIcon

abbrev pub was_seen : Option Bool → StatusIcon
was_seen none = check
was_seen (some b) = if b then checks else check

-- `renderMessageStatus`.
unfoldable pub render_message_status : Str → DecryptedMessage → Option StatusIcon
render_message_status me msg =
    if not (str_eq msg.sender_id me) || is_system msg then none else elim msg.status [
      | some sending ↦ some clock
      | some failed ↦ some cross
      | some seen ↦ some checks
      | some sent ↦ some (was_seen msg.read)
      | none ↦ some (was_seen msg.read)
    ]

-- The image that is shown, the message whose image is waited for, and what is asked for.
pub record Viewer : Type 0 where
  pub attachments_opened : Bool
  -- The source and the name.
  pub image : Option (Str × Str)
  pub pending_image : Str
  -- The messages whose attachments are asked for.
  pub asked : List Str

abbrev pub attachment_of : DecryptedMessage → Option EncryptedAttachment
attachment_of msg = elim msg.body [ none ↦ none | some b ↦ b.attachment ]

-- `openAttachmentPreview`, given the previews that are there.
unfoldable pub open_attachment_preview : List (Str × Str) → DecryptedMessage → Viewer → Viewer
unfolding get
open_attachment_preview previews msg v = elim (attachment_of msg) [
  | none ↦ v
  | some a ↦
      let shut = record v { attachments_opened = false } in
      let asks = record shut { asked = msg.id ∷ v.asked } in
      if starts_with (codes "image/") a.type
      then elim (get msg.id previews) [
        | none ↦ record asks { pending_image = msg.id }
        | some src ↦
            if truthy src
            then record shut { image = some (src, a.name) }
            else record asks { pending_image = msg.id }
      ]
      else asks
]

abbrev pub name_of : Str → Option DecryptedMessage → Str
name_of preview none = preview
name_of preview (some m) = elim (attachment_of m) [
  | none ↦ preview
  | some a ↦ or_else a.name preview
]

abbrev pub find_message : Str → List DecryptedMessage → Option DecryptedMessage
find_message k [] = none
find_message k (m ∷ ms) = if str_eq m.id k then some m else find_message k ms

-- The effect that shows an image that has been waited for; `preview` is the text for one without a
-- name.
unfoldable pub preview_arrived : Str → List (Str × Str) → List DecryptedMessage → Viewer → Viewer
unfolding get
preview_arrived preview previews visible v =
    if truthy v.pending_image
    then elim (get v.pending_image previews) [
      | none ↦ v
      | some src ↦
          if truthy src
          then record v {
            attachments_opened = false;
            image = some (src, name_of preview (find_message v.pending_image visible));
            pending_image = [];
          }
          else v
    ]
    else v

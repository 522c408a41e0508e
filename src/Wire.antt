-- ===== src/Wire.antt =====
-- The data that the frontend's modules exchange.
-- (frontend/src/lib/api.ts, frontend/src/lib/crypto.ts, frontend/src/types/messenger.ts)
use quiteline.Base.{Bool, List, Option, ℕ, Str}

pub data Theme : Type 0 where
  light dark : Theme

pub record Identity : Type 0 where
  pub user_id : Str
  pub display_name : Str
  pub identity_public_key : Str
  pub created_at : Str
  pub last_seen_at : Str

pub record Principal : Type 0 where
  pub client_id : Str
  pub user_id : Str
  pub session_id : Option Str
  pub username : Str
  pub display_name : Str
  pub friend_code : Option Str
  pub theme : Theme
  pub avatar_url : Option Str
  pub totp_enabled : Bool
  pub scopes : List Str
  pub expires : ℕ

pub record AuthSession : Type 0 where
  pub access_token : Str
  pub token_type : Str
  pub expires_at : ℕ
  pub principal : Principal

pub record Room : Type 0 where
  pub room_id : Str
  pub name : Str
  pub members : List Str
  pub member_profiles : Option (List Identity)
  pub room_secret : Option Str
  pub last_message_at : Option Str
  pub unread_count : Option ℕ
  pub created_at : Str

pub data FriendStatus : Type 0 where
  pending accepted : FriendStatus

pub data Direction : Type 0 where
  incoming outgoing : Direction

pub record Friend : Type 0 where
  pub user_id : Str
  pub display_name : Str
  pub status : FriendStatus
  pub direction : Direction
  pub created_at : Str

pub record MessageReadReceipt : Type 0 where
  pub user_id : Str
  pub read_at : Str

pub record MessageReaction : Type 0 where
  pub emoji : Str
  pub count : ℕ

pub record EncryptedMessage : Type 0 where
  pub id : Str
  pub room_id : Str
  pub sender_id : Str
  pub ciphertext : Str
  pub nonce : Str
  pub algorithm : Str
  pub key_id : Str
  pub created_at : Str
  pub edited_at : Option Str
  pub deleted_at : Option Str
  pub read_by : Option (List Str)
  pub read_receipts : Option (List MessageReadReceipt)
  pub read : Option Bool
  pub reactions : Option (List MessageReaction)

pub record EncryptedAttachment : Type 0 where
  pub file_id : Str
  pub name : Str
  pub type : Str
  pub size : ℕ
  pub ciphertext_size : ℕ
  pub nonce : Str
  pub algorithm : Str

pub record ReplyTo : Type 0 where
  pub id : Str
  pub sender_name : Str
  pub text : Str

pub data CallOutcome : Type 0 where
  completed missed declined : CallOutcome

pub data System : Type 0 where
  join : Str → System
  leave : Str → System
  -- The outcome, the duration in seconds, the caller and the callee.
  call : CallOutcome → ℕ → Str → Str → System

pub record PlainMessage : Type 0 where
  pub text : Str
  pub sender_name : Str
  pub sender_avatar_url : Option Str
  pub sent_at : Str
  pub reply_to : Option ReplyTo
  pub system : Option System
  pub attachment : Option EncryptedAttachment

pub data Status : Type 0 where
  sending sent seen failed : Status

pub record DecryptedMessage : Type 0 where
  pub id : Str
  pub room_id : Str
  pub sender_id : Str
  pub body : Option PlainMessage
  pub created_at : Str
  pub edited_at : Option Str
  pub deleted_at : Option Str
  pub read_by : Option (List Str)
  pub read_receipts : Option (List MessageReadReceipt)
  pub read : Option Bool
  pub reactions : Option (List MessageReaction)
  pub status : Option Status
  pub has_failed : Option Bool

-- A page of messages, as `fetchMessages` and `fetchMessageContext` return it.
pub record Page : Type 0 where
  pub messages : List EncryptedMessage
  pub has_more : Bool

-- What a request can end in: a value, an `AuthError`, or another error with its message.
pub data Reply {ℓ} (A : Type ℓ) : Type ℓ where
  ok : A → Reply A
  auth_error : Reply A
  error : Str → Reply A

pub data Presence : Type 0 where
  online offline : Presence

pub data Reason : Type 0 where
  busy declined_by_user : Reason

pub data SignalKind : Type 0 where
  -- The caller's display name.
  offer : Str → SignalKind
  answer : SignalKind
  ice : Str → SignalKind
  -- The chunk and its number.
  audio : Str → ℕ → SignalKind
  hangup : SignalKind
  decline : Option Reason → SignalKind

-- The events whose kind begins with `call-`.
pub record Signal : Type 0 where
  pub kind : SignalKind
  pub call_id : Str
  pub room_id : Str
  pub from_user_id : Str
  pub to_user_id : Str

pub data RealtimeEvent : Type 0 where
  -- The user, the display name, whether they type, and when.
  typing : Str → Str → Bool → Str → RealtimeEvent
  -- The user, the display name, the status, when they were seen last, and whether to answer.
  presence : Str → Str → Presence → Str → Bool → RealtimeEvent
  profile_updated : Str → Str → Option Str → RealtimeEvent
  chats_changed : Option Str → Option Str → Str → RealtimeEvent
  rooms_changed : Option Str → Option Str → Str → RealtimeEvent
  friends_changed : Option Str → Str → RealtimeEvent
  sessions_changed : Option Str → Str → RealtimeEvent
  -- The user, the session, and when.
  session_revoked : Option Str → Option Str → Str → RealtimeEvent
  -- The room, the user, and when.
  message_read : Str → Str → Str → RealtimeEvent
  -- The room, the message, the sender, and when.
  message_created : Str → Str → Str → Str → RealtimeEvent
  signal : Signal → RealtimeEvent

-- ===== src/Realtime/State.antt =====
-- What the realtime events change. (frontend/src/components/MessengerApp.tsx)
use quiteline.Base.{Bool, List, Option, ℕ, Str}
use quiteline.Wire.{Identity, Presence, Room, EncryptedMessage, RealtimeEvent, Signal}

pub record Typing : Type 0 where
  pub display_name : Str
  pub until : ℕ

pub record Seen : Type 0 where
  pub display_name : Str
  pub status : Presence
  pub last_seen_at : Str

-- The keys of the queries, without the user's id that some of them end in.
pub data Query : Type 0 where
  chat_rooms friends account_sessions : Query
  chat_identities chat_messages : Str → Query

-- What a handler has others do.
pub data Deed : Type 0 where
  refetch invalidate : Query → Deed
  -- A frame: its topic and its event.
  publish : Str → RealtimeEvent → Deed
  -- `handleAuthExpired`.
  expire : Deed
  -- `handleCallEvent`.
  call_event : Signal → Deed
  -- A notice about the socket, with its code.
  notice_socket : Str → Deed

pub record Hub : Type 0 where
  pub typing_users : List (Str × Typing)
  pub presence : List (Str × Seen)
  pub avatar_version : ℕ
  -- What the query's cache holds.
  pub rooms : Option (List Room)
  -- `liveMessages` of `useMessages`.
  pub live : List EncryptedMessage
  pub deeds : List Deed

-- What the handler's closure knows, the time in milliseconds, and the time as a text.
pub record Scene : Type 0 where
  pub identity : Option Identity
  pub current_user : Str
  pub active_room : Str
  -- `session?.principal.sessionId`.
  pub session_id : Option Str
  pub socket_open : Bool
  pub now : ℕ
  pub now_text : Str

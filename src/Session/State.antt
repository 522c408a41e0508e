-- ===== src/Session/State.antt =====
-- The state that belongs to an account. (frontend/src/components/MessengerApp.tsx)
use quiteline.Base.{Bool, List, Option, Str}
use quiteline.Wire.{AuthSession, Identity, EncryptedMessage, DecryptedMessage, Theme}
use quiteline.Realtime.State.{Typing, Seen}

pub data AppView : Type 0 where
  chat rooms profile contacts settings calls : AppView

pub data AppDeed : Type 0 where
  -- `queryClient.resetQueries` with `clear`, and the socket's `close`.
  clear_queries close_socket : AppDeed
  -- Notices, and the requests that a handler starts and does not wait for.
  notice_expired notice_two_factor notice_ready : AppDeed
  notice_error : Str → AppDeed
  ask_identity ask_principal : Str → AppDeed
  ask_logout refetch_rooms : AppDeed

pub record App : Type 0 where
  pub session : Option AuthSession
  pub identity : Option Identity
  -- The room's secrets, and the messages that are hidden here.
  pub room_secrets : List (Str × Str)
  pub local_deleted : List (Str × Bool)
  pub active_room : Str
  pub highlighted : Str
  pub live : List EncryptedMessage
  pub pending : List DecryptedMessage
  pub typing_users : List (Str × Typing)
  pub presence : List (Str × Seen)
  pub mobile_view : AppView
  pub sidebar_view : AppView
  pub actions_opened : Bool
  pub leave_opened : Bool
  pub totp_required : Bool
  pub totp_code : Str
  pub auth_error : Str
  pub invite_text : Str
  pub color_scheme : Theme
  pub display_name : Str
  pub bootstrapped : Bool
  -- `authExpiredNotifiedRef`.
  pub is_notified : Bool
  -- `localStorage`, as the values that are stringified into it.
  pub stored_secrets : List (Str × List (Str × Str))
  pub stored_deleted : List (Str × List (Str × Bool))
  pub deeds : List AppDeed

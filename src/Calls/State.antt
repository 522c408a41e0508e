-- ===== src/Calls/State.antt =====
-- The state of a call. (frontend/src/components/MessengerApp.tsx, frontend/src/types/messenger.ts)
--
-- A handler is a closure: what it reads of React state is as it was when the handler was made
-- (`seen`), while refs and setters act on the state as it is (`c`).
use quiteline.Base.{
  Bool, ◌&&◌, List, [], ◌∷◌, ◌++◌, Option, none, some, ℕ, Str, truthy, if◌then◌else◌, codes,
}
use quiteline.Js.Slice.{last}
use quiteline.Wire.{Identity, Signal, RealtimeEvent, signal, CallOutcome}

pub data CallState : Type 0 where
  idle calling ringing connecting connected failed : CallState

-- The texts that a call shows, in the language of the interface.
pub data StatusText : Type 0 where
  no_status waiting_for_answer incoming_call connecting_text : StatusText

pub data ErrorText : Type 0 where
  no_error not_answered no_media : ErrorText
  message : Str → ErrorText

-- What `callTimeoutRef` waits to do: end a call that is not answered (with the identity that the
-- closure has), or one that does not connect (with what the closure knows of the call's state).
pub data Timer : Type 0 where
  answer_timer : Str → Str → Str → Option Identity → Timer
  connection_timer : Str → CallState → Timer

-- What a handler does outside the state.
pub data Effect : Type 0 where
  -- A frame of the socket: its topic and its event.
  publish : Str → RealtimeEvent → Effect
  -- The two requests of `sendCallSystemMessage`, whose errors are dropped: the message in the room,
  -- and when that request has ended, the log's entry. They have the room, the caller, the callee, the
  -- outcome and the duration, and the entry has the start.
  post_call : Str → Str → Str → CallOutcome → ℕ → Effect
  log_call : Str → Str → Str → CallOutcome → ℕ → Option Str → Effect
  notice_nobody_to_call notice_busy notice_declined : Effect
  notice_failed : Str → Effect

pub record Call : Type 0 where
  -- React state.
  pub state : CallState
  pub incoming : Option Signal
  pub peer_name : Str
  pub peer_id : Str
  pub status : StatusText
  pub error : ErrorText
  pub diagnostics : List Str
  pub started_at : Str
  pub duration : ℕ
  -- Refs.
  pub active_call : Str
  pub active_peer : Str
  pub active_room : Str
  pub caller : Str
  pub timer : Option Timer
  pub audio_connected : Bool
  pub has_stream : Bool
  pub has_context : Bool
  pub has_processor : Bool
  pub has_source : Bool
  pub has_gain : Bool
  -- What has been done outside, in order.
  pub out : List Effect

-- What a handler finds around it: the identity, the room that is open, whether there is a session,
-- the user's id (a ref), whether the socket is open, the time, and the time as a diagnostic has it; and
-- the error that the browser throws when sound is set up to be played, or to be sent, if it does.
pub record Env : Type 0 where
  pub identity : Option Identity
  pub has_session : Bool
  pub open_room : Str
  pub my_id : Str
  pub socket_open : Bool
  pub now : Str
  pub stamp : Str
  pub playback_error : Option Str
  pub streaming_error : Option Str

abbrev pub emit : Effect → Call → Call
emit e c = record c { out = c.out ++ e ∷ [] }

-- The topic that `sendRealtimeRaw` gives a call's event.
unfoldable pub signal_topic : Str → Signal → Str
signal_topic open_room s =
    if truthy s.to_user_id
    then codes "user:" ++ s.to_user_id
    else if truthy s.room_id
    then codes "room:" ++ s.room_id
    else if truthy open_room
    then codes "room:" ++ open_room
    else []

-- `sendRealtimeRaw` of a call's event.
unfoldable pub send_signal : Env → Signal → Call → Call
unfolding signal_topic
send_signal env s c =
    if env.socket_open && truthy (signal_topic env.open_room s)
    then emit (publish (signal_topic env.open_room s) (signal s)) c
    else c

unfoldable pub add_diagnostic : Env → Str → Call → Call
unfolding last
add_diagnostic env text c = record c {
  diagnostics = last 19 c.diagnostics ++ (env.stamp ++ (b' ' ∷ text)) ∷ [];
}

unfoldable pub clear_timeout : Call → Call
clear_timeout c = record c { timer = none }

unfoldable pub arm_call_timeout : Env → Str → Str → Str → Call → Call
arm_call_timeout env call_id peer room c = record c {
  timer = some (answer_timer call_id peer room env.identity);
}

unfoldable pub arm_connection_timeout : Call → Str → Call → Call
arm_connection_timeout seen call_id c = record c {
  timer = some (connection_timer call_id seen.state);
}

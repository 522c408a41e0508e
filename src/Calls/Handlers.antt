-- ===== src/Calls/Handlers.antt =====
-- Starting and answering a call. (frontend/src/components/MessengerApp.tsx)
--
-- Each handler waits for the microphone. It is in two parts, before and after the wait; the second
-- part has the state that the first part saw.
use quiteline.Base.{
  Bool, true, false, not, ◌||◌, List, [], ◌∷◌, Option, none, some, Str, str_eq, truthy,
  if◌then◌else◌, codes,
}
use quiteline.Wire.{Identity, Signal, offer, answer}
use quiteline.Calls.State.{
  Call, CallState, idle, calling, connecting, Env, emit, notice_nobody_to_call, notice_failed,
  add_diagnostic, send_signal, arm_call_timeout, arm_connection_timeout, waiting_for_answer,
  no_error, message,
}
use quiteline.Calls.Cleanup.{cleanup_call}
use quiteline.Calls.Media.{Media, granted, denied, setup_audio_playback, start_audio_streaming}

abbrev pub is_idle : CallState → Bool
is_idle idle = true
is_idle _ = false

-- `peers.find((member) => member.userId === targetUserId)`.
unfoldable pub find_peer : Str → List Identity → Option Identity
find_peer k [] = none
find_peer k (p ∷ ps) = if str_eq p.user_id k then some p else find_peer k ps

-- `startCall` up to its wait: whom it is going to call, if anyone.
unfoldable pub begin_call : Env → List Identity → Str → Call → Call → Call × Option Identity
unfolding add_diagnostic find_peer
begin_call env peers target seen c = elim env.identity [
  | none ↦ (c, none)
  | some me ↦
      if not (truthy env.open_room) || not (is_idle seen.state)
      then (c, none)
      else elim (find_peer target peers) [
        | none ↦ (emit notice_nobody_to_call c, none)
        | some peer ↦
            (add_diagnostic env (codes "Starting call") (record c { diagnostics = [] }), some peer)
      ]
]

-- The handlers' `catch`.
unfoldable pub call_failed : Env → Bool → Str → Call → Call → Call
unfolding cleanup_call
call_failed env notify_peer reason seen c =
    cleanup_call env notify_peer true seen
      (emit (notice_failed reason) (record c { error = message reason }))

-- What `startCall` knows of the call when it has the microphone.
unfoldable pub placed : Env → Identity → Identity → Str → Bool → Call → Call
placed env me peer call_id has_context c = record c {
  has_stream = true;
  has_context = c.has_context || has_context;
  active_call = call_id;
  active_peer = peer.user_id;
  active_room = env.open_room;
  caller = me.user_id;
  peer_id = peer.user_id;
  peer_name = peer.display_name;
  error = no_error;
  state = calling;
  status = waiting_for_answer;
}

abbrev pub offer_signal : Env → Identity → Identity → Str → Signal
offer_signal env me peer call_id = record {
  kind = offer me.display_name;
  call_id = call_id;
  room_id = env.open_room;
  from_user_id = me.user_id;
  to_user_id = peer.user_id;
}

-- `startCall` after its wait; `call_id` is the new `crypto.randomUUID()`.
unfoldable pub resume_call : Env → Identity → Identity → Str → Media → Call → Call → Call
unfolding send_signal arm_call_timeout add_diagnostic call_failed placed
resume_call env me peer call_id (denied reason) seen c = call_failed env false reason seen c
resume_call env me peer call_id (granted has_context) seen c =
    add_diagnostic env (codes "Offer sent") (
      send_signal env (offer_signal env me peer call_id) (
        arm_call_timeout env call_id peer.user_id env.open_room
          (placed env me peer call_id has_context c)))

-- `answerCall` up to its wait: the call that it answers, if any.
unfoldable pub begin_answer : Env → Call → Call → Call × Option Signal
unfolding add_diagnostic
begin_answer env seen c = elim seen.incoming [
  | none ↦ (c, none)
  | some call ↦ elim env.identity [
    | none ↦ (c, none)
    | some me ↦
        (add_diagnostic env (codes "Answering call") (record c { state = connecting }), some call)
  ]
]

-- `event.displayName` of an offer.
abbrev pub offered_name : Signal → Str
offered_name s = elim s.kind [ offer name ↦ name | _ ↦ [] ]

-- What `answerCall` knows of the call when it has the microphone.
unfoldable pub taken : Signal → Bool → Call → Call
taken call has_context c = record c {
  has_stream = true;
  has_context = c.has_context || has_context;
  active_call = call.call_id;
  active_peer = call.from_user_id;
  active_room = call.room_id;
  caller = call.from_user_id;
  peer_id = call.from_user_id;
  peer_name = offered_name call;
  error = no_error;
}

abbrev pub answer_signal : Identity → Signal → Signal
answer_signal me call = record {
  kind = answer;
  call_id = call.call_id;
  room_id = call.room_id;
  from_user_id = me.user_id;
  to_user_id = call.from_user_id;
}

abbrev pub stop_ringing : Call → Call
stop_ringing c = record c { incoming = none }

-- `answerCall` after its wait.
unfoldable pub resume_answer : Env → Identity → Signal → Str → Media → Call → Call → Call
unfolding send_signal arm_connection_timeout add_diagnostic call_failed setup_audio_playback
    start_audio_streaming taken
resume_answer env me call rate (denied reason) seen c = call_failed env true reason seen c
resume_answer env me call rate (granted has_context) seen c = stop_ringing (
    add_diagnostic env (codes "Answer sent") (
      send_signal env (answer_signal me call) (
        start_audio_streaming env (
          setup_audio_playback env rate
            (arm_connection_timeout seen call.call_id (taken call has_context c))))))

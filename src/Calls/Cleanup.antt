-- ===== src/Calls/Cleanup.antt =====
-- The end of a call. (frontend/src/components/MessengerApp.tsx)
use quiteline.Base.{
  Bool, true, false, ◌&&◌, [], ◌∷◌, Option, none, some, ℕ, Str, str_eq, truthy, if◌then◌else◌, not,
}
use quiteline.Wire.{
  Identity, Signal, hangup, decline, declined_by_user, CallOutcome, completed, missed, declined,
}
use quiteline.Calls.State.{
  Call, CallState, idle, failed, connected, Env, emit, post_call, log_call, send_signal, no_status,
  no_error, not_answered, no_media, ErrorText, Timer, answer_timer, connection_timer,
}

-- `sendCallSystemMessage`, with its guard.
unfoldable pub send_call_system_message :
    Env → Str → Str → Str → CallOutcome → ℕ → Option Str → Call → Call
send_call_system_message env room caller callee outcome duration started_at c = elim env.identity [
  | none ↦ c
  | some me ↦
      if env.has_session && truthy room && truthy caller && truthy callee
      then emit (log_call room caller callee outcome duration started_at)
          (emit (post_call room caller callee outcome duration) c)
      else c
]

-- `callerID === identity?.userId ? peerID : identity?.userId ?? ''`.
abbrev pub callee_of : Option Identity → Str → Str → Str
callee_of none caller peer = []
callee_of (some me) caller peer = if str_eq caller me.user_id then peer else me.user_id

abbrev pub opt_str : Str → Option Str
opt_str [] = none
opt_str (c ∷ s) = some (c ∷ s)

-- The hang-up that `cleanupCall` sends to the peer.
unfoldable pub notify_hangup : Env → Call → Call
unfolding send_signal
notify_hangup env c = elim env.identity [
  | none ↦ c
  | some me ↦
      if truthy c.active_room && truthy c.active_call && truthy c.active_peer
      then send_signal env
          (record {
            kind = hangup;
            call_id = c.active_call;
            room_id = c.active_room;
            from_user_id = me.user_id;
            to_user_id = c.active_peer;
          })
          c
      else c
]

-- The entry that `cleanupCall` writes about the call.
unfoldable pub log_end : Env → Call → Call → Call
unfolding send_call_system_message
log_end env seen c =
    let callee = callee_of env.identity c.caller c.active_peer in
    if truthy c.active_room && truthy c.caller && truthy callee
    then send_call_system_message env c.active_room c.caller callee
        (if truthy seen.started_at then completed else missed) seen.duration
        (opt_str seen.started_at) c
    else c

-- What `cleanupCall` does after the peer has been told.
unfoldable pub release : Bool → Call → Call
release keep_error c = record c {
  state = if keep_error then failed else idle;
  incoming = none;
  peer_name = if keep_error then c.peer_name else [];
  peer_id = if keep_error then c.peer_id else [];
  status = no_status;
  error = if keep_error then c.error else no_error;
  diagnostics = if keep_error then c.diagnostics else [];
  started_at = [];
  duration = 0;
  active_call = [];
  active_peer = [];
  active_room = [];
  caller = [];
  timer = none;
  audio_connected = false;
  has_stream = false;
  has_context = false;
  has_processor = false;
  has_source = false;
  has_gain = false;
}

unfoldable pub cleanup_call : Env → Bool → Bool → Call → Call → Call
unfolding notify_hangup log_end release
cleanup_call env notify_peer keep_error seen c =
    release keep_error (if notify_peer then log_end env seen (notify_hangup env c) else c)

unfoldable pub end_call : Env → Bool → Call → Call → Call
unfolding cleanup_call
end_call env notify_peer seen c = cleanup_call env notify_peer false seen c

abbrev pub decline_signal : Identity → Signal → Signal
decline_signal me offer = record {
  kind = decline (some declined_by_user);
  call_id = offer.call_id;
  room_id = offer.room_id;
  from_user_id = me.user_id;
  to_user_id = offer.from_user_id;
}

-- What `declineIncomingCall` tells the caller and the log.
unfoldable pub tell_declined : Env → Option Signal → Option Identity → Call → Call
unfolding send_signal send_call_system_message
tell_declined env none me c = c
tell_declined env (some offer) none c = c
tell_declined env (some offer) (some me) c =
    send_call_system_message env offer.room_id offer.from_user_id me.user_id declined 0 none
      (send_signal env (decline_signal me offer) c)

unfoldable pub decline_incoming_call : Env → Call → Call → Call
unfolding tell_declined cleanup_call
decline_incoming_call env seen c =
    cleanup_call env false false seen (tell_declined env seen.incoming env.identity c)

abbrev pub give_up_signal : Identity → Str → Str → Str → Signal
give_up_signal me call_id peer room = record {
  kind = hangup;
  call_id = call_id;
  room_id = room;
  from_user_id = me.user_id;
  to_user_id = peer;
}

-- What the timer of `armCallTimeout` tells the peer.
unfoldable pub tell_not_answered : Env → Str → Str → Str → Option Identity → Call → Call
unfolding send_signal
tell_not_answered env call_id peer room none c = c
tell_not_answered env call_id peer room (some me) c =
    if truthy peer && truthy room
    then send_signal env (give_up_signal me call_id peer room) c
    else c

abbrev pub with_error : ErrorText → Call → Call
with_error e c = record c { error = e }

abbrev pub is_connected : CallState → Bool
is_connected connected = true
is_connected _ = false

-- A timer goes off. The ref keeps the timer that has gone off until it is replaced or cleared.
unfoldable pub timer_fired : Env → Timer → Call → Call → Call
unfolding tell_not_answered cleanup_call
timer_fired env (answer_timer call_id peer room me) seen c =
    if str_eq c.active_call call_id
    then cleanup_call env false true seen
        (with_error not_answered (tell_not_answered env call_id peer room me c))
    else c
timer_fired env (connection_timer call_id seen_state) seen c =
    if str_eq c.active_call call_id && not (is_connected seen_state)
    then cleanup_call env false true seen (with_error no_media c)
    else c

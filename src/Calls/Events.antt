-- ===== src/Calls/Events.antt =====
-- What a call's event from the socket does. (frontend/src/components/MessengerApp.tsx)
use quiteline.Base.{
  Bool, true, false, not, ◌||◌, [], Option, none, some, Str, str_eq, truthy, if◌then◌else◌, codes,
}
use quiteline.Wire.{
  Signal, SignalKind, offer, answer, ice, audio, hangup, decline, Reason, busy, declined_by_user,
}
use quiteline.Calls.State.{
  Call, ringing, connecting, connected, Env, Effect, emit, notice_busy, notice_declined,
  add_diagnostic, send_signal, clear_timeout, arm_call_timeout, arm_connection_timeout,
  incoming_call, connecting_text, no_error,
}
use quiteline.Calls.Cleanup.{cleanup_call}
use quiteline.Calls.Media.{setup_audio_playback, start_audio_streaming}
use quiteline.Calls.Handlers.{is_idle, offered_name}

-- An offer: the first branch of `handleCallEvent`.
unfoldable pub on_offer : Env → Signal → Call → Call → Call
unfolding send_signal arm_call_timeout add_diagnostic
on_offer env event seen c =
    if not (is_idle seen.state)
    then send_signal env
        (record {
          kind = decline (some busy);
          call_id = event.call_id;
          room_id = event.room_id;
          from_user_id = env.my_id;
          to_user_id = event.from_user_id;
        })
        c
    else arm_call_timeout env event.call_id event.from_user_id event.room_id (
        add_diagnostic env (codes "Incoming offer received") (record c {
          incoming = some event;
          diagnostics = [];
          state = ringing;
          peer_id = event.from_user_id;
          peer_name = offered_name event;
          error = no_error;
          status = incoming_call;
        }))

unfoldable pub on_answer : Env → Str → Signal → Call → Call → Call
unfolding clear_timeout arm_connection_timeout add_diagnostic setup_audio_playback
    start_audio_streaming
on_answer env rate event seen c = start_audio_streaming env (
    setup_audio_playback env rate (
      add_diagnostic env (codes "Answer received, starting audio")
        (record (arm_connection_timeout seen event.call_id
          (record (clear_timeout c) { state = connecting })) { status = connecting_text })))

-- A chunk of sound. (Playing it changes nothing of this state.)
unfoldable pub on_audio : Env → Call → Call
unfolding clear_timeout add_diagnostic
on_audio env c =
    if c.audio_connected
    then c
    else add_diagnostic env (codes "Audio connected")
        (record (clear_timeout (record c { audio_connected = true })) {
          state = connected;
          started_at = env.now;
        })

abbrev pub decline_notice : Option Reason → Effect
decline_notice none = notice_declined
decline_notice (some busy) = notice_busy
decline_notice (some declined_by_user) = notice_declined

-- The branches behind the test on the call's id.
unfoldable pub on_active : Env → Str → Signal → Call → Call → Call
unfolding on_answer on_audio cleanup_call
on_active env rate event seen c = elim event.kind [
  | offer name ↦ c
  | answer ↦ on_answer env rate event seen c
  | ice candidate ↦ c
  | audio chunk seq ↦ on_audio env c
  | hangup ↦ cleanup_call env false false seen c
  | decline reason ↦ cleanup_call env false false seen (emit (decline_notice reason) c)
]

abbrev pub is_offer : SignalKind → Bool
is_offer (offer name) = true
is_offer _ = false

-- `handleCallEvent`; `rate` is the text of the audio context's sample rate.
unfoldable pub handle_call_event : Env → Str → Signal → Call → Call → Call
unfolding on_offer on_active
handle_call_event env rate event seen c =
    if not (truthy env.my_id)
      || str_eq event.from_user_id env.my_id
      || not (str_eq event.to_user_id env.my_id)
    then c
    else if is_offer event.kind
    then on_offer env event seen c
    else if str_eq event.call_id c.active_call
    then on_active env rate event seen c
    else c

-- ===== src/Calls/Late.antt =====
-- A microphone that is granted late. (frontend/src/components/MessengerApp.tsx)
use quiteline.Base.{◌≡◌, ◌∙◌, Bool, true, Str, arith}
use quiteline.Wire.{Identity, Signal}
use quiteline.Calls.State.{Call, Env, idle, send_signal, add_diagnostic, arm_connection_timeout}
use quiteline.Calls.Cleanup.{end_call, cleanup_call, release}
use quiteline.Calls.Media.{granted, setup_audio_playback, start_audio_streaming}
use quiteline.Calls.Handlers.{resume_answer, taken, answer_signal}

-- The state that is shown, the microphone and the call under way are the same.
abbrev IsAlike : Call → Call → Type 0
IsAlike c d = (d.state ≡ c.state) × (d.has_stream ≡ c.has_stream) × (d.active_call ≡ c.active_call)

IsAlike-then : (c d e : Call) → IsAlike c d → IsAlike d e → IsAlike c e
IsAlike-then c d e p q = (q.0 ∙ p.0, q.1 ∙ p.1, q.2 ∙ p.2)

send_signal-IsAlike : (env : Env) (s : Signal) (c : Call) → IsAlike c (send_signal env s c)
unfolding send_signal
send_signal-IsAlike env s c = ground arith

start_audio_streaming-IsAlike : (env : Env) (c : Call) → IsAlike c (start_audio_streaming env c)
unfolding start_audio_streaming add_diagnostic
start_audio_streaming-IsAlike env c = ground arith

setup_audio_playback-IsAlike :
    (env : Env) (rate : Str) (c : Call) → IsAlike c (setup_audio_playback env rate c)
unfolding setup_audio_playback add_diagnostic
setup_audio_playback-IsAlike env rate c = ground arith

resume_answer-IsAlike :
    (env : Env) (me : Identity) (call : Signal) (rate : Str) (ctx : Bool) (seen c : Call)
    → IsAlike (taken call ctx c) (resume_answer env me call rate (granted ctx) seen c)
unfolding resume_answer add_diagnostic arm_connection_timeout
resume_answer-IsAlike env me call rate ctx seen c =
    let armed = arm_connection_timeout seen call.call_id (taken call ctx c) in
    let played = setup_audio_playback env rate armed in
    let heard = start_audio_streaming env played in
    IsAlike-then armed heard (send_signal env (answer_signal me call) heard)
      (IsAlike-then armed played heard (setup_audio_playback-IsAlike env rate armed)
        (start_audio_streaming-IsAlike env played))
      (send_signal-IsAlike env (answer_signal me call) heard)

-- If a call is ended while its answer waits for the microphone, and the microphone is granted then,
-- the client shows no call, but holds the microphone and has the ended call's id for the call under
-- way.
pub late_microphone :
    (env env' : Env) (me : Identity) (call : Signal) (rate : Str) (ctx notify : Bool)
    (seen seen' c : Call)
    → ((resume_answer env me call rate (granted ctx) seen (end_call env' notify seen' c)).state
        ≡ idle)
      × ((resume_answer env me call rate
            (granted ctx)
            seen
            (end_call env' notify seen' c)).has_stream
          ≡ true)
      × ((resume_answer env me call rate
            (granted ctx)
            seen
            (end_call env' notify seen' c)).active_call
          ≡ call.call_id)
unfolding end_call cleanup_call release taken
late_microphone env env' me call rate ctx notify seen seen' c =
    resume_answer-IsAlike env me call rate ctx seen (end_call env' notify seen' c)

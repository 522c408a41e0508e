-- ===== src/Calls/EventsInvariant.antt =====
-- The invariant across a call's events. (frontend/src/components/MessengerApp.tsx)
use quiteline.Base.{Bool, true, false, some, Str, str_eq, arith, if◌then◌else◌, codes}
use quiteline.Wire.{Signal, SignalKind, offer, answer, ice, audio, hangup, decline}
use quiteline.Calls.State.{
  Call, connecting, Env, emit, send_signal, add_diagnostic, arm_call_timeout, clear_timeout,
  arm_connection_timeout, connection_timer, connecting_text,
}
use quiteline.Calls.Cleanup.{cleanup_call}
use quiteline.Calls.Media.{setup_audio_playback}
use quiteline.Calls.Events.{
  handle_call_event, on_offer, on_answer, on_audio, on_active, decline_notice, is_offer,
}
use quiteline.Calls.Invariant.{
  Inv, cleanup_call-Inv, add_diagnostic-Inv, setup_audio_playback-Inv, start_audio_streaming-Inv,
}

pub on_offer-Inv : (env : Env) (e : Signal) (c : Call) → Inv c → Inv (on_offer env e c c)
unfolding on_offer arm_call_timeout add_diagnostic send_signal
on_offer-Inv env e c h = ground arith

pub on_answer-Inv :
    (env : Env) (rate : Str) (e : Signal) (c : Call) → Inv c → Inv (on_answer env rate e c c)
unfolding on_answer clear_timeout arm_connection_timeout
on_answer-Inv env rate e c h =
    let base = record c {
      timer = some (connection_timer e.call_id c.state);
      state = connecting;
      status = connecting_text;
    } in
    let noted = add_diagnostic env (codes "Answer received, starting audio") base in
    start_audio_streaming-Inv env (setup_audio_playback env rate noted) (
      setup_audio_playback-Inv env rate noted
        (add_diagnostic-Inv env (codes "Answer received, starting audio") base (ground arith)))

pub on_audio-Inv : (env : Env) (c : Call) → Inv c → Inv (on_audio env c)
unfolding on_audio clear_timeout add_diagnostic
on_audio-Inv env c h = ground arith

pub on_active-Inv :
    (env : Env) (rate : Str) (e : Signal) (c : Call) → Inv c → Inv (on_active env rate e c c)
unfolding on_active
on_active-Inv env rate e c h = go e.kind
  where
    go :
        (k : SignalKind)
        → Inv (elim k [
          | offer name ↦ c
          | answer ↦ on_answer env rate e c c
          | ice candidate ↦ c
          | audio chunk seq ↦ on_audio env c
          | hangup ↦ cleanup_call env false false c c
          | decline reason ↦ cleanup_call env false false c (emit (decline_notice reason) c)
        ])
    go (offer name) = h
    go answer = on_answer-Inv env rate e c h
    go (ice candidate) = h
    go (audio chunk seq) = on_audio-Inv env c h
    go hangup = cleanup_call-Inv env false false c c
    go (decline reason) = cleanup_call-Inv env false false c (emit (decline_notice reason) c)

pub if-Inv : (b : Bool) (c d : Call) → Inv c → Inv d → Inv (if b then c else d)
if-Inv true c d h k = h
if-Inv false c d h k = k

pub handle_call_event-Inv :
    (env : Env) (rate : Str) (e : Signal) (c : Call)
    → Inv c
    → Inv (handle_call_event env rate e c c)
unfolding handle_call_event
handle_call_event-Inv env rate e c h = if-Inv _ c _ h (
    if-Inv (is_offer e.kind) (on_offer env e c c)
      (if str_eq e.call_id c.active_call then on_active env rate e c c else c)
      (on_offer-Inv env e c h)
      (if-Inv (str_eq e.call_id c.active_call) (on_active env rate e c c) c
        (on_active-Inv env rate e c h) h))

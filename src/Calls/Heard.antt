-- ===== src/Calls/Heard.antt =====
-- What one client's calls tell another. (frontend/src/components/MessengerApp.tsx)
use quiteline.Base.{
  ◌≡◌, refl, ap, ◌∙◌, Bool, true, List, [], ◌∷◌, ◌++◌, Str, str_eq, str_eq_refl, truthy, codes,
  if◌then◌else◌, arith,
}
use quiteline.Wire.{Identity, Signal, RealtimeEvent, signal}
use quiteline.Calls.State.{
  Call, Env, Effect, publish, send_signal, signal_topic, add_diagnostic, arm_call_timeout,
  arm_connection_timeout,
}
use quiteline.Calls.Media.{granted, setup_audio_playback, start_audio_streaming}
use quiteline.Calls.Handlers.{
  resume_call, resume_answer, placed, taken, offer_signal, answer_signal,
}
use quiteline.Calls.Events.{handle_call_event}

abbrev as_signal : RealtimeEvent → List Signal
as_signal (signal e) = e ∷ []
as_signal _ = []

-- The call's event that an effect publishes to a user.
abbrev heard_of : Str → Effect → List Signal
heard_of user (publish topic e) = if str_eq topic (codes "user:" ++ user) then as_signal e else []
heard_of user _ = []

-- The call's events that a client publishes to a user, in their order.
abbrev pub heard : Str → List Effect → List Signal
heard user [] = []
heard user (e ∷ es) = heard_of user e ++ heard user es

-- A client handles events, one after the other, each handler seeing the state as it is.
abbrev pub hear_all : Env → Str → List Signal → Call → Call
hear_all env rate [] c = c
hear_all env rate (e ∷ es) c = hear_all env rate es (handle_call_event env rate e c c)

pub heard_one :
    (user : Str) (s : Signal) (rest : List Effect)
    → heard user (publish (codes "user:" ++ user) (signal s) ∷ rest) ≡ s ∷ heard user rest
heard_one user s rest = rw (str_eq_refl (codes "user:" ++ user)) refl

-- A signal to a user goes out on that user's topic, if the socket is open.
pub out-send_signal :
    (env : Env) (s : Signal) (c : Call)
    → env.socket_open ≡ true
    → truthy s.to_user_id ≡ true
    → (send_signal env s c).out ≡ c.out ++ publish (codes "user:" ++ s.to_user_id) (signal s) ∷ []
unfolding send_signal signal_topic
out-send_signal env s c o t = ground (arith, o, t)

pub out-resume_call :
    (env : Env) (me peer : Identity) (call_id : Str) (b : Bool) (seen c : Call)
    → env.socket_open ≡ true
    → truthy peer.user_id ≡ true
    → (resume_call env me peer call_id (granted b) seen c).out
      ≡ c.out
        ++ publish (codes "user:" ++ peer.user_id) (signal (offer_signal env me peer call_id)) ∷ []
unfolding resume_call add_diagnostic arm_call_timeout placed
out-resume_call env me peer call_id b seen c o t =
    out-send_signal env (offer_signal env me peer call_id)
      (arm_call_timeout env call_id peer.user_id env.open_room (placed env me peer call_id b c)) o t

out-start_audio_streaming : (env : Env) (c : Call) → (start_audio_streaming env c).out ≡ c.out
unfolding start_audio_streaming add_diagnostic
out-start_audio_streaming env c = ground arith

out-setup_audio_playback :
    (env : Env) (rate : Str) (c : Call) → (setup_audio_playback env rate c).out ≡ c.out
unfolding setup_audio_playback add_diagnostic
out-setup_audio_playback env rate c = ground arith

pub out-resume_answer :
    (env : Env) (me : Identity) (call : Signal) (rate : Str) (b : Bool) (seen c : Call)
    → env.socket_open ≡ true
    → truthy call.from_user_id ≡ true
    → (resume_answer env me call rate (granted b) seen c).out
      ≡ c.out ++ publish (codes "user:" ++ call.from_user_id) (signal (answer_signal me call)) ∷ []
unfolding resume_answer add_diagnostic arm_connection_timeout taken
out-resume_answer env me call rate b seen c o t =
    let base = arm_connection_timeout seen call.call_id (taken call b c) in
    out-send_signal env (answer_signal me call)
      (start_audio_streaming env (setup_audio_playback env rate base)) o t
    ∙ ap
        (λ (es : List Effect).
          es ++ publish (codes "user:" ++ call.from_user_id) (signal (answer_signal me call)) ∷ [])
        (out-start_audio_streaming env (setup_audio_playback env rate base)
          ∙ out-setup_audio_playback env rate base)

-- ===== src/Calls/HandlersInvariant.antt =====
-- The invariant across starting and answering a call. (frontend/src/components/MessengerApp.tsx)
use quiteline.Base.{
  ◌≡◌, ◌≢◌, refl, Bool, true, false, List, none, Str, arith, ◌⊎◌, codes, subst, sym, ap, ◌∙◌,
}
use quiteline.Wire.{Identity, Signal}
use quiteline.Calls.State.{
  Call, connecting, Env, emit, send_signal, add_diagnostic, arm_call_timeout,
  arm_connection_timeout, notice_failed, message,
}
use quiteline.Calls.Media.{Media, setup_audio_playback, start_audio_streaming, granted, denied}
use quiteline.Calls.Handlers.{
  begin_call, resume_call, begin_answer, resume_answer, call_failed, placed, taken, offer_signal,
  answer_signal, stop_ringing,
}
use quiteline.Calls.Invariant.{
  Inv, cleanup_call-Inv, send_signal-Inv, add_diagnostic-Inv, setup_audio_playback-Inv,
  start_audio_streaming-Inv,
}

pub call_failed-Inv :
    (env : Env) (n : Bool) (reason : Str) (seen c : Call) → Inv (call_failed env n reason seen c)
unfolding call_failed
call_failed-Inv env n reason seen c =
    cleanup_call-Inv env n true seen
      (emit (notice_failed reason) (record c { error = message reason }))

pub placed-Inv :
    (env : Env) (me peer : Identity) (call_id : Str) (b : Bool) (c : Call)
    → c.incoming ≡ none
    → Inv (arm_call_timeout env call_id peer.user_id env.open_room (placed env me peer call_id b c))
unfolding arm_call_timeout placed
placed-Inv env me peer call_id b c q = ground arith

pub resume_call-Inv :
    (env : Env) (me peer : Identity) (call_id : Str) (media : Media) (seen c : Call)
    → c.incoming ≡ none
    → Inv (resume_call env me peer call_id media seen c)
unfolding resume_call
resume_call-Inv env me peer call_id (denied reason) seen c q =
    call_failed-Inv env false reason seen c
resume_call-Inv env me peer call_id (granted b) seen c q =
    let armed =
      arm_call_timeout env call_id peer.user_id env.open_room (placed env me peer call_id b c) in
    add_diagnostic-Inv env (codes "Offer sent")
      (send_signal env (offer_signal env me peer call_id) armed)
      (send_signal-Inv env (offer_signal env me peer call_id) armed
        (placed-Inv env me peer call_id b c q))

-- Of a state in which a call is being connected, only the incoming call may be left over.
pub taken-Inv :
    (seen : Call) (call : Signal) (b : Bool) (c : Call)
    → c.state ≡ connecting
    → Inv (stop_ringing (arm_connection_timeout seen call.call_id (taken call b c)))
unfolding arm_connection_timeout taken
taken-Inv seen call b c q = ground arith

stop_ringing-add_diagnostic :
    (env : Env) (t : Str) (c : Call)
    → stop_ringing (add_diagnostic env t c) ≡ add_diagnostic env t (stop_ringing c)
unfolding add_diagnostic
stop_ringing-add_diagnostic env t c = refl

stop_ringing-send_signal :
    (env : Env) (s : Signal) (c : Call)
    → stop_ringing (send_signal env s c) ≡ send_signal env s (stop_ringing c)
unfolding send_signal
stop_ringing-send_signal env s c = ground arith

stop_ringing-setup_audio_playback :
    (env : Env) (rate : Str) (c : Call)
    → stop_ringing (setup_audio_playback env rate c)
      ≡ setup_audio_playback env rate (stop_ringing c)
unfolding setup_audio_playback add_diagnostic
stop_ringing-setup_audio_playback env rate c = ground arith

stop_ringing-start_audio_streaming :
    (env : Env) (c : Call)
    → stop_ringing (start_audio_streaming env c) ≡ start_audio_streaming env (stop_ringing c)
unfolding start_audio_streaming add_diagnostic
stop_ringing-start_audio_streaming env c = ground arith

pub resume_answer-Inv :
    (env : Env) (me : Identity) (call : Signal) (rate : Str) (media : Media) (seen c : Call)
    → c.state ≡ connecting
    → Inv (resume_answer env me call rate media seen c)
unfolding resume_answer
resume_answer-Inv env me call rate (denied reason) seen c q = call_failed-Inv env true reason seen c
resume_answer-Inv env me call rate (granted b) seen c q =
    let base = arm_connection_timeout seen call.call_id (taken call b c) in
    let playing = setup_audio_playback env rate base in
    let streaming = start_audio_streaming env playing in
    let told = send_signal env (answer_signal me call) streaming in
    subst Inv
      (sym (
        stop_ringing-add_diagnostic env (codes "Answer sent") told
        ∙ ap (add_diagnostic env (codes "Answer sent")) (
            stop_ringing-send_signal env (answer_signal me call) streaming
            ∙ ap (send_signal env (answer_signal me call)) (
                stop_ringing-start_audio_streaming env playing
                ∙ ap (start_audio_streaming env)
                    (stop_ringing-setup_audio_playback env rate base)))))
      (add_diagnostic-Inv env (codes "Answer sent") _ (
        send_signal-Inv env (answer_signal me call) _ (
          start_audio_streaming-Inv env _
            (setup_audio_playback-Inv env rate (stop_ringing base) (taken-Inv seen call b c q)))))

pub begin_call-Inv :
    (env : Env) (peers : List Identity) (target : Str) (c : Call)
    → Inv c
    → Inv (begin_call env peers target c c).0
      × (((begin_call env peers target c c).1 ≡ none)
          ⊎ ((begin_call env peers target c c).0.incoming ≡ none))
unfolding begin_call add_diagnostic
begin_call-Inv env peers target c h = ground arith

pub begin_answer-incoming :
    (env : Env) (c : Call)
    → ((begin_answer env c c).1 ≡ none) × ((begin_answer env c c).0 ≡ c)
      ⊎ ((begin_answer env c c).1 ≢ none)
        × ((begin_answer env c c).0.state ≡ connecting)
        × (env.identity ≢ none)
unfolding begin_answer add_diagnostic
begin_answer-incoming env c = ground arith
